-- ===== src/Server/Watches.antt =====
-- Who is registered for a path in `file_map` or `file_map_open`
-- (Basic_Operation/server_code/filesystem_server.hpp), and how the updates of these maps change it.

-- The client is registered for the path.

use distributed_filesystem.Base.{
  Bool, Bool-cases, List, Option, Option-cases, [], ap, arith, false, if◌then◌else◌, inl, inr, none,
  not, refl, some, subst, ◌&&◌, ◌∙◌, ◌∷◌, ◌≡◌,
}
use distributed_filesystem.Dict.{
  After, Dict, IsSorted, get, get-After, get-put, get-put_self, get-remove, get-remove_self, put,
  remove,
}
use distributed_filesystem.Members.{contains, contains-erase, erase}
use distributed_filesystem.Server.Callbacks.{forget_client}
use distributed_filesystem.Server.State.{clients_at}
use distributed_filesystem.Server.Transfer.{leave}
use distributed_filesystem.Server.WellFormed.{forget_client-After}
use distributed_filesystem.Text.{Text, text_eq, text_eq_iff, text_eq_refl}

unfoldable pub watches : Dict (List Text) → Text → Text → Bool
unfolding clients_at contains
watches m path c = contains c (clients_at m path)

pub watches-get :
    (m n : Dict (List Text)) (p q k : Text) → get p m ≡ get q n → watches m p k ≡ watches n q k
unfolding watches
watches-get m n p q k e =
    ap (λ (o : Option (List Text)). contains k (elim o [ none ↦ [] | some clients ↦ clients ])) e

pub watches-some :
    (m : Dict (List Text)) (path c : Text) (clients : List Text)
    → get path m ≡ some clients
    → watches m path c ≡ contains c clients
unfolding watches
watches-some m path c clients e = rw (e, clients_at)

pub watches-none :
    (m : Dict (List Text)) (path c : Text) → get path m ≡ none → watches m path c ≡ false
unfolding watches
watches-none m path c e = rw (e, clients_at)

pub watches-remove :
    (q p k : Text) (m : Dict (List Text))
    → watches (remove q m) p k ≡ (if text_eq q p then false else watches m p k)
watches-remove q p k m = elim (Bool-cases (text_eq q p)) [
  | inl e ↦ rw e (watches-none (remove q m) p k (get-remove q p m ∙ rw e))
  | inr e ↦ rw e (watches-get (remove q m) m p p k (get-remove q p m ∙ rw e))
]

pub watches-put :
    (q p k : Text) (clients : List Text) (m : Dict (List Text))
    → watches (put q clients m) p k ≡ (if text_eq q p then contains k clients else watches m p k)
watches-put q p k clients m = elim (Bool-cases (text_eq q p)) [
  | inl e ↦ rw e (watches-some (put q clients m) p k clients (get-put q p clients m ∙ rw e))
  | inr e ↦ rw e (watches-get (put q clients m) m p p k (get-put q p clients m ∙ rw e))
]

watches-left :
    (path c : Text) (m : Dict (List Text)) (left : List Text)
    → contains c left ≡ false
    → watches (elim left [ [] ↦ remove path m | d ∷ rest ↦ put path (d ∷ rest) m ]) path c ≡ false
watches-left path c m [] h = watches-none (remove path m) path c (get-remove_self path m)
watches-left path c m (d ∷ rest) h =
    watches-some (put path (d ∷ rest) m) path c (d ∷ rest) (get-put_self path (d ∷ rest) m) ∙ h

pub watches-leave : (path c : Text) (m : Dict (List Text)) → watches (leave path c m) path c ≡ false
unfolding leave
watches-leave path c m = elim (Option-cases (get path m)) [
  | inl e ↦ rw (e, leave) (watches-none m path c e)
  | inr (clients, e) ↦
      rw (e, leave)
        (watches-left path c m (erase c clients) (rw (contains-erase c c clients, text_eq_refl c)))
]

watches-cons :
    (j p k : Text) (clients : List Text) (m : Dict (List Text))
    → watches ((j, clients) ∷ m) p k ≡ (if text_eq j p then contains k clients else watches m p k)
unfolding get
watches-cons j p k clients m = elim (Bool-cases (text_eq j p)) [
  | inl e ↦ rw e (watches-some ((j, clients) ∷ m) p k clients (rw (e, get)))
  | inr e ↦ rw e (watches-get ((j, clients) ∷ m) m p p k (rw (e, get)))
]

-- One entry of `cleanup_client`'s loop: what is left of it stands before the rest, or nothing is.
watches-kept :
    (j p k : Text) (left : List Text) (kept : Dict (List Text))
    → After j kept
    → watches (elim left [ [] ↦ kept | c ∷ cs ↦ (j, c ∷ cs) ∷ kept ]) p k
      ≡ (if text_eq j p then contains k left else watches kept p k)
unfolding contains
watches-kept j p k [] kept h = elim (Bool-cases (text_eq j p)) [
  | inl e ↦ rw e (
      watches-none kept p k
        (get-After p kept (subst (λ q. After q kept) ((text_eq_iff j p).0 e) h)))
  | inr e ↦ rw e
]
watches-kept j p k (c ∷ cs) kept h = watches-cons j p k (c ∷ cs) kept

-- `cleanup_client` takes the client out of every set, and nobody else out of any.
pub watches-forget_client :
    (c p k : Text) (m : Dict (List Text))
    → IsSorted m
    → watches (forget_client c m) p k ≡ (not (text_eq c k) && watches m p k)
unfolding forget_client
watches-forget_client c p k [] h = rw (watches-none [] p k (unfold get in refl)) (ground arith)
watches-forget_client c p k ((j, clients) ∷ m) h =
    watches-kept j p k (erase c clients) (forget_client c m) (forget_client-After c j m h.0)
    ∙ rw
        (
          watches-cons j p k clients m,
          contains-erase c k clients,
          watches-forget_client c p k m h.1,
        )
        (ground arith)
