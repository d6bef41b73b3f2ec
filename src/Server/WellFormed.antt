-- ===== src/Server/WellFormed.antt =====
-- The invariant of the server's tables (Basic_Operation/server_code/filesystem_server.hpp).
use distributed_filesystem.Base.{
  ℕ, ◌<◌, ◌≡◌, List, [], ◌∷◌, some, arith, length, ◌+◌, Option-cases, inl, inr,
}
use distributed_filesystem.Text.{Text, text_eq_iff}
use distributed_filesystem.Dict.{
  Dict, get, put, remove, IsSorted, AllValues, After, put-IsSorted, put-AllValues, remove-IsSorted,
  remove-AllValues, get-AllValues, get-put, get-remove,
}
use distributed_filesystem.Members.{
  Distinct, contains, insert, erase, insert-Distinct, erase-Distinct,
}
use distributed_filesystem.Server.State.{Server, clients_at}
use distributed_filesystem.Server.Callbacks.{forget_client}
use distributed_filesystem.Server.Transfer.{register, leave}

abbrev pub IsNonempty : List Text → Type 0
IsNonempty [] = ⊥
IsNonempty (c ∷ s) = Unit {0}

-- A set of clients: not empty, and nobody in it twice.
abbrev pub IsClientSet : List Text → Type 0
IsClientSet s = IsNonempty s × Distinct s

-- A map from paths to sets of clients: each path once, each with a set that is not empty.
abbrev pub IsWatchMap : Dict (List Text) → Type 0
IsWatchMap m = IsSorted m × AllValues IsClientSet m

-- Addresses of queues are allocated, and no two clients share one.
pub record HasOwnQueues (subscribers : Dict ℕ) (limit : ℕ) : Type 0 where
  pub allocated : (c : Text) (i : ℕ) → get c subscribers ≡ some i → i < limit
  pub separate :
      (c d : Text) (i : ℕ) → get c subscribers ≡ some i → get d subscribers ≡ some i → c ≡ d

pub record IsWellFormed {D : Type 0} (s : Server D) : Type 0 where
  pub watchers : IsWatchMap s.file_map
  pub openers : IsWatchMap s.file_map_open
  pub clients : Distinct s.clients_db
  pub own_queues : HasOwnQueues s.subscribers (length s.queues)

pub insert-IsClientSet : (c : Text) (s : List Text) → Distinct s → IsClientSet (insert c s)
unfolding insert contains
insert-IsClientSet c [] h = ground arith
insert-IsClientSet c (d ∷ s) h = ground (arith, insert-Distinct c (d ∷ s) h)

pub clients_at-Distinct :
    (m : Dict (List Text)) (path : Text) → IsWatchMap m → Distinct (clients_at m path)
unfolding clients_at
clients_at-Distinct m path h = elim (Option-cases (get path m)) [
  | inl e ↦ rw (e, clients_at) tt
  | inr (clients, e) ↦ rw (e, clients_at) (get-AllValues IsClientSet path clients m h.1 e).1
]

pub register-IsWatchMap :
    (path c : Text) (m : Dict (List Text)) → IsWatchMap m → IsWatchMap (register path c m)
unfolding register
register-IsWatchMap path c m h = (
  put-IsSorted path _ m h.0,
  put-AllValues IsClientSet path _ m (insert-IsClientSet c _ (clients_at-Distinct m path h)) h.1,
)

pub put-IsWatchMap :
    (path : Text) (clients : List Text) (m : Dict (List Text))
    → IsClientSet clients
    → IsWatchMap m
    → IsWatchMap (put path clients m)
put-IsWatchMap path clients m c h =
    (put-IsSorted path clients m h.0, put-AllValues IsClientSet path clients m c h.1)

pub remove-IsWatchMap :
    (path : Text) (m : Dict (List Text)) → IsWatchMap m → IsWatchMap (remove path m)
remove-IsWatchMap path m h = (remove-IsSorted path m h.0, remove-AllValues IsClientSet path m h.1)

left-IsWatchMap :
    (path : Text) (m : Dict (List Text)) (left : List Text)
    → Distinct left
    → IsWatchMap m
    → IsWatchMap (elim left [ [] ↦ remove path m | c ∷ rest ↦ put path (c ∷ rest) m ])
left-IsWatchMap path m [] d h = remove-IsWatchMap path m h
left-IsWatchMap path m (c ∷ rest) d h = put-IsWatchMap path (c ∷ rest) m (tt, d) h

pub leave-IsWatchMap :
    (path c : Text) (m : Dict (List Text)) → IsWatchMap m → IsWatchMap (leave path c m)
unfolding leave
leave-IsWatchMap path c m h = elim (Option-cases (get path m)) [
  | inl e ↦ rw (e, leave) h
  | inr (clients, e) ↦
      rw (e, leave)
        (left-IsWatchMap path m (erase c clients)
          (erase-Distinct c clients (get-AllValues IsClientSet path clients m h.1 e).1) h)
]

pub forget_client-After :
    (c k : Text) (m : Dict (List Text)) → After k m → After k (forget_client c m)
unfolding forget_client
forget_client-After c k [] h = tt
forget_client-After c k ((j, clients) ∷ m) h = ground (arith, forget_client-After c k m h.1)

pub forget_client-IsWatchMap :
    (c : Text) (m : Dict (List Text)) → IsWatchMap m → IsWatchMap (forget_client c m)
unfolding forget_client
forget_client-IsWatchMap c [] h = h
forget_client-IsWatchMap c ((j, clients) ∷ m) ((a, s), (d, v)) = ground (
  arith,
  forget_client-IsWatchMap c m (s, v),
  forget_client-After c j m a,
  erase-Distinct c clients d.1,
)

pub subscribe-HasOwnQueues :
    (m : Dict ℕ) (limit : ℕ) (c : Text)
    → HasOwnQueues m limit
    → HasOwnQueues (put c limit m) (limit + 1)
subscribe-HasOwnQueues m limit c h = record {
  allocated = λ d i e. ground (arith, get-put c d limit m, h.allocated d i);
  separate = λ d k i e f. ground (
    arith,
    get-put c d limit m,
    get-put c k limit m,
    h.allocated d i,
    h.allocated k i,
    h.separate d k i,
    text_eq_iff c d,
    text_eq_iff c k,
  );
}

pub remove-HasOwnQueues :
    (m : Dict ℕ) (limit : ℕ) (c : Text) → HasOwnQueues m limit → HasOwnQueues (remove c m) limit
remove-HasOwnQueues m limit c h = record {
  allocated = λ d i e. ground (arith, get-remove c d m, h.allocated d i);
  separate = λ d k i e f. ground (arith, get-remove c d m, get-remove c k m, h.separate d k i);
}

pub HasOwnQueues-empty : HasOwnQueues [] 0
unfolding get
HasOwnQueues-empty = record { allocated = λ c i e. cc; separate = λ c d i e f. cc }
