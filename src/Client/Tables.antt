-- ===== src/Client/Tables.antt =====
-- The tables of the client: every opened file is in the cache and has a mutex, and the changes that
-- the calls make of the tables keep that.

use distributed_filesystem.Base.{
  List, [], arith, false, none, not, option_ind, refl, some, true, ◌&&◌, ◌||◌, ◌≡◌,
}
use distributed_filesystem.Client.Files.{has_key}
use distributed_filesystem.Client.State.{FileInfo, FileStreams, update}
use distributed_filesystem.Dict.{Dict, get, get-put, get-remove, put, remove}
use distributed_filesystem.Members.{contains, contains-erase, contains-insert, erase, insert}
use distributed_filesystem.Text.{Text, text_eq, text_eq_iff, text_eq_refl}

module _ {ℓ} {V : Type ℓ} where
  pub has_key-put :
      (k j : Text) (v : V) (m : Dict V) → has_key j (put k v m) ≡ (text_eq k j || has_key j m)
  unfolding has_key
  has_key-put k j v m = ground (arith, get-put k j v m)

  pub has_key-remove :
      (k j : Text) (m : Dict V) → has_key j (remove k m) ≡ (not (text_eq k j) && has_key j m)
  unfolding has_key
  has_key-remove k j m = ground (arith, get-remove k j m)

  pub removed_key : (k : Text) (m : Dict V) → has_key k (remove k m) ≡ false
  removed_key k m = ground (arith, has_key-remove k k m, text_eq_refl k)

  pub has_key-some : (k : Text) (m : Dict V) (v : V) → get k m ≡ some v → has_key k m ≡ true
  unfolding has_key
  has_key-some k m v e = rw (e, has_key)

  pub has_key-none : (k : Text) (m : Dict V) → get k m ≡ none → has_key k m ≡ false
  unfolding has_key
  has_key-none k m e = rw (e, has_key)

  pub put_key : (k : Text) (v : V) (m : Dict V) → has_key k (put k v m) ≡ true
  put_key k v m = ground (arith, has_key-put k k v m, text_eq_refl k)

  pub has_key-update :
      (k j : Text) (f : V → V) (m : Dict V) → has_key j (update k f m) ≡ has_key j m
  unfolding update has_key
  has_key-update k j f m =
      option_ind (λ n. has_key j n ≡ has_key j m) (get k m) m (λ v. put k (f v) m) (λ _. refl)
        (λ v e. ground (arith, get-put k j (f v) m, text_eq_iff k j))

unfoldable pub Covers : Dict FileStreams → Dict FileInfo → List Text → Type 0
Covers opened cache mutexes =
    (p : Text) → has_key p opened ≡ true → (has_key p cache ≡ true) × (contains p mutexes ≡ true)

module _ (opened : Dict FileStreams) (cache : Dict FileInfo) (mutexes : List Text)
    (w : Covers opened cache mutexes) (k : Text) where
  pub mark_opened-Covers :
      (s : FileStreams) → has_key k cache ≡ true → Covers (put k s opened) cache (insert k mutexes)
  unfolding Covers
  mark_opened-Covers s h p q =
      ground (arith, has_key-put k p s opened, contains-insert k p mutexes, text_eq_iff k p, w p)

  pub restream-Covers :
      (s : FileStreams) → has_key k opened ≡ true → Covers (put k s opened) cache mutexes
  unfolding Covers
  restream-Covers s h p q = ground (arith, has_key-put k p s opened, text_eq_iff k p, w p)

  pub cached-Covers : (v : FileInfo) → Covers opened (put k v cache) mutexes
  unfolding Covers
  cached-Covers v p q = ground (arith, has_key-put k p v cache, w p)

  pub updated-Covers : (f : FileInfo → FileInfo) → Covers opened (update k f cache) mutexes
  unfolding Covers
  updated-Covers f p q = ground (arith, has_key-update k p f cache, w p)

  pub erased-Covers : Covers (remove k opened) cache (erase k mutexes)
  unfolding Covers
  erased-Covers p q = ground (arith, has_key-remove k p opened, contains-erase k p mutexes, w p)

  pub uncached-Covers : has_key k opened ≡ false → Covers opened (remove k cache) mutexes
  unfolding Covers
  uncached-Covers h p q = ground (arith, has_key-remove k p cache, text_eq_iff k p, w p)

  pub forgotten-Covers : Covers (remove k opened) (remove k cache) (erase k mutexes)
  unfolding Covers
  forgotten-Covers p q =
      ground (
        arith,
        has_key-remove k p opened,
        has_key-remove k p cache,
        contains-erase k p mutexes,
        w p,
      )

  pub uncached_not_opened : has_key k cache ≡ false → has_key k opened ≡ false
  unfolding Covers
  uncached_not_opened h = ground (arith, w k)

pub Covers-nil : Covers [] [] []
unfolding Covers has_key
Covers-nil p q = absurd (ground arith)
