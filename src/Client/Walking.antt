-- ===== src/Client/Walking.antt =====
-- The walk of `update_map_keys` (Basic_Operation/client_code/filesystem_client.cpp) ends: weights of
-- the keys that are still to come.

use distributed_filesystem.Base.{
  Bool, Option, [], ap, arith, drop, false, if_ind, if◌then◌else◌, length, length-append, none,
  refl, some, suc, true, zero, ℕ, ◌++◌, ◌+◌, ◌<◌, ◌∙◌, ◌∷◌, ◌≡◌, ◌≢◌, ◌≤◌,
}
use distributed_filesystem.Client.Rekeying.{
  first_entry, move_entry, next_after, renamed_key, update_map_keys, walk_fuel, walk_keys,
}
use distributed_filesystem.Dict.{After, Dict, IsSorted, put, put-IsSorted, remove, remove-IsSorted}
use distributed_filesystem.Text.{
  Text, drop-length-append, is_within, is_within_shorter, text_eq_iff, text_lt, text_lt_irrefl,
  text_lt_trans, within_suffix,
}

pub renamed_key-suffix :
    (old_p new_p key s : Text) → key ≡ old_p ++ s → renamed_key old_p new_p key ≡ new_p ++ s
unfolding renamed_key
renamed_key-suffix old_p new_p key s cut =
    ap (λ (t : Text). new_p ++ drop (length old_p) t) cut
    ∙ ap (◌++◌ new_p) (drop-length-append old_p s)

module _ {ℓ} {V : Type ℓ} (w : Text → ℕ) where
  -- The weight of the keys after `k`.
  weight : Text → Dict V → ℕ
  weight k [] = 0
  weight k ((j, v) ∷ m) = (if text_lt k j then w j else 0) + weight k m

  -- With that of the entry under the iterator.
  abbrev ahead : Option (Text × V) → Dict V → ℕ
  ahead none m = 0
  ahead (some (k, v)) m = w k + weight k m

  weight-put : (k j : Text) (v : V) (m : Dict V) → weight k (put j v m) ≤ weight k m + w j
  unfolding weight put
  weight-put k j v [] = ground arith
  weight-put k j v ((i, u) ∷ m) = ground (arith, weight-put k j v m, text_eq_iff i j)

  weight-remove : (k j : Text) (m : Dict V) → weight k (remove j m) ≤ weight k m
  unfolding weight remove
  weight-remove k j [] = omega arith
  weight-remove k j ((i, u) ∷ m) = ground (arith, weight-remove k j m)

  -- Between two neighbours there is nothing.
  weight-After :
      (k i : Text) (m : Dict V) → text_lt k i ≡ true → After i m → weight k m ≡ weight i m
  unfolding weight
  weight-After k i [] h a = refl
  weight-After k i ((j, v) ∷ m) h a =
      ground (arith, weight-After k i m h a.1, text_lt_trans k i j h a.0)

  next_after-lt :
      (k : Text) (m : Dict V) (j : Text) (v : V) → next_after k m ≡ some (j, v) → text_lt k j ≡ true
  unfolding next_after
  next_after-lt k [] j v e = absurd (ground arith)
  next_after-lt k ((i, u) ∷ m) j v e = ground (arith, next_after-lt k m j v)

  ahead-cons :
      (i : Text) (u : V) (m : Dict V) (o : Option (Text × V))
      → ((j : Text) (v : V) → o ≡ some (j, v) → text_lt j i ≡ false)
      → ahead o ((i, u) ∷ m) ≡ ahead o m
  unfolding weight
  ahead-cons i u m none h = refl
  ahead-cons i u m (some (j, v)) h = ground (arith, h j v refl)

  weight-next_after : (k : Text) (m : Dict V) → IsSorted m → weight k m ≡ ahead (next_after k m) m
  unfolding weight next_after
  weight-next_after k [] s = refl
  weight-next_after k ((i, u) ∷ m) s =
      if_ind (λ (o : Option (Text × V)). before (text_lt k i) + weight k m ≡ ahead o ((i, u) ∷ m))
        (text_lt k i) _ _ (λ e. ground (arith, text_lt_irrefl i, weight-After k i m e s.0))
        (λ e.
          let behind =
            ahead-cons i u m (next_after k m)
              (λ j v f. ground (arith, next_after-lt k m j v f, text_lt_trans k j i)) in
          ground (arith, weight-next_after k m s.1, behind))
    where
      before : Bool → ℕ
      before b = if b then w i else 0

module _ (old_p new_p : Text) where
  -- A key that moves weighs more than any key that it can become.
  key_weight : Text → ℕ
  key_weight k = if is_within old_p k then length k + 2 else 1

  key_weight-renamed_key :
      (k : Text)
      → is_within old_p new_p ≡ false
      → is_within old_p k ≡ true
      → key_weight (renamed_key old_p new_p k) < key_weight k
  unfolding key_weight
  key_weight-renamed_key k h e =
      let (s, cut, b) = within_suffix old_p k e in
      rw (renamed_key-suffix old_p new_p k s cut) (
        ground (
          arith,
          is_within_shorter old_p new_p s b h,
          length-append new_p s,
          ap length cut,
          length-append old_p s,
        ))

  key_weight_pos : (k : Text) → 0 < key_weight k
  unfolding key_weight
  key_weight_pos k = ground arith

  key_weight-le : (k : Text) → key_weight k ≤ length k + 2
  unfolding key_weight
  key_weight-le k = ground arith

module _ {ℓ} {V : Type ℓ} (old_p new_p : Text) where
  -- One round makes what is ahead lighter.
  ahead-move_entry :
      (k : Text) (v : V) (m : Dict V)
      → is_within old_p new_p ≡ false
      → weight (key_weight old_p new_p) k (move_entry old_p new_p k v m)
        < ahead (key_weight old_p new_p) (some (k, v)) m
  unfolding move_entry
  ahead-move_entry k v m h =
      let w = key_weight old_p new_p in
      let k' = renamed_key old_p new_p k in
      if_ind (λ (n : Dict V). weight w k n < w k + weight w k m) (is_within old_p k) _ _
        (λ e. omega (
          arith,
          weight-remove w k k (put k' v m),
          weight-put w k k' v m,
          key_weight-renamed_key old_p new_p k h e,
        ))
        (λ e. omega (arith, key_weight_pos old_p new_p k))

  pub IsSorted-move_entry :
      (k : Text) (v : V) (m : Dict V) → IsSorted m → IsSorted (move_entry old_p new_p k v m)
  unfolding move_entry
  IsSorted-move_entry k v m s =
      if_ind IsSorted (is_within old_p k) _ _ (λ _. remove-IsSorted k _ (put-IsSorted _ v m s))
        (λ _. s)

  walk_keys-ends :
      (fuel : ℕ) (it : Option (Text × V)) (m : Dict V)
      → is_within old_p new_p ≡ false
      → IsSorted m
      → ahead (key_weight old_p new_p) it m < fuel
      → walk_keys fuel old_p new_p it m ≢ none
  unfolding walk_keys
  walk_keys-ends zero it m h s lt = absurd (omega arith)
  walk_keys-ends (suc fuel) none m h s lt = λ e. absurd (ground arith)
  walk_keys-ends (suc fuel) (some (k, v)) m h s lt =
      let m' = move_entry old_p new_p k v m in
      let s' = IsSorted-move_entry k v m s in
      walk_keys-ends fuel (next_after k m') m' h s' (
        omega (arith, ahead-move_entry k v m h, weight-next_after (key_weight old_p new_p) k m' s'))

  weight-lt-walk_fuel : (k : Text) (m : Dict V) → weight (key_weight old_p new_p) k m < walk_fuel m
  unfolding weight walk_fuel
  weight-lt-walk_fuel k [] = omega arith
  weight-lt-walk_fuel k ((j, v) ∷ m) =
      ground (arith, weight-lt-walk_fuel k m, key_weight-le old_p new_p j)

  ahead-lt-walk_fuel : (m : Dict V) → ahead (key_weight old_p new_p) (first_entry m) m < walk_fuel m
  unfolding weight walk_fuel
  ahead-lt-walk_fuel [] = omega arith
  ahead-lt-walk_fuel ((k, v) ∷ m) =
      ground (arith, weight-lt-walk_fuel k m, key_weight-le old_p new_p k, text_lt_irrefl k)

  -- The walk over the keys of a map ends, unless the new path is the old one or lies below it.
  pub update_map_keys-ends :
      (m : Dict V)
      → IsSorted m
      → is_within old_p new_p ≡ false
      → update_map_keys old_p new_p m ≢ none
  unfolding update_map_keys
  update_map_keys-ends m s h =
      walk_keys-ends (walk_fuel m) (first_entry m) m h s (ahead-lt-walk_fuel m)
