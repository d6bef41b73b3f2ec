-- ===== src/Client/Endless.antt =====
-- The walk of `update_map_keys` (Basic_Operation/client_code/filesystem_client.cpp) where the new path
-- lies below the old one.

use distributed_filesystem.Base.{
  Bool-cases, Option, [], ap, append_assoc, arith, false, if◌then◌else◌, inl, inr, none, refl, some,
  subst, suc, sym, true, zero, ℕ, ◌++◌, ◌∙◌, ◌∷◌, ◌≡◌,
}
use distributed_filesystem.Client.Files.{has_key}
use distributed_filesystem.Client.Moved.{NotPassed, next_after-NotPassed}
use distributed_filesystem.Client.Rekeying.{
  first_entry, move_entry, next_after, renamed_key, walk_keys,
}
use distributed_filesystem.Client.Tables.{has_key-put, has_key-remove}
use distributed_filesystem.Client.Walking.{IsSorted-move_entry, renamed_key-suffix}
use distributed_filesystem.Dict.{After-trans, Dict, IsSorted, get, get-After, put, remove}
use distributed_filesystem.Text.{
  Text, at_boundary, is_within, is_within-append, text_eq, text_eq_iff, text_eq_refl, text_eq_sym,
  text_lt, text_lt-ne, text_lt_irrefl, text_lt_total,
}

text_lt-append : (p s t : Text) → text_lt (p ++ s) (p ++ t) ≡ text_lt s t
unfolding text_lt
text_lt-append [] s t = refl
text_lt-append (a ∷ p) s t = ground (arith, text_lt-append p s t)

-- What stands between the old path and the rest of the new one.
abbrev middle : Text → Text
middle deeper = b'/' ∷ deeper

module _ (old_p deeper : Text) where
  renamed_key-middle :
      (rest : Text)
      → renamed_key old_p (old_p ++ middle deeper) (old_p ++ rest)
        ≡ old_p ++ ((middle deeper) ++ rest)
  renamed_key-middle rest =
      renamed_key-suffix old_p (old_p ++ middle deeper) (old_p ++ rest) rest refl
      ∙ append_assoc old_p (middle deeper) rest

module _ {ℓ} {V : Type ℓ} (old_p deeper : Text) where
  -- Some entry that is still to come will be moved to a key that is still to come.
  record Pending (it : Option (Text × V)) (m : Dict V) : Type ℓ where
    rest : Text
    bounded_rest : at_boundary rest ≡ true
    grows : text_lt rest ((middle deeper) ++ rest) ≡ true
    stored : has_key (old_p ++ rest) m ≡ true
    not_passed : NotPassed (old_p ++ rest) it

  move_entry-within :
      (new_p k : Text) (v : V) (m : Dict V)
      → is_within old_p k ≡ true
      → move_entry old_p new_p k v m ≡ remove k (put (renamed_key old_p new_p k) v m)
  unfolding move_entry
  move_entry-within new_p k v m e =
      ap (λ b. if b then remove k (put (renamed_key old_p new_p k) v m) else m) e

  -- The entry itself is moved ahead.
  has_key-moved :
      (rest : Text) (v : V) (m : Dict V)
      → at_boundary rest ≡ true
      → text_lt rest ((middle deeper) ++ rest) ≡ true
      → has_key
          (old_p ++ ((middle deeper) ++ rest))
          (move_entry old_p (old_p ++ middle deeper) (old_p ++ rest) v m)
        ≡ true
  has_key-moved rest v m b g =
      let k = old_p ++ rest in
      let n = old_p ++ (middle deeper ++ rest) in
      let lt = text_lt-append old_p rest (middle deeper ++ rest) ∙ g in
      let moved =
        move_entry-within (old_p ++ middle deeper) k v m (is_within-append old_p rest ∙ b)
        ∙ ap (λ t. remove k (put t v m)) (renamed_key-middle old_p deeper rest) in
      ap (has_key n) moved
      ∙ ground (
        arith,
        has_key-remove k n (put n v m),
        has_key-put n n v m,
        text_eq_refl n,
        text_lt-ne k n lt,
      )

  -- Another entry leaves it where it is.
  has_key-move_entry :
      (k j : Text) (v : V) (m : Dict V)
      → text_eq k j ≡ false
      → has_key j m ≡ true
      → has_key j (move_entry old_p (old_p ++ middle deeper) k v m) ≡ true
  unfolding move_entry
  has_key-move_entry k j v m ne h = ground (
    arith,
    has_key-remove k j (put (renamed_key old_p (old_p ++ middle deeper) k) v m),
    has_key-put (renamed_key old_p (old_p ++ middle deeper) k) j v m,
  )

  Pending-moved :
      (rest : Text) (v : V) (m : Dict V)
      → IsSorted m
      → at_boundary rest ≡ true
      → text_lt rest (middle deeper ++ rest) ≡ true
      → let m' = move_entry old_p (old_p ++ middle deeper) (old_p ++ rest) v m in
        Pending (next_after (old_p ++ rest) m') m'
  Pending-moved rest v m s b g =
      let m' = move_entry old_p (old_p ++ middle deeper) (old_p ++ rest) v m in
      let there = has_key-moved rest v m b g in
      record {
        rest = middle deeper ++ rest;
        bounded_rest = refl;
        grows = text_lt-append (middle deeper) rest (middle deeper ++ rest) ∙ g;
        stored = there;
        not_passed =
            next_after-NotPassed (old_p ++ rest) (old_p ++ (middle deeper ++ rest)) m'
              (IsSorted-move_entry old_p (old_p ++ middle deeper) (old_p ++ rest) v m s)
              (text_lt-append old_p rest (middle deeper ++ rest) ∙ g) there;
      }

  Pending-move_entry :
      (k : Text) (v : V) (m : Dict V)
      → IsSorted m
      → Pending (some (k, v)) m
      → let m' = move_entry old_p (old_p ++ middle deeper) k v m in Pending (next_after k m') m'
  Pending-move_entry k v m s p =
      let key = old_p ++ p.rest in
      let m' = move_entry old_p (old_p ++ middle deeper) k v m in
      elim (Bool-cases (text_eq k key)) [
        | inl e ↦
            subst
              (λ j.
                let n = move_entry old_p (old_p ++ middle deeper) j v m in
                Pending (next_after j n) n)
              (sym ((text_eq_iff k key).0 e)) (Pending-moved p.rest v m s p.bounded_rest p.grows)
        | inr e ↦
            let there = has_key-move_entry k key v m e p.stored in
            record {
              rest = p.rest;
              bounded_rest = p.bounded_rest;
              grows = p.grows;
              stored = there;
              not_passed =
                  next_after-NotPassed k key m'
                    (IsSorted-move_entry old_p (old_p ++ middle deeper) k v m s)
                    (text_lt_total key k (text_eq_sym key k ∙ e) p.not_passed) there;
            }
      ]

  walk_keys-endless :
      (fuel : ℕ) (it : Option (Text × V)) (m : Dict V)
      → IsSorted m
      → Pending it m
      → walk_keys fuel old_p (old_p ++ middle deeper) it m ≡ none
  unfolding walk_keys
  walk_keys-endless zero it m s p = refl
  walk_keys-endless (suc fuel) none m s p = absurd p.not_passed
  walk_keys-endless (suc fuel) (some (k, v)) m s p =
      let m' = move_entry old_p (old_p ++ middle deeper) k v m in
      walk_keys-endless fuel (next_after k m') m'
        (IsSorted-move_entry old_p (old_p ++ middle deeper) k v m s) (Pending-move_entry k v m s p)

  first_entry-NotPassed :
      (k : Text) (m : Dict V) → IsSorted m → has_key k m ≡ true → NotPassed k (first_entry m)
  unfolding has_key get
  first_entry-NotPassed k [] s h = absurd (ground arith)
  first_entry-NotPassed k ((j, u) ∷ m) s h =
      ground (arith, text_eq_iff j k, text_lt_irrefl j, get-After k m, After-trans k j m)

  -- The walk over the keys of a map never ends, whatever the number of its rounds, if the new path
  -- lies below the old one and the map has an entry, at or below the old path, whose key comes
  -- before the one that it is moved to. The entry of the old path itself is always such a one.
  pub walk_keys-first_entry :
      (fuel : ℕ) (m : Dict V) (rest : Text)
      → IsSorted m
      → at_boundary rest ≡ true
      → text_lt rest (b'/' ∷ deeper ++ rest) ≡ true
      → has_key (old_p ++ rest) m ≡ true
      → walk_keys fuel old_p (old_p ++ b'/' ∷ deeper) (first_entry m) m ≡ none
  walk_keys-first_entry fuel m rest s b g h = walk_keys-endless fuel (first_entry m) m s (record {
    rest = rest;
    bounded_rest = b;
    grows = g;
    stored = h;
    not_passed = first_entry-NotPassed (old_p ++ rest) m s h;
  })
