-- ===== src/Client/Rekeyed.antt =====
-- What `update_map_keys` (Basic_Operation/client_code/filesystem_client.cpp) makes of a map.

use distributed_filesystem.Base.{
  Option, Option-cases, [], arith, false, if_ind, inl, inr, none, refl, some, subst, suc, true,
  zero, ℕ, ◌++◌, ◌∙◌, ◌∷◌, ◌≡◌,
}
use distributed_filesystem.Client.Files.{has_key}
use distributed_filesystem.Client.Moved.{
  NotPassed, below_new, get-next_after, next_after-NotPassed, renamed_key_outside, renamed_value,
  renamed_value-move_entry,
}
use distributed_filesystem.Client.Rekeying.{
  first_entry, move_entry, next_after, renamed_key, update_map_keys, walk_fuel, walk_keys,
}
use distributed_filesystem.Client.Tables.{has_key-put, has_key-remove, has_key-some}
use distributed_filesystem.Client.Walking.{IsSorted-move_entry, update_map_keys-ends}
use distributed_filesystem.Dict.{After-trans, Dict, IsSorted, get, get-After, put}
use distributed_filesystem.Text.{
  Text, is_within, is_within-append, strip_prefix, text_eq, text_eq_iff, text_eq_refl,
  text_lt_irrefl, text_lt_total,
}

some_inj {ℓ} : {A : Type ℓ} {a b : A} → some a ≡ some b → a ≡ b
some_inj e = cc

module _ {ℓ} {V : Type ℓ} (old_p new_p : Text) (apart : is_within old_p new_p ≡ false)
    (apart' : is_within new_p old_p ≡ false) where
  -- Where the walk stands: at an entry of the map, with no key before it that is still to move.
  abbrev Stands : Option (Text × V) → Dict V → Type ℓ
  Stands it m =
      ((i : Text) (v : V) → it ≡ some (i, v) → get i m ≡ some v)
      × ((k : Text) → is_within old_p k ≡ true → has_key k m ≡ true → NotPassed k it)

  -- A key that is still to move after a round was there before, and is another one.
  kept-move_entry :
      (k : Text) (v : V) (m : Dict V) (j : Text)
      → is_within old_p j ≡ true
      → has_key j (move_entry old_p new_p k v m) ≡ true
      → (has_key j m ≡ true) × (text_eq j k ≡ false)
  unfolding move_entry
  kept-move_entry k v m j w =
      let k' = renamed_key old_p new_p k in
      if_ind (λ (n : Dict V). has_key j n ≡ true → (has_key j m ≡ true) × (text_eq j k ≡ false))
        (is_within old_p k) _ _
        (λ e h. ground (
          arith,
          has_key-remove k j (put k' v m),
          has_key-put k' j v m,
          renamed_key_outside old_p new_p apart apart' k e,
          text_eq_iff k j,
          text_eq_iff j k,
          text_eq_iff k' j,
        ))
        (λ e h. ground (arith, text_eq_iff j k))

  none_left : (m : Dict V) → Stands none m → (k : Text) → is_within old_p k ≡ true → get k m ≡ none
  unfolding has_key
  none_left m st k w = elim (Option-cases (get k m)) [
    | inl e ↦ e
    | inr (v, e) ↦ absurd (st.1 k w (has_key-some k m v e))
  ]

  below_new_settled :
      (m : Dict V) (j : Text) (o : Option Text)
      → ((k : Text) → is_within old_p k ≡ true → get k m ≡ none)
      → get j m ≡ below_new old_p new_p m j o
  below_new_settled m j none gone = refl
  below_new_settled m j (some t) gone = ground (arith, gone (old_p ++ t), is_within-append old_p t)

  -- Where nothing is left to move, the map is what it should be.
  settled : (m : Dict V) (j : Text) → Stands none m → get j m ≡ renamed_value old_p new_p m j
  unfolding renamed_value
  settled m j st =
      ground
        (arith, none_left m st j, below_new_settled m j (strip_prefix new_p j) (none_left m st))

  Stands-move_entry :
      (k : Text) (v : V) (m : Dict V)
      → IsSorted m
      → Stands (some (k, v)) m
      → let m' = move_entry old_p new_p k v m in Stands (next_after k m') m'
  Stands-move_entry k v m s (at, passed) =
      let m' = move_entry old_p new_p k v m in
      let s' = IsSorted-move_entry old_p new_p k v m s in
      (
        λ i u e. get-next_after k m' i u s' e,
        λ j w h.
            next_after-NotPassed k j m' s'
              (let (h', ne) = kept-move_entry k v m j w h in text_lt_total j k ne (passed j w h'))
              h,
      )

  walk_keys-renames :
      (fuel : ℕ) (it : Option (Text × V)) (m m' : Dict V) (j : Text)
      → IsSorted m
      → Stands it m
      → walk_keys fuel old_p new_p it m ≡ some m'
      → get j m' ≡ renamed_value old_p new_p m j
  unfolding walk_keys
  walk_keys-renames zero it m m' j s st e = absurd (ground arith)
  walk_keys-renames (suc fuel) none m m' j s st e =
      subst (λ n. get j n ≡ renamed_value old_p new_p m j) (some_inj e) (settled m j st)
  walk_keys-renames (suc fuel) (some (k, v)) m m' j s st e =
      let n = move_entry old_p new_p k v m in
      walk_keys-renames fuel (next_after k n) n m' j (IsSorted-move_entry old_p new_p k v m s)
        (Stands-move_entry k v m s st) e
      ∙ renamed_value-move_entry old_p new_p apart apart' k v m j (st.0 k v refl)

  first_entry-Stands : (m : Dict V) → IsSorted m → Stands (first_entry m) m
  unfolding has_key get
  first_entry-Stands [] s = (λ i v e. absurd (ground arith), λ k w h. absurd (ground arith))
  first_entry-Stands ((j, u) ∷ m) s = (
    λ i v e. ground (arith, text_eq_refl j),
    λ k w h. ground (arith, text_eq_iff j k, text_lt_irrefl j, get-After k m, After-trans k j m),
  )

  -- If neither path is within the other, `update_map_keys` ends, and in the map that it leaves every
  -- entry at or below the old path stands at the same place at or below the new one, where it
  -- replaces what stood there; nothing is left at or below the old path; and all other entries are
  -- as they were.
  pub update_map_keys-renames :
      (m : Dict V)
      → IsSorted m
      → (m' : Dict V) × (update_map_keys old_p new_p m ≡ some m')
        × ((j : Text) → get j m' ≡ renamed_value old_p new_p m j)
  unfolding update_map_keys
  update_map_keys-renames m s = elim (Option-cases (update_map_keys old_p new_p m)) [
    | inl e ↦ absurd (update_map_keys-ends old_p new_p m s apart e)
    | inr (m', e) ↦ (
      m',
      e,
      λ j. walk_keys-renames (walk_fuel m) (first_entry m) m m' j s (first_entry-Stands m s) e,
    )
  ]
