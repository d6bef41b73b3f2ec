-- ===== src/Client/Moved.antt =====
-- One round of `update_map_keys` of Basic_Operation/client_code/filesystem_client.cpp: where the
-- entries of a map stand before and after it, and how far the walk has come.

use distributed_filesystem.Base.{
  Bool-cases, Option, [], arith, false, if_ind, if◌then◌else◌, inl, inr, none, refl, some, subst,
  sym, true, ◌++◌, ◌∷◌, ◌≡◌,
}
use distributed_filesystem.Client.Files.{has_key}
use distributed_filesystem.Client.Rekeying.{move_entry, next_after, renamed_key}
use distributed_filesystem.Client.Walking.{renamed_key-suffix}
use distributed_filesystem.Dict.{
  After-trans, Dict, IsSorted, get, get-After, get-put, get-remove, put, remove,
}
use distributed_filesystem.Text.{
  Text, at_boundary, is_within, is_within-append, is_within_apart, strip_prefix,
  strip_prefix-append, strip_prefix_sound, text_eq_iff, text_lt, text_lt_irrefl, within_suffix,
}

-- The entry under a key once the entries at and below `old_p` have gone to `new_p`.
module _ {ℓ} {V : Type ℓ} (old_p new_p : Text) where
  abbrev pub below_new : Dict V → Text → Option Text → Option V
  below_new m j none = get j m
  below_new m j (some s) =
      if at_boundary s
      then elim (get (old_p ++ s) m) [ none ↦ get j m | some v ↦ some v ]
      else get j m

  unfoldable pub renamed_value : Dict V → Text → Option V
  renamed_value m j = if is_within old_p j then none else below_new m j (strip_prefix new_p j)

  module _ (apart : is_within old_p new_p ≡ false) (apart' : is_within new_p old_p ≡ false) where
    -- One move changes nothing of that.
    pub below_new-move :
        (s : Text) (v : V) (m : Dict V) (j : Text) (o : Option Text)
        → at_boundary s ≡ true
        → get (old_p ++ s) m ≡ some v
        → is_within old_p j ≡ false
        → strip_prefix new_p j ≡ o
        → below_new (remove (old_p ++ s) (put (new_p ++ s) v m)) j o ≡ below_new m j o
    below_new-move s v m j none b e out p = ground (
      arith,
      get-remove (old_p ++ s) j (put (new_p ++ s) v m),
      get-put (new_p ++ s) j v m,
      text_eq_iff (old_p ++ s) j,
      text_eq_iff (new_p ++ s) j,
      is_within-append old_p s,
      strip_prefix-append new_p s,
    )
    below_new-move s v m j (some t) b e out p = ground (
      arith,
      get-remove (old_p ++ s) j (put (new_p ++ s) v m),
      get-put (new_p ++ s) j v m,
      get-remove (old_p ++ s) (old_p ++ t) (put (new_p ++ s) v m),
      get-put (new_p ++ s) (old_p ++ t) v m,
      text_eq_iff (old_p ++ s) j,
      text_eq_iff (new_p ++ s) j,
      text_eq_iff (old_p ++ s) (old_p ++ t),
      text_eq_iff (new_p ++ s) (old_p ++ t),
      is_within-append old_p s,
      is_within-append old_p t,
      is_within_apart old_p new_p s b apart apart',
      strip_prefix-append new_p s,
      strip_prefix-append old_p s,
      strip_prefix-append old_p t,
      strip_prefix_sound new_p j t p,
    )

    pub renamed_value-at :
        (s : Text) (v : V) (m : Dict V) (j : Text)
        → at_boundary s ≡ true
        → get (old_p ++ s) m ≡ some v
        → renamed_value (remove (old_p ++ s) (put (new_p ++ s) v m)) j ≡ renamed_value m j
    unfolding renamed_value
    renamed_value-at s v m j b e = elim (Bool-cases (is_within old_p j)) [
      | inl i ↦ rw i
      | inr o ↦ rw o (below_new-move s v m j (strip_prefix new_p j) b e o refl)
    ]

    pub renamed_value-move_entry :
        (k : Text) (v : V) (m : Dict V) (j : Text)
        → get k m ≡ some v
        → renamed_value (move_entry old_p new_p k v m) j ≡ renamed_value m j
    unfolding move_entry
    renamed_value-move_entry k v m j e =
        if_ind (λ (n : Dict V). renamed_value n j ≡ renamed_value m j) (is_within old_p k) _ _
          (λ i.
            let (s, cut, b) = within_suffix old_p k i in
            let at = renamed_value-at s v m j b (subst (λ t. get t m ≡ some v) cut e) in
            let moved = renamed_key-suffix old_p new_p k s cut in
            subst (λ t. renamed_value (remove k (put t v m)) j ≡ renamed_value m j) (sym moved)
              (subst (λ t. renamed_value (remove t (put (new_p ++ s) v m)) j ≡ renamed_value m j)
                (sym cut) at))
          (λ _. refl)

-- The iterator has not passed `k`.
abbrev pub NotPassed {ℓ} : {V : Type ℓ} → Text → Option (Text × V) → Type 0
NotPassed k none = ⊥
NotPassed k (some (j, v)) = text_lt k j ≡ false

module _ {ℓ} {V : Type ℓ} where
  pub next_after-NotPassed :
      (i k : Text) (m : Dict V)
      → IsSorted m
      → text_lt i k ≡ true
      → has_key k m ≡ true
      → NotPassed k (next_after i m)
  unfolding next_after has_key get
  next_after-NotPassed i k [] s lt h = absurd (ground arith)
  next_after-NotPassed i k ((j, v) ∷ m) s lt h =
      if_ind (NotPassed k) (text_lt i j) _ _
        (λ e. ground (arith, text_eq_iff j k, text_lt_irrefl j, get-After k m, After-trans k j m))
        (λ e. next_after-NotPassed i k m s.1 lt (ground (arith, text_eq_iff j k)))

  pub get-next_after :
      (i : Text) (m : Dict V) (j : Text) (v : V)
      → IsSorted m
      → next_after i m ≡ some (j, v)
      → get j m ≡ some v
  unfolding next_after get
  get-next_after i [] j v s e = absurd (ground arith)
  get-next_after i ((k, u) ∷ m) j v s e =
      ground (arith, get-next_after i m j v s.1, text_eq_iff k j, get-After k m s.0)

module _ (old_p new_p : Text) (apart : is_within old_p new_p ≡ false)
    (apart' : is_within new_p old_p ≡ false) where
  pub renamed_key_outside :
      (k : Text) → is_within old_p k ≡ true → is_within old_p (renamed_key old_p new_p k) ≡ false
  renamed_key_outside k h =
      let (s, cut, b) = within_suffix old_p k h in
      rw (renamed_key-suffix old_p new_p k s cut) (is_within_apart old_p new_p s b apart apart')
