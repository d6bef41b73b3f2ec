-- ===== src/Dict/Laws.antt =====
-- Lookup, insertion and removal, with their laws.
use distributed_filesystem.Base.{◌≡◌, refl, List, [], ◌∷◌, Option, none, some, arith, if◌then◌else◌}
use distributed_filesystem.Text.{Text, text_eq, text_lt, text_eq_iff, text_eq_refl}

abbrev pub Dict {ℓ} : Type ℓ → Type ℓ
Dict V = List (Text × V)

module _ {ℓ} {V : Type ℓ} where
  -- `m.find(k)`
  unfoldable pub get : Text → Dict V → Option V
  get k [] = none
  get k ((j, v) ∷ m) = if text_eq j k then some v else get k m

  -- `m[k] = v`
  unfoldable pub put : Text → V → Dict V → Dict V
  put k v [] = (k, v) ∷ []
  put k v ((j, w) ∷ m) =
      let rest = put k v m in
      if text_eq j k then (k, v) ∷ m else if text_lt k j then (k, v) ∷ (j, w) ∷ m else (j, w) ∷ rest

  -- `m.erase(k)`
  unfoldable pub remove : Text → Dict V → Dict V
  remove k [] = []
  remove k ((j, v) ∷ m) = let rest = remove k m in if text_eq j k then rest else (j, v) ∷ rest

  pub get-put :
      (k j : Text) (v : V) (m : Dict V)
      → get j (put k v m) ≡ (if text_eq k j then some v else get j m)
  unfolding get put
  get-put k j v [] = refl
  get-put k j v ((i, w) ∷ m) =
      ground (arith, text_eq_iff k j, text_eq_iff i k, text_eq_iff i j, get-put k j v m)

  pub get-remove :
      (k j : Text) (m : Dict V) → get j (remove k m) ≡ (if text_eq k j then none else get j m)
  unfolding get remove
  get-remove k j [] = ground arith
  get-remove k j ((i, w) ∷ m) =
      ground (arith, text_eq_iff k j, text_eq_iff i k, text_eq_iff i j, get-remove k j m)

  pub get-put_self : (k : Text) (v : V) (m : Dict V) → get k (put k v m) ≡ some v
  get-put_self k v m = simp (get-put, text_eq_refl)

  pub get-remove_self : (k : Text) (m : Dict V) → get k (remove k m) ≡ none
  get-remove_self k m = simp (get-remove, text_eq_refl)
