-- ===== src/Dict/Keys.antt =====
-- The keys ascend, so every key stands once; and a property of every value.
use distributed_filesystem.Base.{◌≡◌, true, refl, [], ◌∷◌, none, some, arith}
use distributed_filesystem.Text.{
  Text, text_lt, text_eq_iff, text_lt_trans, text_lt_total, text_lt-ne,
}
use distributed_filesystem.Dict.Laws.{Dict, get, put, remove}

module _ {ℓ} {V : Type ℓ} where
  -- Every key comes after `k`.
  abbrev pub After : Text → Dict V → Type 0
  After k [] = Unit {0}
  After k ((j, v) ∷ m) = (text_lt k j ≡ true) × After k m

  abbrev pub IsSorted : Dict V → Type 0
  IsSorted [] = Unit {0}
  IsSorted ((j, v) ∷ m) = After j m × IsSorted m

  pub After-trans : (i j : Text) (m : Dict V) → text_lt i j ≡ true → After j m → After i m
  After-trans i j [] h a = tt
  After-trans i j ((k, v) ∷ m) h a = (text_lt_trans i j k h a.0, After-trans i j m h a.1)

  put-After :
      (i k : Text) (v : V) (m : Dict V) → text_lt i k ≡ true → After i m → After i (put k v m)
  unfolding put
  put-After i k v [] h a = (h, tt)
  put-After i k v ((j, w) ∷ m) h a = ground (arith, put-After i k v m h a.1)

  remove-After : (i k : Text) (m : Dict V) → After i m → After i (remove k m)
  unfolding remove
  remove-After i k [] a = tt
  remove-After i k ((j, w) ∷ m) a = ground (arith, remove-After i k m a.1)

  pub put-IsSorted : (k : Text) (v : V) (m : Dict V) → IsSorted m → IsSorted (put k v m)
  unfolding put
  put-IsSorted k v [] s = (tt, tt)
  put-IsSorted k v ((j, w) ∷ m) s = ground (
    arith,
    put-IsSorted k v m s.1,
    put-After j k v m,
    After-trans k j m,
    text_lt_total k j,
    text_eq_iff j k,
    text_eq_iff k j,
  )

  pub remove-IsSorted : (k : Text) (m : Dict V) → IsSorted m → IsSorted (remove k m)
  unfolding remove
  remove-IsSorted k [] s = tt
  remove-IsSorted k ((j, w) ∷ m) s = ground (arith, remove-IsSorted k m s.1, remove-After j k m s.0)

  pub get-After : (k : Text) (m : Dict V) → After k m → get k m ≡ none
  unfolding get
  get-After k [] a = refl
  get-After k ((j, w) ∷ m) a =
      ground (arith, get-After k m a.1, text_lt-ne k j, text_eq_iff j k, text_eq_iff k j)

  abbrev pub AllValues {κ} : (V → Type κ) → Dict V → Type κ
  AllValues P [] = Unit
  AllValues P ((j, v) ∷ m) = P v × AllValues P m

  pub put-AllValues {κ} :
      (P : V → Type κ) (k : Text) (v : V) (m : Dict V)
      → P v
      → AllValues P m
      → AllValues P (put k v m)
  unfolding put
  put-AllValues P k v [] h a = (h, tt)
  put-AllValues P k v ((j, w) ∷ m) h a = ground (arith, put-AllValues P k v m h a.1)

  pub remove-AllValues {κ} :
      (P : V → Type κ) (k : Text) (m : Dict V) → AllValues P m → AllValues P (remove k m)
  unfolding remove
  remove-AllValues P k [] a = tt
  remove-AllValues P k ((j, w) ∷ m) a = ground (arith, remove-AllValues P k m a.1)

  pub get-AllValues {κ} :
      (P : V → Type κ) (k : Text) (v : V) (m : Dict V) → AllValues P m → get k m ≡ some v → P v
  unfolding get
  get-AllValues P k v [] a h = cc
  get-AllValues P k v ((j, w) ∷ m) a h = ground (arith, get-AllValues P k v m a.1)
