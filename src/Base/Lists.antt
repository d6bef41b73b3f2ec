-- ===== src/Base/Lists.antt =====
-- List operations over the native numbers, under the library's names.
use Prim.Native.Nat.{ℕ, zero, suc, ◌+◌, ◌≤◌, ◌<◌}
use mathlib.Core.Path.{◌≡◌, refl, ap}
use mathlib.Core.Option.{Option, none, some}
use mathlib.Core.List.{List, [], ◌∷◌, ◌++◌}
use native.Mathlib.Omega.{arith}

module _ {ℓ} {A : Type ℓ} where
  abbrev pub length : List A → ℕ
  length [] = 0
  length (x ∷ xs) = suc (length xs)

  abbrev pub get_elem? : List A → ℕ → Option A
  get_elem? [] i = none
  get_elem? (x ∷ xs) zero = some x
  get_elem? (x ∷ xs) (suc i) = get_elem? xs i

  -- Out of range nothing changes.
  abbrev pub modify : (A → A) → ℕ → List A → List A
  modify f i [] = []
  modify f zero (x ∷ xs) = f x ∷ xs
  modify f (suc i) (x ∷ xs) = x ∷ modify f i xs

  abbrev pub take : ℕ → List A → List A
  take zero xs = []
  take (suc n) [] = []
  take (suc n) (x ∷ xs) = x ∷ take n xs

  abbrev pub drop : ℕ → List A → List A
  drop zero xs = xs
  drop (suc n) [] = []
  drop (suc n) (x ∷ xs) = drop n xs

  pub length-append : (xs ys : List A) → length (xs ++ ys) ≡ length xs + length ys
  length-append [] ys = omega arith
  length-append (x ∷ xs) ys = omega (arith, length-append xs ys)

  pub length-modify : (f : A → A) (i : ℕ) (xs : List A) → length (modify f i xs) ≡ length xs
  length-modify f i [] = refl
  length-modify f zero (x ∷ xs) = refl
  length-modify f (suc i) (x ∷ xs) = ap suc (length-modify f i xs)

  pub get_elem?-lt : (xs : List A) (i : ℕ) → i < length xs → (x : A) × (get_elem? xs i ≡ some x)
  get_elem?-lt [] i h = elim h [ ]
  get_elem?-lt (x ∷ xs) zero h = (x, refl)
  get_elem?-lt (x ∷ xs) (suc i) h = get_elem?-lt xs i (omega arith)

  pub get_elem?-modify_self :
      (f : A → A) (i : ℕ) (xs : List A) (x : A)
      → get_elem? xs i ≡ some x
      → get_elem? (modify f i xs) i ≡ some (f x)
  get_elem?-modify_self f i [] x h = elim i as (λ j. none ≡ some (f x)) [ zero ↦ cc | suc j ↦ cc ]
  get_elem?-modify_self f zero (y ∷ xs) x h = ground arith
  get_elem?-modify_self f (suc i) (y ∷ xs) x h = get_elem?-modify_self f i xs x h

  pub get_elem?-modify_ne :
      (f : A → A) (i j : ℕ) (xs : List A)
      → (i ≡ j → ⊥)
      → get_elem? (modify f i xs) j ≡ get_elem? xs j
  get_elem?-modify_ne f i j [] h = refl
  get_elem?-modify_ne f zero zero (y ∷ xs) h = absurd (h refl)
  get_elem?-modify_ne f zero (suc j) (y ∷ xs) h = refl
  get_elem?-modify_ne f (suc i) zero (y ∷ xs) h = refl
  get_elem?-modify_ne f (suc i) (suc j) (y ∷ xs) h =
      get_elem?-modify_ne f i j xs (λ e. h (ap suc e))

  pub get_elem?-append_lt :
      (xs ys : List A) (i : ℕ) → i < length xs → get_elem? (xs ++ ys) i ≡ get_elem? xs i
  get_elem?-append_lt [] ys i h = elim h [ ]
  get_elem?-append_lt (x ∷ xs) ys zero h = refl
  get_elem?-append_lt (x ∷ xs) ys (suc i) h = get_elem?-append_lt xs ys i (omega arith)

  pub get_elem?-append_length :
      (xs : List A) (y : A) → get_elem? (xs ++ y ∷ []) (length xs) ≡ some y
  get_elem?-append_length [] y = refl
  get_elem?-append_length (x ∷ xs) y = get_elem?-append_length xs y

  pub take-append-drop : (n : ℕ) (xs : List A) → take n xs ++ drop n xs ≡ xs
  take-append-drop zero xs = refl
  take-append-drop (suc n) [] = refl
  take-append-drop (suc n) (x ∷ xs) = ap (◌∷◌ x) (take-append-drop n xs)

  pub length-drop-le : (n : ℕ) (xs : List A) → length (drop n xs) ≤ length xs
  length-drop-le zero xs = omega arith
  length-drop-le (suc n) [] = omega arith
  length-drop-le (suc n) (x ∷ xs) = omega (arith, length-drop-le n xs)

  pub length-take-le : (n : ℕ) (xs : List A) → length (take n xs) ≤ n
  length-take-le zero xs = omega arith
  length-take-le (suc n) [] = omega arith
  length-take-le (suc n) (x ∷ xs) = omega (arith, length-take-le n xs)

  pub modify-modify :
      (x y : A) (i : ℕ) (xs : List A)
      → modify (λ _. y) i (modify (λ _. x) i xs) ≡ modify (λ _. y) i xs
  modify-modify x y i [] = refl
  modify-modify x y zero (z ∷ xs) = refl
  modify-modify x y (suc i) (z ∷ xs) = ap (◌∷◌ z) (modify-modify x y i xs)

  pub modify_same :
      (x : A) (i : ℕ) (xs : List A) → get_elem? xs i ≡ some x → modify (λ _. x) i xs ≡ xs
  modify_same x i [] h = refl
  modify_same x zero (y ∷ xs) h = ground arith
  modify_same x (suc i) (y ∷ xs) h = ap (◌∷◌ y) (modify_same x i xs h)
