-- ===== src/Base/Chunks.antt =====
-- The loop that reads a file in pieces: `while (true) { read(buffer, n); if (gcount() <= 0) break; … }`.
use distributed_filesystem.Base.Lists.{
  length, take, drop, take-append-drop, length-drop-le, length-take-le,
}
use Prim.Native.Nat.{ℕ, zero, suc, ◌≤◌, ◌<◌}
use mathlib.Core.Path.{◌≡◌, refl, ap, ◌∙◌}
use mathlib.Core.List.{List, [], ◌∷◌, ◌++◌}
use native.Mathlib.Omega.{arith}

module _ {ℓ} {A : Type ℓ} where
  -- With fuel for the rounds of the loop.
  pub chunk_rounds : ℕ → ℕ → List A → List (List A)
  chunk_rounds zero n xs = []
  chunk_rounds (suc fuel) n [] = []
  chunk_rounds (suc fuel) n (x ∷ xs) = take n (x ∷ xs) ∷ chunk_rounds fuel n (drop n (x ∷ xs))

  -- A round reads at least one element, so as many rounds as elements are enough.
  unfoldable pub chunks : ℕ → List A → List (List A)
  unfolding chunk_rounds
  chunks n xs = chunk_rounds (length xs) n xs

  unfoldable pub concat : List (List A) → List A
  concat [] = []
  concat (xs ∷ xss) = xs ++ concat xss

  concat-chunk_rounds :
      (fuel n : ℕ) (xs : List A) → length xs ≤ fuel → concat (chunk_rounds fuel (suc n) xs) ≡ xs
  unfolding chunk_rounds concat
  concat-chunk_rounds zero n [] h = refl
  concat-chunk_rounds zero n (x ∷ xs) h = absurd (omega arith)
  concat-chunk_rounds (suc fuel) n [] h = refl
  concat-chunk_rounds (suc fuel) n (x ∷ xs) h =
      ap (◌++◌ (x ∷ take n xs))
        (concat-chunk_rounds fuel n (drop n xs) (omega (arith, length-drop-le n xs)))
      ∙ ap (◌∷◌ x) (take-append-drop n xs)

  -- No element is lost: with a positive size the loop runs to the end of the file.
  pub concat-chunks : (n : ℕ) (xs : List A) → concat (chunks (suc n) xs) ≡ xs
  unfolding chunks
  concat-chunks n xs = concat-chunk_rounds (length xs) n xs (omega arith)

  -- Each piece has between one and `n` elements.
  abbrev pub AllFit : ℕ → List (List A) → Type 0
  AllFit n [] = Unit {0}
  AllFit n (xs ∷ xss) = (0 < length xs) × (length xs ≤ n) × AllFit n xss

  AllFit-chunk_rounds : (fuel n : ℕ) (xs : List A) → AllFit (suc n) (chunk_rounds fuel (suc n) xs)
  unfolding chunk_rounds
  AllFit-chunk_rounds zero n xs = tt
  AllFit-chunk_rounds (suc fuel) n [] = tt
  AllFit-chunk_rounds (suc fuel) n (x ∷ xs) =
      (omega arith, omega (arith, length-take-le n xs), AllFit-chunk_rounds fuel n (drop n xs))

  pub AllFit-chunks : (n : ℕ) (xs : List A) → AllFit (suc n) (chunks (suc n) xs)
  unfolding chunks
  AllFit-chunks n xs = AllFit-chunk_rounds (length xs) n xs
