-- ===== src/Text/Equality.antt =====
-- `==` and `<` of `std::string`, and string literals.
use distributed_filesystem.Base.{
  ℕ, ◌≡◌, ◌↔◌, refl, Bool, true, false, List, [], ◌∷◌, ◌&&◌, arith, ◌==◌, ltb, if◌then◌else◌,
}

-- Bytes.
abbrev pub Text : Type 0
Text = List ℕ

unfoldable pub text_eq : Text → Text → Bool
text_eq [] [] = true
text_eq [] (b ∷ t) = false
text_eq (a ∷ s) [] = false
text_eq (a ∷ s) (b ∷ t) = a == b && text_eq s t

-- Lexicographic, byte by byte.
unfoldable pub text_lt : Text → Text → Bool
text_lt s [] = false
text_lt [] (b ∷ t) = true
text_lt (a ∷ s) (b ∷ t) = if a == b then text_lt s t else ltb a b

text_eq→eq : (s t : Text) → text_eq s t ≡ true → s ≡ t
unfolding text_eq
text_eq→eq [] [] h = refl
text_eq→eq [] (b ∷ t) h = cc
text_eq→eq (a ∷ s) [] h = cc
text_eq→eq (a ∷ s) (b ∷ t) h = ground (arith, text_eq→eq s t)

pub text_eq_refl : (s : Text) → text_eq s s ≡ true
unfolding text_eq
text_eq_refl [] = refl
text_eq_refl (a ∷ s) = ground (arith, text_eq_refl s)

pub text_eq_iff : (s t : Text) → (text_eq s t ≡ true) ↔ (s ≡ t)
text_eq_iff s t = (text_eq→eq s t, λ e. rw e (text_eq_refl t))

pub text_eq_sym : (s t : Text) → text_eq s t ≡ text_eq t s
text_eq_sym s t = ground (arith, text_eq_iff s t, text_eq_iff t s)
