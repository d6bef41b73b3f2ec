-- ===== src/Text/Order.antt =====
-- `<` of `std::string` is a strict total order.
use distributed_filesystem.Base.{◌≡◌, refl, true, false, [], ◌∷◌, arith}
use distributed_filesystem.Text.Equality.{Text, text_eq, text_lt, text_eq_iff}

pub text_lt_irrefl : (s : Text) → text_lt s s ≡ false
unfolding text_lt
text_lt_irrefl [] = refl
text_lt_irrefl (a ∷ s) = ground (arith, text_lt_irrefl s)

pub text_lt_trans : (s t u : Text) → text_lt s t ≡ true → text_lt t u ≡ true → text_lt s u ≡ true
unfolding text_lt
text_lt_trans s [] u h k = cc
text_lt_trans s (b ∷ t) [] h k = cc
text_lt_trans [] (b ∷ t) (c ∷ u) h k = refl
text_lt_trans (a ∷ s) (b ∷ t) (c ∷ u) h k = ground (arith, text_lt_trans s t u)

pub text_lt_total : (s t : Text) → text_eq s t ≡ false → text_lt s t ≡ false → text_lt t s ≡ true
unfolding text_eq text_lt
text_lt_total [] [] h k = cc
text_lt_total [] (b ∷ t) h k = cc
text_lt_total (a ∷ s) [] h k = refl
text_lt_total (a ∷ s) (b ∷ t) h k = ground (arith, text_lt_total s t)

pub text_lt-ne : (s t : Text) → text_lt s t ≡ true → text_eq s t ≡ false
text_lt-ne s t h = ground (arith, text_eq_iff s t, text_lt_irrefl s)
