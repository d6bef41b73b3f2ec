-- ===== src/Text/Prefix.antt =====
-- A path below another: `key.rfind(p, 0) == 0`, and what stands after `p`.
use distributed_filesystem.Base.{
  ◌<◌, ◌≡◌, refl, Bool, true, false, Option, none, some, [], ◌∷◌, ◌++◌, ◌==◌, arith, if◌then◌else◌,
  length, drop, ap, ==_iff,
}
use distributed_filesystem.Text.Equality.{Text}

-- What stands after a prefix.
unfoldable pub strip_prefix : Text → Text → Option Text
strip_prefix [] s = some s
strip_prefix (a ∷ p) [] = none
strip_prefix (a ∷ p) (b ∷ s) = if a == b then strip_prefix p s else none

-- The key ends there, or goes on with a separator.
abbrev pub at_boundary : Text → Bool
at_boundary [] = true
at_boundary (b ∷ s) = b == b'/'

abbrev bounded : Option Text → Bool
bounded none = false
bounded (some s) = at_boundary s

-- The key is `p`, or stands below the folder `p`.
unfoldable pub is_within : Text → Text → Bool
unfolding strip_prefix
is_within p key = bounded (strip_prefix p key)

pub strip_prefix-append : (p s : Text) → strip_prefix p (p ++ s) ≡ some s
unfolding strip_prefix
strip_prefix-append [] s = refl
strip_prefix-append (a ∷ p) s = ground (arith, strip_prefix-append p s)

pub strip_prefix_sound : (p key s : Text) → strip_prefix p key ≡ some s → key ≡ p ++ s
unfolding strip_prefix
strip_prefix_sound [] key s h = ground arith
strip_prefix_sound (a ∷ p) [] s h = absurd (ground arith)
strip_prefix_sound (a ∷ p) (b ∷ key) s h = ground (arith, strip_prefix_sound p key s, ==_iff a b)

pub is_within-append : (p s : Text) → is_within p (p ++ s) ≡ at_boundary s
unfolding is_within
is_within-append p s = ap bounded (strip_prefix-append p s)

-- A key within `p`, taken apart.
pub within_suffix :
    (p key : Text) → is_within p key ≡ true → (s : Text) × (key ≡ p ++ s) × (at_boundary s ≡ true)
unfolding is_within
within_suffix p key h = cut (strip_prefix p key) h (strip_prefix_sound p key)
  where
    cut :
        (o : Option Text)
        → bounded o ≡ true
        → ((s : Text) → o ≡ some s → key ≡ p ++ s)
        → (s : Text) × (key ≡ p ++ s) × (at_boundary s ≡ true)
    cut none b sound = absurd (ground arith)
    cut (some s) b sound = (s, sound s refl, b)

pub drop-length-append : (p s : Text) → drop (length p) (p ++ s) ≡ s
drop-length-append [] s = refl
drop-length-append (a ∷ p) s = drop-length-append p s

-- If neither path is within the other, nothing below the one is below the other.
pub is_within_apart :
    (p q s : Text)
    → at_boundary s ≡ true
    → is_within p q ≡ false
    → is_within q p ≡ false
    → is_within p (q ++ s) ≡ false
unfolding is_within strip_prefix
is_within_apart [] [] s b h k = ground arith
is_within_apart [] (c ∷ q) s b h k = h
is_within_apart (a ∷ p) [] [] b h k = refl
is_within_apart (a ∷ p) [] (c ∷ s) b h k = ground (arith, ==_iff a c)
is_within_apart (a ∷ p) (c ∷ q) s b h k =
    ground (arith, is_within_apart p q s b, ==_iff a c, ==_iff c a)

-- Where `q` is not within `p`, only a shorter `q` can have `p` below it.
pub is_within_shorter :
    (p q s : Text)
    → at_boundary s ≡ true
    → is_within p q ≡ false
    → is_within p (q ++ s) ≡ true
    → length q < length p
unfolding is_within strip_prefix
is_within_shorter [] [] s b h k = absurd (ground arith)
is_within_shorter [] (c ∷ q) s b h k = absurd (ground arith)
is_within_shorter (a ∷ p) [] s b h k = omega arith
is_within_shorter (a ∷ p) (c ∷ q) s b h k = ground (arith, is_within_shorter p q s b)
