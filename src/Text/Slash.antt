-- ===== src/Text/Slash.antt =====
-- Paths put together with `'/'`, as in `directory + (directory.back() == '/' ? "" : "/") + filename`.
use Prim.Native.Char.{code}
use distributed_filesystem.Base.{
  ℕ, ◌≡◌, refl, Bool, false, List, [], ◌∷◌, ◌++◌, String, ◌==◌, if◌then◌else◌,
}
use distributed_filesystem.Text.Equality.{Text}

-- The bytes of an ASCII literal.
abbrev pub lit : String → Text
lit String.[] = []
lit (String.◌∷◌ c s) = code c ∷ lit s

-- `s.back() == '/'`; `back` of the empty string, which is undefined, is read as another byte.
unfoldable pub ends_in_slash : List ℕ → Bool
ends_in_slash [] = false
ends_in_slash (b ∷ []) = b == b'/'
ends_in_slash (a ∷ b ∷ s) = ends_in_slash (b ∷ s)

-- `s.front() == '/'`
unfoldable pub starts_with_slash : List ℕ → Bool
starts_with_slash [] = false
starts_with_slash (b ∷ s) = b == b'/'

-- `s + (s.back() == '/' ? "" : "/")`
unfoldable pub with_slash : List ℕ → List ℕ
with_slash s = s ++ (if ends_in_slash s then [] else b'/' ∷ [])

-- `directory + (directory.back() == '/' ? "" : "/") + filename`
unfoldable pub join_path : List ℕ → List ℕ → List ℕ
unfolding with_slash ends_in_slash
join_path directory filename = with_slash directory ++ filename

pub ends_in_slash-append : (s : List ℕ) (b : ℕ) → ends_in_slash (s ++ b ∷ []) ≡ (b == b'/')
unfolding ends_in_slash
ends_in_slash-append [] b = refl
ends_in_slash-append (a ∷ []) b = refl
ends_in_slash-append (a ∷ c ∷ s) b = ends_in_slash-append (c ∷ s) b
