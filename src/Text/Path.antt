-- ===== src/Text/Path.antt =====
-- What the program uses of `std::filesystem::path`, on POSIX, where a path is its bytes.
use distributed_filesystem.Base.{
  ◌≡◌, refl, Bool, true, false, [], ◌∷◌, ◌++◌, ◌||◌, ◌==◌, if◌then◌else◌, arith,
}
use distributed_filesystem.Text.Equality.{Text}
use distributed_filesystem.Text.Slash.{starts_with_slash, join_path}

-- `s.empty()`
abbrev pub is_empty : Text → Bool
is_empty [] = true
is_empty (b ∷ s) = false

unfoldable pub has_slash : Text → Bool
has_slash [] = false
has_slash (b ∷ s) = b == b'/' || has_slash s

-- `p.filename()`: what stands after the last separator.
unfoldable pub file_name : Text → Text
file_name [] = []
file_name (b ∷ s) =
    let rest = file_name s in if has_slash s then rest else if b == b'/' then s else b ∷ s

-- What stands before `file_name`, the separator included.
unfoldable pub drop_file_name : Text → Text
drop_file_name [] = []
drop_file_name (b ∷ s) =
    let rest = drop_file_name s in
    if has_slash s then b ∷ rest else if b == b'/' then b ∷ [] else []

unfoldable pub strip_slashes_end : Text → Text
strip_slashes_end [] = []
strip_slashes_end (b ∷ s) =
    let rest = strip_slashes_end s in
    if b == b'/' then (if is_empty rest then [] else b ∷ rest) else b ∷ rest

-- `p.parent_path()`
unfoldable pub parent_path : Text → Text
unfolding drop_file_name strip_slashes_end has_slash starts_with_slash
parent_path p =
    let stem = strip_slashes_end (drop_file_name p) in
    if is_empty (strip_slashes_end p)
    then p
    else if is_empty stem
    then (if starts_with_slash p then b'/' ∷ [] else [])
    else stem

-- `p.relative_path()`: the leading separators are dropped.
unfoldable pub relative_path : Text → Text
relative_path [] = []
relative_path (b ∷ s) = let rest = relative_path s in if b == b'/' then rest else b ∷ s

-- `p / q`
unfoldable pub append_path : Text → Text → Text
unfolding starts_with_slash join_path
append_path p q = if starts_with_slash q then q else if is_empty p then q else join_path p q

pub drop_file_name-append : (p : Text) → drop_file_name p ++ file_name p ≡ p
unfolding drop_file_name file_name
drop_file_name-append [] = refl
drop_file_name-append (b ∷ s) = ground (arith, drop_file_name-append s)

-- A relative path has no leading separator.
pub starts_with_slash-relative_path : (p : Text) → starts_with_slash (relative_path p) ≡ false
unfolding starts_with_slash relative_path
starts_with_slash-relative_path [] = refl
starts_with_slash-relative_path (b ∷ s) = ground (arith, starts_with_slash-relative_path s)
