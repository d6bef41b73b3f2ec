-- ===== src/Examples/Drives.antt =====
-- The disk in memory keeps its files apart, and the server on it as a map from paths to bytes.

use distributed_filesystem.Base.{
  ==_iff, Bool-cases, List, Option, [], ap, arith, concat, false, if_ind, inl, inr, none, refl,
  some, subst, true, ℕ, ◌<◌, ◌==◌, ◌∙◌, ◌∷◌, ◌≡◌, ◌≢◌,
}
use distributed_filesystem.Dict.{get, get-put, get-remove}
use distributed_filesystem.Examples.Memory.{
  Memory, blank, memory, memory-IsFaithful, memory-WritesSucceed, overwrite, remove_name,
  truncate_name,
}
use distributed_filesystem.Examples.Uploads.{alice, bob, note_file, root}
use distributed_filesystem.Server.Refines.{observed-recalled}
use distributed_filesystem.Server.State.{new_server}
use distributed_filesystem.Server.Store.{
  KeepsApart, Request, bytes_of_file, fetches, observed, recalled, removes, store_at, uploads,
}
use distributed_filesystem.Text.{Text, join_path, lit, text_eq, text_eq_iff}

-- No two names point to one file, and new files get new numbers.
abbrev IsPlain : Memory → Type 0
IsPlain d =
    ((p q : Text) (h : ℕ) → get p d.names ≡ some h → get q d.names ≡ some h → text_eq p q ≡ true)
    × ((p : Text) (h : ℕ) → get p d.names ≡ some h → h < d.next)

abbrev IsAnyPath : Text → Type 0
IsAnyPath p = Unit {0}

bytes_of_file-overwrite :
    (f : ℕ → List ℕ) (h : ℕ) (bs : List ℕ) (o : Option ℕ)
    → o ≢ some h
    → bytes_of_file (overwrite f h bs) o ≡ bytes_of_file f o
bytes_of_file-overwrite f h bs none other = refl
bytes_of_file-overwrite f h bs (some k) other = ap some (
    if_ind (λ b. b ≡ f k) (k == h) _ _ (λ e. absurd (other (ap some ((==_iff k h).0 e))))
      (λ _. refl))

truncate_name-IsPlain :
    (d : Memory) (p : Text) (o : Option ℕ)
    → get p d.names ≡ o
    → IsPlain d
    → IsPlain (truncate_name d p o).1
truncate_name-IsPlain d p none e (apart, below) = (
  λ i j h a b. ground (
    arith,
    get-put p i d.next d.names,
    get-put p j d.next d.names,
    below i h,
    below j h,
    apart i j h,
    text_eq_iff p i,
    text_eq_iff p j,
    text_eq_iff i j,
  ),
  λ i h a. ground (arith, get-put p i d.next d.names, below i h),
)
truncate_name-IsPlain d p (some h) e plain = plain

remove_name-IsPlain :
    (d : Memory) (p : Text) (o : Option ℕ) → IsPlain d → IsPlain (remove_name d p o).1
remove_name-IsPlain d p none plain = plain
remove_name-IsPlain d p (some k) (apart, below) = (
  λ i j h a b. ground (arith, get-remove p i d.names, get-remove p j d.names, apart i j h),
  λ i h a. ground (arith, get-remove p i d.names, below i h),
)

truncate_name-apart :
    (d : Memory) (p q : Text) (o : Option ℕ)
    → get p d.names ≡ o
    → IsPlain d
    → text_eq p q ≡ false
    → let e = (truncate_name d p o).1 in
      bytes_of_file e.bytes_of (get q e.names) ≡ bytes_of_file d.bytes_of (get q d.names)
truncate_name-apart d p q none e (apart, below) other =
    ap (bytes_of_file _) (rw (get-put p q d.next d.names, other) refl)
    ∙ bytes_of_file-overwrite d.bytes_of d.next [] (get q d.names)
        (λ a. omega (arith, below q d.next a))
truncate_name-apart d p q (some h) e (apart, below) other =
    bytes_of_file-overwrite d.bytes_of h [] (get q d.names) (λ a. ground (arith, apart p q h e a))

remove_name-holds :
    (d : Memory) (p q : Text) (o : Option ℕ)
    → get p d.names ≡ o
    → let e = (remove_name d p o).1 in
      bytes_of_file e.bytes_of (get q e.names)
      ≡ store_at (λ j. bytes_of_file d.bytes_of (get j d.names)) p none q
remove_name-holds d p q none e = elim (Bool-cases (text_eq p q)) [
  | inl same ↦ rw same (
      ap (bytes_of_file d.bytes_of)
        (subst (λ j. get j d.names ≡ none) ((text_eq_iff p q).0 same) e))
  | inr other ↦ rw other refl
]
remove_name-holds d p q (some h) e = elim (Bool-cases (text_eq p q)) [
  | inl same ↦ rw (same, get-remove p q d.names, same) refl
  | inr other ↦ rw (other, get-remove p q d.names, other) refl
]

truncate_name-some :
    (d : Memory) (p : Text) (o : Option ℕ) → (h : ℕ) × ((truncate_name d p o).0 ≡ some h)
truncate_name-some d p none = (d.next, refl)
truncate_name-some d p (some h) = (h, refl)

memory-KeepsApart : KeepsApart memory IsPlain IsAnyPath
unfolding memory
memory-KeepsApart = record {
  makes = λ d p n. refl;
  makes_plain = λ d p plain. plain;
  makes_holds = λ d p q n plain. refl;
  empties = λ d p n. truncate_name-some d p (get p d.names);
  empties_plain = λ d p n plain. truncate_name-IsPlain d p (get p d.names) refl plain;
  empties_holds =
      λ d p q m n plain other. truncate_name-apart d p q (get p d.names) refl plain other;
  writes_plain = λ d h position bs plain. plain;
  writes_holds = λ d p q h position bs m n plain there other.
      bytes_of_file-overwrite d.bytes_of h _ (get q d.names)
        (λ a. ground (arith, plain.0 p q h there a));
  removes_plain = λ d p n plain. remove_name-IsPlain d p (get p d.names) plain;
  removes_holds = λ d p q m n plain. remove_name-holds d p q (get p d.names) refl;
}

-- Alice uploads a file, Bob fetches it, changes it and removes another one, and both look again.
abbrev second_file : Text
second_file = lit "b.txt"

abbrev requests : List Request
requests =
    uploads root note_file alice (1 ∷ 2 ∷ []) []
    ∷ uploads root second_file alice (7 ∷ []) ((8 ∷ []) ∷ [])
    ∷ fetches root note_file bob
    ∷ uploads root note_file bob (3 ∷ []) ((4 ∷ 5 ∷ []) ∷ [])
    ∷ fetches root second_file alice
    ∷ removes (lit "/srv/b.txt") bob
    ∷ fetches root note_file alice
    ∷ fetches root second_file bob
    ∷ []

abbrev answers : List (Option (List ℕ))
answers = some (1 ∷ 2 ∷ []) ∷ some (7 ∷ 8 ∷ []) ∷ some (3 ∷ 4 ∷ 5 ∷ []) ∷ none ∷ []

requests-recalled : recalled (λ _. none) requests ≡ answers
unfolding recalled text_eq join_path concat
requests-recalled = refl

blank-IsPlain : IsPlain blank
unfolding get
blank-IsPlain = (λ p q h a b. cc, λ p h a. cc)

observed-recalled_example :
    observed memory (new_server blank root) requests ≡ recalled (λ _. none) requests
unfolding new_server memory get
observed-recalled_example =
    observed-recalled memory memory-IsFaithful memory-WritesSucceed IsPlain IsAnyPath
      memory-KeepsApart requests (new_server blank root) (λ _. none) refl blank-IsPlain
      (refl, tt, (refl, tt, (tt, (refl, tt, (tt, (tt, (tt, (tt, tt)))))))) (λ q n. refl)
