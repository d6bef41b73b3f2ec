-- ===== src/Members.antt =====
-- `std::unordered_set<std::string>` as a list without repetitions. Its iteration order is not
-- specified, and no theorem depends on it.
use distributed_filesystem.Base.{
  ◌≡◌, Bool, false, List, [], ◌∷◌, ◌&&◌, ◌||◌, not, arith, if◌then◌else◌,
}
use distributed_filesystem.Text.{Text, text_eq, text_eq_iff}

unfoldable pub contains : Text → List Text → Bool
contains c [] = false
contains c (d ∷ s) = text_eq d c || contains c s

-- `s.insert(c)`
unfoldable pub insert : Text → List Text → List Text
insert c s = if contains c s then s else c ∷ s

-- `s.erase(c)`
unfoldable pub erase : Text → List Text → List Text
erase c [] = []
erase c (d ∷ s) = let rest = erase c s in if text_eq d c then rest else d ∷ rest

abbrev pub Distinct : List Text → Type 0
Distinct [] = Unit {0}
Distinct (d ∷ s) = (contains d s ≡ false) × Distinct s

pub contains-insert :
    (c d : Text) (s : List Text) → contains d (insert c s) ≡ (text_eq c d || contains d s)
unfolding contains insert
contains-insert c d s = ground (arith, text_eq_iff c d)

pub contains-erase :
    (c d : Text) (s : List Text) → contains d (erase c s) ≡ (not (text_eq c d) && contains d s)
unfolding contains erase
contains-erase c d [] = ground arith
contains-erase c d (e ∷ s) =
    ground (arith, text_eq_iff c d, text_eq_iff e c, text_eq_iff e d, contains-erase c d s)

pub insert-Distinct : (c : Text) (s : List Text) → Distinct s → Distinct (insert c s)
unfolding insert
insert-Distinct c s h = ground arith

pub erase-Distinct : (c : Text) (s : List Text) → Distinct s → Distinct (erase c s)
unfolding erase
erase-Distinct c [] h = tt
erase-Distinct c (d ∷ s) h = ground (arith, erase-Distinct c s h.1, contains-erase c d s)
