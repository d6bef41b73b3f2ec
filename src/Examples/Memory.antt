-- ===== src/Examples/Memory.antt =====
-- A disk in memory: names that point to numbered files, and the bytes of each. Every call that needs
-- no existing file succeeds.

use distributed_filesystem.Base.{
  ==_iff, Bool, List, Option, [], ap, append-nil, arith, drop, false, if◌then◌else◌, length, none,
  refl, some, subst, suc, sym, take, true, zero, ℕ, ◌++◌, ◌+◌, ◌==◌, ◌∙◌, ◌∷◌, ◌≡◌, ◌≤◌,
}
use distributed_filesystem.Dict.{Dict, get, get-put_self, put, remove}
use distributed_filesystem.Os.{
  ClosesSucceed, IsFaithful, Os, RemoveResult, StatResult, absent, created, found, no_entry,
  removed,
}
use distributed_filesystem.Server.Roundtrip.{WritesSucceed}
use distributed_filesystem.Text.{Text, text_eq, text_lt}

pub record Memory : Type 0 where
  pub names : Dict ℕ
  pub bytes_of : ℕ → List ℕ
  pub next : ℕ
  pub clock : ℕ

abbrev pub blank : Memory
blank = record { names = []; bytes_of = λ _. []; next = 0; clock = 7 }

abbrev pub splice : ℕ → List ℕ → List ℕ → List ℕ
splice position bs old = take position old ++ (bs ++ drop (position + length bs) old)

abbrev pub overwrite : (ℕ → List ℕ) → ℕ → List ℕ → ℕ → List ℕ
overwrite f h bs j = if j == h then bs else f j

abbrev stat_of : Memory → Option ℕ → StatResult
stat_of d none = no_entry
stat_of d (some h) = found (record {
  size = length (d.bytes_of h);
  mode = 33188;
  nlink = 1;
  uid = 0;
  gid = 0;
  atime_sec = d.clock;
  mtime_sec = d.clock;
  mtime_nsec = 5;
  ctime_sec = d.clock;
})

abbrev pub truncate_name : Memory → Text → Option ℕ → Option ℕ × Memory
truncate_name d p none = (
  some d.next,
  record d {
    names = put p d.next d.names;
    bytes_of = overwrite d.bytes_of d.next [];
    next = d.next + 1;
  },
)
truncate_name d p (some h) = (some h, record d { bytes_of = overwrite d.bytes_of h [] })

abbrev move_name : Memory → Text → Text → Option ℕ → Bool × Memory
move_name d p q none = (false, d)
move_name d p q (some h) = (true, record d { names = put q h (remove p d.names) })

abbrev pub remove_name : Memory → Text → Option ℕ → RemoveResult × Memory
remove_name d p none = (absent, d)
remove_name d p (some h) = (removed, record d { names = remove p d.names })

abbrev present : Option ℕ → Bool
present none = false
present (some h) = true

abbrev size_of : Memory → Option ℕ → Option ℕ
size_of d none = none
size_of d (some h) = some (length (d.bytes_of h))

unfoldable pub memory : Os Memory
unfolding get put remove text_eq text_lt
memory = record {
  stat = λ d p. stat_of d (get p d.names);
  exists = λ d p. some (present (get p d.names));
  is_dir = λ d p. some false;
  file_size = λ d p. size_of d (get p d.names);
  list_dir = λ d p. some [];
  create_directories = λ d p. (true, d);
  set_permissions = λ d p mode. (true, d);
  rename = λ d p q. move_name d p q (get p d.names);
  resize_file = λ d p n. (true, d);
  create_directory = λ d p. (created, d);
  remove = λ d p. remove_name d p (get p d.names);
  open_read = λ d p. get p d.names;
  open_trunc = λ d p. truncate_name d p (get p d.names);
  open_update = λ d p. get p d.names;
  bytes = λ d h. d.bytes_of h;
  write_at = λ d h position bs.
      (true, record d { bytes_of = overwrite d.bytes_of h (splice position bs (d.bytes_of h)) });
  close_write = λ d h. (true, d);
  now = λ d. d.clock;
}

take-length : (xs : List ℕ) → take (length xs) xs ≡ xs
take-length [] = refl
take-length (x ∷ xs) = ap (◌∷◌ x) (take-length xs)

drop_past : (n : ℕ) (xs : List ℕ) → length xs ≤ n → drop n xs ≡ []
drop_past zero [] h = refl
drop_past zero (x ∷ xs) h = absurd (omega arith)
drop_past (suc n) [] h = refl
drop_past (suc n) (x ∷ xs) h = drop_past n xs (omega arith)

splice_end : (old bs : List ℕ) → splice (length old) bs old ≡ old ++ bs
splice_end old bs =
    rw (take-length old, drop_past (length old + length bs) old (omega arith), append-nil)

pub overwrite_self : (f : ℕ → List ℕ) (h : ℕ) (bs : List ℕ) → overwrite f h bs h ≡ bs
overwrite_self f h bs = rw ((==_iff h h).1 refl)

-- What an open with truncation leaves.
abbrev IsFresh : Text → Option ℕ × Memory → Type 0
IsFresh p (none, e) = Unit {0}
IsFresh p (some h, e) = (e.bytes_of h ≡ []) × (get p e.names ≡ some h)

truncate_name-IsFresh :
    (d : Memory) (p : Text) (o : Option ℕ) → get p d.names ≡ o → IsFresh p (truncate_name d p o)
truncate_name-IsFresh d p none q =
    (overwrite_self d.bytes_of d.next [], get-put_self p d.next d.names)
truncate_name-IsFresh d p (some h) q = (overwrite_self d.bytes_of h [], q)

pub memory-IsFaithful : IsFaithful memory
unfolding memory
memory-IsFaithful = record {
  open_trunc_empty =
      λ d e p h q. (subst (IsFresh p) q (truncate_name-IsFresh d p (get p d.names) refl)).0;
  open_trunc_found =
      λ d e p h q. (subst (IsFresh p) q (truncate_name-IsFresh d p (get p d.names) refl)).1;
  write_end = λ d e h bs q.
      subst (λ (r : Bool × Memory). r.1.bytes_of h ≡ d.bytes_of h ++ bs) q
        (overwrite_self d.bytes_of h _ ∙ splice_end (d.bytes_of h) bs);
  write_found = λ d h position bs p. refl;
  close_kept = λ d e h q. ap (λ (r : Bool × Memory). r.1.bytes_of h) (sym q);
  close_found = λ d h p. refl;
}

pub memory-ClosesSucceed : ClosesSucceed memory
unfolding memory
memory-ClosesSucceed d h = refl

pub memory-WritesSucceed : WritesSucceed memory
unfolding memory
memory-WritesSucceed d h position bs = refl
