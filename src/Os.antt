-- ===== src/Os.antt =====
-- What the server and the client use of the operating system's files, as operations on a disk `D`
-- that the model takes as a parameter. A handle stands for an open file description: it goes on
-- naming the file when the path is renamed or removed. Where a call can fail, its result says so,
-- and a call that fails may leave a changed disk.

use distributed_filesystem.Base.{Bool, List, Option, [], length, some, true, ℕ, ◌++◌, ◌≡◌}
use distributed_filesystem.Text.{Text}

-- The fields of `struct stat` that the program reads.
pub record Stat : Type 0 where
  pub size : ℕ
  pub mode : ℕ
  pub nlink : ℕ
  pub uid : ℕ
  pub gid : ℕ
  pub atime_sec : ℕ
  pub mtime_sec : ℕ
  pub mtime_nsec : ℕ
  pub ctime_sec : ℕ

-- `stat()`: success, `ENOENT`, or another `errno`.
pub data StatResult : Type 0 where
  found : Stat → StatResult
  no_entry failed : StatResult

-- `directory_entry`: its `is_directory()` and `is_regular_file()`.
pub data EntryKind : Type 0 where
  is_directory is_regular_file is_other : EntryKind

-- `std::filesystem::remove(path, ec)`
pub data RemoveResult : Type 0 where
  removed absent : RemoveResult
  denied no_such_file other_error : RemoveResult

-- `create_directory`: created, not created, or an exception.
pub data CreateResult : Type 0 where
  created not_created create_throws : CreateResult

pub record Os (D : Type 0) : Type 0 where
  pub stat : D → Text → StatResult
  -- `exists`, `is_directory`, `file_size` and `directory_iterator`; `none` is an exception
  pub exists : D → Text → Option Bool
  pub is_dir : D → Text → Option Bool
  pub file_size : D → Text → Option ℕ
  pub list_dir : D → Text → Option (List (Text × EntryKind))
  -- these return `false` where the library throws
  pub create_directories : D → Text → Bool × D
  pub set_permissions : D → Text → ℕ → Bool × D
  pub rename : D → Text → Text → Bool × D
  pub resize_file : D → Text → ℕ → Bool × D
  pub create_directory : D → Text → CreateResult × D
  pub remove : D → Text → RemoveResult × D
  -- `ifstream(path)`, `ofstream(path)`, and `ofstream(path, in)`; `none`: not open
  pub open_read : D → Text → Option ℕ
  pub open_trunc : D → Text → Option ℕ × D
  pub open_update : D → Text → Option ℕ
  -- the bytes behind a handle, what an output stream still holds for them included; a write of bytes
  -- at a position, which may fail; and the close of an output stream, which writes what it still
  -- holds and may fail at that
  pub bytes : D → ℕ → List ℕ
  pub write_at : D → ℕ → ℕ → List ℕ → Bool × D
  pub close_write : D → ℕ → Bool × D
  -- `system_clock::now()` in nanoseconds
  pub now : D → ℕ

-- Documented behaviour of files that the transfer theorems rely on: an open with truncation gives
-- an empty file that a later open of the path finds, a write at the end appends, and a close that
-- does not fail leaves what was written.
pub record IsFaithful {D : Type 0} (os : Os D) : Type 0 where
  pub open_trunc_empty :
      (d e : D) (p : Text) (h : ℕ) → os.open_trunc d p ≡ (some h, e) → os.bytes e h ≡ []
  pub open_trunc_found :
      (d e : D) (p : Text) (h : ℕ) → os.open_trunc d p ≡ (some h, e) → os.open_read e p ≡ some h
  pub write_end :
      (d e : D) (h : ℕ) (bs : List ℕ)
      → os.write_at d h (length (os.bytes d h)) bs ≡ (true, e)
      → os.bytes e h ≡ os.bytes d h ++ bs
  pub write_found :
      (d : D) (h pos : ℕ) (bs : List ℕ) (p : Text)
      → os.open_read (os.write_at d h pos bs).1 p ≡ os.open_read d p
  pub close_kept : (d e : D) (h : ℕ) → os.close_write d h ≡ (true, e) → os.bytes e h ≡ os.bytes d h
  pub close_found :
      (d : D) (h : ℕ) (p : Text) → os.open_read (os.close_write d h).1 p ≡ os.open_read d p

-- No close of an output stream fails.
abbrev pub ClosesSucceed : {D : Type 0} → Os D → Type 0
ClosesSucceed {D} os = (d : D) (h : ℕ) → (os.close_write d h).0 ≡ true
