-- ===== src/Client/State.antt =====
-- The fields of class `FileSystemClient` (Basic_Operation/client_code/filesystem_client.hpp) and
-- `FileAttributes` (Basic_Operation/client_code/file_attributes.hpp).

use distributed_filesystem.Base.{Bool, List, none, some, ℕ}
use distributed_filesystem.Dict.{Dict, get, put}
use distributed_filesystem.Text.{Text}

pub record FileInfo : Type 0 where
  pub locally_modified : Bool
  pub timestamp : ℕ
  pub filename : Text

-- A `std::fstream`: the file behind it, whether it is open, and its failbit.
pub record Stream : Type 0 where
  pub handle : ℕ
  pub is_open : Bool
  pub failed : Bool

pub record FileStreams : Type 0 where
  pub read_stream : Stream
  pub write_stream : Stream

pub record FileAttributes : Type 0 where
  pub size : ℕ
  pub atime : ℕ
  pub mtime : ℕ
  pub ctime : ℕ
  pub mode : ℕ
  pub nlink : ℕ
  pub uid : ℕ
  pub gid : ℕ

-- `file_mutexes` holds the paths that have a mutex; `uid` and `gid` are `getuid()` and `getgid()`.
pub record Client (D : Type 0) : Type 0 where
  pub disk : D
  pub cache : Dict FileInfo
  pub opened_files : Dict FileStreams
  pub file_mutexes : List Text
  pub cached_attr : Dict FileAttributes
  pub server_root_path : Text
  pub client_id : Text
  pub cache_directory : Text
  pub uid : ℕ
  pub gid : ℕ

-- A call's result: what it returns, or an exception that leaves it.
pub data Answer : Type 0 where
  answers : Bool → Answer
  throws : Answer

-- A change of the value at a key, where there is one: `it->second.field = …`.
unfoldable pub update {ℓ} : {V : Type ℓ} → Text → (V → V) → Dict V → Dict V
update k f m = elim (get k m) [ none ↦ m | some v ↦ put k (f v) m ]
