-- ===== src/Wire.antt =====
-- The messages of Basic_Operation/proto_files/afs_operation.proto and the outcome of a call.
-- Lengths, times and modes are native numbers; `int64` times are those since 1970.
use distributed_filesystem.Base.{ℕ, Bool, true, false, List}
use distributed_filesystem.Text.{Text}
use distributed_filesystem.Dict.{Dict}

-- The codes of `grpc::StatusCode` that the program returns or compares.
pub data StatusCode : Type 0 where
  ok not_found internal permission_denied invalid_argument aborted unknown unavailable : StatusCode

-- `status.ok()`
abbrev pub is_ok : StatusCode → Bool
is_ok StatusCode.ok = true
is_ok _ = false

pub record FileRequest : Type 0 where
  pub filename : Text
  pub directory : Text
  pub content : List ℕ
  pub client_id : Text

pub record FileResponse : Type 0 where
  pub content : List ℕ
  pub length : ℕ
  pub timestamp : ℕ

pub record GetAttrResponse : Type 0 where
  pub size : ℕ
  pub mtime : ℕ
  pub mode : ℕ
  pub atime : ℕ
  pub ctime : ℕ
  pub nlink : ℕ
  pub uid : ℕ
  pub gid : ℕ

pub record RenameRequest : Type 0 where
  pub filename : Text
  pub new_filename : Text
  pub directory : Text
  pub new_directory : Text
  pub client_id : Text

pub record Notification : Type 0 where
  pub directory : Text
  pub new_directory : Text
  pub message : Text
  pub timestamp : ℕ

pub record GetStatusResponse : Type 0 where
  pub connected_clients : List Text
  pub file_to_clients : Dict (List Text)

-- A response with every field at its default.
abbrev pub no_attributes : GetAttrResponse
no_attributes = record {
  size = 0;
  mtime = 0;
  mode = 0;
  atime = 0;
  ctime = 0;
  nlink = 0;
  uid = 0;
  gid = 0;
}
