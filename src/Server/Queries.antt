-- ===== src/Server/Queries.antt =====
-- The handlers that move no file data: `request_dir`, `getattr`, `ls`, `mkdir` and `GetStatus` of
-- Basic_Operation/server_code/filesystem_server.cpp.
use distributed_filesystem.Base.{
  ℕ, ◌+◌, ◌*◌, ◌%◌, ◌^◌, true, false, Option, none, some, List, [], ◌∷◌, if◌then◌else◌,
}
use distributed_filesystem.Text.{Text, text_eq, lit, is_empty, join_path}
use distributed_filesystem.Dict.{Dict, put}
use distributed_filesystem.Members.{contains, insert}
use distributed_filesystem.Wire.{StatusCode, GetAttrResponse, GetStatusResponse, no_attributes}
use distributed_filesystem.Os.{
  Os, Stat, found, no_entry, failed, EntryKind, is_directory, is_regular_file, is_other, created,
  not_created, create_throws,
}
use distributed_filesystem.Server.State.{Server, Ending, returns, throws}

-- A `uint32` field of a message.
abbrev pub uint32 : ℕ → ℕ
uint32 n = n % 2 ^ 32

-- Seconds and nanoseconds in one number.
unfoldable pub nanoseconds : ℕ → ℕ → ℕ
nanoseconds sec nsec = sec * 1000000000 + nsec

abbrev pub initialise_code : Text
initialise_code = lit "I want input/output directory"

module _ {D : Type 0} (os : Os D) where
  -- 0 where `stat` fails.
  unfoldable pub get_file_timestamp : D → Text → ℕ
  unfolding nanoseconds
  get_file_timestamp d path = elim (os.stat d path) [
    | found st ↦ nanoseconds st.mtime_sec st.mtime_nsec
    | _ ↦ 0
  ]

  unfoldable pub request_dir : Server D → Text → Text → StatusCode × Text × Server D
  unfolding contains insert text_eq
  request_dir s code client_id =
      if text_eq code initialise_code
      then (
        StatusCode.ok,
        s.root_dir,
        (if is_empty client_id
            then s
            else if contains client_id s.clients_db
            then s
            else record s { clients_db = insert client_id s.clients_db }),
      )
      else (StatusCode.permission_denied, [], s)

  unfoldable pub attributes : Stat → ℕ → GetAttrResponse
  attributes st precise_time = record {
    size = st.size;
    mtime = precise_time;
    mode = uint32 st.mode;
    atime = precise_time;
    ctime = precise_time;
    nlink = uint32 st.nlink;
    uid = uint32 st.uid;
    gid = uint32 st.gid;
  }

  unfoldable pub getattr : Server D → Text → Text → StatusCode × GetAttrResponse
  unfolding attributes join_path get_file_timestamp
  getattr s directory filename =
      let path = join_path directory filename in
      elim (os.stat s.disk path) [
        | found st ↦ (StatusCode.ok, attributes st (get_file_timestamp s.disk path))
        | no_entry ↦ (StatusCode.not_found, no_attributes)
        | failed ↦ (StatusCode.internal, no_attributes)
      ]

  -- An entry that is neither a directory nor a regular file is left out.
  unfoldable pub entry_list : List (Text × EntryKind) → Dict Text → Dict Text
  unfolding put
  entry_list [] map = map
  entry_list ((name, is_directory) ∷ rest) map = entry_list rest (put name (lit "Directory") map)
  entry_list ((name, is_regular_file) ∷ rest) map =
      entry_list rest (put name (lit "Regular_File") map)
  entry_list ((name, is_other) ∷ rest) map = entry_list rest map

  unfoldable pub list_entries : Option (List (Text × EntryKind)) → StatusCode × Dict Text
  unfolding entry_list
  list_entries none = (StatusCode.aborted, [])
  list_entries (some entries) = (StatusCode.ok, entry_list entries [])

  unfoldable pub ls : Server D → Text → StatusCode × Dict Text
  unfolding list_entries
  ls s directory = elim (os.exists s.disk directory) [
    | none ↦ (StatusCode.aborted, [])
    | some false ↦ (StatusCode.not_found, [])
    | some true ↦ elim (os.is_dir s.disk directory) [
      | none ↦ (StatusCode.aborted, [])
      | some false ↦ (StatusCode.invalid_argument, [])
      | some true ↦ list_entries (os.list_dir s.disk directory)
    ]
  ]

  -- `create_directory`, then `permissions`, inside the `try`.
  unfoldable pub make_directory : Server D → Text → ℕ → Ending × Server D
  make_directory s directory mode =
      let (result, d) = os.create_directory s.disk directory in
      elim result [
        | create_throws ↦ (returns StatusCode.internal, record s { disk = d })
        | not_created ↦ (returns StatusCode.permission_denied, record s { disk = d })
        | created ↦
            let (done, e) = os.set_permissions d directory mode in
            (returns (if done then StatusCode.ok else StatusCode.internal), record s { disk = e })
      ]

  -- The two tests on the path stand outside the `try`.
  unfoldable pub mkdir : Server D → Text → ℕ → Ending × Server D
  unfolding make_directory
  mkdir s directory mode = elim (os.exists s.disk directory) [
    | none ↦ (throws, s)
    | some true ↦ elim (os.is_dir s.disk directory) [
      | none ↦ (throws, s)
      | some false ↦ (returns StatusCode.invalid_argument, s)
      | some true ↦ (returns StatusCode.ok, s)
    ]
    | some false ↦ make_directory s directory mode
  ]

unfoldable pub get_status : {D : Type 0} → Server D → GetStatusResponse
get_status s = record { connected_clients = s.clients_db; file_to_clients = s.file_map_open }
