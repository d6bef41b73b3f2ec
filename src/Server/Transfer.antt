-- ===== src/Server/Transfer.antt =====
-- The streaming handlers `open` and `close` of Basic_Operation/server_code/filesystem_server.cpp.
use distributed_filesystem.Base.{
  ℕ, suc, ◌+◌, Bool, true, false, Option, none, some, List, [], ◌∷◌, ◌||◌, if◌then◌else◌, length,
  chunks,
}
use distributed_filesystem.Text.{Text, lit, is_empty, join_path, parent_path}
use distributed_filesystem.Dict.{Dict, get, put, remove}
use distributed_filesystem.Members.{contains, insert, erase}
use distributed_filesystem.Wire.{StatusCode, FileRequest, FileResponse, Notification}
use distributed_filesystem.Os.{Os}
use distributed_filesystem.Server.State.{Server, Ending, returns, throws, blocks, clients_at}
use distributed_filesystem.Server.Queries.{get_file_timestamp}
use distributed_filesystem.Server.Callbacks.{file_change_callback_close}

abbrev pub chunk_size : ℕ
chunk_size = 4096

-- `map[path].insert(client_id)`
unfoldable pub register : Text → Text → Dict (List Text) → Dict (List Text)
unfolding put insert clients_at get contains
register path client_id map = put path (insert client_id (clients_at map path)) map

-- `writer->Write` of one message for each chunk, up to the first that is refused; `accepts k` says
-- whether the k-th is taken.
unfoldable pub write_chunks : (ℕ → Bool) → ℕ → ℕ → List (List ℕ) → List FileResponse × Bool
write_chunks accepts k timestamp [] = ([], true)
write_chunks accepts k timestamp (chunk ∷ rest) =
    let (written, done) = write_chunks accepts (suc k) timestamp rest in
    if accepts k
    then (record { content = chunk; length = length chunk; timestamp = timestamp } ∷ written, done)
    else ([], false)

-- The local variables of `close`. `handle` is `none` while `outfile` is not open; `failed` is its
-- failbit; `position` counts the bytes written since it was opened, empty.
pub record Upload (D : Type 0) : Type 0 where
  pub disk : D
  pub filename : Text
  pub path : Text
  pub client_id : Text
  pub handle : Option ℕ
  pub failed : Bool
  pub position : ℕ

unfoldable pub start_upload : {D : Type 0} → D → Upload D
start_upload d = record {
  disk = d;
  filename = [];
  path = [];
  client_id = [];
  handle = none;
  failed = false;
  position = 0;
}

-- One way out of the loop of `close`, or on to the next message.
pub data Round (D : Type 0) : Type 0 where
  goes_on : Upload D → Round D
  stops : Ending → D → Round D

-- The last block of `close`: the client leaves the set of the open file.
unfoldable pub leave : Text → Text → Dict (List Text) → Dict (List Text)
unfolding erase get put remove
leave path client_id map = elim (get path map) [
  | none ↦ map
  | some clients ↦ elim (erase client_id clients) [
    | [] ↦ remove path map
    | c ∷ rest ↦ put path (c ∷ rest) map
  ]
]

-- `notif` of `close`.
unfoldable pub update_notification : Text → ℕ → Notification
update_notification path timestamp = record {
  directory = path;
  new_directory = [];
  message = lit "UPDATE";
  timestamp = timestamp;
}

module _ {D : Type 0} (os : Os D) where
  unfoldable pub send_file :
      (ℕ → Bool) → Server D → Text → Option ℕ → Ending × List FileResponse × Server D
  send_file accepts s path none = (returns StatusCode.not_found, [], s)
  send_file accepts s path (some handle) =
      let timestamp = get_file_timestamp os s.disk path in
      let (written, done) =
        write_chunks accepts 0 timestamp (chunks chunk_size (os.bytes s.disk handle)) in
      (returns (if done then StatusCode.ok else StatusCode.internal), written, s)

  -- The client is registered before the file is looked for.
  unfoldable pub open_handler :
      (ℕ → Bool) → Server D → FileRequest → Ending × List FileResponse × Server D
  unfolding register write_chunks send_file get_file_timestamp join_path
  open_handler accepts s request =
      let path = join_path request.directory request.filename in
      if s.file_map_locked
      then (blocks, [], s)
      else send_file accepts
          (record s {
            file_map = register path request.client_id s.file_map;
            file_map_open = register path request.client_id s.file_map_open;
          })
          path (os.open_read s.disk path)

  -- `outfile.open(path)` and the test `is_open()` after it; opening an open stream only fails it.
  unfoldable pub open_outfile : Upload D → Round D
  open_outfile u = elim u.handle [
    | some handle ↦ goes_on (record u { failed = true })
    | none ↦
        let (opened, d) = os.open_trunc u.disk u.path in
        elim opened [
          | none ↦ stops (returns StatusCode.permission_denied) d
          | some handle ↦
              goes_on (record u { disk = d; handle = some handle; failed = false; position = 0 })
        ]
  ]

  -- The first message names the file.
  unfoldable pub begin_upload : Upload D → FileRequest → Round D
  unfolding open_outfile join_path parent_path
  begin_upload u request =
      if is_empty u.filename || is_empty u.path
      then (let path = join_path request.directory request.filename in
          let (done, d) = os.create_directories u.disk (parent_path path) in
          if done
          then open_outfile (record u { disk = d; filename = request.filename; path = path })
          else stops throws d)
      else goes_on u

  -- `outfile.write(…)`, which a failed stream ignores.
  unfoldable pub write_content : Upload D → FileRequest → Upload D
  write_content u request = elim u.handle [
    | none ↦ record u { client_id = request.client_id }
    | some handle ↦
        if u.failed
        then record u { client_id = request.client_id }
        else (let (done, d) = os.write_at u.disk handle u.position request.content in
            record u {
              disk = d;
              client_id = request.client_id;
              failed = (if done then false else true);
              position = u.position + length request.content;
            })
  ]

  -- `while (reader->Read(&request))`
  unfoldable pub receive : Upload D → List FileRequest → Round D
  unfolding begin_upload write_content
  receive u [] = goes_on u
  receive u (request ∷ rest) = elim (begin_upload u request) [
    | stops ending d ↦ stops ending d
    | goes_on u' ↦ receive (write_content u' request) rest
  ]

  unfoldable pub finish_close : Server D → Upload D → Ending × ℕ × Server D
  unfolding leave update_notification get_file_timestamp file_change_callback_close
  finish_close s u =
      if is_empty u.path
      then (returns StatusCode.invalid_argument, 0, s)
      else (let timestamp = get_file_timestamp os u.disk u.path in
          let (returned, s') =
            file_change_callback_close s u.path u.client_id
              (update_notification u.path timestamp) in
          if returned
          then (
            returns StatusCode.ok,
            timestamp,
            record s' { file_map_open = leave u.path u.client_id s'.file_map_open },
          )
          else (blocks, timestamp, s'))

  unfoldable pub close_handler : Server D → List FileRequest → Ending × ℕ × Server D
  unfolding receive start_upload finish_close
  close_handler s requests = elim (receive (start_upload s.disk) requests) [
    | stops ending d ↦ (ending, 0, record s { disk = d })
    | goes_on u ↦ finish_close (record s { disk = u.disk }) u
  ]
