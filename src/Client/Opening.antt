-- ===== src/Client/Opening.antt =====
-- `open_file` of Basic_Operation/client_code/filesystem_client.cpp: the download into the cache with
-- its three tries, and the opening of the local streams.

-- What the loop over the responses has done: the disk, the last timestamp, the position in the
-- file, and whether a write failed. The stream may hold
-- back what it has taken until it is closed.
use distributed_filesystem.Base.{
  Bool, List, [], false, if◌then◌else◌, length, none, not, some, suc, true, zero, ℕ, ◌+◌, ◌==◌, ◌∷◌,
}
use distributed_filesystem.Client.Files.{mark_opened, open_streams}
use distributed_filesystem.Client.Paths.{cache_dir, open_location, resolve_server_path, server_key}
use distributed_filesystem.Client.State.{Answer, Client, FileAttributes, answers, throws, update}
use distributed_filesystem.Client.Stub.{Stub}
use distributed_filesystem.Dict.{get, put, remove}
use distributed_filesystem.Os.{Os, RemoveResult, absent, denied, no_such_file, other_error, removed}
use distributed_filesystem.Text.{Text}
use distributed_filesystem.Wire.{FileRequest, FileResponse, StatusCode, is_ok}

pub record Download (D : Type 0) : Type 0 where
  pub disk : D
  pub last_timestamp : ℕ
  pub position : ℕ
  pub failed : Bool

module _ {D : Type 0} (os : Os D) where
  -- `outfile.write(…)` for a response that says it has content
  unfoldable pub write_response : ℕ → Download D → FileResponse → Download D
  write_response h u r =
      if r.length == 0
      then record u { last_timestamp = r.timestamp }
      else (let (done, d) = os.write_at u.disk h u.position r.content in
          record u {
            disk = d;
            last_timestamp = r.timestamp;
            position = u.position + length r.content;
            failed = not done;
          })

  -- `while (reader->Read(&response_temp))`, left at the first write that fails
  unfoldable pub save_responses : ℕ → Download D → List FileResponse → Download D
  unfolding write_response
  save_responses h u [] = u
  save_responses h u (r ∷ rest) =
      let u' = write_response h u r in
      let more = save_responses h u' rest in if u'.failed then u' else more

  -- `outfile.close()`, after the loop and where a write has failed: whether it could write what the
  -- stream still held is not looked at.
  unfoldable pub close_outfile : ℕ → Download D → Download D
  close_outfile h u = record u { disk = (os.close_write u.disk h).1 }

  -- The attributes of the file, if they are cached, follow a download.
  unfoldable pub sync_attributes : D → Text → ℕ → FileAttributes → FileAttributes
  sync_attributes d location timestamp a =
      let b = record a { mtime = timestamp; atime = timestamp; ctime = timestamp } in
      elim (os.file_size d location) [ none ↦ b | some n ↦ record b { size = n } ]

-- `remove(path)` without an error code: it throws where the file is not gone.
unfoldable pub removal_answer : RemoveResult → Answer
removal_answer removed = answers false
removal_answer absent = answers false
removal_answer no_such_file = answers false
removal_answer denied = throws
removal_answer other_error = throws

-- One try: the function returns `false`, or goes on with a status.
pub data Try (D N : Type 0) : Type 0 where
  gives_up : Client D → N → Try D N
  tried : StatusCode → Client D → N → Try D N

module _ {D N : Type 0} (os : Os D) (stub : Stub N) where
  -- A try after its loop: the cache on success, and the attributes in any case.
  unfoldable pub after_download :
      Client D → N → Text → Text → Text → StatusCode → Download D → Try D N
  unfolding update sync_attributes put
  after_download c net location key filename status u =
      if u.failed
      then gives_up (record c { disk = u.disk }) net
      else tried status
          (record c {
            disk = u.disk;
            cache =
                (if is_ok status
                  then put location
                      (record {
                        locally_modified = false;
                        timestamp = u.last_timestamp;
                        filename = filename;
                      })
                      c.cache
                  else c.cache);
            cached_attr =
                update key (sync_attributes os u.disk location u.last_timestamp) c.cached_attr;
          })
          net

  unfoldable pub download : Client D → N → FileRequest → Text → Text → Try D N
  unfolding after_download save_responses close_outfile
  download c net request location key =
      let (responses, status, net') = stub.open_file net request in
      let (opened, d) = os.open_trunc c.disk location in
      elim opened [
        | none ↦ gives_up (record c { disk = d }) net'
        | some h ↦ after_download c net' location key request.filename status (
            close_outfile os h (
              save_responses os h
                (record { disk = d; last_timestamp = 0; position = 0; failed = false }) responses))
      ]

  -- `while (num_of_retries < 3 && !status.ok())`, with the tries that are left
  unfoldable pub download_tries :
      ℕ → StatusCode → Client D → N → FileRequest → Text → Text → Try D N
  unfolding download
  download_tries zero status c net request location key = tried status c net
  download_tries (suc left) status c net request location key = elim (is_ok status) [
    | true ↦ tried status c net
    | false ↦ elim (download c net request location key) [
      | gives_up c' net' ↦ gives_up c' net'
      | tried status' c' net' ↦ download_tries left status' c' net' request location key
    ]
  ]

  -- The streams of a file that has just been downloaded.
  unfoldable pub open_downloaded : Client D → N → Text → Answer × Client D × N
  unfolding open_streams mark_opened remove
  open_downloaded c net location = elim (open_streams os c.disk location) [
    | none ↦ (answers false, record c { cache = remove location c.cache }, net)
    | some streams ↦ (answers true, mark_opened c location streams, net)
  ]

  -- The partial file is removed, by a call that may throw.
  unfoldable pub discard : Client D → N → Text → Answer × Client D × N
  unfolding removal_answer
  discard c net location =
      let (result, d) = os.remove c.disk location in
      (removal_answer result, record c { disk = d }, net)

  unfoldable pub finish_download : Try D N → Text → Answer × Client D × N
  unfolding open_downloaded discard
  finish_download (gives_up c net) location = (answers false, c, net)
  finish_download (tried status c net) location =
      if is_ok status then open_downloaded c net location else discard c net location

  unfoldable pub open_missing : Client D → N → Text → Text → Text → Answer × Client D × N
  unfolding finish_download download_tries cache_dir
  open_missing c net resolved filename location =
      let (made, d) = os.create_directories c.disk (cache_dir c resolved) in
      let c' = record c { disk = d } in
      let request : FileRequest = record {
        filename = filename;
        directory = resolved;
        content = [];
        client_id = c.client_id;
      } in
      if made
      then finish_download
          (download_tries 3 StatusCode.unknown c' net request location
            (server_key resolved filename))
          location
      else (answers false, c', net)

  unfoldable pub open_cached : Client D → N → Text → Answer × Client D × N
  unfolding open_streams mark_opened get
  open_cached c net location = elim (get location c.opened_files) [
    | some streams ↦ (answers true, c, net)
    | none ↦ elim (open_streams os c.disk location) [
      | none ↦ (answers false, c, net)
      | some streams ↦ (answers true, mark_opened c location streams, net)
    ]
  ]

  unfoldable pub open_file : Client D → N → Text → Text → Answer × Client D × N
  unfolding open_missing open_cached resolve_server_path open_location get
  open_file c net filename path =
      let resolved = resolve_server_path c path in
      let location = open_location c resolved filename in
      elim (get location c.cache) [
        | none ↦ open_missing c net resolved filename location
        | some info ↦ open_cached c net location
      ]
