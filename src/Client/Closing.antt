-- ===== src/Client/Closing.antt =====
-- `close_file` of Basic_Operation/client_code/filesystem_client.cpp: a modified file is sent to the
-- server, in chunks and with three tries.

use distributed_filesystem.Base.{
  Bool, List, [], chunks, false, if◌then◌else◌, none, some, suc, true, zero, ℕ, ◌∷◌,
}
use distributed_filesystem.Client.Files.{close_stream, erase_opened}
use distributed_filesystem.Client.Paths.{file_location, resolve_server_path, server_key}
use distributed_filesystem.Client.State.{Client, FileAttributes, FileInfo, FileStreams, update}
use distributed_filesystem.Client.Stub.{Stub}
use distributed_filesystem.Dict.{get, put}
use distributed_filesystem.Members.{contains}
use distributed_filesystem.Os.{Os}
use distributed_filesystem.Text.{Text}
use distributed_filesystem.Wire.{FileRequest, StatusCode, is_ok}

abbrev pub upload_chunk_size : ℕ
upload_chunk_size = 4096

-- What the loop reads; an empty file is sent as one empty chunk.
abbrev pub content_chunks : List ℕ → List (List ℕ)
content_chunks [] = [] ∷ []
content_chunks (b ∷ bs) = chunks upload_chunk_size (b ∷ bs)

-- The messages for those chunks.
unfoldable pub upload_requests : Text → Text → Text → List (List ℕ) → List FileRequest
upload_requests resolved filename client [] = []
upload_requests resolved filename client (chunk ∷ rest) =
    record { filename = filename; directory = resolved; content = chunk; client_id = client }
    ∷ upload_requests resolved filename client rest

-- The messages that `Write` takes, up to the first that it refuses.
unfoldable pub taken : (ℕ → Bool) → ℕ → List FileRequest → List FileRequest
taken accepts k [] = []
taken accepts k (r ∷ rest) =
    let more = taken accepts (suc k) rest in if accepts k then r ∷ more else []

-- `while (num_of_tries < 3 && !status.ok())`, with the tries that are left: the status, the
-- timestamp of the response, and the network.
unfoldable pub upload_tries :
    {N : Type 0} → Stub N → ℕ → StatusCode → ℕ → N → List FileRequest → StatusCode × ℕ × N
unfolding taken
upload_tries stub zero status timestamp net requests = (status, timestamp, net)
upload_tries stub (suc left) status timestamp net requests = elim (is_ok status) [
  | true ↦ (status, timestamp, net)
  | false ↦
      let (status', timestamp', net') = stub.close_file net (taken (stub.accepts net) 0 requests) in
      upload_tries stub left status' timestamp' net' requests
]

module _ {D : Type 0} (os : Os D) where
  -- The attributes of the file, if they are cached, follow an upload.
  unfoldable pub flush_attributes : D → Text → ℕ → FileAttributes → FileAttributes
  flush_attributes d location timestamp a =
      let b = record a { mtime = timestamp; ctime = timestamp } in
      elim (os.file_size d location) [ none ↦ b | some n ↦ record b { size = n } ]

  -- The metadata after an upload.
  unfoldable pub record_upload : Client D → Text → Text → ℕ → Client D
  unfolding flush_attributes update
  record_upload c location key timestamp = record c {
    cache =
        update location (λ info. record info { locally_modified = false; timestamp = timestamp })
          c.cache;
    cached_attr = update key (flush_attributes c.disk location timestamp) c.cached_attr;
  }

-- Both streams are closed, and stay in `opened_files`.
unfoldable pub close_streams : {D : Type 0} → Client D → Text → FileStreams → Client D
unfolding close_stream put
close_streams c location streams = record c {
  opened_files =
      put location
        (record {
          read_stream = close_stream streams.read_stream;
          write_stream = close_stream streams.write_stream;
        })
        c.opened_files;
}

module _ {D N : Type 0} (os : Os D) (stub : Stub N) where
  unfoldable pub finish_upload : Client D → Text → Text → StatusCode × ℕ × N → Bool × Client D × N
  unfolding record_upload erase_opened
  finish_upload c location key (status, timestamp, net) =
      if is_ok status
      then (true, erase_opened (record_upload os c location key timestamp) location, net)
      else (false, c, net)

  -- A modified file whose streams are closed.
  unfoldable pub upload_file : Client D → N → Text → Text → Text → Bool × Client D × N
  unfolding finish_upload upload_tries upload_requests
  upload_file c net resolved filename location = elim (os.open_read c.disk location) [
    | none ↦ (false, c, net)
    | some h ↦ finish_upload c location (server_key resolved filename) (
        upload_tries stub 3 StatusCode.unknown 0 net
          (upload_requests resolved filename c.client_id (content_chunks (os.bytes c.disk h))))
  ]

  unfoldable pub close_found :
      Client D → N → Text → Text → Text → FileStreams → FileInfo → Bool × Client D × N
  unfolding upload_file close_streams erase_opened
  close_found c net resolved filename location streams info =
      if info.locally_modified
      then (if streams.write_stream.failed
          then (false, c, net)
          else upload_file (close_streams c location streams) net resolved filename location)
      else (true, erase_opened c location, net)

  unfoldable pub close_file : Client D → N → Text → Text → Bool × Client D × N
  unfolding close_found erase_opened resolve_server_path file_location contains get
  close_file c net filename directory =
      let resolved = resolve_server_path c directory in
      let location = file_location c resolved filename in
      elim (get location c.opened_files) [
        | none ↦ (false, c, net)
        | some streams ↦
            if contains location c.file_mutexes
            then elim (get location c.cache) [
              | none ↦ (false, erase_opened c location, net)
              | some info ↦ close_found c net resolved filename location streams info
            ]
            else (false, c, net)
      ]
