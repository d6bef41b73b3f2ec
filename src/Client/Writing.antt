-- ===== src/Client/Writing.antt =====
-- `write_file` of Basic_Operation/client_code/filesystem_client.cpp. The position is FUSE's offset,
-- which is not negative.

use distributed_filesystem.Base.{Bool, List, false, if◌then◌else◌, none, not, some, true, ℕ, ◌||◌}
use distributed_filesystem.Client.Files.{find_streams}
use distributed_filesystem.Client.Paths.{file_location, resolve_server_path, server_key}
use distributed_filesystem.Client.State.{Client, FileAttributes, FileStreams, Stream, update}
use distributed_filesystem.Dict.{put}
use distributed_filesystem.Os.{Os}
use distributed_filesystem.Text.{Text}

module _ {D : Type 0} (os : Os D) where
  unfoldable pub with_write_stream : Client D → Text → FileStreams → Stream → Client D
  unfolding put
  with_write_stream c location streams s = record c {
    opened_files = put location (record streams { write_stream = s }) c.opened_files;
  }

  -- The attributes, if cached, take the size of the local file and the time of the clock.
  unfoldable pub touch_attributes : D → Text → FileAttributes → FileAttributes
  touch_attributes d location a = elim (os.file_size d location) [
    | none ↦ a
    | some n ↦ record a { size = n; mtime = os.now d }
  ]

  -- What follows a write that the disk has taken.
  unfoldable pub record_write : Client D → Text → Text → Client D
  unfolding touch_attributes update
  record_write c location key = record c {
    cache = update location (λ info. record info { locally_modified = true }) c.cache;
    cached_attr = update key (touch_attributes c.disk location) c.cached_attr;
  }

  -- A stream that has failed, or is closed, fails to seek, and its failbit is cleared.
  unfoldable pub write_found : Client D → Text → Text → FileStreams → List ℕ → ℕ → Bool × Client D
  unfolding with_write_stream record_write
  write_found c location key streams content position =
      let s = streams.write_stream in
      if s.failed || not s.is_open
      then (false, with_write_stream c location streams (record s { failed = false }))
      else (let (done, d) = os.write_at c.disk s.handle position content in
          let c' = record c { disk = d } in
          if done
          then (true, record_write c' location key)
          else (false, with_write_stream c' location streams (record s { failed = true })))

  unfoldable pub write_file : Client D → Text → List ℕ → Text → ℕ → Bool × Client D
  unfolding write_found find_streams resolve_server_path file_location
  write_file c filename content directory position =
      let resolved = resolve_server_path c directory in
      let location = file_location c resolved filename in
      elim (find_streams c location) [
        | none ↦ (false, c)
        | some streams ↦
            write_found c location (server_key resolved filename) streams content position
      ]
