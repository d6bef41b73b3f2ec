-- ===== src/Client/Files.antt =====
-- Pieces that the calls of Basic_Operation/client_code/filesystem_client.cpp share: the streams of a
-- file, and the tests that guard `read_file` and `write_file`.

use distributed_filesystem.Base.{Bool, Option, false, if◌then◌else◌, none, some, true, ℕ}
use distributed_filesystem.Client.State.{Client, FileInfo, FileStreams, Stream}
use distributed_filesystem.Dict.{Dict, get, put, remove}
use distributed_filesystem.Members.{contains, erase, insert}
use distributed_filesystem.Os.{Os}
use distributed_filesystem.Text.{Text}

abbrev pub fresh_stream : ℕ → Stream
fresh_stream h = record { handle = h; is_open = true; failed = false }

-- `stream.close()`: a stream that is not open fails.
unfoldable pub close_stream : Stream → Stream
close_stream s = if s.is_open then record s { is_open = false } else record s { failed = true }

-- `m.count(k) != 0`
unfoldable pub has_key {ℓ} : {V : Type ℓ} → Text → Dict V → Bool
unfolding get
has_key k m = elim (get k m) [ none ↦ false | some v ↦ true ]

-- `ifstream(path)` and `ofstream(path, in)`; both must open.
abbrev pub both_streams : Option ℕ → Option ℕ → Option FileStreams
both_streams (some r) (some w) =
    some (record { read_stream = fresh_stream r; write_stream = fresh_stream w })
both_streams _ _ = none

-- The file's streams, if it is in the cache, opened, and has a mutex.
abbrev pub guarded : Bool → Option FileInfo → Option FileStreams → Option FileStreams
guarded mutex none streams = none
guarded mutex (some info) streams = if mutex then streams else none

module _ {D : Type 0} (os : Os D) where
  unfoldable pub open_streams : D → Text → Option FileStreams
  open_streams d location = both_streams (os.open_read d location) (os.open_update d location)

module _ {D : Type 0} where
  -- `opened_files[location] = …`, and a mutex for the file
  unfoldable pub mark_opened : Client D → Text → FileStreams → Client D
  unfolding insert put
  mark_opened c location streams = record c {
    opened_files = put location streams c.opened_files;
    file_mutexes = insert location c.file_mutexes;
  }

  unfoldable pub find_streams : Client D → Text → Option FileStreams
  unfolding contains get
  find_streams c location =
      guarded (contains location c.file_mutexes) (get location c.cache)
        (get location c.opened_files)

  unfoldable pub erase_opened : Client D → Text → Client D
  unfolding erase remove
  erase_opened c location = record c {
    opened_files = remove location c.opened_files;
    file_mutexes = erase location c.file_mutexes;
  }
