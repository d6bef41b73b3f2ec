-- ===== src/Client/Reading.antt =====
-- `read_file` of Basic_Operation/client_code/filesystem_client.cpp.

use distributed_filesystem.Base.{
  List, Option, [], drop, false, if◌then◌else◌, length, ltb, negsuc, none, pos, some, take, true, ℕ,
  ℤ,
}
use distributed_filesystem.Client.Files.{find_streams}
use distributed_filesystem.Client.Paths.{file_location, resolve_server_path}
use distributed_filesystem.Client.State.{Answer, Client, FileStreams, Stream, answers, throws}
use distributed_filesystem.Dict.{put}
use distributed_filesystem.Os.{Os}
use distributed_filesystem.Text.{Text}

-- `seekg(offset)` on a stream: a stream that has failed or is closed, and an offset below zero, fail.
abbrev pub seeks : Stream → ℤ → Option ℕ
seeks s (negsuc n) = none
seeks s (pos n) = if s.failed then none else if s.is_open then some n else none

module _ {D : Type 0} (os : Os D) where
  -- `read(buffer, size)` at a position: the bytes, and the stream, failed if it ran into the end.
  unfoldable pub read_at : D → Stream → ℕ → ℕ → List ℕ × Stream
  read_at d s size position =
      let got = take size (drop position (os.bytes d s.handle)) in
      (got, (if ltb (length got) size then record s { failed = true } else s))

  unfoldable pub with_read_stream : Client D → Text → FileStreams → Stream → Client D
  unfolding put
  with_read_stream c location streams s = record c {
    opened_files = put location (record streams { read_stream = s }) c.opened_files;
  }

  -- At a position that the stream has found; a negative size is a vector that cannot be made.
  unfoldable pub read_sized : Client D → Text → FileStreams → ℤ → ℕ → Answer × List ℕ × Client D
  unfolding read_at with_read_stream
  read_sized c location streams (negsuc n) position = (throws, [], c)
  read_sized c location streams (pos n) position =
      let (got, s) = read_at c.disk streams.read_stream n position in
      (answers true, got, with_read_stream c location streams s)

  unfoldable pub read_found : Client D → Text → FileStreams → ℤ → ℤ → Answer × List ℕ × Client D
  unfolding read_sized with_read_stream
  read_found c location streams size offset = elim (seeks streams.read_stream offset) [
    | none ↦ (
      answers false,
      [],
      with_read_stream c location streams (record streams.read_stream { failed = true }),
    )
    | some position ↦ read_sized c location streams size position
  ]

  -- The answer, the buffer and the state.
  unfoldable pub read_file : Client D → Text → Text → ℤ → ℤ → Answer × List ℕ × Client D
  unfolding read_found find_streams resolve_server_path file_location
  read_file c filename directory size offset =
      let location = file_location c (resolve_server_path c directory) filename in
      elim (find_streams c location) [
        | none ↦ (answers false, [], c)
        | some streams ↦ read_found c location streams size offset
      ]
