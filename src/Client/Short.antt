-- ===== src/Client/Short.antt =====
-- What `read_file` of Basic_Operation/client_code/filesystem_client.cpp returns, and the failbit that
-- a short read leaves.

use distributed_filesystem.Base.{
  Bool, List, Option, [], ap, arith, drop, false, if_ind, length, ltb, negsuc, none, pos, refl,
  some, subst, sym, take, true, ℕ, ℤ, ◌∙◌, ◌∷◌, ◌≡◌,
}
use distributed_filesystem.Client.Files.{find_streams, guarded}
use distributed_filesystem.Client.Paths.{file_location, resolve_server_path}
use distributed_filesystem.Client.Reading.{
  read_at, read_file, read_found, read_sized, seeks, with_read_stream,
}
use distributed_filesystem.Client.State.{Client, FileInfo, FileStreams, Stream, answers}
use distributed_filesystem.Dict.{get, get-put_self}
use distributed_filesystem.Members.{contains}
use distributed_filesystem.Os.{Os}
use distributed_filesystem.Text.{Text}

seeks_open : (s : Stream) (n : ℕ) → s.failed ≡ false → s.is_open ≡ true → seeks s (pos n) ≡ some n
seeks_open s n f o = rw (f, o)

seeks_failed : (s : Stream) (i : ℤ) → s.failed ≡ true → seeks s i ≡ none
seeks_failed s (pos n) f = rw f
seeks_failed s (negsuc n) f = refl

guarded-some :
    (b : Bool) (i : Option FileInfo) (o : Option FileStreams) (s t : FileStreams)
    → guarded b i o ≡ some s
    → guarded b i (some t) ≡ some t
guarded-some true (some i) o s t q = refl
guarded-some false (some i) o s t q = absurd (ground arith)
guarded-some b none o s t q = absurd (ground arith)

module _ {D : Type 0} (os : Os D) (c : Client D) where
  read_file_found :
      (filename directory : Text) (streams : FileStreams) (size offset : ℤ)
      → let location = file_location c (resolve_server_path c directory) filename in
        (find_streams c location ≡ some streams
          → read_file os c filename directory size offset
            ≡ read_found os c location streams size offset)
  unfolding read_file
  read_file_found filename directory streams size offset e = rw (e, read_file)

  read_found_open :
      (location : Text) (streams : FileStreams) (size : ℤ) (offset : ℕ)
      → streams.read_stream.failed ≡ false
      → streams.read_stream.is_open ≡ true
      → read_found os c location streams size (pos offset)
        ≡ read_sized os c location streams size offset
  unfolding read_found
  read_found_open location streams size offset f o =
      rw (seeks_open streams.read_stream offset f o, read_found)

  read_found_failed :
      (location : Text) (streams : FileStreams) (size offset : ℤ)
      → streams.read_stream.failed ≡ true
      → read_found os c location streams size offset ≡ (
        answers false,
        [],
        with_read_stream os c location streams (record streams.read_stream { failed = true }),
      )
  unfolding read_found
  read_found_failed location streams size offset f =
      rw (seeks_failed streams.read_stream offset f, read_found) refl

  find_streams-with_read_stream :
      (location : Text) (streams : FileStreams) (s : Stream)
      → find_streams c location ≡ some streams
      → find_streams (with_read_stream os c location streams s) location
        ≡ some (record streams { read_stream = s })
  unfolding find_streams with_read_stream
  find_streams-with_read_stream location streams s e =
      ap (guarded (contains location c.file_mutexes) (get location c.cache))
        (get-put_self location _ c.opened_files)
      ∙ guarded-some (contains location c.file_mutexes) (get location c.cache) _ streams _ e

-- Every one of the reads, each a size and an offset, returns false with an empty buffer.
unfoldable pub AllFail : {D : Type 0} → Os D → Text → Text → List (ℤ × ℤ) → Client D → Type 0
AllFail os filename directory [] c = Unit {0}
AllFail os filename directory ((size, offset) ∷ rest) c =
    let (answer, got, c') = read_file os c filename directory size offset in
    (answer ≡ answers false) × (got ≡ []) × AllFail os filename directory rest c'

module _ {D : Type 0} (os : Os D) (filename directory : Text) where
  -- Once the read stream of a file has failed, all reads fail.
  failed-AllFail :
      (later : List (ℤ × ℤ)) (c : Client D) (streams : FileStreams)
      → find_streams c (file_location c (resolve_server_path c directory) filename) ≡ some streams
      → streams.read_stream.failed ≡ true
      → AllFail os filename directory later c
  unfolding AllFail with_read_stream resolve_server_path file_location
  failed-AllFail [] c streams e f = tt
  failed-AllFail ((size, offset) ∷ rest) c streams e f =
      let location = file_location c (resolve_server_path c directory) filename in
      let s = record streams.read_stream { failed = true } in
      let p =
        read_file_found os c filename directory streams size offset e
        ∙ read_found_failed os c location streams size offset f in
      (
        ap (λ r. r.0) p,
        ap (λ r. r.1) p,
        subst (AllFail os filename directory rest) (sym (ap (λ r. r.2) p)) (
            failed-AllFail rest (with_read_stream os c location streams s)
              (record streams { read_stream = s })
              (find_streams-with_read_stream os c location streams s e) refl),
      )

module _ {D : Type 0} (os : Os D) (c : Client D) (filename directory : Text) where
  -- If the file is in the cache, opened and has a mutex, and its read stream is open and has not
  -- failed, then a read of `size` bytes at `offset` returns true with the `size` bytes of the file
  -- from `offset`, or those that there are.
  pub read_file-slice :
      (streams : FileStreams) (size offset : ℕ)
      → let location = file_location c (resolve_server_path c directory) filename in
        (find_streams c location ≡ some streams
          → streams.read_stream.failed ≡ false
          → streams.read_stream.is_open ≡ true
          → let (answer, got, c') = read_file os c filename directory (pos size) (pos offset) in
            (answer ≡ answers true)
            × (got ≡ take size (drop offset (os.bytes c.disk streams.read_stream.handle))))
  unfolding read_sized read_at
  read_file-slice streams size offset e f o =
      let location = file_location c (resolve_server_path c directory) filename in
      let p =
        read_file_found os c filename directory streams (pos size) (pos offset) e
        ∙ read_found_open os c location streams (pos size) offset f o in
      (ap (λ r. r.0) p, ap (λ r. r.1) p)

  -- If the file is found open, its read stream is open and has not failed, and fewer bytes than
  -- `size` follow `offset`, then the reads of the file that come next, however many, at any offsets
  -- and of any sizes, with no other call between them, all return false with an empty buffer.
  pub read_file-sticks :
      (streams : FileStreams) (size offset : ℕ) (later : List (ℤ × ℤ))
      → find_streams c (file_location c (resolve_server_path c directory) filename) ≡ some streams
      → streams.read_stream.failed ≡ false
      → streams.read_stream.is_open ≡ true
      → ltb (length (take size (drop offset (os.bytes c.disk streams.read_stream.handle)))) size
        ≡ true
      → AllFail os filename directory later
          (read_file os c filename directory (pos size) (pos offset)).2
  unfolding read_sized read_at with_read_stream resolve_server_path file_location
  read_file-sticks streams size offset later e f o h =
      let location = file_location c (resolve_server_path c directory) filename in
      let p =
        read_file_found os c filename directory streams (pos size) (pos offset) e
        ∙ read_found_open os c location streams (pos size) offset f o in
      let s = (read_at os c.disk streams.read_stream size offset).1 in
      subst (AllFail os filename directory later) (sym (ap (λ r. r.2) p)) (
        failed-AllFail os filename directory later (with_read_stream os c location streams s)
          (record streams { read_stream = s })
          (find_streams-with_read_stream os c location streams s e)
          (if_ind (λ (s : Stream). s.failed ≡ true)
            (ltb (length (take size (drop offset (os.bytes c.disk streams.read_stream.handle))))
              size)
            _ _ (λ _. refl) (λ g. absurd (ground arith))))
