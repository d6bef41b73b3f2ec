-- ===== src/Client/ReadBack.antt =====
-- What `write_file` has written, `read_file` reads: Basic_Operation/client_code/filesystem_client.cpp.

use distributed_filesystem.Base.{
  Bool, List, Option, [], ap, arith, drop, false, length, none, pos, refl, some, subst, suc, sym,
  take, true, zero, ℕ, ◌++◌, ◌+◌, ◌∙◌, ◌∷◌, ◌≡◌, ◌≤◌,
}
use distributed_filesystem.Client.Files.{find_streams, guarded}
use distributed_filesystem.Client.Paths.{file_location, resolve_server_path, server_key}
use distributed_filesystem.Client.Reading.{read_file}
use distributed_filesystem.Client.Short.{read_file-slice}
use distributed_filesystem.Client.State.{Client, FileInfo, FileStreams, answers, update}
use distributed_filesystem.Client.Writing.{record_write, write_file, write_found}
use distributed_filesystem.Dict.{Dict, get, get-put_self}
use distributed_filesystem.Members.{contains}
use distributed_filesystem.Os.{Os}
use distributed_filesystem.Text.{Text}

-- Documented behaviour of files: a write that succeeds and starts inside the file, or at its end,
-- puts its bytes in the place of the old ones, and leaves those before and after.
pub record Overwrites {D : Type 0} (os : Os D) : Type 0 where
  pub overwritten :
      (d : D) (h position : ℕ) (bs : List ℕ)
      → position ≤ length (os.bytes d h)
      → (os.write_at d h position bs).0 ≡ true
      → os.bytes (os.write_at d h position bs).1 h
        ≡ take position (os.bytes d h) ++ (bs ++ drop (position + length bs) (os.bytes d h))

take-append : (xs ys : List ℕ) → take (length xs) (xs ++ ys) ≡ xs
take-append [] ys = refl
take-append (x ∷ xs) ys = ap (◌∷◌ x) (take-append xs ys)

drop-take-append : (n : ℕ) (xs ys : List ℕ) → n ≤ length xs → drop n (take n xs ++ ys) ≡ ys
drop-take-append zero xs ys h = refl
drop-take-append (suc n) [] ys h = absurd (omega arith)
drop-take-append (suc n) (x ∷ xs) ys h = drop-take-append n xs ys (omega arith)

has_info :
    (mutex : Bool) (info : Option FileInfo) (streams : Option FileStreams) (s : FileStreams)
    → guarded mutex info streams ≡ some s
    → (i : FileInfo) × (info ≡ some i)
has_info mutex none streams s e = absurd (ground arith)
has_info mutex (some i) streams s e = (i, refl)

guarded-info :
    (mutex : Bool) (i j : FileInfo) (streams : Option FileStreams)
    → guarded mutex (some i) streams ≡ guarded mutex (some j) streams
guarded-info mutex i j streams = refl

get-update_self {ℓ} :
    {V : Type ℓ} (k : Text) (f : V → V) (m : Dict V) (v : V)
    → get k m ≡ some v
    → get k (update k f m) ≡ some (f v)
unfolding update
get-update_self k f m v e = rw (update, e) (get-put_self k (f v) m)

module _ {D : Type 0} (os : Os D) where
  find_streams-record_write :
      (c : Client D) (d : D) (location key : Text) (streams : FileStreams)
      → find_streams c location ≡ some streams
      → find_streams (record_write os (record c { disk = d }) location key) location ≡ some streams
  unfolding find_streams record_write
  find_streams-record_write c d location key streams e =
      let (info, known) =
        has_info (contains location c.file_mutexes) (get location c.cache) _ streams e in
      ap (λ o. guarded (contains location c.file_mutexes) o (get location c.opened_files))
        (get-update_self location (λ i. record i { locally_modified = true }) c.cache info known)
      ∙ guarded-info (contains location c.file_mutexes) (record info { locally_modified = true })
          info (get location c.opened_files)
      ∙ ap (λ o. guarded (contains location c.file_mutexes) o (get location c.opened_files))
          (sym known)
      ∙ e

  write_found-writes :
      (c : Client D) (location key : Text) (streams : FileStreams) (content : List ℕ) (position : ℕ)
      → streams.write_stream.failed ≡ false
      → streams.write_stream.is_open ≡ true
      → (os.write_at c.disk streams.write_stream.handle position content).0 ≡ true
      → write_found os c location key streams content position ≡ (
        true,
        record_write os
            (record c {
              disk = (os.write_at c.disk streams.write_stream.handle position content).1;
            })
            location
            key,
      )
  unfolding write_found
  write_found-writes c location key streams content position f o w = rw (f, o, w) refl

  write_file_found :
      (c : Client D) (filename directory : Text) (streams : FileStreams) (content : List ℕ)
      (position : ℕ)
      → find_streams c (file_location c (resolve_server_path c directory) filename) ≡ some streams
      → write_file os c filename content directory position
        ≡ write_found os c
            (file_location c (resolve_server_path c directory) filename)
            (server_key (resolve_server_path c directory) filename)
            streams
            content
            position
  unfolding write_file
  write_file_found c filename directory streams content position e = rw (write_file, e) refl

module _ {D : Type 0} (os : Os D) (overwrites : Overwrites os) where
  -- What is written is read back: if a file is in the cache, opened and has a mutex, its two streams
  -- are open, have not failed and stand for one file, the position lies inside the file or at its
  -- end, and the disk takes the write, then `write_file` returns true, and `read_file` of as many
  -- bytes at the same position then returns true with the bytes that were written.
  pub read_file-write_file :
      (c : Client D) (filename directory : Text) (streams : FileStreams) (content : List ℕ)
      (position : ℕ)
      → find_streams c (file_location c (resolve_server_path c directory) filename) ≡ some streams
      → streams.write_stream.handle ≡ streams.read_stream.handle
      → streams.write_stream.failed ≡ false
      → streams.write_stream.is_open ≡ true
      → streams.read_stream.failed ≡ false
      → streams.read_stream.is_open ≡ true
      → position ≤ length (os.bytes c.disk streams.write_stream.handle)
      → (os.write_at c.disk streams.write_stream.handle position content).0 ≡ true
      → let (done, c') = write_file os c filename content directory position in
        let (answer, got, c'') =
          read_file os c' filename directory (pos (length content)) (pos position) in
        (done ≡ true) × (answer ≡ answers true) × (got ≡ content)
  unfolding record_write resolve_server_path file_location
  read_file-write_file c filename directory streams content position e same f o f' o' inside w =
      let location = file_location c (resolve_server_path c directory) filename in
      let key = server_key (resolve_server_path c directory) filename in
      let h = streams.write_stream.handle in
      let d = (os.write_at c.disk h position content).1 in
      let c' = record_write os (record c { disk = d }) location key in
      let step =
        write_file_found os c filename directory streams content position e
        ∙ write_found-writes os c location key streams content position f o w in
      let (answer, got) =
        read_file-slice os c' filename directory streams (length content) position
          (find_streams-record_write os c d location key streams e) f' o' in
      let bytes = overwrites.overwritten c.disk h position content inside w in
      let piece : take (length content) (drop position (os.bytes d streams.read_stream.handle))
          ≡ content =
        subst (λ k. take (length content) (drop position (os.bytes d k)) ≡ content) same
          (ap (λ bs. take (length content) (drop position bs)) bytes
            ∙ ap (take (length content)) (drop-take-append position (os.bytes c.disk h) _ inside)
            ∙ take-append content _) in
      (
        ap (λ r. r.0) step,
        ap
              (λ (r : Bool × Client D).
                (read_file os r.1 filename directory (pos (length content)) (pos position)).0)
              step
            ∙ answer,
        ap
              (λ (r : Bool × Client D).
                (read_file os r.1 filename directory (pos (length content)) (pos position)).1)
              step
            ∙ (got ∙ piece),
      )
