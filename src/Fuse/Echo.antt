-- ===== src/Fuse/Echo.antt =====
-- What `afs_write` has written, `afs_read` reads (FUSE/FUSE_integration.cpp).

use distributed_filesystem.Base.{
  List, ap, arith, false, if◌then◌else◌, length, pos, refl, some, to_int32, true, ℕ, ◌<◌, ◌^◌, ◌∙◌,
  ◌≡◌, ◌≤◌,
}
use distributed_filesystem.Client.Files.{find_streams}
use distributed_filesystem.Client.Paths.{file_location, resolve_server_path}
use distributed_filesystem.Client.ReadBack.{Overwrites, read_file-write_file}
use distributed_filesystem.Client.Reading.{read_file}
use distributed_filesystem.Client.State.{Answer, Client, FileStreams, answers, throws}
use distributed_filesystem.Client.Writing.{write_file}
use distributed_filesystem.Fuse.Bounds.{to_int32-small}
use distributed_filesystem.Fuse.Data.{afs_read, afs_write, reply_read}
use distributed_filesystem.Fuse.Names.{directory_of, name_of}
use distributed_filesystem.Fuse.Replies.{eacces, fails, returns}
use distributed_filesystem.Os.{Os}
use distributed_filesystem.Text.{Text}

module _ {D : Type 0} (os : Os D) where
  -- A read that returns true is copied whole.
  reply_read-answers :
      (r : Answer × List ℕ × Client D)
      → r.0 ≡ answers true
      → ((reply_read os r).0 ≡ returns (to_int32 (length r.1))) × ((reply_read os r).1 ≡ r.1)
  unfolding reply_read
  reply_read-answers (answers true, got, c) e = (refl, refl)
  reply_read-answers (answers false, got, c) e = absurd (ground arith)
  reply_read-answers (throws, got, c) e = absurd (ground arith)

  afs_read-small :
      (c : Client D) (path : Text) (size offset : ℕ)
      → size < 2 ^ 31
      → offset < 2 ^ 31
      → afs_read os c path size offset
        ≡ reply_read os (read_file os c (name_of path) (directory_of path) (pos size) (pos offset))
  unfolding afs_read
  afs_read-small c path size offset s o i = reply_read os (
      read_file os c (name_of path) (directory_of path) (to_int32-small size s i)
        (to_int32-small offset o i))

  afs_write-done :
      (c : Client D) (path : Text) (content : List ℕ) (offset : ℕ)
      → (write_file os c (name_of path) content (directory_of path) offset).0 ≡ true
      → (afs_write os c path content offset).0 ≡ returns (to_int32 (length content))
  unfolding afs_write
  afs_write-done c path content offset e =
      ap (λ b. if b then returns (to_int32 (length content)) else fails eacces) e

  module _ (overwrites : Overwrites os) where
    -- An application reads what it has written: if the file of the path is in the cache, opened and
    -- has a mutex, its two streams are open, have not failed and stand for one file, the offset lies
    -- inside the file or at its end, offset and number of bytes are below 2^31, and the disk takes
    -- the write, then `afs_write` returns the number of bytes, and `afs_read` of as many bytes at the
    -- same offset then returns that number as well and copies the bytes that were written.
    pub afs_read-afs_write :
        (c : Client D) (path : Text) (streams : FileStreams) (content : List ℕ) (offset : ℕ)
        → find_streams c
            (file_location c (resolve_server_path c (directory_of path)) (name_of path))
          ≡ some streams
        → streams.write_stream.handle ≡ streams.read_stream.handle
        → streams.write_stream.failed ≡ false
        → streams.write_stream.is_open ≡ true
        → streams.read_stream.failed ≡ false
        → streams.read_stream.is_open ≡ true
        → offset ≤ length (os.bytes c.disk streams.write_stream.handle)
        → offset < 2 ^ 31
        → length content < 2 ^ 31
        → (os.write_at c.disk streams.write_stream.handle offset content).0 ≡ true
        → let (reply, c') = afs_write os c path content offset in
          let (reply', copied, c'') = afs_read os c' path (length content) offset in
          (reply ≡ returns (pos (length content)))
          × (reply' ≡ returns (pos (length content)))
          × (copied ≡ content)
    unfolding afs_write
    afs_read-afs_write c path streams content offset e same f o f' o' inside low small w =
        let c' = (write_file os c (name_of path) content (directory_of path) offset).1 in
        let r =
          read_file os c' (name_of path) (directory_of path) (pos (length content)) (pos offset) in
        let (done, answer, got) =
          read_file-write_file os overwrites c (name_of path) (directory_of path) streams content
            offset e same f o f' o' inside w in
        let number = ap returns (to_int32-small (length content) small) in
        let step = afs_read-small c' path (length content) offset small low in
        let (reply, copied) = reply_read-answers r answer in
        (
          afs_write-done c path content offset done ∙ number,
          ap (λ t. t.0) step ∙ reply ∙ ap (λ bs. returns (to_int32 (length bs))) got ∙ number,
          ap (λ t. t.1) step ∙ copied ∙ got,
        )
