-- ===== src/Fuse/Bounds.antt =====
-- The bounds of `afs_read` (FUSE/FUSE_integration.cpp): `memcpy` into the buffer of the caller, and
-- `size_t` and `off_t` narrowed to `int`.

use distributed_filesystem.Base.{
  List, [], arith, drop, length, length-take-le, negsuc, option_ind, pos, refl, take, to_int32,
  true, ℕ, ℤ, ◌<◌, ◌^◌, ◌≡◌, ◌≤◌,
}
use distributed_filesystem.Client.Files.{find_streams}
use distributed_filesystem.Client.Paths.{file_location, resolve_server_path}
use distributed_filesystem.Client.Reading.{read_at, read_file, read_found, read_sized, seeks}
use distributed_filesystem.Client.State.{Answer, Client, FileStreams, answers}
use distributed_filesystem.Fuse.Data.{afs_read, reply_read}
use distributed_filesystem.Fuse.Names.{directory_of, name_of}
use distributed_filesystem.Fuse.Replies.{Reply, fails, hangs, raises, returns}
use distributed_filesystem.Os.{Os}
use distributed_filesystem.Text.{Text}

-- What a read may copy for a given size: as many bytes as it returns, and no more than the buffer
-- holds; and nothing if it fails.
abbrev pub Fits : {D : Type 0} → ℕ → Reply × List ℕ × Client D → Type 0
Fits size (returns v, copied, c) = (v ≡ pos (length copied)) × (length copied ≤ size)
Fits size (fails e, copied, c) = copied ≡ []
Fits size (raises, copied, c) = copied ≡ []
Fits size (hangs, copied, c) = copied ≡ []

to_int32-pos : (n m : ℕ) → to_int32 n ≡ pos m → (m ≤ n) × (m < 2 ^ 31)
unfolding to_int32
to_int32-pos n m e = ground arith

pub to_int32-small : (n : ℕ) → n < 2 ^ 31 → to_int32 n ≡ pos n
unfolding to_int32
to_int32-small n lt = ground arith

module _ {D : Type 0} (os : Os D) where
  reply_read-Fits :
      (size n : ℕ) (got : List ℕ) (c : Client D)
      → length got ≤ n
      → n ≤ size
      → n < 2 ^ 31
      → Fits size (reply_read os (answers true, got, c))
  unfolding reply_read
  reply_read-Fits size n got c fits small lt =
      (to_int32-small (length got) (omega arith), omega arith)

  read_sized-Fits :
      (c : Client D) (location : Text) (streams : FileStreams) (size : ℕ) (z : ℤ) (position : ℕ)
      → to_int32 size ≡ z
      → Fits size (reply_read os (read_sized os c location streams z position))
  unfolding reply_read read_sized read_at
  read_sized-Fits c location streams size (negsuc n) position e = refl
  read_sized-Fits c location streams size (pos n) position e =
      let (small, lt) = to_int32-pos size n e in
      reply_read-Fits size n (take n (drop position (os.bytes c.disk streams.read_stream.handle)))
        (read_sized os c location streams (pos n) position).2 (length-take-le n _) small lt

  read_found-Fits :
      (c : Client D) (location : Text) (streams : FileStreams) (size : ℕ) (offset : ℤ)
      → Fits size (reply_read os (read_found os c location streams (to_int32 size) offset))
  unfolding reply_read read_found
  read_found-Fits c location streams size offset =
      option_ind {B = Answer × List ℕ × Client D} (λ r. Fits size (reply_read os r))
        (seeks streams.read_stream offset) _ _ (λ _. refl)
        (λ position _. read_sized-Fits c location streams size (to_int32 size) position refl)

  abbrev location_of : Client D → Text → Text
  location_of c path = file_location c (resolve_server_path c (directory_of path)) (name_of path)

  -- `afs_read` stays within the buffer of the caller: for every size and offset, what it copies is
  -- at most `size` bytes, the number that it returns is the number of bytes copied, also after the
  -- narrowing of sizes to `int`, and when it fails or throws it copies nothing.
  pub afs_read-Fits :
      (c : Client D) (path : Text) (size offset : ℕ) → Fits size (afs_read os c path size offset)
  unfolding afs_read reply_read read_file
  afs_read-Fits c path size offset =
      option_ind {B = Answer × List ℕ × Client D} (λ r. Fits size (reply_read os r))
        (find_streams c (location_of c path)) _ _ (λ _. refl)
        (λ streams _. read_found-Fits c (location_of c path) streams size (to_int32 offset))
