-- ===== src/Fuse/Data.antt =====
-- The handlers of FUSE/FUSE_integration.cpp for open files: `afs_open`, `afs_read`, `afs_write`,
-- `afs_release` and `afs_create`. Offsets and sizes of FUSE are not negative.

use distributed_filesystem.Base.{
  Bool, List, [], false, if◌then◌else◌, length, pos, to_int32, true, ℕ,
}
use distributed_filesystem.Client.Closing.{close_file}
use distributed_filesystem.Client.Creating.{create_file}
use distributed_filesystem.Client.Metadata.{truncate_file}
use distributed_filesystem.Client.Opening.{open_file}
use distributed_filesystem.Client.Reading.{read_file}
use distributed_filesystem.Client.State.{Answer, Client, answers, throws}
use distributed_filesystem.Client.Stub.{Stub}
use distributed_filesystem.Client.Writing.{write_file}
use distributed_filesystem.Fuse.Names.{directory_of, folder_of, name_of}
use distributed_filesystem.Fuse.Replies.{
  Reply, eacces, enoent, fails, raises, reply_if, reply_to, returns, success,
}
use distributed_filesystem.Os.{Os}
use distributed_filesystem.Text.{Text}

module _ {D N : Type 0} (os : Os D) (stub : Stub N) where
  -- `get_client()->open_file(…)`, and the reply.
  unfoldable pub reply_open : Answer × Client D × N → Reply × Client D × N
  unfolding reply_to
  reply_open (answer, c, net) = (reply_to answer eacces success, c, net)

  -- `truncated` is the flag `O_TRUNC`.
  unfoldable pub afs_open : Client D → N → Text → Bool → Reply × Client D × N
  unfolding reply_open open_file truncate_file directory_of name_of
  afs_open c net path truncated =
      let (done, c') = truncate_file os c (name_of path) (directory_of path) (pos 0) in
      if truncated
      then (if done
          then reply_open (open_file os stub c' net (name_of path) (directory_of path))
          else (fails enoent, c', net))
      else reply_open (open_file os stub c net (name_of path) (directory_of path))

  -- The result of `close_file` is not looked at.
  unfoldable pub afs_release : Client D → N → Text → Reply × Client D × N
  unfolding close_file folder_of name_of
  afs_release c net path =
      let (done, c', net') = close_file os stub c net (name_of path) (folder_of path) in
      (success, c', net')

module _ {D : Type 0} (os : Os D) where
  -- What `memcpy` copies, and the reply.
  unfoldable pub reply_read : Answer × List ℕ × Client D → Reply × List ℕ × Client D
  unfolding to_int32
  reply_read (answers true, buffer, c) = (returns (to_int32 (length buffer)), buffer, c)
  reply_read (answers false, buffer, c) = (fails eacces, [], c)
  reply_read (throws, buffer, c) = (raises, [], c)

  -- `size_t` and `off_t` become `int`. The reply, the bytes copied to `buf`, and the client.
  unfoldable pub afs_read : Client D → Text → ℕ → ℕ → Reply × List ℕ × Client D
  unfolding reply_read read_file directory_of name_of to_int32
  afs_read c path size offset =
      reply_read
        (read_file os c (name_of path) (directory_of path) (to_int32 size) (to_int32 offset))

  unfoldable pub afs_write : Client D → Text → List ℕ → ℕ → Reply × Client D
  unfolding write_file directory_of name_of to_int32
  afs_write c path content offset =
      let (done, c') = write_file os c (name_of path) content (directory_of path) offset in
      ((if done then returns (to_int32 (length content)) else fails eacces), c')

  unfoldable pub afs_create : Client D → Text → Reply × Client D
  unfolding create_file folder_of name_of reply_if
  afs_create c path =
      let (done, c') = create_file os c (name_of path) (folder_of path) in
      (reply_if done eacces, c')
