-- ===== src/Fuse/Changes.antt =====
-- The handlers of FUSE/FUSE_integration.cpp for names and attributes: `afs_readdir`, `afs_getattr`,
-- `afs_rename`, `afs_truncate`, `afs_mkdir`, `afs_unlink` and `afs_unlink_folder`.

use distributed_filesystem.Base.{List, Option, [], none, some, to_int32, ℕ, ◌%◌, ◌/◌, ◌∷◌}
use distributed_filesystem.Client.Metadata.{
  delete_file, get_attributes, ls_contents, make_directory, truncate_file,
}
use distributed_filesystem.Client.Renaming.{rename_file}
use distributed_filesystem.Client.State.{Client, FileAttributes}
use distributed_filesystem.Client.Stub.{Stub}
use distributed_filesystem.Dict.{Dict}
use distributed_filesystem.Fuse.Names.{directory_of, folder_of, name_of}
use distributed_filesystem.Fuse.Replies.{Reply, enoent, fails, hangs, reply_if, reply_to, success}
use distributed_filesystem.Os.{Os}
use distributed_filesystem.Text.{Text, lit}

-- `struct timespec`
pub record TimeSpec : Type 0 where
  pub tv_sec : ℕ
  pub tv_nsec : ℕ

-- The fields of `struct stat` that `afs_getattr` sets.
pub record FuseStat : Type 0 where
  pub st_mode : ℕ
  pub st_nlink : ℕ
  pub st_size : ℕ
  pub st_uid : ℕ
  pub st_gid : ℕ
  pub st_mtim : TimeSpec
  pub st_atim : TimeSpec
  pub st_ctim : TimeSpec

-- Nanoseconds back to seconds and nanoseconds.
unfoldable pub to_timespec : ℕ → TimeSpec
to_timespec t = record { tv_sec = t / 1000000000; tv_nsec = t % 1000000000 }

unfoldable pub to_stat : FileAttributes → FuseStat
unfolding to_timespec
to_stat a = record {
  st_mode = a.mode;
  st_nlink = a.nlink;
  st_size = a.size;
  st_uid = a.uid;
  st_gid = a.gid;
  st_mtim = to_timespec a.mtime;
  st_atim = to_timespec a.atime;
  st_ctim = to_timespec a.ctime;
}

-- The names of the entries, in the order of the map.
unfoldable pub entry_names : Dict Text → List Text
entry_names [] = []
entry_names ((name, kind) ∷ rest) = name ∷ entry_names rest

module _ {D N : Type 0} (os : Os D) (stub : Stub N) where
  -- The reply, the names given to `filler`, and the network.
  unfoldable pub afs_readdir : Client D → N → Text → Reply × List Text × N
  unfolding ls_contents entry_names
  afs_readdir c net path =
      let (contents, net') = ls_contents os stub c net path in
      elim contents [
        | none ↦ (fails enoent, [], net')
        | some entries ↦ (success, lit "." ∷ lit ".." ∷ entry_names entries, net')
      ]

  -- The reply, `*stbuf` if it is set, the client and the network.
  unfoldable pub afs_getattr : Client D → N → Text → Reply × Option FuseStat × Client D × N
  unfolding get_attributes to_stat folder_of name_of
  afs_getattr c net path =
      let (known, c', net') = get_attributes os stub c net (name_of path) (folder_of path) in
      elim known [
        | none ↦ (fails enoent, none, c', net')
        | some a ↦ (success, some (to_stat a), c', net')
      ]

  -- `if (from_dir == "/") from_dir = "";`
  unfoldable pub afs_rename : Client D → N → Text → Text → Reply × Client D × N
  unfolding rename_file reply_to folder_of name_of
  afs_rename c net from to =
      elim (rename_file os stub c net (name_of from) (name_of to) (folder_of from) (folder_of to)) [
        | none ↦ (hangs, c, net)
        | some (answer, c', net') ↦ (reply_to answer enoent success, c', net')
      ]

  unfoldable pub afs_mkdir : Client D → N → Text → ℕ → Reply × N
  unfolding make_directory reply_if
  afs_mkdir c net path mode =
      let (done, net') = make_directory os stub c net path mode in (reply_if done enoent, net')

  unfoldable pub afs_unlink : Client D → N → Text → Reply × Client D × N
  unfolding delete_file reply_if
  afs_unlink c net path =
      let (done, c', net') = delete_file os stub c net path in (reply_if done enoent, c', net')

  unfoldable pub afs_unlink_folder : Client D → N → Text → Reply × Client D × N
  unfolding delete_file reply_if
  afs_unlink_folder c net path =
      let (done, c', net') = delete_file os stub c net path in (reply_if done enoent, c', net')

module _ {D : Type 0} (os : Os D) where
  -- `off_t` becomes `int`.
  unfoldable pub afs_truncate : Client D → Text → ℕ → Reply × Client D
  unfolding truncate_file reply_if directory_of name_of to_int32
  afs_truncate c path size =
      let (done, c') = truncate_file os c (name_of path) (directory_of path) (to_int32 size) in
      (reply_if done enoent, c')
