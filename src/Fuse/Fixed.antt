-- ===== src/Fuse/Fixed.antt =====
-- The handlers of FUSE/FUSE_integration.cpp that answer without looking at anything.

use distributed_filesystem.Base.{List, ℕ}
use distributed_filesystem.Fuse.Changes.{TimeSpec}
use distributed_filesystem.Fuse.Replies.{Reply, enodata, fails, success}
use distributed_filesystem.Text.{Text}

-- The fields of `struct statvfs` that `afs_statfs` sets.
pub record StatVfs : Type 0 where
  pub f_bsize : ℕ
  pub f_frsize : ℕ
  pub f_blocks : ℕ
  pub f_bfree : ℕ
  pub f_bavail : ℕ
  pub f_files : ℕ
  pub f_ffree : ℕ

abbrev pub afs_statfs : Text → Reply × StatVfs
afs_statfs path = (
  success,
  record {
    f_bsize = 4096;
    f_frsize = 4096;
    f_blocks = 2621440;
    f_bfree = 2621440;
    f_bavail = 2621440;
    f_files = 10000;
    f_ffree = 10000;
  },
)

abbrev pub afs_chmod : Text → ℕ → Reply
afs_chmod path mode = success

abbrev pub afs_utimens : Text → TimeSpec → TimeSpec → Reply
afs_utimens path atime mtime = success

abbrev pub afs_setxattr : Text → Text → List ℕ → Reply
afs_setxattr path name value = success

-- On Linux.
abbrev pub afs_getxattr : Text → Text → Reply
afs_getxattr path name = fails enodata

abbrev pub afs_chown : Text → ℕ → ℕ → Reply
afs_chown path uid gid = success

abbrev pub afs_fsync : Text → ℕ → Reply
afs_fsync path isdatasync = success

abbrev pub afs_listxattr : Text → ℕ → Reply
afs_listxattr path size = success
