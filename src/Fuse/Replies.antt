-- ===== src/Fuse/Replies.antt =====
-- What a handler of FUSE/FUSE_integration.cpp gives back: its `int`, with the negated `errno` apart.

use distributed_filesystem.Base.{Bool, if◌then◌else◌, pos, ℤ}
use distributed_filesystem.Client.State.{Answer, answers, throws}

-- The error numbers that the handlers name.
pub data Errno : Type 0 where
  enoent eacces enodata : Errno

-- `raises`: an exception leaves the handler; `hangs`: the call of the client does not end.
pub data Reply : Type 0 where
  returns : ℤ → Reply
  fails : Errno → Reply
  raises hangs : Reply

-- `return 0`
abbrev pub success : Reply
success = returns (pos 0)

-- `if (!…) return -e; return 0;`
unfoldable pub reply_if : Bool → Errno → Reply
reply_if done e = if done then success else fails e

-- The same for a call that may throw.
unfoldable pub reply_to : Answer → Errno → Reply → Reply
reply_to (answers done) e r = if done then r else fails e
reply_to throws e r = raises
