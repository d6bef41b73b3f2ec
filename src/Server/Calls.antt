-- ===== src/Server/Calls.antt =====
-- The server's state changes as a step function: the handlers registered in
-- Basic_Operation/server_code/filesystem_server.hpp and the parts of `subscribe` that other threads
-- can interleave with.
use distributed_filesystem.Base.{ℕ, Bool, List, [], ◌∷◌}
use distributed_filesystem.Text.{Text}
use distributed_filesystem.Wire.{FileRequest, RenameRequest}
use distributed_filesystem.Os.{Os}
use distributed_filesystem.Server.State.{Server}
use distributed_filesystem.Server.Queries.{request_dir, mkdir}
use distributed_filesystem.Server.Transfer.{open_handler, close_handler}
use distributed_filesystem.Server.Namespace.{rename_handler, unlink_handler}
use distributed_filesystem.Server.Subscribe.{
  Round, sleeps, wrote, ended, subscribe_start, subscribe_round, monitor_cancel,
}

-- `getattr`, `ls` and `GetStatus` read the state only.
pub data Call : Type 0 where
  requests_dir : Text → Text → Call
  makes_dir : Text → ℕ → Call
  opens : (ℕ → Bool) → FileRequest → Call
  closes : List FileRequest → Call
  renames : RenameRequest → Call
  unlinks : Text → Text → Call
  subscribes : Text → Call
  runs_round : Text → ℕ → Bool → Call
  cancels : ℕ → Call

abbrev pub after_round : {D : Type 0} → Server D → Round D → Server D
after_round s sleeps = s
after_round s (wrote n t) = t
after_round s (ended done t) = t

module _ {D : Type 0} (os : Os D) where
  unfoldable pub serve : Server D → Call → Server D
  serve s (requests_dir code client_id) = (request_dir os s code client_id).2
  serve s (makes_dir directory mode) = (mkdir os s directory mode).1
  serve s (opens accepts request) = (open_handler os accepts s request).2
  serve s (closes requests) = (close_handler os s requests).2
  serve s (renames request) = (rename_handler os s request).2
  serve s (unlinks directory client_id) = (unlink_handler os s directory client_id).1
  serve s (subscribes client_id) = (subscribe_start s client_id).1
  serve s (runs_round client_id address accepted) =
      after_round s (subscribe_round s client_id address accepted)
  serve s (cancels address) = monitor_cancel s address

  -- Any history of calls, one critical section after another.
  unfoldable pub run : Server D → List Call → Server D
  unfolding serve
  run s [] = s
  run s (c ∷ cs) = run (serve s c) cs
