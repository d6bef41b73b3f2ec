-- ===== src/Client/Stub.antt =====
-- The calls that the client makes of its gRPC stub, over a network and server `N` that is a
-- parameter: what a call returns, and what it leaves.

use distributed_filesystem.Base.{Bool, List, ℕ}
use distributed_filesystem.Dict.{Dict}
use distributed_filesystem.Text.{Text}
use distributed_filesystem.Wire.{
  FileRequest, FileResponse, GetAttrResponse, RenameRequest, StatusCode,
}

pub record Stub (N : Type 0) : Type 0 where
  pub request_dir : N → Text → Text → StatusCode × Text × N
  pub getattr : N → Text → Text → StatusCode × GetAttrResponse × N
  pub open_file : N → FileRequest → List FileResponse × StatusCode × N
  -- whether the k-th `Write` of the next upload is taken, and the upload of what was
  pub accepts : N → ℕ → Bool
  pub close_file : N → List FileRequest → StatusCode × ℕ × N
  pub ls : N → Text → StatusCode × Dict Text × N
  pub mkdir : N → Text → ℕ → StatusCode × N
  pub unlink : N → Text → Text → StatusCode × N
  pub rename : N → RenameRequest → StatusCode × N
