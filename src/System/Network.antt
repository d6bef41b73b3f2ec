-- ===== src/System/Network.antt =====
-- The stub of a client whose calls reach a server at once, one after another, over a transport that
-- loses nothing.

use distributed_filesystem.Base.{true}
use distributed_filesystem.Client.Stub.{Stub}
use distributed_filesystem.Os.{Os}
use distributed_filesystem.Server.Namespace.{rename_handler, unlink_handler}
use distributed_filesystem.Server.Queries.{getattr, ls, mkdir, request_dir}
use distributed_filesystem.Server.State.{throws, Ending, Server, blocks, returns}
use distributed_filesystem.Server.Transfer.{close_handler, open_handler}
use distributed_filesystem.Wire.{StatusCode}

-- What the client sees of a handler's end. An exception that leaves a handler becomes UNKNOWN. A
-- handler that waits for ever gives no answer; `unavailable` stands for that, and the theorems are
-- about servers whose `file_map_mutex` is free.
unfoldable pub code_of : Ending → StatusCode
code_of (returns status) = status
code_of throws = StatusCode.unknown
code_of blocks = StatusCode.unavailable

unfoldable pub server_stub : {D : Type 0} → Os D → Stub (Server D)
unfolding code_of request_dir getattr open_handler close_handler ls mkdir unlink_handler
    rename_handler
server_stub os = record {
  request_dir = λ s code client_id. request_dir os s code client_id;
  getattr = λ s directory filename.
      let (status, response) = getattr os s directory filename in (status, response, s);
  open_file = λ s request.
      let (ending, responses, t) = open_handler os (λ _. true) s request in
      (responses, code_of ending, t);
  accepts = λ s k. true;
  close_file = λ s requests.
      let (ending, timestamp, t) = close_handler os s requests in (code_of ending, timestamp, t);
  ls = λ s directory. let (status, entries) = ls os s directory in (status, entries, s);
  mkdir = λ s directory mode. let (ending, t) = mkdir os s directory mode in (code_of ending, t);
  unlink = λ s directory client_id.
      let (ending, t) = unlink_handler os s directory client_id in (code_of ending, t);
  rename = λ s request. let (ending, done, t) = rename_handler os s request in (code_of ending, t);
}
