-- ===== src/Server/State.antt =====
-- The fields of class `FileSystem` (Basic_Operation/server_code/filesystem_server.hpp) and how a
-- handler ends. The queues live in a heap, and `subscribers` holds their addresses, since a
-- subscription, its monitor thread and the map share one queue by `shared_ptr`.
use distributed_filesystem.Base.{ℕ, Bool, false, none, some, List, [], length}
use distributed_filesystem.Text.{Text}
use distributed_filesystem.Dict.{Dict, get}
use distributed_filesystem.Wire.{StatusCode}
use distributed_filesystem.Server.Queue.{NotificationQueue}

pub record Server (D : Type 0) : Type 0 where
  pub disk : D
  pub root_dir : Text
  pub starting_length : ℕ
  pub file_map : Dict (List Text)
  pub file_map_open : Dict (List Text)
  pub subscribers : Dict ℕ
  pub clients_db : List Text
  pub queues : List NotificationQueue
  -- `file_map_mutex` is held by a handler that will never release it
  pub file_map_locked : Bool

-- `returns`: the handler's status; `throws`: an exception leaves the handler; `blocks`: the handler
-- waits for `file_map_mutex`, which is never released.
pub data Ending : Type 0 where
  returns : StatusCode → Ending
  throws blocks : Ending

-- `FileSystem(root_dir)`
unfoldable pub new_server : {D : Type 0} → D → Text → Server D
new_server d root = record {
  disk = d;
  root_dir = root;
  starting_length = length root;
  file_map = [];
  file_map_open = [];
  subscribers = [];
  clients_db = [];
  queues = [];
  file_map_locked = false;
}

-- `map[path]`: the set at a path, empty where the path is missing.
unfoldable pub clients_at : Dict (List Text) → Text → List Text
clients_at m path = elim (get path m) [ none ↦ [] | some clients ↦ clients ]
