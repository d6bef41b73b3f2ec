-- ===== src/Server/Queue.antt =====
-- `NotificationQueue` of Basic_Operation/server_code/filesystem_server.hpp. Each method holds the
-- queue's mutex from start to end, so it is one step; `pop` blocks while the queue is empty and
-- open.

use distributed_filesystem.Base.{Bool, List, [], if◌then◌else◌, true, ◌++◌, ◌∷◌}
use distributed_filesystem.Wire.{Notification}

pub record NotificationQueue : Type 0 where
  pub queue : List Notification
  pub shutdown : Bool

-- A queue as it is constructed: `bool shutdown = true`.
unfoldable pub new_queue : NotificationQueue
new_queue = record { queue = []; shutdown = true }

unfoldable pub push : Notification → NotificationQueue → NotificationQueue
push n q = record q { queue = q.queue ++ n ∷ [] }

-- The condition variable's predicate is false; `pop` returned false; `pop` returned true.
pub data Popped : Type 0 where
  waits closed : Popped
  item : Notification → NotificationQueue → Popped

pop_front : List Notification → Bool → Popped
pop_front [] shutdown = if shutdown then closed else waits
pop_front (n ∷ rest) shutdown = item n (record { queue = rest; shutdown = shutdown })

unfoldable pub pop : NotificationQueue → Popped
unfolding pop_front
pop q = pop_front q.queue q.shutdown

unfoldable pub cancel : NotificationQueue → NotificationQueue
cancel q = record q { shutdown = true }
