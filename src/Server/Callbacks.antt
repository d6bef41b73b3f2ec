-- ===== src/Server/Callbacks.antt =====
-- `file_change_callback_close`, `_rename`, `_unlink` and `cleanup_client` of
-- Basic_Operation/server_code/filesystem_server.cpp. A callback returns whether it came to its end
-- (`false`: it waits for `file_map_mutex` for ever), and the state.
use distributed_filesystem.Base.{
  ℕ, Bool, true, false, Option, none, some, List, [], ◌∷◌, if◌then◌else◌, modify,
}
use distributed_filesystem.Text.{Text, text_eq}
use distributed_filesystem.Dict.{Dict, get, put, remove}
use distributed_filesystem.Members.{insert, erase}
use distributed_filesystem.Wire.{Notification}
use distributed_filesystem.Server.Queue.{NotificationQueue, push, cancel}
use distributed_filesystem.Server.State.{Server}

-- `queue_it->second->push(notif)`, if the client has a queue.
abbrev pub push_to : Option ℕ → Notification → List NotificationQueue → List NotificationQueue
push_to none n queues = queues
push_to (some address) n queues = modify (push n) address queues

-- The loop over `client_set`, which skips the client that made the change.
unfoldable pub notify_clients :
    Dict ℕ → Text → Notification → List Text → List NotificationQueue → List NotificationQueue
notify_clients subscribers self n [] queues = queues
notify_clients subscribers self n (client ∷ rest) queues =
    notify_clients subscribers self n rest
      (if text_eq client self then queues else push_to (get client subscribers) n queues)

module _ {D : Type 0} where
  abbrev pub notified : Server D → Text → Notification → List Text → Server D
  notified s self n clients = record s {
    queues = notify_clients s.subscribers self n clients s.queues;
  }

  unfoldable pub file_change_callback_close :
      Server D → Text → Text → Notification → Bool × Server D
  unfolding insert
  file_change_callback_close s path client_id n =
      if s.file_map_locked then (false, s) else elim (get path s.file_map) [
        | some clients ↦ (true, notified s client_id n clients)
        | none ↦ (true, record s { file_map = put path (insert client_id []) s.file_map })
      ]

  -- Where the old path is not registered, the handler locks `file_map_mutex`, which it holds, and
  -- never gets to `file_map[new_path].insert(client_id)`.
  unfoldable pub file_change_callback_rename :
      Server D → Text → Text → Text → Notification → Bool × Server D
  file_change_callback_rename s old_path new_path client_id n =
      if s.file_map_locked then (false, s) else elim (get old_path s.file_map) [
        | some clients ↦ (
          true,
          record (notified s client_id n clients) {
            file_map = remove old_path (put new_path clients s.file_map);
          },
        )
        | none ↦ (false, record s { file_map_locked = true })
      ]

  unfoldable pub file_change_callback_unlink :
      Server D → Text → Text → Notification → Bool × Server D
  file_change_callback_unlink s path client_id n =
      if s.file_map_locked then (false, s) else elim (get path s.file_map) [
        | some clients ↦
            (true, record (notified s client_id n clients) { file_map = remove path s.file_map })
        | none ↦ (true, s)
      ]

-- The loop of `cleanup_client` over `file_map`: the client leaves every set, and a set that becomes
-- empty leaves the map.
unfoldable pub forget_client : Text → Dict (List Text) → Dict (List Text)
unfolding erase
forget_client client_id [] = []
forget_client client_id ((path, clients) ∷ rest) =
    let kept = forget_client client_id rest in
    let left = erase client_id clients in elim left [ [] ↦ kept | c ∷ cs ↦ (path, c ∷ cs) ∷ kept ]

abbrev pub cancel_at : Option ℕ → List NotificationQueue → List NotificationQueue
cancel_at none queues = queues
cancel_at (some address) queues = modify cancel address queues

module _ {D : Type 0} where
  unfoldable pub cleanup_client : Server D → Text → Bool × Server D
  unfolding forget_client
  cleanup_client s client_id =
      let s' = record s { clients_db = erase client_id s.clients_db } in
      if s.file_map_locked then (false, s') else (
        true,
        record s' {
          file_map = forget_client client_id s.file_map;
          queues = cancel_at (get client_id s.subscribers) s.queues;
          subscribers = remove client_id s.subscribers;
        },
      )
