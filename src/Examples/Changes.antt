-- ===== src/Examples/Changes.antt =====
-- Renames, removals, departures and subscriptions on the server of `Uploads`.

use distributed_filesystem.Base.{
  Bool, List, [], arith, false, if◌then◌else◌, none, not, refl, true, ℕ, ◌&&◌, ◌∷◌, ◌≡◌,
}
use distributed_filesystem.Examples.Memory.{Memory, memory}
use distributed_filesystem.Examples.Uploads.{
  alice, bob, note_file, root, shared, shared-IsWellFormed, upload_by,
}
use distributed_filesystem.Members.{contains}
use distributed_filesystem.Os.{Os, other_error}
use distributed_filesystem.Server.Callbacks.{cleanup_client, notify_clients}
use distributed_filesystem.Server.Calls.{Call, run}
use distributed_filesystem.Server.Cleanup.{cleanup_client-forgets}
use distributed_filesystem.Server.Inbox.{inbox, told}
use distributed_filesystem.Server.Namespace.{delete_notification, rename_handler, unlink_handler}
use distributed_filesystem.Server.Queries.{get_file_timestamp}
use distributed_filesystem.Server.Queue.{push}
use distributed_filesystem.Server.Removal.{unlink_handler-removed}
use distributed_filesystem.Server.Renaming.{IsMoved, rename_handler-IsMoved}
use distributed_filesystem.Server.State.{Server, blocks, new_server, returns}
use distributed_filesystem.Server.Stuck.{rename_unregistered_blocks}
use distributed_filesystem.Server.Subscribe.{monitor_cancel, subscribe_rounds, subscribe_start}
use distributed_filesystem.Server.Subscription.{emptied, finished, subscribe_rounds-drain}
use distributed_filesystem.Server.Transfer.{close_handler, open_handler, update_notification}
use distributed_filesystem.Server.Upload.{upload_request}
use distributed_filesystem.Server.Watches.{watches}
use distributed_filesystem.Text.{Text, join_path, lit, parent_path, text_eq}
use distributed_filesystem.Wire.{FileRequest, Notification, RenameRequest, StatusCode}

abbrev rename_to_b : RenameRequest
rename_to_b = record {
  filename = note_file;
  new_filename = lit "b.txt";
  directory = root;
  new_directory = root;
  client_id = alice;
}

-- The disk once `a.txt` is called `b.txt`.
abbrev moved_disk : Memory
moved_disk = (memory.rename shared.disk (lit "/srv/a.txt") (lit "/srv/b.txt")).1

rename_handler-IsMoved_example :
    ((rename_handler memory shared rename_to_b).0 ≡ returns StatusCode.ok)
    × ((rename_handler memory shared rename_to_b).1 ≡ true)
    × IsMoved shared
        (join_path root note_file)
        (join_path root (lit "b.txt"))
        alice
        (get_file_timestamp memory moved_disk (join_path root (lit "b.txt")))
        (rename_handler memory shared rename_to_b).2
unfolding run memory new_server close_handler open_handler subscribe_start upload_request join_path
    parent_path
rename_handler-IsMoved_example =
    rename_handler-IsMoved memory shared shared-IsWellFormed rename_to_b shared.disk moved_disk refl
      refl refl (bob ∷ alice ∷ []) refl

-- The server has just started: its disk holds the file, and nobody is registered.
abbrev restarted : Server Memory
restarted = new_server shared.disk root

rename_unregistered_blocks_example :
    ((rename_handler memory restarted rename_to_b).0 ≡ blocks)
    × ((calls : List Call) (accepts : ℕ → Bool) (opening : FileRequest)
        → (open_handler memory accepts
            (run memory (rename_handler memory restarted rename_to_b).2 calls)
            opening).0
          ≡ blocks)
unfolding run memory new_server close_handler open_handler subscribe_start upload_request join_path
    parent_path
rename_unregistered_blocks_example =
    rename_unregistered_blocks memory restarted rename_to_b shared.disk moved_disk refl refl refl
      refl

unlink_handler-removed_example :
    ((unlink_handler memory shared (lit "/srv/a.txt") alice).0 ≡ returns StatusCode.ok)
    × ((k : Text)
        → inbox (unlink_handler memory shared (lit "/srv/a.txt") alice).1 k ≡ (
            if watches shared.file_map (lit "/srv/a.txt") k && not (text_eq k alice)
            then told (delete_notification (lit "/srv/a.txt")) (inbox shared k)
            else inbox shared k))
    × ((p k : Text)
        → watches (unlink_handler memory shared (lit "/srv/a.txt") alice).1.file_map p k
          ≡ (if text_eq (lit "/srv/a.txt") p then false else watches shared.file_map p k))
unfolding run memory new_server close_handler open_handler subscribe_start upload_request
unlink_handler-removed_example =
    unlink_handler-removed memory shared (lit "/srv/a.txt") alice shared-IsWellFormed
      (memory.remove shared.disk (lit "/srv/a.txt")).1 refl refl

-- A disk whose `remove` fails as it does for a folder that is not empty.
abbrev full_folder : Os Memory
full_folder = record memory { remove = λ d p. (other_error, d) }

-- A folder that is not empty stays, and the reply is OK.
unlink_full_folder :
    unlink_handler full_folder shared (lit "/srv/d") alice
    ≡ (returns StatusCode.ok, record shared { disk = shared.disk })
unfolding unlink_handler
unlink_full_folder = refl

cleanup_client-forgets_example :
    ((cleanup_client shared bob).0 ≡ true)
    × (contains bob (cleanup_client shared bob).1.clients_db ≡ false)
    × ((p k : Text)
        → watches (cleanup_client shared bob).1.file_map p k
          ≡ (not (text_eq bob k) && watches shared.file_map p k))
    × ((k : Text)
        → inbox (cleanup_client shared bob).1 k ≡ (if text_eq bob k then none else inbox shared k))
    × ((cleanup_client shared bob).1.file_map_open ≡ shared.file_map_open)
unfolding run memory new_server close_handler open_handler subscribe_start upload_request
cleanup_client-forgets_example = cleanup_client-forgets shared shared-IsWellFormed refl bob

-- Bob is told of Alice's upload and leaves: his queue, at address 1, is cancelled with one
-- notification in it.
abbrev leaving : Server Memory
leaving = monitor_cancel (close_handler memory shared (upload_by alice (3 ∷ []) ∷ [])).2 1

abbrev last_note : Notification
last_note = update_notification (lit "/srv/a.txt") 7000000005

subscribe_rounds-drain_example :
    subscribe_rounds 2 leaving bob 1
    ≡ (last_note ∷ [], true, finished bob 1 (emptied bob 1 leaving true) true)
unfolding run memory new_server close_handler open_handler subscribe_start upload_request
    monitor_cancel update_notification notify_clients push
subscribe_rounds-drain_example =
    subscribe_rounds-drain bob 1 (last_note ∷ []) leaving true 2 (omega arith) refl
