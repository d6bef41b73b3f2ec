-- ===== src/Examples/Uploads.antt =====
-- Two clients and one file: the server's theorems at work.

use distributed_filesystem.Base.{List, [], concat, map, refl, some, true, ℕ, ◌∷◌, ◌≡◌}
use distributed_filesystem.Dict.{get}
use distributed_filesystem.Examples.Memory.{
  Memory, blank, memory, memory-IsFaithful, memory-WritesSucceed,
}
use distributed_filesystem.Server.Callbacks.{notify_clients}
use distributed_filesystem.Server.Calls.{Call, closes, opens, run, subscribes}
use distributed_filesystem.Server.Inbox.{inbox}
use distributed_filesystem.Server.Invariant.{run-new_server-IsWellFormed}
use distributed_filesystem.Server.Publish.{IsPublished, close_handler-IsPublished}
use distributed_filesystem.Server.Queue.{push}
use distributed_filesystem.Server.Roundtrip.{contents, open_handler-close_handler}
use distributed_filesystem.Server.State.{Server, new_server, returns}
use distributed_filesystem.Server.Subscribe.{subscribe_start}
use distributed_filesystem.Server.Transfer.{close_handler, open_handler, update_notification}
use distributed_filesystem.Server.Upload.{upload_request}
use distributed_filesystem.Server.WellFormed.{IsWellFormed}
use distributed_filesystem.Text.{Text, join_path, lit, parent_path}
use distributed_filesystem.Wire.{FileRequest, StatusCode}

abbrev pub root : Text
root = lit "/srv"

abbrev pub note_file : Text
note_file = lit "a.txt"

abbrev pub alice : Text
alice = lit "alice"

abbrev pub bob : Text
bob = lit "bob"

abbrev pub upload_by : Text → List ℕ → FileRequest
upload_by who chunk = upload_request root note_file who chunk

abbrev pub opening_by : Text → FileRequest
opening_by who = record { filename = note_file; directory = root; content = []; client_id = who }

-- Both subscribe, Alice uploads, Bob opens the file.
abbrev pub history : List Call
history =
    subscribes alice
    ∷ subscribes bob
    ∷ closes (upload_by alice (1 ∷ 2 ∷ []) ∷ [])
    ∷ opens (λ _. true) (opening_by bob)
    ∷ []

abbrev pub shared : Server Memory
shared = run memory (new_server blank root) history

pub shared-IsWellFormed : IsWellFormed shared
shared-IsWellFormed = run-new_server-IsWellFormed memory blank root history

run-new_server-IsWellFormed_example : IsWellFormed (run memory (new_server blank root) history)
run-new_server-IsWellFormed_example = run-new_server-IsWellFormed memory blank root history

shared_watchers : get (lit "/srv/a.txt") shared.file_map ≡ some (bob ∷ alice ∷ [])
unfolding run memory new_server close_handler open_handler subscribe_start upload_request
shared_watchers = refl

shared_disk : shared.disk.names ≡ (lit "/srv/a.txt", 0) ∷ []
unfolding run memory new_server close_handler open_handler subscribe_start upload_request
shared_disk = refl

-- Bob's disk after `open_trunc` of the path, on the disk that `shared` leaves.
abbrev pub truncated : Memory
truncated = (memory.open_trunc shared.disk (lit "/srv/a.txt")).1

close_handler-IsPublished_example : IsPublished shared (join_path root note_file) bob (
    close_handler memory shared
      (map (upload_request root note_file bob) ((9 ∷ []) ∷ (8 ∷ []) ∷ [])))
unfolding run memory new_server close_handler open_handler subscribe_start upload_request join_path
    parent_path
close_handler-IsPublished_example =
    close_handler-IsPublished memory root note_file bob refl shared shared-IsWellFormed refl
      shared.disk truncated 0 refl refl (9 ∷ []) ((8 ∷ []) ∷ [])

-- The notification of that upload is Alice's first.
alice_told :
    inbox (close_handler memory shared (upload_by bob (9 ∷ []) ∷ [])).2 alice
    ≡ some (update_notification (lit "/srv/a.txt") 7000000005 ∷ [])
unfolding run memory new_server close_handler open_handler subscribe_start upload_request inbox
    update_notification notify_clients push
alice_told = refl

open_handler-close_handler_example :
    let t =
      (close_handler memory shared
        (map (upload_request root note_file bob) ((9 ∷ []) ∷ (8 ∷ []) ∷ []))).2 in
    ((open_handler memory (λ _. true) t (opening_by alice)).0 ≡ returns StatusCode.ok)
    × (concat (contents (open_handler memory (λ _. true) t (opening_by alice)).1)
        ≡ concat ((9 ∷ []) ∷ (8 ∷ []) ∷ []))
unfolding run memory new_server close_handler open_handler subscribe_start upload_request join_path
    parent_path
open_handler-close_handler_example =
    open_handler-close_handler memory memory-IsFaithful memory-WritesSucceed root note_file bob refl
      shared refl shared.disk truncated 0 refl refl (9 ∷ []) ((8 ∷ []) ∷ []) (opening_by alice) refl
      refl
