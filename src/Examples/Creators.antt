-- ===== src/Examples/Creators.antt =====
-- Bob asks for a file that is not there, and he and Alice both create it; Alice writes to hers.

use distributed_filesystem.Base.{Bool, [], chunks, refl, true, ◌∷◌, ◌≡◌}
use distributed_filesystem.Client.Closing.{close_file}
use distributed_filesystem.Client.Connecting.{connect}
use distributed_filesystem.Client.Creating.{create_file}
use distributed_filesystem.Client.Files.{has_key}
use distributed_filesystem.Client.Flushed.{is_writable}
use distributed_filesystem.Client.Opening.{open_file}
use distributed_filesystem.Client.Paths.{resolve_server_path}
use distributed_filesystem.Client.Sent.{is_modified}
use distributed_filesystem.Client.State.{Client}
use distributed_filesystem.Client.Writing.{write_file}
use distributed_filesystem.Examples.Memory.{
  Memory, blank, memory, memory-IsFaithful, memory-WritesSucceed,
}
use distributed_filesystem.Examples.Sessions.{file, top}
use distributed_filesystem.Examples.Uploads.{alice, bob, opening_by, root}
use distributed_filesystem.Examples.Worlds.{both}
use distributed_filesystem.Server.Calls.{opens, run}
use distributed_filesystem.Server.Invariant.{run-new_server-IsWellFormed}
use distributed_filesystem.Server.State.{Server, new_server}
use distributed_filesystem.Server.Subscribe.{subscribe_start}
use distributed_filesystem.Server.Transfer.{close_handler, open_handler}
use distributed_filesystem.Server.Upload.{upload_request}
use distributed_filesystem.Server.WellFormed.{IsWellFormed}
use distributed_filesystem.System.Network.{server_stub}
use distributed_filesystem.System.Stored.{CanFlush, CanStore}
use distributed_filesystem.System.Untold.{IsUntold, close_file-IsUntold}
use distributed_filesystem.System.World.{World, answered}
use distributed_filesystem.Text.{join_path, lit, parent_path}

abbrev asked_for : World Memory Memory
asked_for =
    answered both 1
      (open_file memory (server_stub memory) (both.clients 1) (new_server blank root) file top)

abbrev alice_creates : Client Memory
alice_creates =
    (write_file memory (create_file memory (both.clients 0) file top).1 file (9 ∷ []) top 0).1

abbrev bob_creates : Client Memory
bob_creates = (create_file memory (asked_for.clients 1) file top).1

alice_creates-CanFlush : CanFlush memory alice_creates file top 0
unfolding connect run memory new_server close_handler open_handler subscribe_start upload_request
    open_file close_file write_file create_file server_stub chunks is_writable is_modified
alice_creates-CanFlush = record { writable = refl; locked = refl; modified = refl; readable = refl }

bob_creates-CanFlush : CanFlush memory bob_creates file top 1
unfolding connect run memory new_server close_handler open_handler subscribe_start upload_request
    open_file close_file write_file create_file server_stub chunks is_writable is_modified
bob_creates-CanFlush = record { writable = refl; locked = refl; modified = refl; readable = refl }

abbrev alice_closed : Bool × Client Memory × Server Memory
alice_closed = close_file memory (server_stub memory) alice_creates asked_for.server file top

first-CanStore : CanStore memory asked_for.server (resolve_server_path alice_creates top) file
unfolding connect run memory new_server close_handler open_handler subscribe_start upload_request
    open_file close_file write_file create_file server_stub chunks join_path parent_path
first-CanStore = record {
  named = refl;
  unlocked = refl;
  after_made = asked_for.server.disk;
  after_opened = (memory.open_trunc asked_for.server.disk (lit "/srv/a.txt")).1;
  handle = 0;
  made = refl;
  opened = refl;
}

second-CanStore : CanStore memory alice_closed.2 (resolve_server_path bob_creates top) file
unfolding connect run memory new_server close_handler open_handler subscribe_start upload_request
    open_file close_file write_file create_file server_stub chunks join_path parent_path
second-CanStore = record {
  named = refl;
  unlocked = refl;
  after_made = alice_closed.2.disk;
  after_opened = (memory.open_trunc alice_closed.2.disk (lit "/srv/a.txt")).1;
  handle = 0;
  made = refl;
  opened = refl;
}

asked_for-IsWellFormed : IsWellFormed asked_for.server
unfolding run open_file new_server connect close_handler open_handler server_stub memory
asked_for-IsWellFormed =
    run-new_server-IsWellFormed memory blank root (opens (λ _. true) (opening_by bob) ∷ [])

close_file-IsUntold_example :
    let (done, a', t) =
      close_file memory (server_stub memory) alice_creates asked_for.server file top in
    let (done', b', u) = close_file memory (server_stub memory) bob_creates t file top in
    (done ≡ true)
    × (done' ≡ true)
    × (has_key (lit "/tmp/srv/a.txt") a'.cache ≡ true)
    × IsUntold asked_for.server u (lit "/srv/a.txt") alice
unfolding connect run memory new_server close_handler open_handler subscribe_start upload_request
    open_file close_file write_file create_file server_stub chunks join_path parent_path has_key
close_file-IsUntold_example =
    close_file-IsUntold memory memory memory-IsFaithful memory-WritesSucceed asked_for.server
      asked_for-IsWellFormed alice_creates bob_creates file top 0 1 (bob ∷ []) refl refl
      alice_creates-CanFlush first-CanStore refl bob_creates-CanFlush second-CanStore
