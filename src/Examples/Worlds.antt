-- ===== src/Examples/Worlds.antt =====
-- Two clients at one server, at concrete inputs.

use distributed_filesystem.Base.{[], chunks, if_ind, if◌then◌else◌, refl, true, ℕ, ◌==◌, ◌∷◌, ◌≡◌}
use distributed_filesystem.Client.Closing.{close_file}
use distributed_filesystem.Client.Connecting.{connect}
use distributed_filesystem.Client.Files.{has_key}
use distributed_filesystem.Client.Flushed.{is_writable}
use distributed_filesystem.Client.Opening.{open_file}
use distributed_filesystem.Client.Paths.{cache_dir, resolve_server_path}
use distributed_filesystem.Client.Sent.{is_modified}
use distributed_filesystem.Client.State.{Client}
use distributed_filesystem.Client.Writing.{write_file}
use distributed_filesystem.Dict.{get}
use distributed_filesystem.Examples.Memory.{
  Memory, blank, memory, memory-ClosesSucceed, memory-IsFaithful, memory-WritesSucceed,
}
use distributed_filesystem.Examples.Sessions.{file, one_file, top}
use distributed_filesystem.Examples.Uploads.{alice, bob, shared, shared-IsWellFormed}
use distributed_filesystem.Server.Calls.{run}
use distributed_filesystem.Server.Inbox.{inbox, told}
use distributed_filesystem.Server.State.{new_server}
use distributed_filesystem.Server.Subscribe.{subscribe_start}
use distributed_filesystem.Server.Transfer.{close_handler, open_handler, update_notification}
use distributed_filesystem.Server.Upload.{upload_request}
use distributed_filesystem.Server.Watches.{watches}
use distributed_filesystem.System.Coherence.{LearnsOf}
use distributed_filesystem.System.Network.{server_stub}
use distributed_filesystem.System.Promise.{Reach-LearnsOf, Reach-watches}
use distributed_filesystem.System.Renewed.{CanDownload, Reach-Renews, Renews}
use distributed_filesystem.System.Stored.{CanFlush, CanStore}
use distributed_filesystem.System.World.{IsFresh, Reach, Step, World, answered, place}
use distributed_filesystem.Text.{join_path, lit, parent_path}

-- Both have connected; the server has the file.
abbrev pub both : World Memory Memory
both = record {
  clients = λ i.
      if i == 0
      then (connect one_file blank [] alice (lit "/tmp") 0 0).0
      else (connect one_file blank [] bob (lit "/home") 0 0).0;
  server = shared;
}

both-IsFresh : IsFresh both
unfolding connect run memory new_server close_handler open_handler subscribe_start upload_request
both-IsFresh = record {
  formed = shared-IsWellFormed;
  unlocked = refl;
  root = λ i. lit "srv";
  rooted = λ i.
      if_ind (λ (c : Client Memory). c.server_root_path ≡ lit "/srv") (i == 0) _ _ (λ _. refl)
        (λ _. refl);
  uncached = λ i. if_ind (λ (c : Client Memory). c.cache ≡ []) (i == 0) _ _ (λ _. refl) (λ _. refl);
}

-- Bob opens the file and closes it, Alice opens it and changes it.
abbrev bob_opens : World Memory Memory
bob_opens = answered both 1 (open_file memory (server_stub memory) (both.clients 1) shared file top)

abbrev bob_closes : World Memory Memory
bob_closes =
    answered bob_opens 1
      (close_file memory (server_stub memory) (bob_opens.clients 1) bob_opens.server file top)

abbrev alice_opens : World Memory Memory
alice_opens =
    answered bob_closes 0
      (open_file memory (server_stub memory) (bob_closes.clients 0) bob_closes.server file top)

abbrev alice_writes : World Memory Memory
alice_writes =
    place alice_opens 0 (write_file memory (alice_opens.clients 0) file (9 ∷ []) top 1).1
      alice_opens.server

alice_writes-Reach : Reach memory memory both alice_writes
alice_writes-Reach =
    Reach.next
      (Reach.next
        (Reach.next (Reach.next Reach.here (Step.opens 1 file top)) (Step.closes 1 file top))
        (Step.opens 0 file top))
      (Step.writes 0 file (9 ∷ []) top 1)

Reach-watches_example :
    watches alice_writes.server.file_map (lit "/srv/a.txt") (alice_writes.clients 1).client_id
    ≡ true
unfolding connect run memory new_server close_handler open_handler subscribe_start upload_request
    open_file close_file write_file server_stub chunks has_key
Reach-watches_example =
    Reach-watches memory memory both alice_writes both-IsFresh alice_writes-Reach 1
      (lit "srv/a.txt") refl

alice-CanFlush : CanFlush memory (alice_writes.clients 0) file top 0
unfolding connect run memory new_server close_handler open_handler subscribe_start upload_request
    open_file close_file write_file server_stub chunks is_writable is_modified
alice-CanFlush = record { writable = refl; locked = refl; modified = refl; readable = refl }

alice-CanStore :
    CanStore memory alice_writes.server (resolve_server_path (alice_writes.clients 0) top) file
unfolding connect run memory new_server close_handler open_handler subscribe_start upload_request
    open_file close_file write_file server_stub chunks join_path parent_path
alice-CanStore = record {
  named = refl;
  unlocked = refl;
  after_made = alice_writes.server.disk;
  after_opened = (memory.open_trunc alice_writes.server.disk (lit "/srv/a.txt")).1;
  handle = 0;
  made = refl;
  opened = refl;
}

Reach-LearnsOf_example :
    LearnsOf
      (alice_writes.clients 1)
      (lit "/srv/a.txt")
      (lit "/home/srv/a.txt")
      alice_writes.server
      (close_file memory
        (server_stub memory)
        (alice_writes.clients 0)
        alice_writes.server
        file
        top).2
unfolding connect run memory new_server close_handler open_handler subscribe_start upload_request
    open_file close_file write_file server_stub chunks has_key join_path cache_dir
Reach-LearnsOf_example =
    Reach-LearnsOf memory memory both alice_writes both-IsFresh alice_writes-Reach memory-IsFaithful
      memory-WritesSucceed 0 1 file top 0 alice-CanFlush alice-CanStore refl refl refl

bob-CanDownload : CanDownload memory (alice_writes.clients 1) file top 0
unfolding connect run memory new_server close_handler open_handler subscribe_start upload_request
    open_file close_file write_file server_stub chunks get
bob-CanDownload = record { made = refl; truncates_file = refl; updates = λ d e. e }

Reach-Renews_example :
    let (done, a', t) =
      close_file memory
        (server_stub memory)
        (alice_writes.clients 0)
        alice_writes.server
        file
        top in
    (timestamp : ℕ) × let note = update_notification (lit "/srv/a.txt") timestamp in
      (inbox t bob ≡ told note (inbox alice_writes.server bob))
      × Renews memory memory memory memory-IsFaithful memory-WritesSucceed memory-IsFaithful
          memory-WritesSucceed memory-ClosesSucceed
          (alice_writes.clients 1)
          t
          file
          top
          0
          (memory.bytes (alice_writes.clients 0).disk 0)
          note
unfolding connect run memory new_server close_handler open_handler subscribe_start upload_request
    open_file close_file write_file server_stub chunks has_key join_path cache_dir
Reach-Renews_example =
    Reach-Renews memory memory both alice_writes both-IsFresh alice_writes-Reach memory-IsFaithful
      memory-WritesSucceed memory-IsFaithful memory-WritesSucceed memory-ClosesSucceed 0 1 file top
      0 0 alice-CanFlush alice-CanStore refl refl refl refl bob-CanDownload
