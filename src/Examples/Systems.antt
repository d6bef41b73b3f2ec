-- ===== src/Examples/Systems.antt =====
-- Two clients and one server, and the FUSE front end, at concrete inputs.

-- Bob is registered with the server and has only connected; Alice, in `changed`, has the file open and
-- has changed it.
use distributed_filesystem.Base.{Bool, List, [], arith, pos, refl, some, true, ℕ, ◌∷◌, ◌≡◌}
use distributed_filesystem.Client.Closing.{close_file}
use distributed_filesystem.Client.Connecting.{connect}
use distributed_filesystem.Client.Files.{find_streams}
use distributed_filesystem.Client.Flushed.{is_writable}
use distributed_filesystem.Client.Histories.{act, run_client}
use distributed_filesystem.Client.Opening.{open_file}
use distributed_filesystem.Client.Paths.{
  cache_dir, file_location, open_location, resolve_server_path,
}
use distributed_filesystem.Client.Sent.{is_modified}
use distributed_filesystem.Client.State.{Client, answers}
use distributed_filesystem.Client.Writing.{write_file}
use distributed_filesystem.Dict.{get}
use distributed_filesystem.Examples.Memory.{
  Memory, blank, memory, memory-ClosesSucceed, memory-IsFaithful, memory-WritesSucceed,
}
use distributed_filesystem.Examples.Sessions.{
  changed, file, file_streams, memory-Overwrites, one_file, top,
}
use distributed_filesystem.Examples.Uploads.{bob, shared, shared-IsWellFormed, truncated}
use distributed_filesystem.Fuse.Bounds.{Fits, afs_read-Fits}
use distributed_filesystem.Fuse.Changes.{afs_getattr}
use distributed_filesystem.Fuse.Data.{afs_create, afs_open, afs_read, afs_release, afs_write}
use distributed_filesystem.Fuse.Echo.{afs_read-afs_write}
use distributed_filesystem.Fuse.Locations.{OpensAt, afs_open-IsOnePlace}
use distributed_filesystem.Fuse.Names.{directory_of, folder_of, name_of}
use distributed_filesystem.Fuse.Replies.{Reply, eacces, fails, success}
use distributed_filesystem.Fuse.Times.{afs_getattr-shown_stat, shown_stat}
use distributed_filesystem.Members.{contains}
use distributed_filesystem.Os.{Stat}
use distributed_filesystem.Server.Calls.{run}
use distributed_filesystem.Server.State.{new_server}
use distributed_filesystem.Server.Subscribe.{subscribe_start}
use distributed_filesystem.Server.Transfer.{close_handler, open_handler}
use distributed_filesystem.Server.Upload.{upload_request}
use distributed_filesystem.Server.Watches.{watches}
use distributed_filesystem.System.Coherence.{LearnsOf, close_file-LearnsOf}
use distributed_filesystem.System.Network.{server_stub}
use distributed_filesystem.System.Passing.{CanFetch, HasFile, close_file-open_file}
use distributed_filesystem.System.Stored.{CanFlush, CanStore}
use distributed_filesystem.Text.{join_path, lit, parent_path}

abbrev his : Client Memory
his = (connect one_file blank [] bob (lit "/home") 0 0).0

changed-CanFlush : CanFlush memory changed file top 0
unfolding connect run_client act open_file write_file memory is_writable is_modified file_location
    resolve_server_path contains
changed-CanFlush = record { writable = refl; locked = refl; modified = refl; readable = refl }

shared-CanStore : CanStore memory shared (resolve_server_path changed top) file
unfolding connect run_client act open_file write_file memory resolve_server_path run new_server
    close_handler open_handler subscribe_start upload_request join_path parent_path
shared-CanStore = record {
  named = refl;
  unlocked = refl;
  after_made = shared.disk;
  after_opened = truncated;
  handle = 0;
  made = refl;
  opened = refl;
}

his-CanFetch : CanFetch memory his file top 0
unfolding connect memory resolve_server_path open_location cache_dir get
his-CanFetch = record { uncached = refl; made = refl; truncates_file = refl; updates = λ d e. e }

close_file-open_file_example :
    let (done, a', t) = close_file memory (server_stub memory) changed shared file top in
    let (answer, b', u) = open_file memory (server_stub memory) his t file top in
    (done ≡ true)
    × (answer ≡ answers true)
    × HasFile memory b'.disk
        (open_location his (resolve_server_path his top) file)
        0
        (memory.bytes changed.disk 0)
unfolding connect resolve_server_path run_client memory
close_file-open_file_example =
    close_file-open_file memory memory memory memory-IsFaithful memory-WritesSucceed
      memory-IsFaithful memory-WritesSucceed memory-ClosesSucceed shared shared-IsWellFormed changed
      his file top 0 0 changed-CanFlush shared-CanStore refl his-CanFetch

close_file-LearnsOf_example :
    LearnsOf his
      (lit "/srv/a.txt")
      (lit "/home/srv/a.txt")
      shared
      (close_file memory (server_stub memory) changed shared file top).2
unfolding connect resolve_server_path file_location join_path run_client act open_file write_file
    memory watches run new_server close_handler open_handler subscribe_start upload_request
close_file-LearnsOf_example =
    close_file-LearnsOf memory memory memory-IsFaithful memory-WritesSucceed shared
      shared-IsWellFormed changed his file top 0 changed-CanFlush shared-CanStore refl refl refl
      refl

afs_read-Fits_example : Fits 2 (afs_read memory changed (lit "/a.txt") 2 1)
afs_read-Fits_example = afs_read-Fits memory changed (lit "/a.txt") 2 1

test_read :
    let (reply, copied, c) = afs_read memory changed (lit "/a.txt") 2 1 in
    (reply ≡ Reply.returns (pos 2)) × (copied ≡ 9 ∷ 3 ∷ [])
unfolding connect run_client act open_file write_file memory afs_read find_streams
test_read = (refl, refl)

afs_open-IsOnePlace_example :
    ((size offset : ℕ) → (afs_read memory his (lit "/a.txt") size offset).0 ≡ fails eacces)
    × ((content : List ℕ) (offset : ℕ)
        → (afs_write memory his (lit "/a.txt") content offset).0 ≡ fails eacces)
    × (afs_release memory (server_stub memory) his shared (lit "/a.txt") ≡ (success, his, shared))
    × ((truncated : Bool)
        → let s = afs_open memory (server_stub memory) his shared (lit "/a.txt") truncated in
          OpensAt (lit "/home/srv/a.txt") (s.0, s.1))
    × OpensAt (lit "/home/srv/a.txt") (afs_create memory his (lit "/a.txt"))
unfolding connect get open_location resolve_server_path directory_of name_of
afs_open-IsOnePlace_example =
    afs_open-IsOnePlace memory (server_stub memory) his shared (lit "/a.txt") b'/' (lit "srv") refl
      refl

abbrev stat_shared : Stat
stat_shared = record {
  size = 2;
  mode = 33188;
  nlink = 1;
  uid = 0;
  gid = 0;
  atime_sec = 7;
  mtime_sec = 7;
  mtime_nsec = 5;
  ctime_sec = 7;
}

afs_getattr-shown_stat_example :
    let (reply, shown, c', s') =
      afs_getattr memory (server_stub memory) his shared (lit "/a.txt") in
    let (again, shown', c'', s'') =
      afs_getattr memory (server_stub memory) c' shared (lit "/a.txt") in
    (reply ≡ success)
    × (shown ≡ some (shown_stat his stat_shared))
    × (again ≡ success)
    × (shown' ≡ some (shown_stat his stat_shared))
unfolding connect memory run new_server close_handler open_handler subscribe_start upload_request
    folder_of name_of resolve_server_path join_path get
afs_getattr-shown_stat_example =
    afs_getattr-shown_stat memory memory his shared shared (lit "/a.txt") stat_shared refl refl
      (omega arith)

afs_read-afs_write_example :
    let (reply, c') = afs_write memory changed (lit "/a.txt") (4 ∷ 5 ∷ []) 2 in
    let (reply', copied, c'') = afs_read memory c' (lit "/a.txt") 2 2 in
    (reply ≡ Reply.returns (pos 2)) × (reply' ≡ Reply.returns (pos 2)) × (copied ≡ 4 ∷ 5 ∷ [])
unfolding connect run_client act open_file write_file memory find_streams directory_of name_of
afs_read-afs_write_example =
    afs_read-afs_write memory memory-Overwrites changed (lit "/a.txt") file_streams (4 ∷ 5 ∷ []) 2
      refl refl refl refl refl refl (omega arith) (omega arith) (omega arith) refl
