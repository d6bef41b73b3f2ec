-- ===== src/Examples/Sessions.antt =====
-- A client at work on one file: the client's theorems at concrete inputs.

-- A network that knows one file, keeps what is uploaded, and never fails.

use distributed_filesystem.Base.{
  List, [], arith, chunks, false, none, pos, refl, some, true, ℤ, ◌++◌, ◌↔◌, ◌∷◌, ◌≡◌,
}
use distributed_filesystem.Client.Closing.{close_file}
use distributed_filesystem.Client.Connecting.{connect}
use distributed_filesystem.Client.Consistent.{IsConsistent}
use distributed_filesystem.Client.Fetched.{OpensWith, open_file-OpensWith}
use distributed_filesystem.Client.Files.{find_streams, fresh_stream, has_key}
use distributed_filesystem.Client.Flushed.{close_file-Succeeds, is_writable}
use distributed_filesystem.Client.Histories.{
  act, closes, notices, opens, run_client, run_client-connect-IsConsistent, writes,
}
use distributed_filesystem.Client.Missed.{open_file-close_file-handle_notification}
use distributed_filesystem.Client.Opening.{open_file}
use distributed_filesystem.Client.Paths.{file_location, open_location, resolve_server_path}
use distributed_filesystem.Client.ReadBack.{Overwrites, read_file-write_file}
use distributed_filesystem.Client.Reading.{read_file}
use distributed_filesystem.Client.Received.{IsFetched, open_file-IsFetched}
use distributed_filesystem.Client.Sent.{IsUploaded, close_file-IsUploaded, is_modified}
use distributed_filesystem.Client.Short.{AllFail, read_file-slice, read_file-sticks}
use distributed_filesystem.Client.Stale.{handle_notification-invalidates}
use distributed_filesystem.Client.State.{Client, FileStreams, answers}
use distributed_filesystem.Client.Stub.{Stub}
use distributed_filesystem.Client.Subscriber.{handle_notification}
use distributed_filesystem.Client.Truncated.{
  Resizes, open_location-file_location, truncate_file_iff,
}
use distributed_filesystem.Client.Writing.{write_file}
use distributed_filesystem.Dict.{get}
use distributed_filesystem.Examples.Memory.{
  Memory, blank, memory, memory-ClosesSucceed, memory-IsFaithful, memory-WritesSucceed,
  overwrite_self,
}
use distributed_filesystem.Examples.Uploads.{alice}
use distributed_filesystem.Text.{Text, ends_in_slash, lit}
use distributed_filesystem.Wire.{FileRequest, Notification, StatusCode, no_attributes}

abbrev pub one_file : Stub (List FileRequest)
one_file = record {
  request_dir = λ net who code. (StatusCode.ok, lit "/srv", net);
  getattr = λ net directory filename. (StatusCode.ok, no_attributes, net);
  open_file = λ net request.
      (record { content = 1 ∷ 2 ∷ 3 ∷ []; length = 3; timestamp = 40 } ∷ [], StatusCode.ok, net);
  accepts = λ net k. true;
  close_file = λ net requests. (StatusCode.ok, 50, requests ++ net);
  ls = λ net directory. (StatusCode.ok, [], net);
  mkdir = λ net directory mode. (StatusCode.ok, net);
  unlink = λ net path who. (StatusCode.ok, net);
  rename = λ net request. (StatusCode.ok, net);
}

abbrev pub file : Text
file = lit "a.txt"

abbrev pub top : Text
top = lit "/"

abbrev pub local_file : Text
local_file = lit "/tmp/srv/a.txt"

abbrev pub start : Client Memory × List FileRequest
start = connect one_file blank [] alice (lit "/tmp") 0 0

abbrev pub opener : Client Memory
opener = (run_client memory one_file start (opens file top ∷ [])).0

abbrev pub changed : Client Memory
changed = (run_client memory one_file start (opens file top ∷ writes file (9 ∷ []) top 1 ∷ [])).0

abbrev pub changed_note : Notification
changed_note = record {
  directory = lit "/srv/a.txt";
  new_directory = [];
  message = lit "UPDATE";
  timestamp = 60;
}

abbrev pub file_streams : FileStreams
file_streams = record { read_stream = fresh_stream 0; write_stream = fresh_stream 0 }

test_opened : find_streams opener local_file ≡ some file_streams
unfolding connect run_client act open_file memory find_streams
test_opened = refl

test_changed : memory.bytes changed.disk 0 ≡ 1 ∷ 9 ∷ 3 ∷ []
unfolding connect run_client act open_file write_file memory
test_changed = refl

close_file-IsUploaded_example :
    IsUploaded memory one_file changed
      (lit "/srv/")
      file
      local_file
      (close_file memory one_file changed [] file top).1
unfolding connect run_client act open_file write_file close_file memory is_modified
close_file-IsUploaded_example = close_file-IsUploaded memory one_file changed [] file top refl refl

run_client-connect-IsConsistent_example :
    IsConsistent
      (run_client memory one_file start
        (opens file top ∷ writes file (9 ∷ []) top 1 ∷ closes file top ∷ [])).0
run_client-connect-IsConsistent_example =
    run_client-connect-IsConsistent memory one_file blank [] alice (lit "/tmp") 0 0
      (opens file top ∷ writes file (9 ∷ []) top 1 ∷ closes file top ∷ [])

read_file-slice_example :
    ((read_file memory opener file top (pos 2) (pos 1)).0 ≡ answers true)
    × ((read_file memory opener file top (pos 2) (pos 1)).1 ≡ 2 ∷ 3 ∷ [])
unfolding connect run_client act open_file memory find_streams
read_file-slice_example = read_file-slice memory opener file top file_streams 2 1 refl refl refl

abbrev later_reads : List (ℤ × ℤ)
later_reads = (pos 1, pos 0) ∷ (pos 2, pos 1) ∷ []

read_file-sticks_example :
    AllFail memory file top later_reads (read_file memory opener file top (pos 4) (pos 0)).2
unfolding connect run_client act open_file memory find_streams
read_file-sticks_example =
    read_file-sticks memory opener file top file_streams 4 0 later_reads refl refl refl refl

truncate_file_iff_example :
    (place : Text) × Resizes memory opener file (lit "/d") (pos 0) place
    × ((place ≡ file_location opener (resolve_server_path opener (lit "/d")) file)
        ↔ (ends_in_slash (resolve_server_path opener (lit "/d")) ≡ true))
truncate_file_iff_example = truncate_file_iff memory opener file (lit "/d") (pos 0)

open_location-file_location_example :
    open_location opener (lit "/srv/d") file ≡ file_location opener (lit "/srv/d") file
open_location-file_location_example = open_location-file_location opener b'/' (lit "srv/d") file

-- A notification for a file that is open, and for one that is closed.
handle_notification-invalidates_example :
    (get local_file (handle_notification opener changed_note).cache
      ≡ some (record { locally_modified = false; timestamp = 40; filename = file }))
    × (get (lit "/srv/a.txt") (handle_notification opener changed_note).cached_attr ≡ none)
unfolding connect run_client act open_file memory get has_key
handle_notification-invalidates_example =
    handle_notification-invalidates opener changed_note local_file (lit "/srv/a.txt")

test_closed :
    has_key local_file
      (run_client memory one_file start
        (opens file top ∷ closes file top ∷ notices changed_note ∷ [])).0.cache
    ≡ false
unfolding connect run_client act open_file close_file handle_notification memory has_key
test_closed = refl

abbrev wanted : FileRequest
wanted = record { filename = file; directory = lit "/srv/"; content = []; client_id = alice }

open_file-IsFetched_example :
    IsFetched memory one_file wanted local_file (open_file memory one_file start.0 [] file top).1
unfolding connect open_file memory get
open_file-IsFetched_example =
    open_file-IsFetched memory one_file memory-IsFaithful memory-ClosesSucceed start.0 [] file top
      refl refl

close_file-Succeeds_example :
    ((close_file memory one_file changed [] file top).0 ≡ true)
    × ((close_file memory one_file changed [] file top).2
        ≡ record {
          filename = file;
          directory = lit "/srv/";
          content = 1 ∷ 9 ∷ 3 ∷ [];
          client_id = alice;
        }
          ∷ [])
unfolding connect run_client act open_file write_file close_file memory is_modified is_writable
    chunks
close_file-Succeeds_example =
    close_file-Succeeds memory one_file changed [] file top 0 refl refl refl refl refl

open_file-OpensWith_example :
    OpensWith memory one_file local_file 0 []
      (1 ∷ 2 ∷ 3 ∷ [])
      (open_file memory one_file start.0 [] file top)
unfolding connect open_file memory get
open_file-OpensWith_example =
    open_file-OpensWith memory one_file memory-IsFaithful memory-WritesSucceed memory-ClosesSucceed
      start.0 [] file top 0 (λ d e. e) refl refl refl refl

pub memory-Overwrites : Overwrites memory
unfolding memory
memory-Overwrites = record {
  overwritten = λ d h position bs inside w. overwrite_self d.bytes_of h _;
}

read_file-write_file_example :
    let (done, c') = write_file memory opener file (9 ∷ 8 ∷ 7 ∷ []) top 2 in
    let (answer, got, c'') = read_file memory c' file top (pos 3) (pos 2) in
    (done ≡ true) × (answer ≡ answers true) × (got ≡ 9 ∷ 8 ∷ 7 ∷ [])
unfolding connect run_client act open_file memory find_streams
read_file-write_file_example =
    read_file-write_file memory memory-Overwrites opener file top file_streams (9 ∷ 8 ∷ 7 ∷ []) 2
      refl refl refl refl refl refl (omega arith) refl

open_file-close_file-handle_notification_example :
    let (done, c', net') =
      close_file memory one_file (handle_notification opener changed_note) [] file top in
    let (answer, c'', net'') = open_file memory one_file c' net' file top in
    (done ≡ true)
    × (answer ≡ answers true)
    × (net'' ≡ [])
    × (c''.disk ≡ opener.disk)
    × (get local_file c''.cache
        ≡ some (record { locally_modified = false; timestamp = 40; filename = file }))
unfolding connect run_client act open_file memory get
open_file-close_file-handle_notification_example =
    open_file-close_file-handle_notification memory one_file opener [] file top (lit "srv") refl
      changed_note file_streams file_streams
      (record { locally_modified = false; timestamp = 40; filename = file }) refl refl refl refl
      refl refl
