-- ===== src/Client/Histories.antt =====
-- Histories of a client: the calls of Basic_Operation/client_code/filesystem_client.cpp, except
-- `rename_file`, and the notifications of client_subscriber.hpp, one after the other.

use distributed_filesystem.Base.{List, Option, [], if_ind, option_ind, ℕ, ℤ, ◌∷◌}
use distributed_filesystem.Client.Closing.{close_file}
use distributed_filesystem.Client.Connecting.{connect}
use distributed_filesystem.Client.Consistent.{
  IsConsistent, handle_notification-IsConsistent, read_file-IsConsistent, write_file-IsConsistent,
}
use distributed_filesystem.Client.Creating.{create_file}
use distributed_filesystem.Client.Lifecycle.{close_file-IsConsistent, delete_file-IsConsistent}
use distributed_filesystem.Client.Metadata.{delete_file, get_attributes, truncate_file}
use distributed_filesystem.Client.Opening.{open_file}
use distributed_filesystem.Client.Paths.{resolve_server_path, server_key}
use distributed_filesystem.Client.Reading.{read_file}
use distributed_filesystem.Client.Sessions.{create_file-IsConsistent, open_file-IsConsistent}
use distributed_filesystem.Client.State.{Client, FileAttributes}
use distributed_filesystem.Client.Stub.{Stub}
use distributed_filesystem.Client.Subscriber.{handle_notification}
use distributed_filesystem.Client.Tables.{Covers-nil}
use distributed_filesystem.Client.Writing.{write_file}
use distributed_filesystem.Dict.{get}
use distributed_filesystem.Os.{Os}
use distributed_filesystem.Text.{Text}
use distributed_filesystem.Wire.{Notification, is_ok}

pub data Action : Type 0 where
  opens closes creates asks : Text → Text → Action
  truncates : Text → Text → ℤ → Action
  deletes : Text → Action
  reads : Text → Text → ℤ → ℤ → Action
  writes : Text → List ℕ → Text → ℕ → Action
  notices : Notification → Action

module _ {D N : Type 0} (os : Os D) (stub : Stub N) where
  unfoldable pub act : Client D × N → Action → Client D × N
  unfolding open_file close_file create_file get_attributes truncate_file delete_file read_file
      write_file handle_notification
  act (c, net) (opens filename path) =
      let (answer, c', net') = open_file os stub c net filename path in (c', net')
  act (c, net) (closes filename path) =
      let (answer, c', net') = close_file os stub c net filename path in (c', net')
  act (c, net) (creates filename path) = ((create_file os c filename path).1, net)
  act (c, net) (asks filename path) =
      let (answer, c', net') = get_attributes os stub c net filename path in (c', net')
  act (c, net) (truncates filename path size) = ((truncate_file os c filename path size).1, net)
  act (c, net) (deletes path) =
      let (answer, c', net') = delete_file os stub c net path in (c', net')
  act (c, net) (reads filename path size offset) =
      ((read_file os c filename path size offset).2, net)
  act (c, net) (writes filename content path position) =
      ((write_file os c filename content path position).1, net)
  act (c, net) (notices note) = (handle_notification c note, net)

  unfoldable pub run_client : Client D × N → List Action → Client D × N
  unfolding act
  run_client s [] = s
  run_client s (a ∷ rest) = run_client (act s a) rest

  get_attributes-IsConsistent :
      (c : Client D) (net : N) (filename path : Text)
      → IsConsistent c
      → IsConsistent (get_attributes os stub c net filename path).1
  unfolding get_attributes
  get_attributes-IsConsistent c net filename path w =
      option_ind (λ (r : Option FileAttributes × Client D × N). IsConsistent r.1)
        (get (server_key (resolve_server_path c path) filename) c.cached_attr) _ _
        (λ _.
          if_ind (λ (r : Option FileAttributes × Client D × N). IsConsistent r.1)
            (is_ok (stub.getattr net (resolve_server_path c path) filename).0) _ _
            (λ _. record { covered = w.covered }) (λ _. w))
        (λ a _. w)

  act-IsConsistent :
      (c : Client D) (net : N) (a : Action) → IsConsistent c → IsConsistent (act (c, net) a).0
  unfolding act truncate_file
  act-IsConsistent c net (opens filename path) w =
      open_file-IsConsistent os stub c net filename path w
  act-IsConsistent c net (closes filename path) w =
      close_file-IsConsistent os stub c w net filename path
  act-IsConsistent c net (creates filename path) w = create_file-IsConsistent os c w filename path
  act-IsConsistent c net (asks filename path) w = get_attributes-IsConsistent c net filename path w
  act-IsConsistent c net (truncates filename path size) w = record { covered = w.covered }
  act-IsConsistent c net (deletes path) w = delete_file-IsConsistent os stub c w net path
  act-IsConsistent c net (reads filename path size offset) w =
      read_file-IsConsistent os c w filename path size offset
  act-IsConsistent c net (writes filename content path position) w =
      write_file-IsConsistent os c w filename content path position
  act-IsConsistent c net (notices note) w = handle_notification-IsConsistent os c w note

  run_client-IsConsistent :
      (c : Client D) (net : N) (actions : List Action)
      → IsConsistent c
      → IsConsistent (run_client (c, net) actions).0
  unfolding run_client
  run_client-IsConsistent c net [] w = w
  run_client-IsConsistent c net (a ∷ rest) w =
      run_client-IsConsistent (act (c, net) a).0 (act (c, net) a).1 rest
        (act-IsConsistent c net a w)

  -- After any history of a client that has connected, in any order and whatever the disk and the
  -- network answer, every opened file is in the cache and has a mutex: the calls that find a file
  -- open never take the branches for an inconsistent state. Renames are not among the actions.
  pub run_client-connect-IsConsistent :
      (d : D) (net : N) (client_id cache_directory : Text) (uid gid : ℕ) (actions : List Action)
      → IsConsistent (run_client (connect stub d net client_id cache_directory uid gid) actions).0
  unfolding connect
  run_client-connect-IsConsistent d net client_id cache_directory uid gid actions =
      run_client-IsConsistent _ _ actions (record { covered = Covers-nil })
