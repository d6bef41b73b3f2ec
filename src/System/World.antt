-- ===== src/System/World.antt =====
-- One server and its clients, whose calls and notifications interleave in any order: the calls of
-- Basic_Operation/client_code/filesystem_client.cpp over the handlers of
-- Basic_Operation/server_code/filesystem_server.cpp, and the stream of
-- Basic_Operation/server_code/subscriber_handler.hpp to Basic_Operation/client_code/client_subscriber.hpp.

use distributed_filesystem.Base.{List, [], false, if◌then◌else◌, some, true, ℕ, ℤ, ◌==◌, ◌∷◌, ◌≡◌}
use distributed_filesystem.Client.Closing.{close_file}
use distributed_filesystem.Client.Metadata.{make_directory, get_attributes, truncate_file}
use distributed_filesystem.Client.Opening.{open_file}
use distributed_filesystem.Client.Reading.{read_file}
use distributed_filesystem.Client.State.{Client}
use distributed_filesystem.Client.Subscriber.{handle_notification}
use distributed_filesystem.Client.Writing.{write_file}
use distributed_filesystem.Dict.{get}
use distributed_filesystem.Os.{Os}
use distributed_filesystem.Server.State.{Server}
use distributed_filesystem.Server.Subscribe.{subscribe_round, subscribe_start, wrote}
use distributed_filesystem.Server.WellFormed.{IsWellFormed}
use distributed_filesystem.System.Network.{server_stub}
use distributed_filesystem.Text.{Text}
use distributed_filesystem.Wire.{Notification}

pub record World (DC DS : Type 0) : Type 0 where
  pub clients : ℕ → Client DC
  pub server : Server DS

-- The client `i` and the server have changed.
abbrev pub place : {DC DS : Type 0} → World DC DS → ℕ → Client DC → Server DS → World DC DS
place w i c s = record { clients = λ j. if i == j then c else w.clients j; server = s }

-- The same after a call with an answer.
abbrev pub answered : {A DC DS : Type 0} → World DC DS → ℕ → A × Client DC × Server DS → World DC DS
answered w i (answer, c, s) = place w i c s

-- A step is a whole call of a client, the start of its subscription, or the delivery of the first
-- notification in its queue. Calls that create, remove or rename are not among the steps: they put
-- files into the cache for which the server registers nobody, or take registrations away.
pub data Step {DC DS : Type 0} (os_c : Os DC) (os : Os DS) (w : World DC DS)
    : World DC DS → Type 0 where
  opens :
      (i : ℕ) (filename path : Text)
      → Step os_c os w
          (answered w i (open_file os_c (server_stub os) (w.clients i) w.server filename path))
  closes :
      (i : ℕ) (filename path : Text)
      → Step os_c os w
          (answered w i (close_file os_c (server_stub os) (w.clients i) w.server filename path))
  reads :
      (i : ℕ) (filename path : Text) (size offset : ℤ)
      → Step os_c os w
          (place w i (read_file os_c (w.clients i) filename path size offset).2 w.server)
  writes :
      (i : ℕ) (filename : Text) (content : List ℕ) (path : Text) (position : ℕ)
      → Step os_c os w
          (place w i (write_file os_c (w.clients i) filename content path position).1 w.server)
  truncates :
      (i : ℕ) (filename path : Text) (size : ℤ)
      → Step os_c os w (place w i (truncate_file os_c (w.clients i) filename path size).1 w.server)
  asks :
      (i : ℕ) (filename path : Text)
      → Step os_c os w (
          place w i
            (get_attributes os_c (server_stub os) (w.clients i) w.server filename path).1
            w.server)
  makes_dir :
      (i : ℕ) (directory : Text) (mode : ℕ)
      → Step os_c os w (
          place w i
            (w.clients i)
            (make_directory os_c (server_stub os) (w.clients i) w.server directory mode).1)
  subscribes :
      (i : ℕ)
      → Step os_c os w
          (place w i (w.clients i) (subscribe_start w.server (w.clients i).client_id).1)
  delivers :
      (i address : ℕ) (n : Notification) (s : Server DS)
      → get (w.clients i).client_id w.server.subscribers ≡ some address
      → subscribe_round w.server (w.clients i).client_id address true ≡ wrote n s
      → Step os_c os w (place w i (handle_notification (w.clients i) n) s)

pub data Reach {DC DS : Type 0} (os_c : Os DC) (os : Os DS) (w : World DC DS)
    : World DC DS → Type 0 where
  here : Reach os_c os w w
  next : {v u : World DC DS} → Reach os_c os w v → Step os_c os v u → Reach os_c os w u

-- Clients that have connected, and have nothing cached yet, with the root of the server absolute;
-- and a server of any past whose `file_map_mutex` is free.
pub record IsFresh {DC DS : Type 0} (w : World DC DS) : Type 0 where
  pub formed : IsWellFormed w.server
  pub unlocked : w.server.file_map_locked ≡ false
  pub root : ℕ → Text
  pub rooted : (i : ℕ) → (w.clients i).server_root_path ≡ b'/' ∷ root i
  pub uncached : (i : ℕ) → (w.clients i).cache ≡ []
