-- ===== src/System/Interleaved.antt =====
-- What holds in every state that the clients and the server of
-- Basic_Operation/client_code/filesystem_client.cpp and
-- Basic_Operation/server_code/filesystem_server.cpp reach together.

use distributed_filesystem.Base.{==_iff, if_ind, subst, ℕ, ◌==◌}
use distributed_filesystem.Client.Closing.{close_file}
use distributed_filesystem.Client.Metadata.{make_directory}
use distributed_filesystem.Client.Fewer.{
  Fewer, close_file-Fewer, get_attributes-Fewer, handle_notification-Fewer, read_file-Fewer,
  truncate_file-Fewer, write_file-Fewer,
}
use distributed_filesystem.Client.Paths.{resolve_server_path}
use distributed_filesystem.Client.State.{Client}
use distributed_filesystem.Client.Subscriber.{handle_notification}
use distributed_filesystem.Os.{Os}
use distributed_filesystem.Server.State.{Server}
use distributed_filesystem.Server.WellFormed.{IsWellFormed}
use distributed_filesystem.System.Closed.{close_file-Grows}
use distributed_filesystem.System.Growth.{
  Grows, Grows-refl, mkdir-Grows, subscribe_round-Grows, subscribe_start-Grows,
}
use distributed_filesystem.System.Network.{server_stub}
use distributed_filesystem.System.Opened.{open_file-Keeps}
use distributed_filesystem.System.Registered.{Registered, Registered-Fewer, Registered-Grows}
use distributed_filesystem.System.World.{
  World, Step, Reach, place, here, next, opens, closes, reads, writes, truncates, asks, makes_dir,
  subscribes, delivers,
}
use distributed_filesystem.Text.{Text}

-- Every client is registered for its cache.
pub record AllRegistered {DC DS : Type 0} (names directories roots : ℕ → Text) (w : World DC DS)
    : Type 0 where
  pub formed : IsWellFormed w.server
  pub each : (i : ℕ) → Registered (names i) (directories i) (roots i) (w.clients i) w.server

module _ {DC DS : Type 0} (os_c : Os DC) (os : Os DS) (names directories roots : ℕ → Text) where
  abbrev Holds : World DC DS → Type 0
  Holds w = AllRegistered names directories roots w

  -- One client has changed, and the server has grown.
  place-AllRegistered :
      (w : World DC DS) (i : ℕ) (c : Client DC) (s : Server DS)
      → Holds w
      → Registered (names i) (directories i) (roots i) c s
      → Grows w.server s
      → Holds (place w i c s)
  place-AllRegistered w i c s h mine g = record {
    formed = g.formed h.formed;
    each = λ j.
        if_ind (λ d. Registered (names j) (directories j) (roots j) d s) (i == j) _ _
          (λ e.
            subst (λ k. Registered (names k) (directories k) (roots k) c s) ((==_iff i j).0 e) mine)
          (λ _.
            Registered-Grows (names j) (directories j) (roots j) (w.clients j) w.server s g
              (h.each j));
  }

  -- A call that leaves the server alone and puts nothing into the cache.
  stay_registered :
      (w : World DC DS) (i : ℕ) (c : Client DC)
      → Holds w
      → Fewer (w.clients i) c
      → Holds (place w i c w.server)
  stay_registered w i c h f =
      place-AllRegistered w i c w.server h
        (Registered-Fewer (names i) (directories i) (roots i) (w.clients i) c w.server f (h.each i))
        (Grows-refl w.server)

  -- A call that changes only the server.
  grown_here :
      (w : World DC DS) (i : ℕ) (s : Server DS)
      → Holds w
      → Grows w.server s
      → Holds (place w i (w.clients i) s)
  grown_here w i s h g =
      place-AllRegistered w i (w.clients i) s h
        (Registered-Grows (names i) (directories i) (roots i) (w.clients i) w.server s g (h.each i))
        g

  make_directory-Grows :
      (c : Client DC) (s : Server DS) (directory : Text) (mode : ℕ)
      → Grows s (make_directory os_c (server_stub os) c s directory mode).1
  unfolding make_directory server_stub
  make_directory-Grows c s directory mode = mkdir-Grows os s (resolve_server_path c directory) mode

  Step-AllRegistered : {w v : World DC DS} → Step os_c os w v → Holds w → Holds v
  Step-AllRegistered {w} (opens i filename path) h =
      let (mine, g) =
        open_file-Keeps os_c os (names i) (directories i) (roots i) w.server (w.clients i) w.server
          filename path (h.each i, Grows-refl w.server) in
      place-AllRegistered w i _ _ h mine g
  Step-AllRegistered {w} (closes i filename path) h =
      let (done, c, s) = close_file os_c (server_stub os) (w.clients i) w.server filename path in
      let g = close_file-Grows os_c os (w.clients i) w.server filename path in
      place-AllRegistered w i c s h
        (Registered-Grows (names i) (directories i) (roots i) c w.server s g (
          Registered-Fewer (names i) (directories i) (roots i) (w.clients i) c w.server
            (close_file-Fewer os_c (server_stub os) (w.clients i) w.server filename path)
            (h.each i)))
        g
  Step-AllRegistered {w} (reads i filename path size offset) h =
      stay_registered w i _ h (read_file-Fewer os_c (w.clients i) filename path size offset)
  Step-AllRegistered {w} (writes i filename content path position) h =
      stay_registered w i _ h (write_file-Fewer os_c (w.clients i) filename content path position)
  Step-AllRegistered {w} (truncates i filename path size) h =
      stay_registered w i _ h (truncate_file-Fewer os_c (w.clients i) filename path size)
  Step-AllRegistered {w} (asks i filename path) h =
      stay_registered w i _ h
        (get_attributes-Fewer os_c (server_stub os) (w.clients i) w.server filename path)
  Step-AllRegistered {w} (makes_dir i directory mode) h =
      grown_here w i _ h (make_directory-Grows (w.clients i) w.server directory mode)
  Step-AllRegistered {w} (subscribes i) h =
      grown_here w i _ h (subscribe_start-Grows os w.server (w.clients i).client_id)
  Step-AllRegistered {w} (delivers i address n s e f) h =
      let g = subscribe_round-Grows w.server (w.clients i).client_id address os s n f in
      let c = handle_notification (w.clients i) n in
      place-AllRegistered w i c s h
        (Registered-Grows (names i) (directories i) (roots i) c w.server s g (
          Registered-Fewer (names i) (directories i) (roots i) (w.clients i) c w.server
            (handle_notification-Fewer (w.clients i) n) (h.each i)))
        g

  pub Reach-AllRegistered : {w v : World DC DS} → Reach os_c os w v → Holds w → Holds v
  Reach-AllRegistered here h = h
  Reach-AllRegistered (next r st) h = Step-AllRegistered st (Reach-AllRegistered r h)
