-- ===== src/System/Growth.antt =====
-- What the handlers of Basic_Operation/server_code/filesystem_server.cpp that rename and remove
-- nothing leave in `file_map`: every registration that was there.

use distributed_filesystem.Base.{
  Bool, List, Option, [], ap, arith, false, get_elem?, if_ind, if◌then◌else◌, none, option_ind,
  refl, some, subst, sym, true, ℕ, ◌||◌, ◌∙◌, ◌≡◌,
}
use distributed_filesystem.Dict.{Dict, get}
use distributed_filesystem.Members.{contains-insert, insert}
use distributed_filesystem.Os.{Os}
use distributed_filesystem.Server.Callbacks.{file_change_callback_close}
use distributed_filesystem.Server.Calls.{Call, after_round, serve}
use distributed_filesystem.Server.Invariant.{send_file-state, serve-IsWellFormed}
use distributed_filesystem.Server.Queries.{get_file_timestamp, mkdir}
use distributed_filesystem.Server.Queue.{NotificationQueue, Popped, closed, item, pop, waits}
use distributed_filesystem.Server.State.{Ending, Server, clients_at}
use distributed_filesystem.Server.Subscribe.{
  sleeps, subscribe_popped, subscribe_round, subscribe_start, wrote,
}
use distributed_filesystem.Server.Transfer.{
  goes_on, stops, Round as Receiving, Upload, close_handler, finish_close, open_handler, receive,
  register, start_upload, update_notification,
}
use distributed_filesystem.Server.Watches.{watches, watches-none, watches-put}
use distributed_filesystem.Server.WellFormed.{IsWellFormed}
use distributed_filesystem.Text.{Text, is_empty, join_path, text_eq, text_eq_iff, text_eq_refl}
use distributed_filesystem.Wire.{FileRequest, FileResponse, Notification}

pub record Grows {D : Type 0} (s t : Server D) : Type 0 where
  pub unlocked : s.file_map_locked ≡ false → t.file_map_locked ≡ false
  pub keeps : (p k : Text) → watches s.file_map p k ≡ true → watches t.file_map p k ≡ true
  pub formed : IsWellFormed s → IsWellFormed t

pub Grows-refl : {D : Type 0} (s : Server D) → Grows s s
Grows-refl s = record { unlocked = λ h. h; keeps = λ p k h. h; formed = λ w. w }

pub Grows-trans : {D : Type 0} {s t u : Server D} → Grows s t → Grows t u → Grows s u
Grows-trans g h = record {
  unlocked = λ e. h.unlocked (g.unlocked e);
  keeps = λ p k e. h.keeps p k (g.keeps p k e);
  formed = λ w. h.formed (g.formed w);
}

-- What is said of the map alone.
abbrev MapGrows : {D : Type 0} → Server D → Server D → Type 0
MapGrows s t =
    (t.file_map_locked ≡ s.file_map_locked)
    × ((p k : Text) → watches s.file_map p k ≡ true → watches t.file_map p k ≡ true)

MapGrows-Grows :
    {D : Type 0} (s t : Server D) → MapGrows s t → (IsWellFormed s → IsWellFormed t) → Grows s t
MapGrows-Grows s t (e, f) formed = record { unlocked = λ h. e ∙ h; keeps = f; formed = formed }

watches-register :
    (path id p k : Text) (m : Dict (List Text))
    → watches (register path id m) p k
      ≡ (if text_eq path p then text_eq id k || watches m path k else watches m p k)
unfolding register watches
watches-register path id p k m =
    watches-put path p k (insert id (clients_at m path)) m
    ∙ rw (contains-insert id k (clients_at m path)) refl

registered_keeps :
    (path id p k : Text) (m : Dict (List Text))
    → watches m p k ≡ true
    → watches (register path id m) p k ≡ true
registered_keeps path id p k m h =
    watches-register path id p k m ∙ ground (arith, text_eq_iff path p)

registered_self :
    (path id : Text) (m : Dict (List Text)) → watches (register path id m) path id ≡ true
registered_self path id m =
    watches-register path id path id m ∙ rw (text_eq_refl path, text_eq_refl id) refl

module _ {D : Type 0} (os : Os D) (s : Server D) where
  abbrev opened_by : FileRequest → Server D
  opened_by request = record s {
    file_map = register (join_path request.directory request.filename) request.client_id s.file_map;
    file_map_open =
        register (join_path request.directory request.filename) request.client_id s.file_map_open;
  }

  open_handler-unlocked :
      (request : FileRequest)
      → s.file_map_locked ≡ false
      → (open_handler os (λ _. true) s request).2 ≡ opened_by request
  unfolding open_handler
  open_handler-unlocked request e =
      if_ind (λ (r : Ending × List FileResponse × Server D). r.2 ≡ opened_by request)
        s.file_map_locked _ _ (λ h. absurd (ground arith))
        (λ _. send_file-state os (λ _. true) (opened_by request) _ _)

  -- The client that opens a path is registered for it.
  pub open_handler-watches :
      (request : FileRequest)
      → s.file_map_locked ≡ false
      → watches
          (open_handler os (λ _. true) s request).2.file_map
          (join_path request.directory request.filename)
          request.client_id
        ≡ true
  open_handler-watches request e =
      ap (λ t. watches t.file_map (join_path request.directory request.filename) request.client_id)
        (open_handler-unlocked request e)
      ∙ registered_self (join_path request.directory request.filename) request.client_id s.file_map

  pub open_handler-Grows :
      (request : FileRequest) → Grows s (open_handler os (λ _. true) s request).2
  unfolding open_handler
  open_handler-Grows request =
      MapGrows-Grows s (open_handler os (λ _. true) s request).2
        (if_ind (λ (r : Ending × List FileResponse × Server D). MapGrows s r.2) s.file_map_locked _
          _ (λ _. (refl, λ p k h. h))
          (λ _.
            subst (MapGrows s) (sym (send_file-state os (λ _. true) (opened_by request) _ _))
              (refl, λ p k h. registered_keeps _ request.client_id p k s.file_map h)))
        (λ w. unfold serve in serve-IsWellFormed os s w (Call.opens (λ _. true) request))

callback_close-MapGrows :
    {D : Type 0} (s : Server D) (path id : Text) (n : Notification)
    → MapGrows s (file_change_callback_close s path id n).1
unfolding file_change_callback_close
callback_close-MapGrows {D} s path id n =
    if_ind (λ (r : Bool × Server D). MapGrows s r.1) s.file_map_locked _ _ (λ _. (refl, λ p k h. h))
      (λ _.
        option_ind (λ (r : Bool × Server D). MapGrows s r.1) (get path s.file_map) _ _
          (λ e. (
            refl,
            λ p k h.
                watches-put path p k (insert id []) s.file_map
                ∙ ground (arith, text_eq_iff path p, watches-none s.file_map path k e),
          ))
          (λ clients _. (refl, λ p k h. h)))

module _ {D : Type 0} (os : Os D) where
  finish_close-MapGrows : (s : Server D) (u : Upload D) → MapGrows s (finish_close os s u).2
  unfolding finish_close
  finish_close-MapGrows s u =
      let n = update_notification u.path (get_file_timestamp os u.disk u.path) in
      let grown = callback_close-MapGrows s u.path u.client_id n in
      if_ind (λ (r : Ending × ℕ × Server D). MapGrows s r.2) (is_empty u.path) _ _
        (λ _. (refl, λ p k h. h))
        (λ _.
          if_ind (λ (r : Ending × ℕ × Server D). MapGrows s r.2)
            (file_change_callback_close s u.path u.client_id n).0 _ _ (λ _. grown) (λ _. grown))

  pub close_handler-Grows :
      (s : Server D) (requests : List FileRequest) → Grows s (close_handler os s requests).2
  unfolding close_handler
  close_handler-Grows s requests =
      MapGrows-Grows s (close_handler os s requests).2
        (received (receive os (start_upload s.disk) requests))
        (λ w. unfold serve in serve-IsWellFormed os s w (Call.closes requests))
    where
      received :
          (r : Receiving D)
          → let t : Ending × ℕ × Server D = elim r [
            | stops ending d ↦ (ending, 0, record s { disk = d })
            | goes_on u ↦ finish_close os (record s { disk = u.disk }) u
          ] in
            MapGrows s t.2
      received (goes_on u) = finish_close-MapGrows (record s { disk = u.disk }) u
      received (stops ending d) = (refl, λ p k h. h)

  mkdir_map :
      (s : Server D) (directory : Text) (mode : ℕ)
      → let t = (mkdir os s directory mode).1 in
        (t.file_map_locked ≡ s.file_map_locked) × (t.file_map ≡ s.file_map)
  unfolding mkdir
  mkdir_map s directory mode = ground arith

  pub mkdir-Grows :
      (s : Server D) (directory : Text) (mode : ℕ) → Grows s (mkdir os s directory mode).1
  mkdir-Grows s directory mode =
      MapGrows-Grows s (mkdir os s directory mode).1
        (let (e, f) = mkdir_map s directory mode in (e, λ p k h. ap (λ m. watches m p k) f ∙ h))
        (λ w. unfold serve in serve-IsWellFormed os s w (Call.makes_dir directory mode))

pub subscribe_start-Grows :
    {D : Type 0} (os : Os D) (s : Server D) (id : Text) → Grows s (subscribe_start s id).1
unfolding subscribe_start
subscribe_start-Grows os s id =
    MapGrows-Grows s (subscribe_start s id).1 (refl, λ p k h. h)
      (λ w. unfold serve in serve-IsWellFormed os s w (Call.subscribes id))

module _ {D : Type 0} (s : Server D) (id : Text) (address : ℕ) where
  -- A round that writes a notification changes only the queue.
  written_round :
      (t : Server D) (n : Notification) (p : Popped)
      → subscribe_popped s id address true p ≡ wrote n t
      → MapGrows s t
  unfolding subscribe_popped
  written_round t n waits e = absurd (ground arith)
  written_round t n closed e = absurd (ground arith)
  written_round t n (item m q) e = subst (MapGrows s) (ap (after_round s) e) (refl, λ p k h. h)

  pub subscribe_round-Grows :
      (os : Os D) (t : Server D) (n : Notification)
      → subscribe_round s id address true ≡ wrote n t
      → Grows s t
  unfolding subscribe_round
  subscribe_round-Grows os t n e = MapGrows-Grows s t (found (get_elem? s.queues address) e) (λ w.
      subst IsWellFormed (ap (after_round s) e)
        (unfold serve in serve-IsWellFormed os s w (Call.runs_round id address true)))
    where
      found :
          (o : Option NotificationQueue)
          → elim o [ none ↦ sleeps | some q ↦ subscribe_popped s id address true (pop q) ]
            ≡ wrote n t
          → MapGrows s t
      found none e = absurd (ground arith)
      found (some q) e = written_round t n (pop q) e
