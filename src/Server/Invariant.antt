-- ===== src/Server/Invariant.antt =====
-- Every call keeps the server's tables well formed.

use distributed_filesystem.Base.{
  Bool, List, Option, [], get_elem?, if_ind, if◌then◌else◌, length-modify, none, option_ind, refl,
  some, subst, sym, ℕ, ◌∷◌, ◌≡◌,
}
use distributed_filesystem.Os.{Os, RemoveResult, absent, denied, no_such_file, other_error, removed}
use distributed_filesystem.Server.Callbacks.{
  file_change_callback_close, file_change_callback_rename, file_change_callback_unlink,
}
use distributed_filesystem.Server.Calls.{
  Call, after_round, cancels, closes, makes_dir, opens, renames, requests_dir, run, runs_round,
  serve, subscribes, unlinks,
}
use distributed_filesystem.Server.Namespace.{
  announce_rename, delete_notification, rename_handler, rename_notification, unlink_handler,
}
use distributed_filesystem.Server.Queries.{get_file_timestamp}
use distributed_filesystem.Server.Queue.{Popped, cancel, closed, item, pop, waits}
use distributed_filesystem.Server.State.{Ending, Server, blocks, new_server, returns}
use distributed_filesystem.Server.Steady.{
  Leaves, Replies, callback_close-IsWellFormed, callback_rename-IsWellFormed,
  callback_unlink-IsWellFormed, cleanup_client-IsWellFormed, mkdir-IsWellFormed,
  request_dir-IsWellFormed, requeued-IsWellFormed, subscribe_start-IsWellFormed, with_disk,
}
use distributed_filesystem.Server.Subscribe.{monitor_cancel, subscribe_popped, subscribe_round}
use distributed_filesystem.Server.Transfer.{
  Round, Upload, close_handler, finish_close, goes_on, open_handler, receive, register, send_file,
  start_upload, stops, update_notification,
}
use distributed_filesystem.Server.WellFormed.{
  HasOwnQueues-empty, IsWellFormed, leave-IsWatchMap, register-IsWatchMap,
}
use distributed_filesystem.Text.{Text, is_empty, join_path, parent_path}
use distributed_filesystem.Wire.{FileRequest, RenameRequest, StatusCode}

pub send_file-state :
    {D : Type 0} (os : Os D) (accepts : ℕ → Bool) (t : Server D) (path : Text) (o : Option ℕ)
    → (send_file os accepts t path o).2 ≡ t
unfolding send_file
send_file-state os accepts t path none = refl
send_file-state os accepts t path (some handle) = refl

module _ {D : Type 0} where
  module _ (s : Server D) (w : IsWellFormed s) (os : Os D) where
    opened-IsWellFormed :
        (path c : Text)
        → IsWellFormed (record s {
          file_map = register path c s.file_map;
          file_map_open = register path c s.file_map_open;
        })
    opened-IsWellFormed path c = record {
      watchers = register-IsWatchMap path c s.file_map w.watchers;
      openers = register-IsWatchMap path c s.file_map_open w.openers;
      clients = w.clients;
      own_queues = w.own_queues;
    }

    open_handler-IsWellFormed :
        (accepts : ℕ → Bool) (request : FileRequest)
        → IsWellFormed (open_handler os accepts s request).2
    unfolding open_handler
    open_handler-IsWellFormed accepts request =
        if_ind Replies s.file_map_locked _ _ (λ _. w)
          λ _. subst IsWellFormed (sym (send_file-state os accepts _ _ _)) (opened-IsWellFormed _ _)

    finish_close-IsWellFormed : (u : Upload D) → IsWellFormed (finish_close os s u).2
    unfolding finish_close
    finish_close-IsWellFormed u =
        let n = update_notification u.path (get_file_timestamp os u.disk u.path) in
        let w' = callback_close-IsWellFormed s w u.path u.client_id n in
        if_ind Replies (is_empty u.path) _ _ (λ _. w)
          λ _.
            if_ind Replies (file_change_callback_close s u.path u.client_id n).0 _ _
              (λ _. record {
                watchers = w'.watchers;
                openers = leave-IsWatchMap u.path u.client_id _ w'.openers;
                clients = w'.clients;
                own_queues = w'.own_queues;
              })
              (λ _. w')

    announce_rename-IsWellFormed :
        (old_path new_path c : Text) → IsWellFormed (announce_rename os s old_path new_path c).2
    unfolding announce_rename
    announce_rename-IsWellFormed old_path new_path c =
        let n = rename_notification old_path new_path (get_file_timestamp os s.disk new_path) in
        let w' = callback_rename-IsWellFormed s w old_path new_path c n in
        if_ind Replies (file_change_callback_rename s old_path new_path c n).0 _ _ (λ _. w')
          (λ _. w')

    unlink_handler-IsWellFormed :
        (directory c : Text) → IsWellFormed (unlink_handler os s directory c).1
    unfolding unlink_handler
    unlink_handler-IsWellFormed directory c =
        go (os.remove s.disk directory).0 (record s { disk = (os.remove s.disk directory).1 })
          (with_disk s w _)
      where
        go :
            (result : RemoveResult) (t : Server D)
            → IsWellFormed t
            → Leaves {A = Ending} {D = D} (elim result [
              | removed ↦
                  let (returned, t') =
                    file_change_callback_unlink t directory c (delete_notification directory) in
                  (if returned then returns StatusCode.ok else blocks, t')
              | absent ↦ (returns StatusCode.not_found, t)
              | denied ↦ (returns StatusCode.permission_denied, t)
              | no_such_file ↦ (returns StatusCode.not_found, t)
              | other_error ↦ (returns StatusCode.ok, t)
            ])
        go removed t v = callback_unlink-IsWellFormed t v directory c _
        go absent t v = v
        go denied t v = v
        go no_such_file t v = v
        go other_error t v = v

  module _ (os : Os D) (s : Server D) (w : IsWellFormed s) where
    close_handler-IsWellFormed :
        (requests : List FileRequest) → IsWellFormed (close_handler os s requests).2
    unfolding close_handler
    close_handler-IsWellFormed requests = go (receive os (start_upload s.disk) requests)
      where
        go :
            (r : Round D)
            → Replies {A = Ending} {B = ℕ} {D = D} (elim r [
              | stops ending d ↦ (ending, 0, record s { disk = d })
              | goes_on u ↦ finish_close os (record s { disk = u.disk }) u
            ])
        go (goes_on u) = finish_close-IsWellFormed _ (with_disk s w u.disk) os u
        go (stops ending d) = with_disk s w d

    rename_handler-IsWellFormed :
        (request : RenameRequest) → IsWellFormed (rename_handler os s request).2
    unfolding rename_handler
    rename_handler-IsWellFormed request =
        let old_path = join_path request.directory request.filename in
        let new_path = join_path request.new_directory request.new_filename in
        let made = os.create_directories s.disk (parent_path new_path) in
        let moved = os.rename made.1 old_path new_path in
        if_ind Replies made.0 _ _
          (λ _.
            if_ind Replies moved.0 _ _
              (λ _. announce_rename-IsWellFormed _ (with_disk s w moved.1) os old_path new_path _)
              (λ _. with_disk s w _))
          (λ _. with_disk s w _)

    subscribe_round-IsWellFormed :
        (c : Text) (address : ℕ) (accepted : Bool)
        → IsWellFormed (after_round s (subscribe_round s c address accepted))
    unfolding subscribe_round
    subscribe_round-IsWellFormed c address accepted =
        option_ind (λ r. IsWellFormed (after_round s r)) (get_elem? s.queues address) _ _ (λ _. w)
          (λ q _. popped (pop q))
      where
        popped :
            (p : Popped) → IsWellFormed (after_round s (subscribe_popped s c address accepted p))
        popped waits = w
        popped closed = cleanup_client-IsWellFormed s w c
        popped (item n q) =
            let v = requeued-IsWellFormed s w _ (length-modify (λ _. q) address s.queues) in
            if_ind (λ r. IsWellFormed (after_round s r)) accepted _ _ (λ _. v)
              (λ _. cleanup_client-IsWellFormed _ v c)

    pub serve-IsWellFormed : (c : Call) → IsWellFormed (serve os s c)
    unfolding serve monitor_cancel
    serve-IsWellFormed (requests_dir code c) = request_dir-IsWellFormed s w os code c
    serve-IsWellFormed (makes_dir directory mode) = mkdir-IsWellFormed s w os directory mode
    serve-IsWellFormed (opens accepts request) = open_handler-IsWellFormed s w os accepts request
    serve-IsWellFormed (closes requests) = close_handler-IsWellFormed requests
    serve-IsWellFormed (renames request) = rename_handler-IsWellFormed request
    serve-IsWellFormed (unlinks directory c) = unlink_handler-IsWellFormed s w os directory c
    serve-IsWellFormed (subscribes c) = subscribe_start-IsWellFormed s w c
    serve-IsWellFormed (runs_round c address accepted) =
        subscribe_round-IsWellFormed c address accepted
    serve-IsWellFormed (cancels address) =
        requeued-IsWellFormed s w _ (length-modify cancel address s.queues)

module _ {D : Type 0} (os : Os D) where
  pub run-IsWellFormed :
      (s : Server D) (calls : List Call) → IsWellFormed s → IsWellFormed (run os s calls)
  unfolding run
  run-IsWellFormed s [] w = w
  run-IsWellFormed s (c ∷ cs) w = run-IsWellFormed (serve os s c) cs (serve-IsWellFormed os s w c)

  new_server-IsWellFormed : (d : D) (root : Text) → IsWellFormed (new_server d root)
  unfolding new_server
  new_server-IsWellFormed d root = record {
    watchers = (tt, tt);
    openers = (tt, tt);
    clients = tt;
    own_queues = HasOwnQueues-empty;
  }

  -- After any history of calls, in any order, the server's tables are well formed: in `file_map` and
  -- `file_map_open` every path stands once, with a set of clients that is not empty and names nobody
  -- twice; `clients_db` names nobody twice; and the queues of different subscribers are different
  -- queues that exist.
  pub run-new_server-IsWellFormed :
      (d : D) (root : Text) (calls : List Call) → IsWellFormed (run os (new_server d root) calls)
  run-new_server-IsWellFormed d root calls =
      run-IsWellFormed _ calls (new_server-IsWellFormed d root)
