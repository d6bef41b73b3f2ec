-- ===== src/Server/Stuck.antt =====
-- The second lock of `file_map_mutex` in `file_change_callback_rename`
-- (Basic_Operation/server_code/filesystem_server.cpp), and what follows once a handler waits for it.

use distributed_filesystem.Base.{
  Bool, List, [], ap, arith, false, get_elem?, none, option_ind, refl, true, ℕ, ◌∙◌, ◌∷◌, ◌≡◌,
}
use distributed_filesystem.Dict.{get}
use distributed_filesystem.Os.{Os}
use distributed_filesystem.Server.Callbacks.{
  cleanup_client, file_change_callback_close, file_change_callback_rename,
  file_change_callback_unlink,
}
use distributed_filesystem.Server.Calls.{
  Call, after_round, cancels, closes, makes_dir, opens, renames, requests_dir, run, runs_round,
  serve, subscribes, unlinks,
}
use distributed_filesystem.Server.Namespace.{announce_rename, rename_handler, unlink_handler}
use distributed_filesystem.Server.Queries.{make_directory, mkdir, request_dir}
use distributed_filesystem.Server.Queue.{Popped, closed, item, pop, waits}
use distributed_filesystem.Server.State.{Server, blocks}
use distributed_filesystem.Server.Subscribe.{
  monitor_cancel, subscribe_popped, subscribe_round, subscribe_start,
}
use distributed_filesystem.Server.Transfer.{close_handler, finish_close, open_handler}
use distributed_filesystem.Text.{Text, join_path, parent_path}
use distributed_filesystem.Wire.{FileRequest, Notification, RenameRequest}

module _ {D : Type 0} (os : Os D) where
  -- Once `file_map_mutex` is held for ever, no call gives it back.
  locked-callback_close :
      (s : Server D) (path c : Text) (n : Notification)
      → s.file_map_locked ≡ true
      → file_change_callback_close s path c n ≡ (false, s)
  unfolding file_change_callback_close
  locked-callback_close s path c n e = simp e

  locked-callback_rename :
      (s : Server D) (old_path new_path c : Text) (n : Notification)
      → s.file_map_locked ≡ true
      → file_change_callback_rename s old_path new_path c n ≡ (false, s)
  unfolding file_change_callback_rename
  locked-callback_rename s old_path new_path c n e = simp e

  locked-callback_unlink :
      (s : Server D) (path c : Text) (n : Notification)
      → s.file_map_locked ≡ true
      → file_change_callback_unlink s path c n ≡ (false, s)
  unfolding file_change_callback_unlink
  locked-callback_unlink s path c n e = simp e

  locked-request_dir :
      (s : Server D) (code c : Text)
      → (request_dir os s code c).2.file_map_locked ≡ s.file_map_locked
  unfolding request_dir
  locked-request_dir s code c = ground arith

  locked-mkdir :
      (s : Server D) (directory : Text) (mode : ℕ)
      → (mkdir os s directory mode).1.file_map_locked ≡ s.file_map_locked
  unfolding mkdir make_directory
  locked-mkdir s directory mode = ground arith

  pub locked-open_handler :
      (s : Server D) (accepts : ℕ → Bool) (request : FileRequest)
      → s.file_map_locked ≡ true
      → open_handler os accepts s request ≡ (blocks, [], s)
  unfolding open_handler
  locked-open_handler s accepts request e = simp e

  locked-close_handler :
      (s : Server D) (requests : List FileRequest)
      → s.file_map_locked ≡ true
      → (close_handler os s requests).2.file_map_locked ≡ true
  unfolding close_handler finish_close file_change_callback_close
  locked-close_handler s requests e = ground arith

  locked-rename_handler :
      (s : Server D) (request : RenameRequest)
      → s.file_map_locked ≡ true
      → (rename_handler os s request).2.file_map_locked ≡ true
  unfolding rename_handler announce_rename file_change_callback_rename
  locked-rename_handler s request e = ground arith

  locked-unlink_handler :
      (s : Server D) (directory c : Text)
      → s.file_map_locked ≡ true
      → (unlink_handler os s directory c).1.file_map_locked ≡ true
  unfolding unlink_handler file_change_callback_unlink
  locked-unlink_handler s directory c e = ground arith

  locked-cleanup_client :
      (s : Server D) (c : Text)
      → s.file_map_locked ≡ true
      → (cleanup_client s c).1.file_map_locked ≡ true
  unfolding cleanup_client
  locked-cleanup_client s c e = ground arith

  locked-popped :
      (s : Server D) (c : Text) (address : ℕ) (accepted : Bool) (p : Popped)
      → s.file_map_locked ≡ true
      → (after_round s (subscribe_popped s c address accepted p)).file_map_locked ≡ true
  unfolding subscribe_popped
  locked-popped s c address accepted waits e = e
  locked-popped s c address accepted closed e = locked-cleanup_client s c e
  locked-popped s c address true (item n q) e = e
  locked-popped s c address false (item n q) e = locked-cleanup_client _ c e

  locked-subscribe_round :
      (s : Server D) (c : Text) (address : ℕ) (accepted : Bool)
      → s.file_map_locked ≡ true
      → (after_round s (subscribe_round s c address accepted)).file_map_locked ≡ true
  unfolding subscribe_round
  locked-subscribe_round s c address accepted e =
      option_ind (λ r. (after_round s r).file_map_locked ≡ true) (get_elem? s.queues address) _ _
        (λ _. e) (λ q _. locked-popped s c address accepted (pop q) e)

  locked-serve :
      (s : Server D) (c : Call) → s.file_map_locked ≡ true → (serve os s c).file_map_locked ≡ true
  unfolding serve subscribe_start monitor_cancel
  locked-serve s (requests_dir code c) e = locked-request_dir s code c ∙ e
  locked-serve s (makes_dir directory mode) e = locked-mkdir s directory mode ∙ e
  locked-serve s (opens accepts request) e = rw (locked-open_handler s accepts request e, serve) e
  locked-serve s (closes requests) e = locked-close_handler s requests e
  locked-serve s (renames request) e = locked-rename_handler s request e
  locked-serve s (unlinks directory c) e = locked-unlink_handler s directory c e
  locked-serve s (subscribes c) e = e
  locked-serve s (runs_round c address accepted) e = locked-subscribe_round s c address accepted e
  locked-serve s (cancels address) e = e

  pub locked-run :
      (s : Server D) (calls : List Call)
      → s.file_map_locked ≡ true
      → (run os s calls).file_map_locked ≡ true
  unfolding run
  locked-run s [] e = e
  locked-run s (c ∷ cs) e = locked-run (serve os s c) cs (locked-serve s c e)

  module _ (s : Server D) (request : RenameRequest) (d e : D)
      (made : os.create_directories s.disk
          (parent_path (join_path request.new_directory request.new_filename))
        ≡ (true, d))
      (moved : os.rename d
          (join_path request.directory request.filename)
          (join_path request.new_directory request.new_filename)
        ≡ (true, e))
      (unlocked : s.file_map_locked ≡ false) where
    pub rename_handler-none :
        get (join_path request.directory request.filename) s.file_map ≡ none
        → rename_handler os s request
          ≡ (blocks, false, record s { disk = e; file_map_locked = true })
    unfolding rename_handler announce_rename file_change_callback_rename
    rename_handler-none missing = ground arith

    -- A rename that the disk has carried out, of a path for which no client is registered, never
    -- returns: its handler waits for `file_map_mutex`, which it holds. Whatever calls the server
    -- serves after that, no request to open a file ever returns either.
    pub rename_unregistered_blocks :
        get (join_path request.directory request.filename) s.file_map ≡ none
        → ((rename_handler os s request).0 ≡ blocks)
          × ((calls : List Call) (accepts : ℕ → Bool) (opening : FileRequest)
              → (open_handler os accepts (run os (rename_handler os s request).2 calls) opening).0
                ≡ blocks)
    rename_unregistered_blocks missing = rw (rename_handler-none missing) (
      refl,
      λ calls accepts opening.
          ap (λ r. r.0) (locked-open_handler _ accepts opening (locked-run _ calls refl)),
    )
