-- ===== src/Server/Publish.antt =====
-- What one client's upload does to the server's tables and to the other clients: `FileSystem::close`
-- of Basic_Operation/server_code/filesystem_server.cpp, from its first message to its reply.

use distributed_filesystem.Base.{
  List, Option-cases, [], false, if◌then◌else◌, inl, inr, map, none, not, refl, some, subst, true,
  ℕ, ◌&&◌, ◌∷◌, ◌≡◌,
}
use distributed_filesystem.Dict.{get, get-AllValues, get-put_self}
use distributed_filesystem.Members.{contains, insert}
use distributed_filesystem.Os.{Os}
use distributed_filesystem.Server.Callbacks.{file_change_callback_close}
use distributed_filesystem.Server.Inbox.{
  callback_close-none, callback_close-some, inbox, inbox-notified, told,
}
use distributed_filesystem.Server.Queries.{get_file_timestamp}
use distributed_filesystem.Server.State.{Ending, Server, returns}
use distributed_filesystem.Server.Steady.{with_disk}
use distributed_filesystem.Server.Transfer.{
  Upload, close_handler, finish_close, leave, update_notification,
}
use distributed_filesystem.Server.Upload.{
  is_empty-join_path, names-upload, receive-start_upload, upload_opened, upload_request, uploaded,
}
use distributed_filesystem.Server.Watches.{watches, watches-leave, watches-none, watches-some}
use distributed_filesystem.Server.WellFormed.{IsClientSet, IsWellFormed}
use distributed_filesystem.Text.{Text, is_empty, join_path, parent_path, text_eq}
use distributed_filesystem.Wire.{FileRequest, StatusCode}

-- A finished upload: the reply is OK; every other client that is registered for the path and has
-- subscribed has the notification at the end of its inbox, and all else have their inbox as it was;
-- the path keeps its clients, or gets the uploader if it had none; and the uploader no longer has it
-- open.
abbrev pub IsPublished : {D : Type 0} → Server D → Text → Text → Ending × ℕ × Server D → Type 0
IsPublished s path client_id (ending, timestamp, t) =
    (ending ≡ returns StatusCode.ok)
    × ((k : Text)
        → inbox t k ≡ (
            if watches s.file_map path k && not (text_eq k client_id)
            then told (update_notification path timestamp) (inbox s k)
            else inbox s k))
    × (get path t.file_map
        ≡ some (elim (get path s.file_map) [ none ↦ client_id ∷ [] | some clients ↦ clients ]))
    × (watches t.file_map_open path client_id ≡ false)

module _ {D : Type 0} (os : Os D) where
  -- `close` after its loop, where the callback returns.
  finish_close_lem :
      (s t : Server D) (u : Upload D)
      → is_empty u.path ≡ false
      → file_change_callback_close s u.path u.client_id
          (update_notification u.path (get_file_timestamp os u.disk u.path))
        ≡ (true, t)
      → finish_close os s u ≡ (
        returns StatusCode.ok,
        get_file_timestamp os u.disk u.path,
        record t { file_map_open = leave u.path u.client_id t.file_map_open },
      )
  unfolding finish_close
  finish_close_lem s t u e f = rw (e, f, finish_close)

  IsPublished-finish_close :
      (s : Server D) (u : Upload D)
      → IsWellFormed s
      → s.file_map_locked ≡ false
      → is_empty u.path ≡ false
      → IsPublished s u.path u.client_id (finish_close os s u)
  unfolding inbox insert contains
  IsPublished-finish_close s u w unlocked e =
      let ts = get_file_timestamp os u.disk u.path in
      let n = update_notification u.path ts in
      elim (Option-cases (get u.path s.file_map)) [
        | inl f ↦
            rw
              (
                finish_close_lem s _ u e (callback_close-none s w unlocked u.path u.client_id n f),
                f,
              )
              (
                refl,
                λ k. rw (watches-none s.file_map u.path k f),
                get-put_self u.path _ s.file_map,
                watches-leave u.path u.client_id s.file_map_open,
              )
        | inr (clients, f) ↦
            rw
              (
                finish_close_lem s _ u e
                    (callback_close-some s w unlocked u.path u.client_id n clients f),
                f,
              )
              (
                refl,
                λ k. rw (watches-some s.file_map u.path k clients f) (
                    inbox-notified s w u.client_id n clients k
                      (get-AllValues IsClientSet u.path clients s.file_map w.watchers.1 f).1),
                refl,
                watches-leave u.path u.client_id s.file_map_open,
              )
      ]

  module _ (directory filename client_id : Text) (named : is_empty filename ≡ false) where
    abbrev path_of : Text
    path_of = join_path directory filename

    abbrev messages : List (List ℕ) → List FileRequest
    messages = map (upload_request directory filename client_id)

    module _ (s : Server D) (w : IsWellFormed s) (unlocked : s.file_map_locked ≡ false) (d₁ d₂ : D)
        (h : ℕ) (made : os.create_directories s.disk (parent_path path_of) ≡ (true, d₁))
        (opened : os.open_trunc d₁ path_of ≡ (some h, d₂)) (c : List ℕ) (cs : List (List ℕ)) where
      abbrev after_loop : Upload D
      after_loop =
          uploaded os directory filename client_id named
            (upload_opened os directory filename client_id named d₂ h) (c ∷ cs)

      close_handler-messages :
          close_handler os s (messages (c ∷ cs))
          ≡ finish_close os (record s { disk = after_loop.disk }) after_loop
      unfolding close_handler
      close_handler-messages = rw (
        receive-start_upload os directory filename client_id named s.disk d₁ d₂ h made opened c cs,
        close_handler,
      )

      -- An upload of a file by one client in one or more messages, whose folder can be made and whose
      -- file can be opened for writing while `file_map_mutex` is free, is published: the reply is OK;
      -- of the other clients that are registered for the path, exactly those that have subscribed have
      -- one UPDATE with the path and the replied time added to their inbox, and no other inbox
      -- changes; the path keeps its registered clients, or gets the uploader if it had none; and the
      -- uploader no longer counts as having it open.
      pub close_handler-IsPublished :
          IsPublished s path_of client_id (close_handler os s (messages (c ∷ cs)))
      unfolding inbox
      close_handler-IsPublished =
          let names =
            names-upload os directory filename client_id named s.disk d₁ d₂ h made opened c cs in
          let r = finish_close os (record s { disk = after_loop.disk }) after_loop in
          rw close_handler-messages (
            subst (λ p. IsPublished s p client_id r) names.0
              (subst (λ k. IsPublished s after_loop.path k r) names.1
                (IsPublished-finish_close (record s { disk = after_loop.disk }) after_loop
                  (with_disk s w after_loop.disk) unlocked
                  (rw names.0 (is_empty-join_path directory filename named)))))
