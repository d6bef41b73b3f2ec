-- ===== src/Server/Removal.antt =====
-- What `FileSystem::unlink` of Basic_Operation/server_code/filesystem_server.cpp replies, and what
-- it does to the tables.

use distributed_filesystem.Base.{
  Bool-cases, List, Option-cases, arith, false, if◌then◌else◌, inl, inr, none, not, refl, some,
  subst, ◌&&◌, ◌≡◌,
}
use distributed_filesystem.Dict.{Dict, get, get-AllValues, remove}
use distributed_filesystem.Os.{Os, removed}
use distributed_filesystem.Server.Callbacks.{file_change_callback_unlink, notified}
use distributed_filesystem.Server.Inbox.{inbox, inbox-notified, told}
use distributed_filesystem.Server.Namespace.{delete_notification, unlink_handler}
use distributed_filesystem.Server.State.{Server, returns}
use distributed_filesystem.Server.Watches.{watches, watches-none, watches-remove, watches-some}
use distributed_filesystem.Server.WellFormed.{IsClientSet, IsWellFormed}
use distributed_filesystem.Text.{Text, text_eq, text_eq_iff}
use distributed_filesystem.Wire.{StatusCode}

-- A path that nobody is registered for.
unwatched :
    (q p k : Text) (m : Dict (List Text))
    → get q m ≡ none
    → watches m p k ≡ (if text_eq q p then false else watches m p k)
unwatched q p k m e = elim (Bool-cases (text_eq q p)) [
  | inl h ↦ rw h (subst (λ r. watches m r k ≡ false) ((text_eq_iff q p).0 h) (watches-none m q k e))
  | inr h ↦ rw h
]

module _ {D : Type 0} (os : Os D) (s : Server D) (directory client_id : Text) where
  module _ (w : IsWellFormed s) (d : D) (unlocked : s.file_map_locked ≡ false)
      (gone : os.remove s.disk directory ≡ (removed, d)) where
    unlink_handler-some :
        (clients : List Text)
        → get directory s.file_map ≡ some clients
        → unlink_handler os s directory client_id ≡ (
          returns StatusCode.ok,
          record (notified s client_id (delete_notification directory) clients) {
            disk = d;
            file_map = remove directory s.file_map;
          },
        )
    unfolding unlink_handler file_change_callback_unlink
    unlink_handler-some clients e = ground arith

    unlink_handler-none :
        get directory s.file_map ≡ none
        → unlink_handler os s directory client_id ≡ (returns StatusCode.ok, record s { disk = d })
    unfolding unlink_handler file_change_callback_unlink
    unlink_handler-none e = ground arith

    -- Where the disk removes the file and `file_map_mutex` is free, the reply is OK; every other
    -- client that is registered for the path and has subscribed is told once, and nobody else; and no
    -- client is registered for it any longer, while every other path keeps its clients.
    pub unlink_handler-removed :
        ((unlink_handler os s directory client_id).0 ≡ returns StatusCode.ok)
        × ((k : Text)
            → inbox (unlink_handler os s directory client_id).1 k ≡ (
                if watches s.file_map directory k && not (text_eq k client_id)
                then told (delete_notification directory) (inbox s k)
                else inbox s k))
        × ((p k : Text)
            → watches (unlink_handler os s directory client_id).1.file_map p k
              ≡ (if text_eq directory p then false else watches s.file_map p k))
    unfolding inbox
    unlink_handler-removed = elim (Option-cases (get directory s.file_map)) [
      | inl e ↦ rw (unlink_handler-none e) (
        refl,
        λ k. rw (watches-none s.file_map directory k e),
        λ p k. unwatched directory p k s.file_map e,
      )
      | inr (clients, e) ↦ rw (unlink_handler-some clients e) (
        refl,
        λ k. rw (watches-some s.file_map directory k clients e) (
            inbox-notified s w client_id _ clients k
              (get-AllValues IsClientSet directory clients s.file_map w.watchers.1 e).1),
        λ p k. watches-remove directory p k s.file_map,
      )
    ]
