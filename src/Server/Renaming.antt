-- ===== src/Server/Renaming.antt =====
-- What a rename does to the server's tables and to the clients: `FileSystem::rename` of
-- Basic_Operation/server_code/filesystem_server.cpp, where the old path is registered.

use distributed_filesystem.Base.{
  List, arith, false, if◌then◌else◌, not, refl, some, true, ℕ, ◌&&◌, ◌∙◌, ◌≡◌,
}
use distributed_filesystem.Dict.{Dict, get, get-AllValues, put, remove}
use distributed_filesystem.Os.{Os}
use distributed_filesystem.Server.Callbacks.{file_change_callback_rename, notified}
use distributed_filesystem.Server.Inbox.{inbox, inbox-notified, told}
use distributed_filesystem.Server.Namespace.{announce_rename, rename_handler, rename_notification}
use distributed_filesystem.Server.Queries.{get_file_timestamp}
use distributed_filesystem.Server.State.{Server, returns}
use distributed_filesystem.Server.Watches.{watches, watches-put, watches-remove, watches-some}
use distributed_filesystem.Server.WellFormed.{IsClientSet, IsWellFormed}
use distributed_filesystem.Text.{Text, join_path, parent_path, text_eq}
use distributed_filesystem.Wire.{RenameRequest, StatusCode}

-- The clients of the old path are registered for the new one, in place of those that were; the other
-- paths keep theirs. Of the clients of the old path, those that have subscribed are told, but for the
-- one that renames.
abbrev pub IsMoved : {D : Type 0} → Server D → Text → Text → Text → ℕ → Server D → Type 0
IsMoved s old_path new_path client_id timestamp t =
    ((k : Text)
      → inbox t k ≡ (
          if watches s.file_map old_path k && not (text_eq k client_id)
          then told (rename_notification old_path new_path timestamp) (inbox s k)
          else inbox s k))
    × ((p k : Text)
        → watches t.file_map p k ≡ (
            if text_eq old_path p
            then false
            else if text_eq new_path p
            then watches s.file_map old_path k
            else watches s.file_map p k))

watches-moved :
    (m : Dict (List Text)) (old_path new_path p k : Text) (clients : List Text)
    → get old_path m ≡ some clients
    → watches (remove old_path (put new_path clients m)) p k ≡ (
        if text_eq old_path p
        then false
        else if text_eq new_path p
        then watches m old_path k
        else watches m p k)
watches-moved m old_path new_path p k clients e =
    watches-remove old_path p k (put new_path clients m)
    ∙ rw (watches-put new_path p k clients m, watches-some m old_path k clients e)

module _ {D : Type 0} (os : Os D) (s : Server D) (w : IsWellFormed s) (request : RenameRequest)
    (d e : D) (unlocked : s.file_map_locked ≡ false)
    (made : os.create_directories s.disk
        (parent_path (join_path request.new_directory request.new_filename))
      ≡ (true, d))
    (moved : os.rename d
        (join_path request.directory request.filename)
        (join_path request.new_directory request.new_filename)
      ≡ (true, e)) where
  abbrev old_path : Text
  old_path = join_path request.directory request.filename

  abbrev new_path : Text
  new_path = join_path request.new_directory request.new_filename

  abbrev renamed_at : ℕ
  renamed_at = get_file_timestamp os e new_path

  rename_handler-some :
      (clients : List Text)
      → get old_path s.file_map ≡ some clients
      → rename_handler os s request ≡ (
        returns StatusCode.ok,
        true,
        record (notified s request.client_id
            (rename_notification old_path new_path renamed_at)
            clients) { disk = e; file_map = remove old_path (put new_path clients s.file_map) },
      )
  unfolding rename_handler announce_rename file_change_callback_rename
  rename_handler-some clients registered = ground arith

  -- A rename that the disk has carried out, of a path that some client is registered for, while
  -- `file_map_mutex` is free, returns OK with `success`; it tells every other client of the old path
  -- that has subscribed once, with both paths, and nobody else; then nobody is registered for the old
  -- path; if the new path is another one, the clients of the old path are registered for it, in place
  -- of its own; and every other path keeps its clients.
  pub rename_handler-IsMoved :
      (clients : List Text)
      → get old_path s.file_map ≡ some clients
      → ((rename_handler os s request).0 ≡ returns StatusCode.ok)
        × ((rename_handler os s request).1 ≡ true)
        × IsMoved s old_path new_path request.client_id renamed_at (rename_handler os s request).2
  unfolding inbox
  rename_handler-IsMoved clients registered = rw (rename_handler-some clients registered) (
    refl,
    refl,
    (
      λ k. rw (watches-some s.file_map old_path k clients registered) (
          inbox-notified s w request.client_id _ clients k
            (get-AllValues IsClientSet old_path clients s.file_map w.watchers.1 registered).1),
      λ p k. watches-moved s.file_map old_path new_path p k clients registered,
    ),
  )
