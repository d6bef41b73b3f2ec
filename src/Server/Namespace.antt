-- ===== src/Server/Namespace.antt =====
-- The handlers `rename` and `unlink` of Basic_Operation/server_code/filesystem_server.cpp.
use distributed_filesystem.Base.{ℕ, Bool, true, false, if◌then◌else◌, []}
use distributed_filesystem.Text.{Text, lit, join_path, parent_path}
use distributed_filesystem.Wire.{StatusCode, RenameRequest, Notification}
use distributed_filesystem.Os.{Os, removed, absent, denied, no_such_file, other_error}
use distributed_filesystem.Server.State.{Server, Ending, returns, blocks}
use distributed_filesystem.Server.Queries.{get_file_timestamp}
use distributed_filesystem.Server.Callbacks.{
  file_change_callback_rename, file_change_callback_unlink,
}

unfoldable pub rename_notification : Text → Text → ℕ → Notification
rename_notification old_path new_path timestamp = record {
  directory = old_path;
  new_directory = new_path;
  message = lit "Rename";
  timestamp = timestamp;
}

unfoldable pub delete_notification : Text → Notification
delete_notification path = record {
  directory = path;
  new_directory = [];
  message = lit "DELETE";
  timestamp = 0;
}

module _ {D : Type 0} (os : Os D) where
  -- What `rename` does once both calls on the disk have succeeded.
  unfoldable pub announce_rename : Server D → Text → Text → Text → Ending × Bool × Server D
  unfolding rename_notification file_change_callback_rename get_file_timestamp
  announce_rename s old_path new_path client_id =
      let timestamp = get_file_timestamp os s.disk new_path in
      let (returned, s') =
        file_change_callback_rename s old_path new_path client_id
          (rename_notification old_path new_path timestamp) in
      if returned then (returns StatusCode.ok, true, s') else (blocks, false, s')

  -- The status, `response->success` and the state.
  unfoldable pub rename_handler : Server D → RenameRequest → Ending × Bool × Server D
  unfolding announce_rename join_path parent_path
  rename_handler s request =
      let old_path = join_path request.directory request.filename in
      let new_path = join_path request.new_directory request.new_filename in
      let (made, d) = os.create_directories s.disk (parent_path new_path) in
      if made
      then (let (moved, e) = os.rename d old_path new_path in
          if moved
          then announce_rename (record s { disk = e }) old_path new_path request.client_id
          else (returns StatusCode.not_found, false, record s { disk = e }))
      else (returns StatusCode.not_found, false, record s { disk = d })

  -- An error other than the two that are named falls through to `Status::OK`.
  unfoldable pub unlink_handler : Server D → Text → Text → Ending × Server D
  unfolding delete_notification file_change_callback_unlink
  unlink_handler s directory client_id =
      let (result, d) = os.remove s.disk directory in
      let s' = record s { disk = d } in
      elim result [
        | removed ↦
            let (returned, t) =
              file_change_callback_unlink s' directory client_id (delete_notification directory) in
            (if returned then returns StatusCode.ok else blocks, t)
        | absent ↦ (returns StatusCode.not_found, s')
        | denied ↦ (returns StatusCode.permission_denied, s')
        | no_such_file ↦ (returns StatusCode.not_found, s')
        | other_error ↦ (returns StatusCode.ok, s')
      ]
