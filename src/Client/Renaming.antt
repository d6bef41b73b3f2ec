-- ===== src/Client/Renaming.antt =====
-- `rename_file` of Basic_Operation/client_code/filesystem_client.cpp.

use distributed_filesystem.Base.{Bool, Option, [], false, if◌then◌else◌, none, some, true, ◌∷◌}
use distributed_filesystem.Client.Paths.{file_location, resolve_server_path, server_key}
use distributed_filesystem.Client.Rekeying.{update_map_keys}
use distributed_filesystem.Client.State.{
  Answer, Client, FileAttributes, FileInfo, FileStreams, answers, throws,
}
use distributed_filesystem.Client.Stub.{Stub}
use distributed_filesystem.Dict.{Dict}
use distributed_filesystem.Os.{Os, RemoveResult, absent, denied, no_such_file, other_error, removed}
use distributed_filesystem.Server.Queries.{attributes}
use distributed_filesystem.Text.{Text}
use distributed_filesystem.Wire.{RenameRequest, StatusCode}

-- A step on the disk: it goes on, the function returns false, or an exception leaves it.
pub data Moving (D : Type 0) : Type 0 where
  goes_on : D → Moving D
  refuses breaks : D → Moving D

-- `status.ok()`, or a file that exists only in the local cache
unfoldable pub rename_accepted : StatusCode → Bool
rename_accepted StatusCode.ok = true
rename_accepted StatusCode.not_found = true
rename_accepted _ = false

-- `remove(path)` without an error code
unfoldable pub after_removal : {D : Type 0} → RemoveResult × D → Moving D
after_removal (removed, d) = goes_on d
after_removal (absent, d) = goes_on d
after_removal (no_such_file, d) = goes_on d
after_removal (denied, d) = breaks d
after_removal (other_error, d) = breaks d

module _ {D : Type 0} (os : Os D) where
  -- A folder in the way must be empty.
  clear_folder : D → Text → Moving D
  unfolding after_removal
  clear_folder d path = elim (os.list_dir d path) [
    | none ↦ breaks d
    | some entries ↦ elim entries [ [] ↦ after_removal (os.remove d path) | e ∷ rest ↦ refuses d ]
  ]

  -- What stands at the new path is removed.
  unfoldable pub clear_target : D → Text → Moving D
  unfolding clear_folder after_removal
  clear_target d path = elim (os.exists d path) [
    | none ↦ breaks d
    | some there ↦
        if there
        then elim (os.is_dir d path) [
          | none ↦ breaks d
          | some folder ↦ if folder then clear_folder d path else after_removal (os.remove d path)
        ]
        else goes_on d
  ]

  -- Only what the local cache has is renamed there.
  unfoldable pub move_local : D → Text → Text → Moving D
  move_local d old_local new_local = elim (os.exists d old_local) [
    | none ↦ breaks d
    | some there ↦
        let (done, e) = os.rename d old_local new_local in
        if there then (if done then goes_on e else refuses e) else goes_on d
  ]

-- The three maps after their walks, if all of them end.
abbrev pub with_tables :
    {D : Type 0}
    → Client D
    → Option (Dict FileInfo)
    → Option (Dict FileStreams)
    → Option (Dict FileAttributes)
    → Option (Client D)
with_tables c (some cache) (some opened) (some attributes) =
    some (record c { cache = cache; opened_files = opened; cached_attr = attributes })
with_tables c _ _ _ = none

-- `update_map_keys` on the three maps; `none` if a walk does not end.
unfoldable pub rename_tables :
    {D : Type 0} → Client D → Text → Text → Text → Text → Option (Client D)
unfolding update_map_keys
rename_tables c old_local new_local old_remote new_remote =
    with_tables c (update_map_keys old_local new_local c.cache)
      (update_map_keys old_local new_local c.opened_files)
      (update_map_keys old_remote new_remote c.cached_attr)

module _ {D N : Type 0} (os : Os D) (stub : Stub N) where
  unfoldable pub send_rename : Client D → N → RenameRequest → Answer × Client D × N
  unfolding rename_accepted
  send_rename c net request =
      let (status, net') = stub.rename net request in (answers (rename_accepted status), c, net')

  unfoldable pub finish_rename :
      Client D → N → RenameRequest → Text → Text → Text → Text → Option (Answer × Client D × N)
  unfolding rename_tables send_rename
  finish_rename c net request old_local new_local old_remote new_remote =
      elim (rename_tables c old_local new_local old_remote new_remote) [
        | none ↦ none
        | some c' ↦ some (send_rename c' net request)
      ]

  unfoldable pub after_move :
      Moving D
      → Client D
      → N
      → RenameRequest
      → Text
      → Text
      → Text
      → Text
      → Option (Answer × Client D × N)
  unfolding finish_rename
  after_move (refuses d) c net request old_local new_local old_remote new_remote =
      some (answers false, record c { disk = d }, net)
  after_move (breaks d) c net request old_local new_local old_remote new_remote =
      some (throws, record c { disk = d }, net)
  after_move (goes_on d) c net request old_local new_local old_remote new_remote =
      finish_rename (record c { disk = d }) net request old_local new_local old_remote new_remote

  unfoldable pub after_clear :
      Moving D
      → Client D
      → N
      → RenameRequest
      → Text
      → Text
      → Text
      → Text
      → Option (Answer × Client D × N)
  unfolding after_move move_local
  after_clear (refuses d) c net request old_local new_local old_remote new_remote =
      some (answers false, record c { disk = d }, net)
  after_clear (breaks d) c net request old_local new_local old_remote new_remote =
      some (throws, record c { disk = d }, net)
  after_clear (goes_on d) c net request old_local new_local old_remote new_remote =
      after_move (move_local os d old_local new_local) c net request old_local new_local old_remote
        new_remote

  -- `none` if a walk over the keys does not end. The first test on the disk is for the log.
  unfoldable pub rename_file :
      Client D → N → Text → Text → Text → Text → Option (Answer × Client D × N)
  unfolding after_clear clear_target resolve_server_path file_location
  rename_file c net from_name to_name old_path new_path =
      let resolved = resolve_server_path c old_path in
      let resolved_new = resolve_server_path c new_path in
      let old_local = file_location c resolved from_name in
      let new_local = file_location c resolved_new to_name in
      let request : RenameRequest = record {
        filename = from_name;
        new_filename = to_name;
        directory = resolved;
        new_directory = resolved_new;
        client_id = c.client_id;
      } in
      elim (os.exists c.disk old_local) [
        | none ↦ some (throws, c, net)
        | some shown ↦
            after_clear (clear_target os c.disk new_local) c net request old_local new_local
              (server_key resolved from_name) (server_key resolved_new to_name)
      ]
