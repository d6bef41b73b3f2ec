-- ===== src/Client/Creating.antt =====
-- `create_file` of Basic_Operation/client_code/filesystem_client.cpp.

use distributed_filesystem.Base.{Bool, false, if◌then◌else◌, none, some, true, ◌||◌}
use distributed_filesystem.Client.Files.{has_key, mark_opened, open_streams}
use distributed_filesystem.Client.Paths.{cache_dir, file_location, resolve_server_path, server_key}
use distributed_filesystem.Client.State.{Client, FileAttributes}
use distributed_filesystem.Dict.{put, remove}
use distributed_filesystem.Os.{Os, Stat, StatResult, found}
use distributed_filesystem.Text.{Text}

module _ {D : Type 0} (os : Os D) where
  -- The attributes of a new file: the times are in whole seconds.
  unfoldable pub new_attributes : Client D → Stat → FileAttributes
  new_attributes c s = record {
    size = s.size;
    atime = s.atime_sec;
    mtime = s.mtime_sec;
    ctime = s.ctime_sec;
    mode = s.mode;
    nlink = s.nlink;
    uid = c.uid;
    gid = c.gid;
  }

  unfoldable pub save_new_attributes : Client D → Text → StatResult → Bool × Client D
  unfolding new_attributes put
  save_new_attributes c key (found s) =
      (true, record c { cached_attr = put key (new_attributes c s) c.cached_attr })
  save_new_attributes c key _ = (false, c)

  -- From the local file that has just been made.
  unfoldable pub open_created : Client D → Text → Text → Bool × Client D
  unfolding save_new_attributes open_streams mark_opened remove
  open_created c location key = elim (open_streams os c.disk location) [
    | none ↦ (false, record c { cache = remove location c.cache })
    | some streams ↦
        save_new_attributes (mark_opened c location streams) key (os.stat c.disk location)
  ]

  unfoldable pub make_local : Client D → Text → Text → Text → Bool × Client D
  unfolding open_created put
  make_local c filename location key =
      let (opened, d) = os.open_trunc c.disk location in
      elim opened [
        | none ↦ (false, record c { disk = d })
        | some h ↦
            open_created
              (record c {
                disk = d;
                cache =
                    put location
                      (record { locally_modified = true; timestamp = 0; filename = filename })
                      c.cache;
              })
              location key
      ]

  unfoldable pub create_file : Client D → Text → Text → Bool × Client D
  unfolding make_local resolve_server_path file_location cache_dir has_key
  create_file c filename path =
      let resolved = resolve_server_path c path in
      let location = file_location c resolved filename in
      let (made, d) = os.create_directories c.disk (cache_dir c resolved) in
      if has_key location c.cache || has_key location c.opened_files
      then (false, c)
      else if made
      then make_local (record c { disk = d }) filename location (server_key resolved filename)
      else (false, record c { disk = d })
