-- ===== src/Client/Lifecycle.antt =====
-- The calls of Basic_Operation/client_code/filesystem_client.cpp that open and close files, and the
-- tables.

use distributed_filesystem.Base.{Bool, if_ind, option_ind, true, ℕ, ◌≡◌}
use distributed_filesystem.Client.Closing.{
  close_file, close_found, close_streams, finish_upload, record_upload, upload_file,
}
use distributed_filesystem.Client.Consistent.{IsConsistent}
use distributed_filesystem.Client.Files.{erase_opened, has_key, mark_opened}
use distributed_filesystem.Client.Metadata.{delete_file, forget_file}
use distributed_filesystem.Client.Paths.{
  cache_dir, file_location, resolve_server_path, without_slash,
}
use distributed_filesystem.Client.State.{Client, FileInfo, FileStreams}
use distributed_filesystem.Client.Stub.{Stub}
use distributed_filesystem.Client.Tables.{
  erased-Covers, forgotten-Covers, has_key-some, mark_opened-Covers, restream-Covers,
  updated-Covers,
}
use distributed_filesystem.Dict.{get}
use distributed_filesystem.Members.{contains}
use distributed_filesystem.Os.{Os}
use distributed_filesystem.Text.{Text}
use distributed_filesystem.Wire.{StatusCode, is_ok}

abbrev KeepsAll : {D N : Type 0} → Bool × Client D × N → Type 0
KeepsAll r = IsConsistent r.1

module _ {D : Type 0} (c : Client D) (w : IsConsistent c) where
  -- A new disk, and new attributes, are nothing to the tables.
  pub on_disk : (d : D) → IsConsistent (record c { disk = d })
  on_disk d = record { covered = w.covered }

  pub erase_opened-IsConsistent : (location : Text) → IsConsistent (erase_opened c location)
  unfolding erase_opened
  erase_opened-IsConsistent location = record { covered = erased-Covers _ _ _ w.covered location }

  pub mark_opened-IsConsistent :
      (location : Text) (streams : FileStreams)
      → has_key location c.cache ≡ true
      → IsConsistent (mark_opened c location streams)
  unfolding mark_opened
  mark_opened-IsConsistent location streams h = record {
    covered = mark_opened-Covers _ _ _ w.covered location streams h;
  }

  pub forget_file-IsConsistent : (location key : Text) → IsConsistent (forget_file c location key)
  unfolding forget_file
  forget_file-IsConsistent location key = record {
    covered = forgotten-Covers _ _ _ w.covered location;
  }

  pub close_streams-IsConsistent :
      (location : Text) (streams : FileStreams)
      → has_key location c.opened_files ≡ true
      → IsConsistent (close_streams c location streams)
  unfolding close_streams
  close_streams-IsConsistent location streams h = record {
    covered = restream-Covers _ _ _ w.covered location _ h;
  }

module _ {D N : Type 0} (os : Os D) (stub : Stub N) (c : Client D) (w : IsConsistent c) where
  finish_upload-IsConsistent :
      (location key : Text) (r : StatusCode × ℕ × N)
      → KeepsAll (finish_upload os stub c location key r)
  unfolding finish_upload record_upload
  finish_upload-IsConsistent location key (status, timestamp, net) =
      if_ind KeepsAll (is_ok status) _ _
        (λ _.
          erase_opened-IsConsistent _
            (record { covered = updated-Covers _ _ _ w.covered location _ }) location)
        (λ _. w)

  upload_file-IsConsistent :
      (net : N) (resolved filename location : Text)
      → KeepsAll (upload_file os stub c net resolved filename location)
  unfolding upload_file
  upload_file-IsConsistent net resolved filename location =
      option_ind KeepsAll (os.open_read c.disk location) _ _ (λ _. w)
        (λ h _. finish_upload-IsConsistent location _ _)

  pub delete_file-IsConsistent :
      (net : N) (directory : Text) → KeepsAll (delete_file os stub c net directory)
  unfolding delete_file
  delete_file-IsConsistent net directory =
      let resolved = resolve_server_path c directory in
      let path = without_slash (cache_dir c resolved) in
      let v = forget_file-IsConsistent c w path resolved in
      if_ind KeepsAll (is_ok (stub.unlink net resolved c.client_id).0) _ _ (λ _. on_disk _ v _)
        (λ _. v)

module _ {D N : Type 0} (os : Os D) (stub : Stub N) (c : Client D) (w : IsConsistent c) where
  close_found-IsConsistent :
      (net : N) (resolved filename location : Text) (streams : FileStreams) (info : FileInfo)
      → has_key location c.opened_files ≡ true
      → KeepsAll (close_found os stub c net resolved filename location streams info)
  unfolding close_found
  close_found-IsConsistent net resolved filename location streams info h =
      if_ind KeepsAll info.locally_modified _ _
        (λ _.
          if_ind KeepsAll streams.write_stream.failed _ _ (λ _. w)
            (λ _.
              upload_file-IsConsistent os stub _ (close_streams-IsConsistent c w location streams h)
                net resolved filename location))
        (λ _. erase_opened-IsConsistent c w location)

  pub close_file-IsConsistent :
      (net : N) (filename directory : Text) → KeepsAll (close_file os stub c net filename directory)
  unfolding close_file
  close_file-IsConsistent net filename directory =
      let resolved = resolve_server_path c directory in
      let location = file_location c resolved filename in
      option_ind KeepsAll (get location c.opened_files) _ _ (λ _. w)
        (λ streams e.
          if_ind KeepsAll (contains location c.file_mutexes) _ _
            (λ _.
              option_ind KeepsAll (get location c.cache) _ _
                (λ _. erase_opened-IsConsistent c w location)
                (λ info _.
                  close_found-IsConsistent net resolved filename location streams info
                    (has_key-some location c.opened_files streams e)))
            (λ _. w))
