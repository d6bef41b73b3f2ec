-- ===== src/Client/Sessions.antt =====
-- Histories of calls of a client (Basic_Operation/client_code/filesystem_client.cpp), with the
-- notifications that arrive in between.

use distributed_filesystem.Base.{
  Bool, arith, bool_ind, false, if_ind, option_ind, suc, true, zero, ℕ, ◌||◌, ◌≡◌,
}
use distributed_filesystem.Client.Consistent.{IsConsistent}
use distributed_filesystem.Client.Creating.{
  create_file, make_local, open_created, save_new_attributes,
}
use distributed_filesystem.Client.Files.{has_key, open_streams}
use distributed_filesystem.Client.Lifecycle.{mark_opened-IsConsistent, on_disk}
use distributed_filesystem.Client.Opening.{
  Download, Try, after_download, close_outfile, discard, download, download_tries, finish_download,
  gives_up, open_cached, open_downloaded, open_file, open_missing, save_responses, tried,
}
use distributed_filesystem.Client.Paths.{
  cache_dir, file_location, open_location, resolve_server_path, server_key,
}
use distributed_filesystem.Client.State.{Answer, Client, FileInfo}
use distributed_filesystem.Client.Stub.{Stub}
use distributed_filesystem.Client.Tables.{
  Covers, cached-Covers, has_key-none, has_key-some, put_key, uncached-Covers, uncached_not_opened,
}
use distributed_filesystem.Dict.{Dict, get}
use distributed_filesystem.Os.{Os, StatResult, found}
use distributed_filesystem.Text.{Text}
use distributed_filesystem.Wire.{FileRequest, StatusCode, is_ok}

abbrev KeepsOpened : {D N : Type 0} → Answer × Client D × N → Type 0
KeepsOpened r = IsConsistent r.1

abbrev KeepsCreated : {D : Type 0} → Bool × Client D → Type 0
KeepsCreated r = IsConsistent r.1

-- A try of a download of a file that is not opened.
abbrev KeepsTry : {D N : Type 0} → Text → Try D N → Type 0
KeepsTry location (gives_up c net) = IsConsistent c
KeepsTry location (tried status c net) =
    IsConsistent c
    × (has_key location c.opened_files ≡ false)
    × (is_ok status ≡ true → has_key location c.cache ≡ true)

module _ {D : Type 0} (os : Os D) (c : Client D) (w : IsConsistent c) where
  open_created-IsConsistent :
      (location key : Text)
      → has_key location c.cache ≡ true
      → has_key location c.opened_files ≡ false
      → KeepsCreated (open_created os c location key)
  unfolding open_created save_new_attributes
  open_created-IsConsistent location key h k =
      option_ind KeepsCreated (open_streams os c.disk location) _ _
        (λ _. record { covered = uncached-Covers _ _ _ w.covered location k })
        (λ streams _.
          saved (os.stat c.disk location) (mark_opened-IsConsistent c w location streams h))
    where
      saved :
          {c' : Client D} (s : StatResult)
          → IsConsistent c'
          → KeepsCreated (save_new_attributes os c' key s)
      saved (found s) v = record { covered = v.covered }
      saved StatResult.no_entry v = v
      saved StatResult.failed v = v

module _ {D : Type 0} (os : Os D) (c : Client D) (w : IsConsistent c) where
  make_local-IsConsistent :
      (d : D) (filename location key : Text)
      → has_key location c.opened_files ≡ false
      → KeepsCreated (make_local os (record c { disk = d }) filename location key)
  unfolding make_local
  make_local-IsConsistent d filename location key k =
      option_ind KeepsCreated (os.open_trunc d location).0 _ _ (λ _. on_disk c w _)
        (λ h _.
          open_created-IsConsistent os _
            (record { covered = cached-Covers _ _ _ w.covered location _ }) location key
            (put_key location _ c.cache) k)

  pub create_file-IsConsistent :
      (filename path : Text) → KeepsCreated (create_file os c filename path)
  unfolding create_file
  create_file-IsConsistent filename path =
      let resolved = resolve_server_path c path in
      let location = file_location c resolved filename in
      let made = os.create_directories c.disk (cache_dir c resolved) in
      if_ind KeepsCreated (has_key location c.cache || has_key location c.opened_files) _ _ (λ _. w)
        (λ e.
          if_ind KeepsCreated made.0 _ _
            (λ _.
              make_local-IsConsistent made.1 filename location (server_key resolved filename)
                (ground arith))
            (λ _. on_disk c w made.1))

module _ {D N : Type 0} (os : Os D) (stub : Stub N) where
  after_download-KeepsTry :
      (c : Client D) (net : N) (location key filename : Text) (status : StatusCode) (u : Download D)
      → IsConsistent c
      → has_key location c.opened_files ≡ false
      → KeepsTry location (after_download os stub c net location key filename status u)
  unfolding after_download
  after_download-KeepsTry c net location key filename status u w k =
      if_ind (KeepsTry location) u.failed _ _ (λ _. on_disk c w u.disk)
        (λ _. (
          record {
            covered =
                if_ind (λ m. Covers c.opened_files m c.file_mutexes) (is_ok status) _ _
                  (λ _. cached-Covers _ _ _ w.covered location _) (λ _. w.covered);
          },
          k,
          λ e.
              if_ind (λ (m : Dict FileInfo). has_key location m ≡ true) (is_ok status) _ _
                (λ _. put_key location _ c.cache) (λ f. absurd (ground arith)),
        ))

  download-KeepsTry :
      (c : Client D) (net : N) (request : FileRequest) (location key : Text)
      → IsConsistent c
      → has_key location c.opened_files ≡ false
      → KeepsTry location (download os stub c net request location key)
  unfolding download
  download-KeepsTry c net request location key w k =
      option_ind (KeepsTry location) (os.open_trunc c.disk location).0 _ _ (λ _. on_disk c w _)
        (λ h _.
          let answer = stub.open_file net request in
          let d = (os.open_trunc c.disk location).1 in
          after_download-KeepsTry c answer.2 location key request.filename answer.1
            (close_outfile os h (
              save_responses os h
                (record { disk = d; last_timestamp = 0; position = 0; failed = false }) answer.0))
            w k)

  download_tries-KeepsTry :
      (left : ℕ) (status : StatusCode) (c : Client D) (net : N) (request : FileRequest)
      (location key : Text)
      → KeepsTry location (tried status c net)
      → KeepsTry location (download_tries os stub left status c net request location key)
  unfolding download_tries
  download_tries-KeepsTry zero status c net request location key w = w
  download_tries-KeepsTry (suc left) status c net request location key w =
      bool_ind (KeepsTry location) (is_ok status) _ _ (λ _. w)
        (λ _.
          tries_on (download os stub c net request location key)
            (download-KeepsTry c net request location key w.0 w.1)
            (λ status' c' net' v.
              download_tries-KeepsTry left status' c' net' request location key v))
    where
      tries_on :
          (t : Try D N)
          → KeepsTry location t
          → ((status' : StatusCode) (c' : Client D) (net' : N)
              → KeepsTry location (tried status' c' net')
              → KeepsTry location
                  (download_tries os stub left status' c' net' request location key))
          → KeepsTry location (elim t [
            | gives_up c' net' ↦ gives_up c' net'
            | tried status' c' net' ↦
                download_tries os stub left status' c' net' request location key
          ])
      tries_on (gives_up c' net') v again = v
      tries_on (tried status' c' net') v again = again status' c' net' v

  open_downloaded-IsConsistent :
      (c : Client D) (net : N) (location : Text)
      → IsConsistent c
      → has_key location c.opened_files ≡ false
      → has_key location c.cache ≡ true
      → KeepsOpened (open_downloaded os stub c net location)
  unfolding open_downloaded
  open_downloaded-IsConsistent c net location w k h =
      option_ind KeepsOpened (open_streams os c.disk location) _ _
        (λ _. record { covered = uncached-Covers _ _ _ w.covered location k })
        (λ streams _. mark_opened-IsConsistent c w location streams h)

  discard-IsConsistent :
      (c : Client D) (net : N) (location : Text)
      → IsConsistent c
      → KeepsOpened (discard os stub c net location)
  unfolding discard
  discard-IsConsistent c net location w = on_disk c w _

  finish_download-IsConsistent :
      (t : Try D N) (location : Text)
      → KeepsTry location t
      → KeepsOpened (finish_download os stub t location)
  unfolding finish_download
  finish_download-IsConsistent (gives_up c net) location w = w
  finish_download-IsConsistent (tried status c net) location w =
      if_ind KeepsOpened (is_ok status) _ _
        (λ e. open_downloaded-IsConsistent c net location w.0 w.1 (w.2 e))
        (λ _. discard-IsConsistent c net location w.0)

  open_missing-IsConsistent :
      (c : Client D) (net : N) (resolved filename location : Text)
      → IsConsistent c
      → has_key location c.cache ≡ false
      → KeepsOpened (open_missing os stub c net resolved filename location)
  unfolding open_missing
  open_missing-IsConsistent c net resolved filename location w h =
      let made = os.create_directories c.disk (cache_dir c resolved) in
      let k = uncached_not_opened _ _ _ w.covered location h in
      if_ind KeepsOpened made.0 _ _
        (λ _. finish_download-IsConsistent _ location (
          download_tries-KeepsTry 3 StatusCode.unknown _ net _ location _
            (on_disk c w made.1, k, λ e. absurd (ground arith))))
        (λ _. on_disk c w made.1)

  open_cached-IsConsistent :
      (c : Client D) (net : N) (location : Text)
      → IsConsistent c
      → has_key location c.cache ≡ true
      → KeepsOpened (open_cached os stub c net location)
  unfolding open_cached
  open_cached-IsConsistent c net location w h =
      option_ind KeepsOpened (get location c.opened_files) _ _
        (λ _.
          option_ind KeepsOpened (open_streams os c.disk location) _ _ (λ _. w)
            (λ streams _. mark_opened-IsConsistent c w location streams h))
        (λ streams _. w)

  pub open_file-IsConsistent :
      (c : Client D) (net : N) (filename path : Text)
      → IsConsistent c
      → KeepsOpened (open_file os stub c net filename path)
  unfolding open_file
  open_file-IsConsistent c net filename path w =
      let resolved = resolve_server_path c path in
      let location = open_location c resolved filename in
      option_ind KeepsOpened (get location c.cache) _ _
        (λ e.
          open_missing-IsConsistent c net resolved filename location w
            (has_key-none location c.cache e))
        (λ info e. open_cached-IsConsistent c net location w (has_key-some location c.cache info e))
