-- ===== src/System/Closed.antt =====
-- `close_file` (Basic_Operation/client_code/filesystem_client.cpp) over the handler `close`
-- (Basic_Operation/server_code/filesystem_server.cpp) takes nobody's registration away.

use distributed_filesystem.Base.{Bool, List, bool_ind, if_ind, option_ind, suc, true, zero, ℕ}
use distributed_filesystem.Client.Closing.{
  close_file, close_found, close_streams, finish_upload, taken, upload_file, upload_tries,
}
use distributed_filesystem.Client.Paths.{file_location, resolve_server_path}
use distributed_filesystem.Client.State.{Client, FileInfo, FileStreams}
use distributed_filesystem.Dict.{get}
use distributed_filesystem.Members.{contains}
use distributed_filesystem.Os.{Os}
use distributed_filesystem.Server.State.{Server}
use distributed_filesystem.Server.Transfer.{close_handler}
use distributed_filesystem.System.Growth.{Grows, Grows-refl, Grows-trans, close_handler-Grows}
use distributed_filesystem.System.Network.{server_stub}
use distributed_filesystem.Text.{Text}
use distributed_filesystem.Wire.{FileRequest, StatusCode, is_ok}

module _ {DC DS : Type 0} (os_c : Os DC) (os : Os DS) where
  upload_tries-Grows :
      (left : ℕ) (status : StatusCode) (timestamp : ℕ) (s : Server DS) (requests : List FileRequest)
      → Grows s (upload_tries (server_stub os) left status timestamp s requests).2
  unfolding upload_tries server_stub
  upload_tries-Grows zero status timestamp s requests = Grows-refl s
  upload_tries-Grows (suc left) status timestamp s requests =
      bool_ind (λ (r : StatusCode × ℕ × Server DS). Grows s r.2) (is_ok status) _ _
        (λ _. Grows-refl s)
        (λ _. Grows-trans (close_handler-Grows os s (taken (λ _. true) 0 requests)) (
          upload_tries-Grows left _ _ (close_handler os s (taken (λ _. true) 0 requests)).2
            requests))

  -- What a call of the client leaves of the server.
  abbrev pub Leaves : Server DS → Bool × Client DC × Server DS → Type 0
  Leaves s (done, c, t) = Grows s t

  finish_upload-Grows :
      (c : Client DC) (s : Server DS) (location key : Text) (r : StatusCode × ℕ × Server DS)
      → Grows s r.2
      → Leaves s (finish_upload os_c (server_stub os) c location key r)
  unfolding finish_upload
  finish_upload-Grows c s location key (status, timestamp, t) g =
      if_ind (Leaves s) (is_ok status) _ _ (λ _. g) (λ _. g)

  upload_file-Grows :
      (c : Client DC) (s : Server DS) (resolved filename location : Text)
      → Leaves s (upload_file os_c (server_stub os) c s resolved filename location)
  unfolding upload_file
  upload_file-Grows c s resolved filename location =
      option_ind (Leaves s) (os_c.open_read c.disk location) _ _ (λ _. Grows-refl s)
        (λ h _.
          finish_upload-Grows c s location _ _ (upload_tries-Grows 3 StatusCode.unknown 0 s _))

  close_found-Grows :
      (c : Client DC) (s : Server DS) (resolved filename location : Text) (streams : FileStreams)
      (info : FileInfo)
      → Leaves s (close_found os_c (server_stub os) c s resolved filename location streams info)
  unfolding close_found
  close_found-Grows c s resolved filename location streams info =
      if_ind (Leaves s) info.locally_modified _ _
        (λ _.
          if_ind (Leaves s) streams.write_stream.failed _ _ (λ _. Grows-refl s)
            (λ _.
              upload_file-Grows (close_streams c location streams) s resolved filename location))
        (λ _. Grows-refl s)

  pub close_file-Grows :
      (c : Client DC) (s : Server DS) (filename path : Text)
      → Leaves s (close_file os_c (server_stub os) c s filename path)
  unfolding close_file
  close_file-Grows c s filename path =
      let location = file_location c (resolve_server_path c path) filename in
      option_ind (Leaves s) (get location c.opened_files) _ _ (λ _. Grows-refl s)
        (λ streams _.
          if_ind (Leaves s) (contains location c.file_mutexes) _ _
            (λ _.
              option_ind (Leaves s) (get location c.cache) _ _ (λ _. Grows-refl s)
                (λ info _. close_found-Grows c s _ filename location streams info))
            (λ _. Grows-refl s))
