-- ===== src/System/Stored.antt =====
-- An upload that the server stores: `close_file`
-- (Basic_Operation/client_code/filesystem_client.cpp) over the handler `close`
-- (Basic_Operation/server_code/filesystem_server.cpp).

use distributed_filesystem.Base.{
  List, ap, concat, false, map, some, subst, sym, true, ℕ, ◌∙◌, ◌∷◌, ◌≡◌,
}
use distributed_filesystem.Client.Closing.{close_file, content_chunks, upload_requests}
use distributed_filesystem.Client.Flushed.{close_file-Succeeds, is_writable}
use distributed_filesystem.Client.Paths.{file_location, resolve_server_path}
use distributed_filesystem.Client.Received.{received}
use distributed_filesystem.Client.Sent.{concat-content_chunks, is_modified}
use distributed_filesystem.Client.State.{Client}
use distributed_filesystem.Members.{contains}
use distributed_filesystem.Os.{IsFaithful, Os}
use distributed_filesystem.Server.Publish.{IsPublished, close_handler-IsPublished}
use distributed_filesystem.Server.Roundtrip.{WritesSucceed, open_handler-close_handler}
use distributed_filesystem.Server.State.{Server, returns}
use distributed_filesystem.Server.Transfer.{close_handler, open_handler}
use distributed_filesystem.Server.Upload.{upload_request}
use distributed_filesystem.Server.WellFormed.{IsWellFormed}
use distributed_filesystem.System.Loopback.{
  content_chunks-cons, received-open_handler, taken_all, upload_requests-map,
}
use distributed_filesystem.System.Network.{code_of, server_stub}
use distributed_filesystem.Text.{Text, is_empty, join_path, parent_path}
use distributed_filesystem.Wire.{FileRequest, StatusCode, is_ok}

-- A disk of a server on which an upload of the path can be stored.
pub record CanStore {D : Type 0} (os : Os D) (s : Server D) (directory filename : Text)
    : Type 0 where
  pub named : is_empty filename ≡ false
  pub unlocked : s.file_map_locked ≡ false
  pub after_made : D
  pub after_opened : D
  pub handle : ℕ
  pub made :
      os.create_directories s.disk (parent_path (join_path directory filename)) ≡ (true, after_made)
  pub opened : os.open_trunc after_made (join_path directory filename) ≡ (some handle, after_opened)

module _ {DS : Type 0} (os : Os DS) (faithful : IsFaithful os) (succeeds : WritesSucceed os)
    (s : Server DS) (w : IsWellFormed s) (directory filename client_id : Text)
    (can : CanStore os s directory filename) (bs : List ℕ) where
  -- The upload of the bytes as the client sends it.
  abbrev upload : List FileRequest
  upload = upload_requests directory filename client_id (content_chunks bs)

  -- Its answer is OK, and the next `open` of the path sends the bytes.
  abbrev pub Stored : List FileRequest → Type 0
  Stored requests =
      ((close_handler os s requests).0 ≡ returns StatusCode.ok)
      × ((r : FileRequest)
          → r.directory ≡ directory
          → r.filename ≡ filename
          → let t = (close_handler os s requests).2 in
            ((open_handler os (λ _. true) t r).0 ≡ returns StatusCode.ok)
            × (received (open_handler os (λ _. true) t r).1 ≡ bs))

  upload-map :
      (c : List ℕ) (cs : List (List ℕ))
      → content_chunks bs ≡ c ∷ cs
      → upload ≡ map (upload_request directory filename client_id) (c ∷ cs)
  upload-map c cs e =
      upload_requests-map directory filename client_id (content_chunks bs)
      ∙ ap (map (upload_request directory filename client_id)) e

  pub upload-IsPublished :
      IsPublished s (join_path directory filename) client_id (close_handler os s upload)
  upload-IsPublished =
      let (c, cs, e) = content_chunks-cons bs in
      subst (λ rs. IsPublished s (join_path directory filename) client_id (close_handler os s rs))
        (sym (upload-map c cs e))
        (close_handler-IsPublished os directory filename client_id can.named s w can.unlocked
          can.after_made can.after_opened can.handle can.made can.opened c cs)

  pub upload-Stored : Stored upload
  unfolding concat
  upload-Stored =
      let (c, cs, e) = content_chunks-cons bs in
      (
        upload-IsPublished.0,
        subst
            (λ rs.
              (r : FileRequest)
              → r.directory ≡ directory
              → r.filename ≡ filename
              → let t = (close_handler os s rs).2 in
                ((open_handler os (λ _. true) t r).0 ≡ returns StatusCode.ok)
                × (received (open_handler os (λ _. true) t r).1 ≡ bs))
            (sym (upload-map c cs e))
            (λ r d f.
              let (fine, sent) =
                open_handler-close_handler os faithful succeeds directory filename client_id
                  can.named s can.unlocked can.after_made can.after_opened can.handle can.made
                  can.opened c cs r d f in
              (
                fine,
                received-open_handler os _ r ∙ sent ∙ ap concat (sym e) ∙ concat-content_chunks bs,
              )),
      )

-- What `close_file` needs of the client.
pub record CanFlush {D : Type 0} (os : Os D) (c : Client D) (filename path : Text) (h : ℕ)
    : Type 0 where
  pub writable : is_writable c (file_location c (resolve_server_path c path) filename) ≡ true
  pub locked :
      contains (file_location c (resolve_server_path c path) filename) c.file_mutexes ≡ true
  pub modified : is_modified c (file_location c (resolve_server_path c path) filename) ≡ true
  pub readable :
      os.open_read c.disk (file_location c (resolve_server_path c path) filename) ≡ some h

module _ {DA DS : Type 0} (os_a : Os DA) (os : Os DS) (faithful : IsFaithful os)
    (succeeds : WritesSucceed os) where
  -- The client's call is one call of the server's handler.
  pub close_file-close_handler :
      (s : Server DS)
      → IsWellFormed s
      → (a : Client DA) (filename path : Text) (h : ℕ) → CanFlush os_a a filename path h
      → CanStore os s (resolve_server_path a path) filename
      → let sent =
          upload_requests
            (resolve_server_path a path)
            filename
            a.client_id
            (content_chunks (os_a.bytes a.disk h)) in
        let (done, a', t) = close_file os_a (server_stub os) a s filename path in
        (done ≡ true) × (t ≡ (close_handler os s sent).2)
  unfolding server_stub
  close_file-close_handler s w a filename path h can_a can =
      let directory = resolve_server_path a path in
      let bs = os_a.bytes a.disk h in
      let sent = upload_requests directory filename a.client_id (content_chunks bs) in
      let fine = (upload-Stored os faithful succeeds s w directory filename a.client_id can bs).0 in
      let all_taken = taken_all 0 sent in
      let (done, net) =
        close_file-Succeeds os_a (server_stub os) a s filename path h can_a.writable can_a.locked
          can_a.modified can_a.readable
          (ap (λ rs. is_ok (code_of (close_handler os s rs).0)) all_taken
            ∙ ap (λ e. is_ok (code_of e)) fine) in
      (done, net ∙ ap (λ rs. (close_handler os s rs).2) all_taken)
