-- ===== src/Client/Flushed.antt =====
-- When `close_file` of Basic_Operation/client_code/filesystem_client.cpp succeeds.

-- Whether the file is open, with a write stream that has not failed.

use distributed_filesystem.Base.{
  Bool, List, Option, arith, bool_ind, false, if_ind, none, not, option_ind, refl, some, subst, sym,
  true, ℕ, ◌≡◌,
}
use distributed_filesystem.Client.Closing.{
  close_file, close_found, close_streams, content_chunks, finish_upload, taken, upload_file,
  upload_requests, upload_tries,
}
use distributed_filesystem.Client.Paths.{file_location, resolve_server_path, server_key}
use distributed_filesystem.Client.Sent.{is_modified, modified_info}
use distributed_filesystem.Client.State.{Client, FileInfo, FileStreams}
use distributed_filesystem.Client.Stub.{Stub}
use distributed_filesystem.Dict.{get}
use distributed_filesystem.Members.{contains}
use distributed_filesystem.Os.{Os}
use distributed_filesystem.Text.{Text}
use distributed_filesystem.Wire.{FileRequest, StatusCode, is_ok}

unfoldable pub is_writable : {D : Type 0} → Client D → Text → Bool
unfolding get
is_writable c location = elim (get location c.opened_files) [
  | none ↦ false
  | some streams ↦ not streams.write_stream.failed
]

writable_stream :
    (o : Option FileStreams) (streams : FileStreams)
    → o ≡ some streams
    → elim o [ none ↦ false | some s ↦ not s.write_stream.failed ] ≡ true
    → streams.write_stream.failed ≡ false
writable_stream o streams e m =
    let w = subst (λ o. elim o [ none ↦ false | some s ↦ not s.write_stream.failed ] ≡ true) e m in
    ground arith

upload_tries_first :
    {N : Type 0} (stub : Stub N) (net : N) (requests : List FileRequest)
    → let answer = stub.close_file net (taken (stub.accepts net) 0 requests) in
      (is_ok answer.0 ≡ true → upload_tries stub 3 StatusCode.unknown 0 net requests ≡ answer)
unfolding upload_tries
upload_tries_first stub net requests e =
    let answer = stub.close_file net (taken (stub.accepts net) 0 requests) in
    bool_ind (λ r. r ≡ answer) (is_ok answer.0) _ _ (λ _. refl) (λ f. absurd (ground arith))

module _ {D N : Type 0} (os : Os D) (stub : Stub N) where
  -- The call returns true and leaves the network as the server's answer does.
  abbrev Succeeds : N → Bool × Client D × N → Type 0
  Succeeds net' r = (r.0 ≡ true) × (r.2 ≡ net')

  finish_upload-Succeeds :
      (c : Client D) (location key : Text) (r : StatusCode × ℕ × N)
      → is_ok r.0 ≡ true
      → Succeeds r.2 (finish_upload os stub c location key r)
  unfolding finish_upload
  finish_upload-Succeeds c location key (status, timestamp, net) e =
      if_ind (Succeeds net) (is_ok status) _ _ (λ _. (refl, refl)) (λ f. absurd (ground arith))

  upload_file-Succeeds :
      (c : Client D) (net : N) (resolved filename location : Text) (h : ℕ)
      → os.open_read c.disk location ≡ some h
      → let requests =
          upload_requests resolved filename c.client_id (content_chunks (os.bytes c.disk h)) in
        let answer = stub.close_file net (taken (stub.accepts net) 0 requests) in
        (is_ok answer.0 ≡ true
          → Succeeds answer.2 (upload_file os stub c net resolved filename location))
  unfolding upload_file
  upload_file-Succeeds c net resolved filename location h o e =
      let requests =
        upload_requests resolved filename c.client_id (content_chunks (os.bytes c.disk h)) in
      let answer = stub.close_file net (taken (stub.accepts net) 0 requests) in
      let key = server_key resolved filename in
      let done =
        subst (λ r. Succeeds answer.2 (finish_upload os stub c location key r))
          (sym (upload_tries_first stub net requests e))
          (finish_upload-Succeeds c location key answer e) in
      subst
        (λ o. Succeeds answer.2 (elim o [
          | none ↦ (false, c, net)
          | some j ↦ finish_upload os stub c location key (
              upload_tries stub 3 StatusCode.unknown 0 net (
                upload_requests resolved filename c.client_id (content_chunks (os.bytes c.disk j))))
        ]))
        (sym o) done

  close_found-Succeeds :
      (c : Client D) (net : N) (resolved filename location : Text) (streams : FileStreams)
      (info : FileInfo) (h : ℕ)
      → info.locally_modified ≡ true
      → streams.write_stream.failed ≡ false
      → os.open_read c.disk location ≡ some h
      → let requests =
          upload_requests resolved filename c.client_id (content_chunks (os.bytes c.disk h)) in
        let answer = stub.close_file net (taken (stub.accepts net) 0 requests) in
        (is_ok answer.0 ≡ true
          → Succeeds answer.2 (close_found os stub c net resolved filename location streams info))
  unfolding close_found close_streams
  close_found-Succeeds c net resolved filename location streams info h m f o e =
      let goal = Succeeds _ in
      if_ind goal info.locally_modified _ _
        (λ _.
          if_ind goal streams.write_stream.failed _ _ (λ g. absurd (ground arith))
            (λ _.
              upload_file-Succeeds (close_streams c location streams) net resolved filename location
                h o e))
        (λ g. absurd (ground arith))

  -- If a file is open with a write stream that has not failed, has a mutex, is locally modified in
  -- the cache and can be opened for reading again, and the server answers with status OK to the
  -- messages for its bytes, then `close_file` returns true, and the network is left as by that one
  -- answer: the file is sent once.
  pub close_file-Succeeds :
      (c : Client D) (net : N) (filename directory : Text) (h : ℕ)
      → let resolved = resolve_server_path c directory in
        let location = file_location c resolved filename in
        let requests =
          upload_requests resolved filename c.client_id (content_chunks (os.bytes c.disk h)) in
        let answer = stub.close_file net (taken (stub.accepts net) 0 requests) in
        (is_writable c location ≡ true
          → contains location c.file_mutexes ≡ true
          → is_modified c location ≡ true
          → os.open_read c.disk location ≡ some h
          → is_ok answer.0 ≡ true
          → Succeeds answer.2 (close_file os stub c net filename directory))
  unfolding close_file is_modified is_writable
  close_file-Succeeds c net filename directory h w k m o e =
      let resolved = resolve_server_path c directory in
      let location = file_location c resolved filename in
      let goal = Succeeds _ in
      option_ind goal (get location c.opened_files) _ _ (λ f. absurd (ground arith))
        (λ streams s.
          if_ind goal (contains location c.file_mutexes) _ _
            (λ _.
              option_ind goal (get location c.cache) _ _ (λ f. absurd (ground arith))
                (λ info i.
                  close_found-Succeeds c net resolved filename location streams info h
                    (modified_info (get location c.cache) info i m)
                    (writable_stream (get location c.opened_files) streams s w) o e))
            (λ f. absurd (ground arith)))
