-- ===== src/Client/Sent.antt =====
-- What `close_file` of Basic_Operation/client_code/filesystem_client.cpp sends, and what it leaves.

-- The bytes that the messages carry.

use distributed_filesystem.Base.{
  Bool, List, Option, [], ap, arith, bool_ind, concat, concat-chunks, false, if_ind, none,
  option_ind, refl, some, subst, suc, true, zero, ℕ, ◌++◌, ◌∙◌, ◌∷◌, ◌≡◌,
}
use distributed_filesystem.Client.Closing.{
  close_file, close_found, close_streams, content_chunks, finish_upload, record_upload, taken,
  upload_file, upload_requests, upload_tries,
}
use distributed_filesystem.Client.Files.{erase_opened, has_key}
use distributed_filesystem.Client.Paths.{file_location, resolve_server_path}
use distributed_filesystem.Client.State.{Client, FileInfo, FileStreams}
use distributed_filesystem.Client.Stub.{Stub}
use distributed_filesystem.Client.Tables.{removed_key}
use distributed_filesystem.Dict.{get}
use distributed_filesystem.Members.{contains}
use distributed_filesystem.Os.{Os}
use distributed_filesystem.Text.{Text}
use distributed_filesystem.Wire.{FileRequest, StatusCode, is_ok}

abbrev pub contents : List FileRequest → List ℕ
contents [] = []
contents (r ∷ rest) = r.content ++ contents rest

contents-upload_requests :
    (resolved filename client : Text) (pieces : List (List ℕ))
    → contents (upload_requests resolved filename client pieces) ≡ concat pieces
unfolding upload_requests concat
contents-upload_requests resolved filename client [] = refl
contents-upload_requests resolved filename client (chunk ∷ rest) =
    ap (◌++◌ chunk) (contents-upload_requests resolved filename client rest)

pub concat-content_chunks : (bs : List ℕ) → concat (content_chunks bs) ≡ bs
unfolding concat
concat-content_chunks [] = refl
concat-content_chunks (b ∷ bs) = concat-chunks 4095 (b ∷ bs)

module _ {N : Type 0} (stub : Stub N) (requests : List FileRequest) where
  -- A try whose answer this is, sent on some state of the network.
  abbrev pub Sent : StatusCode × ℕ × N → Type 0
  Sent r = (net : N) × (stub.close_file net (taken (stub.accepts net) 0 requests) ≡ r)

  upload_tries-Sent :
      (left : ℕ) (status : StatusCode) (timestamp : ℕ) (net : N)
      → (is_ok status ≡ true → Sent (status, timestamp, net))
      → let r = upload_tries stub left status timestamp net requests in (is_ok r.0 ≡ true → Sent r)
  unfolding upload_tries
  upload_tries-Sent zero status timestamp net h = h
  upload_tries-Sent (suc left) status timestamp net h =
      bool_ind (λ r. is_ok r.0 ≡ true → Sent r) (is_ok status) _ _ (λ _. h)
        (λ _. upload_tries-Sent left _ _ _ (λ _. (net, refl)))

-- Whether the file is in the cache with changes that the server does not have.
unfoldable pub is_modified : {D : Type 0} → Client D → Text → Bool
unfolding get
is_modified c location = elim (get location c.cache) [
  | none ↦ false
  | some info ↦ info.locally_modified
]

pub modified_info :
    (o : Option FileInfo) (info : FileInfo)
    → o ≡ some info
    → elim o [ none ↦ false | some i ↦ i.locally_modified ] ≡ true
    → info.locally_modified ≡ true
modified_info o info e m =
    subst (λ o. elim o [ none ↦ false | some i ↦ i.locally_modified ] ≡ true) e m

module _ {D N : Type 0} (os : Os D) (stub : Stub N) where
  -- What a successful upload of the file at `location` has sent, and what it leaves.
  unfoldable pub IsUploaded : Client D → Text → Text → Text → Client D → Type 0
  unfolding upload_requests taken has_key
  IsUploaded c resolved filename location c' =
      (h : ℕ) × (net : N) × (status : StatusCode) × (timestamp : ℕ) × (net' : N) × let requests =
          upload_requests resolved filename c.client_id (content_chunks (os.bytes c.disk h)) in
        (os.open_read c.disk location ≡ some h)
        × (stub.close_file net (taken (stub.accepts net) 0 requests) ≡ (status, timestamp, net'))
        × (is_ok status ≡ true)
        × (contents requests ≡ os.bytes c.disk h)
        × (has_key location c'.opened_files ≡ false)

  abbrev Uploaded : Client D → Text → Text → Text → Bool × Client D × N → Type 0
  Uploaded c resolved filename location r = r.0 ≡ true → IsUploaded c resolved filename location r.1

  finish_upload-IsUploaded :
      (c : Client D) (resolved filename location key : Text) (h : ℕ) (r : StatusCode × ℕ × N)
      → os.open_read c.disk location ≡ some h
      → let requests =
          upload_requests resolved filename c.client_id (content_chunks (os.bytes c.disk h)) in
        (is_ok r.0 ≡ true → Sent stub requests r)
        → let (done, c', net') = finish_upload os stub c location key r in
          (done ≡ true → IsUploaded c resolved filename location c')
  unfolding finish_upload record_upload erase_opened IsUploaded
  finish_upload-IsUploaded c resolved filename location key h (status, timestamp, net) e s =
      if_ind (Uploaded c resolved filename location) (is_ok status) _ _
        (λ done _.
          let (sent, q) = s done in
          let bytes = contents-upload_requests _ _ _ _ ∙ concat-content_chunks _ in
          (
            h,
            sent,
            status,
            timestamp,
            net,
            (e, q, done, bytes, removed_key location c.opened_files),
          ))
        (λ _ q. absurd (ground arith))

  upload_file-IsUploaded :
      (c : Client D) (net : N) (resolved filename location : Text)
      → let (done, c', net') = upload_file os stub c net resolved filename location in
        (done ≡ true → IsUploaded c resolved filename location c')
  unfolding upload_file
  upload_file-IsUploaded c net resolved filename location =
      option_ind (Uploaded c resolved filename location) (os.open_read c.disk location) _ _
        (λ _ q. absurd (ground arith))
        (λ h e.
          finish_upload-IsUploaded c resolved filename location _ h _ e
            (upload_tries-Sent stub _ 3 StatusCode.unknown 0 net (λ q. absurd (ground arith))))

  close_found-IsUploaded :
      (c : Client D) (net : N) (resolved filename location : Text) (streams : FileStreams)
      (info : FileInfo)
      → info.locally_modified ≡ true
      → let (done, c', net') = close_found os stub c net resolved filename location streams info in
        (done ≡ true → IsUploaded c resolved filename location c')
  unfolding close_found close_streams IsUploaded
  close_found-IsUploaded c net resolved filename location streams info e =
      let goal = Uploaded c resolved filename location in
      if_ind goal info.locally_modified _ _
        (λ _.
          if_ind goal streams.write_stream.failed _ _ (λ _ q. absurd (ground arith))
            (λ _.
              upload_file-IsUploaded (close_streams c location streams) net resolved filename
                location))
        (λ e' _. absurd (ground arith))

  -- If `close_file` returns true for a file whose cache entry is locally modified, then some try,
  -- on some state of the network, was answered with status OK; the messages of that try are those
  -- of a list (up to the first `Write` that was refused) whose contents together are exactly the
  -- bytes of the local file, with the file's name, its directory on the server and the client's id;
  -- and the file is no longer among the opened files.
  pub close_file-IsUploaded :
      (c : Client D) (net : N) (filename directory : Text)
      → let resolved = resolve_server_path c directory in
        let location = file_location c resolved filename in
        (is_modified c location ≡ true
          → (close_file os stub c net filename directory).0 ≡ true
          → IsUploaded c resolved filename location (close_file os stub c net filename directory).1)
  unfolding close_file is_modified
  close_file-IsUploaded c net filename directory m =
      let resolved = resolve_server_path c directory in
      let location = file_location c resolved filename in
      let goal = Uploaded c resolved filename location in
      option_ind goal (get location c.opened_files) _ _ (λ _ q. absurd (ground arith))
        (λ streams _.
          if_ind goal (contains location c.file_mutexes) _ _
            (λ _.
              option_ind goal (get location c.cache) _ _ (λ _ q. absurd (ground arith))
                (λ info e.
                  close_found-IsUploaded c net resolved filename location streams info
                    (modified_info (get location c.cache) info e m)))
            (λ _ q. absurd (ground arith)))
