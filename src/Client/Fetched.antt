-- ===== src/Client/Fetched.antt =====
-- When `open_file` of Basic_Operation/client_code/filesystem_client.cpp succeeds for a file that is
-- not in the cache.

use distributed_filesystem.Base.{
  List, [], ap, arith, bool_ind, false, if_ind, none, not, option_ind, refl, some, subst, sym, true,
  ℕ, ◌==◌, ◌∙◌, ◌∷◌, ◌≡◌,
}
use distributed_filesystem.Client.Files.{both_streams, fresh_stream, mark_opened, open_streams}
use distributed_filesystem.Client.Opening.{
  Download, Try, after_download, close_outfile, download, download_tries, finish_download, gives_up,
  open_downloaded, open_file, open_missing, save_responses, tried, write_response,
}
use distributed_filesystem.Client.Paths.{cache_dir, open_location, resolve_server_path, server_key}
use distributed_filesystem.Client.Received.{
  close_outfile-Holds, failed-close_outfile, received, save_responses-Holds, try_ind,
}
use distributed_filesystem.Client.State.{Answer, Client, FileStreams, answers}
use distributed_filesystem.Client.Stub.{Stub}
use distributed_filesystem.Dict.{get}
use distributed_filesystem.Os.{ClosesSucceed, IsFaithful, Os}
use distributed_filesystem.Server.Roundtrip.{WritesSucceed}
use distributed_filesystem.Text.{Text}
use distributed_filesystem.Wire.{FileRequest, FileResponse, StatusCode, is_ok}

none-some {ℓ} : {A : Type ℓ} {a : A} → none ≡ some a → ⊥
none-some e = ground arith

some-inj {ℓ} : {A : Type ℓ} {a b : A} → some a ≡ some b → a ≡ b
some-inj e = cc

module _ {D : Type 0} (os : Os D) (all_written : WritesSucceed os) (h : ℕ) where
  write_response-done :
      (u : Download D) (r : FileResponse)
      → u.failed ≡ false
      → (write_response os h u r).failed ≡ false
  unfolding write_response
  write_response-done u r f =
      if_ind (λ (v : Download D). v.failed ≡ false) (r.length == 0) _ _ (λ _. f)
        (λ _. ap not (all_written u.disk h u.position r.content))

  save_responses-done :
      (u : Download D) (rs : List FileResponse)
      → u.failed ≡ false
      → (save_responses os h u rs).failed ≡ false
  unfolding save_responses
  save_responses-done u [] f = f
  save_responses-done u (r ∷ rest) f =
      let v = write_response-done u r f in
      if_ind (λ (v : Download D). v.failed ≡ false) (write_response os h u r).failed _ _
        (λ e. absurd (ground arith)) (λ _. save_responses-done (write_response os h u r) rest v)

module _ {D N : Type 0} (os : Os D) (stub : Stub N) (location : Text) (h : ℕ) (net' : N)
    (bs : List ℕ) where
  -- A try that has worked, and whose file can be opened.
  abbrev Ready : Try D N → Type 0
  Ready (gives_up c net) = false ≡ true
  Ready (tried status c net) =
      (is_ok status ≡ true)
      × (os.open_read c.disk location ≡ some h)
      × (net ≡ net')
      × (os.bytes c.disk h ≡ bs)

  after_download-Ready :
      (c : Client D) (key filename : Text) (status : StatusCode) (u : Download D)
      → u.failed ≡ false
      → is_ok status ≡ true
      → os.open_read u.disk location ≡ some h
      → os.bytes u.disk h ≡ bs
      → Ready (after_download os stub c net' location key filename status u)
  unfolding after_download
  after_download-Ready c key filename status u f e o b =
      if_ind Ready u.failed _ _ (λ g. absurd (ground arith)) (λ _. (e, o, refl, b))

  download_tries-Ready :
      (c : Client D) (net : N) (request : FileRequest) (key : Text)
      → Ready (download os stub c net request location key)
      → Ready (download_tries os stub 3 StatusCode.unknown c net request location key)
  unfolding download_tries
  download_tries-Ready c net request key w =
      try_ind Ready (download os stub c net request location key) _ w
        (λ status c' n' r. bool_ind Ready (is_ok status) _ _ (λ _. r) (λ f. absurd (ground arith)))

  abbrev pub OpensWith : Answer × Client D × N → Type 0
  OpensWith r =
      (r.0 ≡ answers true)
      × (r.2 ≡ net')
      × (os.open_read r.1.disk location ≡ some h)
      × (os.bytes r.1.disk h ≡ bs)

  open_downloaded-OpensWith :
      (c : Client D) (net : N)
      → ((d : D) → os.open_read d location ≡ some h → os.open_update d location ≡ some h)
      → os.open_read c.disk location ≡ some h
      → net ≡ net'
      → os.bytes c.disk h ≡ bs
      → OpensWith (open_downloaded os stub c net location)
  unfolding open_downloaded open_streams mark_opened
  open_downloaded-OpensWith c net may o n b =
      let streams : FileStreams = record {
        read_stream = fresh_stream h;
        write_stream = fresh_stream h;
      } in
      let found_both : both_streams (os.open_read c.disk location) (os.open_update c.disk location)
          ≡ some streams =
        λ i. both_streams (o i) (may c.disk o i) in
      option_ind OpensWith
        (both_streams (os.open_read c.disk location) (os.open_update c.disk location)) _ _
        (λ e. absurd (none-some (sym e ∙ found_both))) (λ s _. (refl, n, o, b))

  finish_download-OpensWith :
      (t : Try D N)
      → ((d : D) → os.open_read d location ≡ some h → os.open_update d location ≡ some h)
      → Ready t
      → OpensWith (finish_download os stub t location)
  unfolding finish_download
  finish_download-OpensWith (gives_up c net) may r = absurd (ground arith)
  finish_download-OpensWith (tried status c net) may r =
      if_ind OpensWith (is_ok status) _ _ (λ _. open_downloaded-OpensWith c net may r.1 r.2 r.3)
        (λ f. absurd (ground arith))

module _ {D N : Type 0} (os : Os D) (stub : Stub N) (faithful : IsFaithful os)
    (all_written : WritesSucceed os) (all_closed : ClosesSucceed os) where
  download-Ready :
      (c : Client D) (net : N) (request : FileRequest) (location key : Text) (h : ℕ)
      → (os.open_trunc c.disk location).0 ≡ some h
      → let (rs, status, net') = stub.open_file net request in
        (is_ok status ≡ true
          → Ready os stub location h net'
              (received rs)
              (download os stub c net request location key))
  unfolding download
  download-Ready c net request location key h o e =
      let (rs, status, net') = stub.open_file net request in
      let d = (os.open_trunc c.disk location).1 in
      let goal = Ready os stub location h net' (received rs) in
      option_ind goal (os.open_trunc c.disk location).0 _ _ (λ f. absurd (none-some (sym f ∙ o)))
        (λ j f.
          let u : Download D = record {
            disk = d;
            last_timestamp = 0;
            position = 0;
            failed = false;
          } in
          let opened : os.open_trunc c.disk location ≡ (some j, d) = λ i. (f i, d) in
          let empty = faithful.open_trunc_empty c.disk d location j opened in
          let again = faithful.open_trunc_found c.disk d location j opened in
          let done = save_responses-done os all_written j u rs refl in
          let v = save_responses os j u rs in
          let held =
            close_outfile-Holds os faithful all_closed location j v (received rs)
              (save_responses-Holds os faithful location j u [] rs (empty, refl, again) done) in
          let same = sym f ∙ o in
          after_download-Ready os stub location h net' (received rs) c key request.filename status
            (close_outfile os j v) (failed-close_outfile os j v ∙ done) e (held.2 ∙ same)
            (subst (λ i. os.bytes (close_outfile os j v).disk i ≡ received rs) (some-inj same)
              held.0))

  -- If the file is not in the cache, the local folder can be made and the local file made empty, a
  -- file that can be read can be opened for update, every write to the disk and every close succeeds, and the server
  -- answers the first call of its `open` with status OK, then `open_file` returns true, and leaves
  -- the network as by that one answer: the file is downloaded once, and the local file holds the
  -- bytes of its responses.
  pub open_file-OpensWith :
      (c : Client D) (net : N) (filename path : Text) (h : ℕ)
      → let resolved = resolve_server_path c path in
        let location = open_location c resolved filename in
        let made = os.create_directories c.disk (cache_dir c resolved) in
        let request : FileRequest = record {
          filename = filename;
          directory = resolved;
          content = [];
          client_id = c.client_id;
        } in
        let (rs, status, net') = stub.open_file net request in
        (((d : D) → os.open_read d location ≡ some h → os.open_update d location ≡ some h)
          → get location c.cache ≡ none
          → made.0 ≡ true
          → (os.open_trunc made.1 location).0 ≡ some h
          → is_ok status ≡ true
          → OpensWith os stub location h net' (received rs) (open_file os stub c net filename path))
  unfolding open_file open_missing
  open_file-OpensWith c net filename path h may m k o e =
      let resolved = resolve_server_path c path in
      let location = open_location c resolved filename in
      let request : FileRequest = record {
        filename = filename;
        directory = resolved;
        content = [];
        client_id = c.client_id;
      } in
      let made = os.create_directories c.disk (cache_dir c resolved) in
      let c' : Client D = record c { disk = made.1 } in
      let key = server_key resolved filename in
      let net' = (stub.open_file net request).2 in
      let bs = received (stub.open_file net request).0 in
      let goal = OpensWith os stub location h net' bs in
      option_ind goal (get location c.cache) _ _
        (λ _.
          if_ind goal made.0 _ _
            (λ _. finish_download-OpensWith os stub location h net' bs _ may (
              download_tries-Ready os stub location h net' bs c' net request key
                (download-Ready c' net request location key h o e)))
            (λ f. absurd (ground arith)))
        (λ info f. absurd (none-some (sym m ∙ f)))
