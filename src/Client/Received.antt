-- ===== src/Client/Received.antt =====
-- What `open_file` of Basic_Operation/client_code/filesystem_client.cpp leaves on the disk after a
-- download.

use distributed_filesystem.Base.{
  Bool, List, [], ap, append-nil, append_assoc, arith, bool_ind, false, if_ind, if◌then◌else◌,
  length, length-append, none, not, option_ind, refl, some, subst, suc, sym, true, zero, ℕ, ◌++◌,
  ◌+◌, ◌==◌, ◌∙◌, ◌∷◌, ◌≡◌,
}
use distributed_filesystem.Client.Files.{mark_opened, open_streams}
use distributed_filesystem.Client.Opening.{
  Download, Try, after_download, close_outfile, discard, download, download_tries, finish_download,
  gives_up, open_downloaded, open_file, open_missing, removal_answer, save_responses, tried,
  write_response,
}
use distributed_filesystem.Client.Paths.{cache_dir, open_location, resolve_server_path, server_key}
use distributed_filesystem.Client.State.{Answer, Client, answers}
use distributed_filesystem.Client.Stub.{Stub}
use distributed_filesystem.Dict.{get}
use distributed_filesystem.Os.{ClosesSucceed, IsFaithful, Os, RemoveResult}
use distributed_filesystem.Text.{Text}
use distributed_filesystem.Wire.{FileRequest, FileResponse, StatusCode, is_ok}

-- The bytes that the loop writes: those of the responses that say they have content.
abbrev received_of : FileResponse → List ℕ
received_of r = if r.length == 0 then [] else r.content

abbrev pub received : List FileResponse → List ℕ
received [] = []
received (r ∷ rest) = received_of r ++ received rest

module _ {D : Type 0} (os : Os D) (faithful : IsFaithful os) (location : Text) (h : ℕ) where
  -- The download has written `bs` so far.
  abbrev pub Holds : Download D → List ℕ → Type 0
  Holds u bs =
      (os.bytes u.disk h ≡ bs) × (u.position ≡ length bs) × (os.open_read u.disk location ≡ some h)

  write_response-Holds :
      (u : Download D) (bs : List ℕ) (r : FileResponse)
      → Holds u bs
      → (write_response os h u r).failed ≡ false
      → Holds (write_response os h u r) (bs ++ received_of r)
  unfolding write_response
  write_response-Holds u bs r w = at (r.length == 0)
    where
      at :
          (b : Bool)
          → let u' = if b then record u { last_timestamp = r.timestamp } else record u {
            disk = (os.write_at u.disk h u.position r.content).1;
            last_timestamp = r.timestamp;
            position = u.position + length r.content;
            failed = not (os.write_at u.disk h u.position r.content).0;
          } in
            (u'.failed ≡ false → Holds u' (bs ++ (if b then [] else r.content)))
      at true f = (w.0 ∙ sym (append-nil bs), w.1 ∙ ap length (sym (append-nil bs)), w.2)
      at false f =
          let c = r.content in
          let done : (os.write_at u.disk h u.position c).0 ≡ true = ground arith in
          let same : os.write_at u.disk h (length (os.bytes u.disk h)) c
              ≡ os.write_at u.disk h u.position c =
            ap (λ n. os.write_at u.disk h n c) (ap length w.0 ∙ sym w.1) in
          let e = (os.write_at u.disk h u.position c).1 in
          (
            faithful.write_end u.disk e h c (same ∙ (λ i. (done i, e))) ∙ ap (λ xs. xs ++ c) w.0,
            ap (λ n. n + length c) w.1 ∙ sym (length-append bs c),
            faithful.write_found u.disk h u.position c location ∙ w.2,
          )

  pub save_responses-Holds :
      (u : Download D) (bs : List ℕ) (rs : List FileResponse)
      → Holds u bs
      → (save_responses os h u rs).failed ≡ false
      → Holds (save_responses os h u rs) (bs ++ received rs)
  unfolding save_responses
  save_responses-Holds u bs [] w = λ f. subst (Holds u) (sym (append-nil bs)) w
  save_responses-Holds u bs (r ∷ rest) w =
      if_ind (λ v. v.failed ≡ false → Holds v (bs ++ (received_of r ++ received rest)))
        (write_response os h u r).failed _ _ (λ e f. absurd (ground arith))
        (λ e f.
          subst (Holds (save_responses os h (write_response os h u r) rest))
            (append_assoc bs (received_of r) (received rest))
            (save_responses-Holds (write_response os h u r) (bs ++ received_of r) rest
              (write_response-Holds u bs r w e) f))

-- The close of the file keeps that, where it does not fail.
pub close_outfile-Holds :
    {D : Type 0} (os : Os D) (faithful : IsFaithful os) (all_closed : ClosesSucceed os)
    (location : Text) (h : ℕ) (u : Download D) (bs : List ℕ)
    → Holds os faithful location h u bs
    → Holds os faithful location h (close_outfile os h u) bs
unfolding close_outfile
close_outfile-Holds os faithful all_closed location h u bs (held, at, there) =
    let d = (os.close_write u.disk h).1 in
    (
      faithful.close_kept u.disk d h (λ i. (all_closed u.disk h i, d)) ∙ held,
      at,
      faithful.close_found u.disk h location ∙ there,
    )

pub failed-close_outfile :
    {D : Type 0} (os : Os D) (h : ℕ) (u : Download D) → (close_outfile os h u).failed ≡ u.failed
unfolding close_outfile
failed-close_outfile os h u = refl

-- A case split on a try that may go on.
pub try_ind {κ} :
    {D N : Type 0} (P : Try D N → Type κ) (t : Try D N) (f : StatusCode → Client D → N → Try D N)
    → P t
    → ((status : StatusCode) (c : Client D) (net : N) → P (tried status c net) → P (f status c net))
    → P (elim t [ gives_up c net ↦ gives_up c net | tried status c net ↦ f status c net ])
try_ind P (gives_up c net) f p h = p
try_ind P (tried status c net) f p h = h status c net p

pub removal_answer_false : (r : RemoveResult) → removal_answer r ≡ answers true → ⊥
unfolding removal_answer
removal_answer_false r q = ground arith

module _ {D N : Type 0} (os : Os D) (stub : Stub N) where
  -- The file at `location` holds what some call of the server's `open`, with status OK, sent for the
  -- request.
  unfoldable pub IsFetched : FileRequest → Text → Client D → Type 0
  IsFetched request location c =
      (h : ℕ) × (net : N) × (rs : List FileResponse) × (status : StatusCode) × (net' : N)
      × (stub.open_file net request ≡ (rs, status, net'))
      × (is_ok status ≡ true)
      × (os.open_read c.disk location ≡ some h)
      × (os.bytes c.disk h ≡ received rs)

module _ {D N : Type 0} (os : Os D) (stub : Stub N) (faithful : IsFaithful os)
    (all_closed : ClosesSucceed os) where
  abbrev Delivers : FileRequest → Text → Try D N → Type 0
  Delivers request location (gives_up c net) = Unit {0}
  Delivers request location (tried status c net) =
      is_ok status ≡ true → IsFetched os stub request location c

  after_download-Delivers :
      (c : Client D) (net : N) (request : FileRequest) (location key : Text) (h : ℕ)
      (u : Download D)
      → let (rs, status, net') = stub.open_file net request in
        ((u.failed ≡ false → Holds os faithful location h u (received rs))
          → Delivers request location
              (after_download os stub c net' location key request.filename status u))
  unfolding after_download IsFetched
  after_download-Delivers c net request location key h u w =
      let (rs, status, net') = stub.open_file net request in
      if_ind (Delivers request location) u.failed _ _ (λ _. tt)
        (λ f e.
          let (written, position, found_again) = w f in
          (h, net, rs, status, net', refl, e, found_again, written))

  download-Delivers :
      (c : Client D) (net : N) (request : FileRequest) (location key : Text)
      → Delivers request location (download os stub c net request location key)
  unfolding download
  download-Delivers c net request location key =
      let (rs, status, net') = stub.open_file net request in
      let d = (os.open_trunc c.disk location).1 in
      option_ind (Delivers request location) (os.open_trunc c.disk location).0 _ _ (λ _. tt)
        (λ h o.
          let u : Download D = record {
            disk = d;
            last_timestamp = 0;
            position = 0;
            failed = false;
          } in
          let opened : os.open_trunc c.disk location ≡ (some h, d) = λ i. (o i, d) in
          let empty = faithful.open_trunc_empty c.disk d location h opened in
          let again = faithful.open_trunc_found c.disk d location h opened in
          let v = save_responses os h u rs in
          after_download-Delivers c net request location key h (close_outfile os h v) (λ f.
            close_outfile-Holds os faithful all_closed location h v (received rs) (
              save_responses-Holds os faithful location h u [] rs (empty, refl, again)
                (sym (failed-close_outfile os h v) ∙ f))))

  download_tries-Delivers :
      (left : ℕ) (status : StatusCode) (c : Client D) (net : N) (request : FileRequest)
      (location key : Text)
      → Delivers request location (tried status c net)
      → Delivers request location (download_tries os stub left status c net request location key)
  unfolding download_tries
  download_tries-Delivers zero status c net request location key w = w
  download_tries-Delivers (suc left) status c net request location key w =
      bool_ind (Delivers request location) (is_ok status) _ _ (λ _. w)
        (λ _.
          try_ind (Delivers request location) (download os stub c net request location key) _
            (download-Delivers c net request location key)
            (λ status' c' net' v.
              download_tries-Delivers left status' c' net' request location key v))

  -- An answer of true, and what it promises.
  abbrev Fetches : FileRequest → Text → Answer × Client D × N → Type 0
  Fetches request location r = r.0 ≡ answers true → IsFetched os stub request location r.1

  finish_download-Fetches :
      (t : Try D N) (request : FileRequest) (location : Text)
      → Delivers request location t
      → Fetches request location (finish_download os stub t location)
  unfolding finish_download open_downloaded discard mark_opened IsFetched
  finish_download-Fetches (gives_up c net) request location w = λ q. absurd (ground arith)
  finish_download-Fetches (tried status c net) request location w =
      if_ind (Fetches request location) (is_ok status) _ _
        (λ e.
          option_ind (Fetches request location) (open_streams os c.disk location) _ _
            (λ _ q. absurd (ground arith)) (λ streams _ _. w e))
        (λ _ q. absurd (removal_answer_false (os.remove c.disk location).0 q))

  -- If no close of an output stream fails, and `open_file` returns true for a file that is not in the
  -- cache, then some call of the server's `open` for that file was answered with status OK, and the local file holds the bytes of the
  -- responses of that one call, in order and each once, whatever earlier tries have written.
  pub open_file-IsFetched :
      (c : Client D) (net : N) (filename path : Text)
      → let resolved = resolve_server_path c path in
        let location = open_location c resolved filename in
        let request : FileRequest = record {
          filename = filename;
          directory = resolved;
          content = [];
          client_id = c.client_id;
        } in
        (get location c.cache ≡ none
          → (open_file os stub c net filename path).0 ≡ answers true
          → IsFetched os stub request location (open_file os stub c net filename path).1)
  unfolding open_file open_missing
  open_file-IsFetched c net filename path m =
      let resolved = resolve_server_path c path in
      let location = open_location c resolved filename in
      let request : FileRequest = record {
        filename = filename;
        directory = resolved;
        content = [];
        client_id = c.client_id;
      } in
      let made = os.create_directories c.disk (cache_dir c resolved) in
      option_ind (Fetches request location) (get location c.cache) _ _
        (λ _.
          if_ind (Fetches request location) made.0 _ _
            (λ _. finish_download-Fetches _ request location (
              download_tries-Delivers 3 StatusCode.unknown (record c { disk = made.1 }) net request
                location (server_key resolved filename) (λ e. absurd (ground arith))))
            (λ _ q. absurd (ground arith)))
        (λ info e. absurd (ground arith))
