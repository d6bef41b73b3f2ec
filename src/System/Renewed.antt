-- ===== src/System/Renewed.antt =====
-- A client that has handled a notification opens the file again: `RunSubscriber` of
-- Basic_Operation/client_code/client_subscriber.hpp and `open_file` of
-- Basic_Operation/client_code/filesystem_client.cpp, over the handlers of
-- Basic_Operation/server_code/filesystem_server.cpp.

-- A notification changes the cache and the cached attributes only.
use distributed_filesystem.Base.{
  List, ap, false, if_ind, none, option_ind, refl, some, subst, sym, true, ℕ, ◌∙◌, ◌≡◌,
}
use distributed_filesystem.Client.Closing.{close_file, content_chunks, upload_requests}
use distributed_filesystem.Client.Files.{has_key}
use distributed_filesystem.Client.Opening.{open_file}
use distributed_filesystem.Client.Paths.{cache_dir, open_location, resolve_server_path}
use distributed_filesystem.Client.Rooted.{open_location-cache_dir}
use distributed_filesystem.Client.State.{Client, FileAttributes, FileInfo, answers}
use distributed_filesystem.Client.Subscriber.{handle_notification, invalidate}
use distributed_filesystem.Dict.{Dict, get}
use distributed_filesystem.Os.{ClosesSucceed, IsFaithful, Os}
use distributed_filesystem.Server.Inbox.{inbox, told}
use distributed_filesystem.Server.Queries.{attributes}
use distributed_filesystem.Server.Roundtrip.{WritesSucceed}
use distributed_filesystem.Server.State.{Server}
use distributed_filesystem.Server.Transfer.{close_handler, update_notification}
use distributed_filesystem.Server.WellFormed.{IsWellFormed}
use distributed_filesystem.System.Network.{server_stub}
use distributed_filesystem.System.Passing.{CanFetch, HasFile, fetched-HasFile}
use distributed_filesystem.System.Promise.{Reach-LearnsOf, absolute, reached-AllRegistered}
use distributed_filesystem.System.Stored.{
  CanFlush, CanStore, close_file-close_handler, upload-Stored,
}
use distributed_filesystem.System.World.{IsFresh, Reach, World}
use distributed_filesystem.Text.{Text, join_path, text_eq}
use distributed_filesystem.Wire.{Notification}

abbrev Changes : {D : Type 0} → Client D → Client D → Type 0
Changes c c' = c' ≡ record c { cache = c'.cache; cached_attr = c'.cached_attr }

handle_notification-Changes :
    {D : Type 0} (c : Client D) (note : Notification) → Changes c (handle_notification c note)
unfolding handle_notification invalidate
handle_notification-Changes c note =
    let location = cache_dir c note.directory in
    if_ind (Changes c) (has_key location c.opened_files) _ _ (λ _. refl)
      (λ _. option_ind (Changes c) (get location c.cache) _ _ (λ _. refl) (λ info _. refl))

-- The disk of a client can take a download of the file.
pub record CanDownload {D : Type 0} (os : Os D) (c : Client D) (filename path : Text) (h : ℕ)
    : Type 0 where
  pub made : (os.create_directories c.disk (cache_dir c (resolve_server_path c path))).0 ≡ true
  pub truncates_file :
      (os.open_trunc
        (os.create_directories c.disk (cache_dir c (resolve_server_path c path))).1
        (open_location c (resolve_server_path c path) filename)).0
      ≡ some h
  pub updates :
      (d : D)
      → os.open_read d (open_location c (resolve_server_path c path) filename) ≡ some h
      → os.open_update d (open_location c (resolve_server_path c path) filename) ≡ some h

download-CanFetch :
    {D : Type 0} (os : Os D) (c : Client D) (filename path : Text) (h : ℕ) (cache : Dict FileInfo)
    (attributes : Dict FileAttributes)
    → CanDownload os c filename path h
    → get (open_location c (resolve_server_path c path) filename) cache ≡ none
    → CanFetch os (record c { cache = cache; cached_attr = attributes }) filename path h
unfolding resolve_server_path open_location cache_dir
download-CanFetch os c filename path h cache attributes can uncached = record {
  uncached = uncached;
  made = can.made;
  truncates_file = can.truncates_file;
  updates = can.updates;
}

module _ {DA DB DS : Type 0} (os_a : Os DA) (os_b : Os DB) (os : Os DS) (faithful : IsFaithful os)
    (succeeds : WritesSucceed os) (faithful_b : IsFaithful os_b) (succeeds_b : WritesSucceed os_b)
    (closed_b : ClosesSucceed os_b) where
  abbrev RenewsFrom : Client DB → Client DB → Server DS → Text → Text → ℕ → List ℕ → Type 0
  RenewsFrom b c t filename path k bs =
      let (answer, b', u) = open_file os_b (server_stub os) c t filename path in
      (answer ≡ answers true)
      × HasFile os_b b'.disk (open_location b (resolve_server_path b path) filename) k bs

  -- What a client reads that opens the file after it has been told.
  abbrev pub Renews : Client DB → Server DS → Text → Text → ℕ → List ℕ → Notification → Type 0
  Renews b t filename path k bs note =
      RenewsFrom b (handle_notification b note) t filename path k bs

  pub handle_notification-Renews :
      (s : Server DS)
      → IsWellFormed s
      → (a : Client DA) (b : Client DB) (filename path : Text) (h k : ℕ) (note : Notification)
      → CanFlush os_a a filename path h
      → CanStore os s (resolve_server_path a path) filename
      → resolve_server_path b path ≡ resolve_server_path a path
      → CanDownload os_b b filename path k
      → get
          (open_location b (resolve_server_path b path) filename)
          (handle_notification b note).cache
        ≡ none
      → Renews b
          (close_file os_a (server_stub os) a s filename path).2
          filename
          path
          k
          (os_a.bytes a.disk h)
          note
  unfolding resolve_server_path open_location cache_dir
  handle_notification-Renews s w a b filename path h k note can_a can same fetch gone =
      let directory = resolve_server_path a path in
      let bs = os_a.bytes a.disk h in
      let sent = upload_requests directory filename a.client_id (content_chunks bs) in
      let (fine, stored) =
        upload-Stored os faithful succeeds s w directory filename a.client_id can bs in
      let left =
        (close_file-close_handler os_a os faithful succeeds s w a filename path h can_a can).1 in
      let after = handle_notification b note in
      let renewed : Client DB = record b { cache = after.cache; cached_attr = after.cached_attr } in
      let t = (close_handler os s sent).2 in
      subst (λ t. RenewsFrom b after t filename path k bs) (sym left)
        (subst (λ c. RenewsFrom b c t filename path k bs) (sym (handle_notification-Changes b note))
          (fetched-HasFile os_a os_b os faithful succeeds faithful_b succeeds_b closed_b renewed t
            filename path k bs
            (download-CanFetch os_b b filename path k after.cache after.cached_attr fetch gone)
            (λ r d f. stored r (d ∙ same) f)))

module _ {DC DS : Type 0} (os_c : Os DC) (os : Os DS) (w v : World DC DS) (fresh : IsFresh w)
    (reached : Reach os_c os w v) (faithful : IsFaithful os) (succeeds : WritesSucceed os)
    (faithful_c : IsFaithful os_c) (succeeds_c : WritesSucceed os_c)
    (closed_c : ClosesSucceed os_c) where
  -- Caches become right again, on disks that behave as documented and on which no write and, at the
  -- clients, no close of a stream fails: in every state that a fresh one reaches by steps of
  -- `System.World`, if a client closes a file that it has open, modified and writable, and the server
  -- can store it, and another client has the same path for the file, has it in its cache and not open,
  -- and its disk can take a download, then an UPDATE joins the other client's inbox, if it has
  -- subscribed; and once it has handled that message, its `open_file` returns true and its local copy
  -- holds the bytes of the file that was closed.
  pub Reach-Renews :
      (i j : ℕ) (filename path : Text) (h k : ℕ)
      → CanFlush os_c (v.clients i) filename path h
      → CanStore os v.server (resolve_server_path (v.clients i) path) filename
      → resolve_server_path (v.clients j) path ≡ resolve_server_path (v.clients i) path
      → text_eq (v.clients j).client_id (v.clients i).client_id ≡ false
      → has_key
          (cache_dir (v.clients j) (join_path (resolve_server_path (v.clients i) path) filename))
          (v.clients j).cache
        ≡ true
      → has_key
          (cache_dir (v.clients j) (join_path (resolve_server_path (v.clients i) path) filename))
          (v.clients j).opened_files
        ≡ false
      → CanDownload os_c (v.clients j) filename path k
      → let (done, a', t) = close_file os_c (server_stub os) (v.clients i) v.server filename path in
        (timestamp : ℕ) × let note =
            update_notification
              (join_path (resolve_server_path (v.clients i) path) filename)
              timestamp in
          (inbox t (v.clients j).client_id ≡ told note (inbox v.server (v.clients j).client_id))
          × Renews os_c os_c os faithful succeeds faithful_c succeeds_c closed_c
              (v.clients j)
              t
              filename
              path
              k
              (os_c.bytes (v.clients i).disk h)
              note
  Reach-Renews i j filename path h k can_flush can_store same other cached shut fetch =
      let (timestamp, heard, gone) =
        Reach-LearnsOf os_c os w v fresh reached faithful succeeds i j filename path h can_flush
          can_store other cached shut in
      let (q, r, joined, rooted) = absolute os_c os w v fresh reached i filename path in
      let b = v.clients j in
      let note =
        update_notification (join_path (resolve_server_path (v.clients i) path) filename)
          timestamp in
      let spot =
        ap (λ d. open_location b d filename) (same ∙ rooted)
        ∙ open_location-cache_dir b b'/' r filename
        ∙ ap (λ d. cache_dir b (join_path d filename)) (sym rooted) in
      let registered = reached-AllRegistered os_c os w v fresh reached in
      (
        timestamp,
        (
          heard,
          handle_notification-Renews os_c os_c os faithful succeeds faithful_c succeeds_c closed_c
              v.server registered.formed (v.clients i) b filename path h k note can_flush can_store
              same fetch (ap (λ l. get l (handle_notification b note).cache) spot ∙ gone),
        ),
      )
