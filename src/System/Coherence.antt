-- ===== src/System/Coherence.antt =====
-- A change that one client uploads reaches the cache of another: the handler `close` and its callback
-- (Basic_Operation/server_code/filesystem_server.cpp), and `RunSubscriber`
-- (Basic_Operation/client_code/client_subscriber.hpp).

use distributed_filesystem.Base.{
  [], ap, arith, false, none, refl, subst, sym, true, ℕ, ◌∙◌, ◌∷◌, ◌≡◌,
}
use distributed_filesystem.Client.Closing.{close_file, content_chunks, upload_requests}
use distributed_filesystem.Client.Files.{has_key}
use distributed_filesystem.Client.Paths.{cache_dir, file_location, resolve_server_path}
use distributed_filesystem.Client.Rooted.{cache_dir-join_path}
use distributed_filesystem.Client.Stale.{handle_notification-invalidates}
use distributed_filesystem.Client.State.{Client}
use distributed_filesystem.Client.Subscriber.{handle_notification}
use distributed_filesystem.Dict.{get}
use distributed_filesystem.Os.{IsFaithful, Os}
use distributed_filesystem.Server.Inbox.{inbox, told}
use distributed_filesystem.Server.Roundtrip.{WritesSucceed}
use distributed_filesystem.Server.State.{Server}
use distributed_filesystem.Server.Transfer.{close_handler, update_notification}
use distributed_filesystem.Server.Watches.{watches}
use distributed_filesystem.Server.WellFormed.{IsWellFormed}
use distributed_filesystem.System.Network.{server_stub}
use distributed_filesystem.System.Stored.{
  CanFlush, CanStore, close_file-close_handler, upload-IsPublished,
}
use distributed_filesystem.Text.{Text, is_empty, join_path, text_eq, text_eq_refl}
use distributed_filesystem.Wire.{Notification}

-- The path on the server that a notification names, and the local copy of that file.
pub cache_dir_named :
    {D : Type 0} (c : Client D) (p filename : Text)
    → is_empty p ≡ false
    → cache_dir c (join_path p filename) ≡ file_location c p filename
cache_dir_named c [] filename h = absurd (ground arith)
cache_dir_named c (a ∷ p) filename h = cache_dir-join_path c a p filename

-- A message for a file that is not open takes the file out of the cache.
forgotten :
    {D : Type 0} (b : Client D) (note : Notification) (directory filename : Text)
    → is_empty directory ≡ false
    → has_key (file_location b directory filename) b.opened_files ≡ false
    → note.directory ≡ join_path directory filename
    → get (file_location b directory filename) (handle_notification b note).cache ≡ none
forgotten b note directory filename rooted shut e =
    let location = file_location b directory filename in
    let same = ap (cache_dir b) e ∙ cache_dir_named b directory filename rooted in
    (handle_notification-invalidates b note location note.directory).0
    ∙ rw (same, shut, text_eq_refl location)

-- The client has been told of the change, and once it has read the message it has not the file in
-- its cache.
abbrev pub LearnsOf : {DB DS : Type 0} → Client DB → Text → Text → Server DS → Server DS → Type 0
LearnsOf b path location s t =
    (timestamp : ℕ) × (inbox t b.client_id
      ≡ told (update_notification path timestamp) (inbox s b.client_id))
    × (get location (handle_notification b (update_notification path timestamp)).cache ≡ none)

module _ {DA DB DS : Type 0} (os_a : Os DA) (os : Os DS) (faithful : IsFaithful os)
    (succeeds : WritesSucceed os) where
  -- A change reaches the other caches: if one client closes a file that it has open, modified and
  -- writable, and the server, with its `file_map_mutex` free, can store it and has another client
  -- registered for its path, which does not have the file open, then the other client's inbox, if it
  -- has subscribed, has one more message, an UPDATE for the path; and when the client has handled
  -- that message, its local copy of the file is not in its cache. A client that has not subscribed
  -- has no inbox, and is told nothing.
  pub close_file-LearnsOf :
      (s : Server DS)
      → IsWellFormed s
      → (a : Client DA) (b : Client DB) (filename path : Text) (h : ℕ)
      → CanFlush os_a a filename path h
      → CanStore os s (resolve_server_path a path) filename
      → is_empty (resolve_server_path a path) ≡ false
      → watches s.file_map (join_path (resolve_server_path a path) filename) b.client_id ≡ true
      → text_eq b.client_id a.client_id ≡ false
      → has_key (file_location b (resolve_server_path a path) filename) b.opened_files ≡ false
      → LearnsOf b
          (join_path (resolve_server_path a path) filename)
          (file_location b (resolve_server_path a path) filename)
          s
          (close_file os_a (server_stub os) a s filename path).2
  unfolding join_path update_notification
  close_file-LearnsOf s w a b filename path h can_a can rooted watched other shut =
      let directory = resolve_server_path a path in
      let p = join_path directory filename in
      let bs = os_a.bytes a.disk h in
      let sent = upload_requests directory filename a.client_id (content_chunks bs) in
      let t = (close_handler os s sent).2 in
      let timestamp = (close_handler os s sent).1 in
      let note = update_notification p timestamp in
      let published =
        upload-IsPublished os faithful succeeds s w directory filename a.client_id can bs in
      let (done, left) =
        close_file-close_handler os_a os faithful succeeds s w a filename path h can_a can in
      let heard : inbox t b.client_id ≡ told note (inbox s b.client_id) =
        published.1 b.client_id ∙ rw (watched, other) in
      subst (LearnsOf b p (file_location b directory filename) s) (sym left)
        (timestamp, heard, forgotten b note directory filename rooted shut refl)
