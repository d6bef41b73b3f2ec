-- ===== src/Client/Missed.antt =====
-- A notification that arrives while the file is open: `RunSubscriber` of
-- Basic_Operation/client_code/client_subscriber.hpp, and `close_file` and `open_file` of
-- Basic_Operation/client_code/filesystem_client.cpp after it.

use distributed_filesystem.Base.{
  Bool, ap, false, if◌then◌else◌, none, refl, some, sym, true, ◌∙◌, ◌∷◌, ◌≡◌,
}
use distributed_filesystem.Client.Closing.{close_file, close_found}
use distributed_filesystem.Client.Files.{erase_opened, has_key, mark_opened, open_streams}
use distributed_filesystem.Client.Opening.{open_cached, open_file}
use distributed_filesystem.Client.Paths.{
  cache_dir, file_location, open_location, resolve_server_path,
}
use distributed_filesystem.Client.Rooted.{resolve_server_path-cons}
use distributed_filesystem.Client.State.{Client, FileInfo, FileStreams, answers}
use distributed_filesystem.Client.Stub.{Stub}
use distributed_filesystem.Client.Subscriber.{handle_notification, invalidate}
use distributed_filesystem.Client.Tables.{has_key-some}
use distributed_filesystem.Client.Truncated.{open_location-file_location}
use distributed_filesystem.Dict.{get, get-remove_self}
use distributed_filesystem.Members.{contains}
use distributed_filesystem.Os.{Os}
use distributed_filesystem.Text.{Text}
use distributed_filesystem.Wire.{Notification}

module _ {D : Type 0} (c : Client D) where
  handle_notification_open :
      (note : Notification)
      → has_key (cache_dir c note.directory) c.opened_files ≡ true
      → handle_notification c note ≡ c
  unfolding handle_notification
  handle_notification_open note e =
      ap (λ b. if b then c else invalidate c (cache_dir c note.directory) note.directory) e

module _ {D N : Type 0} (os : Os D) (stub : Stub N) (c : Client D) (net : N) where
  pub close_file_unmodified :
      (filename path : Text) (streams : FileStreams) (info : FileInfo)
      → get (file_location c (resolve_server_path c path) filename) c.opened_files ≡ some streams
      → contains (file_location c (resolve_server_path c path) filename) c.file_mutexes ≡ true
      → get (file_location c (resolve_server_path c path) filename) c.cache ≡ some info
      → info.locally_modified ≡ false
      → close_file os stub c net filename path
        ≡ (true, erase_opened c (file_location c (resolve_server_path c path) filename), net)
  unfolding close_file close_found
  close_file_unmodified filename path streams info e m f u =
      rw (close_file, e, m, f, close_found, u) refl

  open_file_cached :
      (filename path : Text) (streams : FileStreams) (info : FileInfo)
      → get (open_location c (resolve_server_path c path) filename) c.cache ≡ some info
      → get (open_location c (resolve_server_path c path) filename) c.opened_files ≡ none
      → open_streams os c.disk (open_location c (resolve_server_path c path) filename)
        ≡ some streams
      → open_file os stub c net filename path ≡ (
        answers true,
        mark_opened c (open_location c (resolve_server_path c path) filename) streams,
        net,
      )
  unfolding open_file open_cached
  open_file_cached filename path streams info e f o = rw (open_file, e, open_cached, f, o) refl

-- The files of a client whose root on the server is absolute.
abbrev file_at : {D : Type 0} → Client D → Text → Text → Text
file_at c filename path = file_location c (resolve_server_path c path) filename

module _ {D N : Type 0} (os : Os D) (stub : Stub N) (c : Client D) (net : N)
    (filename path root : Text) (rooted : c.server_root_path ≡ b'/' ∷ root) where
  opened_where : open_location c (resolve_server_path c path) filename ≡ file_at c filename path
  opened_where =
      let (r, e) = resolve_server_path-cons c b'/' root path rooted in
      ap (λ p. open_location c p filename) e
      ∙ open_location-file_location c b'/' r filename
      ∙ ap (λ p. file_location c p filename) (sym e)

  -- A change that is told while the file is open is missed: if the client has the file open and
  -- unmodified when it handles a notification for it, and the local copy can be opened again, then
  -- `close_file` returns true, and so does the `open_file` that follows, without a word to the server
  -- and with the old local copy: neither the network nor the disk nor the cache entry has changed.
  pub open_file-close_file-handle_notification :
      (note : Notification) (streams streams' : FileStreams) (info : FileInfo)
      → cache_dir c note.directory ≡ file_at c filename path
      → get (file_at c filename path) c.opened_files ≡ some streams
      → contains (file_at c filename path) c.file_mutexes ≡ true
      → get (file_at c filename path) c.cache ≡ some info
      → info.locally_modified ≡ false
      → open_streams os c.disk (file_at c filename path) ≡ some streams'
      → let (done, c', net') = close_file os stub (handle_notification c note) net filename path in
        let (answer, c'', net'') = open_file os stub c' net' filename path in
        (done ≡ true)
        × (answer ≡ answers true)
        × (net'' ≡ net)
        × (c''.disk ≡ c.disk)
        × (get (file_at c filename path) c''.cache ≡ some info)
  unfolding erase_opened mark_opened resolve_server_path open_location file_location
  open_file-close_file-handle_notification note streams streams' info about e m f u o =
      let location = file_at c filename path in
      let heard = handle_notification_open c note (
        ap (λ l. has_key l c.opened_files) about
        ∙ has_key-some location c.opened_files streams e) in
      let shut =
        ap (λ d. close_file os stub d net filename path) heard
        ∙ close_file_unmodified os stub c net filename path streams info e m f u in
      let c' = erase_opened c location in
      let opened =
        open_file_cached os stub c' net filename path streams' info
          (ap (λ l. get l c.cache) opened_where ∙ f)
          (ap (λ l. get l c'.opened_files) opened_where ∙ get-remove_self location c.opened_files)
          (ap (λ l. open_streams os c.disk l) opened_where ∙ o) in
      let both =
        ap (λ (r : Bool × Client D × N). open_file os stub r.1 r.2 filename path) shut ∙ opened in
      (
        ap (λ r. r.0) shut,
        ap (λ r. r.0) both,
        ap (λ r. r.2) both,
        ap (λ r. r.1.disk) both,
        ap (λ r. get location r.1.cache) both ∙ f,
      )
