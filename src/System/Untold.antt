-- ===== src/System/Untold.antt =====
-- A client that has a file in its cache and is not registered for it: the handler `close` of
-- Basic_Operation/server_code/filesystem_server.cpp registers nobody for a path that has clients.

use distributed_filesystem.Base.{List, ap, arith, false, refl, some, subst, sym, true, ℕ, ◌∙◌, ◌≡◌}
use distributed_filesystem.Client.Closing.{close_file, content_chunks, upload_requests}
use distributed_filesystem.Client.Fewer.{close_file-has_key}
use distributed_filesystem.Client.Files.{has_key}
use distributed_filesystem.Client.Paths.{file_location, resolve_server_path}
use distributed_filesystem.Client.Sent.{is_modified}
use distributed_filesystem.Client.State.{Client}
use distributed_filesystem.Dict.{get}
use distributed_filesystem.Members.{contains}
use distributed_filesystem.Os.{IsFaithful, Os}
use distributed_filesystem.Server.Calls.{closes, serve}
use distributed_filesystem.Server.Inbox.{inbox}
use distributed_filesystem.Server.Invariant.{serve-IsWellFormed}
use distributed_filesystem.Server.Roundtrip.{WritesSucceed}
use distributed_filesystem.Server.State.{Server}
use distributed_filesystem.Server.Transfer.{close_handler}
use distributed_filesystem.Server.Watches.{watches, watches-some}
use distributed_filesystem.Server.WellFormed.{IsWellFormed}
use distributed_filesystem.System.Network.{server_stub}
use distributed_filesystem.System.Stored.{
  CanFlush, CanStore, close_file-close_handler, upload-IsPublished,
}
use distributed_filesystem.Text.{Text, join_path}

-- The client is not registered for the path, and has not been told anything.
abbrev pub IsUntold : {D : Type 0} → Server D → Server D → Text → Text → Type 0
IsUntold s t path id = (watches t.file_map path id ≡ false) × (inbox t id ≡ inbox s id)

modified_key :
    {D : Type 0} (c : Client D) (location : Text)
    → is_modified c location ≡ true
    → has_key location c.cache ≡ true
unfolding is_modified has_key
modified_key c location h = ground arith

module _ {DA DS : Type 0} (os_a : Os DA) (os : Os DS) (faithful : IsFaithful os)
    (succeeds : WritesSucceed os) where
  -- An upload of a path that has clients leaves everyone else untold.
  close_handler-IsUntold :
      (s : Server DS)
      → IsWellFormed s
      → (a : Client DA) (filename path : Text) (h : ℕ) → CanFlush os_a a filename path h
      → CanStore os s (resolve_server_path a path) filename
      → (clients : List Text) (id : Text)
      → get (join_path (resolve_server_path a path) filename) s.file_map ≡ some clients
      → contains id clients ≡ false
      → let t = (close_file os_a (server_stub os) a s filename path).2 in
        IsUntold s t (join_path (resolve_server_path a path) filename) id
        × (get (join_path (resolve_server_path a path) filename) t.file_map ≡ some clients)
        × IsWellFormed t
  close_handler-IsUntold s w a filename path h can_a can clients id e out =
      let directory = resolve_server_path a path in
      let p = join_path directory filename in
      let bs = os_a.bytes a.disk h in
      let sent = upload_requests directory filename a.client_id (content_chunks bs) in
      let t = (close_handler os s sent).2 in
      let published =
        upload-IsPublished os faithful succeeds s w directory filename a.client_id can bs in
      let kept : get p t.file_map ≡ some clients = published.2 ∙ rw e refl in
      let before = watches-some s.file_map p id clients e ∙ out in
      subst (λ u. IsUntold s u p id × (get p u.file_map ≡ some clients) × IsWellFormed u)
        (sym (close_file-close_handler os_a os faithful succeeds s w a filename path h can_a can).1)
        (
          (watches-some t.file_map p id clients kept ∙ out, published.1 id ∙ rw before refl),
          kept,
          unfold serve in serve-IsWellFormed os s w (closes sent),
        )

  -- A client can have a file in its cache and not be told of its changes: if the path has registered
  -- clients, and a client that is not among them, as one that has created the file may be, closes the
  -- file, which it has open, modified and writable, and then a second client closes its own change to
  -- the file, and the server can store both, then both closes return true; the first client still has
  -- the file in its cache; it is not registered for the path; and its inbox is as it was before.
  pub close_file-IsUntold :
      (s : Server DS)
      → IsWellFormed s
      → (a b : Client DA) (filename path : Text) (h k : ℕ) (clients : List Text)
      → get (join_path (resolve_server_path a path) filename) s.file_map ≡ some clients
      → contains a.client_id clients ≡ false
      → CanFlush os_a a filename path h
      → CanStore os s (resolve_server_path a path) filename
      → resolve_server_path b path ≡ resolve_server_path a path
      → CanFlush os_a b filename path k
      → CanStore os
          (close_file os_a (server_stub os) a s filename path).2
          (resolve_server_path b path)
          filename
      → let (done, a', t) = close_file os_a (server_stub os) a s filename path in
        let (done', b', u) = close_file os_a (server_stub os) b t filename path in
        (done ≡ true)
        × (done' ≡ true)
        × (has_key (file_location a (resolve_server_path a path) filename) a'.cache ≡ true)
        × IsUntold s u (join_path (resolve_server_path a path) filename) a.client_id
  close_file-IsUntold s w a b filename path h k clients e out can_a can same can_b can' =
      let directory = resolve_server_path a path in
      let p = join_path directory filename in
      let t = (close_file os_a (server_stub os) a s filename path).2 in
      let (first, kept, formed) =
        close_handler-IsUntold s w a filename path h can_a can clients a.client_id e out in
      let (second, kept', formed') =
        close_handler-IsUntold t formed b filename path k can_b can' clients a.client_id
          (ap (λ d. get (join_path d filename) t.file_map) same ∙ kept) out in
      let u = (close_file os_a (server_stub os) b t filename path).2 in
      let there = subst (λ d. IsUntold t u (join_path d filename) a.client_id) same second in
      (
        (close_file-close_handler os_a os faithful succeeds s w a filename path h can_a can).0,
        (close_file-close_handler os_a os faithful succeeds t formed b filename path k can_b
            can').0,
        close_file-has_key os_a (server_stub os) a s filename path _
            ∙ modified_key a _ can_a.modified,
        (there.0, there.1 ∙ first.1),
      )
