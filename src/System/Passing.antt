-- ===== src/System/Passing.antt =====
-- A file that one client closes and another opens: `close_file` and `open_file`
-- (Basic_Operation/client_code/filesystem_client.cpp) over the handlers `close` and `open`
-- (Basic_Operation/server_code/filesystem_server.cpp).

-- The second client can download a file that it has not cached.
use distributed_filesystem.Base.{List, [], ap, none, refl, some, subst, sym, true, ℕ, ◌∙◌, ◌≡◌}
use distributed_filesystem.Client.Closing.{close_file, content_chunks, upload_requests}
use distributed_filesystem.Client.Fetched.{open_file-OpensWith}
use distributed_filesystem.Client.Opening.{open_file}
use distributed_filesystem.Client.Paths.{cache_dir, open_location, resolve_server_path}
use distributed_filesystem.Client.Received.{received}
use distributed_filesystem.Client.State.{Client, answers}
use distributed_filesystem.Dict.{get}
use distributed_filesystem.Os.{ClosesSucceed, IsFaithful, Os}
use distributed_filesystem.Server.Roundtrip.{WritesSucceed}
use distributed_filesystem.Server.State.{Server, returns}
use distributed_filesystem.Server.Transfer.{close_handler, open_handler}
use distributed_filesystem.Server.WellFormed.{IsWellFormed}
use distributed_filesystem.System.Network.{code_of, server_stub}
use distributed_filesystem.System.Stored.{
  CanFlush, CanStore, close_file-close_handler, upload-Stored,
}
use distributed_filesystem.Text.{Text}
use distributed_filesystem.Wire.{FileRequest, StatusCode, is_ok}

pub record CanFetch {D : Type 0} (os : Os D) (c : Client D) (filename path : Text) (h : ℕ)
    : Type 0 where
  pub uncached : get (open_location c (resolve_server_path c path) filename) c.cache ≡ none
  pub made : (os.create_directories c.disk (cache_dir c (resolve_server_path c path))).0 ≡ true
  pub truncates_file :
      (os.open_trunc
        (os.create_directories c.disk (cache_dir c (resolve_server_path c path))).1
        (open_location c (resolve_server_path c path) filename)).0
      ≡ some h
  pub updates :
      (d : D)
      → os.open_read d (open_location c (resolve_server_path c path) filename) ≡ some h
      → os.open_update d (open_location c (resolve_server_path c path) filename) ≡ some h

-- What a client has after it has opened a file.
abbrev pub HasFile : {D : Type 0} → Os D → D → Text → ℕ → List ℕ → Type 0
HasFile os d location h bs = (os.open_read d location ≡ some h) × (os.bytes d h ≡ bs)

module _ {DA DB DS : Type 0} (os_a : Os DA) (os_b : Os DB) (os : Os DS) (faithful : IsFaithful os)
    (succeeds : WritesSucceed os) (faithful_b : IsFaithful os_b) (succeeds_b : WritesSucceed os_b)
    (closed_b : ClosesSucceed os_b) where
  pub fetched-HasFile :
      (b : Client DB) (t : Server DS) (filename path : Text) (h : ℕ) (bs : List ℕ)
      → CanFetch os_b b filename path h
      → ((r : FileRequest)
          → r.directory ≡ resolve_server_path b path
          → r.filename ≡ filename
          → ((open_handler os (λ _. true) t r).0 ≡ returns StatusCode.ok)
            × (received (open_handler os (λ _. true) t r).1 ≡ bs))
      → let (answer, b', u) = open_file os_b (server_stub os) b t filename path in
        (answer ≡ answers true)
        × HasFile os_b b'.disk (open_location b (resolve_server_path b path) filename) h bs
  unfolding server_stub
  fetched-HasFile b t filename path h bs can sends =
      let request : FileRequest = record {
        filename = filename;
        directory = resolve_server_path b path;
        content = [];
        client_id = b.client_id;
      } in
      let (fine, sent) = sends request refl refl in
      let (answer, net, there, bytes) =
        open_file-OpensWith os_b (server_stub os) faithful_b succeeds_b closed_b b t filename path h
          can.updates can.uncached can.made can.truncates_file (ap (λ e. is_ok (code_of e)) fine) in
      (answer, (there, bytes ∙ sent))

  -- A file passes from one client to another, on disks of the server and of the second client that
  -- behave as documented and on which no write and, at the client, no close of a stream fails: if the
  -- first has it open, modified and writable, the server's `file_map_mutex` is free and its disk can
  -- store the file, and the second has the same path for it on the server and has not cached it, then
  -- `close_file` of the first returns true, `open_file` of the second returns true in the state of the
  -- server that this leaves, and the local file of the second holds the bytes that the local file of
  -- the first had.
  pub close_file-open_file :
      (s : Server DS)
      → IsWellFormed s
      → (a : Client DA) (b : Client DB) (filename path : Text) (h k : ℕ)
      → CanFlush os_a a filename path h
      → CanStore os s (resolve_server_path a path) filename
      → resolve_server_path b path ≡ resolve_server_path a path
      → CanFetch os_b b filename path k
      → let (done, a', t) = close_file os_a (server_stub os) a s filename path in
        let (answer, b', u) = open_file os_b (server_stub os) b t filename path in
        (done ≡ true)
        × (answer ≡ answers true)
        × HasFile os_b b'.disk
            (open_location b (resolve_server_path b path) filename)
            k
            (os_a.bytes a.disk h)
  close_file-open_file s w a b filename path h k can_a can same fetch =
      let directory = resolve_server_path a path in
      let bs = os_a.bytes a.disk h in
      let sent = upload_requests directory filename a.client_id (content_chunks bs) in
      let (fine, stored) =
        upload-Stored os faithful succeeds s w directory filename a.client_id can bs in
      let (done, left) =
        close_file-close_handler os_a os faithful succeeds s w a filename path h can_a can in
      let (answer, has) =
        subst
          (λ t.
            let (answer, b', u) = open_file os_b (server_stub os) b t filename path in
            (answer ≡ answers true)
            × HasFile os_b b'.disk (open_location b (resolve_server_path b path) filename) k bs)
          (sym left)
          (fetched-HasFile b (close_handler os s sent).2 filename path k bs fetch
            (λ r d f. stored r (d ∙ same) f)) in
      (done, answer, has)
