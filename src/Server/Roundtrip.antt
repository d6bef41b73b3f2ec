-- ===== src/Server/Roundtrip.antt =====
-- The bytes of a file on their way through the server: `FileSystem::close` and then
-- `FileSystem::open` of Basic_Operation/server_code/filesystem_server.cpp.

use distributed_filesystem.Base.{
  Bool, List, [], ap, append-nil, append_assoc, arith, chunks, concat, concat-chunks, false,
  if◌then◌else◌, length, length-append, map, refl, some, subst, suc, sym, true, ℕ, ◌++◌, ◌+◌, ◌∙◌,
  ◌∷◌, ◌≡◌,
}
use distributed_filesystem.Os.{IsFaithful, Os}
use distributed_filesystem.Server.Callbacks.{file_change_callback_close}
use distributed_filesystem.Server.Queries.{get_file_timestamp}
use distributed_filesystem.Server.State.{Server, returns}
use distributed_filesystem.Server.Transfer.{
  Upload, chunk_size, close_handler, finish_close, open_handler, register, send_file, write_chunks,
  write_content,
}
use distributed_filesystem.Server.Upload.{
  receive-start_upload, upload_opened, upload_request, uploaded,
}
use distributed_filesystem.Text.{Text, is_empty, join_path, parent_path}
use distributed_filesystem.Wire.{FileRequest, FileResponse, StatusCode}

abbrev pub contents : List FileResponse → List (List ℕ)
contents = map (λ r. r.content)

write_chunks-all :
    (k timestamp : ℕ) (chunks' : List (List ℕ))
    → ((write_chunks (λ _. true) k timestamp chunks').1 ≡ true)
      × (contents (write_chunks (λ _. true) k timestamp chunks').0 ≡ chunks')
unfolding write_chunks
write_chunks-all k timestamp [] = (refl, refl)
write_chunks-all k timestamp (c ∷ cs) =
    let ih = write_chunks-all (suc k) timestamp cs in (ih.0, ap (◌∷◌ c) ih.1)

module _ {D : Type 0} (os : Os D) where
  -- A file that can be opened is sent whole, in its order, to a client that takes every message.
  pub send_file-all :
      (s : Server D) (path : Text) (h : ℕ)
      → ((send_file os (λ _. true) s path (some h)).0 ≡ returns StatusCode.ok)
        × (concat (contents (send_file os (λ _. true) s path (some h)).1) ≡ os.bytes s.disk h)
  unfolding send_file
  send_file-all s path h =
      let timestamp = get_file_timestamp os s.disk path in
      let w = write_chunks-all 0 timestamp (chunks chunk_size (os.bytes s.disk h)) in
      (
        ap (λ (b : Bool). returns (if b then StatusCode.ok else StatusCode.internal)) w.0,
        ap concat w.1 ∙ concat-chunks 4095 (os.bytes s.disk h),
      )

-- Every write to the disk succeeds.
abbrev pub WritesSucceed : {D : Type 0} → Os D → Type 0
WritesSucceed {D} os = (d : D) (h pos : ℕ) (bs : List ℕ) → (os.write_at d h pos bs).0 ≡ true

module _ {D : Type 0} (os : Os D) (faithful : IsFaithful os) (writes : WritesSucceed os)
    (directory filename client_id : Text) (named : is_empty filename ≡ false) (h : ℕ) where
  abbrev target : Text
  target = join_path directory filename

  -- The loop of `close` with its file open and all writes so far done.
  abbrev pub writing : D → Text → ℕ → Upload D
  writing d who position = record {
    disk = d;
    filename = filename;
    path = target;
    client_id = who;
    handle = some h;
    failed = false;
    position = position;
  }

  pub write_content-writing :
      (d : D) (who : Text) (position : ℕ) (chunk : List ℕ)
      → write_content os
          (writing d who position)
          (upload_request directory filename client_id chunk)
        ≡ writing (os.write_at d h position chunk).1 client_id (position + length chunk)
  unfolding write_content upload_request
  write_content-writing d who position chunk = rw (writes d h position chunk)

  written :
      (d : D) (chunk : List ℕ)
      → os.bytes (os.write_at d h (length (os.bytes d h)) chunk).1 h ≡ os.bytes d h ++ chunk
  written d chunk =
      let position = length (os.bytes d h) in
      faithful.write_end d _ h chunk
        (λ i. (writes d h position chunk i, (os.write_at d h position chunk).1))

  pub bytes-uploaded :
      (d : D) (who : Text) (position : ℕ) (cs : List (List ℕ))
      → position ≡ length (os.bytes d h)
      → let u = uploaded os directory filename client_id named (writing d who position) cs in
        (os.bytes u.disk h ≡ os.bytes d h ++ concat cs)
        × (os.open_read u.disk target ≡ os.open_read d target)
  unfolding uploaded concat
  bytes-uploaded d who position [] e = (sym (append-nil (os.bytes d h)), refl)
  bytes-uploaded d who position (c ∷ cs) e =
      let d' = (os.write_at d h position c).1 in
      let step : os.bytes d' h ≡ os.bytes d h ++ c =
        subst (λ p. os.bytes (os.write_at d h p c).1 h ≡ os.bytes d h ++ c) (sym e) (written d c) in
      let ih =
        bytes-uploaded d' client_id (position + length c) cs
          (omega (arith, ap length step, length-append (os.bytes d h) c)) in
      rw (write_content-writing d who position c, uploaded)
        (
          ih.0
              ∙ ap (λ (b : List ℕ). b ++ concat cs) step
              ∙ append_assoc (os.bytes d h) c (concat cs),
          ih.1 ∙ faithful.write_found d h position c target,
        )

module _ {D : Type 0} (os : Os D) where
  pub kept-finish_close :
      (s : Server D) (u : Upload D)
      → s.file_map_locked ≡ false
      → ((finish_close os s u).2.disk ≡ s.disk) × ((finish_close os s u).2.file_map_locked ≡ false)
  unfolding finish_close file_change_callback_close
  kept-finish_close s u e = ground arith

  open_handler-found :
      (s : Server D) (r : FileRequest) (h : ℕ)
      → s.file_map_locked ≡ false
      → os.open_read s.disk (join_path r.directory r.filename) ≡ some h
      → ((open_handler os (λ _. true) s r).0 ≡ returns StatusCode.ok)
        × (concat (contents (open_handler os (λ _. true) s r).1) ≡ os.bytes s.disk h)
  unfolding open_handler
  open_handler-found s r h e f =
      let path = join_path r.directory r.filename in
      simp (e, f)
        (send_file-all os
          (record s {
            file_map = register path r.client_id s.file_map;
            file_map_open = register path r.client_id s.file_map_open;
          })
          path h)

module _ {D : Type 0} (os : Os D) (faithful : IsFaithful os) (writes : WritesSucceed os)
    (directory filename client_id : Text) (named : is_empty filename ≡ false) (s : Server D)
    (unlocked : s.file_map_locked ≡ false) (d₁ d₂ : D) (h : ℕ)
    (made : os.create_directories s.disk (parent_path (join_path directory filename)) ≡ (true, d₁))
    (opened : os.open_trunc d₁ (join_path directory filename) ≡ (some h, d₂)) where
  abbrev pub after_loop : List ℕ → List (List ℕ) → Upload D
  after_loop c cs =
      uploaded os directory filename client_id named
        (upload_opened os directory filename client_id named d₂ h) (c ∷ cs)

  pub closed_lem :
      (c : List ℕ) (cs : List (List ℕ))
      → close_handler os s (map (upload_request directory filename client_id) (c ∷ cs))
        ≡ finish_close os (record s { disk = (after_loop c cs).disk }) (after_loop c cs)
  unfolding close_handler
  closed_lem c cs = rw (
    receive-start_upload os directory filename client_id named s.disk d₁ d₂ h made opened c cs,
    close_handler,
  )

  -- On a faithful disk whose writes succeed, the bytes of an upload in one or more messages are what
  -- the server sends to the next client that opens the file: the handler of `open`, given the state
  -- that `close` leaves and a client that takes every message, returns OK, and the contents of its
  -- messages in their order are those of the upload's in theirs.
  pub open_handler-close_handler :
      (c : List ℕ) (cs : List (List ℕ)) (r : FileRequest)
      → r.directory ≡ directory
      → r.filename ≡ filename
      → let t =
          (close_handler os s (map (upload_request directory filename client_id) (c ∷ cs))).2 in
        ((open_handler os (λ _. true) t r).0 ≡ returns StatusCode.ok)
        × (concat (contents (open_handler os (λ _. true) t r).1) ≡ concat (c ∷ cs))
  open_handler-close_handler c cs r e f =
      let u = after_loop c cs in
      let t = (finish_close os (record s { disk = u.disk }) u).2 in
      let stored =
        bytes-uploaded os faithful writes directory filename client_id named h d₂ [] 0 (c ∷ cs)
          (ap length (sym (faithful.open_trunc_empty d₁ d₂ _ h opened))) in
      let kept = kept-finish_close os (record s { disk = u.disk }) u unlocked in
      let found =
        open_handler-found os t r h kept.1
          (rw (e, f, kept.0) (stored.1 ∙ faithful.open_trunc_found d₁ d₂ _ h opened)) in
      rw (closed_lem c cs) (
        found.0,
        found.1
            ∙ rw kept.0 stored.0
            ∙ ap (λ (b : List ℕ). b ++ concat (c ∷ cs))
                (faithful.open_trunc_empty d₁ d₂ _ h opened),
      )
