-- ===== src/Server/Upload.antt =====
-- The loop of `FileSystem::close` (Basic_Operation/server_code/filesystem_server.cpp) over the
-- messages that one client sends for one file: every message with the same names.

-- The requests of `close_file`: one for each chunk.

use distributed_filesystem.Base.{
  List, [], arith, false, map, refl, some, true, ℕ, ◌++◌, ◌∙◌, ◌∷◌, ◌≡◌,
}
use distributed_filesystem.Os.{Os}
use distributed_filesystem.Server.Transfer.{
  Upload, begin_upload, goes_on, receive, start_upload, write_content,
}
use distributed_filesystem.Text.{Text, is_empty, join_path, parent_path, with_slash}
use distributed_filesystem.Wire.{FileRequest}

unfoldable pub upload_request : Text → Text → Text → List ℕ → FileRequest
upload_request directory filename client_id chunk = record {
  filename = filename;
  directory = directory;
  content = chunk;
  client_id = client_id;
}

pub is_empty-append : (s t : Text) → is_empty t ≡ false → is_empty (s ++ t) ≡ false
is_empty-append [] t h = h
is_empty-append (b ∷ s) t h = refl

pub is_empty-join_path : (d n : Text) → is_empty n ≡ false → is_empty (join_path d n) ≡ false
unfolding join_path
is_empty-join_path d n h = is_empty-append (with_slash d) n h

module _ {D : Type 0} (os : Os D) (directory filename client_id : Text)
    (named : is_empty filename ≡ false) where
  -- The chunks written one after another to the open file.
  unfoldable pub uploaded : Upload D → List (List ℕ) → Upload D
  uploaded u [] = u
  uploaded u (chunk ∷ rest) =
      uploaded (write_content os u (upload_request directory filename client_id chunk)) rest

  names-write_content :
      (u : Upload D) (r : FileRequest)
      → ((write_content os u r).filename ≡ u.filename)
        × ((write_content os u r).path ≡ u.path)
        × ((write_content os u r).client_id ≡ r.client_id)
        × ((write_content os u r).handle ≡ u.handle)
  unfolding write_content
  names-write_content u r = ground arith

  pub names-uploaded :
      (u : Upload D) (cs : List (List ℕ))
      → u.client_id ≡ client_id
      → ((uploaded u cs).path ≡ u.path)
        × ((uploaded u cs).client_id ≡ client_id)
        × ((uploaded u cs).handle ≡ u.handle)
  unfolding uploaded upload_request
  names-uploaded u [] e = (refl, e, refl)
  names-uploaded u (c ∷ cs) e =
      let r = upload_request directory filename client_id c in
      let n = names-write_content u r in
      let ih = names-uploaded (write_content os u r) cs n.2 in (ih.0 ∙ n.1, ih.1, ih.2 ∙ n.3)

  begin_upload-named :
      (u : Upload D) (r : FileRequest)
      → is_empty u.filename ≡ false
      → is_empty u.path ≡ false
      → begin_upload os u r ≡ goes_on u
  unfolding begin_upload
  begin_upload-named u r e f = ground arith

  receive-uploaded :
      (u : Upload D) (cs : List (List ℕ))
      → is_empty u.filename ≡ false
      → is_empty u.path ≡ false
      → receive os u (map (upload_request directory filename client_id) cs)
        ≡ goes_on (uploaded u cs)
  unfolding receive uploaded
  receive-uploaded u [] e f = refl
  receive-uploaded u (c ∷ cs) e f =
      let r = upload_request directory filename client_id c in
      let n = names-write_content u r in
      rw (begin_upload-named u r e f, receive)
        (receive-uploaded (write_content os u r) cs (rw n.0 e) (rw n.1 f))

  abbrev pub upload_path : Text
  upload_path = join_path directory filename

  -- The state of `close` once the first message has opened the file.
  abbrev pub upload_opened : D → ℕ → Upload D
  upload_opened d h = record {
    disk = d;
    filename = filename;
    path = upload_path;
    client_id = [];
    handle = some h;
    failed = false;
    position = 0;
  }

  module _ (d d₁ d₂ : D) (h : ℕ)
      (made : os.create_directories d (parent_path upload_path) ≡ (true, d₁))
      (opened : os.open_trunc d₁ upload_path ≡ (some h, d₂)) where
    begin_upload-first :
        (c : List ℕ)
        → begin_upload os (start_upload d) (upload_request directory filename client_id c)
          ≡ goes_on (upload_opened d₂ h)
    unfolding begin_upload start_upload upload_request
    begin_upload-first c = ground arith

    pub receive-start_upload :
        (c : List ℕ) (cs : List (List ℕ))
        → receive os (start_upload d) (map (upload_request directory filename client_id) (c ∷ cs))
          ≡ goes_on (uploaded (upload_opened d₂ h) (c ∷ cs))
    unfolding receive
    receive-start_upload c cs =
        let r = upload_request directory filename client_id c in
        let n = names-write_content (upload_opened d₂ h) r in
        rw (begin_upload-first c, receive)
          (unfold uploaded in
            receive-uploaded _ cs (rw n.0 named)
              (rw n.1 (is_empty-join_path directory filename named)))

    -- What `close` knows when the loop ends.
    pub names-upload :
        (c : List ℕ) (cs : List (List ℕ))
        → ((uploaded (upload_opened d₂ h) (c ∷ cs)).path ≡ upload_path)
          × ((uploaded (upload_opened d₂ h) (c ∷ cs)).client_id ≡ client_id)
          × ((uploaded (upload_opened d₂ h) (c ∷ cs)).handle ≡ some h)
    unfolding uploaded
    names-upload c cs =
        let r = upload_request directory filename client_id c in
        let n = names-write_content (upload_opened d₂ h) r in
        let e =
          names-uploaded (write_content os (upload_opened d₂ h) r) cs
            (unfold upload_request in n.2) in
        (e.0 ∙ n.1, e.1, e.2 ∙ n.3)
