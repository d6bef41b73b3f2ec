-- ===== src/Server/Refines.antt =====
-- The handlers `open`, `close` and `unlink` of Basic_Operation/server_code/filesystem_server.cpp
-- against the map from paths to bytes.

use distributed_filesystem.Base.{
  List, Option, [], ap, arith, concat, false, if◌then◌else◌, none, refl, some, subst, sym, true, ℕ,
  ◌∙◌, ◌∷◌, ◌≡◌,
}
use distributed_filesystem.Os.{IsFaithful, Os}
use distributed_filesystem.Server.Apart.{close_handler-holds}
use distributed_filesystem.Server.Callbacks.{file_change_callback_unlink}
use distributed_filesystem.Server.Namespace.{unlink_handler}
use distributed_filesystem.Server.Roundtrip.{WritesSucceed, send_file-all}
use distributed_filesystem.Server.State.{Server}
use distributed_filesystem.Server.Store.{
  AllNamed, KeepsApart, Request, Store, bytes_of_file, content_of, fetch_request, fetches, holds,
  observed, recalled, removes, uploads,
}
use distributed_filesystem.Server.Transfer.{open_handler, register, send_file}
use distributed_filesystem.Text.{Text, join_path, text_eq}

module _ {D : Type 0} (os : Os D) (s : Server D) where
  send_file-holds :
      (path : Text) (o : Option ℕ)
      → (content_of (send_file os (λ _. true) s path o).0 (send_file os (λ _. true) s path o).1
          ≡ bytes_of_file (os.bytes s.disk) o)
        × ((send_file os (λ _. true) s path o).2 ≡ s)
  send_file-holds path none = unfold send_file in (refl, refl)
  send_file-holds path (some h) =
      let all = send_file-all os s path h in (rw all.0 (ap some all.1), unfold send_file in refl)

module _ {D : Type 0} (os : Os D) (s : Server D) where
  -- `open` answers with what the path holds, and changes no file.
  open_handler-holds :
      (directory filename client_id : Text)
      → s.file_map_locked ≡ false
      → let (ending, responses, t) =
          open_handler os (λ _. true) s (fetch_request directory filename client_id) in
        (content_of ending responses ≡ holds os s.disk (join_path directory filename))
        × (t.disk ≡ s.disk)
        × (t.file_map_locked ≡ false)
  unfolding open_handler
  open_handler-holds directory filename client_id unlocked =
      let path = join_path directory filename in
      let sent =
        send_file-holds os
          (record s {
            file_map = register path client_id s.file_map;
            file_map_open = register path client_id s.file_map_open;
            file_map_locked = false;
          })
          path (os.open_read s.disk path) in
      rw unlocked (sent.0, ap (λ t. t.disk) sent.1, ap (λ t. t.file_map_locked) sent.1)

  unlink_handler-disk :
      (directory client_id : Text)
      → s.file_map_locked ≡ false
      → let t = (unlink_handler os s directory client_id).1 in
        (t.disk ≡ (os.remove s.disk directory).1) × (t.file_map_locked ≡ false)
  unfolding unlink_handler file_change_callback_unlink
  unlink_handler-disk directory client_id unlocked = ground arith

module _ {D : Type 0} (os : Os D) (faithful : IsFaithful os) (succeeds : WritesSucceed os)
    (Plain : D → Type 0) (Named : Text → Type 0) (apart : KeepsApart os Plain Named) where
  -- As far as its clients can see, the server is a map from paths to bytes. On a faithful disk whose
  -- writes succeed and that keeps its files apart, with `file_map_mutex` free, and for paths of files:
  -- whatever uploads, requests for files and removals the server handles, of any clients and in any
  -- order, the answer to each request for a file, which is the bytes with OK or else an error, is what
  -- the map gives that starts with the contents of the disk and that each upload and each removal
  -- changes at its path alone.
  pub observed-recalled :
      (requests : List Request) (s : Server D) (m : Store)
      → s.file_map_locked ≡ false
      → Plain s.disk
      → AllNamed Named requests
      → ((q : Text) → Named q → holds os s.disk q ≡ m q)
      → observed os s requests ≡ recalled m requests
  unfolding observed recalled
  observed-recalled [] s m unlocked plain all agree = refl
  observed-recalled (uploads directory filename client_id c cs ∷ rest) s m unlocked plain
        (named, at, all) agree =
      let p = join_path directory filename in
      let stored =
        close_handler-holds os Plain Named apart faithful succeeds directory filename client_id
          named at s unlocked plain c cs in
      observed-recalled rest _ _ stored.0 stored.1 all (λ q n.
        stored.2 q n ∙ ap (λ x. if text_eq p q then some (concat (c ∷ cs)) else x) (agree q n))
  observed-recalled (fetches directory filename client_id ∷ rest) s m unlocked plain (at, all)
        agree =
      let opened = open_handler-holds os s directory filename client_id unlocked in
      let t = (open_handler os (λ _. true) s (fetch_request directory filename client_id)).2 in
      ap (λ b. b ∷ observed os t rest) (opened.0 ∙ agree (join_path directory filename) at)
      ∙ ap (◌∷◌ (m (join_path directory filename))) (
          observed-recalled rest t m opened.2 (subst Plain (sym opened.1) plain) all
            (λ q n. ap (λ d. holds os d q) opened.1 ∙ agree q n))
  observed-recalled (removes directory client_id ∷ rest) s m unlocked plain (at, all) agree =
      let (gone, free) = unlink_handler-disk os s directory client_id unlocked in
      observed-recalled rest _ _ free
        (subst Plain (sym gone) (apart.removes_plain s.disk directory at plain)) all
        (λ q n.
          ap (λ d. holds os d q) gone
          ∙ apart.removes_holds s.disk directory q at n plain
          ∙ ap (λ x. if text_eq directory q then none else x) (agree q n))
