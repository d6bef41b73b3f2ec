-- ===== src/Fuse/Locations.antt =====
-- The local file that the handlers of FUSE/FUSE_integration.cpp reach for a path: `afs_open`,
-- `afs_read` and `afs_write` pass the directory as it is, `afs_release`, `afs_create` and
-- `afs_rename` pass "" for the root.

use distributed_filesystem.Base.{
  Bool, List, [], ap, arith, false, if_ind, if◌then◌else◌, length, none, pos, refl, subst, sym,
  to_int32, true, ℕ, ◌∙◌, ◌∷◌, ◌≡◌,
}
use distributed_filesystem.Client.Creating.{create_file}
use distributed_filesystem.Client.Files.{has_key}
use distributed_filesystem.Client.Metadata.{truncate_file}
use distributed_filesystem.Client.Opening.{open_file}
use distributed_filesystem.Client.Paths.{
  cache_dir, file_location, open_location, resolve_server_path,
}
use distributed_filesystem.Client.Placed.{
  close_file_absent, create_file_opens, open_file_opens, read_file_absent, write_file_absent,
}
use distributed_filesystem.Client.Rooted.{resolve_server_path-cons}
use distributed_filesystem.Client.State.{Answer, Client, answers}
use distributed_filesystem.Client.Stub.{Stub}
use distributed_filesystem.Client.Truncated.{open_location-file_location}
use distributed_filesystem.Dict.{get}
use distributed_filesystem.Fuse.Data.{
  afs_create, afs_open, afs_read, afs_release, afs_write, reply_open, reply_read,
}
use distributed_filesystem.Fuse.Names.{directory_of, folder_of, name_of, top_as_empty}
use distributed_filesystem.Fuse.Replies.{Reply, eacces, fails, reply_if, reply_to, returns, success}
use distributed_filesystem.Os.{Os}
use distributed_filesystem.Text.{Text, lit, relative_path, starts_with_slash, text_eq, text_eq_iff}

resolve_server_path-root :
    {D : Type 0} (c : Client D) (dir : Text)
    → text_eq dir (lit "/") ≡ true
    → resolve_server_path c [] ≡ resolve_server_path c dir
unfolding resolve_server_path relative_path starts_with_slash
resolve_server_path-root c dir e =
    subst (λ d. resolve_server_path c [] ≡ resolve_server_path c d)
      (sym ((text_eq_iff dir (lit "/")).0 e)) refl

resolve_server_path-top_as_empty :
    {D : Type 0} (c : Client D) (dir : Text)
    → resolve_server_path c (top_as_empty dir) ≡ resolve_server_path c dir
unfolding top_as_empty
resolve_server_path-top_as_empty c [] = refl
resolve_server_path-top_as_empty c (b ∷ dir) =
    if_ind (λ d. resolve_server_path c d ≡ resolve_server_path c (b ∷ dir))
      (text_eq (b ∷ dir) (lit "/")) _ _ (resolve_server_path-root c (b ∷ dir)) (λ _. refl)

-- The three ways to write the local path of a file.
open_location-folder_of :
    {D : Type 0} (c : Client D) (a : ℕ) (r path : Text)
    → c.server_root_path ≡ a ∷ r
    → let opened = open_location c (resolve_server_path c (directory_of path)) (name_of path) in
      (file_location c (resolve_server_path c (directory_of path)) (name_of path) ≡ opened)
      × (file_location c (resolve_server_path c (folder_of path)) (name_of path) ≡ opened)
unfolding folder_of
open_location-folder_of c a r path e =
    let dir = directory_of path in
    let name = name_of path in
    let (q, named) = resolve_server_path-cons c a r dir e in
    let same : file_location c (resolve_server_path c dir) name
        ≡ open_location c (resolve_server_path c dir) name =
      rw named (sym (open_location-file_location c a q name)) in
    (same, ap (λ d. file_location c d name) (resolve_server_path-top_as_empty c dir) ∙ same)

-- A handler that has not failed has the file open at the place.
abbrev pub OpensAt : {D : Type 0} → Text → Reply × Client D → Type 0
OpensAt spot (returns n, c) = has_key spot c.opened_files ≡ true
OpensAt spot _ = Unit {0}

module _ {D : Type 0} (spot : Text) where
  reply_open-OpensAt :
      {N : Type 0} (os : Os D) (stub : Stub N) (r : Answer × Client D × N)
      → (r.0 ≡ answers true → has_key spot r.1.opened_files ≡ true)
      → OpensAt spot ((reply_open os stub r).0, (reply_open os stub r).1)
  unfolding reply_open reply_to
  reply_open-OpensAt os stub (answers true, c, net) h = h refl
  reply_open-OpensAt os stub (answers false, c, net) h = tt
  reply_open-OpensAt os stub (Answer.throws, c, net) h = tt

  reply_if-OpensAt :
      (r : Bool × Client D)
      → (r.0 ≡ true → has_key spot r.1.opened_files ≡ true)
      → OpensAt spot (reply_if r.0 eacces, r.1)
  unfolding reply_if
  reply_if-OpensAt (true, c) h = h refl
  reply_if-OpensAt (false, c) h = tt

module _ {D N : Type 0} (os : Os D) (stub : Stub N) (c : Client D) (net : N) (path : Text) where
  -- The local file of a path.
  abbrev pub place_of_path : Text
  place_of_path = open_location c (resolve_server_path c (directory_of path)) (name_of path)

  afs_open-OpensAt :
      (truncated : Bool)
      → let r = afs_open os stub c net path truncated in OpensAt place_of_path (r.0, r.1)
  unfolding afs_open truncate_file resolve_server_path open_location cache_dir
  afs_open-OpensAt truncated =
      let c' = (truncate_file os c (name_of path) (directory_of path) (pos 0)).1 in
      let Goal : Reply × Client D × N → Type 0 = λ r. OpensAt place_of_path (r.0, r.1) in
      if_ind Goal truncated _ _
        (λ _.
          if_ind Goal (truncate_file os c (name_of path) (directory_of path) (pos 0)).0 _ _
            (λ _.
              reply_open-OpensAt place_of_path os stub
                (open_file os stub c' net (name_of path) (directory_of path))
                (open_file_opens os c' (name_of path) (directory_of path) stub net))
            (λ _. tt))
        (λ _.
          reply_open-OpensAt place_of_path os stub
            (open_file os stub c net (name_of path) (directory_of path))
            (open_file_opens os c (name_of path) (directory_of path) stub net))

  reply_read_refused :
      (r : Answer × List ℕ × Client D) → r.0 ≡ answers false → (reply_read os r).0 ≡ fails eacces
  unfolding reply_read
  reply_read_refused (answers true, buffer, c') e = absurd (ground arith)
  reply_read_refused (answers false, buffer, c') e = refl
  reply_read_refused (Answer.throws, buffer, c') e = absurd (ground arith)

  -- One path is one local file for all handlers, although some of them write the root directory as
  -- "/" and some as "": with a server root that is not empty, a client that does not have the file of
  -- the path open at that one place fails every `afs_read` and `afs_write` of the path with EACCES,
  -- and its `afs_release` of the path changes nothing; and after an `afs_open` or an `afs_create` of
  -- the path that does not fail, the file is open at that place.
  pub afs_open-IsOnePlace :
      (a : ℕ) (r : Text)
      → c.server_root_path ≡ a ∷ r
      → get place_of_path c.opened_files ≡ none
      → ((size offset : ℕ) → (afs_read os c path size offset).0 ≡ fails eacces)
        × ((content : List ℕ) (offset : ℕ) → (afs_write os c path content offset).0 ≡ fails eacces)
        × (afs_release os stub c net path ≡ (success, c, net))
        × ((truncated : Bool)
            → let s = afs_open os stub c net path truncated in OpensAt place_of_path (s.0, s.1))
        × OpensAt place_of_path (afs_create os c path)
  unfolding afs_read afs_write afs_release afs_create
  afs_open-IsOnePlace a r e shut =
      let (same, same') = open_location-folder_of c a r path e in
      let dir = directory_of path in
      let name = name_of path in
      let away = ap (λ l. get l c.opened_files) same ∙ shut in
      let away' = ap (λ l. get l c.opened_files) same' ∙ shut in
      (
        λ size offset. reply_read_refused _ (read_file_absent os c name dir _ _ away),
        λ content offset.
            ap (λ b. if b then returns (to_int32 (length content)) else fails eacces)
              (write_file_absent os c name dir content offset away),
        ap (λ (r : Bool × Client D × N). (success, r.1, r.2))
            (close_file_absent os c name (folder_of path) stub net away'),
        afs_open-OpensAt,
        subst (λ l. OpensAt l ((afs_create os c path).0, (afs_create os c path).1)) same'
            (reply_if-OpensAt (file_location c (resolve_server_path c (folder_of path)) name)
              (create_file os c name (folder_of path))
              (create_file_opens os c name (folder_of path))),
      )
