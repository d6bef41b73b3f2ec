-- ===== src/Fuse/Times.antt =====
-- The attributes of a file from `getattr` (Basic_Operation/server_code/filesystem_server.cpp)
-- through `get_attributes` (Basic_Operation/client_code/filesystem_client.cpp) to `afs_getattr`
-- (FUSE/FUSE_integration.cpp).

use distributed_filesystem.Base.{
  Option, ap, arith, none, refl, some, ℕ, ◌%◌, ◌*◌, ◌+◌, ◌/◌, ◌<◌, ◌∙◌, ◌≡◌,
}
use distributed_filesystem.Client.Metadata.{attributes_of, get_attributes}
use distributed_filesystem.Client.Paths.{resolve_server_path, server_key}
use distributed_filesystem.Client.State.{Client, FileAttributes}
use distributed_filesystem.Client.Stub.{Stub}
use distributed_filesystem.Dict.{get, get-put_self, put}
use distributed_filesystem.Fuse.Changes.{FuseStat, afs_getattr, to_stat, to_timespec}
use distributed_filesystem.Fuse.Names.{folder_of, name_of}
use distributed_filesystem.Fuse.Replies.{enoent, fails, success}
use distributed_filesystem.Os.{Os, Stat, found}
use distributed_filesystem.Server.Queries.{
  attributes, get_file_timestamp, getattr, nanoseconds, uint32,
}
use distributed_filesystem.Server.State.{Server}
use distributed_filesystem.System.Network.{server_stub}
use distributed_filesystem.Text.{Text}
use distributed_filesystem.Wire.{GetAttrResponse, StatusCode}

quotient : (sec nsec : ℕ) → nsec < 1000000000 → (sec * 1000000000 + nsec) / 1000000000 ≡ sec
quotient sec nsec lt = omega arith

remainder : (sec nsec : ℕ) → nsec < 1000000000 → (sec * 1000000000 + nsec) % 1000000000 ≡ nsec
remainder sec nsec lt = omega arith

to_timespec-nanoseconds :
    (sec nsec : ℕ)
    → nsec < 1000000000
    → to_timespec (nanoseconds sec nsec) ≡ record { tv_sec = sec; tv_nsec = nsec }
unfolding to_timespec nanoseconds
to_timespec-nanoseconds sec nsec lt i = record {
  tv_sec = quotient sec nsec lt i;
  tv_nsec = remainder sec nsec lt i;
}

-- The attributes of a file on the server as `afs_getattr` shows them.
abbrev pub shown_stat : {D : Type 0} → Client D → Stat → FuseStat
shown_stat c st = record {
  st_mode = uint32 st.mode;
  st_nlink = uint32 st.nlink;
  st_size = st.size;
  st_uid = c.uid;
  st_gid = c.gid;
  st_mtim = record { tv_sec = st.mtime_sec; tv_nsec = st.mtime_nsec };
  st_atim = record { tv_sec = st.mtime_sec; tv_nsec = st.mtime_nsec };
  st_ctim = record { tv_sec = st.mtime_sec; tv_nsec = st.mtime_nsec };
}

get_file_timestamp-found :
    {D : Type 0} (os : Os D) (d : D) (path : Text) (st : Stat)
    → os.stat d path ≡ found st
    → get_file_timestamp os d path ≡ nanoseconds st.mtime_sec st.mtime_nsec
unfolding get_file_timestamp nanoseconds
get_file_timestamp-found os d path st e = rw (get_file_timestamp, e) refl

getattr-found :
    {D : Type 0} (os : Os D) (s : Server D) (directory filename : Text) (st : Stat)
    → os.stat s.disk (server_key directory filename) ≡ found st
    → getattr os s directory filename
      ≡ (StatusCode.ok, attributes os st (nanoseconds st.mtime_sec st.mtime_nsec))
unfolding getattr attributes
getattr-found os s directory filename st e =
    rw (getattr, e)
      (ap (λ t. (StatusCode.ok, attributes os st t))
        (get_file_timestamp-found os s.disk (server_key directory filename) st e))

server_stub-getattr :
    {D : Type 0} (os : Os D) (s : Server D) (directory filename : Text) (st : Stat)
    → os.stat s.disk (server_key directory filename) ≡ found st
    → (server_stub os).getattr s directory filename
      ≡ (StatusCode.ok, attributes os st (nanoseconds st.mtime_sec st.mtime_nsec), s)
unfolding server_stub
server_stub-getattr os s directory filename st e =
    ap (λ t. (t.0, t.1, s)) (getattr-found os s directory filename st e)

get_attributes-cached :
    {D N : Type 0} (os : Os D) (stub : Stub N) (c : Client D) (net : N) (filename path : Text)
    (a : FileAttributes)
    → get (server_key (resolve_server_path c path) filename) c.cached_attr ≡ some a
    → get_attributes os stub c net filename path ≡ (some a, c, net)
unfolding get_attributes
get_attributes-cached os stub c net filename path a e = rw (get_attributes, e) refl

-- The client with the attributes of a response in its cache.
abbrev learned : {D : Type 0} → Client D → Text → FileAttributes → Client D
learned c key a = record c { cached_attr = put key a c.cached_attr }

get_attributes-learned :
    {D N : Type 0} (os : Os D) (stub : Stub N) (c : Client D) (net net' : N) (filename path : Text)
    (r : GetAttrResponse)
    → get (server_key (resolve_server_path c path) filename) c.cached_attr ≡ none
    → stub.getattr net (resolve_server_path c path) filename ≡ (StatusCode.ok, r, net')
    → get_attributes os stub c net filename path ≡ (
      some (attributes_of c r),
      learned c (server_key (resolve_server_path c path) filename) (attributes_of c r),
      net',
    )
unfolding get_attributes
get_attributes-learned os stub c net net' filename path r e answer =
    rw (get_attributes, e, answer) refl

afs_getattr-known :
    {D N : Type 0} (os : Os D) (stub : Stub N) (c c' : Client D) (net net' : N) (path : Text)
    (a : FileAttributes)
    → get_attributes os stub c net (name_of path) (folder_of path) ≡ (some a, c', net')
    → afs_getattr os stub c net path ≡ (success, some (to_stat a), c', net')
unfolding afs_getattr
afs_getattr-known {D} {N} os stub c c' net net' path a e =
    ap
      (λ (t : Option FileAttributes × Client D × N). elim t.0 [
        | none ↦ (fails enoent, none, t.1, t.2)
        | some b ↦ (success, some (to_stat b), t.1, t.2)
      ])
      e

to_stat-attributes_of :
    {DC DS : Type 0} (os : Os DS) (c : Client DC) (st : Stat)
    → st.mtime_nsec < 1000000000
    → to_stat (attributes_of c (attributes os st (nanoseconds st.mtime_sec st.mtime_nsec)))
      ≡ shown_stat c st
unfolding to_stat attributes_of attributes
to_stat-attributes_of os c st valid =
    ap
      (λ t. record {
        st_mode = uint32 st.mode;
        st_nlink = uint32 st.nlink;
        st_size = st.size;
        st_uid = c.uid;
        st_gid = c.gid;
        st_mtim = t;
        st_atim = t;
        st_ctim = t;
      })
      (to_timespec-nanoseconds st.mtime_sec st.mtime_nsec valid)

module _ {DC DS : Type 0} (os_c : Os DC) (os : Os DS) where
  -- The time of a file survives the way from the server's disk to `struct stat`: if the server finds
  -- the file, and the client has no attributes cached for it, then `afs_getattr` succeeds with the
  -- file's size, the low 32 bits of its mode and number of links, the client's user and group, and
  -- the second and nanosecond of its last change, as all three times; and a second `afs_getattr`, in
  -- whatever state the server is by then, answers the same.
  pub afs_getattr-shown_stat :
      (c : Client DC) (s later : Server DS) (path : Text) (st : Stat)
      → os.stat s.disk (server_key (resolve_server_path c (folder_of path)) (name_of path))
        ≡ found st
      → get (server_key (resolve_server_path c (folder_of path)) (name_of path)) c.cached_attr
        ≡ none
      → st.mtime_nsec < 1000000000
      → let (reply, shown, c', s') = afs_getattr os_c (server_stub os) c s path in
        let (again, shown', c'', s'') = afs_getattr os_c (server_stub os) c' later path in
        (reply ≡ success)
        × (shown ≡ some (shown_stat c st))
        × (again ≡ success)
        × (shown' ≡ some (shown_stat c st))
  unfolding resolve_server_path
  afs_getattr-shown_stat c s later path st there uncached valid =
      let key = server_key (resolve_server_path c (folder_of path)) (name_of path) in
      let r = attributes os st (nanoseconds st.mtime_sec st.mtime_nsec) in
      let a = attributes_of c r in
      let first = afs_getattr-known os_c (server_stub os) c (learned c key a) s s path a (
        get_attributes-learned os_c (server_stub os) c s s (name_of path) (folder_of path) r
          uncached
          (server_stub-getattr os s (resolve_server_path c (folder_of path)) (name_of path) st
            there)) in
      let second =
        afs_getattr-known os_c (server_stub os) (learned c key a) (learned c key a) later later path
          a
          (get_attributes-cached os_c (server_stub os) (learned c key a) later (name_of path)
            (folder_of path) a (get-put_self key a c.cached_attr)) in
      let shows = ap some (to_stat-attributes_of os c st valid) in
      let after = ap (λ t. afs_getattr os_c (server_stub os) t.2 later path) first ∙ second in
      (
        ap (λ t. t.0) first,
        ap (λ t. t.1) first ∙ shows,
        ap (λ t. t.0) after,
        ap (λ t. t.1) after ∙ shows,
      )
