-- ===== src/Client/Metadata.antt =====
-- `get_attributes`, `ls_contents`, `make_directory`, `truncate_file` and `delete_file` of
-- Basic_Operation/client_code/filesystem_client.cpp.

use distributed_filesystem.Base.{
  Bool, Option, false, if◌then◌else◌, none, some, to_uintmax, true, ℕ, ℤ,
}
use distributed_filesystem.Client.Paths.{
  cache_dir, resolve_server_path, server_key, truncate_location, without_slash,
}
use distributed_filesystem.Client.State.{Client, FileAttributes}
use distributed_filesystem.Client.Stub.{Stub}
use distributed_filesystem.Dict.{Dict, get, put, remove}
use distributed_filesystem.Members.{erase}
use distributed_filesystem.Os.{Os}
use distributed_filesystem.Text.{Text}
use distributed_filesystem.Wire.{GetAttrResponse, is_ok}

module _ {D : Type 0} where
  -- The attributes of a response, with the local user as the owner.
  unfoldable pub attributes_of : Client D → GetAttrResponse → FileAttributes
  attributes_of c r = record {
    size = r.size;
    atime = r.atime;
    mtime = r.mtime;
    ctime = r.ctime;
    mode = r.mode;
    nlink = r.nlink;
    uid = c.uid;
    gid = c.gid;
  }

  -- The tables without a file that is deleted.
  unfoldable pub forget_file : Client D → Text → Text → Client D
  unfolding remove erase
  forget_file c cache_path key = record c {
    opened_files = remove cache_path c.opened_files;
    cache = remove cache_path c.cache;
    cached_attr = remove key c.cached_attr;
    file_mutexes = erase cache_path c.file_mutexes;
  }

module _ {D : Type 0} (os : Os D) where
  -- The size is an `int`, which `resize_file` takes as a `uintmax_t`.
  unfoldable pub truncate_file : Client D → Text → Text → ℤ → Bool × Client D
  unfolding resolve_server_path truncate_location to_uintmax
  truncate_file c filename path size =
      let location = truncate_location c (resolve_server_path c path) filename in
      let (done, d) = os.resize_file c.disk location (to_uintmax size) in
      (done, record c { disk = d })

module _ {D N : Type 0} (os : Os D) (stub : Stub N) where
  unfoldable pub get_attributes : Client D → N → Text → Text → Option FileAttributes × Client D × N
  unfolding attributes_of resolve_server_path get put
  get_attributes c net filename path =
      let resolved = resolve_server_path c path in
      let key = server_key resolved filename in
      let (status, response, net') = stub.getattr net resolved filename in
      elim (get key c.cached_attr) [
        | some a ↦ (some a, c, net)
        | none ↦
            if is_ok status
            then (
              some (attributes_of c response),
              record c { cached_attr = put key (attributes_of c response) c.cached_attr },
              net',
            )
            else (none, c, net')
      ]

  unfoldable pub ls_contents : Client D → N → Text → Option (Dict Text) × N
  unfolding resolve_server_path
  ls_contents c net directory =
      let (status, entries, net') = stub.ls net (resolve_server_path c directory) in
      ((if is_ok status then some entries else none), net')

  unfoldable pub make_directory : Client D → N → Text → ℕ → Bool × N
  unfolding resolve_server_path
  make_directory c net directory mode =
      let (status, net') = stub.mkdir net (resolve_server_path c directory) mode in
      (is_ok status, net')

  -- The result of the local removal, after that of the server, is only logged.
  unfoldable pub delete_file : Client D → N → Text → Bool × Client D × N
  unfolding resolve_server_path cache_dir without_slash forget_file
  delete_file c net directory =
      let resolved = resolve_server_path c directory in
      let cache_path = without_slash (cache_dir c resolved) in
      let c' = forget_file c cache_path resolved in
      let (status, net') = stub.unlink net resolved c.client_id in
      if is_ok status
      then (true, record c' { disk = (os.remove c'.disk cache_path).1 }, net')
      else (false, c', net')
