-- ===== src/Client/Paths.antt =====
-- The paths that Basic_Operation/client_code/filesystem_client.cpp puts together: on the server, and
-- in the local cache.

use distributed_filesystem.Base.{[], if◌then◌else◌, ◌++◌, ◌∷◌}
use distributed_filesystem.Client.State.{Client}
use distributed_filesystem.Text.{
  Text, append_path, ends_in_slash, join_path, relative_path, starts_with_slash,
}

module _ {D : Type 0} (c : Client D) where
  -- `root / user`, with an absolute user path made relative first
  unfoldable pub resolve_server_path : Text → Text
  unfolding append_path relative_path starts_with_slash
  resolve_server_path user =
      append_path c.server_root_path (if starts_with_slash user then relative_path user else user)

  -- `cache_directory + (resolved_path.front() == '/' ? "" : "/") + resolved_path`
  unfoldable pub cache_dir : Text → Text
  unfolding starts_with_slash
  cache_dir resolved =
      c.cache_directory ++ ((if starts_with_slash resolved then [] else b'/' ∷ []) ++ resolved)

  -- The local file, as `open_file` writes it: with the last byte of `cache_dir`.
  unfoldable pub open_location : Text → Text → Text
  unfolding cache_dir join_path
  open_location resolved filename = join_path (cache_dir resolved) filename

  -- The local file, as the other calls write it: with the last byte of `resolved_path`.
  unfoldable pub file_location : Text → Text → Text
  unfolding cache_dir ends_in_slash
  file_location resolved filename =
      cache_dir resolved ++ ((if ends_in_slash resolved then [] else b'/' ∷ []) ++ filename)

  -- The local file, as `truncate_file` writes it.
  unfoldable pub truncate_location : Text → Text → Text
  unfolding cache_dir
  truncate_location resolved filename = cache_dir resolved ++ filename

-- The key of `cached_attr`: the path on the server.
abbrev pub server_key : Text → Text → Text
server_key resolved filename = join_path resolved filename

-- `s.pop_back()`
unfoldable pub drop_last : Text → Text
drop_last [] = []
drop_last (b ∷ []) = []
drop_last (a ∷ b ∷ s) = a ∷ drop_last (b ∷ s)

-- `if (cache_path.back() == '/') cache_path.pop_back();`
unfoldable pub without_slash : Text → Text
unfolding ends_in_slash drop_last
without_slash p = if ends_in_slash p then drop_last p else p
