-- ===== src/Client/Subscriber.antt =====
-- `RunSubscriber` of Basic_Operation/client_code/client_subscriber.hpp: what the client does with the
-- notifications of the server.

use distributed_filesystem.Base.{List, [], if◌then◌else◌, none, some, ◌∷◌}
use distributed_filesystem.Client.Files.{has_key}
use distributed_filesystem.Client.Paths.{cache_dir}
use distributed_filesystem.Client.State.{Client}
use distributed_filesystem.Dict.{get, remove}
use distributed_filesystem.Text.{Text}
use distributed_filesystem.Wire.{Notification}

module _ {D : Type 0} where
  -- The attributes are erased only where the file was in the cache.
  unfoldable pub invalidate : Client D → Text → Text → Client D
  unfolding get remove
  invalidate c location path = elim (get location c.cache) [
    | none ↦ c
    | some info ↦ record c {
      cache = remove location c.cache;
      cached_attr = remove path c.cached_attr;
    }
  ]

  unfoldable pub handle_notification : Client D → Notification → Client D
  unfolding invalidate cache_dir has_key
  handle_notification c note =
      let location = cache_dir c note.directory in
      if has_key location c.opened_files then c else invalidate c location note.directory

  -- `while (reader->Read(&note))`
  unfoldable pub run_subscriber : Client D → List Notification → Client D
  unfolding handle_notification
  run_subscriber c [] = c
  run_subscriber c (note ∷ rest) = run_subscriber (handle_notification c note) rest
