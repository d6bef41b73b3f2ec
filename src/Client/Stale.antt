-- ===== src/Client/Stale.antt =====
-- What a notification of the server does to the cache (`RunSubscriber` in
-- Basic_Operation/client_code/client_subscriber.hpp).

use distributed_filesystem.Base.{arith, if◌then◌else◌, none, not, ◌&&◌, ◌≡◌}
use distributed_filesystem.Client.Files.{has_key}
use distributed_filesystem.Client.Paths.{cache_dir}
use distributed_filesystem.Client.State.{Client}
use distributed_filesystem.Client.Subscriber.{handle_notification, invalidate}
use distributed_filesystem.Dict.{get, get-remove}
use distributed_filesystem.Text.{Text, text_eq, text_eq_iff}
use distributed_filesystem.Wire.{Notification}

module _ {D : Type 0} where
  -- After a notification, the cache has every entry that it had but that of the file the
  -- notification names, and it has that one only if the client has the file open; and of the cached
  -- attributes, those of that file have gone, if the file was in the cache and is not open, and no
  -- others.
  pub handle_notification-invalidates :
      (c : Client D) (note : Notification) (j p : Text)
      → let location = cache_dir c note.directory in
        let c' = handle_notification c note in
        (get j c'.cache ≡ (
          if not (has_key location c.opened_files) && text_eq location j
          then none
          else get j c.cache))
        × (get p c'.cached_attr ≡ (
            if not (has_key location c.opened_files)
              && (has_key location c.cache && text_eq note.directory p)
            then none
            else get p c.cached_attr))
  unfolding handle_notification invalidate has_key
  handle_notification-invalidates c note j p =
      let location = cache_dir c note.directory in
      (
        ground (arith, get-remove location j c.cache, text_eq_iff location j),
        ground (arith, get-remove note.directory p c.cached_attr, text_eq_iff note.directory p),
      )
