-- ===== src/System/Registered.antt =====
-- A client is registered for what it has in its cache: `open_file` and `close_file`
-- (Basic_Operation/client_code/filesystem_client.cpp) over the handlers of
-- Basic_Operation/server_code/filesystem_server.cpp.

use distributed_filesystem.Base.{false, true, ◌∙◌, ◌∷◌, ◌≡◌}
use distributed_filesystem.Client.Fewer.{Fewer}
use distributed_filesystem.Client.Files.{has_key}
use distributed_filesystem.Client.Rooted.{local_place}
use distributed_filesystem.Client.State.{Client}
use distributed_filesystem.Server.State.{Server}
use distributed_filesystem.Server.Watches.{watches}
use distributed_filesystem.System.Growth.{Grows}
use distributed_filesystem.Text.{Text}

-- A client of a given name, cache directory and root, and a server that has it registered for every
-- file in its cache. Paths on the server are absolute.
pub record Registered {DC DS : Type 0} (id directory root : Text) (c : Client DC) (s : Server DS)
    : Type 0 where
  pub named : c.client_id ≡ id
  pub placed : c.cache_directory ≡ directory
  pub rooted : c.server_root_path ≡ b'/' ∷ root
  pub unlocked : s.file_map_locked ≡ false
  pub watched :
      (p : Text)
      → has_key (local_place directory p) c.cache ≡ true
      → watches s.file_map (b'/' ∷ p) id ≡ true

module _ {DC DS : Type 0} (id directory root : Text) where
  pub Registered-Grows :
      (c : Client DC) (s t : Server DS)
      → Grows s t
      → Registered id directory root c s
      → Registered id directory root c t
  Registered-Grows c s t g h = record {
    named = h.named;
    placed = h.placed;
    rooted = h.rooted;
    unlocked = g.unlocked h.unlocked;
    watched = λ p k. g.keeps (b'/' ∷ p) id (h.watched p k);
  }

  pub Registered-Fewer :
      (c c' : Client DC) (s : Server DS)
      → Fewer c c'
      → Registered id directory root c s
      → Registered id directory root c' s
  Registered-Fewer c c' s (e, f, g, fewer) h = record {
    named = e ∙ h.named;
    placed = f ∙ h.placed;
    rooted = g ∙ h.rooted;
    unlocked = h.unlocked;
    watched = λ p k. h.watched p (fewer (local_place directory p) k);
  }
