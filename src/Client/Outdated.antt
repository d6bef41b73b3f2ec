-- ===== src/Client/Outdated.antt =====
-- Cached attributes of a file that is not cached: `get_attributes` of
-- Basic_Operation/client_code/filesystem_client.cpp and `RunSubscriber` of
-- Basic_Operation/client_code/client_subscriber.hpp.

use distributed_filesystem.Base.{
  List, Option, [], ap, arith, false, if_ind, none, not, option_ind, refl, some, true, ◌&&◌, ◌∙◌,
  ◌∷◌, ◌≡◌,
}
use distributed_filesystem.Client.Fewer.{handle_notification-Fewer}
use distributed_filesystem.Client.Files.{has_key}
use distributed_filesystem.Client.Metadata.{get_attributes}
use distributed_filesystem.Client.Paths.{cache_dir, resolve_server_path, server_key}
use distributed_filesystem.Client.Stale.{handle_notification-invalidates}
use distributed_filesystem.Client.State.{Client, FileAttributes}
use distributed_filesystem.Client.Stub.{Stub}
use distributed_filesystem.Client.Subscriber.{handle_notification, run_subscriber}
use distributed_filesystem.Dict.{get, get-put_self}
use distributed_filesystem.Os.{Os}
use distributed_filesystem.Text.{Text, text_eq, text_eq_iff}
use distributed_filesystem.Wire.{Notification, is_ok}

-- The attributes are cached and the file is not, in a later state of a client.
abbrev HasOnly : {D : Type 0} → Client D → Text → FileAttributes → Client D → Type 0
HasOnly c key a c' =
    (c'.server_root_path ≡ c.server_root_path)
    × (c'.cache_directory ≡ c.cache_directory)
    × (get key c'.cached_attr ≡ some a)
    × (get (cache_dir c key) c'.cache ≡ none)

resolve_same :
    {D : Type 0} (c c' : Client D) (path : Text)
    → c'.server_root_path ≡ c.server_root_path
    → resolve_server_path c' path ≡ resolve_server_path c path
unfolding resolve_server_path
resolve_same c c' path e = ap (λ r. resolve_server_path (record c { server_root_path = r }) path) e

cache_dir_same :
    {D : Type 0} (c c' : Client D) (p : Text)
    → c'.cache_directory ≡ c.cache_directory
    → cache_dir c' p ≡ cache_dir c p
unfolding cache_dir
cache_dir_same c c' p e = ap (λ d. cache_dir (record c { cache_directory = d }) p) e

absent_key :
    {D : Type 0} (c : Client D) (l : Text) → get l c.cache ≡ none → has_key l c.cache ≡ false
unfolding has_key
absent_key c l e = ground arith

module _ {D : Type 0} (c : Client D) (key : Text) (a : FileAttributes) where
  handle_notification-HasOnly :
      (c' : Client D) (note : Notification)
      → HasOnly c key a c'
      → HasOnly c key a (handle_notification c' note)
  handle_notification-HasOnly c' note (rooted, placed, kept, out) =
      let (named, placed', rooted', fewer) = handle_notification-Fewer c' note in
      let (cache, attributes) = handle_notification-invalidates c' note (cache_dir c key) key in
      let missing : text_eq note.directory key ≡ true
          → has_key (cache_dir c' note.directory) c'.cache ≡ false =
        λ e. absent_key c' (cache_dir c' note.directory) (
          ap (λ l. get l c'.cache)
            (ap (cache_dir c') ((text_eq_iff note.directory key).0 e)
              ∙ cache_dir_same c c' key placed)
          ∙ out) in
      (
        rooted' ∙ rooted,
        placed' ∙ placed,
        ground (arith, attributes, kept, missing),
        cache
            ∙ if_ind (λ o. o ≡ none)
                (not (has_key (cache_dir c' note.directory) c'.opened_files)
                  && text_eq (cache_dir c' note.directory) (cache_dir c key))
                _ _ (λ _. refl) (λ _. out),
      )

  run_subscriber-HasOnly :
      (notes : List Notification) (c' : Client D)
      → HasOnly c key a c'
      → HasOnly c key a (run_subscriber c' notes)
  unfolding run_subscriber
  run_subscriber-HasOnly [] c' k = k
  run_subscriber-HasOnly (note ∷ rest) c' k =
      run_subscriber-HasOnly rest (handle_notification c' note)
        (handle_notification-HasOnly c' note k)

module _ {D N : Type 0} (os : Os D) (stub : Stub N) (c : Client D) (net : N) (filename path : Text)
    (a : FileAttributes) where
  get_attributes-HasOnly :
      let key = server_key (resolve_server_path c path) filename in
      ((get_attributes os stub c net filename path).0 ≡ some a
        → get (cache_dir c key) c.cache ≡ none
        → HasOnly c key a (get_attributes os stub c net filename path).1)
  unfolding get_attributes
  get_attributes-HasOnly =
      let resolved = resolve_server_path c path in
      let key = server_key resolved filename in
      let Goal : Option FileAttributes × Client D × N → Type 0 =
        λ r. r.0 ≡ some a → get (cache_dir c key) c.cache ≡ none → HasOnly c key a r.1 in
      option_ind Goal (get key c.cached_attr) _ _
        (λ _.
          if_ind Goal (is_ok (stub.getattr net resolved filename).0) _ _
            (λ _ e out. (refl, refl, get-put_self key _ c.cached_attr ∙ e, out)) (λ _ e out. cc))
        (λ b f e out. (refl, refl, f ∙ e, out))

  get_attributes_cached :
      (c' : Client D) (later : N)
      → get (server_key (resolve_server_path c' path) filename) c'.cached_attr ≡ some a
      → get_attributes os stub c' later filename path ≡ (some a, c', later)
  unfolding get_attributes
  get_attributes_cached c' later e = rw (get_attributes, e) refl

  -- Attributes of a file that is not cached are never asked again: if `get_attributes` has returned
  -- attributes of a file that is not in the cache, then after any notifications, whatever files they
  -- name, `get_attributes` returns the same attributes and changes neither the client nor the network.
  pub get_attributes-run_subscriber :
      (notes : List Notification) (later : N)
      → (get_attributes os stub c net filename path).0 ≡ some a
      → get (cache_dir c (server_key (resolve_server_path c path) filename)) c.cache ≡ none
      → let c' = run_subscriber (get_attributes os stub c net filename path).1 notes in
        get_attributes os stub c' later filename path ≡ (some a, c', later)
  get_attributes-run_subscriber notes later e out =
      let key = server_key (resolve_server_path c path) filename in
      let c' = run_subscriber (get_attributes os stub c net filename path).1 notes in
      let (rooted, placed, kept, gone) =
        run_subscriber-HasOnly c key a notes (get_attributes os stub c net filename path).1
          (get_attributes-HasOnly e out) in
      let same =
        ap (λ p. get (server_key p filename) c'.cached_attr) (resolve_same c c' path rooted) in
      get_attributes_cached c' later (same ∙ kept)
