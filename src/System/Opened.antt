-- ===== src/System/Opened.antt =====
-- `open_file` (Basic_Operation/client_code/filesystem_client.cpp) over the handler `open`
-- (Basic_Operation/server_code/filesystem_server.cpp) keeps a client registered for its cache.

use distributed_filesystem.Base.{ap, arith, if_ind, option_ind, refl, subst, sym, ◌∙◌, ◌∷◌, ◌≡◌}
use distributed_filesystem.Client.Files.{mark_opened, open_streams}
use distributed_filesystem.Client.Opening.{
  Try, discard, download_tries, finish_download, gives_up, open_cached, open_downloaded, open_file,
  open_missing, tried,
}
use distributed_filesystem.Client.Paths.{cache_dir, open_location, resolve_server_path, server_key}
use distributed_filesystem.Client.Rooted.{
  cache_dir-local_place, join_path-cons, local_place, open_location-cache_dir,
  resolve_server_path-cons,
}
use distributed_filesystem.Client.State.{Answer, Client}
use distributed_filesystem.Client.Tables.{has_key-remove}
use distributed_filesystem.Dict.{get}
use distributed_filesystem.Os.{Os}
use distributed_filesystem.Server.State.{Server}
use distributed_filesystem.Server.Store.{fetch_request}
use distributed_filesystem.System.Downloaded.{Keeps, KeepsTry, download_tries-Keeps}
use distributed_filesystem.System.Network.{server_stub}
use distributed_filesystem.System.Registered.{Registered, Registered-Fewer}
use distributed_filesystem.Text.{Text, join_path}
use distributed_filesystem.Wire.{StatusCode, is_ok}

module _ {DC DS : Type 0} (os_c : Os DC) (os : Os DS) (id directory root : Text)
    (old : Server DS) where
  abbrev pub Kept : Client DC → Server DS → Type 0
  Kept c s = Keeps os_c os id directory root old c s

  abbrev pub KeptAnswer : Answer × Client DC × Server DS → Type 0
  KeptAnswer (answer, c, s) = Kept c s

  finish_download-Keeps :
      (t : Try DC (Server DS)) (location : Text)
      → KeepsTry os_c os id directory root old t
      → KeptAnswer (finish_download os_c (server_stub os) t location)
  unfolding finish_download open_downloaded discard mark_opened
  finish_download-Keeps (gives_up c s) location k = k
  finish_download-Keeps (tried status c s) location (h, g) =
      if_ind KeptAnswer (is_ok status) _ _
        (λ _.
          option_ind KeptAnswer (open_streams os_c c.disk location) _ _
            (λ _. (
              Registered-Fewer id directory root c _ s
                  (refl, refl, refl, λ j k. ground (arith, has_key-remove location j c.cache)) h,
              g,
            ))
            (λ streams _.
              (Registered-Fewer id directory root c _ s (refl, refl, refl, λ j k. k) h, g)))
        (λ _. (Registered-Fewer id directory root c _ s (refl, refl, refl, λ j k. k) h, g))

  open_missing-Keeps :
      (c : Client DC) (s : Server DS) (resolved filename q : Text)
      → join_path resolved filename ≡ b'/' ∷ q
      → Kept c s
      → KeptAnswer
          (open_missing os_c (server_stub os) c s resolved filename (local_place directory q))
  unfolding open_missing
  open_missing-Keeps c s resolved filename q at (h, g) =
      let made = os_c.create_directories c.disk (cache_dir c resolved) in
      let start =
        Registered-Fewer id directory root c (record c { disk = made.1 }) s
          (refl, refl, refl, λ j k. k) h in
      if_ind KeptAnswer made.0 _ _
        (λ _.
          finish_download-Keeps
            (download_tries os_c (server_stub os) 3 StatusCode.unknown (record c { disk = made.1 })
              s (fetch_request resolved filename c.client_id) (local_place directory q)
              (server_key resolved filename))
            (local_place directory q)
            (download_tries-Keeps os_c os id directory root old
              (fetch_request resolved filename c.client_id) q (server_key resolved filename) h.named
              at 3 StatusCode.unknown (record c { disk = made.1 }) s (start, g)))
        (λ _. (start, g))

  open_cached-Keeps :
      (c : Client DC) (s : Server DS) (location : Text)
      → Kept c s
      → KeptAnswer (open_cached os_c (server_stub os) c s location)
  unfolding open_cached mark_opened
  open_cached-Keeps c s location (h, g) =
      option_ind KeptAnswer (get location c.opened_files) _ _
        (λ _.
          option_ind KeptAnswer (open_streams os_c c.disk location) _ _ (λ _. (h, g))
            (λ streams _.
              (Registered-Fewer id directory root c _ s (refl, refl, refl, λ j k. k) h, g)))
        (λ streams _. (h, g))

  -- The place of an absolute path.
  place_of :
      (c : Client DC) (s : Server DS) (filename path : Text)
      → Registered id directory root c s
      → (q : Text) × (join_path (resolve_server_path c path) filename ≡ b'/' ∷ q)
        × (open_location c (resolve_server_path c path) filename ≡ local_place directory q)
  place_of c s filename path h =
      let (r, rooted) = resolve_server_path-cons c b'/' root path h.rooted in
      let (q, joined) = join_path-cons b'/' r filename in
      (
        q,
        ap (λ p. join_path p filename) rooted ∙ joined,
        ap (λ p. open_location c p filename) rooted
            ∙ open_location-cache_dir c b'/' r filename
            ∙ ap (cache_dir c) joined
            ∙ cache_dir-local_place c q
            ∙ ap (λ d. local_place d q) h.placed,
      )

  pub open_file-Keeps :
      (c : Client DC) (s : Server DS) (filename path : Text)
      → Kept c s
      → KeptAnswer (open_file os_c (server_stub os) c s filename path)
  unfolding open_file
  open_file-Keeps c s filename path (h, g) =
      let resolved = resolve_server_path c path in
      let (q, joined, located) = place_of c s filename path h in
      option_ind KeptAnswer (get (open_location c resolved filename) c.cache) _ _
        (λ _.
          subst (λ l. KeptAnswer (open_missing os_c (server_stub os) c s resolved filename l))
            (sym located) (open_missing-Keeps c s resolved filename q joined (h, g)))
        (λ info _. open_cached-Keeps c s (open_location c resolved filename) (h, g))
