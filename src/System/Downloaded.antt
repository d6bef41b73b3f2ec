-- ===== src/System/Downloaded.antt =====
-- The tries of `open_file` (Basic_Operation/client_code/filesystem_client.cpp) to download a file over
-- the handler `open` (Basic_Operation/server_code/filesystem_server.cpp) keep a client registered for
-- its cache.

use distributed_filesystem.Base.{
  Bool-cases, arith, bool_ind, false, if_ind, inl, inr, option_ind, refl, subst, suc, true, zero, ℕ,
  ◌∷◌, ◌≡◌,
}
use distributed_filesystem.Client.Opening.{
  Download, Try, after_download, close_outfile, download, download_tries, gives_up, save_responses,
  sync_attributes, tried,
}
use distributed_filesystem.Client.Rooted.{local_place, local_place_injective}
use distributed_filesystem.Client.State.{Client, FileAttributes, FileInfo, update}
use distributed_filesystem.Client.Tables.{has_key-put}
use distributed_filesystem.Dict.{Dict, put}
use distributed_filesystem.Os.{Os}
use distributed_filesystem.Server.Queries.{attributes}
use distributed_filesystem.Server.State.{Server}
use distributed_filesystem.Server.Transfer.{open_handler}
use distributed_filesystem.Server.Watches.{watches}
use distributed_filesystem.System.Growth.{
  Grows, Grows-trans, open_handler-Grows, open_handler-watches,
}
use distributed_filesystem.System.Network.{server_stub}
use distributed_filesystem.System.Registered.{Registered, Registered-Fewer, Registered-Grows}
use distributed_filesystem.Text.{Text, join_path, text_eq, text_eq_iff}
use distributed_filesystem.Wire.{FileRequest, StatusCode, is_ok}

module _ {DC DS : Type 0} (os_c : Os DC) (os : Os DS) (id directory root : Text)
    (old : Server DS) where
  abbrev pub Keeps : Client DC → Server DS → Type 0
  Keeps c s = Registered id directory root c s × Grows old s

  -- A try of a download; the key that it may put into the cache is of a path that is watched.
  abbrev pub KeepsTry : Try DC (Server DS) → Type 0
  KeepsTry (gives_up c s) = Keeps c s
  KeepsTry (tried status c s) = Keeps c s

  with_key :
      (c : Client DC) (s : Server DS) (q : Text) (info : FileInfo) (d : DC)
      (attributes : Dict FileAttributes)
      → Registered id directory root c s
      → watches s.file_map (b'/' ∷ q) id ≡ true
      → Registered id directory root
          (record c {
            disk = d;
            cache = put (local_place directory q) info c.cache;
            cached_attr = attributes;
          })
          s
  with_key c s q info d attributes h w = record {
    named = h.named;
    placed = h.placed;
    rooted = h.rooted;
    unlocked = h.unlocked;
    watched = λ p k.
        elim (Bool-cases (text_eq (local_place directory q) (local_place directory p))) [
          | inl e ↦
              let same =
                local_place_injective directory q p
                  ((text_eq_iff (local_place directory q) (local_place directory p)).0 e) in
              subst (λ x. watches s.file_map (b'/' ∷ x) id ≡ true) same w
          | inr e ↦ h.watched p (
              ground (
                arith,
                has_key-put (local_place directory q) (local_place directory p) info c.cache,
              ))
        ];
  }

  after_download-Keeps :
      (c : Client DC) (s : Server DS) (q key filename : Text) (status : StatusCode)
      (u : Download DC)
      → Keeps c s
      → watches s.file_map (b'/' ∷ q) id ≡ true
      → KeepsTry
          (after_download os_c (server_stub os) c s (local_place directory q) key filename status u)
  unfolding after_download
  after_download-Keeps c s q key filename status u (h, g) w =
      if_ind KeepsTry u.failed _ _
        (λ _. (Registered-Fewer id directory root c _ s (refl, refl, refl, λ j k. k) h, g))
        (λ _. (
          if_ind
              (λ (m : Dict FileInfo).
                Registered id directory root
                  (record c {
                    disk = u.disk;
                    cache = m;
                    cached_attr =
                        update key
                          (sync_attributes os_c u.disk (local_place directory q) u.last_timestamp)
                          c.cached_attr;
                  })
                  s)
              (is_ok status) _ _ (λ _. with_key c s q _ u.disk _ h w)
              (λ _. Registered-Fewer id directory root c _ s (refl, refl, refl, λ j k. k) h),
          g,
        ))

  module _ (request : FileRequest) (q key : Text) (by : request.client_id ≡ id)
      (at : join_path request.directory request.filename ≡ b'/' ∷ q) where
    asked_again :
        (c : Client DC) (s : Server DS)
        → Keeps c s
        → let t = ((server_stub os).open_file s request).2 in
          Keeps c t × (watches t.file_map (b'/' ∷ q) id ≡ true)
    unfolding server_stub
    asked_again c s (h, g) =
        let t = (open_handler os (λ _. true) s request).2 in
        let grows = open_handler-Grows os s request in
        let there = open_handler-watches os s request h.unlocked in
        (
          (Registered-Grows id directory root c s t grows h, Grows-trans g grows),
          subst (λ k. watches t.file_map (b'/' ∷ q) k ≡ true) by
              (subst (λ p. watches t.file_map p request.client_id ≡ true) at there),
        )

    download-Keeps :
        (c : Client DC) (s : Server DS)
        → Keeps c s
        → KeepsTry (download os_c (server_stub os) c s request (local_place directory q) key)
    unfolding download
    download-Keeps c s k =
        let location = local_place directory q in
        let ((h, g), w) = asked_again c s k in
        let t = ((server_stub os).open_file s request).2 in
        option_ind KeepsTry (os_c.open_trunc c.disk location).0 _ _
          (λ _. (Registered-Fewer id directory root c _ t (refl, refl, refl, λ j k. k) h, g))
          (λ handle _.
            after_download-Keeps c t q key request.filename _
              (close_outfile os_c handle (
                save_responses os_c handle
                  (record {
                    disk = (os_c.open_trunc c.disk location).1;
                    last_timestamp = 0;
                    position = 0;
                    failed = false;
                  })
                  ((server_stub os).open_file s request).0))
              (h, g) w)

    pub download_tries-Keeps :
        (left : ℕ) (status : StatusCode) (c : Client DC) (s : Server DS)
        → Keeps c s
        → KeepsTry (
            download_tries os_c
              (server_stub os)
              left
              status
              c
              s
              request
              (local_place directory q)
              key)
    unfolding download_tries
    download_tries-Keeps zero status c s k = k
    download_tries-Keeps (suc left) status c s k =
        bool_ind KeepsTry (is_ok status) _ _ (λ _. k)
          (λ _.
            tries_on (download os_c (server_stub os) c s request (local_place directory q) key)
              (download-Keeps c s k)
              (λ status' c' s' k'. download_tries-Keeps left status' c' s' k'))
      where
        tries_on :
            (t : Try DC (Server DS))
            → KeepsTry t
            → ((status' : StatusCode) (c' : Client DC) (s' : Server DS)
                → Keeps c' s'
                → KeepsTry (
                    download_tries os_c
                      (server_stub os)
                      left
                      status'
                      c'
                      s'
                      request
                      (local_place directory q)
                      key))
            → KeepsTry (elim t [
              | gives_up c' s' ↦ gives_up c' s'
              | tried status' c' s' ↦
                  download_tries os_c
                    (server_stub os)
                    left
                    status'
                    c'
                    s'
                    request
                    (local_place directory q)
                    key
            ])
        tries_on (gives_up c' s') k' again = k'
        tries_on (tried status' c' s') k' again = again status' c' s' k'
