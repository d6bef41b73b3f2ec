-- ===== src/System/Promise.antt =====
-- The promise that the server of Basic_Operation/server_code/filesystem_server.cpp makes to the
-- clients of Basic_Operation/client_code/filesystem_client.cpp: whoever has a file in its cache is
-- told when the file changes.

use distributed_filesystem.Base.{[], ap, false, refl, subst, sym, true, ℕ, ◌∙◌, ◌∷◌, ◌≡◌}
use distributed_filesystem.Client.Closing.{close_file}
use distributed_filesystem.Client.Files.{has_key}
use distributed_filesystem.Client.Paths.{cache_dir, resolve_server_path}
use distributed_filesystem.Client.Rooted.{
  cache_dir-local_place, join_path-cons, local_place, resolve_server_path-cons,
}
use distributed_filesystem.Client.State.{Client}
use distributed_filesystem.Dict.{get}
use distributed_filesystem.Os.{IsFaithful, Os}
use distributed_filesystem.Server.Roundtrip.{WritesSucceed}
use distributed_filesystem.Server.Watches.{watches}
use distributed_filesystem.System.Coherence.{LearnsOf, cache_dir_named, close_file-LearnsOf}
use distributed_filesystem.System.Interleaved.{AllRegistered, Reach-AllRegistered}
use distributed_filesystem.System.Network.{server_stub}
use distributed_filesystem.System.Stored.{CanFlush, CanStore}
use distributed_filesystem.System.World.{IsFresh, Reach, World}
use distributed_filesystem.Text.{Text, is_empty, join_path, text_eq}

nobody_cached : {D : Type 0} (c : Client D) (j : Text) → c.cache ≡ [] → has_key j c.cache ≡ true → ⊥
unfolding has_key get
nobody_cached c j e h = let f = subst (λ m. has_key j m ≡ true) e h in cc

module _ {DC DS : Type 0} (os_c : Os DC) (os : Os DS) (w v : World DC DS) (fresh : IsFresh w)
    (reached : Reach os_c os w v) where
  abbrev name_at : ℕ → Text
  name_at i = (w.clients i).client_id

  abbrev directory_at : ℕ → Text
  directory_at i = (w.clients i).cache_directory

  start-AllRegistered : AllRegistered name_at directory_at fresh.root w
  start-AllRegistered = record {
    formed = fresh.formed;
    each = λ i. record {
      named = refl;
      placed = refl;
      rooted = fresh.rooted i;
      unlocked = fresh.unlocked;
      watched = λ p h. absurd (nobody_cached (w.clients i) _ (fresh.uncached i) h);
    };
  }

  pub reached-AllRegistered : AllRegistered name_at directory_at fresh.root v
  reached-AllRegistered =
      Reach-AllRegistered os_c os name_at directory_at fresh.root reached start-AllRegistered

  -- In every state that the clients and the server reach from a fresh one, by opening, closing,
  -- reading, writing and truncating files, asking for attributes, making folders, subscribing and
  -- the delivery of notifications, in any order: if the local place of a path on the server is in
  -- the cache of a client, then that client is registered for the path in `file_map`.
  pub Reach-watches :
      (i : ℕ) (p : Text)
      → has_key (cache_dir (v.clients i) (b'/' ∷ p)) (v.clients i).cache ≡ true
      → watches v.server.file_map (b'/' ∷ p) (v.clients i).client_id ≡ true
  Reach-watches i p h =
      let mine = reached-AllRegistered.each i in
      let place = cache_dir-local_place (v.clients i) p ∙ ap (λ d. local_place d p) mine.placed in
      subst (λ k. watches v.server.file_map (b'/' ∷ p) k ≡ true) (sym mine.named)
        (mine.watched p (subst (λ l. has_key l (v.clients i).cache ≡ true) place h))

  -- The path on the server of a file of a client.
  pub absolute :
      (i : ℕ) (filename path : Text)
      → (q : Text) × (r : Text) × (join_path (resolve_server_path (v.clients i) path) filename
          ≡ b'/' ∷ q)
        × (resolve_server_path (v.clients i) path ≡ b'/' ∷ r)
  absolute i filename path =
      let mine = reached-AllRegistered.each i in
      let (r, rooted) =
        resolve_server_path-cons (v.clients i) b'/' (fresh.root i) path mine.rooted in
      let (q, joined) = join_path-cons b'/' r filename in
      (q, r, ap (λ p. join_path p filename) rooted ∙ joined, rooted)

  -- The path on the server of a file that the client `i` names, and the place of a copy of it at the
  -- client `j`.
  abbrev path_at : ℕ → Text → Text → Text
  path_at i filename path = join_path (resolve_server_path (v.clients i) path) filename

  abbrev copy_at : ℕ → ℕ → Text → Text → Text
  copy_at j i filename path = cache_dir (v.clients j) (path_at i filename path)

  module _ (faithful : IsFaithful os) (succeeds : WritesSucceed os) where
    -- No cache is left out: in every state that a fresh one reaches by steps of `System.World`, if a
    -- client closes a file that it has open, modified and writable, and the server can store it, then
    -- every other client that has the file in its cache, and does not have it open, learns of it: an
    -- UPDATE for the path joins its inbox, if it has subscribed, and takes the file out of its cache
    -- when it is handled.
    pub Reach-LearnsOf :
        (i j : ℕ) (filename path : Text) (h : ℕ)
        → CanFlush os_c (v.clients i) filename path h
        → CanStore os v.server (resolve_server_path (v.clients i) path) filename
        → text_eq (v.clients j).client_id (v.clients i).client_id ≡ false
        → has_key (copy_at j i filename path) (v.clients j).cache ≡ true
        → has_key (copy_at j i filename path) (v.clients j).opened_files ≡ false
        → LearnsOf
            (v.clients j)
            (path_at i filename path)
            (copy_at j i filename path)
            v.server
            (close_file os_c (server_stub os) (v.clients i) v.server filename path).2
    Reach-LearnsOf i j filename path h can_flush can_store other cached shut =
        let a = v.clients i in
        let b = v.clients j in
        let resolved = resolve_server_path a path in
        let (q, r, joined, rooted) = absolute i filename path in
        let full = ap is_empty rooted in
        let same = cache_dir_named b resolved filename full in
        let watched =
          subst (λ p. watches v.server.file_map p b.client_id ≡ true) (sym joined)
            (Reach-watches j q (ap (λ p. has_key (cache_dir b p) b.cache) (sym joined) ∙ cached)) in
        subst
          (λ l.
            LearnsOf b (join_path resolved filename) l v.server
              (close_file os_c (server_stub os) a v.server filename path).2)
          (sym same)
          (close_file-LearnsOf os_c os faithful succeeds v.server reached-AllRegistered.formed a b
            filename path h can_flush can_store full watched other
            (ap (λ l. has_key l b.opened_files) (sym same) ∙ shut))
