-- ===== src/Server/Apart.antt =====
-- What one call of the handlers of Basic_Operation/server_code/filesystem_server.cpp does to every
-- file of the server's disk.

use distributed_filesystem.Base.{
  Bool-cases, List, [], ap, concat, false, inl, inr, length, map, refl, some, subst, sym, ℕ, ◌++◌,
  ◌+◌, ◌∙◌, ◌∷◌, ◌≡◌,
}
use distributed_filesystem.Os.{IsFaithful, Os}
use distributed_filesystem.Server.Roundtrip.{
  WritesSucceed, bytes-uploaded, closed_lem, kept-finish_close, write_content-writing, writing,
}
use distributed_filesystem.Server.State.{Server}
use distributed_filesystem.Server.Store.{KeepsApart, bytes_of_file, holds, store_at}
use distributed_filesystem.Server.Transfer.{Upload, close_handler}
use distributed_filesystem.Server.Upload.{upload_request, uploaded}
use distributed_filesystem.Text.{Text, is_empty, join_path, parent_path, text_eq, text_eq_iff}

-- What a path holds where it can be opened, or cannot.
pub holds-some :
    {D : Type 0} (os : Os D) (d : D) (p : Text) (h : ℕ)
    → os.open_read d p ≡ some h
    → holds os d p ≡ some (os.bytes d h)
holds-some os d p h e = ap (bytes_of_file (os.bytes d)) e

module _ {D : Type 0} (os : Os D) (Plain : D → Type 0) (Named : Text → Type 0)
    (apart : KeepsApart os Plain Named) where
  module _ (faithful : IsFaithful os) (succeeds : WritesSucceed os)
      (directory filename client_id : Text) (named : is_empty filename ≡ false)
      (at : Named (join_path directory filename)) where
    abbrev written_to : ℕ → D → Text → ℕ → List (List ℕ) → Upload D
    written_to h d who position cs =
        uploaded os directory filename client_id named
          (writing os faithful succeeds directory filename client_id named h d who position) cs

    -- The loop of `close` succeeds to no other file.
    uploaded-apart :
        (h : ℕ) (d : D) (who : Text) (position : ℕ) (cs : List (List ℕ))
        → os.open_read d (join_path directory filename) ≡ some h
        → Plain d
        → Plain (written_to h d who position cs).disk
          × ((q : Text)
              → Named q
              → text_eq (join_path directory filename) q ≡ false
              → holds os (written_to h d who position cs).disk q ≡ holds os d q)
    unfolding uploaded
    uploaded-apart h d who position [] there plain = (plain, λ q n e. refl)
    uploaded-apart h d who position (c ∷ cs) there plain =
        let p = join_path directory filename in
        let ih =
          uploaded-apart h (os.write_at d h position c).1 client_id (position + length c) cs
            (faithful.write_found d h position c p ∙ there)
            (apart.writes_plain d h position c plain) in
        rw
          (
            write_content-writing os faithful succeeds directory filename client_id named h d who
                position c,
            uploaded,
          )
          (ih.0, λ q n e. ih.1 q n e ∙ apart.writes_holds d p q h position c at n plain there e)

    -- The file that is sent, when the loop of `close` ends.
    sent-holds :
        (d e : D) (h : ℕ) (cs : List (List ℕ))
        → os.open_trunc d (join_path directory filename) ≡ (some h, e)
        → holds os (written_to h e [] 0 cs).disk (join_path directory filename) ≡ some (concat cs)
    sent-holds d e h cs opened =
        let p = join_path directory filename in
        let empty = faithful.open_trunc_empty d e p h opened in
        let stored =
          bytes-uploaded os faithful succeeds directory filename client_id named h e [] 0 cs
            (ap length (sym empty)) in
        holds-some os (written_to h e [] 0 cs).disk p h
          (stored.1 ∙ faithful.open_trunc_found d e p h opened)
        ∙ (ap some (stored.0 ∙ ap (λ (b : List ℕ). b ++ concat cs) empty))

    module _ (s : Server D) (unlocked : s.file_map_locked ≡ false) (plain : Plain s.disk) where
      -- After `close`: the file that was sent, and every other as it was.
      pub close_handler-holds :
          (c : List ℕ) (cs : List (List ℕ))
          → let t =
              (close_handler os s (map (upload_request directory filename client_id) (c ∷ cs))).2 in
            (t.file_map_locked ≡ false)
            × Plain t.disk
            × ((q : Text)
                → Named q
                → holds os t.disk q
                  ≡ store_at
                      (holds os s.disk)
                      (join_path directory filename)
                      (some (concat (c ∷ cs)))
                      q)
      close_handler-holds c cs =
          let p = join_path directory filename in
          let d₁ = (os.create_directories s.disk (parent_path p)).1 in
          let d₂ = (os.open_trunc d₁ p).1 in
          let (h, e) = apart.empties d₁ p at in
          let opened : os.open_trunc d₁ p ≡ (some h, d₂) = λ i. (e i, d₂) in
          let plain₁ = apart.makes_plain s.disk (parent_path p) plain in
          let plain₂ = apart.empties_plain d₁ p at plain₁ in
          let u = written_to h d₂ [] 0 (c ∷ cs) in
          let others =
            uploaded-apart h d₂ [] 0 (c ∷ cs) (faithful.open_trunc_found d₁ d₂ p h opened) plain₂ in
          let kept = kept-finish_close os (record s { disk = u.disk }) u unlocked in
          rw
            (
              closed_lem os faithful succeeds directory filename client_id named s unlocked d₁ d₂ h
                  (λ i. (apart.makes s.disk p at i, d₁)) opened c cs,
              kept.0,
            )
            (
              kept.1,
              others.0,
              λ q n. elim (Bool-cases (text_eq p q)) [
                | inl same ↦ rw same (
                    subst (λ r. holds os u.disk r ≡ some (concat (c ∷ cs)))
                      ((text_eq_iff p q).0 same) (sent-holds d₁ d₂ h (c ∷ cs) opened))
                | inr other ↦ rw other (
                    others.1 q n other
                    ∙ apart.empties_holds d₁ p q at n plain₁ other
                    ∙ apart.makes_holds s.disk (parent_path p) q n plain)
              ],
            )
