-- ===== src/Client/Truncated.antt =====
-- The paths of the local copy of a file (Basic_Operation/client_code/filesystem_client.cpp):
-- `truncate_file` puts no `'/'` before the name.

use distributed_filesystem.Base.{
  Bool, [], ap, append_assoc, arith, false, if_ind, if◌then◌else◌, length, length-append, refl,
  to_uintmax, true, ℕ, ℤ, ◌++◌, ◌↔◌, ◌∷◌, ◌≡◌,
}
use distributed_filesystem.Client.Metadata.{truncate_file}
use distributed_filesystem.Client.Paths.{
  cache_dir, file_location, open_location, resolve_server_path, truncate_location,
}
use distributed_filesystem.Client.State.{Client}
use distributed_filesystem.Os.{Os}
use distributed_filesystem.System.World.{place}
use distributed_filesystem.Text.{Text, ends_in_slash, join_path, starts_with_slash, with_slash}

ends_in_slash_append :
    (xs : Text) (a : ℕ) (s : Text) → ends_in_slash (xs ++ a ∷ s) ≡ ends_in_slash (a ∷ s)
unfolding ends_in_slash
ends_in_slash_append [] a s = refl
ends_in_slash_append (x ∷ []) a s = refl
ends_in_slash_append (x ∷ y ∷ xs) a s = ends_in_slash_append (y ∷ xs) a s

ends_in_slash-cache_dir :
    {D : Type 0} (c : Client D) (a : ℕ) (s : Text)
    → ends_in_slash (cache_dir c (a ∷ s)) ≡ ends_in_slash (a ∷ s)
unfolding cache_dir ends_in_slash
ends_in_slash-cache_dir c a s =
    if_ind (λ pre. ends_in_slash (c.cache_directory ++ (pre ++ a ∷ s)) ≡ ends_in_slash (a ∷ s))
      (starts_with_slash (a ∷ s)) [] (b'/' ∷ []) (λ _. ends_in_slash_append c.cache_directory a s)
      (λ _. ends_in_slash_append c.cache_directory b'/' (a ∷ s))

-- `open_file` takes the last byte of another string than the other calls, but for a resolved path
-- that is not empty the local path is the same.
pub open_location-file_location :
    {D : Type 0} (c : Client D) (a : ℕ) (s filename : Text)
    → open_location c (a ∷ s) filename ≡ file_location c (a ∷ s) filename
unfolding open_location file_location join_path with_slash
open_location-file_location c a s filename = simp (ends_in_slash-cache_dir, append_assoc)

slash_by_length :
    (xs filename : Text) (b : Bool)
    → length (xs ++ filename) ≡ length (xs ++ ((if b then [] else b'/' ∷ []) ++ filename))
    → b ≡ true
slash_by_length xs filename true q = refl
slash_by_length xs filename false q =
    absurd (omega (arith, q, length-append xs filename, length-append xs (b'/' ∷ filename)))

truncate_location_iff :
    {D : Type 0} (c : Client D) (resolved filename : Text)
    → (truncate_location c resolved filename ≡ file_location c resolved filename)
      ↔ (ends_in_slash resolved ≡ true)
unfolding truncate_location file_location
truncate_location_iff c resolved filename =
    let slashed = slash_by_length (cache_dir c resolved) filename (ends_in_slash resolved) in
    (λ p. slashed (ap length p), λ e. rw e)

-- `truncate_file` resizes the file at this path, and returns whether that has worked.
abbrev pub Resizes : {D : Type 0} → Os D → Client D → Text → Text → ℤ → Text → Type 0
Resizes os c filename path size place =
    let (done, d) = os.resize_file c.disk place (to_uintmax size) in
    truncate_file os c filename path size ≡ (done, record c { disk = d })

-- `truncate_file` resizes one local path, returns what the disk answers to that, and changes nothing
-- of the client but its disk; and that path is `file_location`, the local path of the file, exactly if
-- the resolved path of the directory ends in `'/'`.
pub truncate_file_iff :
    {D : Type 0} (os : Os D) (c : Client D) (filename path : Text) (size : ℤ)
    → let resolved = resolve_server_path c path in
      (place : Text) × Resizes os c filename path size place
      × ((place ≡ file_location c resolved filename) ↔ (ends_in_slash resolved ≡ true))
unfolding truncate_file
truncate_file_iff os c filename path size =
    let resolved = resolve_server_path c path in
    (truncate_location c resolved filename, refl, truncate_location_iff c resolved filename)
