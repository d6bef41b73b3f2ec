-- ===== src/Client/Rooted.antt =====
-- The paths of a client whose root on the server is absolute
-- (Basic_Operation/client_code/filesystem_client.cpp).

use distributed_filesystem.Base.{
  [], ap, append_assoc, arith, false, if◌then◌else◌, refl, sym, ℕ, ◌++◌, ◌∙◌, ◌∷◌, ◌≡◌,
}
use distributed_filesystem.Client.Paths.{
  cache_dir, file_location, open_location, resolve_server_path,
}
use distributed_filesystem.Client.State.{Client}
use distributed_filesystem.Client.Truncated.{open_location-file_location}
use distributed_filesystem.Text.{
  Text, append_path, ends_in_slash, join_path, relative_path, starts_with_slash,
  starts_with_slash-relative_path, with_slash,
}

-- What `resolve_server_path` puts below the root.
abbrev below_root : Text → Text
below_root user = if starts_with_slash user then relative_path user else user

starts_with_slash-below_root : (user : Text) → starts_with_slash (below_root user) ≡ false
starts_with_slash-below_root user = ground (arith, starts_with_slash-relative_path user)

append_path-cons :
    (a : ℕ) (r q : Text)
    → starts_with_slash q ≡ false
    → append_path (a ∷ r) q ≡ a ∷ (r ++ (if ends_in_slash (a ∷ r) then [] else b'/' ∷ [])) ++ q
unfolding append_path join_path with_slash
append_path-cons a r q e = rw e refl

pub resolve_server_path-cons :
    {D : Type 0} (c : Client D) (a : ℕ) (r user : Text)
    → c.server_root_path ≡ a ∷ r
    → (q : Text) × (resolve_server_path c user ≡ a ∷ q)
unfolding resolve_server_path
resolve_server_path-cons c a r user e = (
  _,
  ap (λ p. append_path p (below_root user)) e
      ∙ append_path-cons a r (below_root user) (starts_with_slash-below_root user),
)

pub cache_dir-join_path :
    {D : Type 0} (c : Client D) (a : ℕ) (p filename : Text)
    → cache_dir c (join_path (a ∷ p) filename) ≡ file_location c (a ∷ p) filename
unfolding cache_dir file_location join_path with_slash starts_with_slash
cache_dir-join_path c a p filename = simp append_assoc

pub open_location-cache_dir :
    {D : Type 0} (c : Client D) (a : ℕ) (p filename : Text)
    → open_location c (a ∷ p) filename ≡ cache_dir c (join_path (a ∷ p) filename)
open_location-cache_dir c a p filename =
    open_location-file_location c a p filename ∙ sym (cache_dir-join_path c a p filename)

-- The local place of an absolute path on the server.
abbrev pub local_place : Text → Text → Text
local_place directory p = directory ++ b'/' ∷ p

pub cache_dir-local_place :
    {D : Type 0} (c : Client D) (p : Text)
    → cache_dir c (b'/' ∷ p) ≡ local_place c.cache_directory p
unfolding cache_dir starts_with_slash
cache_dir-local_place c p = refl

append_cancel : (s t u : Text) → s ++ t ≡ s ++ u → t ≡ u
append_cancel [] t u e = e
append_cancel (a ∷ s) t u e = append_cancel s t u (cc)

-- Two paths on the server have two places.
pub local_place_injective :
    (directory p q : Text) → local_place directory p ≡ local_place directory q → p ≡ q
local_place_injective directory p q e =
    let f = append_cancel directory (b'/' ∷ p) (b'/' ∷ q) e in cc

pub join_path-cons : (a : ℕ) (p filename : Text) → (q : Text) × (join_path (a ∷ p) filename ≡ a ∷ q)
unfolding join_path with_slash
join_path-cons a p filename = (_, refl)
