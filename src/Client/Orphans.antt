-- ===== src/Client/Orphans.antt =====
-- The mutex of an open file that `rename_file` renames
-- (Basic_Operation/client_code/filesystem_client.cpp).

use distributed_filesystem.Base.{
  Bool, Option, [], ap, append-nil, arith, false, inl, inr, none, refl, some, subst, sym, true,
  ◌++◌, ◌∙◌, ◌≡◌, ◌⊎◌,
}
use distributed_filesystem.Client.Files.{find_streams, guarded}
use distributed_filesystem.Client.Moved.{renamed_value}
use distributed_filesystem.Client.Rehomed.{
  HasSortedTables, Rehomes, local_of, remote_of, rename_file-Rehomes,
}
use distributed_filesystem.Client.Renaming.{rename_file}
use distributed_filesystem.Client.State.{Client, FileInfo, FileStreams, answers}
use distributed_filesystem.Client.Stub.{Stub}
use distributed_filesystem.Dict.{Dict, get}
use distributed_filesystem.Members.{contains}
use distributed_filesystem.Os.{Os}
use distributed_filesystem.Text.{Text, is_within, strip_prefix, strip_prefix-append}

-- What stood under the old path stands under the new one.
renamed_value-target {ℓ} :
    {V : Type ℓ} (old_p new_p : Text) (m : Dict V) (v : V)
    → is_within old_p new_p ≡ false
    → get old_p m ≡ some v
    → renamed_value old_p new_p m new_p ≡ some v
unfolding renamed_value
renamed_value-target old_p new_p m v out e =
    let whole : strip_prefix new_p new_p ≡ some [] =
      subst (λ t. strip_prefix new_p t ≡ some []) (append-nil new_p)
        (strip_prefix-append new_p []) in
    let there : get (old_p ++ []) m ≡ some v =
      subst (λ t. get t m ≡ some v) (sym (append-nil old_p)) e in
    rw out (ground (arith, whole, there))

guarded-none :
    (mutex : Bool) (info : Option FileInfo) (streams : Option FileStreams)
    → mutex ≡ false
    → guarded mutex info streams ≡ none
guarded-none mutex none streams e = refl
guarded-none mutex (some info) streams e = rw e

moved_when_true {ℓ κ} : {S : Type ℓ} {M : Type κ} → ((¬ (answers true ≡ answers true)) × S) ⊎ M → M
moved_when_true (inl (other, same)) = absurd (other refl)
moved_when_true (inr moved) = moved

-- If `rename_file` returns true for a file that is open, and the new path has no mutex, then the file
-- counts as open under its new path, but `read_file` and `write_file` find no streams for it: the
-- mutex of an open file is not renamed with it. The paths are as for the tables.
pub rename_file-orphans :
    {D N : Type 0} (os : Os D) (stub : Stub N) (c c' : Client D) (net net' : N)
    (from_name to_name old_path new_path : Text) (streams : FileStreams)
    → HasSortedTables c
    → is_within (local_of c old_path from_name) (local_of c new_path to_name) ≡ false
    → is_within (local_of c new_path to_name) (local_of c old_path from_name) ≡ false
    → is_within (remote_of c old_path from_name) (remote_of c new_path to_name) ≡ false
    → is_within (remote_of c new_path to_name) (remote_of c old_path from_name) ≡ false
    → get (local_of c old_path from_name) c.opened_files ≡ some streams
    → contains (local_of c new_path to_name) c.file_mutexes ≡ false
    → rename_file os stub c net from_name to_name old_path new_path ≡ some (answers true, c', net')
    → (get (local_of c new_path to_name) c'.opened_files ≡ some streams)
      × (find_streams c' (local_of c new_path to_name) ≡ none)
unfolding find_streams
rename_file-orphans os stub c c' net net' from_name to_name old_path new_path streams s a b e f g h
      r =
    let old_local = local_of c old_path from_name in
    let new_local = local_of c new_path to_name in
    let (mutexes, tables) =
      subst
        (Rehomes c old_local new_local (remote_of c old_path from_name)
          (remote_of c new_path to_name))
        r (rename_file-Rehomes os stub c net from_name to_name old_path new_path s a b e f) in
    let moved = moved_when_true tables in
    (
      moved.1 new_local ∙ renamed_value-target old_local new_local c.opened_files streams a g,
      guarded-none (contains new_local c'.file_mutexes) (get new_local c'.cache) _
          (ap (contains new_local) mutexes ∙ h),
    )
