-- ===== src/Fuse/Listing.antt =====
-- What `afs_readdir` (FUSE/FUSE_integration.cpp) shows of a directory of the server: through
-- `ls_contents` (Basic_Operation/client_code/filesystem_client.cpp) and `ls`
-- (Basic_Operation/server_code/filesystem_server.cpp).

use distributed_filesystem.Base.{
  Bool, List, Option, [], ap, arith, false, if◌then◌else◌, none, refl, some, subst, sym, true, ◌||◌,
  ◌∙◌, ◌∷◌, ◌≡◌,
}
use distributed_filesystem.Client.Files.{has_key}
use distributed_filesystem.Client.Metadata.{ls_contents}
use distributed_filesystem.Client.Paths.{resolve_server_path}
use distributed_filesystem.Client.State.{Client}
use distributed_filesystem.Client.Tables.{has_key-put}
use distributed_filesystem.Dict.{Dict, IsSorted, get, get-After, put, put-IsSorted}
use distributed_filesystem.Fuse.Changes.{afs_readdir, entry_names}
use distributed_filesystem.Fuse.Replies.{Reply, enoent, fails, success}
use distributed_filesystem.Members.{Distinct, contains}
use distributed_filesystem.Os.{EntryKind, Os, is_directory, is_other, is_regular_file}
use distributed_filesystem.Server.Queries.{entry_list, list_entries, ls}
use distributed_filesystem.Server.State.{Server}
use distributed_filesystem.System.Network.{server_stub}
use distributed_filesystem.Text.{Text, lit, text_eq}
use distributed_filesystem.Wire.{StatusCode, is_ok}

abbrev pub Entries : Type 0
Entries = List (Text × EntryKind)

-- Whether a directory has a regular file or a directory of that name.
unfoldable pub listed : Text → Entries → Bool
listed x [] = false
listed x ((name, is_other) ∷ rest) = listed x rest
listed x ((name, kind) ∷ rest) = text_eq name x || listed x rest

-- The entries of a path that exists, is a directory and can be read.
abbrev pub if_directory : Option Bool → Option Bool → Option Entries → Option Entries
if_directory (some true) (some true) entries = entries
if_directory _ _ _ = none

abbrev pub entries_at : {D : Type 0} → Os D → D → Text → Option Entries
entries_at os d p = if_directory (os.exists d p) (os.is_dir d p) (os.list_dir d p)

contains-entry_names : (x : Text) (m : Dict Text) → contains x (entry_names m) ≡ has_key x m
unfolding entry_names contains has_key get
contains-entry_names x [] = refl
contains-entry_names x ((name, kind) ∷ m) = ground (arith, contains-entry_names x m)

entry_names-Distinct : (m : Dict Text) → IsSorted m → Distinct (entry_names m)
unfolding entry_names
entry_names-Distinct [] h = tt
entry_names-Distinct ((name, kind) ∷ m) h = (
  contains-entry_names name m ∙ (unfold has_key in ground (arith, get-After name m h.0)),
  entry_names-Distinct m h.1,
)

module _ {D : Type 0} (os : Os D) where
  has_key-entry_list :
      (entries : Entries) (x : Text) (m : Dict Text)
      → has_key x (entry_list os entries m) ≡ (listed x entries || has_key x m)
  unfolding entry_list listed
  has_key-entry_list [] x m = refl
  has_key-entry_list ((name, is_directory) ∷ rest) x m = ground (
    arith,
    has_key-entry_list rest x (put name (lit "Directory") m),
    has_key-put name x (lit "Directory") m,
  )
  has_key-entry_list ((name, is_regular_file) ∷ rest) x m = ground (
    arith,
    has_key-entry_list rest x (put name (lit "Regular_File") m),
    has_key-put name x (lit "Regular_File") m,
  )
  has_key-entry_list ((name, is_other) ∷ rest) x m = has_key-entry_list rest x m

  entry_list-IsSorted :
      (entries : Entries) (m : Dict Text) → IsSorted m → IsSorted (entry_list os entries m)
  unfolding entry_list
  entry_list-IsSorted [] m h = h
  entry_list-IsSorted ((name, is_directory) ∷ rest) m h =
      entry_list-IsSorted rest _ (put-IsSorted name _ m h)
  entry_list-IsSorted ((name, is_regular_file) ∷ rest) m h =
      entry_list-IsSorted rest _ (put-IsSorted name _ m h)
  entry_list-IsSorted ((name, is_other) ∷ rest) m h = entry_list-IsSorted rest m h

  -- The answer of `ls` for the entries of a path.
  abbrev ListsAs : Option Entries → StatusCode × Dict Text → Type 0
  ListsAs none (status, m) = is_ok status ≡ false
  ListsAs (some entries) (status, m) = (is_ok status ≡ true) × (m ≡ entry_list os entries [])

  list_entries-ListsAs : (o : Option Entries) → ListsAs o (list_entries os o)
  list_entries-ListsAs none = unfold list_entries in refl
  list_entries-ListsAs (some entries) = unfold list_entries in (refl, refl)

  ls-ListsAs : (s : Server D) (p : Text) → ListsAs (entries_at os s.disk p) (ls os s p)
  unfolding ls
  ls-ListsAs s p = cases (os.exists s.disk p) (os.is_dir s.disk p)
    where
      cases :
          (a b : Option Bool)
          → ListsAs (if_directory a b (os.list_dir s.disk p)) (elim a [
            | none ↦ (StatusCode.aborted, [])
            | some false ↦ (StatusCode.not_found, [])
            | some true ↦ elim b [
              | none ↦ (StatusCode.aborted, [])
              | some false ↦ (StatusCode.invalid_argument, [])
              | some true ↦ list_entries os (os.list_dir s.disk p)
            ]
          ])
      cases none b = refl
      cases (some false) b = refl
      cases (some true) none = refl
      cases (some true) (some false) = refl
      cases (some true) (some true) = list_entries-ListsAs (os.list_dir s.disk p)

-- The reply and the names for the entries of a path.
abbrev pub Shows : {N : Type 0} → N → Option Entries → Reply × List Text × N → Type 0
Shows net none (reply, names, net') = (reply ≡ fails enoent) × (names ≡ []) × (net' ≡ net)
Shows net (some entries) (reply, names, net') =
    (reply ≡ success)
    × (net' ≡ net)
    × (rest : List Text) × (names ≡ lit "." ∷ lit ".." ∷ rest)
    × Distinct rest
    × ((x : Text) → contains x rest ≡ listed x entries)

module _ {D DS : Type 0} (os_c : Os D) (os : Os DS) (c : Client D) (s : Server DS) where
  shown :
      (o : Option Entries) (r : StatusCode × Dict Text)
      → ListsAs os o r
      → Shows s o (elim (if is_ok r.0 then some r.1 else none) [
        | none ↦ (fails enoent, [], s)
        | some entries ↦ (success, lit "." ∷ lit ".." ∷ entry_names entries, s)
      ])
  unfolding has_key get
  shown none (status, m) h = rw h (refl, refl, refl)
  shown (some entries) (status, m) (fine, e) = rw fine (
    refl,
    refl,
    entry_names m,
    refl,
    subst (λ n. Distinct (entry_names n)) (sym e)
        (entry_names-Distinct (entry_list os entries []) (entry_list-IsSorted os entries [] tt)),
    λ x.
        contains-entry_names x m
        ∙ ap (has_key x) e
        ∙ has_key-entry_list os entries x []
        ∙ ground arith,
  )

  -- `afs_readdir` shows a directory of the server as it is: if the path exists there, is a directory
  -- and can be read, it succeeds, and after "." and ".." it gives the names of exactly the regular
  -- files and directories in it, each once; if not, it fails with ENOENT and gives no name. In either
  -- case the server is left as it was.
  pub afs_readdir-Shows :
      (path : Text)
      → Shows s
          (entries_at os s.disk (resolve_server_path c path))
          (afs_readdir os_c (server_stub os) c s path)
  unfolding afs_readdir ls_contents server_stub
  afs_readdir-Shows path =
      shown (entries_at os s.disk (resolve_server_path c path))
        (ls os s (resolve_server_path c path)) (ls-ListsAs os s (resolve_server_path c path))
