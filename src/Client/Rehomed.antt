-- ===== src/Client/Rehomed.antt =====
-- What `rename_file` of Basic_Operation/client_code/filesystem_client.cpp does to the client's tables.

use distributed_filesystem.Base.{
  Option, arith, false, inl, inr, none, option_ind, refl, some, subst, sym, true, ◌≡◌, ◌⊎◌,
}
use distributed_filesystem.Client.Moved.{renamed_value}
use distributed_filesystem.Client.Paths.{file_location, resolve_server_path, server_key}
use distributed_filesystem.Client.Rekeyed.{update_map_keys-renames}
use distributed_filesystem.Client.Renaming.{
  Moving, after_clear, after_move, breaks, clear_target, finish_rename, goes_on, move_local,
  refuses, rename_file, rename_tables, send_rename, with_tables,
}
use distributed_filesystem.Client.State.{Answer, Client, answers, throws}
use distributed_filesystem.Client.Stub.{Stub}
use distributed_filesystem.Dict.{IsSorted, get}
use distributed_filesystem.Os.{Os}
use distributed_filesystem.Server.Queries.{attributes}
use distributed_filesystem.Text.{Text, is_within}
use distributed_filesystem.Wire.{RenameRequest}

-- The three maps are those of `c`.
abbrev pub SameTables : {D : Type 0} → Client D → Client D → Type 0
SameTables c c' =
    (c'.cache ≡ c.cache) × (c'.opened_files ≡ c.opened_files) × (c'.cached_attr ≡ c.cached_attr)

-- The three maps are those of `c` with the entries at and below the old paths moved to the new ones.
abbrev pub MovedTables : {D : Type 0} → Text → Text → Text → Text → Client D → Client D → Type 0
MovedTables old_local new_local old_remote new_remote c c' =
    ((j : Text) → get j c'.cache ≡ renamed_value old_local new_local c.cache j)
    × ((j : Text) → get j c'.opened_files ≡ renamed_value old_local new_local c.opened_files j)
    × ((j : Text) → get j c'.cached_attr ≡ renamed_value old_remote new_remote c.cached_attr j)

pub record HasSortedTables {D : Type 0} (c : Client D) : Type 0 where
  pub cache_sorted : IsSorted c.cache
  pub opened_sorted : IsSorted c.opened_files
  pub attr_sorted : IsSorted c.cached_attr

module _ (old_local new_local old_remote new_remote : Text)
    (local_apart : is_within old_local new_local ≡ false)
    (local_apart' : is_within new_local old_local ≡ false)
    (server_apart : is_within old_remote new_remote ≡ false)
    (server_apart' : is_within new_remote old_remote ≡ false) where
  rename_tables-MovedTables :
      {D : Type 0} (c : Client D)
      → HasSortedTables c
      → (c' : Client D) × (rename_tables c old_local new_local old_remote new_remote ≡ some c')
        × MovedTables old_local new_local old_remote new_remote c c'
        × (c'.disk ≡ c.disk)
        × (c'.file_mutexes ≡ c.file_mutexes)
  unfolding rename_tables
  rename_tables-MovedTables c s =
      let (cache, e, f) =
        update_map_keys-renames old_local new_local local_apart local_apart' c.cache
          s.cache_sorted in
      let (opened, g, h) =
        update_map_keys-renames old_local new_local local_apart local_apart' c.opened_files
          s.opened_sorted in
      let (attributes, k, l) =
        update_map_keys-renames old_remote new_remote server_apart server_apart' c.cached_attr
          s.attr_sorted in
      (
        record c { cache = cache; opened_files = opened; cached_attr = attributes },
        λ i. with_tables c (e i) (g i) (k i),
        (f, h, l),
        refl,
        refl,
      )

false_answer : ¬ (answers false ≡ answers true)
false_answer e = ground arith

throws_answer : ¬ (throws ≡ answers true)
throws_answer e = ground arith

-- How a call of `rename_file` can end: with the maps as they were, or with all three moved.
abbrev pub Rehomes :
    {D N : Type 0} → Client D → Text → Text → Text → Text → Option (Answer × Client D × N) → Type 0
Rehomes c old_local new_local old_remote new_remote none = ⊥
Rehomes c old_local new_local old_remote new_remote (some (answer, c', net)) =
    (c'.file_mutexes ≡ c.file_mutexes)
    × (((¬ (answer ≡ answers true)) × SameTables c c')
        ⊎ MovedTables old_local new_local old_remote new_remote c c')

module _ {D N : Type 0} (os : Os D) (stub : Stub N)
    (old_local new_local old_remote new_remote : Text)
    (local_apart : is_within old_local new_local ≡ false)
    (local_apart' : is_within new_local old_local ≡ false)
    (server_apart : is_within old_remote new_remote ≡ false)
    (server_apart' : is_within new_remote old_remote ≡ false) (c : Client D) (s : HasSortedTables c)
    (net : N) (request : RenameRequest) where
  abbrev RehomesHere : Option (Answer × Client D × N) → Type 0
  RehomesHere = Rehomes c old_local new_local old_remote new_remote

  finish_rename-Rehomes :
      (d : D)
      → RehomesHere (
          finish_rename os stub
            (record c { disk = d })
            net
            request
            old_local
            new_local
            old_remote
            new_remote)
  unfolding finish_rename send_rename
  finish_rename-Rehomes d =
      let (c', e, moved, disk, mutexes) =
        rename_tables-MovedTables old_local new_local old_remote new_remote local_apart local_apart'
          server_apart server_apart' (record c { disk = d })
          (record {
            cache_sorted = s.cache_sorted;
            opened_sorted = s.opened_sorted;
            attr_sorted = s.attr_sorted;
          }) in
      subst
        (λ (o : Option (Client D)).
          RehomesHere (elim o [ none ↦ none | some n ↦ some (send_rename os stub n net request) ]))
        (sym e) (mutexes, inr moved)

  after_move-Rehomes :
      (m : Moving D)
      → RehomesHere (after_move os stub m c net request old_local new_local old_remote new_remote)
  unfolding after_move
  after_move-Rehomes (refuses d) = (refl, inl (false_answer, (refl, refl, refl)))
  after_move-Rehomes (breaks d) = (refl, inl (throws_answer, (refl, refl, refl)))
  after_move-Rehomes (goes_on d) = finish_rename-Rehomes d

module _ {D N : Type 0} (os : Os D) (stub : Stub N)
    (old_local new_local old_remote new_remote : Text)
    (local_apart : is_within old_local new_local ≡ false)
    (local_apart' : is_within new_local old_local ≡ false)
    (server_apart : is_within old_remote new_remote ≡ false)
    (server_apart' : is_within new_remote old_remote ≡ false) (c : Client D) (s : HasSortedTables c)
    (net : N) (request : RenameRequest) where
  after_clear-Rehomes :
      (m : Moving D)
      → Rehomes c old_local new_local old_remote new_remote
          (after_clear os stub m c net request old_local new_local old_remote new_remote)
  unfolding after_clear
  after_clear-Rehomes (refuses d) = (refl, inl (false_answer, (refl, refl, refl)))
  after_clear-Rehomes (breaks d) = (refl, inl (throws_answer, (refl, refl, refl)))
  after_clear-Rehomes (goes_on d) =
      after_move-Rehomes os stub old_local new_local old_remote new_remote local_apart local_apart'
        server_apart server_apart' c s net request (move_local os d old_local new_local)

-- The four paths of a rename.
module _ {D : Type 0} (c : Client D) where
  abbrev pub local_of : Text → Text → Text
  local_of path name = file_location c (resolve_server_path c path) name

  abbrev pub remote_of : Text → Text → Text
  remote_of path name = server_key (resolve_server_path c path) name

-- If of the old and the new path neither lies within the other, locally and on the server, then
-- `rename_file` ends. It leaves the mutexes as they were, and the three tables either as they were,
-- and then it has not returned true, or with every entry at or below the old path moved to the new
-- one, and no other changed but by that: never one table without the others.
pub rename_file-Rehomes :
    {D N : Type 0} (os : Os D) (stub : Stub N) (c : Client D) (net : N)
    (from_name to_name old_path new_path : Text)
    → HasSortedTables c
    → is_within (local_of c old_path from_name) (local_of c new_path to_name) ≡ false
    → is_within (local_of c new_path to_name) (local_of c old_path from_name) ≡ false
    → is_within (remote_of c old_path from_name) (remote_of c new_path to_name) ≡ false
    → is_within (remote_of c new_path to_name) (remote_of c old_path from_name) ≡ false
    → Rehomes c
        (local_of c old_path from_name)
        (local_of c new_path to_name)
        (remote_of c old_path from_name)
        (remote_of c new_path to_name)
        (rename_file os stub c net from_name to_name old_path new_path)
unfolding rename_file
rename_file-Rehomes os stub c net from_name to_name old_path new_path s a b e f =
    let old_local = local_of c old_path from_name in
    let new_local = local_of c new_path to_name in
    let old_remote = remote_of c old_path from_name in
    let new_remote = remote_of c new_path to_name in
    option_ind (Rehomes c old_local new_local old_remote new_remote) (os.exists c.disk old_local) _
      _ (λ _. (refl, inl (throws_answer, (refl, refl, refl))))
      (λ shown _.
        after_clear-Rehomes os stub old_local new_local old_remote new_remote a b e f c s net _
          (clear_target os c.disk new_local))
