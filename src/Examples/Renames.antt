-- ===== src/Examples/Renames.antt =====
-- A client that renames a file, at concrete inputs.

use distributed_filesystem.Base.{List, Option, [], none, refl, some, ℕ, ◌++◌, ◌∷◌, ◌≡◌, ◌≢◌}
use distributed_filesystem.Client.Connecting.{connect}
use distributed_filesystem.Client.Endless.{walk_keys-first_entry}
use distributed_filesystem.Client.Files.{find_streams, has_key}
use distributed_filesystem.Client.Histories.{act, run_client}
use distributed_filesystem.Client.Moved.{renamed_value}
use distributed_filesystem.Client.Opening.{open_file}
use distributed_filesystem.Client.Orphans.{rename_file-orphans}
use distributed_filesystem.Client.Paths.{file_location, resolve_server_path}
use distributed_filesystem.Client.Rehomed.{HasSortedTables, Rehomes, rename_file-Rehomes}
use distributed_filesystem.Client.Rekeyed.{update_map_keys-renames}
use distributed_filesystem.Client.Rekeying.{first_entry, update_map_keys, walk_keys}
use distributed_filesystem.Client.Renaming.{rename_file}
use distributed_filesystem.Client.State.{Answer, Client}
use distributed_filesystem.Client.Walking.{update_map_keys-ends}
use distributed_filesystem.Dict.{Dict, IsSorted, get}
use distributed_filesystem.Examples.Memory.{Memory, memory}
use distributed_filesystem.Examples.Sessions.{file, file_streams, local_file, one_file, opener, top}
use distributed_filesystem.Text.{Text, is_within, join_path, lit, text_eq, text_lt}
use distributed_filesystem.Wire.{FileRequest}

abbrev place : Text
place = lit "/tmp/srv/b.txt"

abbrev other : Text
other = lit "b.txt"

opener-HasSortedTables : HasSortedTables opener
unfolding connect run_client act open_file memory
opener-HasSortedTables = record {
  cache_sorted = (tt, tt);
  opened_sorted = (tt, tt);
  attr_sorted = tt;
}

-- The client after `rename_file`, if that ends.
abbrev client_after :
    Option (Answer × Client Memory × List FileRequest) → Client Memory × List FileRequest
client_after none = (opener, [])
client_after (some (answer, c, net)) = (c, net)

abbrev renamed : Option (Answer × Client Memory × List FileRequest)
renamed = rename_file memory one_file opener [] file other top top

abbrev below : Dict ℕ
below = (local_file, 5) ∷ (lit "/tmp/srv/a.txt/c", 6) ∷ []

below-IsSorted : IsSorted below
unfolding text_lt
below-IsSorted = ((refl, tt), (tt, tt))

update_map_keys-ends_example : update_map_keys local_file place below ≢ none
unfolding is_within
update_map_keys-ends_example = update_map_keys-ends local_file place below below-IsSorted refl

update_map_keys-renames_example :
    (m' : Dict ℕ) × (update_map_keys local_file place below ≡ some m')
    × ((j : Text) → get j m' ≡ renamed_value local_file place below j)
unfolding is_within
update_map_keys-renames_example =
    update_map_keys-renames local_file place refl refl below below-IsSorted

rename_file-Rehomes_example :
    Rehomes opener local_file place (lit "/srv/a.txt") (lit "/srv/b.txt") renamed
unfolding connect run_client act open_file memory resolve_server_path file_location join_path
    is_within
rename_file-Rehomes_example =
    rename_file-Rehomes memory one_file opener [] file other top top opener-HasSortedTables refl
      refl refl refl

rename_file-orphans_example :
    (get place (client_after renamed).0.opened_files ≡ some file_streams)
    × (find_streams (client_after renamed).0 place ≡ none)
unfolding connect run_client act open_file memory resolve_server_path file_location join_path
    is_within rename_file get
rename_file-orphans_example =
    rename_file-orphans memory one_file opener (client_after renamed).0 [] (client_after renamed).1
      file other top top file_streams opener-HasSortedTables refl refl refl refl refl refl refl

walk_keys-first_entry_example :
    walk_keys 9 local_file (local_file ++ b'/' ∷ lit "d") (first_entry below) below ≡ none
unfolding text_lt has_key get text_eq
walk_keys-first_entry_example =
    walk_keys-first_entry local_file (lit "d") 9 below [] below-IsSorted refl refl refl
