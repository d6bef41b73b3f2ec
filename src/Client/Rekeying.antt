-- ===== src/Client/Rekeying.antt =====
-- `update_map_keys` in `rename_file` of Basic_Operation/client_code/filesystem_client.cpp: a walk over
-- a `std::map` that moves entries to new keys while it goes.

use distributed_filesystem.Base.{
  Option, [], drop, if◌then◌else◌, length, none, some, suc, zero, ℕ, ◌++◌, ◌+◌, ◌∷◌,
}
use distributed_filesystem.Dict.{Dict, put, remove}
use distributed_filesystem.Text.{Text, is_within, text_lt}

-- `new_p + key.substr(old_p.length())`
unfoldable pub renamed_key : Text → Text → Text → Text
renamed_key old_p new_p key = new_p ++ drop (length old_p) key

module _ {ℓ} {V : Type ℓ} where
  -- The entry behind an iterator that stands after `k`; `none` is `end()`.
  unfoldable pub next_after : Text → Dict V → Option (Text × V)
  unfolding text_lt
  next_after k [] = none
  next_after k ((j, v) ∷ m) = let rest = next_after k m in if text_lt k j then some (j, v) else rest

  -- `begin()`
  abbrev pub first_entry : Dict V → Option (Text × V)
  first_entry [] = none
  first_entry (e ∷ m) = some e

  -- One round at the entry `(k, v)`: `map[new_key] = std::move(it->second)` and the erasure.
  unfoldable pub move_entry : Text → Text → Text → V → Dict V → Dict V
  unfolding renamed_key put remove is_within
  move_entry old_p new_p k v m =
      if is_within old_p k then remove k (put (renamed_key old_p new_p k) v m) else m

  -- `while (it != map.end())`, with fuel; `none` means that the fuel ran out.
  unfoldable pub walk_keys : ℕ → Text → Text → Option (Text × V) → Dict V → Option (Dict V)
  unfolding move_entry next_after
  walk_keys zero old_p new_p it m = none
  walk_keys (suc fuel) old_p new_p none m = some m
  walk_keys (suc fuel) old_p new_p (some (k, v)) m =
      let m' = move_entry old_p new_p k v m in walk_keys fuel old_p new_p (next_after k m') m'

  -- More rounds than there are keys and bytes in them.
  unfoldable pub walk_fuel : Dict V → ℕ
  walk_fuel [] = 1
  walk_fuel ((k, v) ∷ m) = length k + 2 + walk_fuel m

  unfoldable pub update_map_keys : Text → Text → Dict V → Option (Dict V)
  unfolding walk_keys walk_fuel
  update_map_keys old_p new_p m = walk_keys (walk_fuel m) old_p new_p (first_entry m) m
