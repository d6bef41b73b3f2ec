-- ===== src/Dict.antt =====
-- `std::map` and `std::unordered_map` with string keys: an association list that `put` keeps in the
-- order of the keys, the order in which `std::map` iterates.
mod Laws
mod Keys
unfoldable pub use Laws.{get, put, remove}
pub use Laws.{Dict, get-put, get-remove, get-put_self, get-remove_self}
pub use Keys.*
