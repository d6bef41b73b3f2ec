-- ===== src/Text.antt =====
-- `std::string` as the list of its bytes: comparison, literals, and the joining of a directory and
-- a file name that the server and the client both write out by hand.
pub mod Equality
pub mod Order
pub mod Prefix
pub mod Slash
pub mod Path
unfoldable pub use Equality.{text_eq, text_lt}
pub use Equality.{Text}
pub use Equality.{text_eq_iff, text_eq_refl, text_eq_sym}
pub use Order.*
unfoldable pub use Path.*
unfoldable pub use Slash.*
unfoldable pub use Prefix.*
