-- ===== src/Effect.antt =====
-- Go's ways to end a call, as values, and the calls of the program as state passing.
mod Calls
mod Rules
pub mod Inverse
pub use Calls.*
unfoldable pub use Calls.{text, recovered}
pub use Rules.*
