-- ===== src/Db/Effects.antt =====
-- What runs of statements leave alone, and what their failures do: the names of the children.
pub mod Rows
pub mod Keeping
pub mod Failing
pub mod Succeeding
pub mod Needing
pub mod Calm
pub mod Finding
pub mod Framing
pub use Rows.*
pub use Keeping.*
pub use Failing.*
pub use Needing.*
pub use Calm.*
