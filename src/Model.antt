-- ===== src/Model.antt =====
-- internal/model/types.go: the data that flows through the pipeline. Times are nanoseconds. What
-- `generateUUID` returns is an argument of the constructors, `none` for its error.
mod Ranks
mod Events
mod Reports
pub mod Highest
mod Tests
unfoldable pub use Ranks.*
unfoldable pub use Events.*
unfoldable pub use Reports.*
