-- ===== src/Domain.antt =====
-- The vocabulary of skills/x-sync/scripts/xsync_v2/domain.py: its enums and frozen dataclasses.
-- Type tests such as `type(x) is T` hold of every value of the model.
mod Enums
mod Work
mod Topic
mod State
mod Commands
mod Events
unfoldable pub use Enums.*
unfoldable pub use Work.*
unfoldable pub use Topic.*
unfoldable pub use State.*
unfoldable pub use Commands.*
unfoldable pub use Events.*
