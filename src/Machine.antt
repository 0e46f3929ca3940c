-- ===== src/Machine.antt =====
-- The state that the program's files share, the calls that it makes of code outside the repository,
-- and the monad in which the functions of src/ are written.
mod Data
mod Calls
mod State
mod Monad
pub mod Keeps
pub mod Order
pub mod Total
pub mod Fails
pub use Data.*
pub use Calls.*
pub use State.*
unfoldable pub use Monad.*
