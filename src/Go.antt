-- ===== src/Go.antt =====
-- What the model takes of Go and its standard library: error values, calls that may fail, `int64`.
mod Fault
mod Call
pub mod Int64
pub use Fault.*
pub use Call.*
