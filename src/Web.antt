-- ===== src/Web.antt =====
-- The HTTP server of `net/http` as the five services use it: paths, `ServeMux`, the exchange of a
-- request for a response, the two middlewares and the settings read at the start.
mod Paths
mod Segments
mod Mux
mod Exchange
mod Middleware
mod Routing
mod Framed
mod Overlap
mod Environments
unfoldable pub use Paths.*
unfoldable pub use Mux.*
unfoldable pub use Exchange.*
unfoldable pub use Middleware.*
unfoldable pub use Environments.*
pub use Routing.*
unfoldable pub use Overlap.*
pub use Framed.*
pub use Segments.*
