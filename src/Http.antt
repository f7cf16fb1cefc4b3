-- ===== src/Http.antt =====
-- HTTP as the services use it: the client of `net/http` with JSON bodies, a parameter, and the
-- replies that the handlers write.
mod Client
mod Server
mod Bearer
unfoldable pub use Client.*
unfoldable pub use Server.*
pub use Bearer.*
