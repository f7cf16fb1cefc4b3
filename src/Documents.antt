-- ===== src/Documents.antt =====
-- document-service/internal/document
pub mod Model
pub mod Repository
pub mod Service
pub mod Sets
pub mod Progress
pub mod Orders
pub mod Submit
pub mod Interleaved
pub mod Abstract
mod Unordered
mod Stranded
pub mod Handler
pub mod Server
pub mod Main
pub mod Framed
pub mod Tests
