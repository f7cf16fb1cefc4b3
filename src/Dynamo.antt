-- ===== src/Dynamo.antt =====
-- The DynamoDB client and `attributevalue`, which the repositories call and do not implement:
-- parameters, with the documented behaviour that the repositories rely on as named laws.
mod Client
mod Record
mod Memory
mod Contract
pub use Client.*
unfoldable pub use Record.*
pub use Contract.*
pub use Memory.{Table, look, memory, verbatim, memory-IsDynamo, verbatim-IsCodec}
