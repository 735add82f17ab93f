-- ===== src/Core.antt =====
-- The sans-IO multipart parser of rust/src/multipart.rs: its data types and its state. The
-- methods are in Core/Parser, the scanning of a boundary's suffix in Core/Delimiter, and the
-- searches of the memchr crate, which the parser calls, are the interface of Core/Memmem.
-- What is proved of them stands in the other children.
mod Types
pub mod Memmem
pub mod Delimiter
pub mod Header
pub mod Checks
pub mod Boundary
pub mod Lines
pub mod Parser
pub mod Grammar
pub mod Progress
pub mod Failures
pub mod Buffer
pub mod Tests
pub use Types.*
