-- ===== src/Syslog.antt =====
-- crates/logfence-proto/src/syslog.rs: the message types, the parser, the validators of the
-- header fields, and the rendering, each in a module below.
pub mod Types
pub mod Priority
pub mod Field
pub mod Timestamp
pub mod StructuredData
pub mod Parse
