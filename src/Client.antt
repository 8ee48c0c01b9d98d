-- ===== src/Client.antt =====
-- crates/logfence-client: the message builder, the calendar behind its timestamps and the
-- transports; and the C functions of crates/logfence-client-c.
pub mod Error
pub mod Calendar
pub mod Builder
pub mod Transport
pub mod Delivery
pub mod Binding
