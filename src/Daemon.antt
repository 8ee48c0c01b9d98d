-- ===== src/Daemon.antt =====
-- crates/logfence-daemon: configuration, metrics, validation, forwarding and the sessions.
pub mod Config
pub mod Metrics
pub mod Json
pub mod Os
pub mod Task
pub mod Validator
pub mod Sender
pub mod Session
pub mod Listener
pub mod Forwarder
pub mod Datagram
pub mod Main
