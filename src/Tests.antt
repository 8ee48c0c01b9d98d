-- ===== src/Tests.antt =====
-- Runs of the definitions on messages of the source's own tests, and the theorems at such messages.
mod Messages
mod Syslog
mod Frame
mod Daemon
mod Sending
mod Client
mod Relay
mod Start
mod Canonical
mod Tasks
mod Metrics
