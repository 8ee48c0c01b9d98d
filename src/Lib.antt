-- ===== src/Lib.antt =====
-- logfence: a syslog proxy that takes messages on Unix sockets, checks them, and forwards them to
-- rsyslog.
--
-- Text is a list of byte values (Prelude), UTF-8 in the strings of the source. What the standard
-- library does with text is in Text: trimming, splitting, integers, and the check of UTF-8; slicing
-- a string inside a character is the outcome `panic`. A result is `ok`, `err` or `panic`.
--
-- The parts and their files:
-- * crates/logfence-proto/src/syslog.rs is Syslog: the types and PRI (Types, Priority), the field
--   and TIMESTAMP validators (Field, Timestamp), STRUCTURED-DATA (StructuredData) and
--   `SyslogMessage::parse` with the Display of a message (Parse).
-- * crates/logfence-proto/src/frame.rs is Frame: `decode` and `encode` of both codecs, which take a
--   buffer and return what it becomes.
-- * crates/logfence-daemon/src/config.rs is Daemon.Config, with the texts of a mode in Octal;
--   metrics.rs is Daemon.Metrics, with the stats socket in Stats.
-- * crates/logfence-daemon/src/validator.rs is Daemon.Validator, over the JSON values of Daemon.Json.
--   The members of an object are sorted in Canonical. serde_json and jsonschema are the record
--   `JsonLibrary` of functions that the definitions take.
-- * crates/logfence-daemon/src/session.rs is Daemon.Sender (`rewrite_sender`) and Daemon.Session: the
--   handlers, the loop over the reads (Loop), the choice of the codec (Run), and the session while
--   the validator is replaced (Reload); Vetted says what it hands on. A session takes the
--   decoded messages of a codec, asks the validator, and hands what it accepts to the forwarder. The
--   forwarder is a function of a message and a state in the record `Outside`; the promise of a codec
--   to the loop is the record `Codec` of Daemon.Session.Delivery, which both codecs fill in Codecs.
-- * crates/logfence-daemon/src/forwarder.rs is Daemon.Forwarder: the retries on a datagram socket,
--   and `from_config` and `forward` (Forward) over functions for the calls of the operating system;
--   `forward` over a stream is also in Stream, as a session takes it.
-- * crates/logfence-daemon/src/listener.rs is Daemon.Listener: `run` as a step relation, whose state
--   is the permits of the semaphore, the number of sessions, where the loop is, and the token. Its
--   `bind` is in Bind, over the monad of calls of Daemon.Os.
-- * crates/logfence-daemon/src/datagram_listener.rs is Daemon.Datagram: `process_datagram`, which
--   shares the handlers with the session, `run` with its workers as a step relation (Pool), and
--   `bind` (Bind).
-- * crates/logfence-daemon/src/main.rs is Daemon.Main: `build_validator`, `reload_validator` and
--   `handle_signals` over the list of the signals; the start of `main` (Start), with the call that
--   made it fail (Failed); and the process, in which the steps of a listener stand beside the
--   signals (Process). What the process asks of a listener is the record `Task` of Daemon.Task,
--   which both fill (Listener.Task, Datagram.Pool.Task).
-- * Relay joins the parts: a session whose forwarder writes to a stream, behind a client that sends.
-- * crates/logfence-client is Client: error.rs is Error, builder.rs is Builder and, for the clock's
--   text, Calendar, and transport.rs is Transport. What a client writes and a session reads is
--   brought together in Delivery.
-- * crates/logfence-client-c/src/lib.rs is Client.Binding, with pointers as options.
-- * Io is what the crates read of a `std::io::Error`.
-- * Tests holds runs and the theorems at concrete inputs.
--
-- The loops of the source are structural recursion over the text. A nested loop that keeps a
-- position is a step function on the places that the loops can be at. Integers are natural numbers;
-- where the source adds on 64 bits the wrap-around is written out. Fuel stands in three places: the
-- decimal print, whose fuel is one more than the number; the calls of a codec between two reads,
-- with one more than the bytes of the buffer, as each message takes a byte or more (Session.Fuel);
-- and the retries of a datagram, which return nothing if it runs out.
--
-- Not modelled: the command line, what is logged, freeing a C client, and the TOML and JSON
-- libraries. The task of the stats socket is one call of the start, and its loop stands by itself.
-- In the step relations a session or a datagram is handled at once.
pub mod Prelude
pub mod Text
pub mod Syslog
pub mod Io
pub mod Frame
pub mod Daemon
pub mod Client
pub mod Relay
pub mod Tests
