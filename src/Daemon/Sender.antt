-- ===== src/Daemon/Sender.antt =====
-- The rewriting of the sender in crates/logfence-daemon/src/session.rs. `std::process::id()` is an
-- argument.
pub mod Received
use logfence.Prelude.{
  ℕ, Bool, ◌||◌, [], ◌∷◌, ◌++◌, Option, some, none, get_or, Bytes, codes, bytes_eq, ◌==◌,
  if◌then◌else◌,
}
use logfence.Text.{decimal}
use logfence.Syslog.Types.{SyslogMessage}
use logfence.Syslog.Parse.{or_nil}

-- `'"' | '\\' | ']'`; such a character is one byte.
abbrev pub is_escaped : ℕ → Bool
is_escaped c = c == b'"' || c == b'\\' || c == b']'

unfoldable pub escape_sd_param : Bytes → Bytes
escape_sd_param [] = []
escape_sd_param (c ∷ s) =
    let out = escape_sd_param s in if is_escaped c then b'\\' ∷ c ∷ out else c ∷ out

-- `src_element`, of the escaped values.
abbrev pub src_element : Bytes → Bytes → Bytes → Bytes
src_element hostname app pid =
    codes "[logfence-src@65944 hostname=\""
    ++ (hostname ++ (codes "\" app=\"" ++ (app ++ (codes "\" pid=\"" ++ (pid ++ codes "\"]")))))

abbrev pub element_of : SyslogMessage → Bytes
element_of msg =
    src_element (escape_sd_param (or_nil msg.hostname)) (escape_sd_param (or_nil msg.app_name))
      (escape_sd_param (or_nil msg.proc_id))

unfoldable pub new_sd : Bytes → Bytes → Bytes
new_sd structured_data element =
    if bytes_eq structured_data (codes "-") then element else structured_data ++ (b' ' ∷ element)

unfoldable pub rewrite_sender : ℕ → SyslogMessage → Bytes → SyslogMessage
rewrite_sender process_id msg local_hostname = record {
  priority = msg.priority;
  timestamp = msg.timestamp;
  hostname = some local_hostname;
  app_name = some (codes "logfenced");
  proc_id = some (decimal process_id);
  msg_id = msg.msg_id;
  structured_data = new_sd msg.structured_data (element_of msg);
  msg = msg.msg;
}
