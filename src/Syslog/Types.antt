-- ===== src/Syslog/Types.antt =====
-- The message types of crates/logfence-proto/src/syslog.rs: errors, facility, severity, priority
-- and the message itself.
use logfence.Prelude.{
  ℕ, ◌+◌, ◌*◌, ◌/◌, ◌%◌, Option, Bytes, ltb, ◌==◌, if◌then◌else◌, Outcome, ok, err, ◌>>=◌, ◌>>◌,
  reject_if,
}
use logfence.Text.{decimal}

-- The `reason` of an invalid field. `message` holds a fixed text. `too_long` is "exceeds
-- {max}-character limit (got {len})", and `bad_character` is the text that ends in `{c:?}`, with
-- the first byte of that character; neither is rendered here.
pub data Reason : Type 0 where
  message : Bytes → Reason
  too_long : ℕ → ℕ → Reason
  bad_character : Bytes → ℕ → Reason

pub data ParseError : Type 0 where
  invalid_priority : Bytes → ParseError
  malformed_header : Bytes → ParseError
  invalid_utf8 : ParseError
  invalid_field : Bytes → Reason → ParseError

pub data Facility : Type 0 where
  kern user mail daemon auth syslog lpr news uucp cron auth_priv ftp : Facility
  ntp log_audit log_alert clock local0 local1 local2 local3 local4 local5 local6 local7 : Facility

-- `Facility::from_integer`
unfoldable pub facility_from_integer : ℕ → Outcome ParseError Facility
facility_from_integer n =
    if n == 0
    then ok kern
    else if n == 1
    then ok user
    else if n == 2
    then ok mail
    else if n == 3
    then ok daemon
    else if n == 4
    then ok auth
    else if n == 5
    then ok syslog
    else if n == 6
    then ok lpr
    else if n == 7
    then ok news
    else if n == 8
    then ok uucp
    else if n == 9
    then ok cron
    else if n == 10
    then ok auth_priv
    else if n == 11
    then ok ftp
    else if n == 12
    then ok ntp
    else if n == 13
    then ok log_audit
    else if n == 14
    then ok log_alert
    else if n == 15
    then ok clock
    else if n == 16
    then ok local0
    else if n == 17
    then ok local1
    else if n == 18
    then ok local2
    else if n == 19
    then ok local3
    else if n == 20
    then ok local4
    else if n == 21
    then ok local5
    else if n == 22
    then ok local6
    else if n == 23
    then ok local7
    else err (invalid_priority (decimal n))

-- `facility as u8`
unfoldable pub facility_code : Facility → ℕ
facility_code kern = 0
facility_code user = 1
facility_code mail = 2
facility_code daemon = 3
facility_code auth = 4
facility_code syslog = 5
facility_code lpr = 6
facility_code news = 7
facility_code uucp = 8
facility_code cron = 9
facility_code auth_priv = 10
facility_code ftp = 11
facility_code ntp = 12
facility_code log_audit = 13
facility_code log_alert = 14
facility_code clock = 15
facility_code local0 = 16
facility_code local1 = 17
facility_code local2 = 18
facility_code local3 = 19
facility_code local4 = 20
facility_code local5 = 21
facility_code local6 = 22
facility_code local7 = 23

pub data Severity : Type 0 where
  emergency alert critical error warning notice info debug : Severity

-- `Severity::from_integer`
unfoldable pub severity_from_integer : ℕ → Severity
severity_from_integer n =
    if n == 0
    then emergency
    else if n == 1
    then alert
    else if n == 2
    then critical
    else if n == 3
    then error
    else if n == 4
    then warning
    else if n == 5
    then notice
    else if n == 6
    then info
    else debug

-- `severity as u8`
unfoldable pub severity_code : Severity → ℕ
severity_code emergency = 0
severity_code alert = 1
severity_code critical = 2
severity_code error = 3
severity_code warning = 4
severity_code notice = 5
severity_code info = 6
severity_code debug = 7

pub record Priority : Type 0 where
  pub facility : Facility
  pub severity : Severity

-- `Priority::from_integer`
unfoldable pub priority_from_integer : ℕ → Outcome ParseError Priority
priority_from_integer pri = do
  reject_if (ltb 191 pri) (invalid_priority (decimal pri))
  facility ← facility_from_integer (pri / 8)
  let severity = severity_from_integer (pri % 8)
  ok (record { facility = facility; severity = severity })

-- `Priority::as_integer`. The arithmetic is that of `u8`.
unfoldable pub as_integer : Priority → ℕ
as_integer p = (facility_code p.facility * 8 + severity_code p.severity) % 256

pub record SyslogMessage : Type 0 where
  pub priority : Priority
  pub timestamp : Option Bytes
  pub hostname : Option Bytes
  pub app_name : Option Bytes
  pub proc_id : Option Bytes
  pub msg_id : Option Bytes
  pub structured_data : Bytes
  pub msg : Bytes
