-- ===== src/Tests/Sending.antt =====
-- The theorems on the rewriting of the sender, the forwarder and the configuration at concrete
-- inputs.
use logfence.Prelude.{
  ℕ, suc, ◌*◌, ◌^◌, ◌-◌, min, ◌++◌, ◌≡◌, ◌↔◌, arith, Option, none, some, codes, ◌==◌, if◌then◌else◌,
  ok,
}
use logfence.Io.{IoError, would_block}
use logfence.Syslog.Types.{SyslogMessage}
use logfence.Syslog.Parse.{parse, display, display_msg}
use logfence.Daemon.Config.{
  Config, default_daemon, default_rsyslog, default_validation, default_logging, default_metrics,
  strict, optional, always, octet_count, newline, original,
}
use logfence.Daemon.Config.Accept.{IsUsable, validate_iff_IsUsable}
use logfence.Daemon.Sender.{element_of, rewrite_sender}
use logfence.Daemon.Sender.Received.{parse-rewrite_sender_moved}
use logfence.Daemon.Forwarder.{dgram_attempt_delay}
use logfence.Daemon.Forwarder.Delay.{dgram_attempt_delay_lem}
use logfence.Tests.Messages.{request, with_sd, request-IsRfcMessage}

abbrev no_sd : SyslogMessage
no_sd = with_sd (codes "-")

parse-rewrite_sender_moved_example :
    parse (display (rewrite_sender 7 request (codes "myhost")))
    ≡ ok (record (rewrite_sender 7 request (codes "myhost")) {
      structured_data = request.structured_data;
      msg = element_of request ++ display_msg request.msg;
    })
parse-rewrite_sender_moved_example =
    parse-rewrite_sender_moved 7 request (codes "myhost") (omega arith)
      request-IsRfcMessage.header.hostname_rfc request-IsRfcMessage.header.timestamp_rfc tt
      request-IsRfcMessage.header.msg_clean request-IsRfcMessage.sd_rfc (λ k. cc)

-- A socket whose buffer is full twice.
abbrev full_twice : ℕ → Option IoError × ℕ
full_twice n =
    if n == 2 then (none, n) else (some (record { kind = would_block; raw_os_error = none }), suc n)

dgram_attempt_delay_lem_example : dgram_attempt_delay 5 ≡ min 1000000 (100 * 2 ^ (5 - 2))
dgram_attempt_delay_lem_example = dgram_attempt_delay_lem 5

abbrev default_config : Config
default_config = record {
  daemon = default_daemon;
  rsyslog = default_rsyslog;
  validation = default_validation;
  logging = default_logging;
  metrics = default_metrics;
}

validate_iff_IsUsable_example :
    (logfence.Daemon.Config.validate default_config ≡ ok tt) ↔ IsUsable default_config
validate_iff_IsUsable_example = validate_iff_IsUsable default_config
