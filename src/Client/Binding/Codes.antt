-- ===== src/Client/Binding/Codes.antt =====
-- What the code that `lf_send` returns says.
use logfence.Prelude.{
  ℕ, ◌<◌, true, false, Bool-cases, Option, none, some, Bytes, ltb, ◌⊎◌, inl, inr, ◌≡◌, refl, ap,
  ◌∙◌, arith, Outcome, ok, err, panic, ◌+◌, ◌*◌, ◌≢◌, length, Bool, if◌then◌else◌,
}
use logfence.Syslog.Types.{
  Facility, facility_from_integer, facility_code, Severity, severity_from_integer, severity_code,
  ParseError, SyslogMessage, as_integer,
}
use logfence.Syslog.Priority.{facility_total, facility_from_integer-eq-ok, severity_exact}
use logfence.Daemon.Json.{Value, JsonLibrary, is_object}
use logfence.Client.Error.{ClientError}
use logfence.Client.Transport.{
  Sent, UnixTransport, StreamSocket, unix_written, unix_connected, unix_send,
}
use logfence.Io.{IoError}
use logfence.Syslog.Parse.{display}
use logfence.Client.Binding.{
  CString, LfMsgAttr, Process, build_msg, body_of, parses_to_object, is_json_object, with_body,
  with_facility, send_code, deliver, lf_send,
}

-- The codes are those of a facility and of a severity.
abbrev pub HasCodes : ℕ → ℕ → Type 0
HasCodes facility severity = (facility < 24) × (severity < 8)

module _ (process : Process) (lib : JsonLibrary) where
  -- The body is text, and the library reads an object in it.
  abbrev pub ReadsObject : CString → Bytes → Type 0
  ReadsObject json_body body =
      (body_of process json_body ≡ some body)
      × ((value : Value) × (lib.from_str body ≡ inr value) × (is_object value ≡ true))

  parses_to_object-true :
      (r : Bytes ⊎ Value)
      → parses_to_object process lib r ≡ true
      → (value : Value) × (r ≡ inr value) × (is_object value ≡ true)
  parses_to_object-true (inl e) h = absurd (cc)
  parses_to_object-true (inr value) h = (value, refl, h)

  is_json_object-true :
      (body : Bytes)
      → is_json_object process lib body ≡ true
      → (value : Value) × (lib.from_str body ≡ inr value) × (is_object value ≡ true)
  unfolding is_json_object
  is_json_object-true body h = parses_to_object-true (lib.from_str body) h

  not_object :
      (json_body : CString) (body found : Bytes)
      → body_of process json_body ≡ some body
      → is_json_object process lib body ≡ false
      → ¬ ReadsObject json_body found
  unfolding is_json_object
  not_object json_body body found read other (same, (value, parsed, object)) =
      let equal : body ≡ found = cc in
      let result : parses_to_object process lib (lib.from_str body) ≡ is_object value =
        ap (λ b. parses_to_object process lib (lib.from_str b)) equal
        ∙ ap (parses_to_object process lib) parsed in
      absurd (cc)

  -- What the transport made of a message, and the code for it: `LF_OK` or `LF_ERR_IO`.
  pub record Delivered {W : Type 0} (os : StreamSocket W) (t : UnixTransport W)
      (msg : SyslogMessage) (r : ℕ × Option (UnixTransport W)) : Type 0 where
    pub code :
        (((unix_send os msg t).0 ≡ ok tt) × (r.0 ≡ 0))
        ⊎ ((e : ClientError) × ((unix_send os msg t).0 ≡ err e) × (r.0 ≡ 4))
    pub behind : r.1 ≡ some (unix_send os msg t).1

  module _ {W : Type 0} (os : StreamSocket W) (t : UnixTransport W) where
    unix_written-no_panic :
        (u : UnixTransport W) (p : Option IoError × W) → (unix_written u p).0 ≢ panic
    unix_written-no_panic u (none, w) h = cc
    unix_written-no_panic u (some e, w) h = cc

    unix_connected-no_panic :
        (frame : Bytes) (u : UnixTransport W) (p : Option IoError × W)
        → (unix_connected os frame u p).0 ≢ panic
    unix_connected-no_panic frame u (none, w) h = unix_written-no_panic u _ h
    unix_connected-no_panic frame u (some e, w) h = cc

    if-no_panic :
        (b : Bool) (x y : Sent (UnixTransport W))
        → x.0 ≢ panic
        → y.0 ≢ panic
        → (if b then x else y).0 ≢ panic
    if-no_panic true x y h k = h
    if-no_panic false x y h k = k

    unix_send-no_panic : (msg : SyslogMessage) → (unix_send os msg t).0 ≢ panic
    unfolding unix_send
    unix_send-no_panic msg =
        if-no_panic (ltb t.max_size (length (display msg))) _ _ (λ h. cc)
          (if-no_panic t.connected _ _ (unix_written-no_panic t _)
            (unix_connected-no_panic _ t (os.connect t.world)))

    code_cases :
        (result : Outcome ClientError (Unit {0}))
        → result ≢ panic
        → ((result ≡ ok tt) × (send_code process lib os result ≡ 0))
          ⊎ ((e : ClientError) × (result ≡ err e) × (send_code process lib os result ≡ 4))
    code_cases (ok done) h = inl (refl, refl)
    code_cases (err e) h = inr (e, refl, refl)
    code_cases panic h = absurd (h refl)

    deliver-Delivered :
        (msg : SyslogMessage)
        → Delivered os t msg
            ((deliver process lib os msg t).0, some (deliver process lib os msg t).1)
    deliver-Delivered msg = record {
      code = code_cases (unix_send os msg t).0 (unix_send-no_panic msg);
      behind = refl;
    }

  -- The three ends of a call with a client that has the transport `t`.
  module _ {W : Type 0} (os : StreamSocket W) (t : UnixTransport W) (facility severity : ℕ)
      (attr : Option LfMsgAttr) (json_body : CString) where
    -- `LF_ERR_INVALID`
    pub record RefusesCodes (r : ℕ × Option (UnixTransport W)) : Type 0 where
      pub bad : ¬ HasCodes facility severity
      pub result : r ≡ (2, some t)

    -- `LF_ERR_BUILD`
    pub record RefusesBody (r : ℕ × Option (UnixTransport W)) : Type 0 where
      pub good : HasCodes facility severity
      pub bad : (body : Bytes) → ¬ ReadsObject json_body body
      pub result : r ≡ (3, some t)

    pub record Sends (r : ℕ × Option (UnixTransport W)) : Type 0 where
      pub good : HasCodes facility severity
      pub body : Bytes
      pub reads : ReadsObject json_body body
      pub fac : Facility
      pub sev : Severity
      pub pri : as_integer (build_msg process fac sev attr body).priority ≡ 8 * facility + severity
      pub delivered : Delivered os t (build_msg process fac sev attr body) r

    pri_lem :
        (fac : Facility) (sev : Severity) (body : Bytes)
        → facility_code fac ≡ facility
        → severity_code sev ≡ severity
        → HasCodes facility severity
        → as_integer (build_msg process fac sev attr body).priority ≡ 8 * facility + severity
    unfolding build_msg as_integer
    pri_lem fac sev body f s good = omega (arith, f, s, good)

    with_body_cases :
        (fac : Facility) (sev : Severity) (read : Option Bytes)
        → body_of process json_body ≡ read
        → facility_code fac ≡ facility
        → severity_code sev ≡ severity
        → HasCodes facility severity
        → RefusesBody (
          (with_body process lib os fac sev attr read t).0,
          some (with_body process lib os fac sev attr read t).1,
        )
          ⊎ Sends (
            (with_body process lib os fac sev attr read t).0,
            some (with_body process lib os fac sev attr read t).1,
          )
    with_body_cases fac sev none read f s good =
        inl (record { good = good; bad = λ body (same, _). cc; result = refl })
    with_body_cases fac sev (some body) read f s good =
        elim (Bool-cases (is_json_object process lib body)) [
          | inl object ↦ inr (record {
            good = good;
            body = body;
            reads = (read, is_json_object-true body object);
            fac = fac;
            sev = sev;
            pri = pri_lem fac sev body f s good;
            delivered = rw object (deliver-Delivered os t (build_msg process fac sev attr body));
          })
          | inr other ↦ inl (record {
            good = good;
            bad = λ found. not_object json_body body found read other;
            result = rw other refl;
          })
        ]

    with_facility_cases :
        (r : Outcome ParseError Facility)
        → facility_from_integer facility ≡ r
        → (RefusesCodes (
          (with_facility process lib os r severity attr json_body t).0,
          some (with_facility process lib os r severity attr json_body t).1,
        )
            ⊎ (RefusesBody (
              (with_facility process lib os r severity attr json_body t).0,
              some (with_facility process lib os r severity attr json_body t).1,
            )
                ⊎ Sends (
                  (with_facility process lib os r severity attr json_body t).0,
                  some (with_facility process lib os r severity attr json_body t).1,
                )))
    with_facility_cases panic e =
        inl
          (record { bad = λ (f, s). absurd (cc (e, (facility_total facility f).1)); result = refl })
    with_facility_cases (err x) e =
        inl
          (record { bad = λ (f, s). absurd (cc (e, (facility_total facility f).1)); result = refl })
    with_facility_cases (ok fac) e = elim (Bool-cases (ltb 7 severity)) [
      | inl large ↦ inl (record { bad = λ (f, s). ground arith; result = rw large refl })
      | inr small ↦ rw small (
          inr (
            with_body_cases fac (severity_from_integer severity) (body_of process json_body) refl
              (facility_from_integer-eq-ok facility fac e).1
              (severity_exact severity (ground arith))
              ((facility_from_integer-eq-ok facility fac e).0, ground arith)))
    ]

    -- A call with a client ends in one of three ways. The codes are not those of a facility and a
    -- severity: the result is 2, `LF_ERR_INVALID`, and the transport is as it was. Or they are, and
    -- the body is not text that serde_json reads as an object: the result is 3, `LF_ERR_BUILD`, and
    -- the transport is as it was. Or the codes and the body are good: the transport sends the
    -- message that `build_msg` makes of them, whose PRI value is eight times the facility's code
    -- and the severity's, and the result is 0, `LF_OK`, if its `send` returned `Ok`, and 4,
    -- `LF_ERR_IO`, if it returned an error.
    pub lf_send-cases :
        RefusesCodes (lf_send process lib os (some t) facility severity attr json_body)
        ⊎ (RefusesBody (lf_send process lib os (some t) facility severity attr json_body)
            ⊎ Sends (lf_send process lib os (some t) facility severity attr json_body))
    unfolding lf_send
    lf_send-cases = with_facility_cases (facility_from_integer facility) refl
