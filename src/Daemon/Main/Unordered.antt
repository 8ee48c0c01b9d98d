-- ===== src/Daemon/Main/Unordered.antt =====
-- The order in which the map of the schema paths is gone through, which a HashMap does not fix.
use mathlib.Core.List.{Permᴰ}
use mathlib.Core.List.Permᴰ.{nil, cons, swap, trans}
use logfence.Prelude.{
  Bool-cases, inl, inr, List, [], ◌∷◌, map, ◌≡◌, ◌≢◌, refl, sym, ap, ◌∙◌, subst, Option, none, some,
  and_then, Bytes, bytes_eq, bytes_eq_iff, if◌then◌else◌, Outcome, ok, ◌>>=◌, ◌>>◌, not, map_err,
  of_result, reject_if,
}
use logfence.Syslog.Types.{SyslogMessage}
use logfence.Daemon.Config.{ValidationConfig}
use mathlib.Core.Path.{fun_ext}
use logfence.Daemon.Json.{Value, JsonLibrary, get, as_str, is_object}
use logfence.Daemon.Validator.{
  Validator, DiscriminatorMap, schema_for, discriminated, schema_matches, matches_any, validate,
  prepare_for_forwarding, ValidationError, not_json, not_object, json_kind, json_part, verdict,
}
use logfence.Daemon.Main.{Files, build_validator}
use logfence.Daemon.Main.Each.{Each}
use logfence.Daemon.Main.Keyed.{keys, Once, Once-Perm, Each-Perm}
use logfence.Daemon.Main.Build.{HasKeyed, Routed, built, build_validator_iff}

module _ (lib : JsonLibrary) where
  -- One step of the lookup.
  abbrev found : Bytes → Bytes × lib.Schema → Option lib.Schema → Option lib.Schema
  found key (k, s) later = if bytes_eq k key then some s else later

  found-found :
      (key : Bytes) (a b : Bytes × lib.Schema) (later : Option lib.Schema)
      → a.0 ≢ b.0
      → found key a (found key b later) ≡ found key b (found key a later)
  found-found key (k, s) (l, t) later apart = elim (Bool-cases (bytes_eq k key)) [
    | inl here ↦ elim (Bool-cases (bytes_eq l key)) [
      | inl there ↦
          absurd (apart ((bytes_eq_iff k key).0 here ∙ sym ((bytes_eq_iff l key).0 there)))
      | inr other ↦ rw (here, other) refl
    ]
    | inr other ↦ rw other refl
  ]

  schema_for-Perm :
      (key : Bytes) {xs ys : List (Bytes × lib.Schema)}
      → Permᴰ xs ys
      → Once (keys xs)
      → schema_for lib key xs ≡ schema_for lib key ys
  unfolding schema_for
  schema_for-Perm key nil h = refl
  schema_for-Perm key (cons {b = b} {l₁ = xs} e p) (alone, h) =
      ap (λ x. found key x (schema_for lib key xs)) e ∙ ap (found key b) (schema_for-Perm key p h)
  schema_for-Perm key (swap {a = a} {b = b} {a' = c} {l = rest} e f) ((apart, alone), h) =
      found-found key a b (schema_for lib key rest) apart
      ∙ ap (λ x. found key x (found key a (schema_for lib key rest))) f
      ∙ ap (λ x. found key c (found key x (schema_for lib key rest))) e
  schema_for-Perm key (trans p q) h =
      schema_for-Perm key p h ∙ schema_for-Perm key q (Once-Perm p h)

  module _ (files : Files) where
    keys-Each :
        (paths : List (Bytes × Bytes)) (schemas : List (Bytes × lib.Schema))
        → Each (HasKeyed lib files) paths schemas
        → keys schemas ≡ keys paths
    keys-Each [] [] h = refl
    keys-Each [] (s ∷ schemas) h = absurd h
    keys-Each (p ∷ paths) [] h = absurd h
    keys-Each ((k, path) ∷ paths) ((name, s) ∷ schemas) ((same, has), h) =
        cc (same, keys-Each paths schemas h)

    -- A routing of the other order that finds the same.
    record SameRouting (field : Option Bytes) (schema_map : List (Bytes × Bytes))
        (disc : Option (DiscriminatorMap lib)) : Type 0 where
      pub other : Option (DiscriminatorMap lib)
      pub is_routed : Routed lib files field schema_map other
      pub finds : (value : Value) → discriminated lib other value ≡ discriminated lib disc value

    Routed-Perm :
        (field : Option Bytes) {xs ys : List (Bytes × Bytes)} (disc : Option (DiscriminatorMap lib))
        → Permᴰ xs ys
        → Once (keys xs)
        → Routed lib files field xs disc
        → SameRouting field ys disc
    unfolding discriminated
    Routed-Perm none none p once h = record { other = none; is_routed = tt; finds = λ value. refl }
    Routed-Perm none (some disc) p once h = absurd h
    Routed-Perm (some field) none p once h = absurd h
    Routed-Perm (some field) {xs = xs} (some disc) p once (same, keyed) =
        let (map, q, rest) = Each-Perm (HasKeyed lib files) p disc.map keyed in
        let once_too : Once (keys disc.map) = subst Once (sym (keys-Each xs disc.map keyed)) once in
        record {
          other = some (record { field = disc.field; map = map });
          is_routed = (same, rest);
          finds = λ value.
              ap (and_then (and_then (get disc.field value) as_str))
                (fun_ext λ key. sym (schema_for-Perm key q once_too));
        }

    -- `validate`, over what finds a schema.
    abbrev validated :
        Validator lib
        → (Value → Option lib.Schema)
        → SyslogMessage
        → Outcome ValidationError (Unit {0})
    validated v find msg = do
      json_str ← json_part v.input_cee msg.msg
      value ← map_err not_json (of_result (lib.from_str json_str))
      reject_if (not (is_object value)) (not_object (json_kind value))
      verdict v.mode (elim (find value) [
        | some schema ↦ lib.is_valid schema value
        | none ↦ matches_any lib v.schemas value
      ])

    validate-validated :
        (v : Validator lib) (msg : SyslogMessage)
        → validate lib v msg ≡ validated v (discriminated lib v.discriminator) msg
    unfolding validate schema_matches
    validate-validated v msg = refl

    -- Two validators that differ in their routing only, and route alike.
    built-validate :
        (cfg other : ValidationConfig) (schemas : List lib.Schema)
        (disc rerouted : Option (DiscriminatorMap lib)) (msg : SyslogMessage)
        → other ≡ record cfg { schema_map = other.schema_map }
        → ((value : Value) → discriminated lib rerouted value ≡ discriminated lib disc value)
        → validate lib (built lib files other schemas rerouted) msg
          ≡ validate lib (built lib files cfg schemas disc) msg
    built-validate cfg other schemas disc rerouted msg same finds =
        validate-validated (built lib files other schemas rerouted) msg
        ∙ ap (λ find. validated (built lib files other schemas rerouted) find msg) (fun_ext finds)
        ∙ ap (λ c. validated (built lib files c schemas disc) (discriminated lib disc) msg) same
        ∙ sym (validate-validated (built lib files cfg schemas disc) msg)

    -- If the validator of a configuration can be built, whose map of schema paths has each key
    -- once, then it can be built with the map in any other order, and the two validators give the
    -- same result for every message, and send it in the same form: the order in which a HashMap is
    -- gone through makes no difference.
    pub build_validator-unordered :
        (cfg : ValidationConfig) (v : Validator lib) (schema_map : List (Bytes × Bytes))
        (msg : SyslogMessage)
        → build_validator lib files cfg ≡ ok v
        → Permᴰ cfg.schema_map schema_map
        → Once (keys cfg.schema_map)
        → (w : Validator lib) × (build_validator lib files (record cfg { schema_map = schema_map })
            ≡ ok w)
          × (validate lib w msg ≡ validate lib v msg)
          × (prepare_for_forwarding lib w msg ≡ prepare_for_forwarding lib v msg)
    unfolding prepare_for_forwarding
    build_validator-unordered cfg v schema_map msg h p once =
        let b = (build_validator_iff lib files cfg v).0 h in
        let r = Routed-Perm cfg.discriminator b.discriminator p once b.is_routed in
        let other : ValidationConfig = record cfg { schema_map = schema_map } in
        let w = built lib files other b.schemas r.other in
        (
          w,
          (build_validator_iff lib files other w).1 (record {
            schemas = b.schemas;
            discriminator = r.other;
            has_schemas = b.has_schemas;
            is_routed = r.is_routed;
            same = refl;
          }),
          built-validate cfg other b.schemas b.discriminator r.other msg refl r.finds
              ∙ ap (λ x. validate lib x msg) (sym b.same),
          ap (λ x. prepare_for_forwarding lib x msg) (sym b.same),
        )
