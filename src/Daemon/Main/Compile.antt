-- ===== src/Daemon/Main/Compile.antt =====
-- When the schema files of a configuration are read, parsed and compiled.
use logfence.Prelude.{
  List, ◌∷◌, ◌≡◌, ◌↔◌, refl, Bytes, codes, ◌⊎◌, inl, inr, Outcome, ok, err, panic, ◌>>=◌, map_err,
  of_result, >>=-eq-ok,
}
use logfence.Daemon.Json.{Value, JsonLibrary}
use logfence.Daemon.Main.Each.{Each, Each-iff}
use logfence.Daemon.Validator.{
  compile_all, compile_map, prepend_schema, prepend_keyed, invalid_discriminator,
}
use logfence.Daemon.Main.{Files, load_schema_file, load_schema_files, load_schema_files_map}

-- `map_err` and `?` return a value exactly if the call did.
pub map_err-eq-ok :
    {A : Type 0} {E F : Type 0} (f : E → F) (r : E ⊎ A) (a : A)
    → map_err f (of_result r) ≡ ok a
    → r ≡ inr a
map_err-eq-ok f (inl e) a h = absurd (cc)
map_err-eq-ok f (inr b) a h = cc

module _ (lib : JsonLibrary) (files : Files) where
  -- The file at the path has the text of a document.
  abbrev pub HasDocument : Bytes → Value → Type 0
  HasDocument path doc =
      (text : Bytes) × (files.read_to_string path ≡ inr text) × (lib.from_str text ≡ inr doc)

  load_schema_file_iff :
      (kind path : Bytes) (doc : Value)
      → (load_schema_file lib files kind path ≡ ok doc) ↔ HasDocument path doc
  load_schema_file_iff kind path doc = (
    λ h.
        let (text, read, rest) =
          >>=-eq-ok _ (λ text. map_err _ (of_result (lib.from_str text))) h in
        (
          text,
          map_err-eq-ok _ (files.read_to_string path) text read,
          map_err-eq-ok _ (lib.from_str text) doc rest,
        ),
    λ (text, read, parsed). rw (read, parsed) refl,
  )

  pub load_schema_files_iff :
      (paths : List Bytes) (docs : List Value)
      → (load_schema_files lib files paths ≡ ok docs) ↔ Each HasDocument paths docs
  unfolding load_schema_files
  load_schema_files_iff =
      Each-iff (load_schema_file lib files (codes "schema")) (load_schema_files lib files) refl
        (λ path paths. refl) HasDocument (load_schema_file_iff (codes "schema"))

  abbrev pub Compiles : Value → lib.Schema → Type 0
  Compiles doc schema = lib.validator_for doc ≡ inr schema

  abbrev pub CompilesKeyed : Bytes × Value → Bytes × lib.Schema → Type 0
  CompilesKeyed (key, doc) (name, schema) = (name ≡ key) × Compiles doc schema

  abbrev pub HasKeyedDocument : Bytes × Bytes → Bytes × Value → Type 0
  HasKeyedDocument (key, path) (name, doc) = (name ≡ key) × HasDocument path doc

  pub of_result_iff : {A : Type 0} (r : Bytes ⊎ A) (s : A) → (of_result r ≡ ok s) ↔ (r ≡ inr s)
  of_result_iff (inl e) s = (λ h. absurd (cc), λ h. absurd (cc))
  of_result_iff (inr t) s = (λ h. cc, λ h. cc)

  compile_cons :
      (c : Bytes ⊎ lib.Schema) (rest : Bytes ⊎ List lib.Schema)
      → of_result {A = List lib.Schema}
          (elim c [ inl e ↦ inl e | inr s ↦ prepend_schema lib s rest ])
        ≡ (of_result c >>= λ y. of_result rest >>= λ ys. ok (y ∷ ys))
  compile_cons (inl e) rest = refl
  compile_cons (inr s) (inl e) = refl
  compile_cons (inr s) (inr ss) = refl

  pub compile_all_iff :
      (docs : List Value) (schemas : List lib.Schema)
      → (of_result (compile_all lib docs) ≡ ok schemas) ↔ Each Compiles docs schemas
  unfolding compile_all
  compile_all_iff =
      Each-iff (λ doc. of_result (lib.validator_for doc)) (λ docs. of_result (compile_all lib docs))
        refl (λ doc docs. compile_cons (lib.validator_for doc) (compile_all lib docs)) Compiles
        (λ doc. of_result_iff (lib.validator_for doc))

  abbrev keyed : {A : Type 0} → Bytes → Outcome Bytes A → Outcome Bytes (Bytes × A)
  keyed key r = r >>= λ a. ok (key, a)

  keyed_iff :
      {A : Type 0} (key name : Bytes) (r : Outcome Bytes A) (a : A) (P : Type 0)
      → (r ≡ ok a) ↔ P
      → (keyed key r ≡ ok (name, a)) ↔ ((name ≡ key) × P)
  keyed_iff key name panic a P p = (λ h. absurd (cc), λ (e, q). absurd (cc (p.1 q)))
  keyed_iff key name (err e) a P p = (λ h. absurd (cc), λ (same, q). absurd (cc (p.1 q)))
  keyed_iff key name (ok b) a P p = (λ h. (cc, p.0 (cc)), λ (same, q). cc (p.1 q))

  keyed_cons :
      {A : Type 0} (key : Bytes) (r : Outcome Bytes A) (all : Outcome Bytes (List (Bytes × A)))
      → (r >>= λ a. all >>= λ rest. ok ((key, a) ∷ rest))
        ≡ (keyed key r >>= λ p. all >>= λ rest. ok (p ∷ rest))
  keyed_cons key panic all = refl
  keyed_cons key (err e) all = refl
  keyed_cons key (ok a) all = refl

  pub load_schema_files_map_iff :
      (paths : List (Bytes × Bytes)) (docs : List (Bytes × Value))
      → (load_schema_files_map lib files paths ≡ ok docs) ↔ Each HasKeyedDocument paths docs
  unfolding load_schema_files_map
  load_schema_files_map_iff =
      Each-iff
        (λ (key, path). keyed key (load_schema_file lib files (codes "discriminator schema") path))
        (load_schema_files_map lib files) refl (λ (key, path) paths. keyed_cons key _ _)
        HasKeyedDocument
        (λ (key, path) (name, doc).
          keyed_iff key name _ doc _ (load_schema_file_iff (codes "discriminator schema") path doc))

  abbrev compile_keyed : Bytes → Bytes ⊎ lib.Schema → Outcome Bytes (Bytes × lib.Schema)
  compile_keyed key c = keyed key (map_err (invalid_discriminator lib key) (of_result c))

  compile_map_cons :
      (key : Bytes) (c : Bytes ⊎ lib.Schema) (rest : Bytes ⊎ List (Bytes × lib.Schema))
      → of_result {A = List (Bytes × lib.Schema)} (elim c [
        | inl e ↦ inl (invalid_discriminator lib key e)
        | inr s ↦ prepend_keyed lib (key, s) rest
      ])
        ≡ (compile_keyed key c >>= λ y. of_result rest >>= λ ys. ok (y ∷ ys))
  compile_map_cons key (inl e) rest = refl
  compile_map_cons key (inr s) (inl e) = refl
  compile_map_cons key (inr s) (inr ss) = refl

  map_err_iff :
      (f : Bytes → Bytes) (r : Bytes ⊎ lib.Schema) (s : lib.Schema)
      → (map_err f (of_result r) ≡ ok s) ↔ (r ≡ inr s)
  map_err_iff f (inl e) s = (λ h. absurd (cc), λ h. absurd (cc))
  map_err_iff f (inr t) s = (λ h. cc, λ h. cc)

  pub compile_map_iff :
      (docs : List (Bytes × Value)) (map : List (Bytes × lib.Schema))
      → (of_result (compile_map lib docs) ≡ ok map) ↔ Each CompilesKeyed docs map
  unfolding compile_map
  compile_map_iff =
      Each-iff (λ (key, doc). compile_keyed key (lib.validator_for doc))
        (λ docs. of_result (compile_map lib docs)) refl
        (λ (key, doc) docs. compile_map_cons key (lib.validator_for doc) (compile_map lib docs))
        CompilesKeyed
        (λ (key, doc) (name, s). keyed_iff key name _ s _ (map_err_iff _ (lib.validator_for doc) s))
