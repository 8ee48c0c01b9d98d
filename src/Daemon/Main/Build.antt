-- ===== src/Daemon/Main/Build.antt =====
-- What `build_validator` builds, and when.
use logfence.Prelude.{
  List, ◌++◌, ◌≡◌, ◌↔◌, refl, sym, ap, ◌∙◌, subst, Option, none, some, Bytes, codes, ◌⊎◌, inl, inr,
  ok, ◌>>=◌, map_err, of_result, >>=-eq-ok,
}
use logfence.Daemon.Config.{ValidationConfig}
use logfence.Daemon.Json.{Value, JsonLibrary}
use logfence.Daemon.Main.Each.{Each, Each-compose, Each-split}
use logfence.Daemon.Validator.{
  Validator, DiscriminatorMap, new_validator, compile_all, compile_map, from_values,
  with_discriminator_docs,
}
use logfence.Daemon.Main.{
  Files, load_schema_files, load_schema_files_map, with_discriminator, with_modes, build_validator,
}
use logfence.Daemon.Main.Compile.{
  of_result_iff, map_err-eq-ok, HasDocument, Compiles, CompilesKeyed, HasKeyedDocument,
  load_schema_files_iff, compile_all_iff, load_schema_files_map_iff, compile_map_iff,
}

module _ (lib : JsonLibrary) (files : Files) where
  -- The file at the path has a document that compiles to the schema.
  abbrev pub HasSchema : Bytes → lib.Schema → Type 0
  HasSchema path schema =
      (doc : Value) × HasDocument lib files path doc × (lib.validator_for doc ≡ inr schema)

  abbrev pub HasKeyed : Bytes × Bytes → Bytes × lib.Schema → Type 0
  HasKeyed (key, path) (name, schema) = (name ≡ key) × HasSchema path schema

  abbrev pub Routed : Option Bytes → List (Bytes × Bytes) → Option (DiscriminatorMap lib) → Type 0
  Routed none schema_map none = Unit
  Routed none schema_map (some disc) = ⊥
  Routed (some field) schema_map none = ⊥
  Routed (some field) schema_map (some disc) =
      (disc.field ≡ field) × Each HasKeyed schema_map disc.map

  -- The validator of the configuration, with these schemas and this routing.
  abbrev pub built :
      ValidationConfig → List lib.Schema → Option (DiscriminatorMap lib) → Validator lib
  built cfg schemas disc = record {
    mode = cfg.mode;
    schemas = schemas;
    discriminator = disc;
    input_cee = cfg.input_cee;
    output_cee = cfg.output_cee;
    canonical_json = cfg.canonical_json;
  }

  -- The schemas of the files of the configuration, each in its place.
  pub record IsBuilt (cfg : ValidationConfig) (v : Validator lib) : Type 0 where
    pub schemas : List lib.Schema
    pub discriminator : Option (DiscriminatorMap lib)
    pub has_schemas : Each HasSchema cfg.schemas schemas
    pub is_routed : Routed cfg.discriminator cfg.schema_map discriminator
    pub same : v ≡ built cfg schemas discriminator

  values_sound :
      (cfg : ValidationConfig) (c : Bytes ⊎ List lib.Schema) (v : Validator lib)
      → elim c [ inl e ↦ inl e | inr schemas ↦ inr (new_validator lib cfg.mode schemas) ] ≡ inr v
      → (schemas : List lib.Schema) × (c ≡ inr schemas) × (v ≡ new_validator lib cfg.mode schemas)
  values_sound cfg (inl e) v h = absurd (cc)
  values_sound cfg (inr schemas) v h = (schemas, refl, cc)

  docs_sound :
      (w v : Validator lib) (field : Bytes) (c : Bytes ⊎ List (Bytes × lib.Schema))
      → elim c [
        | inl e ↦ inl e
        | inr map ↦ inr (record w { discriminator = some (record { field = field; map = map }) })
      ]
        ≡ inr v
      → (map : List (Bytes × lib.Schema)) × (c ≡ inr map)
        × (v ≡ record w { discriminator = some (record { field = field; map = map }) })
  docs_sound w v field (inl e) h = absurd (cc)
  docs_sound w v field (inr map) h = (map, refl, cc)

  keyed_both :
      (x : Bytes × Bytes) (y : Bytes × Value) (z : Bytes × lib.Schema)
      → HasKeyedDocument lib files x y
      → CompilesKeyed lib files y z
      → HasKeyed x z
  keyed_both (key, path) (name, doc) (last, schema) (same, has) (again, compiles) =
      (again ∙ same, (doc, has, compiles))

  from_values_sound :
      (cfg : ValidationConfig) (docs : List Value) (v : Validator lib)
      → from_values lib cfg.mode docs ≡ inr v
      → (schemas : List lib.Schema) × (compile_all lib docs ≡ inr schemas)
        × (v ≡ new_validator lib cfg.mode schemas)
  unfolding from_values
  from_values_sound cfg docs v h = values_sound cfg (compile_all lib docs) v h

  with_discriminator_sound :
      (cfg : ValidationConfig) (o : Option Bytes) (schemas : List lib.Schema) (v : Validator lib)
      → with_discriminator lib files cfg o
          (with_modes lib files cfg (new_validator lib cfg.mode schemas))
        ≡ ok v
      → (disc : Option (DiscriminatorMap lib)) × Routed o cfg.schema_map disc
        × (v ≡ built cfg schemas disc)
  unfolding with_discriminator_docs
  with_discriminator_sound cfg none schemas v h = (none, tt, cc)
  with_discriminator_sound cfg (some field) schemas v h =
      let w = with_modes lib files cfg (new_validator lib cfg.mode schemas) in
      let (docs, loaded, rest) =
        >>=-eq-ok (load_schema_files_map lib files cfg.schema_map)
          (λ docs. map_err _ (of_result (with_discriminator_docs lib w field docs))) h in
      let (map, compiled, same) =
        docs_sound w v field (compile_map lib docs)
          (map_err-eq-ok _ (with_discriminator_docs lib w field docs) v rest) in
      (
        some (record { field = field; map = map }),
        (
          refl,
          Each-compose (HasKeyedDocument lib files) (CompilesKeyed lib files) HasKeyed keyed_both
              cfg.schema_map docs map
              ((load_schema_files_map_iff lib files cfg.schema_map docs).0 loaded)
              ((compile_map_iff lib files docs map).0 (ap of_result compiled)),
        ),
        same,
      )

  build_validator_sound :
      (cfg : ValidationConfig) (v : Validator lib)
      → build_validator lib files cfg ≡ ok v
      → IsBuilt cfg v
  unfolding build_validator
  build_validator_sound cfg v h =
      let (docs, loaded, later) =
        >>=-eq-ok (load_schema_files lib files cfg.schemas)
          (λ docs.
            map_err (λ e. codes "invalid JSON schema: " ++ e)
              (of_result (from_values lib cfg.mode docs))
            >>= λ w.
                with_discriminator lib files cfg cfg.discriminator (with_modes lib files cfg w))
          h in
      let (w, valued, last) =
        >>=-eq-ok (map_err _ (of_result (from_values lib cfg.mode docs)))
          (λ w. with_discriminator lib files cfg cfg.discriminator (with_modes lib files cfg w))
          later in
      let (schemas, compiled, fresh) =
        from_values_sound cfg docs w (map_err-eq-ok _ (from_values lib cfg.mode docs) w valued) in
      let (disc, routed, same) = with_discriminator_sound cfg cfg.discriminator schemas v (
        subst
          (λ x.
            with_discriminator lib files cfg cfg.discriminator (with_modes lib files cfg x) ≡ ok v)
          fresh last) in
      record {
        schemas = schemas;
        discriminator = disc;
        has_schemas =
            Each-compose (HasDocument lib files) (Compiles lib files) HasSchema
              (λ path doc schema has compiles. (doc, has, compiles)) cfg.schemas docs schemas
              ((load_schema_files_iff lib files cfg.schemas docs).0 loaded)
              ((compile_all_iff lib files docs schemas).0 (ap of_result compiled));
        is_routed = routed;
        same = same;
      }

  keyed_split :
      (x : Bytes × Bytes) (z : Bytes × lib.Schema)
      → HasKeyed x z
      → (y : Bytes × Value) × HasKeyedDocument lib files x y × CompilesKeyed lib files y z
  keyed_split (key, path) (name, schema) (same, (doc, has, compiles)) =
      ((key, doc), (refl, has), (same, compiles))

  docs_complete :
      (w : Validator lib) (field : Bytes) (docs : List (Bytes × Value))
      (map : List (Bytes × lib.Schema))
      → compile_map lib docs ≡ inr map
      → with_discriminator_docs lib w field docs
        ≡ inr (record w { discriminator = some (record { field = field; map = map }) })
  unfolding with_discriminator_docs
  docs_complete w field docs map h = rw (h, with_discriminator_docs) refl

  values_complete :
      (cfg : ValidationConfig) (docs : List Value) (schemas : List lib.Schema)
      → compile_all lib docs ≡ inr schemas
      → from_values lib cfg.mode docs ≡ inr (new_validator lib cfg.mode schemas)
  unfolding from_values
  values_complete cfg docs schemas h = rw (h, from_values) refl

  with_discriminator_complete :
      (cfg : ValidationConfig) (o : Option Bytes) (schemas : List lib.Schema)
      (disc : Option (DiscriminatorMap lib))
      → Routed o cfg.schema_map disc
      → with_discriminator lib files cfg o
          (with_modes lib files cfg (new_validator lib cfg.mode schemas))
        ≡ ok (built cfg schemas disc)
  with_discriminator_complete cfg none schemas none r = refl
  with_discriminator_complete cfg none schemas (some disc) r = absurd r
  with_discriminator_complete cfg (some field) schemas none r = absurd r
  with_discriminator_complete cfg (some field) schemas (some disc) (same, keyed) =
      let (docs, has, compiles) =
        Each-split (HasKeyedDocument lib files) (CompilesKeyed lib files) HasKeyed keyed_split
          cfg.schema_map disc.map keyed in
      let compiled : compile_map lib docs ≡ inr disc.map =
        (of_result_iff lib files (compile_map lib docs) disc.map).0
          ((compile_map_iff lib files docs disc.map).1 compiles) in
      let w = with_modes lib files cfg (new_validator lib cfg.mode schemas) in
      ap
        (λ r. r >>= λ docs.
          map_err (λ e. codes "invalid discriminator schema: " ++ e)
            (of_result (with_discriminator_docs lib w field docs)))
        ((load_schema_files_map_iff lib files cfg.schema_map docs).1 has)
      ∙ ap (λ r. map_err (λ e. codes "invalid discriminator schema: " ++ e) (of_result r))
          (docs_complete w field docs disc.map compiled)
      ∙ ap (λ f. ok (built cfg schemas (some (record { field = f; map = disc.map })))) (sym same)

  build_validator_complete :
      (cfg : ValidationConfig) (v : Validator lib)
      → IsBuilt cfg v
      → build_validator lib files cfg ≡ ok v
  unfolding build_validator
  build_validator_complete cfg v b =
      let (docs, has, compiles) =
        Each-split (HasDocument lib files) (Compiles lib files) HasSchema (λ path schema h. h)
          cfg.schemas b.schemas b.has_schemas in
      let compiled : compile_all lib docs ≡ inr b.schemas =
        (of_result_iff lib files (compile_all lib docs) b.schemas).0
          ((compile_all_iff lib files docs b.schemas).1 compiles) in
      ap
        (λ r. r >>= λ docs.
          map_err (λ e. codes "invalid JSON schema: " ++ e)
            (of_result (from_values lib cfg.mode docs))
          >>= λ w. with_discriminator lib files cfg cfg.discriminator (with_modes lib files cfg w))
        ((load_schema_files_iff lib files cfg.schemas docs).1 has)
      ∙ ap
          (λ r. map_err (λ e. codes "invalid JSON schema: " ++ e) (of_result r) >>= λ w.
            with_discriminator lib files cfg cfg.discriminator (with_modes lib files cfg w))
          (values_complete cfg docs b.schemas compiled)
      ∙ (with_discriminator_complete cfg cfg.discriminator b.schemas b.discriminator b.is_routed
          ∙ ap ok (sym b.same))

  -- A validator is built exactly if each schema file of the configuration, and each of its map if
  -- there is a discriminator, can be read, is JSON and compiles; and it is the validator that has
  -- the compiled schemas in the order of the files, those of the map under their keys and the
  -- discriminator, and the modes of the configuration.
  pub build_validator_iff :
      (cfg : ValidationConfig) (v : Validator lib)
      → (build_validator lib files cfg ≡ ok v) ↔ IsBuilt cfg v
  build_validator_iff cfg v = (build_validator_sound cfg v, build_validator_complete cfg v)
