-- ===== src/KeyStore/Load/Migration.antt =====
-- Records of older versions and damaged records never release an attempt.
use iov_vehicle_tbox_tsp.Prelude.{
  ℕ, ◌≤◌, ◌≡◌, ◌≢◌, ◌⊎◌, inl, inr, refl, ap, sym, ◌∙◌, ◌==◌, eq_of_parts, subst, [], ◌∷◌, Bool,
  true, false, Option, none, some, ◌>>=◌, Text, codes, ltb, ℤ, pos, negsuc, arith, Bool-cases,
  if◌then◌else◌,
}
use iov_vehicle_tbox_tsp.Lifecycle.Ledger.{KeyprovBudgetLedger}
use iov_vehicle_tbox_tsp.KeyStore.Record.{
  resolution_no_side_effect_proven, contract_unknown_kind, ImportEvidence, ImportRecovery,
  V2cKeyProvisioningRecord, empty_record,
}
use iov_vehicle_tbox_tsp.KeyStore.Json.{JsonLibrary, value_or, each}
use iov_vehicle_tbox_tsp.KeyStore.Read.{
  resolution_of, is_present, read_invocation, read_evidence, read_recovery, read_budget,
  read_attempt, read_record, read_snapshot, read_contract,
}
use iov_vehicle_tbox_tsp.KeyStore.Load.{
  interpret, migrate_record, migrate_recovery, migrate_budget, finish_record, load_text,
  or_empty_record,
}

-- P holds for what a computation gives, if it does not throw.
unfoldable Always {ℓ} : {A : Type ℓ} → (A → Type 0) → Option A → Type 0
Always P none = Unit
Always P (some a) = P a

some-Always {ℓ} : {B : Type ℓ} (P : B → Type 0) (b : B) → P b → Always P (some b)
unfolding Always
some-Always P b h = h

module _ {ℓ κ} {A : Type ℓ} {B : Type κ} (P : B → Type 0) where
  bind-Always :
      (m : Option A) (f : A → Option B)
      → ((a : A) → m ≡ some a → Always P (f a))
      → Always P (m >>= f)
  unfolding Always
  bind-Always none f h = tt
  bind-Always (some a) f h = h a refl

  then-Always : (m : Option A) (f : A → Option B) → ((a : A) → Always P (f a)) → Always P (m >>= f)
  unfolding Always
  then-Always none f h = tt
  then-Always (some a) f h = h a

some_injective {ℓ} : {A : Type ℓ} (x y : A) → some x ≡ some y → x ≡ y
some_injective x y e = cc

of_Always {ℓ} : {B : Type ℓ} (P : B → Type 0) (m : Option B) (b : B) → Always P m → m ≡ some b → P b
unfolding Always
of_Always P none b h e = cc
of_Always P (some a) b h e = subst P (some_injective a b e) h

if_same {ℓ κ} :
    {A : Type ℓ} {B : Type κ} (f : A → B) (z : B) (b : Bool) (x y : A)
    → f x ≡ z
    → f y ≡ z
    → f (if b then x else y) ≡ z
if_same f z true x y h k = h
if_same f z false x y h k = k

interpret_resolution :
    (r : V2cKeyProvisioningRecord)
    → (interpret r).recovery.import_invocation_resolution ≡ r.recovery.import_invocation_resolution
unfolding interpret migrate_record migrate_recovery finish_record
interpret_resolution r =
    let resolution = r.recovery.import_invocation_resolution in
    if_same (λ (q : V2cKeyProvisioningRecord). q.recovery.import_invocation_resolution) resolution
      (ltb r.schema_version 5) _ _ (moved r) (moved r)
  where
    moved :
        (r : V2cKeyProvisioningRecord)
        → (migrate_recovery r.schema_version r.recovery).import_invocation_resolution
          ≡ r.recovery.import_invocation_resolution
    moved r =
        if_same (λ (i : ImportRecovery). i.import_invocation_resolution)
          (r.recovery.import_invocation_resolution) (ltb r.schema_version 4) _ _ refl refl

migrated_count :
    (r : V2cKeyProvisioningRecord)
    → (5 ≤ r.schema_version)
      ⊎ ((1 ≤ r.budget.request_send_count) ⊎ ((migrate_record r).budget.request_send_count ≡ 8))
unfolding migrate_record migrate_budget
migrated_count r = elim (Bool-cases (ltb r.schema_version 5)) [
  | inr current ↦ inl (ground arith)
  | inl old ↦ elim (Bool-cases (r.budget.request_send_count == 0)) [
    | inr sent ↦ inr (inl (ground arith))
    | inl none_sent ↦ inr (inr (rw (old, none_sent) refl))
  ]
]

module _ (lib : JsonLibrary) where
  -- How the resolution of a record comes from its document.
  abbrev HasResolution : (Text → Option lib.Json) → Bool → ImportRecovery → Type 0
  HasResolution get invocation i =
      (stored : ℤ) × (value_or lib.to_i32 (negsuc 0) (get (codes "import_invocation_resolution"))
        ≡ some stored)
      × (i.import_invocation_resolution
          ≡ resolution_of stored (is_present (get (codes "import_invocation"))) invocation)

  resolution-Always :
      (get : Text → Option lib.Json) (invocation : Bool)
      → Always (HasResolution get invocation) (read_recovery lib get invocation)
  unfolding read_recovery
  resolution-Always get invocation =
      let P = HasResolution get invocation in
      bind-Always P (value_or lib.to_i32 (negsuc 0) (get (codes "import_invocation_resolution"))) _
        (λ stored e.
          then-Always P (value_or lib.to_u32 0 (get (codes "sec_not_found_count"))) _ (λ _.
            then-Always P
              (value_or lib.to_i64 (negsuc 0) (get (codes "sec_not_found_first_observed_ms"))) _
              (λ _.
                then-Always P
                  (value_or lib.to_i64 (negsuc 0) (get (codes "sec_not_found_last_observed_ms"))) _
                  (λ _.
                    then-Always P (value_or lib.to_u64 0 (get (codes "sec_capability_epoch"))) _
                      (λ _.
                        then-Always P (value_or lib.to_u32 0 (get (codes "sec_contract_version"))) _
                          (λ _.
                            then-Always P (value_or lib.to_text [] (get (codes "recovery_phase"))) _
                              (λ _.
                                then-Always P
                                  (value_or lib.to_text [] (get (codes "successor_request_id"))) _
                                  (λ _.
                                    then-Always P
                                      (value_or lib.to_text []
                                        (get (codes "successor_request_id_digest")))
                                      _ (λ _. some-Always P _ (stored, e, refl))))))))))

  abbrev HasInvocation : (Text → Option lib.Json) → ImportEvidence → Type 0
  HasInvocation get e =
      read_invocation lib (get (codes "import_invocation")) ≡ some e.import_invocation

  invocation-Always :
      (get : Text → Option lib.Json) → Always (HasInvocation get) (read_evidence lib get)
  unfolding read_evidence
  invocation-Always get =
      let P = HasInvocation get in
      then-Always P (value_or lib.to_u32 0 (get (codes "sec_import_result_contract_version"))) _
        (λ _.
          then-Always P
            (value_or lib.to_i32 contract_unknown_kind (get (codes "sec_import_evidence_kind"))) _
            (λ _.
              then-Always P
                (value_or lib.to_u64 0 (get (codes "sec_evidence_observed_store_generation"))) _
                (λ _.
                  then-Always P
                    (value_or lib.to_i64 (pos 0) (get (codes "sec_evidence_observed_at_ms"))) _
                    (λ _.
                      bind-Always P (read_invocation lib (get (codes "import_invocation"))) _
                        (λ _ e. some-Always P _ e)))))

  abbrev HasCount : (Text → Option lib.Json) → KeyprovBudgetLedger → Type 0
  HasCount get l =
      value_or lib.to_u32 0 (get (codes "request_send_count")) ≡ some l.request_send_count

  count-Always : (get : Text → Option lib.Json) → Always (HasCount get) (read_budget lib get)
  unfolding read_budget
  count-Always get =
      let P = HasCount get in
      bind-Always P (value_or lib.to_u32 0 (get (codes "request_send_count"))) _ (λ _ e.
        then-Always P (value_or lib.to_i64 (pos 0) (get (codes "first_request_at_ms"))) _ (λ _.
          then-Always P (value_or lib.to_i64 (pos 0) (get (codes "request_deadline_at_ms"))) _ (λ _.
            then-Always P (value_or lib.to_u32 0 (get (codes "status_send_count"))) _ (λ _.
              then-Always P (value_or lib.to_i64 (pos 0) (get (codes "first_readonly_at_ms"))) _
                (λ _.
                  then-Always P
                    (value_or lib.to_i64 (pos 0) (get (codes "readonly_deadline_at_ms"))) _
                    (λ _.
                      then-Always P (value_or lib.to_u32 0 (get (codes "sec_query_count"))) _ (λ _.
                        then-Always P (value_or lib.to_u32 0 (get (codes "ack_send_count"))) _ (λ _.
                          then-Always P
                            (value_or lib.to_i64 (pos 0) (get (codes "ack_safe_deadline_at_ms"))) _
                            (λ _.
                              then-Always P
                                (value_or lib.to_u32 0 (get (codes "expiry_freshen_count"))) _
                                (λ _.
                                  then-Always P
                                    (value_or lib.to_text []
                                      (get (codes "budget_exhausted_reason")))
                                    _
                                    (λ _.
                                      then-Always P
                                        (value_or lib.to_text [] (get (codes "chain_id"))) _
                                        (λ _.
                                          then-Always P
                                            (value_or lib.to_i64 (pos 0)
                                              (get (codes "chain_started_at_ms")))
                                            _
                                            (λ _.
                                              then-Always P
                                                (value_or lib.to_i64 (pos 0)
                                                  (get (codes "chain_deadline_at_ms")))
                                                _
                                                (λ _.
                                                  then-Always P
                                                    (value_or lib.to_u32 0
                                                      (get (codes "chain_request_id_count")))
                                                    _
                                                    (λ _.
                                                      then-Always P
                                                        (value_or lib.to_text []
                                                          (get (codes "migration_token")))
                                                        _
                                                        (λ _.
                                                          then-Always P
                                                            (value_or lib.to_flag false
                                                            (get (codes "migration_consumed")))
                                                            _
                                                            (λ _. some-Always P _ e)))))))))))))))))

  abbrev HasSchema : (Text → Option lib.Json) → V2cKeyProvisioningRecord → Type 0
  HasSchema get r = value_or lib.to_u32 0 (get (codes "schema_version")) ≡ some r.schema_version

  schema-Always : (get : Text → Option lib.Json) → Always (HasSchema get) (read_attempt lib get)
  unfolding read_attempt
  schema-Always get =
      let P = HasSchema get in
      bind-Always P (value_or lib.to_u32 0 (get (codes "schema_version"))) _ (λ _ e.
        then-Always P (value_or lib.to_u32 0 (get (codes "fingerprint_version"))) _ (λ _.
          then-Always P (value_or lib.to_text [] (get (codes "attempt_fingerprint"))) _ (λ _.
            then-Always P (value_or lib.to_text [] (get (codes "request_id"))) _ (λ _.
              then-Always P (value_or lib.to_text [] (get (codes "idempotency_digest"))) _ (λ _.
                then-Always P (value_or lib.to_text [] (get (codes "state"))) _ (λ _.
                  then-Always P (value_or lib.to_text [] (get (codes "submission"))) _ (λ _.
                    then-Always P (read_snapshot lib (get (codes "snapshot"))) _ (λ _.
                      then-Always P (value_or lib.to_u32 0 (get (codes "attempt_count"))) _ (λ _.
                        then-Always P (value_or lib.to_i64 (pos 0) (get (codes "deadline_ms"))) _
                          (λ _.
                            then-Always P (value_or lib.to_text [] (get (codes "last_error"))) _
                              (λ _.
                                then-Always P
                                  (value_or lib.to_i64 (pos 0) (get (codes "updated_at_ms"))) _
                                  (λ _.
                                    then-Always P
                                      (value_or lib.to_u64 0
                                        (get (codes "cloud_session_generation")))
                                      _
                                      (λ _.
                                        then-Always P
                                          (value_or lib.to_text []
                                            (get (codes "supersedes_request_id")))
                                          _
                                          (λ _.
                                            then-Always P
                                              (value_or lib.to_text []
                                                (get (codes "superseded_by_request_id")))
                                              _
                                              (λ _.
                                                then-Always P
                                                  (value_or lib.to_text []
                                                    (get (codes "blocked_reason")))
                                                  _
                                                  (λ _.
                                                    then-Always P
                                                      (value_or lib.to_u64 0
                                                        (get (codes "store_generation")))
                                                      _
                                                      (λ _.
                                                        then-Always P
                                                          (value_or lib.to_array [] (
                                                            get (codes "terminalized_request_ids")))
                                                          _
                                                          (λ ids.
                                                            then-Always P (each lib.to_text ids) _
                                                            (λ _.
                                                            some-Always P _ e)))))))))))))))))))

  -- What a record that was read has from its document.
  record IsRead (j : lib.Json) (r : V2cKeyProvisioningRecord) : Type 0 where
    schema : HasSchema (lib.lookup j) r
    invocation : HasInvocation (lib.lookup j) r.evidence
    resolution : HasResolution (lib.lookup j) r.evidence.import_invocation r.recovery
    requests : HasCount (lib.lookup j) r.budget

  read_record-Always : (j : lib.Json) → Always (IsRead j) (read_record lib j)
  unfolding read_record
  read_record-Always j =
      let P = IsRead j in
      let get = lib.lookup j in
      bind-Always P (read_attempt lib get) _ (λ r er.
        bind-Always P (read_evidence lib get) _ (λ v ev.
          bind-Always P (read_recovery lib get v.import_invocation) _ (λ i ei.
            then-Always P (value_or lib.to_text [] (get (codes "lifecycle_profile"))) _ (λ _.
              bind-Always P (read_budget lib get) _ (λ b eb.
                then-Always P (value_or lib.to_i64 (pos 0) (get (codes "lease_expires_at_ms"))) _
                  (λ _. then-Always P (read_contract lib get) _ (λ _. some-Always P _ (record {
                    schema = of_Always (HasSchema get) _ r (schema-Always get) er;
                    invocation = of_Always (HasInvocation get) _ v (invocation-Always get) ev;
                    resolution =
                        of_Always (HasResolution get v.import_invocation) _ i
                          (resolution-Always get v.import_invocation) ei;
                    requests = of_Always (HasCount get) _ b (count-Always get) eb;
                  }))))))))

  -- The document says in so many words that there was no side effect, or that SEC was not called.
  abbrev pub StoresProven : lib.Json → Type 0
  StoresProven j =
      (v : lib.Json) × (lib.lookup j (codes "import_invocation_resolution") ≡ some v)
      × (lib.to_i32 v ≡ some resolution_no_side_effect_proven)

  abbrev pub StoresNotInvoked : lib.Json → Type 0
  StoresNotInvoked j =
      (v : lib.Json) × (lib.lookup j (codes "import_invocation") ≡ some v)
      × (lib.to_flag v ≡ some false)

  abbrev pub StoresCount : lib.Json → Type 0
  StoresCount j = (v : lib.Json) × (lib.lookup j (codes "request_send_count") ≡ some v)

  abbrev pub StoresSchema5 : lib.Json → Type 0
  StoresSchema5 j =
      (v : lib.Json) × (n : ℕ) × (lib.lookup j (codes "schema_version") ≡ some v)
      × (lib.to_u32 v ≡ some n)
      × (5 ≤ n)

  pub record IsConservative (j : lib.Json) (r : V2cKeyProvisioningRecord) : Type 0 where
    pub resolution :
        (r.recovery.import_invocation_resolution ≢ resolution_no_side_effect_proven)
        ⊎ (StoresProven j ⊎ StoresNotInvoked j)
    pub requests : StoresSchema5 j ⊎ (StoresCount j ⊎ (r.budget.request_send_count ≡ 8))

  stored_proven :
      (o : Option lib.Json)
      → value_or lib.to_i32 (negsuc 0) o ≡ some resolution_no_side_effect_proven
      → (v : lib.Json) × (o ≡ some v) × (lib.to_i32 v ≡ some resolution_no_side_effect_proven)
  stored_proven none e = cc
  stored_proven (some v) e = (v, refl, e)

  stored_false :
      (o : Option lib.Json)
      → read_invocation lib o ≡ some false
      → (v : lib.Json) × (o ≡ some v) × (lib.to_flag v ≡ some false)
  unfolding read_invocation
  stored_false none e = cc
  stored_false (some v) e = (v, refl, e)

  stored_count :
      (o : Option lib.Json) (n : ℕ)
      → value_or lib.to_u32 0 o ≡ some n
      → 1 ≤ n
      → (v : lib.Json) × (o ≡ some v) × (lib.to_u32 v ≡ some n)
  stored_count none n e h = absurd (omega (arith, some_injective 0 n e))
  stored_count (some v) n e h = (v, refl, e)

  proven_cases :
      (stored : ℤ) (present invocation : Bool)
      → resolution_of stored present invocation ≡ resolution_no_side_effect_proven
      → (stored ≡ resolution_no_side_effect_proven) ⊎ (invocation ≡ false)
  unfolding resolution_of
  proven_cases stored present invocation e = ground arith

  is_proven :
      (z : ℤ) → (z ≡ resolution_no_side_effect_proven) ⊎ (z ≢ resolution_no_side_effect_proven)
  is_proven z = ground (arith, eq_of_parts z resolution_no_side_effect_proven)

  interpret-IsConservative :
      (j : lib.Json) (r : V2cKeyProvisioningRecord) → IsRead j r → IsConservative j (interpret r)
  interpret-IsConservative j r h = record {
    resolution = elim (is_proven r.recovery.import_invocation_resolution) [
      | inr other ↦ inl (λ e. other (sym (interpret_resolution r) ∙ e))
      | inl proven ↦ inr (elim (proven_cases h.resolution.0 _ _ (sym h.resolution.2 ∙ proven)) [
        | inl stored ↦ inl (stored_proven _ (h.resolution.1 ∙ ap some stored))
        | inr not_called ↦ inr (stored_false _ (h.invocation ∙ ap some not_called))
      ])
    ];
    requests =
        elim (migrated_count
          (record r { recovery = migrate_recovery r.schema_version r.recovery })) [
            | inl current ↦ inl (
                let (v, at, read) =
                  stored_count _ r.schema_version h.schema (omega (arith, current)) in
                (v, r.schema_version, at, read, current))
            | inr (inl sent) ↦ inr (
                inl (
                  let (v, at, read) = stored_count _ r.budget.request_send_count h.requests sent in
                  (v, at)))
            | inr (inr used_up) ↦ inr (inr (unfold interpret finish_record in used_up))
          ];
  }

  or_empty_record_cases :
      (Q : V2cKeyProvisioningRecord → Type 0) (o : Option V2cKeyProvisioningRecord)
      → Always Q o
      → (or_empty_record o ≡ empty_record) ⊎ Q (or_empty_record o)
  unfolding Always
  or_empty_record_cases Q none h = inl refl
  or_empty_record_cases Q (some r) h = inr h

  -- Whatever text is stored and whatever the JSON library makes of it, loading either gives no record,
  -- or a record of the parsed document that is conservative: it counts as proven free of side effects
  -- only when the document stores that resolution, or stores that SEC was not called (a missing field
  -- never does); and a document of an older schema, or without one, that has no request counter
  -- gets all 8 requests counted as sent.
  pub load_text-IsConservative :
      (text : Text)
      → (load_text lib text ≡ empty_record)
        ⊎ ((j : lib.Json) × (lib.parse text ≡ some j) × IsConservative j (load_text lib text))
  unfolding load_text
  load_text-IsConservative [] = inl refl
  load_text-IsConservative (c ∷ s) =
      let P = λ (r : V2cKeyProvisioningRecord).
        (j : lib.Json) × (lib.parse (c ∷ s) ≡ some j) × IsConservative j r in
      or_empty_record_cases P _ (
        bind-Always P (lib.parse (c ∷ s)) _ (λ j ej. bind-Always P (read_record lib j) _ (λ r er.
          some-Always P (interpret r) (
            j,
            ej,
            interpret-IsConservative j r (of_Always (IsRead j) _ r (read_record-Always j) er),
          ))))
