-- ===== src/Attempt/Fingerprint/Injectivity.antt =====
-- The fingerprint's input decides the business content: what is hashed can be read back in one way.
use mathlib.Core.List.{append_assoc}
use iov_vehicle_tbox_tsp.Prelude.{
  ℕ, ◌^◌, ◌<◌, List, ◌++◌, ◌≡◌, ◌≢◌, ◌⊎◌, inl, inr, sym, ap, ◌∙◌, All, length, Bool-cases, text_eq,
  text_eq_iff, eq_of_text_eq, ok, arith,
}
use iov_vehicle_tbox_tsp.Attempt.Canonical.{append_str, sort_dedup_int, sort_dedup_versions}
use iov_vehicle_tbox_tsp.Attempt.Canonical.Words.{append_cancel}
use iov_vehicle_tbox_tsp.Attempt.Canonical.Sizes.{
  All-sort_dedup, All-sort_dedup_versions, length-sort_dedup-le, length-sort_dedup_versions-le,
}
use iov_vehicle_tbox_tsp.Attempt.Snapshot.{KeyprovAttemptSnapshot}
use iov_vehicle_tbox_tsp.Attempt.Fingerprint.{
  fingerprint_tag_v1, keyprov_business_domain_v2c, fingerprint_input,
  keyprov_compute_attempt_fingerprint_v1,
}
use iov_vehicle_tbox_tsp.Attempt.Fingerprint.Encoding.{
  counted_ints, counted_versions, append_set_eq, append_version_set_eq, IsWord, IsVersion,
  set_cancel, version_set_cancel,
}

-- The values fit the `int` and `uint64_t` of the source, and the vectors are shorter than 2^32.
pub record IsInRange (s : KeyprovAttemptSnapshot) : Type 0 where
  pub purposes : All IsWord s.purposes
  pub versions : All IsVersion s.current_versions
  pub suites : All IsWord s.wrapping_suites
  pub formats : All IsWord s.envelope_formats
  pub purposes_count : length s.purposes < 2 ^ 32
  pub versions_count : length s.current_versions < 2 ^ 32
  pub suites_count : length s.wrapping_suites < 2 ^ 32
  pub formats_count : length s.envelope_formats < 2 ^ 32

-- The same business content: everything but the order and repetition inside the sets, and but the
-- digest of the certificate reference, which is not hashed.
pub record SameContent (s t : KeyprovAttemptSnapshot) : Type 0 where
  pub domain : s.business_domain ≡ t.business_domain
  pub purposes : sort_dedup_int s.purposes ≡ sort_dedup_int t.purposes
  pub versions : sort_dedup_versions s.current_versions ≡ sort_dedup_versions t.current_versions
  pub identity : s.device_identity_digest ≡ t.device_identity_digest
  pub certificate : s.recipient_certificate_digest ≡ t.recipient_certificate_digest
  pub suites : sort_dedup_int s.wrapping_suites ≡ sort_dedup_int t.wrapping_suites
  pub formats : sort_dedup_int s.envelope_formats ≡ sort_dedup_int t.envelope_formats
  pub lock : s.protocol_lock_digest ≡ t.protocol_lock_digest

pub input_eq :
    (s : KeyprovAttemptSnapshot)
    → fingerprint_input s
      ≡ append_str fingerprint_tag_v1 s.business_domain
        ++ (counted_ints (sort_dedup_int s.purposes)
            ++ (counted_versions (sort_dedup_versions s.current_versions)
                ++ (s.device_identity_digest
                    ++ (s.recipient_certificate_digest
                        ++ (counted_ints (sort_dedup_int s.wrapping_suites)
                            ++ (counted_ints (sort_dedup_int s.envelope_formats)
                                ++ s.protocol_lock_digest))))))
unfolding fingerprint_input
input_eq s = simp (append_set_eq, append_version_set_eq, append_assoc)

-- What the validation of the source has checked when it accepts.
record IsChecked (s : KeyprovAttemptSnapshot) : Type 0 where
  domain : s.business_domain ≡ keyprov_business_domain_v2c
  identity : length s.device_identity_digest ≡ 32
  certificate : length s.recipient_certificate_digest ≡ 32

compute-IsChecked :
    (sha256 : List ℕ → List ℕ) (s : KeyprovAttemptSnapshot) (f : List ℕ)
    → keyprov_compute_attempt_fingerprint_v1 sha256 s ≡ ok f
    → IsChecked s × (f ≡ sha256 (fingerprint_input s))
unfolding keyprov_compute_attempt_fingerprint_v1
compute-IsChecked sha256 s f h =
    let d = eq_of_text_eq s.business_domain keyprov_business_domain_v2c in
    (ground (arith, d), ground arith)

content_of_input :
    (s t : KeyprovAttemptSnapshot)
    → IsInRange s
    → IsInRange t
    → IsChecked s
    → IsChecked t
    → fingerprint_input s ≡ fingerprint_input t
    → SameContent s t
content_of_input s t r q c d h =
    let h0 = sym (input_eq s) ∙ (h ∙ input_eq t) in
    let dom : s.business_domain ≡ t.business_domain = c.domain ∙ sym d.domain in
    let (e1, h1) =
      append_cancel (append_str fingerprint_tag_v1 s.business_domain)
        (append_str fingerprint_tag_v1 t.business_domain) _ _
        (ap (λ w. length (append_str fingerprint_tag_v1 w)) dom) h0 in
    let (e2, h2) =
      set_cancel (sort_dedup_int s.purposes) (sort_dedup_int t.purposes) _ _
        (All-sort_dedup IsWord s.purposes r.purposes) (All-sort_dedup IsWord t.purposes q.purposes)
        (omega (arith, length-sort_dedup-le s.purposes, r))
        (omega (arith, length-sort_dedup-le t.purposes, q)) h1 in
    let (e3, h3) =
      version_set_cancel (sort_dedup_versions s.current_versions)
        (sort_dedup_versions t.current_versions) _ _
        (All-sort_dedup_versions IsVersion s.current_versions r.versions)
        (All-sort_dedup_versions IsVersion t.current_versions q.versions)
        (omega (arith, length-sort_dedup_versions-le s.current_versions, r))
        (omega (arith, length-sort_dedup_versions-le t.current_versions, q)) h2 in
    let (e4, h4) =
      append_cancel s.device_identity_digest t.device_identity_digest _ _
        (c.identity ∙ sym d.identity) h3 in
    let (e5, h5) =
      append_cancel s.recipient_certificate_digest t.recipient_certificate_digest _ _
        (c.certificate ∙ sym d.certificate) h4 in
    let (e6, h6) =
      set_cancel (sort_dedup_int s.wrapping_suites) (sort_dedup_int t.wrapping_suites) _ _
        (All-sort_dedup IsWord s.wrapping_suites r.suites)
        (All-sort_dedup IsWord t.wrapping_suites q.suites)
        (omega (arith, length-sort_dedup-le s.wrapping_suites, r))
        (omega (arith, length-sort_dedup-le t.wrapping_suites, q)) h5 in
    let (e7, h7) =
      set_cancel (sort_dedup_int s.envelope_formats) (sort_dedup_int t.envelope_formats) _ _
        (All-sort_dedup IsWord s.envelope_formats r.formats)
        (All-sort_dedup IsWord t.envelope_formats q.formats)
        (omega (arith, length-sort_dedup-le s.envelope_formats, r))
        (omega (arith, length-sort_dedup-le t.envelope_formats, q)) h6 in
    record {
      domain = dom;
      purposes = e2;
      versions = e3;
      identity = e4;
      certificate = e5;
      suites = e6;
      formats = e7;
      lock = h7;
    }

-- Two accepted snapshots in range with equal fingerprints have the same business content, or else
-- they are a collision of the hash function.
pub fingerprint-SameContent :
    (sha256 : List ℕ → List ℕ) (s t : KeyprovAttemptSnapshot) (f : List ℕ)
    → IsInRange s
    → IsInRange t
    → keyprov_compute_attempt_fingerprint_v1 sha256 s ≡ ok f
    → keyprov_compute_attempt_fingerprint_v1 sha256 t ≡ ok f
    → SameContent s t
      ⊎ (fingerprint_input s ≢ fingerprint_input t)
        × (sha256 (fingerprint_input s) ≡ sha256 (fingerprint_input t))
fingerprint-SameContent sha256 s t f r q hs ht =
    let (c, e) = compute-IsChecked sha256 s f hs in
    let (d, g) = compute-IsChecked sha256 t f ht in
    elim (Bool-cases (text_eq (fingerprint_input s) (fingerprint_input t))) [
      | inl same ↦ inl (content_of_input s t r q c d (eq_of_text_eq _ _ same))
      | inr other ↦ inr (
        λ h. cc (other, (text_eq_iff (fingerprint_input s) (fingerprint_input t)).1 h),
        sym e ∙ g,
      )
    ]
