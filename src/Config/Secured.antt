-- ===== src/Config/Secured.antt =====
-- What `BuildSecurity` of kafkaclient/security.go makes of settings that pass the validation.
use finflow.Base.{
  ◌≡◌, refl, ◌∙◌, String, true, false, ◌||◌, Option, none, some, [], ◌∷◌, str_eq, eq_iff, inl, inr,
  Bool-cases, arith,
}
use finflow.Go.Errors.{ok}
use finflow.Go.Strings.{is_empty}
use finflow.Config.Kafka.{KafkaSecurityConfig, is_no_mechanism, is_mechanism, validation_problems}
use finflow.Config.Valid.{validation_problems_iff}
use finflow.Config.KafkaClient.{
  ScramHash, TlsConfig, Mechanism, plain, scram, Machine, version_tls12, start_pool, add_roots,
  add_certificate, first_config, build_tls_config, build_sasl_mechanism, build_security,
}

-- TLS 1.2 at least.
abbrev pub IsProtected : {Pool Certificate : Type 0} → Option (TlsConfig Pool Certificate) → Type 0
IsProtected {Pool} {Certificate} tls =
    (t : TlsConfig Pool Certificate) × (tls ≡ some t) × (t.min_version ≡ version_tls12)

unset_lem :
    (name : String) → (str_eq name "" || str_eq name "none") ≡ true → is_mechanism name ≡ false
unset_lem name h = elim (Bool-cases (str_eq name "")) [
  | inl empty ↦ rw ((eq_iff name "").0 empty) refl
  | inr given ↦ rw ((eq_iff name "none").0 (ground arith)) refl
]

module _ {Pool Certificate Scram : Type 0} where
  module _ (machine : Machine Pool Certificate Scram) (c : KafkaSecurityConfig) where
    -- The files that the settings name can be read, and the password prepared.
    abbrev pub IsUsable : Type 0
    IsUsable =
        (is_empty c.tls_ca_file ≡ false
          → (pem : String) × (pool : Pool) × (machine.read_file c.tls_ca_file ≡ ok pem)
            × (machine.append_certs (start_pool machine machine.system_pool) pem ≡ some pool))
        × (is_empty c.tls_cert_file ≡ false
            → (certificate : Certificate) × (machine.load_key_pair c.tls_cert_file c.tls_key_file
                ≡ ok certificate))
        × ((hash : ScramHash)
            → (s : Scram) × (machine.new_scram hash c.sasl_username c.sasl_password ≡ ok s))

    roots_added :
        (t : TlsConfig Pool Certificate)
        → IsUsable
        → (t' : TlsConfig Pool Certificate) × (add_roots machine c t ≡ ok t')
          × (t'.min_version ≡ t.min_version)
    unfolding add_roots
    roots_added t usable = elim (Bool-cases (is_empty c.tls_ca_file)) [
      | inl no_file ↦ (t, rw no_file refl, refl)
      | inr file ↦
          let (pem, pool, read, appended) = usable.0 file in
          (record t { root_cas = some pool }, rw (file, read, appended) refl, refl)
    ]

    certificate_added :
        (t : TlsConfig Pool Certificate)
        → IsUsable
        → is_empty c.tls_cert_file ≡ is_empty c.tls_key_file
        → (t' : TlsConfig Pool Certificate) × (add_certificate machine c t ≡ ok t')
          × (t'.min_version ≡ t.min_version)
    unfolding add_certificate
    certificate_added t usable pair = elim (Bool-cases (is_empty c.tls_cert_file)) [
      | inl no_file ↦ (t, rw (← pair, no_file) refl, refl)
      | inr file ↦
          let (certificate, loaded) = usable.1 file in
          (record t { certificates = certificate ∷ [] }, rw (← pair, file, loaded) refl, refl)
    ]

    abbrev pub IsTlsOf : Option (TlsConfig Pool Certificate) → Type 0
    IsTlsOf tls = (c.tls_enabled ≡ true → IsProtected tls) × (c.tls_enabled ≡ false → tls ≡ none)

    tls_complete :
        (t t' : TlsConfig Pool Certificate)
        → c.tls_enabled ≡ true
        → add_roots machine c (first_config machine c) ≡ ok t
        → add_certificate machine c t ≡ ok t'
        → build_tls_config machine c ≡ ok (some t')
    unfolding build_tls_config
    tls_complete t t' on rooted complete = rw (on, rooted, complete) refl

    tls_off : c.tls_enabled ≡ false → build_tls_config machine c ≡ ok none
    unfolding build_tls_config
    tls_off off = rw off refl

    tls_built :
        IsUsable
        → is_empty c.tls_cert_file ≡ is_empty c.tls_key_file
        → (tls : Option (TlsConfig Pool Certificate)) × (build_tls_config machine c ≡ ok tls)
          × IsTlsOf tls
    tls_built usable pair = elim (Bool-cases c.tls_enabled) [
      | inr off ↦ (none, tls_off off, (λ on. absurd (ground arith), λ off. refl))
      | inl on ↦
          let (t1, rooted, v1) = roots_added (first_config machine c) usable in
          let (t2, complete, v2) = certificate_added t1 usable pair in
          (
            some t2,
            tls_complete t1 t2 on rooted complete,
            (λ on. (t2, refl, v2 ∙ v1), λ off. absurd (ground arith)),
          )
    ]

    -- The mechanism of the settings.
    abbrev pub IsMechanismOf : Option (Mechanism Scram) → Type 0
    IsMechanismOf mechanism =
        (is_no_mechanism c.sasl_mechanism ≡ true → mechanism ≡ none)
        × (is_mechanism c.sasl_mechanism ≡ true → (m : Mechanism Scram) × (mechanism ≡ some m))
        × ((user password : String)
            → mechanism ≡ some (plain user password)
            → c.sasl_mechanism ≡ "plain")

    scram_of :
        {s : Scram} {user password : String}
        → ◌≡◌ {A = Option (Mechanism Scram)} (some (scram s)) (some (plain user password))
        → ⊥
    scram_of e = cc

    sasl_built :
        IsUsable
        → (is_no_mechanism c.sasl_mechanism || is_mechanism c.sasl_mechanism) ≡ true
        → (m : Option (Mechanism Scram)) × (build_sasl_mechanism machine c ≡ ok m) × IsMechanismOf m
    unfolding build_sasl_mechanism
    sasl_built usable known =
        let name = c.sasl_mechanism in
        elim (Bool-cases (str_eq name "" || str_eq name "none")) [
          | inl unset ↦ (
            none,
            rw unset refl,
            (λ h. refl, λ h. absurd (ground (arith, unset_lem name unset)), λ u p e. absurd cc),
          )
          | inr set ↦ elim (Bool-cases (str_eq name "plain")) [
            | inl is_plain ↦ (
              some (plain c.sasl_username c.sasl_password),
              rw (set, is_plain) refl,
              (
                λ h. absurd (ground arith),
                λ h. (plain c.sasl_username c.sasl_password, refl),
                λ u p e. (eq_iff name "plain").0 is_plain,
              ),
            )
            | inr not_plain ↦ elim (Bool-cases (str_eq name "scram-sha-256")) [
              | inl is_256 ↦
                  let (s, prepared) = usable.2 ScramHash.sha256 in
                  (
                    some (scram s),
                    rw (set, not_plain, is_256, prepared) refl,
                    (
                      λ h. absurd (ground arith),
                      λ h. (scram s, refl),
                      λ u p e. absurd (scram_of e),
                    ),
                  )
              | inr not_256 ↦
                  let (s, prepared) = usable.2 ScramHash.sha512 in
                  let is_512 : str_eq name "scram-sha-512" ≡ true = ground arith in
                  (
                    some (scram s),
                    rw (set, not_plain, not_256, is_512, prepared) refl,
                    (
                      λ h. absurd (ground arith),
                      λ h. (scram s, refl),
                      λ u p e. absurd (scram_of e),
                    ),
                  )
            ]
          ]
        ]

    built :
        (tls : Option (TlsConfig Pool Certificate)) (mechanism : Option (Mechanism Scram))
        → build_tls_config machine c ≡ ok tls
        → build_sasl_mechanism machine c ≡ ok mechanism
        → build_security machine c ≡ ok (tls, mechanism)
    unfolding build_security
    built tls mechanism transport credentials = rw (transport, credentials) refl

    -- What the client is given.
    abbrev pub IsSecureClient :
        Option (TlsConfig Pool Certificate) → Option (Mechanism Scram) → Type 0
    IsSecureClient tls mechanism =
        IsTlsOf tls
        × IsMechanismOf mechanism
        × (c.require_secure_transport ≡ true → IsProtected tls)
        × ((user password : String) → mechanism ≡ some (plain user password) → IsProtected tls)

    -- From Kafka's settings that pass the validation, where the files they name can be read and
    -- SCRAM takes the password, BuildSecurity returns no error: TLS of version 1.2 at least exactly
    -- where it is enabled, and a mechanism exactly where one is named; where secure transport is
    -- required, or the password is sent as it is, there is TLS.
    pub build_security-IsSecureClient :
        validation_problems c ≡ []
        → IsUsable
        → (tls : Option (TlsConfig Pool Certificate)) × (mechanism : Option (Mechanism Scram))
          × (build_security machine c ≡ ok (tls, mechanism))
          × IsSecureClient tls mechanism
    build_security-IsSecureClient valid usable =
        let secured = (validation_problems_iff c).0 valid in
        let (tls, transport, of_tls) = tls_built usable secured.key_pair in
        let (mechanism, credentials, of_mechanism) = sasl_built usable secured.known in
        (
          tls,
          mechanism,
          built tls mechanism transport credentials,
          (
            of_tls,
            of_mechanism,
            λ required. of_tls.0 (secured.required required),
            λ user password sent. of_tls.0 (secured.plain (of_mechanism.2 user password sent)),
          ),
        )
