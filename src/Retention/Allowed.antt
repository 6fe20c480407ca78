-- ===== src/Retention/Allowed.antt =====
-- The settings that `loadConfig` of cmd/retention/main.go returns.
use finflow.Base.{
  ◌≡◌, refl, ap, String, Bool, false, not, ◌&&◌, ◌||◌, Option, some, none, eq_iff, arith, inl, inr,
  Bool-cases,
}
use finflow.Base.Int.{ℤ, pos, is_non_positive}
use finflow.Go.Environment.{Environment}
use finflow.Go.Errors.{Result, ok, err}
use finflow.Go.Results.{Yields, Yields-bind, Yields-ok, Passed, fail_if-Yields}
use finflow.Go.Strings.{is_empty}
use finflow.Go.Numbers.{parse_int64, less}
use finflow.Config.Variables.{parse_bool}
use finflow.Retention.Settings.{
  RetentionConfig, retention_confirmation, read_bool, read_batch, read_duration, trimmed_env,
  dry_run_env, batch_size_env, duration_env, confirmed, load_config,
}

abbrev pub IsBatch : ℤ → Type 0
IsBatch n = (less n (pos 1) || less (pos 10000) n) ≡ false

abbrev pub IsPositive : ℤ → Type 0
IsPositive d = is_non_positive d ≡ false

read_batch-Yields : (r : Result ℤ) → Yields IsBatch (read_batch r)
read_batch-Yields (err e) = tt
read_batch-Yields (ok n) = elim (Bool-cases (less n (pos 1) || less (pos 10000) n)) [
  | inl outside ↦ rw outside tt
  | inr inside ↦ rw inside inside
]

read_duration-Yields : (key : String) (o : Option ℤ) → Yields IsPositive (read_duration key o)
read_duration-Yields key none = tt
read_duration-Yields key (some d) = elim (Bool-cases (is_non_positive d)) [
  | inl never ↦ rw never tt
  | inr positive ↦ rw positive positive
]

module _ (env : Environment) (getenv : String → String) where
  abbrev Asked : Bool → Type 0
  Asked dry_run =
      dry_run ≡ false → parse_bool (trimmed_env env getenv "RETENTION_DRY_RUN") ≡ some false

  -- A run that deletes was asked for by two variables.
  abbrev pub IsConfirmed : Type 0
  IsConfirmed =
      (trimmed_env env getenv "RETENTION_CONFIRM" ≡ retention_confirmation)
      × (parse_bool (trimmed_env env getenv "RETENTION_DRY_RUN") ≡ some false)

  -- The batch has a size, and the periods are positive.
  abbrev pub IsAllowed : RetentionConfig → Type 0
  IsAllowed cfg =
      (cfg.dry_run ≡ false → IsConfirmed)
      × IsBatch cfg.batch_size
      × IsPositive cfg.outbox_retention
      × IsPositive cfg.consumed_retention
      × IsPositive cfg.replay_retention

  read_bool-Yields :
      (o : Option Bool) → Yields (λ (b : Bool). b ≡ false → o ≡ some false) (read_bool o)
  read_bool-Yields none = tt
  read_bool-Yields (some b) = λ h. ap some h

  dry_run_env-Yields : Yields Asked (dry_run_env env getenv)
  unfolding dry_run_env
  dry_run_env-Yields =
      let value = trimmed_env env getenv "RETENTION_DRY_RUN" in
      elim (Bool-cases (is_empty value)) [
        | inl unset ↦ rw unset (λ h. absurd cc)
        | inr given ↦ rw given (read_bool-Yields (parse_bool value))
      ]

  batch_size_env-Yields : Yields IsBatch (batch_size_env env getenv)
  unfolding batch_size_env
  batch_size_env-Yields =
      let value = trimmed_env env getenv "RETENTION_BATCH_SIZE" in
      elim (Bool-cases (is_empty value)) [
        | inl unset ↦ rw unset refl
        | inr given ↦ rw given (read_batch-Yields (parse_int64 value))
      ]

  duration_env-Yields :
      (key : String) (fallback : ℤ)
      → IsPositive fallback
      → Yields IsPositive (duration_env env getenv key fallback)
  unfolding duration_env
  duration_env-Yields key fallback positive =
      let value = trimmed_env env getenv key in
      elim (Bool-cases (is_empty value)) [
        | inl unset ↦ rw unset positive
        | inr given ↦ rw given (read_duration-Yields key (env.parse_duration value))
      ]

  confirmed_of :
      (dry_run : Bool)
      → Asked dry_run
      → (not dry_run && not (confirmed env getenv)) ≡ false
      → dry_run ≡ false
      → IsConfirmed
  confirmed_of dry_run asked allowed deletes = ((eq_iff _ _).0 (ground arith), asked deletes)

  load_config-Yields : Yields IsAllowed (load_config env getenv)
  unfolding load_config
  load_config-Yields =
      Yields-bind (Passed (is_empty (trimmed_env env getenv "DATABASE_URL"))) IsAllowed _ _
        (fail_if-Yields (is_empty (trimmed_env env getenv "DATABASE_URL")) _)
        (λ present u. Yields-bind Asked IsAllowed _ _ dry_run_env-Yields (λ dry_run asked.
          Yields-bind (Passed (not dry_run && not (confirmed env getenv))) IsAllowed _ _
            (fail_if-Yields (not dry_run && not (confirmed env getenv)) _)
            (λ v allowed. Yields-bind IsBatch IsAllowed _ _ batch_size_env-Yields (λ n batch.
              Yields-bind IsPositive IsAllowed _ _
                (duration_env-Yields "OUTBOX_RETENTION" (pos 2592000000000000) refl)
                (λ d1 p1.
                  Yields-bind IsPositive IsAllowed _ _
                    (duration_env-Yields "CONSUMED_EVENT_RETENTION" (pos 7776000000000000) refl)
                    (λ d2 p2.
                      Yields-bind IsPositive IsAllowed _ _
                        (duration_env-Yields "REPLAY_AUDIT_RETENTION" (pos 31536000000000000) refl)
                        (λ d3 p3.
                          let all : IsAllowed (record {
                            database_url = trimmed_env env getenv "DATABASE_URL";
                            dry_run = dry_run;
                            batch_size = n;
                            outbox_retention = d1;
                            consumed_retention = d2;
                            replay_retention = d3;
                          }) =
                            (confirmed_of dry_run asked allowed, batch, p1, p2, p3) in
                          all)))))))

  pub load_config_ok : {cfg : RetentionConfig} → load_config env getenv ≡ ok cfg → IsAllowed cfg
  load_config_ok h = Yields-ok IsAllowed (load_config env getenv) load_config-Yields h
