-- ===== src/Retention/Settings.antt =====
-- The settings of services/payment-service/cmd/retention/main.go: `loadConfig`, over the environment
-- variables. Durations are nanoseconds.
use Prim.Native.String.{◌++◌ as str_append}
use finflow.Base.{
  ℕ, ◌*◌, String, Bool, true, not, ◌&&◌, ◌||◌, str_eq, if◌then◌else◌, Option, none, some,
}
use finflow.Base.Int.{ℤ, pos, is_non_positive}
use finflow.Go.Environment.{Environment}
use finflow.Go.Errors.{message, Result, ok, err, fail_if, ◌>>=◌}
use finflow.Go.Strings.{is_empty, trim_space}
use finflow.Go.Numbers.{parse_int64, less}
use finflow.Config.Variables.{parse_bool}

pub record RetentionConfig : Type 0 where
  pub database_url : String
  pub dry_run : Bool
  pub batch_size : ℤ
  pub outbox_retention : ℤ
  pub consumed_retention : ℤ
  pub replay_retention : ℤ

abbrev pub retention_confirmation : String
retention_confirmation = "DELETE_OPERATIONAL_DATA"

abbrev hours : ℕ → ℤ
hours n = pos (n * 3600000000000)

abbrev pub read_bool : Option Bool → Result Bool
read_bool none = err (message "RETENTION_DRY_RUN must be a boolean")
read_bool (some b) = ok b

abbrev pub batch_error : Result ℤ
batch_error = err (message "RETENTION_BATCH_SIZE must be between 1 and 10000")

abbrev pub read_batch : Result ℤ → Result ℤ
read_batch (err e) = batch_error
read_batch (ok n) = if less n (pos 1) || less (pos 10000) n then batch_error else ok n

abbrev pub duration_error : String → Result ℤ
duration_error key = err (message (str_append key " must be a positive duration"))

abbrev pub read_duration : String → Option ℤ → Result ℤ
read_duration key none = duration_error key
read_duration key (some parsed) = if is_non_positive parsed then duration_error key else ok parsed

module _ (env : Environment) (getenv : String → String) where
  abbrev pub trimmed_env : String → String
  trimmed_env key = trim_space env (getenv key)

  unfoldable pub dry_run_env : Result Bool
  unfolding parse_bool
  dry_run_env =
      let value = trimmed_env "RETENTION_DRY_RUN" in
      if is_empty value then ok true else read_bool (parse_bool value)

  unfoldable pub batch_size_env : Result ℤ
  batch_size_env =
      let value = trimmed_env "RETENTION_BATCH_SIZE" in
      if is_empty value then ok (pos 1000) else read_batch (parse_int64 value)

  unfoldable pub duration_env : String → ℤ → Result ℤ
  duration_env key fallback =
      let value = trimmed_env key in
      if is_empty value then ok fallback else read_duration key (env.parse_duration value)

  abbrev pub confirmed : Bool
  confirmed = str_eq (trimmed_env "RETENTION_CONFIRM") retention_confirmation

  unfoldable pub load_config : Result RetentionConfig
  unfolding dry_run_env batch_size_env duration_env
  load_config = do
    let database_url = trimmed_env "DATABASE_URL"
    present ← fail_if (is_empty database_url) (message "DATABASE_URL is required")
    dry_run ← dry_run_env
    allowed ← fail_if (not dry_run && not confirmed) (
        message
          "RETENTION_CONFIRM must equal \"DELETE_OPERATIONAL_DATA\" when RETENTION_DRY_RUN=false")
    batch_size ← batch_size_env
    outbox ← duration_env "OUTBOX_RETENTION" (hours (30 * 24))
    consumed ← duration_env "CONSUMED_EVENT_RETENTION" (hours (90 * 24))
    replay ← duration_env "REPLAY_AUDIT_RETENTION" (hours (365 * 24))
    ok (record {
      database_url = database_url;
      dry_run = dry_run;
      batch_size = batch_size;
      outbox_retention = outbox;
      consumed_retention = consumed;
      replay_retention = replay;
    })
