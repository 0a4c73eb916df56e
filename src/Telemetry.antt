-- ===== src/Telemetry.antt =====
-- crates/nubisync-telemetry/src/lib.rs: the events that telemetry may carry.
use nubisync.Base.{
  Text, Bool, Result, all, byte_len, err, if◌then◌else◌, int_eq, is_empty, leb, ltb, nat_eq, not,
  ok, option_eq, text_eq, ℕ, ◌&&◌, ◌==◌, ◌||◌,
}
pub mod Code

pub data TelemetryLevel : Type 0 where
  off basic enhanced : TelemetryLevel

pub record DiagnosticCode : Type 0 where
  pub as_str : Text

pub data TelemetryError : Type 0 where
  invalid_diagnostic_code : TelemetryError

-- `u8::is_ascii_uppercase` and `u8::is_ascii_digit`
abbrev pub is_ascii_uppercase : ℕ → Bool
is_ascii_uppercase b = leb 65 b && leb b 90

abbrev pub is_ascii_digit : ℕ → Bool
is_ascii_digit b = leb 48 b && leb b 57

-- Every byte of a scalar value past ASCII is at least 128, so the test on the bytes is this one on
-- the scalar values.
abbrev pub is_code_char : ℕ → Bool
is_code_char b = is_ascii_uppercase b || is_ascii_digit b || b == 95

-- `DiagnosticCode::new`
unfoldable pub new_diagnostic_code : Text → Result TelemetryError DiagnosticCode
new_diagnostic_code value =
    if is_empty value || ltb 64 (byte_len value) || not (all is_code_char value)
    then err invalid_diagnostic_code
    else ok (record { as_str = value })

pub data DurationBucket : Type 0 where
  under_one_second : DurationBucket
  one_to_five_seconds : DurationBucket
  five_to_thirty_seconds : DurationBucket
  thirty_seconds_to_five_minutes : DurationBucket
  over_five_minutes : DurationBucket

pub data CountBucket : Type 0 where
  zero_items : CountBucket
  one_to_ten : CountBucket
  eleven_to_one_hundred : CountBucket
  one_hundred_one_to_one_thousand : CountBucket
  over_one_thousand : CountBucket

pub data TelemetryEvent : Type 0 where
  sync_completed : DurationBucket → CountBucket → TelemetryEvent
  sync_failed : DiagnosticCode → TelemetryEvent
  conflict_detected : TelemetryEvent
  provider_rate_limited : TelemetryEvent
  recovery_completed : TelemetryEvent

abbrev pub telemetry_schema_version : ℕ
telemetry_schema_version = 1

-- The identifier of an installation is a `Uuid`, a type of another package.
pub record TelemetryEnvelope (Uuid : Type 0) : Type 0 where
  pub schema_version : ℕ
  pub installation_id : Uuid
  pub app_version : Text
  pub event : TelemetryEvent

-- `TelemetryEnvelope::new`
unfoldable pub new_envelope :
    {Uuid : Type 0} → Uuid → Text → TelemetryEvent → TelemetryEnvelope Uuid
new_envelope installation_id app_version event = record {
  schema_version = telemetry_schema_version;
  installation_id = installation_id;
  app_version = app_version;
  event = event;
}
