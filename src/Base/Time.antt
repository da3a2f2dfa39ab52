-- ===== src/Base/Time.antt =====
-- `chrono`'s instants: nanoseconds since its first instant, `DateTime::<Utc>::MIN_UTC`, so that
-- every instant is a natural number.
use hyperliquid_live_executo.Base.{◌-◌, ◌/◌, ℕ, ◌*◌, ◌^◌}
use hyperliquid_live_executo.Base.Int.{ℤ, sub_ℕ, quot_ℤ}

abbrev pub Timestamp : Type 0
Timestamp = ℕ

-- A duration in nanoseconds.
abbrev pub seconds : ℕ → ℕ
seconds n = n * 10 ^ 9

-- `a.signed_duration_since(b)`, in nanoseconds.
abbrev pub signed_duration_since : Timestamp → Timestamp → ℤ
signed_duration_since a b = sub_ℕ a b

-- `Duration::num_milliseconds`, cut towards zero.
abbrev pub num_milliseconds : ℤ → ℤ
num_milliseconds d = quot_ℤ d 1000000

-- 1970-01-01T00:00:00Z, counted from `MIN_UTC`.
abbrev unix_epoch : Timestamp
unix_epoch = seconds 8334601228800

-- `time.timestamp_millis().max(0)`
abbrev pub timestamp_millis_from_zero : Timestamp → ℕ
timestamp_millis_from_zero t = (t - unix_epoch) / 1000000
