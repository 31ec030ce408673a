-- ===== src/Deployment/Clock.antt =====
-- Instants, durations and `float64`. An instant is the number of nanoseconds since Go's zero `Time`
-- (so the zero `Time` is 0); all instants of the program are in UTC.
use asset_repayment_service.Prelude.{ℕ, ◌+◌, ◌-◌, ◌*◌, ◌/◌, ◌^◌, ◌<◌, ◌≡◌, Bool, ltb, if◌then◌else◌}
use asset_repayment_service.Prelude.Int.{ℤ, pos, negsuc, pos_part, neg_part, ◌≤ℤ◌}

abbrev pub Time : Type 0
Time = ℕ

abbrev pub nanos_per_second : ℕ
nanos_per_second = 1000000000

abbrev pub nanos_per_day : ℕ
nanos_per_day = 86400 * nanos_per_second

abbrev pub max_duration : ℕ
max_duration = 2 ^ 63 - 1

-- `t.Sub(u)`: a signed duration, which saturates at 2^63 - 1 and at -2^63.
unfoldable pub sub_time : Time → Time → ℤ
sub_time t u =
    if ltb t u
    then (if ltb max_duration (u - t - 1) then negsuc max_duration else negsuc (u - t - 1))
    else if ltb max_duration (t - u)
    then pos max_duration
    else pos (t - u)

-- `t.AddDate(0, 0, days)`. In UTC every day has 24 hours; dates before the zero `Time` are cut off.
unfoldable pub add_days : Time → ℤ → Time
add_days t days = t + pos_part days * nanos_per_day - neg_part days * nanos_per_day

-- `t.Truncate(24 * time.Hour)`, counted from the zero `Time`.
unfoldable pub truncate_day : Time → Time
truncate_day t = t / nanos_per_day * nanos_per_day

abbrev pub Float64 : Type 0
Float64 = ℕ

-- `float64` by its bits: the machine's arithmetic is a parameter.
pub record Floats : Type 0 where
  -- `Duration.Hours`
  pub hours : ℤ → Float64
  pub of_int : ℤ → Float64
  pub quotient : Float64 → Float64 → Float64
  pub product : Float64 → Float64 → Float64
  -- `math.Round`, `math.Ceil`, `math.IsInf(x, 0)`, `>` and the conversion to `int`
  pub round : Float64 → Float64
  pub ceil : Float64 → Float64
  pub is_inf : Float64 → Bool
  pub greater : Float64 → Float64 → Bool
  pub to_int : Float64 → ℤ
  -- IEEE 754: a quotient of values that are not negative is not negative, and for durations of
  -- whole seconds the hours by 168, cut off, are the whole weeks
  pub weeks_nonneg : (t : ℕ) → pos 0 ≤ℤ to_int (quotient (hours (pos t)) (of_int (pos 168)))
  pub weeks_of_seconds :
      (s : ℕ)
      → s * nanos_per_second < 2 ^ 63
      → to_int (quotient (hours (pos (s * nanos_per_second))) (of_int (pos 168))) ≡ pos (s / 604800)

-- `round2`.
unfoldable pub round2 : ⦃f : Floats⦄ → Float64 → Float64
round2 ⦃f⦄ v = f.quotient (f.round (f.product v (f.of_int (pos 100)))) (f.of_int (pos 100))
