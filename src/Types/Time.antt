-- ===== src/Types/Time.antt =====
-- chrono's `TimeDelta` and `DateTime<Utc>` as the code uses them: signed nanoseconds, a date from
-- the Unix epoch. The range that chrono can represent is not modelled.
use zerolease.Prelude.{ℕ, ◌*◌, Bool, ℤ, pos, ltb_ℤ, scale, div_trunc}

abbrev pub TimeDelta : Type 0
TimeDelta = ℤ

abbrev pub DateTime : Type 0
DateTime = ℤ

abbrev pub nanos_per_sec : ℕ
nanos_per_sec = 1000000000

-- `TimeDelta::seconds(n)`, `minutes`, `hours`
unfoldable pub seconds : ℤ → TimeDelta
seconds n = scale nanos_per_sec n

unfoldable pub minutes : ℕ → TimeDelta
unfolding seconds scale
minutes n = seconds (pos (60 * n))

unfoldable pub hours : ℕ → TimeDelta
unfolding seconds scale
hours n = seconds (pos (3600 * n))

-- `delta.num_seconds()`, truncated towards zero
unfoldable pub num_seconds : TimeDelta → ℤ
num_seconds d = div_trunc d nanos_per_sec

-- `a > b` on dates
abbrev pub later_than : DateTime → DateTime → Bool
later_than a b = ltb_ℤ b a
