-- ===== src/Go/Time.antt =====
-- time.Time and time.Duration, both in nanoseconds. An instant counts from a fixed origin; a
-- duration is an int64, and `Time.Sub` saturates at its ends.
use mysql_keeper.Prelude.{◌≡◌, arith, if◌then◌else◌, Bool}
use mysql_keeper.Prelude.Int.{ℤ, pos, negsuc, ◌+ℤ◌, ◌-ℤ◌, ◌≤ℤ◌, ltb_ℤ, InInt64, wrap64, -ℤ_parts}

abbrev pub Time : Type 0
Time = ℤ

abbrev pub Duration : Type 0
Duration = ℤ

abbrev pub second : ℤ
second = pos 1000000000

abbrev pub minute : ℤ
minute = pos 60000000000

abbrev pub hour : ℤ
hour = pos 3600000000000

-- `t.Sub(u)`
unfoldable pub sub : Time → Time → Duration
sub t u =
    let d = t -ℤ u in
    if ltb_ℤ (pos 9223372036854775807) d
    then pos 9223372036854775807
    else if ltb_ℤ d (negsuc 9223372036854775807)
    then negsuc 9223372036854775807
    else d

-- `t.Add(d)`
unfoldable pub add : Time → Duration → Time
add t d = t +ℤ d

-- `t.Before(u)`
abbrev pub before : Time → Time → Bool
before t u = ltb_ℤ t u

-- `t.After(u)`
abbrev pub after : Time → Time → Bool
after t u = ltb_ℤ u t

-- `-d` on an int64
unfoldable pub negate : Duration → Duration
negate d = wrap64 (pos 0 -ℤ d)

-- Within the range of an int64 the difference is exact.
pub sub_exact : (t u : Time) → InInt64 (t -ℤ u) → sub t u ≡ t -ℤ u
unfolding sub
sub_exact t u h = ground arith

-- A later instant is at least as far from any other.
pub sub_mono : (s t u : Time) → s ≤ℤ t → sub s u ≤ℤ sub t u
unfolding sub
sub_mono s t u h = ground (arith, -ℤ_parts s u, -ℤ_parts t u)
