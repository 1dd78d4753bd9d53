-- ===== src/Clock.antt =====
-- clocklib/clocklib.go, and what the program uses of Go's `time`: a `Time` is a number of
-- nanoseconds, a `Duration` an `int64`. `Time.Sub` saturates, `Duration` sums wrap around.
use cs416_tanks.Base.{Bool, ◌-◌, if◌then◌else◌}
use cs416_tanks.Base.Int.{ℤ, pos, negsuc, ◌+ℤ◌, ◌-ℤ◌, ltb_ℤ, half_range, int64}

abbrev pub Time : Type 0
Time = ℤ

abbrev pub Duration : Type 0
Duration = ℤ

abbrev pub max_duration : Duration
max_duration = pos (half_range - 1)

abbrev pub min_duration : Duration
min_duration = negsuc (half_range - 1)

-- `t.Add(d)`
abbrev pub add : Time → Duration → Time
add t d = t +ℤ d

-- `t.Sub(u)`
unfoldable pub sub : Time → Time → Duration
sub t u =
    let d = t -ℤ u in
    if ltb_ℤ max_duration d then max_duration else if ltb_ℤ d min_duration then min_duration else d

-- `t.Before(u)`
abbrev pub before : Time → Time → Bool
before t u = ltb_ℤ t u

-- `d + e` and `d - e` on durations
abbrev pub plus : Duration → Duration → Duration
plus d e = int64 (d +ℤ e)

abbrev pub minus : Duration → Duration → Duration
minus d e = int64 (d -ℤ e)

pub record ClockManager : Type 0 where
  pub offset : Duration

unfoldable pub set_offset : ClockManager → Duration → ClockManager
set_offset m d = record m { offset = d }

unfoldable pub get_offset : ClockManager → Duration
get_offset m = m.offset

-- `GetCurrentTime`, at a reading `now` of `time.Now()`
unfoldable pub get_current_time : ClockManager → Time → Time
unfolding get_offset
get_current_time m now = add now (get_offset m)
