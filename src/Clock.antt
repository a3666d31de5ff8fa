-- ===== src/Clock.antt =====
-- Go's package time, as far as the program uses it: an instant is the number of nanoseconds since
-- the Unix epoch, a Duration an int64 number of nanoseconds.
use epochd.Base.{ℕ, ◌+◌, ◌-◌, ◌*◌, ◌/◌, ◌%◌, ◌^◌, ◌<◌, ◌≡◌, Bool, arith, if◌then◌else◌}
use epochd.Base.Int.{ℤ, pos, negsuc, sub_ℕ, ◌+ℤ◌, ◌-ℤ◌, ◌*ℤ◌, ltb_ℤ, eqb_ℤ, int_laws}
use epochd.Base.Word.{IsInt64}

abbrev pub Time : Type 0
Time = ℤ

abbrev pub Duration : Type 0
Duration = ℤ

-- Nanoseconds in a second.
abbrev pub second : ℕ
second = 1_000_000_000

-- Year 1, January 1: the zero value of time.Time.
abbrev pub zero_time : Time
zero_time = negsuc (62_135_596_800 * 1_000_000_000 - 1)

abbrev pub is_zero : Time → Bool
is_zero t = eqb_ℤ t zero_time

-- t.After(u), t.Before(u)
abbrev pub after : Time → Time → Bool
after t u = ltb_ℤ u t

abbrev pub before : Time → Time → Bool
before t u = ltb_ℤ t u

-- t.Add(d)
abbrev pub add : Time → Duration → Time
add t d = t +ℤ d

abbrev min_duration : Duration
min_duration = negsuc (2 ^ 63 - 1)

abbrev max_duration : Duration
max_duration = pos (2 ^ 63 - 1)

-- t.Sub(u), which saturates at the ends of int64.
unfoldable pub sub : Time → Time → Duration
sub t u =
    let d = t -ℤ u in
    if ltb_ℤ d min_duration then min_duration else if ltb_ℤ max_duration d then max_duration else d

-- t.Unix(): whole seconds, rounded down.
unfoldable pub unix : Time → ℤ
unix (pos n) = pos (n / second)
unix (negsuc n) = negsuc (n / second)

-- t.Nanosecond(): what is left, in [0, second).
unfoldable pub nanosecond : Time → ℕ
nanosecond (pos n) = n % second
nanosecond (negsuc n) = second - 1 - n % second

-- d / time.Second and d % time.Second, which round towards zero.
unfoldable pub quot_second : Duration → ℤ
quot_second (pos n) = pos (n / second)
quot_second (negsuc n) = sub_ℕ 0 ((n + 1) / second)

unfoldable pub rem_second : Duration → ℤ
rem_second (pos n) = pos (n % second)
rem_second (negsuc n) = sub_ℕ 0 ((n + 1) % second)

pub unix-nanosecond : (t : Time) → unix t *ℤ second +ℤ pos (nanosecond t) ≡ t
unfolding unix nanosecond ◌*ℤ◌ ◌+ℤ◌
unix-nanosecond (pos n) = ground arith
unix-nanosecond (negsuc n) = ground arith

pub nanosecond-lt : (t : Time) → nanosecond t < second
unfolding nanosecond
nanosecond-lt (pos n) = omega arith
nanosecond-lt (negsuc n) = omega arith

pub quot_second-rem : (d : Duration) → quot_second d *ℤ second +ℤ rem_second d ≡ d
unfolding quot_second rem_second ◌*ℤ◌ ◌+ℤ◌
quot_second-rem (pos n) = ground arith
quot_second-rem (negsuc n) = ground arith

-- A span that int64 can hold is not clamped.
pub sub-eq : (t u : Time) → IsInt64 (t -ℤ u) → sub t u ≡ t -ℤ u
unfolding sub
sub-eq t u h = ground arith

-- The span that `sub` gives is an int64.
pub sub-IsInt64 : (t u : Time) → IsInt64 (sub t u)
unfolding sub
sub-IsInt64 t u = ground arith

pub add-sub : (t u : Time) → IsInt64 (t -ℤ u) → add u (sub t u) ≡ t
add-sub t u h = rw (sub-eq t u h) (omega int_laws)
