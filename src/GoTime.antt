-- ===== src/GoTime.antt =====
-- What the program uses of Go's package time: `time.Unix`, `Time.Sub` and the negation of a Duration.
use sclawion.Prelude.{ℕ, suc, ◌-◌, ◌*◌, ◌%◌, ◌^◌, ◌≡◌, refl, ltb, if◌then◌else◌}
use sclawion.Prelude.Int.{ℤ, pos, negsuc, ltb_ℤ, ◌+ℤ◌, ◌-ℤ◌}
use sclawion.Event.{Time}

-- time.Duration: an int64 of nanoseconds.
abbrev pub Duration : Type 0
Duration = ℤ

abbrev pub min_duration : Duration
min_duration = negsuc (2 ^ 63 - 1)

abbrev pub max_duration : Duration
max_duration = pos (2 ^ 63 - 1)

abbrev pub second : ℕ
second = 1000000000

-- The int64 with the residue n.
abbrev signed : ℕ → ℤ
signed n = if ltb n (2 ^ 63) then pos n else negsuc (2 ^ 64 - 1 - n)

-- The int64 that is congruent to an integer modulo 2^64.
unfoldable pub wrap_int64 : ℤ → ℤ
wrap_int64 (pos n) = signed (n % 2 ^ 64)
wrap_int64 (negsuc n) = signed (2 ^ 64 - 1 - n % 2 ^ 64)

abbrev pub times : ℕ → ℤ → ℤ
times k (pos n) = pos (k * n)
times k (negsuc n) = negsuc (k * suc n - 1)

-- The seconds from 1 January of year 1 to 1 January 1970.
abbrev pub unix_to_internal : ℕ
unix_to_internal = 62135596800

-- time.Unix(sec, 0): the seconds since year 1 are an int64.
unfoldable pub unix : ℤ → Time
unfolding wrap_int64 ◌+ℤ◌
unix sec = times second (wrap_int64 (sec +ℤ pos unix_to_internal))

-- t.Sub(u): the difference, or the Duration nearest to it.
unfoldable pub sub : Time → Time → Duration
unfolding ◌-ℤ◌
sub t u =
    let d = t -ℤ u in
    if ltb_ℤ max_duration d then max_duration else if ltb_ℤ d min_duration then min_duration else d

-- -d
unfoldable pub negate : Duration → Duration
unfolding wrap_int64 ◌-ℤ◌
negate d = wrap_int64 (pos 0 -ℤ d)

time_tests :
    (negate min_duration ≡ min_duration)
    × (negate (negsuc 4) ≡ pos 5)
    × (sub (unix (pos 5)) (unix (pos 3)) ≡ pos 2000000000)
    × (sub (unix (pos 0)) (unix (pos 9223372037)) ≡ min_duration)
    × (unix (negsuc (unix_to_internal - 1)) ≡ pos 0)
unfolding negate sub unix
time_tests = (refl, refl, refl, refl, refl)
