-- ===== src/Clientset/PublishedVolumes/Timeout.antt =====
-- publishedvolume.go: the timeout of a request, `time.Duration(*opts.TimeoutSeconds) * time.Second`.
use csi_gcs.Base.{
  ℕ, ◌+◌, ◌-◌, ◌*◌, ◌%◌, ◌^◌, ◌<◌, ◌≤◌, ℤ, pos, negsuc, IsInt64, ltb, if◌then◌else◌, Option, none,
  some, ◌≡◌, ◌↔◌, subst, arith,
}

-- 64 bits, read as an `int64`
abbrev pub signed : ℕ → ℤ
signed bits = if ltb bits (2 ^ 63) then pos bits else negsuc (2 ^ 64 - 1 - bits)

-- The product of an `int64` and `time.Second`, which wraps around.
unfoldable pub times_second : ℤ → ℤ
times_second (pos n) = signed (n * 1000000000 % 2 ^ 64)
times_second (negsuc n) = signed ((2 ^ 64 - (n + 1) * 1000000000 % 2 ^ 64) % 2 ^ 64)

unfoldable pub timeout : Option ℤ → ℤ
timeout none = pos 0
timeout (some seconds) = times_second seconds

-- The product without the bounds of an `int64`.
abbrev pub nanoseconds : ℤ → ℤ
nanoseconds (pos n) = pos (n * 1000000000)
nanoseconds (negsuc n) = negsuc ((n + 1) * 1000000000 - 1)

-- At most 9223372036 seconds, on either side of 0.
abbrev pub IsShort : ℤ → Type 0
IsShort (pos n) = n ≤ 9223372036
IsShort (negsuc n) = n + 1 ≤ 9223372036

signed-IsInt64 : (bits : ℕ) → bits < 2 ^ 64 → IsInt64 (signed bits)
signed-IsInt64 bits h = ground arith

times_second-IsInt64 : (seconds : ℤ) → IsInt64 (times_second seconds)
unfolding times_second
times_second-IsInt64 (pos n) = signed-IsInt64 _ (omega arith)
times_second-IsInt64 (negsuc n) = signed-IsInt64 _ (omega arith)

times_second_of_IsShort :
    (seconds : ℤ) → IsShort seconds → times_second seconds ≡ nanoseconds seconds
unfolding times_second
times_second_of_IsShort (pos n) h = ground arith
times_second_of_IsShort (negsuc n) h = ground arith

IsShort-of_IsInt64 : (seconds : ℤ) → IsInt64 (nanoseconds seconds) → IsShort seconds
IsShort-of_IsInt64 (pos n) h = omega arith
IsShort-of_IsInt64 (negsuc n) h = omega arith

-- A timeout is an `int64`, whatever number of seconds is asked for, and it is that number of seconds in
-- nanoseconds exactly when there are at most 9223372036 of them, on either side of 0.
pub timeout_bounds :
    (seconds : ℤ)
    → IsInt64 (timeout (some seconds))
      × ((timeout (some seconds) ≡ nanoseconds seconds) ↔ IsShort seconds)
unfolding timeout
timeout_bounds seconds = (
  times_second-IsInt64 seconds,
  (
    λ exact. IsShort-of_IsInt64 seconds (subst IsInt64 exact (times_second-IsInt64 seconds)),
    times_second_of_IsShort seconds,
  ),
)
