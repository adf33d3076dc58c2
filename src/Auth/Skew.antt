-- ===== src/Auth/Skew.antt =====
-- Which timestamps are inside the window.
use sclawion.Prelude.{◌^◌, ◌≡◌, ◌↔◌, ◌⊎◌, arith}
use sclawion.Prelude.Int.{pos, negsuc, ◌≤ℤ◌, ◌+ℤ◌, ◌-ℤ◌}
use sclawion.Event.{Time}
use sclawion.GoTime.{sub, negate, wrap_int64}
use sclawion.Config.Errors.{ok}
use sclawion.Auth.{check_timestamp_skew, max_skew}

-- The request is at most five minutes before or after now.
abbrev pub InWindow : Time → Time → Type 0
InWindow req now = (now ≤ℤ req +ℤ max_skew) × (req ≤ℤ now +ℤ max_skew)

-- The request lies 2^63 nanoseconds or more in the future, some 292 years.
abbrev pub FarAhead : Time → Time → Type 0
FarAhead req now = now +ℤ pos (2 ^ 63) ≤ℤ req

-- The window: a timestamp is accepted exactly if it is at most five minutes before or after now, or
-- at least 2^63 nanoseconds after it.
pub check_timestamp_skew_iff :
    (req now : Time)
    → (check_timestamp_skew req now ≡ ok tt) ↔ (InWindow req now ⊎ FarAhead req now)
unfolding check_timestamp_skew sub negate wrap_int64 ◌+ℤ◌ ◌-ℤ◌
check_timestamp_skew_iff (pos r) (pos n) = (λ h. ground arith, λ h. ground arith)
check_timestamp_skew_iff (pos r) (negsuc n) = (λ h. ground arith, λ h. ground arith)
check_timestamp_skew_iff (negsuc r) (pos n) = (λ h. ground arith, λ h. ground arith)
check_timestamp_skew_iff (negsuc r) (negsuc n) = (λ h. ground arith, λ h. ground arith)
