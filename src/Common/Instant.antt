-- ===== src/Common/Instant.antt =====
-- Instants of Go's package time, with the conversions to nanoseconds since the Unix epoch and back. Of a
-- `time.Time` the location and the monotonic reading are left out.
use Prim.Native.Nat.{ℕ, ◌+◌, ◌-◌, ◌*◌, ◌/◌, ◌%◌, ◌^◌, ◌<◌}
use mathlib.Core.Path.{◌≡◌, ap, ◌∙◌}
use native.Mathlib.Omega.{arith}
use omnibeam_go.Common.Int.{ℤ, pos, negsuc}
use omnibeam_go.Common.Word.{IsI64, wrap64, wrap64_id, wrap64-IsI64}

-- Seconds since the epoch, rounded down, and the nanoseconds behind them, fewer than a second.
pub record Instant : Type 0 where
  pub seconds : ℤ
  pub nanos : ℕ

-- `time.Time{}`: the first of January of the year 1.
abbrev pub zero_instant : Instant
zero_instant = record { seconds = negsuc 62135596799; nanos = 0 }

abbrev pub IsInstant : Instant → Type 0
IsInstant t = t.nanos < 10 ^ 9

-- The nanoseconds since the epoch.
abbrev pub nanos_of : ℤ → ℕ → ℤ
nanos_of (pos n) k = pos (n * 10 ^ 9 + k)
nanos_of (negsuc n) k = negsuc (n * 10 ^ 9 + (10 ^ 9 - 1 - k))

-- `UnixNano`, which wraps.
unfoldable pub unix_nano : Instant → ℤ
unix_nano t = wrap64 (nanos_of t.seconds t.nanos)

-- `time.Unix(0, ns)`
unfoldable pub of_unix_nano : ℤ → Instant
of_unix_nano (pos n) = record { seconds = pos (n / 10 ^ 9); nanos = n % 10 ^ 9 }
of_unix_nano (negsuc n) = record { seconds = negsuc (n / 10 ^ 9); nanos = 10 ^ 9 - 1 - n % 10 ^ 9 }

of_unix_nano-nanos_of :
    (s : ℤ) (k : ℕ) → k < 10 ^ 9 → of_unix_nano (nanos_of s k) ≡ record { seconds = s; nanos = k }
unfolding of_unix_nano
of_unix_nano-nanos_of (pos n) k h = ground (arith, h)
of_unix_nano-nanos_of (negsuc n) k h = ground (arith, h)

-- An instant whose nanoseconds fit an int64 survives.
pub of_unix_nano-unix_nano :
    (t : Instant)
    → IsInstant t
    → IsI64 (nanos_of t.seconds t.nanos)
    → of_unix_nano (unix_nano t) ≡ t
unfolding unix_nano
of_unix_nano-unix_nano t h fits =
    ap of_unix_nano (wrap64_id (nanos_of t.seconds t.nanos) fits)
    ∙ of_unix_nano-nanos_of t.seconds t.nanos h

pub unix_nano-IsI64 : (t : Instant) → IsI64 (unix_nano t)
unfolding unix_nano
unix_nano-IsI64 t = wrap64-IsI64 (nanos_of t.seconds t.nanos)
