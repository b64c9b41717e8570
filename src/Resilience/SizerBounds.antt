-- ===== src/Resilience/SizerBounds.antt =====
-- The bounds of the batch size of pkg/resilience/adaptive_batch.go, over any flushes.
use omnibeam_go.Common.{
  ◌*◌, ◌<◌, ◌^◌, ◌≡◌, refl, Bool, true, false, List, [], ◌∷◌, arith, if◌then◌else◌,
}
use omnibeam_go.Common.Int.{
  ℤ, pos, negsuc, pos_part, ◌≤ℤ◌, ◌+ℤ◌, ◌-ℤ◌, ltb_ℤ, +ℤ_parts, +ℤ_le, -ℤ_parts, -ℤ_le, parts,
}
use omnibeam_go.Common.Word.{wrap64_id, add64, sub64, add64_exact, sub64_exact}
use omnibeam_go.Resilience.Sizer.{
  max_ℤ, min_ℤ, div_ℤ, times_ten, Sizer, fast_threshold, slow_threshold, min_or_default, new_sizer,
  record_flush, flushes,
}

-- The size is within its bounds, which leave room for a step.
pub record IsBounded (s : Sizer) : Type 0 where
  pub positive : pos 1 ≤ℤ s.min_size
  pub from : s.min_size ≤ℤ s.current
  pub to : s.current ≤ℤ s.max_size
  pub room : pos_part s.max_size < 2 ^ 62

-- The step by which a size grows or shrinks: 50 at least, and no more than the size or 50.
fifth_step :
    (c : ℤ)
    → pos 0 ≤ℤ c
    → pos_part c < 2 ^ 62
    → let x = max_ℤ (div_ℤ c 5) (pos 50) in (pos 50 ≤ℤ x) × (pos_part x < 2 ^ 62)
fifth_step (pos n) h k = (ground arith, ground (arith, k))
fifth_step (negsuc n) h k = absurd (omega (arith, h))

third_step :
    (c : ℤ)
    → pos 0 ≤ℤ c
    → pos_part c < 2 ^ 62
    → let x = max_ℤ (div_ℤ c 3) (pos 50) in (pos 50 ≤ℤ x) × (pos_part x < 2 ^ 62)
third_step (pos n) h k = (ground arith, ground (arith, k))
third_step (negsuc n) h k = absurd (omega (arith, h))

grown :
    (c x top : ℤ)
    → pos 0 ≤ℤ c
    → pos_part c < 2 ^ 62
    → (pos 50 ≤ℤ x) × (pos_part x < 2 ^ 62)
    → c ≤ℤ top
    → (c ≤ℤ min_ℤ top (add64 c x)) × (min_ℤ top (add64 c x) ≤ℤ top)
grown c x top h k b t =
    rw
      (add64_exact c x
        (omega (arith, h, k, b, +ℤ_parts c x, +ℤ_le c x, parts c, parts x, parts (c +ℤ x))))
      (ground (arith, h, b, t, +ℤ_parts c x), ground (arith, h, b, t, +ℤ_parts c x))

shrunk :
    (c x low : ℤ)
    → pos 0 ≤ℤ c
    → pos_part c < 2 ^ 62
    → (pos 50 ≤ℤ x) × (pos_part x < 2 ^ 62)
    → low ≤ℤ c
    → (low ≤ℤ max_ℤ low (sub64 c x)) × (max_ℤ low (sub64 c x) ≤ℤ c)
shrunk c x low h k b t =
    rw
      (sub64_exact c x
        (omega (arith, h, k, b, -ℤ_parts c x, -ℤ_le c x, parts c, parts x, parts (c -ℤ x))))
      (ground (arith, h, b, t, -ℤ_parts c x), ground (arith, h, b, t, -ℤ_parts c x))

record_flush-IsBounded :
    (heap_high : Bool) (latency : ℤ) (s : Sizer)
    → IsBounded s
    → IsBounded (record_flush heap_high latency s)
unfolding record_flush
record_flush-IsBounded true latency s b = record {
  positive = b.positive;
  from = omega arith;
  to = omega (arith, b.from, b.to);
  room = b.room;
}
record_flush-IsBounded false latency s b =
    by_latency (ltb_ℤ latency fast_threshold) (ltb_ℤ slow_threshold latency)
  where
    nonneg : pos 0 ≤ℤ s.current
    nonneg = omega (arith, b.positive, b.from)

    fits : pos_part s.current < 2 ^ 62
    fits = omega (arith, b.to, b.room, parts s.current, parts s.max_size)

    by_latency :
        (fast slow : Bool)
        → IsBounded (
            if fast
            then record s {
              current = min_ℤ s.max_size (add64 s.current (max_ℤ (div_ℤ s.current 5) (pos 50)));
            }
            else (if slow
                then record s {
                  current = max_ℤ s.min_size (sub64 s.current (max_ℤ (div_ℤ s.current 3) (pos 50)));
                }
                else s))
    by_latency true slow =
        let g =
          grown s.current (max_ℤ (div_ℤ s.current 5) (pos 50)) s.max_size nonneg fits
            (fifth_step s.current nonneg fits) b.to in
        record { positive = b.positive; from = omega (arith, b.from, g.0); to = g.1; room = b.room }
    by_latency false true =
        let g =
          shrunk s.current (max_ℤ (div_ℤ s.current 3) (pos 50)) s.min_size nonneg fits
            (third_step s.current nonneg fits) b.from in
        record { positive = b.positive; from = g.0; to = omega (arith, b.to, g.1); room = b.room }
    by_latency false false = b

flushes_from-IsBounded : (fs : List (Bool × ℤ)) (s : Sizer) → IsBounded s → IsBounded (flushes s fs)
unfolding flushes
flushes_from-IsBounded [] s b = b
flushes_from-IsBounded ((heap_high, latency) ∷ fs) s b =
    flushes_from-IsBounded fs (record_flush heap_high latency s)
      (record_flush-IsBounded heap_high latency s b)

min_or_default_positive :
    (m : ℤ)
    → pos_part m < 2 ^ 58
    → (pos 1 ≤ℤ min_or_default m) × (pos_part (min_or_default m) < 2 ^ 58)
unfolding min_or_default
min_or_default_positive (pos n) h = (ground (arith, h), ground (arith, h))
min_or_default_positive (negsuc n) h = (ground (arith, h), ground (arith, h))

times_ten_grows :
    (z : ℤ)
    → pos 1 ≤ℤ z
    → pos_part z < 2 ^ 58
    → (z ≤ℤ times_ten z) × (pos_part (times_ten z) < 2 ^ 62)
times_ten_grows (pos n) h k =
    rw (wrap64_id (pos (10 * n)) (omega (arith, k))) (omega arith, omega (arith, k))
times_ten_grows (negsuc n) h k = absurd (omega (arith, h))

new_sizer-IsBounded :
    (min_size max_size : ℤ)
    → pos_part min_size < 2 ^ 58
    → pos_part max_size < 2 ^ 62
    → IsBounded (new_sizer min_size max_size)
unfolding new_sizer
new_sizer-IsBounded min_size max_size h k =
    let low = min_or_default min_size in
    let (up, small) = min_or_default_positive min_size h in
    let (ten, room) = times_ten_grows low up small in by_test (ltb_ℤ max_size low) refl up ten room
  where
    by_test :
        (b : Bool)
        → ltb_ℤ max_size (min_or_default min_size) ≡ b
        → pos 1 ≤ℤ min_or_default min_size
        → min_or_default min_size ≤ℤ times_ten (min_or_default min_size)
        → pos_part (times_ten (min_or_default min_size)) < 2 ^ 62
        → IsBounded record {
          min_size = min_or_default min_size;
          max_size = if b then times_ten (min_or_default min_size) else max_size;
          current = min_or_default min_size;
        }
    by_test true e up ten room = record { positive = up; from = omega arith; to = ten; room = room }
    by_test false e up ten room = record {
      positive = up;
      from = omega arith;
      to = ground (arith, e);
      room = k;
    }

-- Whatever sizes below 2^58 and 2^62 are configured, and whatever latencies and heap sizes the flushes
-- report, the batch size stays between the sizer's minimum and maximum, and is at least one.
pub flushes-IsBounded :
    (min_size max_size : ℤ) (fs : List (Bool × ℤ))
    → pos_part min_size < 2 ^ 58
    → pos_part max_size < 2 ^ 62
    → IsBounded (flushes (new_sizer min_size max_size) fs)
flushes-IsBounded min_size max_size fs h k =
    flushes_from-IsBounded fs (new_sizer min_size max_size)
      (new_sizer-IsBounded min_size max_size h k)
