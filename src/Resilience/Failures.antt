-- ===== src/Resilience/Failures.antt =====
-- How many failures open the breaker of pkg/resilience/circuit_breaker.go.
use omnibeam_go.Common.{
  ℕ, suc, ◌+◌, ◌^◌, ◌<◌, ◌≡◌, refl, Bool, true, false, ◌||◌, List, [], ◌∷◌, leb, arith,
}
use omnibeam_go.Common.Int.{ℤ}
use omnibeam_go.Resilience.Breaker.{
  State, closed, opened, is_open, is_half_open, Breaker, check_state_transition, next_u32,
  note_failure, note_success, finish,
}
use omnibeam_go.Resilience.BreakerRuns.{Step, begins, fails, passes, step, run, begin-check}

-- The failures among the steps.
abbrev pub count_fails : List Step → ℕ
count_fails [] = 0
count_fails (begins now ∷ steps) = count_fails steps
count_fails (fails now ∷ steps) = suc (count_fails steps)
count_fails (passes now ∷ steps) = count_fails steps

-- A closed breaker with `n` failures that opens at `m`.
record IsClosed (m n : ℕ) (cb : Breaker) : Type 0 where
  shut : cb.state ≡ closed
  max : cb.max_failures ≡ m
  count : cb.failures ≡ n

not_open : (s : State) → s ≡ closed → is_open s ≡ false
not_open s e = ground (arith, e)

not_half_open : (s : State) → s ≡ closed → is_half_open s ≡ false
not_half_open s e = ground (arith, e)

begins-IsClosed :
    (m n : ℕ) (now : ℤ) (cb : Breaker) → IsClosed m n cb → IsClosed m n (step cb (begins now))
unfolding step check_state_transition
begins-IsClosed m n now cb c = rw (begin-check now cb) (rw (not_open cb.state c.shut) c)

passes-IsClosed :
    (m n : ℕ) (now : ℤ) (cb : Breaker) → IsClosed m n cb → IsClosed m n (step cb (passes now))
unfolding step finish note_success
passes-IsClosed m n now cb c = rw (not_half_open cb.state c.shut) c

-- Whether a failure opens the breaker.
abbrev opens : Breaker → Bool
opens cb = is_half_open cb.state || leb cb.max_failures (next_u32 cb.failures)

not_opens : (m n : ℕ) (cb : Breaker) → suc n < m → m < 2 ^ 32 → IsClosed m n cb → opens cb ≡ false
not_opens m n cb h k c = ground (arith, not_half_open cb.state c.shut, c.max, c.count, h, k)

opens_at : (m n : ℕ) (cb : Breaker) → suc n ≡ m → m < 2 ^ 32 → IsClosed m n cb → opens cb ≡ true
opens_at m n cb h k c = ground (arith, not_half_open cb.state c.shut, c.max, c.count, h, k)

fails-IsClosed :
    (m n : ℕ) (now : ℤ) (cb : Breaker)
    → suc n < m
    → m < 2 ^ 32
    → IsClosed m n cb
    → IsClosed m (suc n) (step cb (fails now))
unfolding step finish note_failure
fails-IsClosed m n now cb h k c =
    rw (not_opens m n cb h k c)
      record { shut = c.shut; max = c.max; count = omega (arith, c.count, h, k) }

fails-opens :
    (m n : ℕ) (now : ℤ) (cb : Breaker)
    → suc n ≡ m
    → m < 2 ^ 32
    → IsClosed m n cb
    → (step cb (fails now)).state ≡ opened
unfolding step finish note_failure
fails-opens m n now cb h k c = rw (opens_at m n cb h k c) refl

run-IsClosed :
    (steps : List Step) (m n : ℕ) (cb : Breaker)
    → n + count_fails steps < m
    → m < 2 ^ 32
    → IsClosed m n cb
    → IsClosed m (n + count_fails steps) (run cb steps)
unfolding run
run-IsClosed [] m n cb h k c = record { shut = c.shut; max = c.max; count = omega (arith, c.count) }
run-IsClosed (begins now ∷ steps) m n cb h k c =
    run-IsClosed steps m n (step cb (begins now)) h k (begins-IsClosed m n now cb c)
run-IsClosed (passes now ∷ steps) m n cb h k c =
    run-IsClosed steps m n (step cb (passes now)) h k (passes-IsClosed m n now cb c)
run-IsClosed (fails now ∷ steps) m n cb h k c =
    let d =
      run-IsClosed steps m (suc n) (step cb (fails now)) (omega (arith, h)) k
        (fails-IsClosed m n now cb (omega (arith, h)) k c) in
    record { shut = d.shut; max = d.max; count = omega (arith, d.count) }

-- A closed breaker opens exactly at the failure that makes its count the maximum, however many
-- successes lie between the failures: before it the breaker is closed.
pub run_opens_at_max :
    (cb : Breaker) (steps : List Step) (now : ℤ)
    → cb.state ≡ closed
    → cb.max_failures < 2 ^ 32
    → suc (cb.failures + count_fails steps) ≡ cb.max_failures
    → ((run cb steps).state ≡ closed) × ((step (run cb steps) (fails now)).state ≡ opened)
run_opens_at_max cb steps now s k h =
    let c =
      run-IsClosed steps cb.max_failures cb.failures cb (omega (arith, h)) k
        record { shut = s; max = refl; count = refl } in
    (c.shut, fails-opens cb.max_failures (cb.failures + count_fails steps) now (run cb steps) h k c)
