-- ===== src/Resilience/BreakerRuns.antt =====
-- Runs of the breaker of pkg/resilience/circuit_breaker.go: the steps of any number of calls of
-- `Execute`, in the order in which the mutex admits them.
use omnibeam_go.Common.{
  ℕ, ◌^◌, ◌<◌, ◌≡◌, refl, ap, subst, Bool, true, false, ◌&&◌, ◌||◌, Option, none, some, List, [],
  ◌∷◌, leb, if◌then◌else◌, arith,
}
use omnibeam_go.Common.Int.{ℤ, pos, ◌-ℤ◌, ltb_ℤ}
use omnibeam_go.Resilience.Breaker.{
  State, closed, half_open, opened, is_open, is_half_open, Settings, Breaker, fresh_breaker,
  new_breaker, check_state_transition, begin, next_u32, note_failure, note_success, finish,
}

-- A step with the time at which it happens: a call begins or the state is asked for, or the operation
-- of a call that began has failed or passed.
pub data Step : Type 0 where
  begins : ℤ → Step
  fails passes : ℤ → Step

unfoldable pub step : Breaker → Step → Breaker
step cb (begins now) = (begin now cb).0
step cb (fails now) = finish now true cb
step cb (passes now) = finish now false cb

unfoldable pub run : Breaker → List Step → Breaker
run cb [] = cb
run cb (s ∷ steps) = run (step cb s) steps

-- What a state has room for: a closed breaker has failures left before it opens, a half-open one
-- successes before it closes.
abbrev pub HasRoom : State → Breaker → Type 0
HasRoom closed cb = cb.failures < cb.max_failures
HasRoom half_open cb = cb.successes < cb.half_open_limit
HasRoom opened cb = Unit

pub record IsValid (cb : Breaker) : Type 0 where
  pub some_failure : 0 < cb.max_failures
  pub some_success : 0 < cb.half_open_limit
  pub max_fits : cb.max_failures < 2 ^ 32
  pub limit_fits : cb.half_open_limit < 2 ^ 32
  pub room : HasRoom cb.state cb

created :
    (b : Bool) (x y : Breaker)
    → (if◌then◌else◌ {A = Option Breaker} b none (some x)) ≡ some y
    → x ≡ y
created true x y e = absurd (ground arith)
created false x y e = ap (λ (o : Option Breaker). elim o [ none ↦ x | some z ↦ z ]) e

fresh-IsValid :
    (st : Settings) (now : ℤ)
    → st.max_failures < 2 ^ 32
    → st.half_open_limit < 2 ^ 32
    → IsValid (fresh_breaker st now)
unfolding fresh_breaker
fresh-IsValid st now h k = record {
  some_failure = ground arith;
  some_success = ground arith;
  max_fits = ground (arith, h);
  limit_fits = ground (arith, k);
  room = ground arith;
}

check-IsValid : (now : ℤ) (cb : Breaker) → IsValid cb → IsValid (check_state_transition now cb)
unfolding check_state_transition
check-IsValid now cb v = by_test (is_open cb.state && ltb_ℤ cb.timeout (now -ℤ cb.last_change))
  where
    by_test :
        (b : Bool)
        → IsValid (
            if b
            then record cb { state = half_open; failures = 0; successes = 0; last_change = now }
            else cb)
    by_test true = record {
      some_failure = v.some_failure;
      some_success = v.some_success;
      max_fits = v.max_fits;
      limit_fits = v.limit_fits;
      room = v.some_success;
    }
    by_test false = v

pub begin-check : (now : ℤ) (cb : Breaker) → (begin now cb).0 ≡ check_state_transition now cb
unfolding begin
begin-check now cb = by_test (is_open (check_state_transition now cb).state)
  where
    by_test :
        (b : Bool)
        → (if◌then◌else◌ {A = Breaker × Bool} b
            (check_state_transition now cb, false)
            (check_state_transition now cb, true)).0
          ≡ check_state_transition now cb
    by_test true = refl
    by_test false = refl

room_for_failures :
    (s : State) (cb : Breaker) (n : ℕ)
    → leb cb.max_failures n ≡ false
    → HasRoom s cb
    → HasRoom s (record cb { failures = n })
room_for_failures closed cb n h r = ground (arith, h)
room_for_failures half_open cb n h r = r
room_for_failures opened cb n h r = tt

room_for_successes :
    (s : State) (cb : Breaker) (n : ℕ)
    → is_half_open s ≡ true
    → leb cb.half_open_limit n ≡ false
    → HasRoom s (record cb { successes = n })
room_for_successes closed cb n h k = absurd (ground arith)
room_for_successes half_open cb n h k = ground (arith, k)
room_for_successes opened cb n h k = tt

note_failure-IsValid : (now : ℤ) (cb : Breaker) → IsValid cb → IsValid (note_failure now cb)
unfolding note_failure
note_failure-IsValid now cb v = by_test (is_half_open cb.state || leb cb.max_failures failed) refl
  where
    failed : ℕ
    failed = next_u32 cb.failures

    by_test :
        (b : Bool)
        → is_half_open cb.state || leb cb.max_failures failed ≡ b
        → IsValid (
            if b
            then record cb { failures = failed; state = opened; last_change = now }
            else record cb { failures = failed })
    by_test true e = record {
      some_failure = v.some_failure;
      some_success = v.some_success;
      max_fits = v.max_fits;
      limit_fits = v.limit_fits;
      room = tt;
    }
    by_test false e = record {
      some_failure = v.some_failure;
      some_success = v.some_success;
      max_fits = v.max_fits;
      limit_fits = v.limit_fits;
      room = room_for_failures cb.state cb failed (ground (arith, e)) v.room;
    }

note_success-IsValid : (now : ℤ) (cb : Breaker) → IsValid cb → IsValid (note_success now cb)
unfolding note_success
note_success-IsValid now cb v =
    by_state (is_half_open cb.state) (leb cb.half_open_limit passed) refl refl
  where
    passed : ℕ
    passed = next_u32 cb.successes

    by_state :
        (b c : Bool)
        → is_half_open cb.state ≡ b
        → leb cb.half_open_limit passed ≡ c
        → IsValid (
            if b
            then (if c
                then record cb { state = closed; failures = 0; successes = 0; last_change = now }
                else record cb { successes = passed })
            else cb)
    by_state true true e k = record {
      some_failure = v.some_failure;
      some_success = v.some_success;
      max_fits = v.max_fits;
      limit_fits = v.limit_fits;
      room = v.some_failure;
    }
    by_state true false e k = record {
      some_failure = v.some_failure;
      some_success = v.some_success;
      max_fits = v.max_fits;
      limit_fits = v.limit_fits;
      room = room_for_successes cb.state cb passed e k;
    }
    by_state false c e k = v

step-IsValid : (cb : Breaker) (s : Step) → IsValid cb → IsValid (step cb s)
unfolding step finish
step-IsValid cb (begins now) v = rw (begin-check now cb) (check-IsValid now cb v)
step-IsValid cb (fails now) v = note_failure-IsValid now cb v
step-IsValid cb (passes now) v = note_success-IsValid now cb v

run_from-IsValid : (steps : List Step) (cb : Breaker) → IsValid cb → IsValid (run cb steps)
unfolding run
run_from-IsValid [] cb v = v
run_from-IsValid (s ∷ steps) cb v = run_from-IsValid steps (step cb s) (step-IsValid cb s v)

-- A breaker that was made from uint32 settings, after any interleaving of the steps of any calls: a
-- closed one has fewer failures than its maximum, a half-open one fewer successes than its limit.
pub run-IsValid :
    (st : Settings) (now : ℤ) (cb : Breaker) (steps : List Step)
    → st.max_failures < 2 ^ 32
    → st.half_open_limit < 2 ^ 32
    → new_breaker st now ≡ some cb
    → IsValid (run cb steps)
unfolding new_breaker
run-IsValid st now cb steps h k e = run_from-IsValid steps cb (
    subst IsValid (created (ltb_ℤ st.timeout (pos 0)) (fresh_breaker st now) cb e)
      (fresh-IsValid st now h k))
