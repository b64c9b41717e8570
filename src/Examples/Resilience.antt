-- ===== src/Examples/Resilience.antt =====
-- The theorems on pkg/resilience at concrete breakers and sizers, and runs of them.
use omnibeam_go.Common.{ℕ, ◌≡◌, refl, false, some, List, [], ◌∷◌, arith, if◌then◌else◌, ltb, none}
use omnibeam_go.Common.Int.{ℤ, pos, ◌-ℤ◌, ◌+ℤ◌}
use omnibeam_go.Common.Word.{add64, wrap64}
use omnibeam_go.Resilience.Breaker.{
  closed, opened, Settings, Breaker, fresh_breaker, new_breaker, check_state_transition, begin,
  note_failure, note_success, finish,
}
use omnibeam_go.Resilience.BreakerRuns.{
  Step, begins, fails, passes, step, run, IsValid, run-IsValid,
}
use omnibeam_go.Resilience.Failures.{run_opens_at_max}
use omnibeam_go.Resilience.Retry.{
  BackoffConfig, Attempts, succeeded, op_failed, is_invalid, retry, retry_passes, retry_exhausts,
}
use omnibeam_go.Resilience.Sizer.{min_or_default, new_sizer, record_flush, flushes}
use omnibeam_go.Resilience.SizerBounds.{IsBounded, flushes-IsBounded}

abbrev settings : Settings
settings = record { max_failures = 2; timeout = pos 100; half_open_limit = 1 }

abbrev breaker : Breaker
breaker = record {
  max_failures = 2;
  half_open_limit = 1;
  timeout = pos 100;
  state = closed;
  failures = 0;
  successes = 0;
  last_change = pos 0;
}

made : new_breaker settings (pos 0) ≡ some breaker
unfolding new_breaker fresh_breaker
made = refl

-- A failure and a success.
abbrev steps : List Step
steps = begins (pos 1) ∷ fails (pos 2) ∷ begins (pos 3) ∷ passes (pos 4) ∷ []

run-IsValid_example : IsValid (run breaker steps)
run-IsValid_example = run-IsValid settings (pos 0) breaker steps (omega arith) (omega arith) made

run_opens_at_max_example :
    ((run breaker steps).state ≡ closed)
    × ((step (run breaker steps) (fails (pos 5))).state ≡ opened)
run_opens_at_max_example = run_opens_at_max breaker steps (pos 5) refl (omega arith) (omega arith)

-- Opened at 5, it is tried again after 100, and a success closes it.
closes_again :
    (run breaker (
      fails (pos 2)
      ∷ fails (pos 5)
      ∷ begins (pos 105)
      ∷ begins (pos 106)
      ∷ passes (pos 107)
      ∷ [])).state
    ≡ closed
unfolding run step finish begin note_failure note_success check_state_transition ◌-ℤ◌
closes_again = refl

flushes-IsBounded_example :
    IsBounded
      (flushes (new_sizer (pos 100) (pos 300)) ((false, pos 5) ∷ (false, pos 2000000000) ∷ []))
flushes-IsBounded_example =
    flushes-IsBounded (pos 100) (pos 300) ((false, pos 5) ∷ (false, pos 2000000000) ∷ [])
      (omega arith) (omega arith)

grows_by_a_step : (flushes (new_sizer (pos 100) (pos 300)) ((false, pos 5) ∷ [])).current ≡ pos 150
unfolding flushes new_sizer min_or_default record_flush add64 wrap64 ◌+ℤ◌
grows_by_a_step = refl

-- Every delay is let pass; the first two attempts fail, with their numbers as errors.
abbrev attempts : Attempts ℕ
attempts = record {
  cancelled_before = λ i. false;
  result = λ i. if ltb i 2 then some i else none;
  cancelled_during_delay = λ i. false;
}

abbrev retries : ℤ → BackoffConfig
retries n = record { initial = pos 5; max = pos 50; negative_multiplier = false; max_retries = n }

retry_passes_example : retry attempts (retries (pos 3)) ≡ (succeeded, 3)
retry_passes_example =
    retry_passes attempts (λ i. i) (λ j. (refl, refl)) (retries (pos 3)) 2
      (unfold is_invalid in refl) (omega arith) (λ j h. ground (arith, h)) refl

retry_exhausts_example : retry attempts (retries (pos 1)) ≡ (op_failed 1, 2)
retry_exhausts_example =
    retry_exhausts attempts (λ i. i) (λ j. (refl, refl)) (retries (pos 1))
      (unfold is_invalid in refl) (λ j h. ground (arith, h))
