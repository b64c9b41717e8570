-- ===== src/Resilience/Retry.antt =====
-- `Retry` of pkg/resilience/backoff.go. The delays are random and left out; what the operation
-- returns, and whether the context is cancelled before an attempt or during the delay behind it, is
-- given for each attempt.
use omnibeam_go.Common.{
  ℕ, zero, suc, ◌+◌, ◌≤◌, ◌<◌, ◌≡◌, refl, ap, ◌∙◌, Bool, true, false, ◌||◌, Option, none, some,
  arith, if◌then◌else◌,
}
use omnibeam_go.Common.Int.{ℤ, pos, pos_part, ltb_ℤ}

-- The multiplier is a float64, of which `Retry` asks the sign.
pub record BackoffConfig : Type 0 where
  pub initial : ℤ
  pub max : ℤ
  pub negative_multiplier : Bool
  pub max_retries : ℤ

unfoldable pub is_invalid : BackoffConfig → Bool
is_invalid b =
    ltb_ℤ b.initial (pos 0)
    || (ltb_ℤ b.max (pos 0) || (b.negative_multiplier || ltb_ℤ b.max_retries (pos 0)))

pub data Outcome (E : Type 0) : Type 0 where
  succeeded : Outcome E
  op_failed : E → Outcome E
  cancelled invalid_config : Outcome E

pub record Attempts (E : Type 0) : Type 0 where
  pub cancelled_before : ℕ → Bool
  pub result : ℕ → Option E
  pub cancelled_during_delay : ℕ → Bool

module _ {E : Type 0} (𝓐 : Attempts E) where
  -- What an attempt comes to, given what the later ones would: the outcome and the calls of the operation.
  unfoldable pub attempt : Bool → Option E → Bool → Outcome E × ℕ → Outcome E × ℕ
  attempt true o delay later = (cancelled, 0)
  attempt false none delay later = (succeeded, 1)
  attempt false (some e) true later = (cancelled, 1)
  attempt false (some e) false later = (later.0, suc later.1)

  -- The last attempt has no delay behind it.
  unfoldable pub last_attempt : Bool → Option E → Outcome E × ℕ
  last_attempt true o = (cancelled, 0)
  last_attempt false none = (succeeded, 1)
  last_attempt false (some e) = (op_failed e, 1)

  -- The loop from an attempt on, with the retries that are left behind it.
  unfoldable pub retry_from : ℕ → ℕ → Outcome E × ℕ
  retry_from zero i = last_attempt (𝓐.cancelled_before i) (𝓐.result i)
  retry_from (suc left) i =
      attempt (𝓐.cancelled_before i) (𝓐.result i) (𝓐.cancelled_during_delay i)
        (retry_from left (suc i))

  unfoldable pub retry : BackoffConfig → Outcome E × ℕ
  retry cfg =
      if is_invalid cfg then (invalid_config, 0) else retry_from (pos_part cfg.max_retries) 0

-- Attempts that nothing cancels, and the errors of those that fail.
module _ {E : Type 0} (𝓐 : Attempts E) (errors : ℕ → E)
    (calm : (j : ℕ) → (𝓐.cancelled_before j ≡ false) × (𝓐.cancelled_during_delay j ≡ false)) where
  now_passes : (left i : ℕ) → 𝓐.result i ≡ none → retry_from 𝓐 left i ≡ (succeeded, 1)
  unfolding retry_from attempt last_attempt
  now_passes zero i e = rw ((calm i).0, e) refl
  now_passes (suc left) i e = rw ((calm i).0, e) refl

  goes_on :
      (left i : ℕ)
      → 𝓐.result i ≡ some (errors i)
      → retry_from 𝓐 (suc left) i
        ≡ ((retry_from 𝓐 left (suc i)).0, suc (retry_from 𝓐 left (suc i)).1)
  unfolding retry_from attempt
  goes_on left i e = rw ((calm i).0, e, (calm i).1) refl

  gives_up :
      (i : ℕ) → 𝓐.result i ≡ some (errors i) → retry_from 𝓐 zero i ≡ (op_failed (errors i), 1)
  unfolding retry_from last_attempt
  gives_up i e = rw ((calm i).0, e) refl

  passes_at :
      (left i d : ℕ)
      → d ≤ left
      → ((j : ℕ) → i ≤ j → j < i + d → 𝓐.result j ≡ some (errors j))
      → 𝓐.result (i + d) ≡ none
      → retry_from 𝓐 left i ≡ (succeeded, suc d)
  passes_at left i zero h before last = now_passes left i (ap 𝓐.result {x = i} (omega arith) ∙ last)
  passes_at zero i (suc d) h before last = absurd (omega (arith, h))
  passes_at (suc left) i (suc d) h before last =
      goes_on left i (before i (omega arith) (omega arith))
      ∙ ap (λ x. (x.0, suc x.1))
          (passes_at left (suc i) d (omega (arith, h))
            (λ j a b. before j (omega (arith, a)) (omega (arith, b)))
            (ap 𝓐.result (omega arith) ∙ last))

  failed_at :
      (a b n : ℕ)
      → a ≡ b
      → ◌≡◌ {A = Outcome E × ℕ} (op_failed (errors a), n) (op_failed (errors b), n)
  failed_at a b n e = ap (λ x. (op_failed (errors x), n)) e

  fails_at :
      (left i : ℕ)
      → ((j : ℕ) → i ≤ j → j ≤ i + left → 𝓐.result j ≡ some (errors j))
      → retry_from 𝓐 left i ≡ (op_failed (errors (i + left)), suc left)
  fails_at zero i before =
      gives_up i (before i (omega arith) (omega arith)) ∙ failed_at i (i + 0) 1 (omega arith)
  fails_at (suc left) i before =
      goes_on left i (before i (omega arith) (omega arith))
      ∙ ap (λ x. (x.0, suc x.1))
          (fails_at left (suc i) (λ j a b. before j (omega (arith, a)) (omega (arith, b))))
      ∙ failed_at (suc i + left) (i + suc left) (suc (suc left)) (omega arith)

  -- While nothing cancels the context, `Retry` with a valid configuration returns no error after the
  -- first attempt that passes, if that is within the retries, and calls the operation no more.
  pub retry_passes :
      (cfg : BackoffConfig) (d : ℕ)
      → is_invalid cfg ≡ false
      → d ≤ pos_part cfg.max_retries
      → ((j : ℕ) → j < d → 𝓐.result j ≡ some (errors j))
      → 𝓐.result d ≡ none
      → retry 𝓐 cfg ≡ (succeeded, suc d)
  unfolding retry
  retry_passes cfg d v h before last = rw v (
      passes_at (pos_part cfg.max_retries) 0 d h (λ j a b. before j (omega (arith, b)))
        (ap 𝓐.result (omega arith) ∙ last))

  -- If every attempt within the retries fails, it returns the error of the last, after one call more
  -- than there are retries.
  pub retry_exhausts :
      (cfg : BackoffConfig)
      → is_invalid cfg ≡ false
      → ((j : ℕ) → j ≤ pos_part cfg.max_retries → 𝓐.result j ≡ some (errors j))
      → retry 𝓐 cfg
        ≡ (op_failed (errors (pos_part cfg.max_retries)), suc (pos_part cfg.max_retries))
  unfolding retry
  retry_exhausts cfg v before = rw v (
      fails_at (pos_part cfg.max_retries) 0 (λ j a b. before j (omega (arith, b)))
      ∙ failed_at (0 + pos_part cfg.max_retries) (pos_part cfg.max_retries)
          (suc (pos_part cfg.max_retries)) (omega arith))
