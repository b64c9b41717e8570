-- ===== src/Resilience/Breaker.antt =====
-- `CircuitBreaker` of pkg/resilience/circuit_breaker.go. `Execute` holds the mutex before and after
-- the operation but not during it, so it is two steps, between which others may happen. A time is in
-- nanoseconds, and `time.Since` is the exact difference.
use omnibeam_go.Common.{
  ℕ, suc, ◌%◌, ◌^◌, Bool, true, false, ◌&&◌, ◌||◌, Option, none, some, ◌==◌, leb, if◌then◌else◌,
}
use omnibeam_go.Common.Int.{ℤ, pos, ◌-ℤ◌, ltb_ℤ, eqb_ℤ}

pub data State : Type 0 where
  closed half_open opened : State

abbrev pub is_open : State → Bool
is_open opened = true
is_open half_open = false
is_open closed = false

abbrev pub is_half_open : State → Bool
is_half_open half_open = true
is_half_open opened = false
is_half_open closed = false

-- The name is left out: it is only read by an error message.
pub record Settings : Type 0 where
  pub max_failures : ℕ
  pub timeout : ℤ
  pub half_open_limit : ℕ

-- The counters are uint32.
pub record Breaker : Type 0 where
  pub max_failures : ℕ
  pub half_open_limit : ℕ
  pub timeout : ℤ
  pub state : State
  pub failures : ℕ
  pub successes : ℕ
  pub last_change : ℤ

abbrev pub or_one : ℕ → ℕ
or_one n = if n == 0 then 1 else n

-- A zero setting stands for one failure, one success or a second.
unfoldable pub fresh_breaker : Settings → ℤ → Breaker
fresh_breaker st now = record {
  max_failures = or_one st.max_failures;
  half_open_limit = or_one st.half_open_limit;
  timeout = if eqb_ℤ st.timeout (pos 0) then pos 1000000000 else st.timeout;
  state = closed;
  failures = 0;
  successes = 0;
  last_change = now;
}

-- `NewCircuitBreaker`: a negative timeout is an error.
unfoldable pub new_breaker : Settings → ℤ → Option Breaker
new_breaker st now = if ltb_ℤ st.timeout (pos 0) then none else some (fresh_breaker st now)

-- `checkStateTransition`
unfoldable pub check_state_transition : ℤ → Breaker → Breaker
check_state_transition now cb =
    if is_open cb.state && ltb_ℤ cb.timeout (now -ℤ cb.last_change)
    then record cb { state = half_open; failures = 0; successes = 0; last_change = now }
    else cb

-- The first step of `Execute`: whether the operation is run, or `ErrCircuitOpen` returned.
unfoldable pub begin : ℤ → Breaker → Breaker × Bool
begin now cb =
    let cb' = check_state_transition now cb in
    if is_open cb'.state then (cb', false) else (cb', true)

abbrev pub next_u32 : ℕ → ℕ
next_u32 n = suc n % 2 ^ 32

-- The last step of `Execute`, after an operation that failed, and after one that did not.
unfoldable pub note_failure : ℤ → Breaker → Breaker
note_failure now cb =
    let failed = next_u32 cb.failures in
    if is_half_open cb.state || leb cb.max_failures failed
    then record cb { failures = failed; state = opened; last_change = now }
    else record cb { failures = failed }

unfoldable pub note_success : ℤ → Breaker → Breaker
note_success now cb =
    let passed = next_u32 cb.successes in
    if is_half_open cb.state
    then (if leb cb.half_open_limit passed
        then record cb { state = closed; failures = 0; successes = 0; last_change = now }
        else record cb { successes = passed })
    else cb

unfoldable pub finish : ℤ → Bool → Breaker → Breaker
finish now failed cb = if failed then note_failure now cb else note_success now cb
