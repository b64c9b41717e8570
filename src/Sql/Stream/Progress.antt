-- ===== src/Sql/Stream/Progress.antt =====
-- While the errors fit their channel, the two goroutines of a partition never both wait, and
-- `ProcessElement` of internal/beam/partitions/partition_query_sdf.go returns.
use omnibeam_go.Common.{
  ℕ, ◌+◌, ◌*◌, ◌≤◌, ◌<◌, ◌≡◌, refl, ap, subst, ◌∙◌, Bool, true, false, ◌⊎◌, inl, inr, Option, none,
  some, List, [], ◌∷◌, ◌++◌, length, length-append, ltb, lt→ltb, if◌then◌else◌, arith, if_some,
  some_path, none_some,
}
use omnibeam_go.Sql.Stream.{
  Phase, receiving, checking, returned, Stream, channel_room, stream_start, close_channels, send,
  stream_rows, receive, check, consume_in, consume, Step, by_producer, by_consumer, Run, start,
  next,
}
use omnibeam_go.Sql.Stream.Safety.{errors_of, seen, IsFaithful, Run-IsFaithful}

-- What is left to do: two steps for each row, one for each record that waits, the two channels to
-- close, and the phases.
abbrev to_close : Bool → ℕ
to_close true = 0
to_close false = 1

abbrev phases_left : {E : Type 0} → Phase E → ℕ
phases_left receiving = 2
phases_left checking = 1
phases_left (returned o) = 0

left : {R E : Type 0} → Stream R E → ℕ
left σ =
    2 * length σ.script
    + (length σ.records
        + (to_close σ.errors_closed + (to_close σ.records_closed + phases_left σ.phase)))

module _ {R E : Type 0} (σ : Stream R E) where
  close_left :
      (ec rc : Bool) (τ : Stream R E)
      → σ.errors_closed ≡ ec
      → σ.records_closed ≡ rc
      → close_channels σ ec rc ≡ some τ
      → left τ < left σ
  unfolding left
  close_left false rc τ e f k =
      subst (λ τ. left τ < left σ) (some_path k) (omega (arith, ap to_close e))
  close_left true false τ e f k =
      subst (λ τ. left τ < left σ) (some_path k) (omega (arith, ap to_close f))
  close_left true true τ e f k = none_some k

  send_left :
      (s : List (R ⊎ E)) (τ : Stream R E) → σ.script ≡ s → send σ s ≡ some τ → left τ < left σ
  unfolding left
  send_left [] τ e k = close_left σ.errors_closed σ.records_closed τ refl refl k
  send_left (inl r ∷ s) τ e k =
      subst (λ τ. left τ < left σ) (if_some _ _ τ k).1
        (omega (arith, ap length e, length-append σ.records (r ∷ [])))
  send_left (inr x ∷ s) τ e k =
      subst (λ τ. left τ < left σ) (if_some _ _ τ k).1 (omega (arith, ap length e))

  receive_left :
      (rs : List R) (c : Bool) (τ : Stream R E)
      → σ.phase ≡ receiving
      → σ.records ≡ rs
      → receive σ rs c ≡ some τ
      → left τ < left σ
  unfolding left
  receive_left [] false τ p e k = none_some k
  receive_left [] true τ p e k =
      subst (λ τ. left τ < left σ) (some_path k) (omega (arith, ap phases_left p))
  receive_left (r ∷ rs) c τ p e k =
      subst (λ τ. left τ < left σ) (some_path k) (omega (arith, ap length e))

  check_left :
      (es : List E) (c : Bool) (τ : Stream R E)
      → σ.phase ≡ checking
      → check σ es c ≡ some τ
      → left τ < left σ
  unfolding left
  check_left [] false τ p k = none_some k
  check_left [] true τ p k =
      subst (λ τ. left τ < left σ) (some_path k) (omega (arith, ap phases_left p))
  check_left (x ∷ es) c τ p k =
      subst (λ τ. left τ < left σ) (some_path k) (omega (arith, ap phases_left p))

  consume_left :
      (p : Phase E) (τ : Stream R E) → σ.phase ≡ p → consume_in p σ ≡ some τ → left τ < left σ
  consume_left receiving τ p k = receive_left σ.records σ.records_closed τ p refl k
  consume_left checking τ p k = check_left σ.errors σ.errors_closed τ p k
  consume_left (returned o) τ p k = none_some k

  Step-left : (τ : Stream R E) → Step σ τ → left τ < left σ
  unfolding stream_rows consume
  Step-left τ (by_producer k) = send_left σ.script τ refl k
  Step-left τ (by_consumer k) = consume_left σ.phase τ refl k

Run-left : {R E : Type 0} {σ τ : Stream R E} {n : ℕ} → Run σ n τ → n + left τ ≤ left σ
Run-left start = omega arith
Run-left (next {τ = τ} {υ = υ} r st) = omega (arith, Run-left r, Step-left τ υ st)

-- A step that can be taken.
abbrev CanStep : {R E : Type 0} → Stream R E → Type 0
CanStep {R} {E} σ = (τ : Stream R E) × Step σ τ

some_if : {A : Type 0} (b : Bool) (x : A) → b ≡ true → (if b then some x else none) ≡ some x
some_if b x e = rw e refl

close_moves :
    {R E : Type 0} (σ : Stream R E) (ec rc : Bool)
    → rc ≡ false
    → (τ : Stream R E) × (close_channels σ ec rc ≡ some τ)
close_moves σ false rc c = (_, refl)
close_moves σ true false c = (_, refl)
close_moves σ true true c = absurd (ground arith)

module _ {R E : Type 0} (evs : List (R ⊎ E)) (few : length (errors_of evs) ≤ channel_room)
    (σ : Stream R E) (h : IsFaithful evs σ) where
  -- An error that is not sent yet has a place in its channel.
  error_fits : (x : E) (s : List (R ⊎ E)) → σ.script ≡ inr x ∷ s → length σ.errors < channel_room
  error_fits x s e = omega (
    arith,
    few,
    ap length h.errors_kept,
    length-append (seen σ.phase) (σ.errors ++ errors_of σ.script),
    length-append σ.errors (errors_of σ.script),
    ap (λ (s : List (R ⊎ E)). length (errors_of s)) e,
  )

  -- The producer does not wait while the channel of records is empty and open.
  producer_moves :
      (s : List (R ⊎ E))
      → σ.script ≡ s
      → σ.records ≡ []
      → σ.records_closed ≡ false
      → (τ : Stream R E) × (send σ s ≡ some τ)
  producer_moves [] e r c = close_moves σ σ.errors_closed σ.records_closed c
  producer_moves (inl x ∷ s) e r c =
      (_, some_if (ltb (length σ.records) channel_room) _ (rw r refl))
  producer_moves (inr x ∷ s) e r c =
      (_, some_if (ltb (length σ.errors) channel_room) _ (lt→ltb _ _ (error_fits x s e)))

  producer_step : σ.records ≡ [] → σ.records_closed ≡ false → CanStep σ
  unfolding stream_rows
  producer_step r c = let move = producer_moves σ.script refl r c in (move.0, by_producer move.1)

  consumer_step : (p : Phase E) (τ : Stream R E) → σ.phase ≡ p → consume_in p σ ≡ some τ → CanStep σ
  unfolding consume
  consumer_step p τ e k = (τ, by_consumer (ap (λ p. consume_in p σ) e ∙ k))

  receiving_moves :
      (rs : List R) (c : Bool)
      → σ.phase ≡ receiving
      → σ.records ≡ rs
      → σ.records_closed ≡ c
      → CanStep σ
  receiving_moves [] false p r c = producer_step r c
  receiving_moves [] true p r c =
      consumer_step receiving (record σ { phase = checking }) p (rw (r, c) refl)
  receiving_moves (x ∷ rs) c p r e =
      consumer_step receiving (record σ { records = rs; emitted = σ.emitted ++ (x ∷ []) }) p
        (rw r refl)

  checking_moves : (es : List E) → σ.phase ≡ checking → σ.errors ≡ es → CanStep σ
  checking_moves [] p e =
      consumer_step checking (record σ { phase = returned none }) p
        (rw (e, errors_closed_of (rw p at h.consistent).1 h.records_end) refl)
    where
      errors_closed_of :
          σ.records_closed ≡ true
          → (σ.records_closed ≡ false) ⊎ (σ.errors_closed ≡ true)
          → σ.errors_closed ≡ true
      errors_closed_of c o = ground arith
  checking_moves (x ∷ es) p e =
      consumer_step checking (record σ { errors = es; phase = returned (some x) }) p (rw e refl)

  moves : (p : Phase E) → σ.phase ≡ p → ((o : Option E) × (σ.phase ≡ returned o)) ⊎ CanStep σ
  moves receiving e = inr (receiving_moves σ.records σ.records_closed e refl refl)
  moves checking e = inr (checking_moves σ.errors e refl)
  moves (returned o) e = inl (o, e)

-- If the rows give no more errors than their channel has room for, then after any run, which has two
-- steps for each row and four more at most, `ProcessElement` has returned or one of the goroutines can take a step: it
-- returns in every run that goes on.
pub run_progress :
    {R E : Type 0} {n : ℕ} {σ : Stream R E} (evs : List (R ⊎ E))
    → length (errors_of evs) ≤ channel_room
    → Run (stream_start evs) n σ
    → (n ≤ 2 * length evs + 4)
      × (((o : Option E) × (σ.phase ≡ returned o)) ⊎ ((τ : Stream R E) × Step σ τ))
unfolding left
run_progress {σ = σ} evs few r =
    (omega (arith, Run-left r), moves evs few σ (Run-IsFaithful evs r) σ.phase refl)
