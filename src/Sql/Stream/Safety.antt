-- ===== src/Sql/Stream/Safety.antt =====
-- What `ProcessElement` of internal/beam/partitions/partition_query_sdf.go has emitted when it returns.
use omnibeam_go.Common.{
  ℕ, ◌+◌, ◌≤◌, ◌<◌, ◌≡◌, refl, sym, subst, ◌∙◌, Bool, true, false, ◌⊎◌, inl, inr, Option, none,
  some, List, [], ◌∷◌, ◌++◌, append_assoc, append-nil, length, length-append, ltb, ltb→lt, arith,
  if_some, some_path, none_some,
}
use omnibeam_go.Sql.Stream.{
  Phase, receiving, checking, returned, Stream, channel_room, stream_start, close_channels, send,
  stream_rows, receive, check, consume_in, consume, Step, by_producer, by_consumer, Run, start,
  next,
}

-- The records and the errors that the rows give, in order.
abbrev pub records_of : {R E : Type 0} → List (R ⊎ E) → List R
records_of [] = []
records_of (inl r ∷ s) = r ∷ records_of s
records_of (inr e ∷ s) = records_of s

abbrev pub errors_of : {R E : Type 0} → List (R ⊎ E) → List E
errors_of [] = []
errors_of (inl r ∷ s) = errors_of s
errors_of (inr e ∷ s) = e ∷ errors_of s

abbrev pub first_of : {E : Type 0} → List E → Option E
first_of [] = none
first_of (e ∷ es) = some e

-- The error that was received, if one was.
abbrev pub seen : {E : Type 0} → Phase E → List E
seen receiving = []
seen checking = []
seen (returned none) = []
seen (returned (some e)) = e ∷ []

-- What the phase says of the channel of records, whether it is closed, and the channel of errors.
abbrev pub Consistent : {R E : Type 0} → Phase E → List R → Bool → List E → Type 0
Consistent receiving rs c es = Unit
Consistent checking rs c es = (rs ≡ []) × (c ≡ true)
Consistent (returned none) rs c es = (rs ≡ []) × ((c ≡ true) × (es ≡ []))
Consistent (returned (some e)) rs c es = (rs ≡ []) × (c ≡ true)

-- Nothing is lost on the way, and a channel is closed only behind the last row.
pub record IsFaithful {R E : Type 0} (evs : List (R ⊎ E)) (σ : Stream R E) : Type 0 where
  pub records_kept : σ.emitted ++ (σ.records ++ records_of σ.script) ≡ records_of evs
  pub errors_kept : seen σ.phase ++ (σ.errors ++ errors_of σ.script) ≡ errors_of evs
  pub room : length (seen σ.phase) + length σ.errors ≤ channel_room
  pub errors_end : (σ.errors_closed ≡ false) ⊎ (σ.script ≡ [])
  pub records_end : (σ.records_closed ≡ false) ⊎ (σ.errors_closed ≡ true)
  pub consistent : Consistent σ.phase σ.records σ.records_closed σ.errors

-- While the channel of records is open, the consumer receives.
open_receiving :
    {R E : Type 0} (p : Phase E) (rs : List R) (c : Bool) (es : List E)
    → Consistent p rs c es
    → c ≡ false
    → p ≡ receiving
open_receiving receiving rs c es h e = refl
open_receiving checking rs c es h e = absurd (ground arith)
open_receiving (returned none) rs c es h e = absurd (ground arith)
open_receiving (returned (some x)) rs c es h e = absurd (ground arith)

module _ {R E : Type 0} (evs : List (R ⊎ E)) (σ : Stream R E) (h : IsFaithful evs σ) where
  -- Before the last row both channels are open.
  unsent_open :
      (x : R ⊎ E) (s : List (R ⊎ E))
      → σ.script ≡ x ∷ s
      → (σ.errors_closed ≡ false) × (σ.records_closed ≡ false)
  unsent_open x s e = ground (arith, h.errors_end, h.records_end)

  still_receiving : σ.records_closed ≡ false → σ.phase ≡ receiving
  still_receiving c = open_receiving σ.phase σ.records σ.records_closed σ.errors h.consistent c

  sent_record :
      (r : R) (s : List (R ⊎ E))
      → σ.script ≡ inl r ∷ s
      → IsFaithful evs (record σ { script = s; records = σ.records ++ (r ∷ []) })
  sent_record r s e =
      let opened = unsent_open (inl r) s e in
      record {
        records_kept = rw (append_assoc σ.records (r ∷ []) (records_of s)) (rw e at h.records_kept);
        errors_kept = rw e at h.errors_kept;
        room = h.room;
        errors_end = inl opened.0;
        records_end = inl opened.1;
        consistent = rw (still_receiving opened.1) tt;
      }

  sent_error :
      (x : E) (s : List (R ⊎ E))
      → σ.script ≡ inr x ∷ s
      → length σ.errors < channel_room
      → IsFaithful evs (record σ { script = s; errors = σ.errors ++ (x ∷ []) })
  sent_error x s e lt =
      let opened = unsent_open (inr x) s e in
      record {
        records_kept = rw e at h.records_kept;
        errors_kept = rw (append_assoc σ.errors (x ∷ []) (errors_of s)) (rw e at h.errors_kept);
        room = rw (still_receiving opened.1) (omega (arith, lt, length-append σ.errors (x ∷ [])));
        errors_end = inl opened.0;
        records_end = inl opened.1;
        consistent = rw (still_receiving opened.1) tt;
      }

  errors_close :
      σ.script ≡ [] → σ.errors_closed ≡ false → IsFaithful evs (record σ { errors_closed = true })
  errors_close e c = record {
    records_kept = h.records_kept;
    errors_kept = h.errors_kept;
    room = h.room;
    errors_end = inr e;
    records_end = inr refl;
    consistent = h.consistent;
  }

  records_close :
      σ.errors_closed ≡ true
      → σ.records_closed ≡ false
      → IsFaithful evs (record σ { records_closed = true })
  records_close e c = record {
    records_kept = h.records_kept;
    errors_kept = h.errors_kept;
    room = h.room;
    errors_end = h.errors_end;
    records_end = inr e;
    consistent = rw (still_receiving c) tt;
  }

  record_received :
      (r : R) (rs : List R)
      → σ.phase ≡ receiving
      → σ.records ≡ r ∷ rs
      → IsFaithful evs (record σ { records = rs; emitted = σ.emitted ++ (r ∷ []) })
  record_received r rs p e = record {
    records_kept =
        rw (append_assoc σ.emitted (r ∷ []) (rs ++ records_of σ.script)) (rw e at h.records_kept);
    errors_kept = h.errors_kept;
    room = h.room;
    errors_end = h.errors_end;
    records_end = h.records_end;
    consistent = rw p tt;
  }

  records_received :
      σ.phase ≡ receiving
      → σ.records ≡ []
      → σ.records_closed ≡ true
      → IsFaithful evs (record σ { phase = checking })
  records_received p e c = record {
    records_kept = h.records_kept;
    errors_kept = rw p at h.errors_kept;
    room = rw p at h.room;
    errors_end = h.errors_end;
    records_end = h.records_end;
    consistent = (e, c);
  }

  error_received :
      (x : E) (es : List E)
      → σ.phase ≡ checking
      → σ.errors ≡ x ∷ es
      → IsFaithful evs (record σ { errors = es; phase = returned (some x) })
  error_received x es p e = record {
    records_kept = h.records_kept;
    errors_kept = rw (p, e) at h.errors_kept;
    room = omega (arith, rw (p, e) at h.room);
    errors_end = h.errors_end;
    records_end = h.records_end;
    consistent = rw p at h.consistent;
  }

  no_error_received :
      σ.phase ≡ checking → σ.errors ≡ [] → IsFaithful evs (record σ { phase = returned none })
  no_error_received p e = record {
    records_kept = h.records_kept;
    errors_kept = rw p at h.errors_kept;
    room = rw p at h.room;
    errors_end = h.errors_end;
    records_end = h.records_end;
    consistent = let c = rw p at h.consistent in (c.0, (c.1, e));
  }

  closed-IsFaithful :
      (ec rc : Bool) (τ : Stream R E)
      → σ.script ≡ []
      → σ.errors_closed ≡ ec
      → σ.records_closed ≡ rc
      → close_channels σ ec rc ≡ some τ
      → IsFaithful evs τ
  closed-IsFaithful false rc τ e f g k = subst (IsFaithful evs) (some_path k) (errors_close e f)
  closed-IsFaithful true false τ e f g k = subst (IsFaithful evs) (some_path k) (records_close f g)
  closed-IsFaithful true true τ e f g k = none_some k

  send-IsFaithful :
      (s : List (R ⊎ E)) (τ : Stream R E) → σ.script ≡ s → send σ s ≡ some τ → IsFaithful evs τ
  send-IsFaithful [] τ e k = closed-IsFaithful σ.errors_closed σ.records_closed τ e refl refl k
  send-IsFaithful (inl r ∷ s) τ e k =
      let sent = if_some (ltb (length σ.records) channel_room) _ τ k in
      subst (IsFaithful evs) sent.1 (sent_record r s e)
  send-IsFaithful (inr x ∷ s) τ e k =
      let sent = if_some (ltb (length σ.errors) channel_room) _ τ k in
      subst (IsFaithful evs) sent.1 (sent_error x s e (ltb→lt _ _ sent.0))

  receive-IsFaithful :
      (rs : List R) (c : Bool) (τ : Stream R E)
      → σ.phase ≡ receiving
      → σ.records ≡ rs
      → σ.records_closed ≡ c
      → receive σ rs c ≡ some τ
      → IsFaithful evs τ
  receive-IsFaithful [] false τ p e f k = none_some k
  receive-IsFaithful [] true τ p e f k =
      subst (IsFaithful evs) (some_path k) (records_received p e f)
  receive-IsFaithful (r ∷ rs) c τ p e f k =
      subst (IsFaithful evs) (some_path k) (record_received r rs p e)

  check-IsFaithful :
      (es : List E) (c : Bool) (τ : Stream R E)
      → σ.phase ≡ checking
      → σ.errors ≡ es
      → check σ es c ≡ some τ
      → IsFaithful evs τ
  check-IsFaithful [] false τ p e k = none_some k
  check-IsFaithful [] true τ p e k = subst (IsFaithful evs) (some_path k) (no_error_received p e)
  check-IsFaithful (x ∷ es) c τ p e k =
      subst (IsFaithful evs) (some_path k) (error_received x es p e)

  consume-IsFaithful :
      (p : Phase E) (τ : Stream R E) → σ.phase ≡ p → consume_in p σ ≡ some τ → IsFaithful evs τ
  consume-IsFaithful receiving τ p k = receive-IsFaithful σ.records σ.records_closed τ p refl refl k
  consume-IsFaithful checking τ p k = check-IsFaithful σ.errors σ.errors_closed τ p refl k
  consume-IsFaithful (returned o) τ p k = none_some k

  Step-IsFaithful : (τ : Stream R E) → Step σ τ → IsFaithful evs τ
  unfolding stream_rows consume
  Step-IsFaithful τ (by_producer k) = send-IsFaithful σ.script τ refl k
  Step-IsFaithful τ (by_consumer k) = consume-IsFaithful σ.phase τ refl k

module _ {R E : Type 0} (evs : List (R ⊎ E)) where
  start-IsFaithful : IsFaithful evs (stream_start evs)
  start-IsFaithful = record {
    records_kept = refl;
    errors_kept = refl;
    room = omega arith;
    errors_end = inl refl;
    records_end = inl refl;
    consistent = tt;
  }

  pub Run-IsFaithful : {n : ℕ} {σ : Stream R E} → Run (stream_start evs) n σ → IsFaithful evs σ
  Run-IsFaithful start = start-IsFaithful
  Run-IsFaithful (next r st) = Step-IsFaithful evs _ (Run-IsFaithful r) _ st

  returned_closed :
      (o : Option E) (rs : List R) (c : Bool) (es : List E)
      → Consistent (returned o) rs c es
      → (rs ≡ []) × (c ≡ true)
  returned_closed none rs c es h = (h.0, h.1.0)
  returned_closed (some x) rs c es h = h

  module _ (σ : Stream R E) (h : IsFaithful evs σ) where
    all_sent : σ.records_closed ≡ true → σ.script ≡ []
    all_sent c = ground (arith, h.records_end, h.errors_end)

    returned_all :
        (o : Option E) → σ.phase ≡ returned o → (σ.emitted ≡ records_of evs) × (σ.script ≡ [])
    returned_all o p =
        let c = returned_closed o σ.records σ.records_closed σ.errors (rw p at h.consistent) in
        let e = all_sent c.1 in (sym (append-nil σ.emitted) ∙ (rw (c.0, e) at h.records_kept), e)

    returned_error :
        (o : Option E)
        → σ.phase ≡ returned o
        → (o ≡ first_of (errors_of evs)) × (length (errors_of evs) ≤ channel_room)
    returned_error none p =
        let c = rw p at h.consistent in
        let kept = rw (p, (returned_all none p).1, c.1.1) at h.errors_kept in
        rw (sym kept) (refl, omega arith)
    returned_error (some x) p =
        let kept = rw (p, (returned_all (some x) p).1) at h.errors_kept in
        rw (sym kept, append-nil σ.errors) (refl, omega (arith, rw p at h.room))

  -- When `ProcessElement` has returned, whatever the interleaving: it emitted all records in order, it
  -- returned the first error, if there was any, and there were no more errors than the channel has room for.
  pub run_returns_all :
      {n : ℕ} {σ : Stream R E} (o : Option E)
      → Run (stream_start evs) n σ
      → σ.phase ≡ returned o
      → (σ.emitted ≡ records_of evs)
        × ((o ≡ first_of (errors_of evs)) × (length (errors_of evs) ≤ channel_room))
  run_returns_all {σ = σ} o r p =
      let h = Run-IsFaithful r in ((returned_all σ h o p).0, returned_error σ h o p)
