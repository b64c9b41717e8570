-- ===== src/Sql/Stream.antt =====
-- A partition is read by two goroutines: `streamRows` of
-- internal/adapters/partitions/sql/generic_sql_source.go sends records and errors into two channels,
-- `ProcessElement` of internal/beam/partitions/partition_query_sdf.go empties the one and then the other.
pub mod Safety
pub mod Progress
use omnibeam_go.Common.{
  ℕ, suc, ◌+◌, ◌≡◌, Bool, true, false, ◌⊎◌, inl, inr, Option, none, some, List, [], ◌∷◌, ◌++◌,
  length, ltb, if◌then◌else◌,
}

-- What the consumer does: it receives records, then errors, or has returned an error or none.
pub data Phase (E : Type 0) : Type 0 where
  receiving checking : Phase E
  returned : Option E → Phase E

-- What is left to send, the closed channels, the contents of the channels, and what was emitted.
pub record Stream (R E : Type 0) : Type 0 where
  pub script : List (R ⊎ E)
  pub errors_closed : Bool
  pub records_closed : Bool
  pub records : List R
  pub errors : List E
  pub emitted : List R
  pub phase : Phase E

-- Both channels are made with this room.
abbrev pub channel_room : ℕ
channel_room = 100

module _ {R E : Type 0} where
  abbrev pub stream_start : List (R ⊎ E) → Stream R E
  stream_start evs = record {
    script = evs;
    errors_closed = false;
    records_closed = false;
    records = [];
    errors = [];
    emitted = [];
    phase = receiving;
  }

  -- The deferred calls, the last one first.
  abbrev pub close_channels : Stream R E → Bool → Bool → Option (Stream R E)
  close_channels σ false rc = some (record σ { errors_closed = true })
  close_channels σ true false = some (record σ { records_closed = true })
  close_channels σ true true = none

  -- A send waits while the channel is full.
  abbrev pub send : Stream R E → List (R ⊎ E) → Option (Stream R E)
  send σ [] = close_channels σ σ.errors_closed σ.records_closed
  send σ (inl r ∷ s) =
      if ltb (length σ.records) channel_room
      then some (record σ { script = s; records = σ.records ++ (r ∷ []) })
      else none
  send σ (inr e ∷ s) =
      if ltb (length σ.errors) channel_room
      then some (record σ { script = s; errors = σ.errors ++ (e ∷ []) })
      else none

  -- The next step of `streamRows`, or none where it waits or has ended.
  unfoldable pub stream_rows : Stream R E → Option (Stream R E)
  stream_rows σ = send σ σ.script

  -- A receive waits while the channel is empty and open.
  abbrev pub receive : Stream R E → List R → Bool → Option (Stream R E)
  receive σ [] false = none
  receive σ [] true = some (record σ { phase = checking })
  receive σ (r ∷ rs) c = some (record σ { records = rs; emitted = σ.emitted ++ (r ∷ []) })

  abbrev pub check : Stream R E → List E → Bool → Option (Stream R E)
  check σ [] false = none
  check σ [] true = some (record σ { phase = returned none })
  check σ (e ∷ es) c = some (record σ { errors = es; phase = returned (some e) })

  abbrev pub consume_in : Phase E → Stream R E → Option (Stream R E)
  consume_in receiving σ = receive σ σ.records σ.records_closed
  consume_in checking σ = check σ σ.errors σ.errors_closed
  consume_in (returned o) σ = none

  -- The next step of `ProcessElement`, or none where it waits or has returned.
  unfoldable pub consume : Stream R E → Option (Stream R E)
  consume σ = consume_in σ.phase σ

-- Either goroutine may take the next step.
pub data Step {R E : Type 0} (σ τ : Stream R E) : Type 0 where
  by_producer : stream_rows σ ≡ some τ → Step σ τ
  by_consumer : consume σ ≡ some τ → Step σ τ

-- A run of so many steps.
pub data Run {R E : Type 0} (σ : Stream R E) : ℕ → Stream R E → Type 0 where
  start : Run σ 0 σ
  next : {n : ℕ} {τ υ : Stream R E} → Run σ n τ → Step τ υ → Run σ (suc n) υ
