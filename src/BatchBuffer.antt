-- ===== src/BatchBuffer.antt =====
-- `BundleBatchBuffer` of internal/beam/core/batch_buffer.go: items that are collected and handed to a
-- callback in batches. The room of the slice is not modelled.
pub mod Runs
use omnibeam_go.Common.{
  ℕ, ◌≡◌, Bool, true, false, Option, none, some, List, [], ◌∷◌, ◌++◌, length, leb, if◌then◌else◌,
}
use omnibeam_go.Common.Int.{ℤ, pos, leb_ℤ, ltb_ℤ, pos_part}

pub record Buffer {ℓ} (A : Type ℓ) : Type ℓ where
  pub batch_size : ℕ
  pub items : List A

-- What a call returns, with the batches that the callback took.
pub record FlushOutcome {ℓ} (A : Type ℓ) : Type ℓ where
  pub buffer : Buffer A
  pub taken : List (List A)
  pub failed : Bool

-- `flushFn` is nil, or returns an error or none.
pub data Callback : Type 0 where
  missing accepts fails : Callback

module _ {ℓ} {A : Type ℓ} where
  unfoldable pub new_buffer : ℤ → Buffer A
  new_buffer size = record {
    batch_size = if leb_ℤ size (pos 0) then 100 else pos_part size;
    items = [];
  }

  unfoldable pub set_batch_size : Buffer A → ℤ → Buffer A
  set_batch_size b size = record b {
    batch_size = if ltb_ℤ (pos 0) size then pos_part size else b.batch_size;
  }

  unfoldable pub reset_buffer : Buffer A → ℤ → Buffer A
  unfolding set_batch_size
  reset_buffer b size = record (set_batch_size b size) { items = [] }

  -- Behind the test for an empty buffer.
  unfoldable pub flush_items : Buffer A → Callback → FlushOutcome A
  flush_items b missing = record { buffer = record b { items = [] }; taken = []; failed = false }
  flush_items b accepts = record {
    buffer = record b { items = [] };
    taken = b.items ∷ [];
    failed = false;
  }
  flush_items b fails = record { buffer = b; taken = []; failed = true }

  abbrev pub unless_empty : List A → FlushOutcome A → FlushOutcome A → FlushOutcome A
  unless_empty [] o p = o
  unless_empty (x ∷ xs) o p = p

  unfoldable pub flush : Buffer A → Callback → FlushOutcome A
  flush b f =
      unless_empty b.items (record { buffer = b; taken = []; failed = false }) (flush_items b f)

  unfoldable pub add : Buffer A → A → Callback → FlushOutcome A
  add b x f =
      let b' = record b { items = b.items ++ (x ∷ []) } in
      let flushed = flush b' f in
      if leb b.batch_size (length (b.items ++ (x ∷ [])))
      then flushed
      else record { buffer = b'; taken = []; failed = false }
