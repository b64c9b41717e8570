-- ===== src/BatchBuffer/Runs.antt =====
-- Any sequence of calls of a `BundleBatchBuffer` of internal/beam/core/batch_buffer.go.
use omnibeam_go.Common.{
  ℕ, ◌<◌, ◌≡◌, refl, sym, ◌∙◌, Bool, true, false, List, [], ◌∷◌, ◌++◌, append_assoc, append-nil,
  length, leb, if◌then◌else◌, All, All-append, arith,
}
use omnibeam_go.Common.Int.{ℤ}
use omnibeam_go.BatchBuffer.{
  Buffer, FlushOutcome, Callback, accepts, fails, set_batch_size, flush_items, unless_empty, flush,
  add,
}

-- A call, with whether the callback fails if it is called.
pub data BufferCall {ℓ} (A : Type ℓ) : Type ℓ where
  add_item : A → Bool → BufferCall A
  flush_all : Bool → BufferCall A
  resize : ℤ → BufferCall A

abbrev pub answer : Bool → Callback
answer true = fails
answer false = accepts

abbrev pub concat {ℓ} : {A : Type ℓ} → List (List A) → List A
concat [] = []
concat (xs ∷ xss) = xs ++ concat xss

module _ {ℓ} {A : Type ℓ} where
  unfoldable pub buffer_call : BufferCall A → Buffer A → FlushOutcome A
  buffer_call (add_item x e) b = add b x (answer e)
  buffer_call (flush_all e) b = flush b (answer e)
  buffer_call (resize n) b = record { buffer = set_batch_size b n; taken = []; failed = false }

  -- The items that a call brings.
  abbrev pub brought : BufferCall A → List A
  brought (add_item x e) = x ∷ []
  brought (flush_all e) = []
  brought (resize n) = []

  abbrev pub all_brought : List (BufferCall A) → List A
  all_brought [] = []
  all_brought (c ∷ cs) = brought c ++ all_brought cs

  -- All calls in order, with all batches that were taken.
  unfoldable pub run_calls : List (BufferCall A) → Buffer A → Buffer A × List (List A)
  run_calls [] b = (b, [])
  run_calls (c ∷ cs) b =
      let o = buffer_call c b in let rest = run_calls cs o.buffer in (rest.0, o.taken ++ rest.1)

  -- A batch of items at least one.
  abbrev pub IsFilled : List A → Type 0
  IsFilled xs = 0 < length xs

  concat-append : (xss yss : List (List A)) → concat (xss ++ yss) ≡ concat xss ++ concat yss
  concat-append [] yss = refl
  concat-append (xs ∷ xss) yss =
      rw (concat-append xss yss, append_assoc xs (concat xss) (concat yss))

  -- What a call does not take stays, in order.
  record Keeps (xs : List A) (o : FlushOutcome A) : Type ℓ where
    in_order : concat o.taken ++ o.buffer.items ≡ xs
    filled : All IsFilled o.taken

  items_flushed :
      (n : ℕ) (xs : List A) (e : Bool)
      → Keeps xs (
          unless_empty xs
            (record { buffer = record { batch_size = n; items = xs }; taken = []; failed = false })
            (flush_items (record { batch_size = n; items = xs }) (answer e)))
  unfolding flush_items
  items_flushed n [] e = record { in_order = refl; filled = tt }
  items_flushed n (x ∷ xs) true = record { in_order = refl; filled = tt }
  items_flushed n (x ∷ xs) false = record {
    in_order = append-nil ((x ∷ xs) ++ []) ∙ append-nil (x ∷ xs);
    filled = (omega arith, tt);
  }

  flush-Keeps : (b : Buffer A) (e : Bool) → Keeps b.items (flush b (answer e))
  unfolding flush
  flush-Keeps b e = items_flushed b.batch_size b.items e

  add-Keeps : (b : Buffer A) (x : A) (e : Bool) → Keeps (b.items ++ (x ∷ [])) (add b x (answer e))
  unfolding add
  add-Keeps b x e = by_test (leb b.batch_size (length (b.items ++ (x ∷ []))))
    where
      b' : Buffer A
      b' = record b { items = b.items ++ (x ∷ []) }

      by_test :
          (t : Bool)
          → Keeps (b.items ++ (x ∷ [])) (
              if t then flush b' (answer e) else record { buffer = b'; taken = []; failed = false })
      by_test true = flush-Keeps b' e
      by_test false = record { in_order = refl; filled = tt }

  call-Keeps : (c : BufferCall A) (b : Buffer A) → Keeps (b.items ++ brought c) (buffer_call c b)
  unfolding buffer_call set_batch_size
  call-Keeps (add_item x e) b = add-Keeps b x e
  call-Keeps (flush_all e) b = rw (append-nil b.items) (flush-Keeps b e)
  call-Keeps (resize n) b = rw (append-nil b.items) (record { in_order = refl; filled = tt })

  -- However a buffer is filled, resized and flushed, and whichever flushes fail: the batches that were
  -- taken, none of them empty, with the items that are left are the items that were there and those that were brought, in order.
  pub run_calls-conserved :
      (cs : List (BufferCall A)) (b : Buffer A)
      → (concat (run_calls cs b).1 ++ (run_calls cs b).0.items ≡ b.items ++ all_brought cs)
        × All IsFilled (run_calls cs b).1
  unfolding run_calls
  run_calls-conserved [] b = (sym (append-nil b.items), tt)
  run_calls-conserved (c ∷ cs) b =
      let h = call-Keeps c b in
      let rest = run_calls-conserved cs (buffer_call c b).buffer in
      (
        rw
            (
              concat-append (buffer_call c b).taken (run_calls cs (buffer_call c b).buffer).1,
              append_assoc (concat (buffer_call c b).taken)
                  (concat (run_calls cs (buffer_call c b).buffer).1)
                  (run_calls cs (buffer_call c b).buffer).0.items,
              rest.0,
              sym (
                  append_assoc (concat (buffer_call c b).taken) (buffer_call c b).buffer.items
                    (all_brought cs)),
              h.in_order,
              append_assoc b.items (brought c) (all_brought cs),
            )
            refl,
        All-append IsFilled (buffer_call c b).taken _ h.filled rest.1,
      )
