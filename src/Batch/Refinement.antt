-- ===== src/Batch/Refinement.antt =====
-- The operations of `RecordBatch` of internal/domain/record_batch.go implement a list of rows.
use omnibeam_go.Common.{
  ℕ, suc, ◌≤◌, ◌≡◌, refl, ap, Bool, true, false, List, [], ◌∷◌, ◌++◌, Option, some, length, leb,
  ltb, le→leb, ◌+◌, arith, if◌then◌else◌, sym,
}
use omnibeam_go.Common.Int.{ℤ, pos, negsuc, leb_ℤ, pos_part}
use omnibeam_go.Common.Bits.Bitmap.{update_at, update_at_beyond}
use omnibeam_go.Record.{GenericRecord}
use omnibeam_go.Validate.Plan.{Field}
use omnibeam_go.Batch.{
  Batch, schema_fields, words, capacity_of, new_batch, append_row, in_rows, set_row_valid,
  valid_row_count, reset, iterate, iterator,
}
use omnibeam_go.Batch.Columns.{new_column-schema_fields}
use omnibeam_go.Batch.Rows.{
  Row, rows, valid_rows, length-span, valid_row_count-rows, iterate-rows, row_at,
}
use omnibeam_go.Batch.Operations.{
  IsBatch, kept_record, grown, grown-IsBatch, grown-rows, grown-schema_fields, grown-capacity,
  marked, marked-IsBatch, marked-rows, reset-IsBatch, reset-schema_fields, reset-capacity,
  reset-rows, new_batch-IsBatch,
}

-- The specification: a list of rows, each with its flag.
pub data Call : Type 0 where
  append : Option GenericRecord → Call
  set_valid : ℤ → Bool → Call
  clear : Call

unfoldable pub call : Call → Batch → Batch × Bool
call (append r) b = append_row b r
call (set_valid i v) b = (set_row_valid b i v, false)
call clear b = (reset b, false)

-- A row is added at the end as a valid one, while there is room.
unfoldable pub specified : List Field → ℕ → Call → List Row → List Row × Bool
specified fs n (append r) rs =
    if leb n (length rs) then (rs, true) else (rs ++ ((kept_record fs r, true) ∷ []), false)
specified fs n (set_valid i v) rs =
    (if leb_ℤ (pos 0) i then update_at (λ r. (r.0, v)) rs (pos_part i) else rs, false)
specified fs n clear rs = ([], false)

-- A call on `b` gives the rows and the error that are specified, and a batch of the same shape.
record Agrees (b : Batch) (p : Batch × Bool) (q : List Row × Bool) : Type 0 where
  valid : IsBatch p.0
  same_fields : schema_fields p.0 ≡ schema_fields b
  same_capacity : p.0.capacity ≡ b.capacity
  same_rows : rows p.0 ≡ q.0
  same_error : p.1 ≡ q.1

length-rows : (b : Batch) → length (rows b) ≡ b.row_count
unfolding rows
length-rows b = length-span (row_at b) 0 b.row_count

module _ (b : Batch) (h : IsBatch b) where
  unchanged : (e : Bool) → Agrees b (b, e) (rows b, e)
  unchanged e = record {
    valid = h;
    same_fields = refl;
    same_capacity = refl;
    same_rows = refl;
    same_error = refl;
  }

  append-Agrees :
      (r : Option GenericRecord)
      → Agrees b (append_row b r) (specified (schema_fields b) b.capacity (append r) (rows b))
  unfolding append_row specified grown
  append-Agrees r = rw (length-rows b) (by_test (leb b.capacity b.row_count) refl)
    where
      by_test :
          (t : Bool)
          → leb b.capacity b.row_count ≡ t
          → Agrees b (if t then (b, true) else (grown b r, false)) (
              if t
              then (rows b, true)
              else (rows b ++ ((kept_record (schema_fields b) r, true) ∷ []), false))
      by_test true e = unchanged true
      by_test false e = record {
        valid = grown-IsBatch b h r (ground arith);
        same_fields = grown-schema_fields b r;
        same_capacity = grown-capacity b r;
        same_rows = grown-rows b h r (ground arith);
        same_error = refl;
      }

  beyond : (v : Bool) (j : ℕ) → b.row_count ≤ j → rows b ≡ update_at (λ r. (r.0, v)) (rows b) j
  beyond v j le =
      sym (update_at_beyond (λ (r : Row). (r.0, v)) (rows b) j (omega (arith, length-rows b)))

  set_valid-Agrees :
      (i : ℤ) (v : Bool)
      → Agrees b
          (set_row_valid b i v, false)
          (specified (schema_fields b) b.capacity (set_valid i v) (rows b))
  unfolding set_row_valid in_rows specified marked
  set_valid-Agrees (negsuc k) v = rw (not_le k) (unchanged false)
    where
      not_le : (k : ℕ) → leb (0 + suc k) (0 + 0) ≡ false
      not_le k = ground arith
  set_valid-Agrees (pos j) v =
      rw (le→leb (0 + 0) (j + 0) (omega arith)) (by_test (ltb (j + 0) (b.row_count + 0)) refl)
    where
      by_test :
          (t : Bool)
          → ltb (j + 0) (b.row_count + 0) ≡ t
          → Agrees b
              (if t then marked b j v else b, false)
              (update_at (λ r. (r.0, v)) (rows b) j, false)
      by_test true e = record {
        valid = marked-IsBatch b h j (ground arith) v;
        same_fields = refl;
        same_capacity = refl;
        same_rows = marked-rows b h j (ground arith) v;
        same_error = refl;
      }
      by_test false e = rw (sym (beyond v j (ground arith))) (unchanged false)

  clear-Agrees : Agrees b (reset b, false) ([], false)
  clear-Agrees = record {
    valid = reset-IsBatch b h;
    same_fields = reset-schema_fields b;
    same_capacity = reset-capacity b;
    same_rows = reset-rows b;
    same_error = refl;
  }

  call-Agrees : (c : Call) → Agrees b (call c b) (specified (schema_fields b) b.capacity c (rows b))
  unfolding call specified
  call-Agrees (append r) = append-Agrees r
  call-Agrees (set_valid i v) = set_valid-Agrees i v
  call-Agrees clear = clear-Agrees

-- Any calls, with the errors that they return.
unfoldable pub run : List Call → Batch → Batch × List Bool
run [] b = (b, [])
run (c ∷ cs) b = let p = call c b in let q = run cs p.0 in (q.0, p.1 ∷ q.1)

unfoldable pub run_specified : List Field → ℕ → List Call → List Row → List Row × List Bool
run_specified fs n [] rs = (rs, [])
run_specified fs n (c ∷ cs) rs =
    let p = specified fs n c rs in let q = run_specified fs n cs p.0 in (q.0, p.1 ∷ q.1)

run-rows :
    (cs : List Call) (b : Batch)
    → IsBatch b
    → IsBatch (run cs b).0
      × ((rows (run cs b).0, (run cs b).1) ≡ run_specified (schema_fields b) b.capacity cs (rows b))
unfolding run run_specified
run-rows [] b h = (h, refl)
run-rows (c ∷ cs) b h =
    let a = call-Agrees b h c in
    let rest = run-rows cs (call c b).0 a.valid in
    (
      rest.0,
      rw a.same_error (
          ap (λ q. (q.0, (specified (schema_fields b) b.capacity c (rows b)).1 ∷ q.1))
            (rw (a.same_fields, a.same_capacity, a.same_rows) at rest.1)),
    )

run-rows_from :
    (fs : List Field) (n : ℕ) (cs : List Call) (rs : List Row) (b : Batch)
    → IsBatch b
    → schema_fields b ≡ fs
    → b.capacity ≡ n
    → rows b ≡ rs
    → (rows (run cs b).0, (run cs b).1) ≡ run_specified fs n cs rs
run-rows_from fs n cs rs b h hf hn hr = rw (sym hf, sym hn, sym hr) (run-rows cs b h).1

new_batch-rows : (fs : List Field) (n : ℤ) → rows (new_batch fs n) ≡ []
unfolding new_batch rows
new_batch-rows fs n = refl

new_batch-capacity : (fs : List Field) (n : ℤ) → (new_batch fs n).capacity ≡ capacity_of n
unfolding new_batch
new_batch-capacity fs n = refl

new_batch-schema_fields : (fs : List Field) (n : ℤ) → schema_fields (new_batch fs n) ≡ fs
unfolding new_batch
new_batch-schema_fields fs n = new_column-schema_fields (words (capacity_of n)) fs

-- What a client sees in a loop over the iterator, and the count of the valid rows.
unfoldable pub observe : Batch → Option (List GenericRecord) × ℕ
observe b = (iterate b iterator (suc b.row_count), valid_row_count b)

-- What a client sees of a new batch after any calls is what the specification says of the list of
-- rows: the errors of the calls, and the valid rows in order, as the iterator yields them and as they
-- are counted.
pub run_refines :
    (fs : List Field) (n : ℤ) (cs : List Call)
    → ((run cs (new_batch fs n)).1 ≡ (run_specified fs (capacity_of n) cs []).1)
      × (observe (run cs (new_batch fs n)).0 ≡ (
        some (valid_rows (run_specified fs (capacity_of n) cs []).0),
        length (valid_rows (run_specified fs (capacity_of n) cs []).0),
      ))
unfolding observe
run_refines fs n cs =
    rw (iterate-rows (run cs (new_batch fs n)).0, valid_row_count-rows (run cs (new_batch fs n)).0)
      (
        ap (λ p. p.1) from_start,
        ap (λ p. (some (valid_rows p.0), length (valid_rows p.0))) from_start,
      )
  where
    from_start :
        (rows (run cs (new_batch fs n)).0, (run cs (new_batch fs n)).1)
        ≡ run_specified fs (capacity_of n) cs []
    from_start =
        run-rows_from fs (capacity_of n) cs [] (new_batch fs n) (new_batch-IsBatch fs n)
          (new_batch-schema_fields fs n) (new_batch-capacity fs n) (new_batch-rows fs n)
