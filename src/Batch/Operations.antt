-- ===== src/Batch/Operations.antt =====
-- What `AppendRow`, `SetRowValid` and `Reset` of internal/domain/record_batch.go do to the rows of a
-- batch.
use omnibeam_go.Common.{
  ℕ, suc, ◌+◌, ◌/◌, ◌≤◌, ◌<◌, ◌≡◌, refl, Bool, true, List, [], ◌∷◌, ◌++◌, Option, length, ◌==◌,
  arith, All, if◌then◌else◌, length-append, replicate, length-replicate, lt→ltb, le→leb, ◌∙◌, sym,
}
use omnibeam_go.Common.Int.{ℤ}
use omnibeam_go.Common.Bits.Bitmap.{
  bit_at, mark, unmark, bit_at-mark, bit_at-unmark, length-mark, length-unmark, bit_at-ones,
  update_at,
}
use omnibeam_go.Record.{GenericRecord}
use omnibeam_go.Validate.Plan.{Field}
use omnibeam_go.Batch.{
  Batch, schema_fields, words, all_ones, capacity_of, new_batch, values_of, audit_of, in_rows,
  push_row, is_row_valid, fill, reset, record_at,
}
use omnibeam_go.Batch.Cells.{IsColumn, get_or-before, get_or-last, fill_all}
use omnibeam_go.Batch.Columns
use omnibeam_go.Batch.Rows.{Row, row_at, rows, span-congr, span_last, update_at-span}

-- A batch as its operations leave it: vectors and bitmaps agree with the number of rows, and beyond the rows no bit is disturbed.
pub record IsBatch (b : Batch) : Type 0 where
  pub room : b.row_count ≤ b.capacity
  pub mask : length b.valid_mask ≡ words b.capacity
  pub spare : (i : ℕ) → b.row_count ≤ i → i / 64 < words b.capacity → bit_at b.valid_mask i ≡ true
  pub columns : All (IsColumn (words b.capacity) b.row_count) b.columns
  pub audits : length b.audit_values ≡ b.row_count

-- What is kept of a record: no schema id, and the values as far as the columns keep them.
unfoldable pub kept_record : List Field → Option GenericRecord → GenericRecord
kept_record fs r = record {
  schema_id = [];
  values = Columns.kept_values fs (values_of r);
  audit_fields = audit_of r;
}

pub words_room : (n i : ℕ) → i < n → i / 64 < words n
unfolding words
words_room n i h = omega arith

-- The batch with a row more.
unfoldable pub grown : Batch → Option GenericRecord → Batch
grown b r = record b {
  columns = push_row b.row_count b.columns (values_of r);
  audit_values = b.audit_values ++ (audit_of r ∷ []);
  row_count = suc b.row_count;
}

module _ (b : Batch) (h : IsBatch b) (r : Option GenericRecord)
    (lt : b.row_count < b.capacity) where
  pub grown-IsBatch : IsBatch (grown b r)
  unfolding grown
  grown-IsBatch = record {
    room = omega (arith, lt);
    mask = h.mask;
    spare = λ i le w. h.spare i (omega (arith, le)) w;
    columns =
        Columns.push_row-IsColumn (words b.capacity) b.row_count
          (words_room b.capacity b.row_count lt) b.columns (values_of r) h.columns;
    audits = omega (arith, length-append b.audit_values (audit_of r ∷ []), h.audits);
  }

  grown-row_before : (i : ℕ) → i < b.row_count → row_at (grown b r) i ≡ row_at b i
  unfolding grown row_at record_at is_row_valid in_rows
  grown-row_before i le = rw (
    Columns.push_row-cells_before (words b.capacity) b.row_count
        (words_room b.capacity b.row_count lt) b.columns (values_of r) i h.columns le,
    get_or-before b.audit_values (audit_of r ∷ []) i [] (omega (arith, h.audits)),
    lt→ltb (i + 0) (suc b.row_count + 0) (omega arith),
    lt→ltb (i + 0) (b.row_count + 0) (omega arith),
  )

  grown-row_last : row_at (grown b r) b.row_count ≡ (kept_record (schema_fields b) r, true)
  unfolding grown row_at record_at is_row_valid in_rows kept_record
  grown-row_last = rw (
    Columns.push_row-cells_last (words b.capacity) b.row_count
        (words_room b.capacity b.row_count lt) b.columns (values_of r) h.columns,
    h.spare b.row_count (omega arith) (words_room b.capacity b.row_count lt),
    lt→ltb (b.row_count + 0) (suc b.row_count + 0) (omega arith),
    le→leb 0 (b.row_count + 0) (omega arith),
    rw h.audits at (get_or-last b.audit_values (audit_of r) []),
  )

  pub grown-rows : rows (grown b r) ≡ rows b ++ ((kept_record (schema_fields b) r, true) ∷ [])
  unfolding rows grown
  grown-rows =
      span_last (row_at (grown b r)) 0 b.row_count
      ∙ rw (
        span-congr (row_at (grown b r)) (row_at b) 0 b.row_count
            (λ i le before. grown-row_before i (omega (arith, before))),
        zero_add b.row_count,
        grown-row_last,
      )
    where
      zero_add : (n : ℕ) → 0 + n ≡ n
      zero_add n = omega arith

pub grown-schema_fields :
    (b : Batch) (r : Option GenericRecord) → schema_fields (grown b r) ≡ schema_fields b
unfolding grown
grown-schema_fields b r = Columns.push_row-schema_fields b.row_count b.columns (values_of r)

pub grown-capacity : (b : Batch) (r : Option GenericRecord) → (grown b r).capacity ≡ b.capacity
unfolding grown
grown-capacity b r = refl

-- The batch with the flag of a row set or cleared.
unfoldable pub marked : Batch → ℕ → Bool → Batch
marked b j v = record b { valid_mask = if v then mark b.valid_mask j else unmark b.valid_mask j }

module _ (b : Batch) (h : IsBatch b) (j : ℕ) (lt : j < b.row_count) (v : Bool) where
  room_at : j / 64 < length b.valid_mask
  room_at = omega (arith, h.mask, words_room b.capacity j (omega (arith, lt, h.room)))

  marked-bit :
      (i : ℕ) → bit_at (marked b j v).valid_mask i ≡ (if j == i then v else bit_at b.valid_mask i)
  unfolding marked
  marked-bit i =
      ground (arith, bit_at-mark b.valid_mask j i room_at, bit_at-unmark b.valid_mask j i room_at)

  pub marked-IsBatch : IsBatch (marked b j v)
  unfolding marked
  marked-IsBatch = record {
    room = h.room;
    mask = ground (arith, h.mask, length-mark b.valid_mask j, length-unmark b.valid_mask j);
    spare = λ i le w. ground (arith, marked-bit i, h.spare i le w);
    columns = h.columns;
    audits = h.audits;
  }

  marked-row :
      (i : ℕ)
      → i < b.row_count
      → row_at (marked b j v) i ≡ (if i == 0 + j then ((row_at b i).0, v) else row_at b i)
  unfolding marked row_at record_at is_row_valid in_rows
  marked-row i le = ground (arith, marked-bit i, lt)

  pub marked-rows : rows (marked b j v) ≡ update_at (λ r. (r.0, v)) (rows b) j
  unfolding rows marked
  marked-rows =
      span-congr (row_at (marked b j v))
        (λ i. if i == 0 + j then ((row_at b i).0, v) else row_at b i) 0 b.row_count
        (λ i le before. marked-row i (omega (arith, before)))
      ∙ sym (update_at-span (λ (r : Row). (r.0, v)) (row_at b) 0 b.row_count j)

module _ (b : Batch) (h : IsBatch b) where
  reset-mask : fill (words b.capacity) all_ones b.valid_mask ≡ replicate (words b.capacity) all_ones
  reset-mask = rw (sym h.mask) (fill_all all_ones b.valid_mask)

  pub reset-IsBatch : IsBatch (reset b)
  unfolding reset
  reset-IsBatch = record {
    room = omega arith;
    mask = rw reset-mask (length-replicate (words b.capacity) all_ones);
    spare = λ i le w. rw reset-mask (bit_at-ones (words b.capacity) i w);
    columns = Columns.reset_column-AllColumns (words b.capacity) b.row_count b.columns h.columns;
    audits = refl;
  }

pub reset-schema_fields : (b : Batch) → schema_fields (reset b) ≡ schema_fields b
unfolding reset
reset-schema_fields b = Columns.reset_column-schema_fields (words b.capacity) b.columns

pub reset-capacity : (b : Batch) → (reset b).capacity ≡ b.capacity
unfolding reset
reset-capacity b = refl

pub reset-rows : (b : Batch) → rows (reset b) ≡ []
unfolding reset rows
reset-rows b = refl

pub new_batch-IsBatch : (fs : List Field) (n : ℤ) → IsBatch (new_batch fs n)
unfolding new_batch
new_batch-IsBatch fs n = record {
  room = omega arith;
  mask = length-replicate (words (capacity_of n)) all_ones;
  spare = λ i le w. bit_at-ones (words (capacity_of n)) i w;
  columns = Columns.new_column-AllColumns (words (capacity_of n)) fs;
  audits = refl;
}
