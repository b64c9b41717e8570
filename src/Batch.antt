-- ===== src/Batch.antt =====
-- `RecordBatch` of internal/domain/record_batch.go: rows kept by columns, with bitmaps for the nulls
-- and for the rows that are valid, and the iterator over them.
pub mod Cells
pub mod Rows
pub mod Coder
pub mod Columns
pub mod Operations
pub mod Refinement
use omnibeam_go.Common.{
  ℕ, zero, suc, ◌+◌, ◌-◌, ◌/◌, ◌^◌, Bool, true, false, ◌&&◌, not, List, [], ◌∷◌, ◌++◌, Option, none,
  some, map, length, get_or, replicate, ltb, leb, ◌==◌, if◌then◌else◌, max,
}
use omnibeam_go.Common.Int.{ℤ, pos, negsuc, ltb_ℤ, leb_ℤ, pos_part, eqb_ℤ}
use omnibeam_go.Common.Dict.{Dict}
use omnibeam_go.Common.Bits.Bitmap.{bit_at, mark, unmark}
use omnibeam_go.Record.{
  DataType, type_string, type_int64, type_float64, type_bool, type_timestamp, type_decimal,
  FieldValue, zero_value, GenericRecord,
}
use omnibeam_go.Validate.Plan.{Field, is_decimal}

abbrev pub is_numeric_data_type : DataType → Bool
is_numeric_data_type type_int64 = true
is_numeric_data_type type_float64 = true
is_numeric_data_type type_bool = true
is_numeric_data_type type_timestamp = true
is_numeric_data_type type_decimal = true
is_numeric_data_type t = false

-- The slices `Fields` of the schema, `NumCols`, `StrCols`, `ScaleCols` and `NullBitmaps` have one
-- length: these are their entries at one index.
pub record Column : Type 0 where
  pub field : Field
  pub nums : List ℕ
  pub strs : List (List ℕ)
  pub scales : List ℤ
  pub nulls : List ℕ

-- A nil map of audit fields is the empty one.
pub record Batch : Type 0 where
  pub columns : List Column
  pub capacity : ℕ
  pub row_count : ℕ
  pub valid_mask : List ℕ
  pub audit_values : List (Dict (List ℕ))

abbrev pub schema_fields : Batch → List Field
schema_fields b = map (λ c. c.field) b.columns

unfoldable pub words : ℕ → ℕ
words n = (n + 63) / 64

-- `^uint64(0)`
abbrev pub all_ones : ℕ
all_ones = 2 ^ 64 - 1

abbrev pub default_capacity : ℕ
default_capacity = 5000

abbrev pub min_capacity : ℕ
min_capacity = 64

unfoldable pub capacity_of : ℤ → ℕ
capacity_of n =
    if eqb_ℤ n (pos 0)
    then default_capacity
    else (if ltb_ℤ n (pos min_capacity) then min_capacity else pos_part n)

unfoldable pub new_column : ℕ → Field → Column
new_column n f = record { field = f; nums = []; strs = []; scales = []; nulls = replicate n 0 }

unfoldable pub new_batch : List Field → ℤ → Batch
new_batch fs n = record {
  columns = map (new_column (words (capacity_of n))) fs;
  capacity = capacity_of n;
  row_count = 0;
  valid_mask = replicate (words (capacity_of n)) all_ones;
  audit_values = [];
}

-- The three vectors of a column grow by what `AppendRow` stores of a value; the scale only of a decimal.
unfoldable pub push : Column → ℕ → List ℕ → ℤ → Column
push c n s k = record c {
  nums = if is_numeric_data_type c.field.type_ then c.nums ++ (n ∷ []) else c.nums;
  strs = if is_numeric_data_type c.field.type_ then c.strs else c.strs ++ (s ∷ []);
  scales = if is_decimal c.field.type_ then c.scales ++ (k ∷ []) else c.scales;
}

unfoldable pub push_null : ℕ → Column → Column
push_null i c = push (record c { nulls = mark c.nulls i }) 0 [] (pos 0)

unfoldable pub push_value : ℕ → Column → FieldValue → Column
push_value i c v = if v.is_null then push_null i c else push c v.num_val v.str_val v.scale

-- A field beyond the values of the record is null.
unfoldable pub push_row : ℕ → List Column → List FieldValue → List Column
push_row i [] vs = []
push_row i (c ∷ cs) [] = push_null i c ∷ push_row i cs []
push_row i (c ∷ cs) (v ∷ vs) = push_value i c v ∷ push_row i cs vs

-- A nil record has no values and no audit fields.
abbrev pub values_of : Option GenericRecord → List FieldValue
values_of none = []
values_of (some r) = r.values

abbrev pub audit_of : Option GenericRecord → Dict (List ℕ)
audit_of none = []
audit_of (some r) = r.audit_fields

-- With the flag of an error: the capacity is exceeded.
unfoldable pub append_row : Batch → Option GenericRecord → Batch × Bool
append_row b r = if leb b.capacity b.row_count then (b, true) else (
  record b {
    columns = push_row b.row_count b.columns (values_of r);
    audit_values = b.audit_values ++ (audit_of r ∷ []);
    row_count = suc b.row_count;
  },
  false,
)

-- `idx < 0 || idx >= b.rowCount`
unfoldable pub in_rows : Batch → ℤ → Bool
in_rows b i = leb_ℤ (pos 0) i && ltb_ℤ i (pos b.row_count)

unfoldable pub set_row_valid : Batch → ℤ → Bool → Batch
set_row_valid b i valid =
    if in_rows b i
    then record b {
      valid_mask =
          if valid then mark b.valid_mask (pos_part i) else unmark b.valid_mask (pos_part i);
    }
    else b

unfoldable pub is_row_valid : Batch → ℤ → Bool
is_row_valid b i = in_rows b i && bit_at b.valid_mask (pos_part i)

-- The valid rows among `k` from row `i` on.
unfoldable pub count_valid : Batch → ℕ → ℕ → ℕ
count_valid b i zero = 0
count_valid b i (suc k) = (if is_row_valid b (pos i) then 1 else 0) + count_valid b (suc i) k

unfoldable pub valid_row_count : Batch → ℕ
valid_row_count b = count_valid b 0 b.row_count

-- The first `n` words are overwritten.
unfoldable pub fill : ℕ → ℕ → List ℕ → List ℕ
fill zero w m = m
fill (suc n) w [] = []
fill (suc n) w (x ∷ m) = w ∷ fill n w m

unfoldable pub reset_column : ℕ → Column → Column
reset_column n c = record c {
  nulls = fill n 0 c.nulls;
  nums = if is_numeric_data_type c.field.type_ then [] else c.nums;
  strs = if is_numeric_data_type c.field.type_ then c.strs else [];
  scales = if is_decimal c.field.type_ then [] else c.scales;
}

unfoldable pub reset : Batch → Batch
reset b = record b {
  row_count = 0;
  valid_mask = fill (words b.capacity) all_ones b.valid_mask;
  columns = map (reset_column (words b.capacity)) b.columns;
  audit_values = [];
}

-- `RecordBatchPool.Get`: a batch that was put back, if the pool hands one out, or a new one; reset.
unfoldable pub get_batch : List Field → ℤ → Option Batch → Batch
get_batch fs n none = reset (new_batch fs n)
get_batch fs n (some b) = reset b

-- What `Record` leaves in the cached value of a column of type `t`, given the null bit and the
-- entries of the three vectors.
unfoldable pub cached : DataType → Bool → ℕ → List ℕ → ℤ → FieldValue
cached t null n s k =
    if null
    then record zero_value { dtype = t; is_null = true }
    else (if is_numeric_data_type t
        then record zero_value { dtype = t; num_val = n; scale = if is_decimal t then k else pos 0 }
        else record zero_value { dtype = t; str_val = s })

unfoldable pub cell : ℕ → Column → FieldValue
cell i c =
    cached c.field.type_ (bit_at c.nulls i) (get_or c.nums i 0) (get_or c.strs i [])
      (get_or c.scales i (pos 0))

-- `Record` at row `i`: the cached record, whose schema id is never set.
unfoldable pub record_at : Batch → ℕ → GenericRecord
record_at b i = record {
  schema_id = [];
  values = map (cell i) b.columns;
  audit_fields = get_or b.audit_values i [];
}

-- `curr` starts at -1; `next` is `curr + 1`.
pub record Iterator : Type 0 where
  pub next : ℕ

abbrev pub iterator : Iterator
iterator = record { next = 0 }

-- From row `i` past the invalid rows, of which at most `k` are left.
unfoldable pub skip : Batch → ℕ → ℕ → ℕ
skip b i zero = i
skip b i (suc k) =
    let further = skip b (suc i) k in
    if ltb i b.row_count && not (is_row_valid b (pos i)) then further else i

unfoldable pub next_row : Batch → Iterator → Iterator × Bool
next_row b it =
    let i = skip b it.next (b.row_count - it.next) in (record { next = suc i }, ltb i b.row_count)

-- `for it.Next() { ... it.Record() ... }`: the records that the body sees, in `k` rounds at most, or
-- nothing where more are needed.
unfoldable pub iterate : Batch → Iterator → ℕ → Option (List GenericRecord)
iterate b it zero = none
iterate b it (suc k) =
    let step = next_row b it in
    let seen = iterate b step.0 k in
    if step.1
    then (elim seen [ none ↦ none | some rs ↦ some (record_at b (step.0.next - 1) ∷ rs) ])
    else some []
