-- ===== src/Batch/Coder/Columns.antt =====
-- Reading back the columns that `RecordBatchEncoder` of internal/beam/core/record_batch_coder.go
-- writes.
use omnibeam_go.Common.{
  ℕ, zero, suc, ◌≤◌, ◌≡◌, refl, ap, ◌∙◌, Bool, true, false, ◌⊎◌, inl, inr, List, [], ◌∷◌, ◌++◌,
  length, take, append_assoc, map, replicate, All, arith, if◌then◌else◌,
}
use omnibeam_go.Common.Int.{ℤ, pos}
use omnibeam_go.Common.Word.{IsU64, IsI32}
use omnibeam_go.Wire.Reader.{Reader, ok, ◌>>=◌, pure, bind-ok}
use omnibeam_go.Validate.Plan.{Field, is_decimal}
use omnibeam_go.Batch.{
  Batch, Column, is_numeric_data_type, words, all_ones, capacity_of, new_column,
}
use omnibeam_go.Batch.Coder.{
  write_each, write_word, write_int32, write_long_text, write_column, read_le, read_each,
  read_int32, read_long_text, overwrite, read_vectors, read_vector_column, read_columns,
}
use omnibeam_go.Batch.Coder.Parts

-- A column whose vectors have `n` entries, of the sizes of their Go types, with `w` words of bitmap at least.
pub record IsEncodable (w n : ℕ) (c : Column) : Type 0 where
  pub bitmap : w ≤ length c.nulls
  pub words64 : All IsU64 c.nulls
  pub nums : (is_numeric_data_type c.field.type_ ≡ false) ⊎ ((length c.nums ≡ n) × All IsU64 c.nums)
  pub strs :
      (is_numeric_data_type c.field.type_ ≡ true) ⊎ ((length c.strs ≡ n) × All Parts.IsText c.strs)
  pub scales : (is_decimal c.field.type_ ≡ false) ⊎ ((length c.scales ≡ n) × All IsI32 c.scales)

-- The column that is decoded in its place: the vectors that its type does not use are empty, and `spare` words of the bitmap stand behind those that were written.
unfoldable pub carried_column : ℕ → ℕ → Column → Column
carried_column w room c = record {
  field = c.field;
  nums = if is_numeric_data_type c.field.type_ then c.nums else [];
  strs = if is_numeric_data_type c.field.type_ then [] else c.strs;
  scales =
      if is_numeric_data_type c.field.type_
      then (if is_decimal c.field.type_ then c.scales else [])
      else [];
  nulls = overwrite (take w c.nulls) (replicate room 0);
}

-- `carried b` is the batch that is decoded: of the capacity that the number of rows calls for.
unfoldable pub carried : Batch → Batch
carried b = record {
  columns =
      map (carried_column (words b.row_count) (words (capacity_of (pos b.row_count)))) b.columns;
  capacity = capacity_of (pos b.row_count);
  row_count = b.row_count;
  valid_mask =
      overwrite (take (words b.row_count) b.valid_mask)
        (replicate (words (capacity_of (pos b.row_count))) all_ones);
  audit_values = b.audit_values;
}

length-take : {A : Type 0} (n : ℕ) (xs : List A) → n ≤ length xs → length (take n xs) ≡ n
length-take zero xs h = refl
length-take (suc n) [] h = absurd (omega arith)
length-take (suc n) (x ∷ xs) h = ap suc (length-take n xs (omega arith))

All-take : {A : Type 0} (P : A → Type 0) (n : ℕ) (xs : List A) → All P xs → All P (take n xs)
All-take P zero xs hs = tt
All-take P (suc n) [] hs = tt
All-take P (suc n) (x ∷ xs) hs = (hs.0, All-take P n xs hs.1)

-- A slice of words is read back as the words that were written of it.
pub read_words :
    (w : ℕ) (m rest : List ℕ)
    → w ≤ length m
    → All IsU64 m
    → read_each (read_le 8) w (write_each write_word (take w m) ++ rest) ≡ (ok (take w m), rest)
read_words w m rest h hs = rw (length-take w m h) at (
    Parts.read_each-write_each write_word (read_le 8) IsU64 Parts.read_word-write_word (take w m)
      rest (All-take IsU64 w m hs))

pub each_back :
    {A : Type 0} (write : A → List ℕ) (read : Reader A) (P : A → Type 0)
    → ((a : A) (rest : List ℕ) → P a → read (write a ++ rest) ≡ (ok a, rest))
    → (n : ℕ) (xs : List A) (rest : List ℕ) → length xs ≡ n
    → All P xs
    → read_each read n (write_each write xs ++ rest) ≡ (ok xs, rest)
each_back write read P back n xs rest h hs =
    rw h at (Parts.read_each-write_each write read P back xs rest hs)

numeric_entries : {X : Type 0} → (true ≡ false) ⊎ X → X
numeric_entries (inl e) = absurd (ground arith)
numeric_entries (inr x) = x

text_entries : {X : Type 0} → (false ≡ true) ⊎ X → X
text_entries (inl e) = absurd (ground arith)
text_entries (inr x) = x

-- The vectors of a column, by what its type is: `t` numeric, `d` decimal.
module _ (n : ℕ) (e : Column) (nums : List ℕ) (strs : List (List ℕ)) (scales : List ℤ)
    (rest : List ℕ) where
  read_scales :
      (d : Bool)
      → (d ≡ false) ⊎ ((length scales ≡ n) × All IsI32 scales)
      → (if d then read_each read_int32 n else pure [])
          ((if d then write_each write_int32 scales else []) ++ rest)
        ≡ (ok (if d then scales else []), rest)
  read_scales true h =
      each_back write_int32 read_int32 IsI32 Parts.read_int32-write_int32 n scales rest
        (numeric_entries h).0 (numeric_entries h).1
  read_scales false h = refl

  vectors_back :
      (t d : Bool)
      → (t ≡ false) ⊎ ((length nums ≡ n) × All IsU64 nums)
      → (t ≡ true) ⊎ ((length strs ≡ n) × All Parts.IsText strs)
      → (d ≡ false) ⊎ ((length scales ≡ n) × All IsI32 scales)
      → (if t
            then (do
              ns ← read_each (read_le 8) n
              ks ← (if d then read_each read_int32 n else pure [])
              pure (record e { nums = e.nums ++ ns; scales = e.scales ++ ks }))
            else (do ss ← read_each read_long_text n; pure (record e { strs = e.strs ++ ss })))
          ((if t
              then write_each write_word nums ++ (if d then write_each write_int32 scales else [])
              else write_each write_long_text strs)
            ++ rest)
        ≡ (
          ok (
              if t
              then record e {
                nums = e.nums ++ nums;
                scales = e.scales ++ (if d then scales else []);
              }
              else record e { strs = e.strs ++ strs }),
          rest,
        )
  vectors_back true d hn hs hk =
      rw
        (append_assoc (write_each write_word nums) (if d then write_each write_int32 scales else [])
          rest)
        (bind-ok (read_each (read_le 8) n)
            (λ ns. (if d then read_each read_int32 n else pure []) >>= λ ks.
              pure (record e { nums = e.nums ++ ns; scales = e.scales ++ ks }))
            _
            (each_back write_word (read_le 8) IsU64 Parts.read_word-write_word n nums _
              (numeric_entries hn).0 (numeric_entries hn).1)
          ∙ bind-ok (if d then read_each read_int32 n else pure [])
              (λ ks. pure (record e { nums = e.nums ++ nums; scales = e.scales ++ ks })) _
              (read_scales d hk))
  vectors_back false d hn hs hk =
      bind-ok (read_each read_long_text n) (λ ss. pure (record e { strs = e.strs ++ ss })) _
        (each_back write_long_text read_long_text Parts.IsText Parts.read_long_text-write_long_text
          n strs rest (text_entries hs).0 (text_entries hs).1)

vectors_of :
    (f : Field) (t d : Bool) (nums : List ℕ) (strs : List (List ℕ)) (scales : List ℤ) (m : List ℕ)
    → (if◌then◌else◌ {A = Column} t
        (record { field = f; nums = nums; strs = []; scales = if d then scales else []; nulls = m })
        (record { field = f; nums = []; strs = strs; scales = []; nulls = m }))
      ≡ record {
        field = f;
        nums = if t then nums else [];
        strs = if t then [] else strs;
        scales = if t then (if d then scales else []) else [];
        nulls = m;
      }
vectors_of f true d nums strs scales m = refl
vectors_of f false d nums strs scales m = refl

read_vector_column-write_column :
    (w n room : ℕ) (c : Column) (rest : List ℕ)
    → IsEncodable w n c
    → read_vector_column w n (new_column room c.field) (write_column w c ++ rest)
      ≡ (ok (carried_column w room c), rest)
unfolding read_vector_column write_column read_vectors carried_column new_column
read_vector_column-write_column w n room c rest h =
    rw (append_assoc (write_each write_word (take w c.nulls)) _ rest) (
      bind-ok (read_each (read_le 8) w)
        (λ ws.
          read_vectors n
            (record (new_column room c.field) { nulls = overwrite ws (replicate room 0) }))
        _ (read_words w c.nulls _ h.bitmap h.words64)
      ∙ vectors_back n
          (record {
            field = c.field;
            nums = [];
            strs = [];
            scales = [];
            nulls = overwrite (take w c.nulls) (replicate room 0);
          })
          c.nums c.strs c.scales rest (is_numeric_data_type c.field.type_)
          (is_decimal c.field.type_) h.nums h.strs h.scales
      ∙ ap (λ d. (ok d, rest))
          (vectors_of c.field (is_numeric_data_type c.field.type_) (is_decimal c.field.type_) c.nums
            c.strs c.scales _))

pub read_columns-write_each :
    (w n room : ℕ) (cs : List Column) (rest : List ℕ)
    → All (IsEncodable w n) cs
    → read_columns w n
        (map (new_column room) (map (λ c. c.field) cs))
        (write_each (write_column w) cs ++ rest)
      ≡ (ok (map (carried_column w room) cs), rest)
unfolding read_columns write_each
read_columns-write_each w n room [] rest hs = refl
read_columns-write_each w n room (c ∷ cs) rest hs =
    let more = map (new_column room) (map (λ (c : Column). c.field) cs) in
    rw (append_assoc (write_column w c) (write_each (write_column w) cs) rest) (
      bind-ok (read_vector_column w n (new_column room c.field))
        (λ d. read_columns w n more >>= λ ds. pure (d ∷ ds)) _
        (read_vector_column-write_column w n room c _ hs.0)
      ∙ bind-ok (read_columns w n more) (λ ds. pure (carried_column w room c ∷ ds)) _
          (read_columns-write_each w n room cs rest hs.1))
