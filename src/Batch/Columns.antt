-- ===== src/Batch/Columns.antt =====
-- `AppendRow` and `Reset` of internal/domain/record_batch.go on all columns of a batch.
use omnibeam_go.Common.{ℕ, suc, ◌/◌, ◌<◌, ◌≡◌, refl, List, [], ◌∷◌, map, All}
use omnibeam_go.Record.{FieldValue, null_value}
use omnibeam_go.Validate.Plan.{Field}
use omnibeam_go.Batch.{Column, push_row, cell, new_column, reset_column}
use omnibeam_go.Batch.Cells.{
  IsColumn, kept, push_value-cell_before, push_value-cell_last, push_value-IsColumn,
  push_value-field, push_null_value, new_column-IsColumn, reset_column-IsColumn,
}

-- What the columns keep of the values of a row: a missing one is null, one too many is dropped.
unfoldable pub kept_values : List Field → List FieldValue → List FieldValue
unfolding kept
kept_values [] vs = []
kept_values (f ∷ fs) [] = null_value f.type_ ∷ kept_values fs []
kept_values (f ∷ fs) (v ∷ vs) = kept f v ∷ kept_values fs vs

abbrev pub cells : ℕ → List Column → List FieldValue
cells i cs = map (cell i) cs

abbrev pub column_fields : List Column → List Field
column_fields cs = map (λ c. c.field) cs

module _ (w n : ℕ) (room : n / 64 < w) where
  pub push_row-cells_before :
      (cs : List Column) (vs : List FieldValue) (i : ℕ)
      → All (IsColumn w n) cs
      → i < n
      → cells i (push_row n cs vs) ≡ cells i cs
  unfolding push_row
  push_row-cells_before [] vs i hs lt = refl
  push_row-cells_before (c ∷ cs) [] i hs lt = rw (
    push_null_value n c,
    push_value-cell_before w n c hs.0 room (null_value c.field.type_) i lt,
    push_row-cells_before cs [] i hs.1 lt,
  )
  push_row-cells_before (c ∷ cs) (v ∷ vs) i hs lt =
      rw (push_value-cell_before w n c hs.0 room v i lt, push_row-cells_before cs vs i hs.1 lt)

  pub push_row-cells_last :
      (cs : List Column) (vs : List FieldValue)
      → All (IsColumn w n) cs
      → cells n (push_row n cs vs) ≡ kept_values (column_fields cs) vs
  unfolding push_row kept_values
  push_row-cells_last [] vs hs = refl
  push_row-cells_last (c ∷ cs) [] hs = rw (
    push_null_value n c,
    push_value-cell_last w n c hs.0 room (null_value c.field.type_),
    push_row-cells_last cs [] hs.1,
  )
  push_row-cells_last (c ∷ cs) (v ∷ vs) hs =
      rw (push_value-cell_last w n c hs.0 room v, push_row-cells_last cs vs hs.1)

  pub push_row-IsColumn :
      (cs : List Column) (vs : List FieldValue)
      → All (IsColumn w n) cs
      → All (IsColumn w (suc n)) (push_row n cs vs)
  unfolding push_row
  push_row-IsColumn [] vs hs = hs
  push_row-IsColumn (c ∷ cs) [] hs = (
    rw (push_null_value n c) (push_value-IsColumn w n c hs.0 room (null_value c.field.type_)),
    push_row-IsColumn cs [] hs.1,
  )
  push_row-IsColumn (c ∷ cs) (v ∷ vs) hs =
      (push_value-IsColumn w n c hs.0 room v, push_row-IsColumn cs vs hs.1)

pub push_row-schema_fields :
    (n : ℕ) (cs : List Column) (vs : List FieldValue)
    → column_fields (push_row n cs vs) ≡ column_fields cs
unfolding push_row
push_row-schema_fields n [] vs = refl
push_row-schema_fields n (c ∷ cs) [] = rw (
  push_null_value n c,
  push_value-field n c (null_value c.field.type_),
  push_row-schema_fields n cs [],
)
push_row-schema_fields n (c ∷ cs) (v ∷ vs) =
    rw (push_value-field n c v, push_row-schema_fields n cs vs)

pub new_column-AllColumns : (w : ℕ) (fs : List Field) → All (IsColumn w 0) (map (new_column w) fs)
new_column-AllColumns w [] = tt
new_column-AllColumns w (f ∷ fs) = (new_column-IsColumn w f, new_column-AllColumns w fs)

pub new_column-schema_fields :
    (w : ℕ) (fs : List Field) → column_fields (map (new_column w) fs) ≡ fs
unfolding new_column
new_column-schema_fields w [] = refl
new_column-schema_fields w (f ∷ fs) = rw (new_column-schema_fields w fs)

pub reset_column-AllColumns :
    (w n : ℕ) (cs : List Column)
    → All (IsColumn w n) cs
    → All (IsColumn w 0) (map (reset_column w) cs)
reset_column-AllColumns w n [] hs = tt
reset_column-AllColumns w n (c ∷ cs) hs =
    (reset_column-IsColumn w n c hs.0, reset_column-AllColumns w n cs hs.1)

pub reset_column-schema_fields :
    (w : ℕ) (cs : List Column) → column_fields (map (reset_column w) cs) ≡ column_fields cs
unfolding reset_column
reset_column-schema_fields w [] = refl
reset_column-schema_fields w (c ∷ cs) = rw (reset_column-schema_fields w cs)
