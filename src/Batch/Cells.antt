-- ===== src/Batch/Cells.antt =====
-- One column of a `RecordBatch` of internal/domain/record_batch.go: what a row finds in it after
-- `AppendRow` and `Reset`.
use omnibeam_go.Common.{
  ℕ, zero, suc, ◌/◌, ◌≤◌, ◌<◌, ◌≡◌, refl, Bool, true, false, ◌⊎◌, inl, inr, List, [], ◌∷◌, ◌++◌,
  length, length-append, length-replicate, sym, get_or, replicate, if◌then◌else◌, arith,
}
use omnibeam_go.Common.Int.{ℤ, pos}
use omnibeam_go.Common.Bits.Bitmap.{bit_at, bit_at-mark, length-mark, bit_at-zeros}
use omnibeam_go.Record.{FieldValue, zero_value, null_value}
use omnibeam_go.Validate.Plan.{Field, is_decimal}
use omnibeam_go.Batch.{
  Column, is_numeric_data_type, push, push_null, push_value, cached, cell, new_column, reset_column,
  fill,
}

-- What a column of a field keeps of a value: the type of the field, and of the value the part that the type uses.
unfoldable pub kept : Field → FieldValue → FieldValue
kept f v =
    if v.is_null
    then null_value f.type_
    else (if is_numeric_data_type f.type_
        then record zero_value {
          dtype = f.type_;
          num_val = v.num_val;
          scale = if is_decimal f.type_ then v.scale else pos 0;
        }
        else record zero_value { dtype = f.type_; str_val = v.str_val })

-- A column of `n` rows and a bitmap of `w` words, where no row beyond is marked null.
pub record IsColumn (w n : ℕ) (c : Column) : Type 0 where
  pub bitmap : length c.nulls ≡ w
  pub blank : (i : ℕ) → n ≤ i → i / 64 < w → bit_at c.nulls i ≡ false
  pub has_nums : (is_numeric_data_type c.field.type_ ≡ false) ⊎ (length c.nums ≡ n)
  pub has_strs : (is_numeric_data_type c.field.type_ ≡ true) ⊎ (length c.strs ≡ n)
  pub has_scales : (is_decimal c.field.type_ ≡ false) ⊎ (length c.scales ≡ n)

module _ {ℓ} {A : Type ℓ} where
  pub get_or-before :
      (xs ys : List A) (i : ℕ) (d : A) → i < length xs → get_or (xs ++ ys) i d ≡ get_or xs i d
  get_or-before [] ys i d h = absurd (omega arith)
  get_or-before (x ∷ xs) ys zero d h = refl
  get_or-before (x ∷ xs) ys (suc i) d h = get_or-before xs ys i d (omega arith)

  pub get_or-last : (xs : List A) (x d : A) → get_or (xs ++ (x ∷ [])) (length xs) d ≡ x
  get_or-last [] x d = refl
  get_or-last (y ∷ xs) x d = get_or-last xs x d

entry-push_before {ℓ} :
    {A : Type ℓ} (t e : Bool) (xs : List A) (x d : A) (i n : ℕ)
    → (t ≡ e) ⊎ (length xs ≡ n)
    → i < n
    → (t ≡ e) ⊎ (get_or (xs ++ (x ∷ [])) i d ≡ get_or xs i d)
entry-push_before t e xs x d i n (inl h) lt = inl h
entry-push_before t e xs x d i n (inr h) lt = inr (get_or-before xs (x ∷ []) i d (omega (arith, h)))

entry-push_last {ℓ} :
    {A : Type ℓ} (t e : Bool) (xs : List A) (x d : A) (n : ℕ)
    → (t ≡ e) ⊎ (length xs ≡ n)
    → (t ≡ e) ⊎ (get_or (xs ++ (x ∷ [])) n d ≡ x)
entry-push_last t e xs x d n (inl h) = inl h
entry-push_last t e xs x d n (inr h) = inr (rw h at (get_or-last xs x d))

module _ (w n : ℕ) (c : Column) (h : IsColumn w n c) where
  push-cell_before : (m i : ℕ) (s : List ℕ) (k : ℤ) → i < n → cell i (push c m s k) ≡ cell i c
  unfolding push cell cached
  push-cell_before m i s k lt = ground (
    arith,
    entry-push_before (is_numeric_data_type c.field.type_) false c.nums m 0 i n h.has_nums lt,
    entry-push_before (is_numeric_data_type c.field.type_) true c.strs s [] i n h.has_strs lt,
    entry-push_before (is_decimal c.field.type_) false c.scales k (pos 0) i n h.has_scales lt,
  )

  push-cell_last :
      (v : FieldValue)
      → n / 64 < w
      → v.is_null ≡ false
      → cell n (push c v.num_val v.str_val v.scale) ≡ kept c.field v
  unfolding push cell kept cached
  push-cell_last v lt e = ground (
    arith,
    h.blank n (omega arith) lt,
    entry-push_last (is_numeric_data_type c.field.type_) false c.nums v.num_val 0 n h.has_nums,
    entry-push_last (is_numeric_data_type c.field.type_) true c.strs v.str_val [] n h.has_strs,
    entry-push_last (is_decimal c.field.type_) false c.scales v.scale (pos 0) n h.has_scales,
  )

grown {ℓ} :
    {A : Type ℓ} (t e : Bool) (xs : List A) (x : A) (n : ℕ)
    → (t ≡ e) ⊎ (length xs ≡ n)
    → (t ≡ e) ⊎ (length (xs ++ (x ∷ [])) ≡ suc n)
grown t e xs x n (inl h) = inl h
grown t e xs x n (inr h) = inr (omega (arith, h, length-append xs (x ∷ [])))

module _ (w n : ℕ) (c : Column) (h : IsColumn w n c) where
  push-IsColumn : (m : ℕ) (s : List ℕ) (k : ℤ) → IsColumn w (suc n) (push c m s k)
  unfolding push
  push-IsColumn m s k = record {
    bitmap = h.bitmap;
    blank = λ i le lt. h.blank i (omega arith) lt;
    has_nums =
        ground (arith, grown (is_numeric_data_type c.field.type_) false c.nums m n h.has_nums);
    has_strs =
        ground (arith, grown (is_numeric_data_type c.field.type_) true c.strs s n h.has_strs);
    has_scales = ground (arith, grown (is_decimal c.field.type_) false c.scales k n h.has_scales);
  }

  push_null-cell_before : (i : ℕ) → i < n → n / 64 < w → cell i (push_null n c) ≡ cell i c
  unfolding push_null push cell cached
  push_null-cell_before i lt room = ground (
    arith,
    bit_at-mark c.nulls n i (omega (arith, h.bitmap)),
    entry-push_before (is_numeric_data_type c.field.type_) false c.nums 0 0 i n h.has_nums lt,
    entry-push_before (is_numeric_data_type c.field.type_) true c.strs [] [] i n h.has_strs lt,
    entry-push_before (is_decimal c.field.type_) false c.scales (pos 0) (pos 0) i n h.has_scales lt,
  )

  push_null-cell_last : n / 64 < w → cell n (push_null n c) ≡ null_value c.field.type_
  unfolding push_null push cell cached
  push_null-cell_last room = ground (arith, bit_at-mark c.nulls n n (omega (arith, h.bitmap)))

  push_null-IsColumn : n / 64 < w → IsColumn w (suc n) (push_null n c)
  unfolding push_null push
  push_null-IsColumn room = record {
    bitmap = omega (arith, length-mark c.nulls n, h.bitmap);
    blank = λ i le lt.
        ground
          (arith, bit_at-mark c.nulls n i (omega (arith, h.bitmap)), h.blank i (omega arith) lt);
    has_nums = (push-IsColumn 0 [] (pos 0)).has_nums;
    has_strs = (push-IsColumn 0 [] (pos 0)).has_strs;
    has_scales = (push-IsColumn 0 [] (pos 0)).has_scales;
  }

module _ (w n : ℕ) (c : Column) (h : IsColumn w n c) (room : n / 64 < w) (v : FieldValue) where
  pub push_value-cell_before : (i : ℕ) → i < n → cell i (push_value n c v) ≡ cell i c
  unfolding push_value
  push_value-cell_before i lt = ground (
    arith,
    push_null-cell_before w n c h i lt room,
    push-cell_before w n c h v.num_val i v.str_val v.scale lt,
  )

  pub push_value-cell_last : cell n (push_value n c v) ≡ kept c.field v
  unfolding push_value kept
  push_value-cell_last =
      ground (arith, push_null-cell_last w n c h room, push-cell_last w n c h v room)

  pub push_value-IsColumn : IsColumn w (suc n) (push_value n c v)
  unfolding push_value
  push_value-IsColumn =
      elim v.is_null
        as (λ b.
          IsColumn w (suc n) (if b then push_null n c else push c v.num_val v.str_val v.scale)) [
            | true ↦ push_null-IsColumn w n c h room
            | false ↦ push-IsColumn w n c h v.num_val v.str_val v.scale
          ]

pub push_value-field : (n : ℕ) (c : Column) (v : FieldValue) → (push_value n c v).field ≡ c.field
unfolding push_value push_null push
push_value-field n c v = ground arith

-- A value that is missing is pushed as a null one is.
pub push_null_value :
    (n : ℕ) (c : Column) → push_null n c ≡ push_value n c (null_value c.field.type_)
unfolding push_value
push_null_value n c = refl

length-fill : (n w : ℕ) (m : List ℕ) → length (fill n w m) ≡ length m
unfolding fill
length-fill zero w m = refl
length-fill (suc n) w [] = refl
length-fill (suc n) w (x ∷ m) = omega (arith, length-fill n w m)

pub fill_all : (w : ℕ) (m : List ℕ) → fill (length m) w m ≡ replicate (length m) w
unfolding fill
fill_all w [] = refl
fill_all w (x ∷ m) = rw (fill_all w m)

pub new_column-IsColumn : (w : ℕ) (f : Field) → IsColumn w 0 (new_column w f)
unfolding new_column
new_column-IsColumn w f = record {
  bitmap = length-replicate w 0;
  blank = λ i le lt. bit_at-zeros w i lt;
  has_nums = inr refl;
  has_strs = inr refl;
  has_scales = inr refl;
}

pub reset_column-IsColumn :
    (w n : ℕ) (c : Column) → IsColumn w n c → IsColumn w 0 (reset_column w c)
unfolding reset_column
reset_column-IsColumn w n c h = record {
  bitmap = omega (arith, length-fill w 0 c.nulls, h.bitmap);
  blank = λ i le lt.
      rw (sym h.bitmap, fill_all 0 c.nulls)
        (bit_at-zeros (length c.nulls) i (omega (arith, h.bitmap)));
  has_nums = ground arith;
  has_strs = ground arith;
  has_scales = ground arith;
}
