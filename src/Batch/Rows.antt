-- ===== src/Batch/Rows.antt =====
-- The rows of a `RecordBatch` of internal/domain/record_batch.go, each with its flag, as a list: the
-- view in which the columns and the bitmaps are forgotten.
use omnibeam_go.Common.{
  ℕ, zero, suc, ◌+◌, ◌-◌, ◌≤◌, ◌<◌, ◌≡◌, refl, ap, ◌∙◌, Bool, List, [], ◌∷◌, ◌++◌, none, some,
  length, ltb, ◌==◌, if◌then◌else◌, arith, Bool-cases, ltb→lt, inl, inr,
}
use omnibeam_go.Common.Int.{pos}
use omnibeam_go.Common.Bits.Bitmap.{update_at}
use omnibeam_go.Record.{GenericRecord}
use omnibeam_go.Batch.{
  Batch, record_at, is_row_valid, valid_row_count, count_valid, skip, next_row, iterate, iterator,
}

-- A row and whether it is valid.
abbrev pub Row : Type 0
Row = GenericRecord × Bool

-- The entries of a sequence from `i` on, `k` of them.
abbrev pub span {ℓ} : {A : Type ℓ} → (ℕ → A) → ℕ → ℕ → List A
span f i zero = []
span f i (suc k) = f i ∷ span f (suc i) k

unfoldable pub row_at : Batch → ℕ → Row
row_at b i = (record_at b i, is_row_valid b (pos i))

unfoldable pub rows : Batch → List Row
rows b = span (row_at b) 0 b.row_count

unfoldable pub valid_rows : List Row → List GenericRecord
valid_rows [] = []
valid_rows ((r, v) ∷ rs) = let later = valid_rows rs in if v then r ∷ later else later

module _ {ℓ} {A : Type ℓ} where
  pub length-span : (f : ℕ → A) (i k : ℕ) → length (span f i k) ≡ k
  length-span f i zero = refl
  length-span f i (suc k) = ap suc (length-span f (suc i) k)

  pub span-congr :
      (f g : ℕ → A) (i k : ℕ) → ((j : ℕ) → i ≤ j → j < i + k → f j ≡ g j) → span f i k ≡ span g i k
  span-congr f g i zero h = refl
  span-congr f g i (suc k) h = rw (
    h i (omega arith) (omega arith),
    span-congr f g (suc i) k (λ j le lt. h j (omega arith) (omega arith)),
  )

  pub span_last : (f : ℕ → A) (i k : ℕ) → span f i (suc k) ≡ span f i k ++ (f (i + k) ∷ [])
  span_last f i zero = ap (λ (j : ℕ). f j ∷ []) (omega arith)
  span_last f i (suc k) =
      ap (λ xs. f i ∷ xs)
        (span_last f (suc i) k ∙ ap (λ (j : ℕ). span f (suc i) k ++ (f j ∷ [])) (omega arith))

  pub update_at-span :
      (g : A → A) (f : ℕ → A) (i k j : ℕ)
      → update_at g (span f i k) j ≡ span (λ m. if m == i + j then g (f m) else f m) i k
  update_at-span g f i zero j = refl
  update_at-span g f i (suc k) zero = ground (
    arith,
    span-congr f (λ m. if m == i + 0 then g (f m) else f m) (suc i) k (λ m le lt. ground arith),
  )
  update_at-span g f i (suc k) (suc j) = ground (
    arith,
    update_at-span g f (suc i) k j,
    span-congr (λ m. if m == suc i + j then g (f m) else f m)
        (λ m. if m == i + suc j then g (f m) else f m) (suc i) k (λ m le lt. ground arith),
  )

module _ (b : Batch) where
  count_valid-rows : (i k : ℕ) → count_valid b i k ≡ length (valid_rows (span (row_at b) i k))
  unfolding count_valid valid_rows row_at
  count_valid-rows i zero = refl
  count_valid-rows i (suc k) = ground (arith, count_valid-rows (suc i) k)

  pub valid_row_count-rows : valid_row_count b ≡ length (valid_rows (rows b))
  unfolding valid_row_count rows
  valid_row_count-rows = count_valid-rows 0 b.row_count

  -- What the iterator still has to yield when its next row is at `i`.
  yielded : ℕ → List GenericRecord
  yielded i = valid_rows (span (row_at b) i (b.row_count - i))

  yielded_step :
      (i : ℕ)
      → i < b.row_count
      → yielded i
        ≡ (if is_row_valid b (pos i) then record_at b i ∷ yielded (suc i) else yielded (suc i))
  unfolding yielded valid_rows row_at
  yielded_step i h = ap (λ k. valid_rows (span (row_at b) i k)) (remaining b.row_count h)
    where
      remaining : (n : ℕ) → i < n → n - i ≡ suc (n - suc i)
      remaining n lt = omega arith

  yielded_end : (i : ℕ) → b.row_count ≤ i → yielded i ≡ []
  unfolding yielded valid_rows
  yielded_end i h = ap (λ k. valid_rows (span (row_at b) i k)) (nothing b.row_count h)
    where
      nothing : (n : ℕ) → n ≤ i → n - i ≡ 0
      nothing n le = omega arith

  -- Skipping leads to the first row that is yielded, if there is one.
  found : ℕ → List GenericRecord
  found i = if ltb i b.row_count then record_at b i ∷ yielded (suc i) else []

  skip-found : (i k : ℕ) → i + k ≡ b.row_count → (i ≤ skip b i k) × (yielded i ≡ found (skip b i k))
  unfolding skip found
  skip-found i zero h = ground (arith, yielded_end i (omega (arith, h)))
  skip-found i (suc k) h =
      ground (arith, yielded_step i (omega (arith, h)), skip-found (suc i) k (omega (arith, h)))

  iterate-found :
      (i j k : ℕ)
      → yielded i ≡ found j
      → (j < b.row_count → iterate b (record { next = suc j }) k ≡ some (yielded (suc j)))
      → (if ltb j b.row_count
          then (elim (iterate b (record { next = suc j }) k) [
            | none ↦ none
            | some rs ↦ some (record_at b (suc j - 1) ∷ rs)
          ])
          else some [])
        ≡ some (yielded i)
  unfolding found
  iterate-found i j k h rest = elim (Bool-cases (ltb j b.row_count)) [
    | inl lt ↦ ground (arith, rest (ltb→lt j b.row_count lt), pred_suc j)
    | inr ge ↦ ground arith
  ]
    where
      pred_suc : (n : ℕ) → suc n - 1 ≡ n
      pred_suc n = omega arith

  iterate-yielded :
      (i k : ℕ)
      → i ≤ b.row_count
      → b.row_count < i + k
      → iterate b (record { next = i }) k ≡ some (yielded i)
  unfolding iterate next_row
  iterate-yielded i zero le h = absurd (omega arith)
  iterate-yielded i (suc k) le h = iterate-found i (skip b i (b.row_count - i)) k hs.1 (λ lt.
      iterate-yielded (suc (skip b i (b.row_count - i))) k (omega arith) (omega (arith, hs.0)))
    where
      hs : (i ≤ skip b i (b.row_count - i)) × (yielded i ≡ found (skip b i (b.row_count - i)))
      hs = skip-found i (b.row_count - i) (omega arith)

  -- A loop over the iterator with a round more than there are rows sees the valid rows, in order.
  pub iterate-rows : iterate b iterator (suc b.row_count) ≡ some (valid_rows (rows b))
  unfolding rows yielded
  iterate-rows =
      rw (sub_zero b.row_count) at (iterate-yielded 0 (suc b.row_count) (omega arith) (omega arith))
    where
      sub_zero : (n : ℕ) → n - 0 ≡ n
      sub_zero n = omega arith
