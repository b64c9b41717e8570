-- ===== src/Batch/Coder/Carried.antt =====
-- The batch that the decoder of internal/beam/core/record_batch_coder.go makes shows the rows of the
-- one that was encoded.
use omnibeam_go.Common.{
  ℕ, zero, suc, ◌/◌, ◌≤◌, ◌<◌, ◌≡◌, refl, List, [], ◌∷◌, ◌++◌, length, take, drop, get_or, map,
  replicate, All, arith,
}
use omnibeam_go.Common.Int.{pos}
use omnibeam_go.Common.Bits.Bitmap.{bit_at}
use omnibeam_go.Wire.Reader.{ok}
use omnibeam_go.Batch.{
  Batch, Column, schema_fields, words, all_ones, capacity_of, cached, cell, record_at, is_row_valid,
  in_rows,
}
use omnibeam_go.Batch.Operations.{words_room}
use omnibeam_go.Batch.Rows.{rows, row_at, span-congr}
use omnibeam_go.Batch.Coder.{overwrite, encode_batch, decode_batch}
use omnibeam_go.Batch.Coder.Columns.{IsEncodable, carried_column, carried}
use omnibeam_go.Batch.Coder.RoundTrip.{IsWithinLimits, decode-encode}

get_or-take_before :
    (w i d : ℕ) (xs ys : List ℕ)
    → i < w
    → w ≤ length xs
    → get_or (take w xs ++ ys) i d ≡ get_or xs i d
get_or-take_before zero i d xs ys h le = absurd (omega arith)
get_or-take_before (suc w) i d [] ys h le = absurd (omega arith)
get_or-take_before (suc w) zero d (x ∷ xs) ys h le = refl
get_or-take_before (suc w) (suc i) d (x ∷ xs) ys h le =
    get_or-take_before w i d xs ys (omega arith) (omega arith)

-- Bits of the words that were written.
bit_at-overwrite :
    (w i : ℕ) (m spare : List ℕ)
    → i / 64 < w
    → w ≤ length m
    → bit_at (overwrite (take w m) spare) i ≡ bit_at m i
unfolding bit_at
bit_at-overwrite w i m spare h le =
    rw (get_or-take_before w (i / 64) 0 m (drop (length (take w m)) spare) h le)

cell-carried :
    (w room n i : ℕ) (c : Column)
    → w ≤ length c.nulls
    → i / 64 < w
    → cell i (carried_column w room c) ≡ cell i c
unfolding cell cached carried_column
cell-carried w room n i c le h =
    ground (arith, bit_at-overwrite w i c.nulls (replicate room 0) h le)

cells-carried :
    (room n i : ℕ) (cs : List Column)
    → All (IsEncodable (words n) n) cs
    → i < n
    → map (cell i) (map (carried_column (words n) room) cs) ≡ map (cell i) cs
cells-carried room n i [] hs lt = refl
cells-carried room n i (c ∷ cs) hs lt = rw (
  cell-carried (words n) room n i c hs.0.bitmap (words_room n i lt),
  cells-carried room n i cs hs.1 lt,
)

module _ (b : Batch) (h : IsWithinLimits b) where
  row_at-carried : (i : ℕ) → i < b.row_count → row_at (carried b) i ≡ row_at b i
  unfolding row_at record_at is_row_valid in_rows carried
  row_at-carried i lt =
      rw
        (
          cells-carried (words (capacity_of (pos b.row_count))) b.row_count i b.columns h.columns
              lt,
          bit_at-overwrite (words b.row_count) i b.valid_mask
              (replicate (words (capacity_of (pos b.row_count))) all_ones)
              (words_room b.row_count i lt) h.mask,
        )
        refl

  pub rows-carried : rows (carried b) ≡ rows b
  unfolding rows carried
  rows-carried =
      span-congr (row_at (carried b)) (row_at b) 0 b.row_count
        (λ i le lt. row_at-carried i (omega (arith, lt)))

-- A batch within the limits of the coder is decoded from its encoding, with what follows left, and
-- shows the same rows with the same flags.
pub decode-encode_batch :
    (b : Batch) (rest : List ℕ)
    → IsWithinLimits b
    → (decode_batch (schema_fields b) (encode_batch b ++ rest) ≡ (ok (carried b), rest))
      × (rows (carried b) ≡ rows b)
decode-encode_batch b rest h = (decode-encode b h rest, rows-carried b h)
