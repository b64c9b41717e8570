-- ===== src/ByteStream/Chunks.antt =====
-- `CreateInitialRestriction` and `SplitRestriction` of internal/beam/streams/byte_stream_sdf.go.
use omnibeam_go.Common.{
  ℕ, zero, suc, ◌+◌, ◌≤◌, ◌<◌, ◌^◌, ◌≡◌, refl, ap, ◌-◌, ◌⊎◌, inl, inr, Bool, true, false, List, [],
  ◌∷◌, arith, if◌then◌else◌,
}
use omnibeam_go.Common.Int.{ℤ, pos, negsuc, pos_part, ltb_ℤ, leb_ℤ}
use omnibeam_go.Common.Word.{add64, sub64, add64_pos, sub64_pos}
use omnibeam_go.Wire.Bytes.{default_chunk_size_bytes}
use omnibeam_go.Tracker.{Range}
use omnibeam_go.Tracker.Runs.{Tiles}

-- `ByteOffsetRange{Start: 0, End: size}`
abbrev pub initial_restriction : ℤ → Range
initial_restriction size = record { start = pos 0; end_ = size }

-- The loop of `SplitRestriction`, with the rounds that it may take: each advances by a byte at least.
unfoldable pub split_chunks : ℕ → ℤ → ℤ → ℤ → List Range
split_chunks zero chunk start end_ = []
split_chunks (suc n) chunk start end_ = elim (ltb_ℤ start end_) [
  | true ↦
      let next = add64 start chunk in
      record { start = start; end_ = if ltb_ℤ end_ next then end_ else next }
      ∷ split_chunks n chunk next end_
  | false ↦ []
]

unfoldable pub chunk_size_or_default : ℤ → ℤ
chunk_size_or_default c = if leb_ℤ c (pos 0) then pos default_chunk_size_bytes else c

-- `compressed` says that the configured compression, trimmed and in lower case, is neither empty
-- nor "none".
unfoldable pub split_restriction : Bool → ℤ → Range → List Range
split_restriction compressed chunk_size rest =
    let chunk = chunk_size_or_default chunk_size in
    if compressed
    then rest ∷ []
    else (if leb_ℤ (sub64 rest.end_ rest.start) chunk
        then rest ∷ []
        else split_chunks (pos_part (sub64 rest.end_ rest.start)) chunk rest.start rest.end_)

by_end : (a b : ℕ) → (b ≤ a) ⊎ (a < b)
by_end a b = ground arith

-- The chunk size is positive whatever is configured.
chunk_size_pos : (size : ℤ) → (c : ℕ) × (0 < c) × (chunk_size_or_default size ≡ pos c)
unfolding chunk_size_or_default
chunk_size_pos (pos zero) = (default_chunk_size_bytes, omega arith, refl)
chunk_size_pos (pos (suc n)) = (suc n, omega arith, ground arith)
chunk_size_pos (negsuc n) = (default_chunk_size_bytes, omega arith, ground arith)

split_chunks-past :
    (n : ℕ) (chunk : ℤ) (s e : ℕ) → e ≤ s → split_chunks n chunk (pos s) (pos e) ≡ []
unfolding split_chunks
split_chunks-past zero chunk s e h = refl
split_chunks-past (suc n) chunk s e h = ground (arith, h)

-- What a round does: the last chunk is cut at the end, any other is whole.
split_chunks-last :
    (n c s e : ℕ)
    → s < e
    → e ≤ s + c
    → s + c < 2 ^ 63
    → split_chunks (suc n) (pos c) (pos s) (pos e) ≡ record { start = pos s; end_ = pos e } ∷ []
unfolding split_chunks
split_chunks-last n c s e h k fits =
    ground (arith, h, k, add64_pos s c fits, split_chunks-past n (pos c) (s + c) e k)

split_chunks-whole :
    (n c s e : ℕ)
    → s + c < e
    → e < 2 ^ 63
    → split_chunks (suc n) (pos c) (pos s) (pos e)
      ≡ record { start = pos s; end_ = pos (s + c) } ∷ split_chunks n (pos c) (pos (s + c)) (pos e)
unfolding split_chunks
split_chunks-whole n c s e k fits = ground (arith, k, add64_pos s c (omega (arith, k, fits)))

split_chunks-Tiles :
    (n c s e : ℕ)
    → 0 < c
    → e + c < 2 ^ 63
    → s < e
    → e ≤ s + n
    → Tiles (pos s) (split_chunks n (pos c) (pos s) (pos e)) (pos e)
split_chunks-Tiles zero c s e hc fits h hn = absurd (omega (arith, h, hn))
split_chunks-Tiles (suc n) c s e hc fits h hn = elim (by_end (s + c) e) [
  | inl k ↦
      rw (split_chunks-last n c s e h k (omega (arith, h, fits))) (refl, omega (arith, h), refl)
  | inr k ↦
      rw (split_chunks-whole n c s e k (omega (arith, fits))) (
        refl,
        omega (arith, hc),
        split_chunks-Tiles n c (s + c) e hc fits k (omega (arith, hc, hn)),
      )
]

if-Tiles :
    (b : Bool) (from to : ℤ) (xs ys : List Range)
    → Tiles from xs to
    → Tiles from ys to
    → Tiles from (if b then xs else ys) to
if-Tiles true from to xs ys t u = t
if-Tiles false from to xs ys t u = u

-- The chunks of a file of up to 2^63 - 1 - chunk bytes tile it in order, none of them empty, however the
-- chunk size is configured and whether the file is compressed or not.
pub split_restriction-Tiles :
    (compressed : Bool) (size : ℤ) (s e : ℕ)
    → s < e
    → e + pos_part (chunk_size_or_default size) < 2 ^ 63
    → Tiles
        (pos s)
        (split_restriction compressed size (record { start = pos s; end_ = pos e }))
        (pos e)
unfolding split_restriction
split_restriction-Tiles true size s e h fits = (refl, omega (arith, h), refl)
split_restriction-Tiles false size s e h fits =
    let (c, hc, eq) = chunk_size_pos size in
    if-Tiles (leb_ℤ (sub64 (pos e) (pos s)) (chunk_size_or_default size)) (pos s) (pos e)
      (record { start = pos s; end_ = pos e } ∷ [])
      (split_chunks (pos_part (sub64 (pos e) (pos s))) (chunk_size_or_default size) (pos s) (pos e))
      (refl, omega (arith, h), refl)
      (rw (sub64_pos e s (omega (arith, h)) (omega (arith, fits)), eq)
        (split_chunks-Tiles (e - s) c s e hc (omega (arith, fits, ap pos_part eq)) h
          (omega (arith, h))))
