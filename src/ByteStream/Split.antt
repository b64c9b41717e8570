-- ===== src/ByteStream/Split.antt =====
-- All the workers of a file that `SplitRestriction` of internal/beam/streams/byte_stream_sdf.go cut.
use omnibeam_go.Common.{
  ℕ, ◌+◌, ◌≤◌, ◌<◌, ◌^◌, ◌≡◌, refl, ap, subst, ◌∙◌, Bool, false, not, ◌&&◌, ◌||◌, List, [], ◌∷◌,
  ◌++◌, append-nil, length, ◌==◌, arith,
}
use omnibeam_go.Common.Int.{ℤ, pos, negsuc, pos_part, neg_part, ◌<ℤ◌}
use omnibeam_go.Tracker.{Range, new_tracker}
use omnibeam_go.Tracker.Runs.{Tiles}
use omnibeam_go.ByteStream.Chunks.{
  chunk_size_or_default, initial_restriction, split_restriction, split_restriction-Tiles,
}
use omnibeam_go.ByteStream.Worker.{process}
use omnibeam_go.ByteStream.Lines.{lines_at, lines_at-From, keep}
use omnibeam_go.ByteStream.Lines.Order.{keep-append, keep-agree, lines_at-Ascending}
use omnibeam_go.ByteStream.Coverage.{in_chunk, process-in_chunk}

-- What the workers of a file's chunks feed to their decoders, each with a tracker of its own.
unfoldable pub process_all : ℕ → List ℕ → List Range → List (List ℕ)
process_all q file [] = []
process_all q file (c ∷ cs) = (process q false (new_tracker c) file).1 ++ process_all q file cs

-- Whether one of the chunks starts at an offset.
unfoldable pub is_start : List Range → ℕ → Bool
is_start [] x = false
is_start (c ∷ cs) x = (pos_part c.start == x) || is_start cs x

-- Whether one of the chunks but the first starts at an offset.
abbrev pub is_cut : List Range → ℕ → Bool
is_cut [] x = false
is_cut (c ∷ cs) x = is_start cs x

pos_of : (s : ℕ) (z : ℤ) → pos s <ℤ z → (m : ℕ) × (z ≡ pos m) × (s < m)
pos_of s (pos m) h = (m, refl, omega (arith, h))
pos_of s (negsuc m) h = absurd (omega (arith, h))

-- The chunks start at or above where they begin, and the first of them starts there.
is_start-below :
    (cs : List Range) (m e x : ℕ) → Tiles (pos m) cs (pos e) → x < m → is_start cs x ≡ false
unfolding is_start
is_start-below [] m e x t h = refl
is_start-below (c ∷ cs) m e x t h =
    let (k, eq, up) = pos_of m c.end_ (subst (λ z. z <ℤ c.end_) t.0 t.1) in
    let later =
      is_start-below cs k e x (subst (λ z. Tiles z cs (pos e)) eq t.2) (omega (arith, h, up)) in
    ground (arith, h, later, ap pos_part t.0)

Tiles-le : (cs : List Range) (m e : ℕ) → Tiles (pos m) cs (pos e) → m ≤ e
Tiles-le [] m e t = omega (arith, ap pos_part t)
Tiles-le (c ∷ cs) m e t =
    let (k, eq, up) = pos_of m c.end_ (subst (λ z. z <ℤ c.end_) t.0 t.1) in
    omega (arith, up, Tiles-le cs k e (subst (λ z. Tiles z cs (pos e)) eq t.2))

-- The offsets of the lines that the workers of the chunks from s to e read.
abbrev pub is_read : ℕ → ℕ → List Range → ℕ → Bool
is_read s e cs x = in_chunk s e x && not (is_cut cs x)

keep-same :
    (p q : ℕ → Bool) (file : List ℕ)
    → ((x : ℕ) → p x ≡ q x)
    → keep p (lines_at 0 file) ≡ keep q (lines_at 0 file)
keep-same p q file h = keep-agree p q 0 (lines_at 0 file) (lines_at-From 0 file) (λ x o. h x)

worker_of :
    (q s m : ℕ) (file : List ℕ) (c : Range)
    → c.start ≡ pos s
    → c.end_ ≡ pos m
    → s < m
    → m ≤ length file
    → length file < 2 ^ 63
    → (process q false (new_tracker c) file).1 ≡ keep (in_chunk s m) (lines_at 0 file)
worker_of q s m file c a b h k fits =
    ap (λ x. (process q false (new_tracker (record { start = x; end_ = c.end_ })) file).1) a
    ∙ ap (λ x. (process q false (new_tracker (record { start = pos s; end_ = x })) file).1) b
    ∙ process-in_chunk q s m file h k fits

-- Below the end m of the first chunk, and from there on, where d is the next chunk.
module _ (c d : Range) (ds : List Range) (s m e : ℕ) (at : d.start ≡ pos m) (h : s < m)
    (k : m ≤ e) where
  is_read-low :
      (x : ℕ)
      → x < m
      → is_start (d ∷ ds) x ≡ false
      → (is_read m e (d ∷ ds) x ≡ false) × (is_read s e (c ∷ d ∷ ds) x ≡ in_chunk s m x)
  is_read-low x below out = (ground (arith, h, below), ground (arith, h, below, out, k))

  is_read-high :
      (x : ℕ)
      → m ≤ x
      → (in_chunk s m x ≡ false) × (is_read s e (c ∷ d ∷ ds) x ≡ is_read m e (d ∷ ds) x)
  unfolding is_start
  is_read-high x from = (ground (arith, h, from), ground (arith, h, from, ap pos_part at))

-- With `multiline` off, the workers of chunks that tile [s, e) feed to their decoders, taken together in the order of the
-- chunks, exactly the lines of the file that start in [s, e), each once, whole and in order, but for
-- those that start where one chunk ends and the next begins, which no worker reads.
pub process_all-Tiles :
    (q s e : ℕ) (file : List ℕ) (c : Range) (cs : List Range)
    → Tiles (pos s) (c ∷ cs) (pos e)
    → e ≤ length file
    → length file < 2 ^ 63
    → process_all q file (c ∷ cs) ≡ keep (is_read s e (c ∷ cs)) (lines_at 0 file)
unfolding process_all
process_all-Tiles q s e file c [] t k fits =
    append-nil (process q false (new_tracker c) file).1
    ∙ worker_of q s e file c t.0 t.2
        (omega (arith, ap pos_part t.0, t.1, ap pos_part t.2, ap neg_part t.0, ap neg_part t.2)) k
        fits
    ∙ keep-same (in_chunk s e) (is_read s e (c ∷ [])) file (λ x. unfold is_start in ground arith)
process_all-Tiles q s e file c (d ∷ ds) t k fits =
    let (m, eq, up) = pos_of s c.end_ (subst (λ z. z <ℤ c.end_) t.0 t.1) in
    let rest = subst (λ z. Tiles z (d ∷ ds) (pos e)) eq t.2 in
    let m_le = Tiles-le (d ∷ ds) m e rest in
    ap (λ x. x ++ process_all q file (d ∷ ds))
      (worker_of q s m file c t.0 eq up (omega (arith, m_le, k)) fits)
    ∙ ap (λ x. keep (in_chunk s m) (lines_at 0 file) ++ x)
        (process_all-Tiles q m e file d ds rest k fits)
    ∙ keep-append (in_chunk s m) (is_read m e (d ∷ ds)) (is_read s e (c ∷ d ∷ ds)) m
        (λ x below.
          is_read-low c d ds s m e rest.0 up m_le x below
            (is_start-below (d ∷ ds) m e x rest below))
        (is_read-high c d ds s m e rest.0 up m_le) (lines_at 0 file) (lines_at-Ascending 0 file)

-- With `multiline` off, every non-empty file whose length, with a chunk more, is an int64: its chunks, whatever their
-- configured size and the compression, are read by their workers but for the lines that start at a cut.
pub process_all-split_restriction :
    (q : ℕ) (compressed : Bool) (size : ℤ) (file : List ℕ)
    → 0 < length file
    → length file + pos_part (chunk_size_or_default size) < 2 ^ 63
    → let cs = split_restriction compressed size (initial_restriction (pos (length file))) in
      process_all q file cs ≡ keep (is_read 0 (length file) cs) (lines_at 0 file)
process_all-split_restriction q compressed size file h fits =
    of_tiles (split_restriction compressed size (initial_restriction (pos (length file))))
      (split_restriction-Tiles compressed size 0 (length file) h fits)
  where
    of_tiles :
        (cs : List Range)
        → Tiles (pos 0) cs (pos (length file))
        → process_all q file cs ≡ keep (is_read 0 (length file) cs) (lines_at 0 file)
    of_tiles [] t = absurd (omega (arith, h, ap pos_part t))
    of_tiles (c ∷ cs) t =
        process_all-Tiles q 0 (length file) file c cs t (omega arith) (omega (arith, fits))
