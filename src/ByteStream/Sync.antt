-- ===== src/ByteStream/Sync.antt =====
-- `SyncToNextRecordBoundary` of internal/beam/streams/byte_offset_tracker.go.
use omnibeam_go.Common.{
  ℕ, suc, ◌+◌, ◌≤◌, ◌<◌, ◌≡◌, ap, Bool, true, false, not, ◌&&◌, ◌||◌, Option, none, some, List, [],
  ◌∷◌, length, length-append, drop, length-drop, ◌==◌, leb, if◌then◌else◌, arith,
}
use omnibeam_go.Common.Int.{ℤ, pos, pos_part, ◌≤ℤ◌, leb_ℤ}
use omnibeam_go.ByteStream.Records.{
  Read, newline, double_quote, is_backslash, push_bytes, read_line, read_line-Reads,
}

-- `bytes.IndexByte(text, '\n')`
unfoldable pub index_newline : List ℕ → Option ℕ
index_newline [] = none
index_newline (b ∷ text) =
    let later = index_newline text in
    if b == newline then some 0 else elim later [ none ↦ none | some i ↦ some (suc i) ]

abbrev pub behind : ℕ → Option ℕ → ℕ → ℕ
behind size none start = size
behind size (some i) start = start + i + 1

-- The scan from the first byte, where `i` is the index of the next byte and `before` the byte before it.
-- The last byte leads to the end of the text, whatever it is. A quote that does not open or close leaves the state; only a newline outside quotes ends a record.
unfoldable pub scan_boundary : ℕ → ℕ → ℕ → Option ℕ → Bool → List ℕ → ℕ
scan_boundary q start i before quoted [] = i
scan_boundary q start i before quoted (b ∷ []) = suc i
scan_boundary q start i before quoted (b ∷ c ∷ text) =
    let doubled = scan_boundary q start (suc (suc i)) (some c) quoted text in
    let kept = scan_boundary q start (suc i) (some b) quoted (c ∷ text) in
    let toggled = scan_boundary q start (suc i) (some b) (not quoted) (c ∷ text) in
    if b == q
    then (if quoted && c == q then doubled else (if is_backslash before then kept else toggled))
    else (if (b == newline && not quoted) && leb start (suc i) then suc i else kept)

unfoldable pub sync_to_boundary : Bool → ℕ → List ℕ → ℤ → ℤ
sync_to_boundary multiline q text start =
    if leb_ℤ start (pos 0) || leb_ℤ (pos (length text)) start
    then start
    else pos (
        if multiline
        then scan_boundary (if q == 0 then double_quote else q) (pos_part start) 0 none false text
        else behind (length text) (index_newline (drop (pos_part start) text)) (pos_part start))

step_behind :
    (t : Bool) (b size start : ℕ) (o : Option ℕ) (text : List ℕ) (r : Read)
    → behind size o (suc start) ≡ suc start + length r.bytes
    → behind size (if t then some 0 else elim o [ none ↦ none | some i ↦ some (suc i) ]) start
      ≡ start
        + length
            (if t
              then record { bytes = b ∷ []; left = text; at_end = false }
              else push_bytes (b ∷ []) r).bytes
step_behind true b size start o text r h = omega arith
step_behind false b size start none text r h = omega (arith, h)
step_behind false b size start (some i) text r h = omega (arith, h)

index_newline-read_line :
    (text : List ℕ) (start size : ℕ)
    → start + length text ≡ size
    → behind size (index_newline text) start ≡ start + length (read_line text).bytes
unfolding index_newline read_line
index_newline-read_line [] start size h = omega (arith, h)
index_newline-read_line (b ∷ text) start size h =
    step_behind (b == newline) b size start (index_newline text) text (read_line text)
      (index_newline-read_line text (suc start) size (omega (arith, h)))

pub sync_to_boundary-read_line :
    (q start : ℕ) (text : List ℕ)
    → 0 < start
    → start < length text
    → sync_to_boundary false q text (pos start)
      ≡ pos (start + length (read_line (drop start text)).bytes)
unfolding sync_to_boundary
sync_to_boundary-read_line q start text h k = ground (
  arith,
  h,
  k,
  index_newline-read_line (drop start text) start (length text)
      (omega (arith, length-drop start text (omega (arith, k)))),
)

scan_boundary-range :
    (text : List ℕ) (q start i size : ℕ) (before : Option ℕ) (quoted : Bool)
    → i + length text ≡ size
    → start ≤ size
    → (start ≤ scan_boundary q start i before quoted text)
      × (scan_boundary q start i before quoted text ≤ size)
unfolding scan_boundary
scan_boundary-range [] q start i size before quoted h k = (omega (arith, h, k), omega (arith, h))
scan_boundary-range (b ∷ []) q start i size before quoted h k =
    (omega (arith, h, k), omega (arith, h))
scan_boundary-range (b ∷ c ∷ text) q start i size before quoted h k =
    let doubled =
      scan_boundary-range text q start (suc (suc i)) size (some c) quoted (omega (arith, h)) k in
    let kept =
      scan_boundary-range (c ∷ text) q start (suc i) size (some b) quoted (omega (arith, h)) k in
    let toggled =
      scan_boundary-range (c ∷ text) q start (suc i) size (some b) (not quoted) (omega (arith, h))
        k in
    (ground (arith, h, doubled, kept, toggled), ground (arith, h, doubled, kept, toggled))

read_fits :
    (start : ℕ) (text : List ℕ)
    → start < length text
    → start + length (read_line (drop start text)).bytes ≤ length text
read_fits start text k = omega (
  arith,
  length-drop start text (omega (arith, k)),
  length-append (read_line (drop start text)).bytes (read_line (drop start text)).left,
  ap (length {A = ℕ}) (read_line-Reads (drop start text)).whole,
)

-- In either mode the boundary behind an offset within a text is at the offset or beyond it, and not
-- beyond the end of the text.
pub sync_to_boundary-range :
    (multiline : Bool) (q start : ℕ) (text : List ℕ)
    → 0 < start
    → start < length text
    → (pos start ≤ℤ sync_to_boundary multiline q text (pos start))
      × (sync_to_boundary multiline q text (pos start) ≤ℤ pos (length text))
unfolding sync_to_boundary
sync_to_boundary-range true q start text h k =
    let r =
      scan_boundary-range text (if q == 0 then double_quote else q) start 0 (length text) none false
        (omega arith) (omega (arith, k)) in
    (ground (arith, h, k, r), ground (arith, h, k, r))
sync_to_boundary-range false q start text h k =
    rw (sync_to_boundary-read_line q start text h k)
      (omega arith, omega (arith, k, read_fits start text k))
