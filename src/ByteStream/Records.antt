-- ===== src/ByteStream/Records.antt =====
-- `readRecordBytes` of internal/beam/streams/byte_stream_sdf.go, over the bytes that are left of the
-- file. A file that can be read to its end is meant: the only error is the end of the file.
use omnibeam_go.Common.{
  ℕ, zero, suc, ◌<◌, ◌≡◌, refl, ap, ◌∙◌, Bool, true, false, not, ◌&&◌, ◌||◌, Option, none, some,
  List, [], ◌∷◌, ◌++◌, append_assoc, length, length-append, ◌==◌, if◌then◌else◌, arith, ◌⊎◌, inl,
  inr, Bool-cases,
}

-- The bytes that a read returns, what is left, and whether it returns `io.EOF` too.
pub record Read : Type 0 where
  pub bytes : List ℕ
  pub left : List ℕ
  pub at_end : Bool

abbrev pub newline : ℕ
newline = 10

abbrev pub backslash : ℕ
backslash = 92

abbrev pub double_quote : ℕ
double_quote = 34

abbrev pub push_bytes : List ℕ → Read → Read
push_bytes l r = record r { bytes = l ++ r.bytes }

-- `br.ReadBytes('\n')`
unfoldable pub read_line : List ℕ → Read
read_line [] = record { bytes = []; left = []; at_end = true }
read_line (b ∷ src) =
    if b == newline
    then record { bytes = b ∷ []; left = src; at_end = false }
    else push_bytes (b ∷ []) (read_line src)

-- `i > 0 && line[i-1] == '\\'`
abbrev pub is_backslash : Option ℕ → Bool
is_backslash none = false
is_backslash (some c) = c == backslash

-- The state after a byte that is not the first of a doubled quote.
abbrev pub after_byte : ℕ → Option ℕ → Bool → ℕ → Bool
after_byte q before quoted b = if b == q && not (is_backslash before) then not quoted else quoted

-- The scan of one line for quotes: `before` is the byte before, none at the line's first. A doubled
-- quote inside quotes is skipped whole; a quote behind a backslash changes nothing.
unfoldable pub scan_quotes : ℕ → Option ℕ → Bool → List ℕ → Bool
scan_quotes q before quoted [] = quoted
scan_quotes q before quoted (b ∷ []) = after_byte q before quoted b
scan_quotes q before quoted (b ∷ c ∷ line) =
    if (b == q && quoted) && c == q
    then scan_quotes q (some c) quoted line
    else scan_quotes q (some b) (after_byte q before quoted b) (c ∷ line)

-- The loop over lines. A round reads a byte at least or ends it, so `suc (length src)` rounds are
-- enough; what it gives out of rounds, an end with bytes left, never comes then.
unfoldable pub read_quoted : ℕ → ℕ → Bool → List ℕ → Read
read_quoted zero q quoted src = record { bytes = []; left = src; at_end = true }
read_quoted (suc n) q quoted src =
    let r = read_line src in
    let open_after = scan_quotes q none quoted r.bytes in
    let more = read_quoted n q open_after r.left in
    if r.at_end || not open_after then r else push_bytes r.bytes more

unfoldable pub read_record : ℕ → Bool → List ℕ → Read
read_record q multiline src =
    if multiline
    then read_quoted (suc (length src)) (if q == 0 then double_quote else q) false src
    else read_line src

-- What every read does: it loses no byte, it stops for the end of the file only there, and it returns
-- a byte at least otherwise.
pub record Reads (src : List ℕ) (r : Read) : Type 0 where
  pub whole : r.bytes ++ r.left ≡ src
  pub ends : r.at_end ≡ true → r.left ≡ []
  pub moves : r.at_end ≡ false → 0 < length r.bytes

pub read_line-Reads : (src : List ℕ) → Reads src (read_line src)
unfolding read_line
read_line-Reads [] = record { whole = refl; ends = λ h. refl; moves = λ h. cc }
read_line-Reads (b ∷ src) = line-Reads (b == newline) b src (read_line src) (read_line-Reads src)
  where
    line-Reads :
        (t : Bool) (b : ℕ) (src : List ℕ) (r : Read)
        → Reads src r
        → Reads (b ∷ src) (
            if t
            then record { bytes = b ∷ []; left = src; at_end = false }
            else push_bytes (b ∷ []) r)
    line-Reads true b src r h = record { whole = refl; ends = λ e. cc; moves = λ e. omega arith }
    line-Reads false b src r h = record {
      whole = ap (◌∷◌ b) h.whole;
      ends = h.ends;
      moves = λ e. omega arith;
    }

push-Reads :
    (src : List ℕ) (r s : Read) → Reads src r → Reads r.left s → Reads src (push_bytes r.bytes s)
push-Reads src r s h k = record {
  whole = append_assoc r.bytes s.bytes s.left ∙ ap (λ x. r.bytes ++ x) k.whole ∙ h.whole;
  ends = k.ends;
  moves = λ e. omega (arith, length-append r.bytes s.bytes, k.moves e);
}

pub shorter :
    (src : List ℕ) (r : Read) → Reads src r → r.at_end ≡ false → length r.left < length src
shorter src r h e =
    omega (arith, h.moves e, length-append r.bytes r.left, ap (length {A = ℕ}) h.whole)

round-Reads :
    (src : List ℕ) (r more : Read) (open_after ended : Bool)
    → Reads src r
    → r.at_end ≡ ended
    → (ended ≡ false → Reads r.left more)
    → Reads src (if ended || not open_after then r else push_bytes r.bytes more)
round-Reads src r more open_after true h e k = h
round-Reads src r more false false h e k = h
round-Reads src r more true false h e k = push-Reads src r more h (k refl)

read_quoted-Reads :
    (n q : ℕ) (quoted : Bool) (src : List ℕ)
    → length src < n
    → Reads src (read_quoted n q quoted src)
unfolding read_quoted
read_quoted-Reads zero q quoted src h = absurd (omega (arith, h))
read_quoted-Reads (suc n) q quoted src h =
    let r = read_line src in
    let open_after = scan_quotes q none quoted r.bytes in
    let line = read_line-Reads src in
    round-Reads src r (read_quoted n q open_after r.left) open_after r.at_end line refl
      (λ e. read_quoted-Reads n q open_after r.left (omega (arith, h, shorter src r line e)))

read_record-Reads :
    (q : ℕ) (multiline : Bool) (src : List ℕ) → Reads src (read_record q multiline src)
unfolding read_record
read_record-Reads q true src =
    read_quoted-Reads (suc (length src)) (if q == 0 then double_quote else q) false src
      (omega arith)
read_record-Reads q false src = read_line-Reads src

-- Whatever the quote and the mode, a read of a record loses no byte and adds none, and either returns
-- a byte at least or reports the end of the file with nothing left: the loop over the lines of a
-- quoted field never runs out of rounds.
pub read_record_progress :
    (q : ℕ) (multiline : Bool) (src : List ℕ)
    → let r = read_record q multiline src in
      (r.bytes ++ r.left ≡ src)
      × (((r.at_end ≡ false) × (0 < length r.bytes)) ⊎ ((r.at_end ≡ true) × (r.left ≡ [])))
read_record_progress q multiline src =
    let h = read_record-Reads q multiline src in
    elim (Bool-cases (read_record q multiline src).at_end) [
      | inl e ↦ (h.whole, inr (e, h.ends e))
      | inr e ↦ (h.whole, inl (e, h.moves e))
    ]
