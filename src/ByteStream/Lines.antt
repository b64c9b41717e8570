-- ===== src/ByteStream/Lines.antt =====
-- The lines of a file with their offsets, described byte by byte without a reader, and what a read of
-- internal/beam/streams/byte_stream_sdf.go has to do with them.
pub mod Order
use omnibeam_go.Common.{
  ℕ, zero, suc, ◌+◌, ◌≤◌, ◌<◌, ◌≡◌, refl, sym, ap, ◌∙◌, Bool, true, false, not, ◌&&◌, List, [], ◌∷◌,
  ◌++◌, length, drop, ◌==◌, ltb, leb, if◌then◌else◌, arith, All, ◌⊎◌, inl, inr,
}
use omnibeam_go.ByteStream.Records.{Read, newline, push_bytes, read_line}

abbrev pub Line : Type 0
Line = ℕ × List ℕ

-- A byte before the lines of the rest: a newline is a line of its own, any other byte is the first of
-- the line that follows.
abbrev pub extend : ℕ → ℕ → List Line → List Line
extend o b [] = (o, b ∷ []) ∷ []
extend o b (l ∷ ls) = (o, b ∷ l.1) ∷ ls

abbrev pub add_byte : Bool → ℕ → ℕ → List Line → List Line
add_byte ends o b ls = if ends then (o, b ∷ []) ∷ ls else extend o b ls

unfoldable pub lines_at : ℕ → List ℕ → List Line
lines_at o [] = []
lines_at o (b ∷ src) = add_byte (b == newline) o b (lines_at (suc o) src)

-- The lines whose offset passes a test.
unfoldable pub keep : (ℕ → Bool) → List Line → List (List ℕ)
keep p [] = []
keep p (l ∷ ls) = if p l.0 then l.1 ∷ keep p ls else keep p ls

pub lines_at-offset : (a b : ℕ) (src : List ℕ) → a ≡ b → lines_at a src ≡ lines_at b src
lines_at-offset a b src e = ap (λ x. lines_at x src) e

-- One byte, given what holds of the bytes after it.
add_byte-read :
    (t : Bool) (o b : ℕ) (src : List ℕ) (r : Read) (ls : List Line)
    → (src ≡ [] → (ls ≡ []) × (r ≡ record { bytes = []; left = []; at_end = true }))
    → (0 < length src → ls ≡ (suc o, r.bytes) ∷ lines_at (suc o + length r.bytes) r.left)
    → ls ≡ lines_at (suc o) src
    → let s =
        if t
        then record { bytes = b ∷ []; left = src; at_end = false }
        else push_bytes (b ∷ []) r in
      add_byte t o b ls ≡ (o, s.bytes) ∷ lines_at (o + length s.bytes) s.left
unfolding lines_at
add_byte-read true o b src r ls h k e =
    ap (◌∷◌ (o, b ∷ [])) (e ∙ lines_at-offset (suc o) (o + 1) src (omega arith))
add_byte-read false o b [] r ls h k e =
    ap (extend o b) (h refl).0
    ∙ ap
        (λ x.
          (o, (push_bytes (b ∷ []) x).bytes)
          ∷ lines_at (o + length (push_bytes (b ∷ []) x).bytes) x.left)
        (sym (h refl).1)
add_byte-read false o b (c ∷ src) r ls h k e =
    ap (extend o b) (k (omega arith))
    ∙ ap (◌∷◌ (o, b ∷ r.bytes))
        (lines_at-offset (suc o + length r.bytes) (o + suc (length r.bytes)) r.left (omega arith))

-- The lines as reads give them: the first is what a read returns, the others start where it ends.
pub lines_at-read_line :
    (o b : ℕ) (src : List ℕ)
    → let r = read_line (b ∷ src) in
      lines_at o (b ∷ src) ≡ (o, r.bytes) ∷ lines_at (o + length r.bytes) r.left
unfolding lines_at read_line
lines_at-read_line o b [] =
    add_byte-read (b == newline) o b [] (read_line []) (lines_at (suc o) []) (λ e. (refl, refl))
      (λ h. absurd (omega (arith, h))) refl
lines_at-read_line o b (c ∷ src) =
    add_byte-read (b == newline) o b (c ∷ src) (read_line (c ∷ src)) (lines_at (suc o) (c ∷ src))
      (λ e. cc) (λ h. lines_at-read_line (suc o) c src) refl

pub keep-out :
    (p : ℕ → Bool) (l : Line) (ls : List Line) → p l.0 ≡ false → keep p (l ∷ ls) ≡ keep p ls
unfolding keep
keep-out p l ls h = rw h refl

pub keep-in :
    (p : ℕ → Bool) (l : Line) (ls : List Line) → p l.0 ≡ true → keep p (l ∷ ls) ≡ l.1 ∷ keep p ls
unfolding keep
keep-in p l ls h = rw h refl

from_less : (o : ℕ) (ls : List Line) → All (λ l. suc o ≤ l.0) ls → All (λ l. o ≤ l.0) ls
from_less o [] h = tt
from_less o (l ∷ ls) h = (omega (arith, h.0), from_less o ls h.1)

extend-From :
    (o b : ℕ) (ls : List Line) → All (λ l. suc o ≤ l.0) ls → All (λ l. o ≤ l.0) (extend o b ls)
extend-From o b [] h = (omega arith, tt)
extend-From o b (l ∷ ls) h = (omega arith, from_less o ls h.1)

add_byte-From :
    (t : Bool) (o b : ℕ) (ls : List Line)
    → All (λ l. suc o ≤ l.0) ls
    → All (λ l. o ≤ l.0) (add_byte t o b ls)
add_byte-From true o b ls h = (omega arith, from_less o ls h)
add_byte-From false o b ls h = extend-From o b ls h

pub lines_at-From : (o : ℕ) (src : List ℕ) → All (λ l. o ≤ l.0) (lines_at o src)
unfolding lines_at
lines_at-From o [] = tt
lines_at-From o (b ∷ src) =
    add_byte-From (b == newline) o b (lines_at (suc o) src) (lines_at-From (suc o) src)

pub keep-none :
    (p : ℕ → Bool) (o : ℕ) (ls : List Line)
    → All (λ l. o ≤ l.0) ls
    → ((x : ℕ) → o ≤ x → p x ≡ false)
    → keep p ls ≡ []
keep-none p o [] h k = unfold keep in refl
keep-none p o (l ∷ ls) h k = keep-out p l ls (k l.0 h.0) ∙ keep-none p o ls h.1 k

keep-add_byte :
    (p : ℕ → Bool) (t : Bool) (o b : ℕ) (l : Line) (ls : List Line)
    → p o ≡ false
    → p l.0 ≡ false
    → keep p (add_byte t o b (l ∷ ls)) ≡ keep p (l ∷ ls)
keep-add_byte p true o b l ls h k = keep-out p (o, b ∷ []) (l ∷ ls) h
keep-add_byte p false o b l ls h k = keep-out p (o, b ∷ l.1) ls h ∙ sym (keep-out p l ls k)

drop-nil : (k : ℕ) → drop {A = ℕ} k [] ≡ []
drop-nil zero = refl
drop-nil (suc k) = refl

keep-alone : (p : ℕ → Bool) (t : Bool) (o b : ℕ) → p o ≡ false → keep p (add_byte t o b []) ≡ []
keep-alone p true o b h = keep-out p (o, b ∷ []) [] h ∙ (unfold keep in refl)
keep-alone p false o b h = keep-out p (o, b ∷ []) [] h ∙ (unfold keep in refl)

keep-past :
    (p : ℕ → Bool) (k o : ℕ)
    → let r = read_line (drop {A = ℕ} k []) in keep p (lines_at (o + length r.bytes) r.left) ≡ []
keep-past p k o = rw (drop-nil k) (unfold keep lines_at read_line in refl)

-- From any byte of a file, the lines beyond it are those from where the read of a line ends.
pub keep-skip :
    (p : ℕ → Bool) (k o : ℕ) (src : List ℕ)
    → ((x : ℕ) → x ≤ o + k → p x ≡ false)
    → let r = read_line (drop k src) in
      keep p (lines_at o src) ≡ keep p (lines_at (o + k + length r.bytes) r.left)
unfolding lines_at
keep-skip p zero o [] h = unfold lines_at read_line in refl
keep-skip p zero o (b ∷ src) h =
    let r = read_line (b ∷ src) in
    ap (keep p) (lines_at-read_line o b src)
    ∙ keep-out p (o, r.bytes) (lines_at (o + length r.bytes) r.left) (h o (omega arith))
    ∙ ap (keep p)
        (lines_at-offset (o + length r.bytes) (o + 0 + length r.bytes) r.left (omega arith))
keep-skip p (suc k) o [] h = unfold lines_at read_line in refl
keep-skip p (suc k) o (b ∷ []) h =
    keep-alone p (b == newline) o b (h o (omega arith)) ∙ sym (keep-past p k (o + suc k))
keep-skip p (suc k) o (b ∷ c ∷ src) h =
    let r = read_line (c ∷ src) in
    let ls = lines_at (suc o + length r.bytes) r.left in
    ap (λ x. keep p (add_byte (b == newline) o b x)) (lines_at-read_line (suc o) c src)
    ∙ keep-add_byte p (b == newline) o b (suc o, r.bytes) ls (h o (omega arith))
        (h (suc o) (omega arith))
    ∙ ap (keep p) (sym (lines_at-read_line (suc o) c src))
    ∙ keep-skip p k (suc o) (c ∷ src) (λ x e. h x (omega (arith, e)))
    ∙ ap (keep p) (
        lines_at-offset (suc o + k + length (read_line (drop k (c ∷ src))).bytes)
          (o + suc k + length (read_line (drop k (c ∷ src))).bytes)
          (read_line (drop k (c ∷ src))).left (omega arith))
