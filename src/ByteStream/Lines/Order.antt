-- ===== src/ByteStream/Lines/Order.antt =====
-- The lines of a file in the order of their offsets, and how the lines that pass two tests, one below
-- a place and one from there on, follow one another: for internal/beam/streams/byte_stream_sdf.go.
use omnibeam_go.Common.{
  ℕ, suc, ◌≤◌, ◌<◌, ◌≡◌, ◌⊎◌, inl, inr, refl, sym, ap, ◌∙◌, Bool, true, false, List, [], ◌∷◌, ◌++◌,
  ◌==◌, arith, All,
}
use omnibeam_go.ByteStream.Records.{newline}
use omnibeam_go.ByteStream.Lines.{
  Line, extend, add_byte, lines_at, lines_at-From, keep, keep-in, keep-out, keep-none,
}

-- Each line starts before the next.
abbrev pub Ascending : List Line → Type 0
Ascending [] = Unit
Ascending (l ∷ ls) = All (λ k. suc l.0 ≤ k.0) ls × Ascending ls

extend-Ascending :
    (o b : ℕ) (ls : List Line)
    → All (λ l. suc o ≤ l.0) ls
    → Ascending ls
    → Ascending (extend o b ls)
extend-Ascending o b [] h k = (tt, tt)
extend-Ascending o b (l ∷ ls) h k = (h.1, k.1)

add_byte-Ascending :
    (t : Bool) (o b : ℕ) (ls : List Line)
    → All (λ l. suc o ≤ l.0) ls
    → Ascending ls
    → Ascending (add_byte t o b ls)
add_byte-Ascending true o b ls h k = (h, k)
add_byte-Ascending false o b ls h k = extend-Ascending o b ls h k

pub lines_at-Ascending : (o : ℕ) (src : List ℕ) → Ascending (lines_at o src)
unfolding lines_at
lines_at-Ascending o [] = tt
lines_at-Ascending o (b ∷ src) =
    add_byte-Ascending (b == newline) o b (lines_at (suc o) src) (lines_at-From (suc o) src)
      (lines_at-Ascending (suc o) src)

keep-cons :
    (p q : ℕ → Bool) (l : Line) (ls : List Line)
    → p l.0 ≡ q l.0
    → keep p ls ≡ keep q ls
    → keep p (l ∷ ls) ≡ keep q (l ∷ ls)
unfolding keep
keep-cons p q l ls h k = rw (h, k) refl

pub keep-agree :
    (p q : ℕ → Bool) (m : ℕ) (ls : List Line)
    → All (λ l. m ≤ l.0) ls
    → ((x : ℕ) → m ≤ x → p x ≡ q x)
    → keep p ls ≡ keep q ls
keep-agree p q m [] h k = unfold keep in refl
keep-agree p q m (l ∷ ls) h k = keep-cons p q l ls (k l.0 h.0) (keep-agree p q m ls h.1 k)

by_place : (x m : ℕ) → (x < m) ⊎ (m ≤ x)
by_place x m = ground arith

weaken : (ls : List Line) (x m : ℕ) → m ≤ x → All (λ k. suc x ≤ k.0) ls → All (λ k. m ≤ k.0) ls
weaken [] x m h a = tt
weaken (l ∷ ls) x m h a = (omega (arith, h, a.0), weaken ls x m h a.1)

-- The lines below `m` that pass a test, and then those from `m` on that pass another.
module _ (p q r : ℕ → Bool) (m : ℕ) (low : (x : ℕ) → x < m → (q x ≡ false) × (r x ≡ p x))
    (high : (x : ℕ) → m ≤ x → (p x ≡ false) × (r x ≡ q x)) where
  keep-append-low :
      (l : Line) (ls : List Line) (t : Bool)
      → p l.0 ≡ t
      → l.0 < m
      → keep p ls ++ keep q ls ≡ keep r ls
      → keep p (l ∷ ls) ++ keep q (l ∷ ls) ≡ keep r (l ∷ ls)
  keep-append-low l ls true e h ih =
      rw (keep-in p l ls e, keep-out q l ls (low l.0 h).0, keep-in r l ls ((low l.0 h).1 ∙ e))
        (ap (◌∷◌ l.1) ih)
  keep-append-low l ls false e h ih =
      rw (keep-out p l ls e, keep-out q l ls (low l.0 h).0, keep-out r l ls ((low l.0 h).1 ∙ e)) ih

  pub keep-append : (ls : List Line) → Ascending ls → keep p ls ++ keep q ls ≡ keep r ls
  keep-append [] a = unfold keep in refl
  keep-append (l ∷ ls) a = elim (by_place l.0 m) [
    | inl below ↦ keep-append-low l ls (p l.0) refl below (keep-append ls a.1)
    | inr from ↦
        ap (λ x. x ++ keep q (l ∷ ls))
          (keep-none p m (l ∷ ls) (from, weaken ls l.0 m (omega (arith, from)) a.0)
            (λ x o. (high x o).0))
        ∙ sym (
            keep-agree r q m (l ∷ ls) (from, weaken ls l.0 m (omega (arith, from)) a.0)
              (λ x o. (high x o).1))
  ]
