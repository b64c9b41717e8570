-- ===== src/Coercion/RoundTrip.antt =====
-- `CoerceDecimalFast` of internal/domain/coercion.go reads what `FormatDecimal` of
-- internal/domain/record.go writes.
use native.Mathlib.Nat.{pow-suc}
use omnibeam_go.Common.{
  ℕ, zero, suc, ◌+◌, ◌*◌, ◌-◌, ◌/◌, ◌%◌, ◌^◌, ◌<◌, ◌≡◌, refl, sym, ap, ◌∙◌, Bool, true, false, inr,
  List, [], ◌∷◌, ◌++◌, Option, none, some, length, length-append, length-replicate, length-drop,
  take, drop, replicate, All, All-append, ltb, leb, if◌then◌else◌, arith, append-nil, leb→le,
}
use omnibeam_go.Common.Int.{ℤ, pos, negsuc, ◌-ℤ◌}
use omnibeam_go.Common.Word.{IsI64, to_u64, of_u64, wrap64, sub64}
use omnibeam_go.Numbers.Exact.{IsDigit, value_from, Sign, minus, unsigned, sign_text, is_minus}
use omnibeam_go.Coercion.Decimal.{coerce_decimal_fast}
use omnibeam_go.Coercion.Scan.{value_from-append}
use omnibeam_go.Coercion.Nearest.{IsNearest}
use omnibeam_go.Coercion.DecimalExact.{
  fraction_text, fraction_digits, Fits, coerce_decimal_fast-nearest,
}
use omnibeam_go.Coercion.FormatDecimal.{
  digits, format_uint, sign_of, magnitude, format_int, with_point, format_decimal,
}

-- The digits of a number stand for it.
digits-value : (k n : ℕ) → n < 10 ^ k → 0 < k → value_from 0 (digits k n) ≡ n
unfolding digits
digits-value zero n h p = absurd (omega (arith, p))
digits-value (suc zero) n h p = ground (arith, h)
digits-value (suc (suc k)) n h p = ground (
  arith,
  value_from-append (digits (suc k) (n / 10)) ((48 + n % 10) ∷ []) 0,
  digits-value (suc k) (n / 10) (omega (arith, h, pow-suc 10 (suc k))) (omega arith),
)

digits-IsDigit : (k n : ℕ) → All IsDigit (digits k n)
unfolding digits
digits-IsDigit zero n = tt
digits-IsDigit (suc k) n = by_test (ltb n 10) refl (digits-IsDigit k (n / 10))
  where
    by_test :
        (t : Bool)
        → ltb n 10 ≡ t
        → All IsDigit (digits k (n / 10))
        → All IsDigit (if t then (48 + n) ∷ [] else digits k (n / 10) ++ ((48 + n % 10) ∷ []))
    by_test true e h = ((omega arith, ground arith), tt)
    by_test false e h =
        All-append IsDigit (digits k (n / 10)) ((48 + n % 10) ∷ []) h
          ((omega arith, omega arith), tt)

digits_some : (k n : ℕ) → 0 < k → 0 < length (digits k n)
unfolding digits
digits_some zero n h = absurd (omega (arith, h))
digits_some (suc k) n h = ground (arith, length-append (digits k (n / 10)) ((48 + n % 10) ∷ []))

-- A text whose scale is the number of its digits behind the point.
self-IsNearest : (n a b : ℕ) → a ≡ 0 → b ≡ 0 → IsNearest (n * 10 ^ a) (10 ^ b) n
self-IsNearest n a b ha hb = rw (ha, hb) (omega arith)

take-drop : (k : ℕ) (s : List ℕ) → take k s ++ drop k s ≡ s
take-drop zero s = refl
take-drop (suc k) [] = refl
take-drop (suc k) (c ∷ s) = rw (take-drop k s)

All-take : (k : ℕ) (s : List ℕ) → All IsDigit s → All IsDigit (take k s)
All-take zero s h = tt
All-take (suc k) [] h = tt
All-take (suc k) (c ∷ s) h = (h.0, All-take k s h.1)

All-drop : (k : ℕ) (s : List ℕ) → All IsDigit s → All IsDigit (drop k s)
All-drop zero s h = h
All-drop (suc k) [] h = h
All-drop (suc k) (c ∷ s) h = All-drop k s h.1

All-zeros : (k : ℕ) → All IsDigit (replicate k 48)
All-zeros zero = tt
All-zeros (suc k) = ((omega arith, omega arith), All-zeros k)

value_from-zeros : (k : ℕ) (s : List ℕ) → value_from 0 (replicate k 48 ++ s) ≡ value_from 0 s
value_from-zeros zero s = refl
value_from-zeros (suc k) s = value_from-zeros k s

-- A text of digits around a point, or of digits alone, read back at its own scale.
module _ (sign : Sign) (policy : List ℕ) (t r : ℕ) (fits : Fits (is_minus sign) r) where
  read_parts :
      (c : ℕ) (s : List ℕ) (o : Option (List ℕ))
      → All IsDigit (c ∷ s)
      → All IsDigit (fraction_digits o)
      → length (fraction_digits o) ≡ t
      → value_from 0 ((c ∷ s) ++ fraction_digits o) ≡ r
      → coerce_decimal_fast (sign_text sign ++ (c ∷ (s ++ fraction_text o))) (pos t) policy
        ≡ inr ((if is_minus sign then pos 0 -ℤ pos r else pos r), pos t)
  read_parts c s o h k e v =
      coerce_decimal_fast-nearest sign c s o t r policy h k (inr (omega (arith, e)))
        (rw (sym (value_from-append (c ∷ s) (fraction_digits o) 0), v)
          (self-IsNearest r _ _ (omega (arith, e)) (omega (arith, e))))
        fits

  read_front :
      (front : List ℕ) (o : Option (List ℕ))
      → 0 < length front
      → All IsDigit front
      → All IsDigit (fraction_digits o)
      → length (fraction_digits o) ≡ t
      → value_from 0 (front ++ fraction_digits o) ≡ r
      → coerce_decimal_fast (sign_text sign ++ (front ++ fraction_text o)) (pos t) policy
        ≡ inr ((if is_minus sign then pos 0 -ℤ pos r else pos r), pos t)
  read_front [] o some_ h k e v = absurd (omega (arith, some_))
  read_front (c ∷ s) o some_ h k e v = read_parts c s o h k e v

  read_point :
      (str : List ℕ)
      → All IsDigit str
      → value_from 0 str ≡ r
      → coerce_decimal_fast (sign_text sign ++ with_point t str) (pos t) policy
        ≡ inr ((if is_minus sign then pos 0 -ℤ pos r else pos r), pos t)
  unfolding with_point
  read_point str h v = by_test (leb (length str) t) refl
    where
      by_test :
          (b : Bool)
          → leb (length str) t ≡ b
          → coerce_decimal_fast
              (sign_text sign
                ++ (if b
                    then 48 ∷ 46 ∷ (replicate (t - length str) 48 ++ str)
                    else take (length str - t) str ++ (46 ∷ drop (length str - t) str)))
              (pos t)
              policy
            ≡ inr ((if is_minus sign then pos 0 -ℤ pos r else pos r), pos t)
      by_test true e =
          read_parts 48 [] (some (replicate (t - length str) 48 ++ str))
            ((omega arith, omega arith), tt)
            (All-append IsDigit (replicate (t - length str) 48) str (All-zeros (t - length str)) h)
            (omega (
              arith,
              leb→le (length str) t e,
              length-append (replicate (t - length str) 48) str,
              length-replicate {A = ℕ} (t - length str) 48,
            ))
            (value_from-zeros (t - length str) str ∙ v)
      by_test false e =
          read_front (take (length str - t) str) (some (drop (length str - t) str))
            (ground (
              arith,
              length-append (take (length str - t) str) (drop (length str - t) str),
              take-drop (length str - t) str,
              length-drop (length str - t) str,
            ))
            (All-take (length str - t) str h) (All-drop (length str - t) str h)
            (ground (arith, length-drop (length str - t) str))
            (ap (value_from 0) (take-drop (length str - t) str) ∙ v)

  read_digits :
      t ≡ 0
      → (str : List ℕ) → 0 < length str
      → All IsDigit str
      → value_from 0 str ≡ r
      → coerce_decimal_fast (sign_text sign ++ str) (pos t) policy
        ≡ inr ((if is_minus sign then pos 0 -ℤ pos r else pos r), pos t)
  read_digits e str some_ h v =
      rw (append-nil str) at (read_front str none some_ h tt (sym e) (rw (append-nil str) v))

abbrev sign_for : ℤ → Sign
sign_for (pos n) = unsigned
sign_for (negsuc n) = minus

abbrev size : ℤ → ℕ
size (pos n) = n
size (negsuc n) = suc n

sign_of-text : (m : ℤ) → sign_of m ≡ sign_text (sign_for m)
sign_of-text (pos n) = ground arith
sign_of-text (negsuc n) = ground arith

magnitude-size : (m : ℤ) → IsI64 m → magnitude m ≡ size m
unfolding magnitude to_u64 sub64 wrap64 of_u64 ◌-ℤ◌
magnitude-size (pos n) h = ground (arith, h)
magnitude-size (negsuc n) h = ground (arith, h)

size-Fits : (m : ℤ) → IsI64 m → Fits (is_minus (sign_for m)) (size m)
size-Fits (pos n) h = omega (arith, h)
size-Fits (negsuc n) h = omega (arith, h)

signed_size : (m : ℤ) → (if is_minus (sign_for m) then pos 0 -ℤ pos (size m) else pos (size m)) ≡ m
unfolding ◌-ℤ◌
signed_size (pos n) = refl
signed_size (negsuc n) = ground arith

read_formatted :
    (sign : Sign) (policy : List ℕ) (t n : ℕ) (b : Bool)
    → Fits (is_minus sign) n
    → leb (t + 0) 0 ≡ b
    → coerce_decimal_fast
        (if b
          then sign_text sign ++ format_uint n
          else sign_text sign ++ with_point t (format_uint n))
        (pos t)
        policy
      ≡ inr ((if is_minus sign then pos 0 -ℤ pos n else pos n), pos t)
unfolding format_uint
read_formatted sign policy t n true fits e =
    read_digits sign policy t n fits (ground (arith, e)) (digits 20 n)
      (digits_some 20 n (omega arith)) (digits-IsDigit 20 n)
      (digits-value 20 n (ground (arith, fits)) (omega arith))
read_formatted sign policy t n false fits e =
    read_point sign policy t n fits (digits 20 n) (digits-IsDigit 20 n)
      (digits-value 20 n (ground (arith, fits)) (omega arith))

-- An int64 mantissa that is formatted at a scale from 0 on is read back at that scale, whatever the
-- policy is.
pub coerce_decimal_fast-format_decimal :
    (m : ℤ) (t : ℕ) (policy : List ℕ)
    → IsI64 m
    → coerce_decimal_fast (format_decimal m (pos t)) (pos t) policy ≡ inr (m, pos t)
unfolding format_decimal format_int
coerce_decimal_fast-format_decimal m t policy h =
    rw (sign_of-text m, magnitude-size m h)
      (read_formatted (sign_for m) policy t (size m) (leb (t + 0) 0) (size-Fits m h) refl
        ∙ ap (λ z. inr (z, pos t)) (signed_size m))
