-- ===== src/Coercion/DecimalExact.antt =====
-- `CoerceDecimalFast` of internal/domain/coercion.go gives the nearest decimal of the scale.
use native.Mathlib.Nat.{one-le-pow, zero-min}
use omnibeam_go.Common.{
  ℕ, suc, ◌+◌, ◌*◌, ◌-◌, ◌%◌, ◌^◌, ◌≤◌, ◌<◌, ◌≡◌, refl, sym, ap, ◌∙◌, Bool, true, false, ◌⊎◌, inr,
  List, [], ◌∷◌, ◌++◌, Option, none, some, length, take, All, All-append, min, leb, if◌then◌else◌,
  str_eq, arith,
}
use omnibeam_go.Common.Int.{ℤ, pos, ◌-ℤ◌}
use omnibeam_go.Numbers.Exact.{
  IsDigit, value_from, value_grows, Sign, minus, plus, unsigned, sign_text, is_minus,
  trim_space-keeps, no_space, negated, kept_positive,
}
use omnibeam_go.Coercion.Scan.{
  next_digit, scan_integral, scan_fraction, scan_next, scan_point, scan_end, take-nil,
}
use omnibeam_go.Coercion.Nearest.{IsNearest, carry, pad-exact, nearest_unique, rounded-IsNearest}
use omnibeam_go.Coercion.Decimal.{
  fail_text, scan_decimal, signed, finish_decimal, scan_start, coerce_magnitude, coerce_trimmed,
  coerce_decimal_fast,
}

-- A decimal text: digits, with a point and more digits behind it or without.
abbrev pub fraction_text : Option (List ℕ) → List ℕ
fraction_text none = []
fraction_text (some s) = 46 ∷ s

abbrev pub fraction_digits : Option (List ℕ) → List ℕ
fraction_digits none = []
fraction_digits (some s) = s

-- The text without its sign is scanned to what its digits say.
scan_text :
    (t : ℕ) (f : Bool) (s : List ℕ) (o : Option (List ℕ))
    → All IsDigit s
    → All IsDigit (fraction_digits o)
    → value_from (value_from 0 s) (take t (fraction_digits o)) < 2 ^ 64
    → (f ≡ false) ⊎ (length (fraction_digits o) ≤ t)
    → scan_decimal (pos t) f scan_start (s ++ fraction_text o)
      ≡ inr (record {
        mantissa = value_from (value_from 0 s) (take t (fraction_digits o));
        seen_dot = elim o [ none ↦ false | some r ↦ true ];
        dec_digits = min (length (fraction_digits o)) (suc t);
        round_up = leb 5 (next_digit t (fraction_digits o));
      })
scan_text t f s none h k small may =
    rw (take-nil t, zero-min (suc t))
      (scan_integral (pos t) f s [] 0 h (rw (take-nil t) at small) ∙ scan_end (pos t) f _)
scan_text t f s (some r) h k small may =
    scan_integral (pos t) f s (46 ∷ r) 0 h
      (omega (arith, small, value_grows (take t r) (value_from 0 s)))
    ∙ scan_next (pos t) f _ _ 46 r (scan_point (pos t) f (value_from 0 s))
    ∙ scan_fraction t f r (value_from 0 s) 0 t k (omega arith) small may
    ∙ ap
        (λ m. inr (record {
          mantissa = value_from (value_from 0 s) (take t r);
          seen_dot = true;
          dec_digits = m;
          round_up = leb 5 (next_digit t r);
        }))
        (omega arith)

-- What the code computes from the digits that it kept.
kept_digits : ℕ → List ℕ → Option (List ℕ) → ℕ
kept_digits t s o = value_from (value_from 0 s) (take t (fraction_digits o))

finish-rounded :
    (t : ℕ) (neg dot : Bool) (v a l : ℕ) (e : ℕ)
    → t - min l (suc t) ≡ a
    → v * 10 ^ a + carry e < 2 ^ 64
    → finish_decimal (pos t) neg (
        inr
          (record { mantissa = v; seen_dot = dot; dec_digits = min l (suc t); round_up = leb 5 e }))
      ≡ inr (signed neg (v * 10 ^ a + carry e), pos t)
unfolding finish_decimal
finish-rounded t neg dot v a l e ha small =
    rw (ha, pad-exact a v (omega (arith, small)))
      (ap (λ m. inr (signed neg m, pos t)) (plus_carry (v * 10 ^ a) small))
  where
    plus_carry :
        (m : ℕ) → m + carry e < 2 ^ 64 → (if leb 5 e then (m + 1) % 2 ^ 64 else m) ≡ m + carry e
    plus_carry m h = ground (arith, h)

-- The magnitudes of the int64s of a sign.
abbrev pub Fits : Bool → ℕ → Type 0
Fits neg r = r < 2 ^ 63 + (if neg then 1 else 0)

signed-exact :
    (neg : Bool) (r : ℕ) → Fits neg r → signed neg r ≡ (if neg then pos 0 -ℤ pos r else pos r)
unfolding signed
signed-exact true r h = negated r (omega (arith, h))
signed-exact false r h = kept_positive r (omega (arith, h))

module _ (t : ℕ) (s : List ℕ) (o : Option (List ℕ)) (r : ℕ) (neg f : Bool) (hs : All IsDigit s)
    (ho : All IsDigit (fraction_digits o)) (may : (f ≡ false) ⊎ (length (fraction_digits o) ≤ t))
    (nearest : IsNearest
      (value_from (value_from 0 s) (fraction_digits o) * 10 ^ (t - length (fraction_digits o)))
      (10 ^ (length (fraction_digits o) - t))
      r)
    (fits : Fits neg r) where
  computed :
      r
      ≡ kept_digits t s o * 10 ^ (t - length (fraction_digits o))
        + carry (next_digit t (fraction_digits o))
  unfolding kept_digits
  computed = nearest_unique _ _ _ _ nearest (
      rounded-IsNearest (fraction_digits o) (value_from 0 s) t (t - length (fraction_digits o))
        (length (fraction_digits o) - t) ho (omega arith) (ground arith))

  small_enough : r < 2 ^ 64
  small_enough = ground (arith, fits)

  kept_small : kept_digits t s o < 2 ^ 64
  kept_small = grind (arith, computed, small_enough, one-le-pow (t - length (fraction_digits o)) 10)

  magnitude-nearest :
      finish_decimal (pos t) neg (scan_decimal (pos t) f scan_start (s ++ fraction_text o))
      ≡ inr ((if neg then pos 0 -ℤ pos r else pos r), pos t)
  unfolding kept_digits
  magnitude-nearest =
      ap (finish_decimal (pos t) neg) (scan_text t f s o hs ho kept_small may)
      ∙ finish-rounded t neg _ (kept_digits t s o) (t - length (fraction_digits o))
          (length (fraction_digits o)) (next_digit t (fraction_digits o)) (omega arith)
          (omega (arith, sym computed, small_enough))
      ∙ ap (λ (m : ℕ). inr (signed neg m, pos t)) (sym computed)
      ∙ ap (λ z. inr (z, pos t)) (signed-exact neg r fits)

no_space_fraction :
    (o : Option (List ℕ)) → All IsDigit (fraction_digits o) → All (λ c. 33 ≤ c) (fraction_text o)
no_space_fraction none h = tt
no_space_fraction (some s) h = (omega arith, no_space s h)

no_space_sign : (sign : Sign) → All (λ c. 33 ≤ c) (sign_text sign)
no_space_sign minus = (omega arith, tt)
no_space_sign plus = (omega arith, tt)
no_space_sign unsigned = tt

trimmed-sign :
    (sign : Sign) (t : ℤ) (f : Bool) (c : ℕ) (s : List ℕ)
    → IsDigit c
    → coerce_trimmed t f (sign_text sign ++ (c ∷ s))
      ≡ finish_decimal t (is_minus sign) (scan_decimal t f scan_start (c ∷ s))
unfolding coerce_trimmed coerce_magnitude
trimmed-sign minus t f c s h = refl
trimmed-sign plus t f c s h = refl
trimmed-sign unsigned t f c s h = ground (arith, h)

-- A decimal text with a digit at least before the point is coerced to the nearest decimal of the
-- scale, the larger magnitude of two, if that fits an int64, and if the policy rounds or no digit is too many.
pub coerce_decimal_fast-nearest :
    (sign : Sign) (c : ℕ) (s : List ℕ) (o : Option (List ℕ)) (t r : ℕ) (policy : List ℕ)
    → All IsDigit (c ∷ s)
    → All IsDigit (fraction_digits o)
    → (str_eq policy fail_text ≡ false) ⊎ (length (fraction_digits o) ≤ t)
    → IsNearest
        (value_from (value_from 0 (c ∷ s)) (fraction_digits o)
          * 10 ^ (t - length (fraction_digits o)))
        (10 ^ (length (fraction_digits o) - t))
        r
    → Fits (is_minus sign) r
    → coerce_decimal_fast (sign_text sign ++ (c ∷ (s ++ fraction_text o))) (pos t) policy
      ≡ inr ((if is_minus sign then pos 0 -ℤ pos r else pos r), pos t)
unfolding coerce_decimal_fast
coerce_decimal_fast-nearest sign c s o t r policy h k may nearest fits =
    ap (coerce_trimmed (pos t) (str_eq policy fail_text)) (
      trim_space-keeps _ (
        All-append (λ c. 33 ≤ c) (sign_text sign) (c ∷ (s ++ fraction_text o)) (no_space_sign sign)
          (All-append (λ c. 33 ≤ c) (c ∷ s) (fraction_text o) (no_space (c ∷ s) h)
            (no_space_fraction o k))))
    ∙ trimmed-sign sign (pos t) (str_eq policy fail_text) c (s ++ fraction_text o) h.0
    ∙ magnitude-nearest t (c ∷ s) o r (is_minus sign) (str_eq policy fail_text) h k may nearest fits
