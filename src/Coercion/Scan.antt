-- ===== src/Coercion/Scan.antt =====
-- The loop of `CoerceDecimalFast` of internal/domain/coercion.go over digits.
use omnibeam_go.Common.{
  ℕ, zero, suc, ◌+◌, ◌*◌, ◌-◌, ◌^◌, ◌≤◌, ◌<◌, ◌≡◌, refl, ap, ◌∙◌, Bool, true, false, ◌⊎◌, inl, inr,
  List, [], ◌∷◌, ◌++◌, length, get_or, take, All, min, leb, arith,
}
use omnibeam_go.Common.Int.{ℤ, pos}
use omnibeam_go.Numbers.Exact.{IsDigit, value_from, value_grows}
use omnibeam_go.Coercion.Decimal.{
  DecimalError, Scan, take_digit, take_character, scan_decimal, scan_start,
}

-- The state of the loop behind the digits before the point.
pub scan_integral :
    (t : ℤ) (f : Bool) (s rest : List ℕ) (n : ℕ)
    → All IsDigit s
    → value_from n s < 2 ^ 64
    → scan_decimal t f (record scan_start { mantissa = n }) (s ++ rest)
      ≡ scan_decimal t f (record scan_start { mantissa = value_from n s }) rest
unfolding scan_decimal take_character take_digit
scan_integral t f [] rest n h small = refl
scan_integral t f (c ∷ s) rest n h small = ground (
  arith,
  h.0,
  value_grows s (n * 10 + (c - 48)),
  scan_integral t f s rest (n * 10 + (c - 48)) h.1 small,
)

-- Digits beyond the first one too many are skipped.
scan_beyond :
    (t : ℕ) (f : Bool) (s : List ℕ) (n : ℕ) (up : Bool)
    → All IsDigit s
    → scan_decimal
        (pos t)
        f
        (record { mantissa = n; seen_dot = true; dec_digits = suc t; round_up = up })
        s
      ≡ inr (record { mantissa = n; seen_dot = true; dec_digits = suc t; round_up = up })
unfolding scan_decimal take_character take_digit
scan_beyond t f [] n up h = refl
scan_beyond t f (c ∷ s) n up h = ground (arith, h.0, scan_beyond t f s n up h.1)

-- The first digit beyond `k` places, as a number.
abbrev pub next_digit : ℕ → List ℕ → ℕ
next_digit k s = get_or s k 48 - 48

pub take-nil : (k : ℕ) → take {A = ℕ} k [] ≡ []
take-nil zero = refl
take-nil (suc k) = refl

place_step :
    (t n d c : ℕ) (f : Bool)
    → IsDigit c
    → d < t
    → n * 10 + (c - 48) < 2 ^ 64
    → take_character
        (pos t)
        f
        (record { mantissa = n; seen_dot = true; dec_digits = d; round_up = false })
        c
      ≡ inr (record {
        mantissa = n * 10 + (c - 48);
        seen_dot = true;
        dec_digits = suc d;
        round_up = false;
      })
unfolding take_character take_digit
place_step t n d c f h lt small = ground (arith, h)

excess_step :
    (t n c : ℕ)
    → IsDigit c
    → take_character
        (pos t)
        false
        (record { mantissa = n; seen_dot = true; dec_digits = t; round_up = false })
        c
      ≡ inr
          (record { mantissa = n; seen_dot = true; dec_digits = suc t; round_up = leb 5 (c - 48) })
unfolding take_character take_digit
excess_step t n c h = ground (arith, h)

pub scan_next :
    (t : ℤ) (f : Bool) (st st' : Scan) (c : ℕ) (s : List ℕ)
    → take_character t f st c ≡ inr st'
    → scan_decimal t f st (c ∷ s) ≡ scan_decimal t f st' s
unfolding scan_decimal
scan_next t f st st' c s h =
    ap
      (λ (x : DecimalError ⊎ Scan). elim x as (λ _. DecimalError ⊎ Scan) [
        | inl e ↦ inl e
        | inr st'' ↦ scan_decimal t f st'' s
      ])
      h

pub scan_point :
    (t : ℤ) (f : Bool) (n : ℕ)
    → take_character t f (record scan_start { mantissa = n }) 46
      ≡ inr (record { mantissa = n; seen_dot = true; dec_digits = 0; round_up = false })
unfolding take_character
scan_point t f n = refl

pub scan_end : (t : ℤ) (f : Bool) (st : Scan) → scan_decimal t f st [] ≡ inr st
unfolding scan_decimal
scan_end t f st = refl

pub scan_fraction :
    (t : ℕ) (f : Bool) (s : List ℕ) (n d k : ℕ)
    → All IsDigit s
    → d + k ≡ t
    → value_from n (take k s) < 2 ^ 64
    → (f ≡ false) ⊎ (length s ≤ k)
    → scan_decimal
        (pos t)
        f
        (record { mantissa = n; seen_dot = true; dec_digits = d; round_up = false })
        s
      ≡ inr (record {
        mantissa = value_from n (take k s);
        seen_dot = true;
        dec_digits = d + min (length s) (suc k);
        round_up = leb 5 (next_digit k s);
      })
unfolding scan_decimal
scan_fraction t f [] n d k h e small may = ground (arith, take-nil k)
scan_fraction t true (c ∷ s) n d zero h e small (inl impossible) = absurd (ground arith)
scan_fraction t f (c ∷ s) n d zero h e small (inr short) = absurd (omega (arith, short))
scan_fraction t false (c ∷ s) n d zero h e small (inl rounds) =
    let same : t ≡ d = omega (arith, e) in
    rw same (
      scan_next (pos d) false _ _ c s (excess_step d n c h.0)
      ∙ scan_beyond d false s n (leb 5 (c - 48)) h.1
      ∙ ap
          (λ m.
            inr
              (record { mantissa = n; seen_dot = true; dec_digits = m; round_up = leb 5 (c - 48) }))
          (omega arith))
scan_fraction t f (c ∷ s) n d (suc k) h e small may =
    scan_next (pos t) f _ _ c s (
      place_step t n d c f h.0 (omega (arith, e))
        (omega (arith, small, value_grows (take k s) (n * 10 + (c - 48)))))
    ∙ scan_fraction t f s (n * 10 + (c - 48)) (suc d) k h.1 (omega (arith, e)) small
        (ground (arith, may))
    ∙ ap
        (λ m. inr (record {
          mantissa = value_from (n * 10 + (c - 48)) (take k s);
          seen_dot = true;
          dec_digits = m;
          round_up = leb 5 (next_digit k s);
        }))
        (omega arith)

pub value_from-append :
    (s r : List ℕ) (n : ℕ) → value_from n (s ++ r) ≡ value_from (value_from n s) r
value_from-append [] r n = refl
value_from-append (c ∷ s) r n = value_from-append s r (n * 10 + (c - 48))
