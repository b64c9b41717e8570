-- ===== src/Tracker/Laws.antt =====
-- What a source relies on of its tracker, as an interface, and that both kinds provide it.
use omnibeam_go.Common.{
  ◌<◌, ◌^◌, ◌≡◌, refl, Bool, true, false, ◌||◌, Option, none, some, arith, if◌then◌else◌,
}
use omnibeam_go.Common.Int.{
  ℤ, pos, pos_part, ◌+ℤ◌, ◌-ℤ◌, ◌≤ℤ◌, ◌<ℤ◌, leb_ℤ, ltb_ℤ, +ℤ_parts, +ℤ_le, -ℤ_le, parts, int_laws,
}
use omnibeam_go.Common.Word.{IsI64, add64, sub64, add64_exact, sub64_exact}
use omnibeam_go.Tracker.{
  Range, Position, int64, int, unsupported, Tracker, new_tracker, claim_offset, reject, Fraction,
  split_at,
}
use omnibeam_go.Tracker.ByteOffset
use omnibeam_go.Tracker.Index

-- The start is not negative, as every source's is; the last claim is in the range or just before.
pub record IsValid (t : Tracker) : Type 0 where
  pub start_nonneg : pos 0 ≤ℤ t.rest.start
  pub end_fits : pos_part t.rest.end_ < 2 ^ 63
  pub claim_from : t.rest.start ≤ℤ t.claimed +ℤ pos 1
  pub claim_below : t.claimed <ℤ t.rest.end_

-- What a claim does: it advances the last claim inside the range, or fails and leaves it; the range
-- stays.
pub record Claims (t : Tracker) (r : Tracker × Bool) : Type 0 where
  pub same_range : r.0.rest ≡ t.rest
  pub accepted :
      r.1 ≡ true
      → (t.claimed <ℤ r.0.claimed) × (t.rest.start ≤ℤ r.0.claimed) × (r.0.claimed <ℤ t.rest.end_)
  pub refused : r.1 ≡ false → r.0.claimed ≡ t.claimed

-- What a split does: nothing, or it cuts the range above the last claim and inside the range.
pub record Splits (t : Tracker) (r : Tracker × Option (Range × Range)) : Type 0 where
  pub unsplit : r.1 ≡ none → r.0 ≡ t
  pub cut :
      (a b : Range)
      → r.1 ≡ some (a, b)
      → (a.start ≡ t.rest.start)
        × (a.end_ ≡ b.start)
        × (b.end_ ≡ t.rest.end_)
        × (r.0.rest ≡ a)
        × (r.0.claimed ≡ t.claimed)
        × (t.claimed <ℤ b.start)
        × (t.rest.start <ℤ b.start)
        × (b.start <ℤ b.end_)

next_fits : (t : Tracker) → IsValid t → IsI64 (t.claimed +ℤ pos 1)
next_fits t v = omega (
  arith,
  +ℤ_le t.claimed (pos 1),
  +ℤ_parts t.claimed (pos 1),
  parts t.claimed,
  parts t.rest.end_,
  parts t.rest.start,
  parts (t.claimed +ℤ pos 1),
  v.start_nonneg,
)

module _ (r : Range) (h : pos 0 ≤ℤ r.start) (k : r.start ≤ℤ r.end_)
    (fits : pos_part r.end_ < 2 ^ 63) where
  pub before_start : sub64 r.start (pos 1) ≡ r.start -ℤ pos 1
  before_start =
      sub64_exact r.start (pos 1)
        (omega (arith, -ℤ_le r.start (pos 1), parts r.start, parts r.end_))

  -- A tracker over a range of offsets starts valid.
  pub new_tracker-IsValid : IsValid (new_tracker r)
  unfolding new_tracker
  new_tracker-IsValid = record {
    start_nonneg = h;
    end_fits = fits;
    claim_from = rw before_start (omega int_laws);
    claim_below = rw before_start (omega int_laws);
  }

claim_offset-Claims : (t : Tracker) (p : ℤ) → Claims t (claim_offset t p)
unfolding claim_offset
claim_offset-Claims t p = record {
  same_range = ground arith;
  accepted = ground arith;
  refused = ground arith;
}

pub byte_claim-Claims : (t : Tracker) (p : Position) → Claims t (ByteOffset.try_claim t p)
unfolding ByteOffset.try_claim reject
byte_claim-Claims t (int64 p) = claim_offset-Claims t p
byte_claim-Claims t (int p) = claim_offset-Claims t p
byte_claim-Claims t (unsupported name) = record {
  same_range = refl;
  accepted = λ e. cc;
  refused = λ e. refl;
}

pub index_claim-Claims : (t : Tracker) (p : Position) → Claims t (Index.try_claim t p)
unfolding Index.try_claim reject
index_claim-Claims t (int64 p) = claim_offset-Claims t p
index_claim-Claims t (int p) = claim_offset-Claims t p
index_claim-Claims t (unsupported name) = record {
  same_range = ground arith;
  accepted = ground arith;
  refused = ground arith;
}

unsplit-Splits : (t : Tracker) → Splits t (t, none)
unsplit-Splits t = record { unsplit = λ e. refl; cut = λ a b e. cc }

split_at-Splits :
    (t : Tracker) (p : ℤ)
    → t.claimed <ℤ p
    → t.rest.start <ℤ p
    → p <ℤ t.rest.end_
    → Splits t (split_at t p)
unfolding split_at
split_at-Splits t p h k l = record { unsplit = λ e. cc; cut = ground arith }

-- A guard that declines to split.
guarded :
    (t : Tracker) (b : Bool) {r : Tracker × Option (Range × Range)}
    → (b ≡ false → Splits t r)
    → Splits t (if b then (t, none) else r)
guarded t true s = unsplit-Splits t
guarded t false s = s refl

-- The last guard of both splits: a cut outside the part that is left is declined.
cut_inside :
    (t : Tracker) (c p : ℤ)
    → t.claimed ≤ℤ c
    → t.rest.start ≤ℤ c
    → Splits t (if leb_ℤ p c || leb_ℤ t.rest.end_ p then (t, none) else split_at t p)
cut_inside t c p h k =
    guarded t (leb_ℤ p c || leb_ℤ t.rest.end_ p)
      (λ e. split_at-Splits t p (ground arith) (ground arith) (ground arith))

module _ (𝓕 : Fraction) (t : Tracker) (f : 𝓕.Value) where
  pub byte_split-Splits : Splits t (ByteOffset.try_split 𝓕 t f)
  unfolding ByteOffset.try_split ByteOffset.split_from
  byte_split-Splits =
      let c = if ltb_ℤ t.claimed t.rest.start then t.rest.start else t.claimed in
      guarded t (t.stopped || (𝓕.is_nonpositive f || 𝓕.is_one_or_more f)) (λ e.
        guarded t (ltb_ℤ (sub64 t.rest.end_ c) (pos 2)) (λ e'.
          cut_inside t c (add64 c (𝓕.round_part (sub64 t.rest.end_ c) f)) (ground arith)
            (ground arith)))

  pub index_split-Splits : IsValid t → Splits t (Index.try_split 𝓕 t f)
  unfolding Index.try_split
  index_split-Splits v =
      let next = add64 t.claimed (pos 1) in
      let exact = add64_exact t.claimed (pos 1) (next_fits t v) in
      guarded t (t.stopped || (𝓕.is_nonpositive f || 𝓕.is_one_or_more f)) (λ e.
        cut_inside t next
          (add64 next (𝓕.round_part (sub64 (sub64 t.rest.end_ t.claimed) (pos 1)) f))
          (rw exact (omega int_laws)) (rw exact (omega (int_laws, v.claim_from))))

-- What the runs below need of a tracker: its claim, its split, and their laws.
pub record TrackerLaws : Type 1 where
  pub Value : Type 0
  pub claim : Tracker → Position → Tracker × Bool
  pub split : Tracker → Value → Tracker × Option (Range × Range)
  pub claims : (t : Tracker) (p : Position) → IsValid t → Claims t (claim t p)
  pub splits : (t : Tracker) (f : Value) → IsValid t → Splits t (split t f)

abbrev pub byte_offset_laws : Fraction → TrackerLaws
byte_offset_laws 𝓕 = record {
  Value = 𝓕.Value;
  claim = ByteOffset.try_claim;
  split = ByteOffset.try_split 𝓕;
  claims = λ t p v. byte_claim-Claims t p;
  splits = λ t f v. byte_split-Splits 𝓕 t f;
}

abbrev pub index_laws : Fraction → TrackerLaws
index_laws 𝓕 = record {
  Value = 𝓕.Value;
  claim = Index.try_claim;
  split = Index.try_split 𝓕;
  claims = λ t p v. index_claim-Claims t p;
  splits = λ t f v. index_split-Splits 𝓕 t f v;
}

-- Both operations keep a tracker valid.
pub claim-IsValid : (t : Tracker) (r : Tracker × Bool) → IsValid t → Claims t r → IsValid r.0
claim-IsValid t (t', true) v c = record {
  start_nonneg = ground (arith, c.same_range);
  end_fits = ground (arith, c.same_range);
  claim_from = ground (arith, c.same_range, c.accepted refl, +ℤ_parts t'.claimed (pos 1));
  claim_below = ground (arith, c.same_range, c.accepted refl);
}
claim-IsValid t (t', false) v c = record {
  start_nonneg = ground (arith, c.same_range);
  end_fits = ground (arith, c.same_range);
  claim_from = ground (arith, c.same_range, c.refused refl);
  claim_below = ground (arith, c.same_range, c.refused refl);
}

pub split-IsValid :
    (t : Tracker) (r : Tracker × Option (Range × Range)) → IsValid t → Splits t r → IsValid r.0
split-IsValid t (t', none) v s = rw (s.unsplit refl) v
split-IsValid t (t', some (a, b)) v s = record {
  start_nonneg = ground (arith, s.cut a b refl);
  end_fits = ground (arith, s.cut a b refl, parts b.start, parts t.rest.end_);
  claim_from = ground (arith, s.cut a b refl);
  claim_below = ground (arith, s.cut a b refl);
}
