-- ===== src/Tracker/Runs.antt =====
-- Whole lives of a tracker: any sequence of claims and splits, in the order in which the mutex
-- admits them, from any number of goroutines.
use omnibeam_go.Common.{
  ◌<◌, ◌^◌, ◌≡◌, refl, sym, ap, subst, ◌∙◌, Bool, true, false, Option, none, some, List, [], ◌∷◌,
  arith, All,
}
use omnibeam_go.Common.Int.{ℤ, pos, pos_part, ◌+ℤ◌, ◌≤ℤ◌, ◌<ℤ◌, +ℤ_parts}
use omnibeam_go.Tracker.{Range, Position, Tracker, new_tracker, mark_done}
use omnibeam_go.Tracker.Laws.{
  IsValid, Claims, Splits, TrackerLaws, new_tracker-IsValid, claim-IsValid, split-IsValid,
}

-- The calls of `TryClaim`, `TrySplit` and `MarkDone`.
pub data Call (V : Type 0) : Type 0 where
  claim : Position → Call V
  split : V → Call V
  finish : Call V

-- The tracker, the positions that were claimed and the ranges that were given away, newest first.
pub record Life : Type 0 where
  pub tracker : Tracker
  pub claims : List ℤ
  pub residuals : List Range

-- A claim that succeeds is noted.
unfoldable pub note_claim : Life → Tracker × Bool → Life
note_claim l (t, true) = record l { tracker = t; claims = t.claimed ∷ l.claims }
note_claim l (t, false) = record l { tracker = t }

unfoldable pub note_split : Life → Tracker × Option (Range × Range) → Life
note_split l (t, none) = record l { tracker = t }
note_split l (t, some (a, b)) = record l { tracker = t; residuals = b ∷ l.residuals }

-- Claims, newest first: each is above the next, and all are in the range from its start on.
abbrev pub Descending : ℤ → ℤ → List ℤ → Type 0
Descending start bound [] = Unit
Descending start bound (c ∷ cs) = (c <ℤ bound) × (start ≤ℤ c) × Descending start c cs

-- Residuals, newest first: each starts where the one before it in time, or the part that is kept,
-- ends, and none is empty.
abbrev pub Tiles : ℤ → List Range → ℤ → Type 0
Tiles from [] to = from ≡ to
Tiles from (b ∷ bs) to = (b.start ≡ from) × (b.start <ℤ b.end_) × Tiles b.end_ bs to

module _ (𝓣 : TrackerLaws) where
  unfoldable pub step : Life → Call 𝓣.Value → Life
  step l (claim p) = note_claim l (𝓣.claim l.tracker p)
  step l (split f) = note_split l (𝓣.split l.tracker f)
  step l finish = record l { tracker = mark_done l.tracker }

  unfoldable pub run : Life → List (Call 𝓣.Value) → Life
  run l [] = l
  run l (c ∷ cs) = run (step l c) cs

abbrev pub born : Range → Life
born r = record { tracker = new_tracker r; claims = []; residuals = [] }

-- What holds of every tracker's life over the range `r`.
pub record IsSound (r : Range) (l : Life) : Type 0 where
  pub valid : IsValid l.tracker
  pub same_start : l.tracker.rest.start ≡ r.start
  pub claims_at : Descending r.start (l.tracker.claimed +ℤ pos 1) l.claims
  pub tiles : Tiles l.tracker.rest.end_ l.residuals r.end_

Descending-mono :
    (start b b' : ℤ) (cs : List ℤ) → b ≤ℤ b' → Descending start b cs → Descending start b' cs
Descending-mono start b b' [] h d = tt
Descending-mono start b b' (c ∷ cs) h d = (omega (arith, h, d.0), d.1, d.2)

note_claim-IsSound :
    (r : Range) (l : Life) (o : Tracker × Bool)
    → IsSound r l
    → Claims l.tracker o
    → IsSound r (note_claim l o)
unfolding note_claim
note_claim-IsSound r l (t, true) s c = record {
  valid = claim-IsValid l.tracker (t, true) s.valid c;
  same_start = ap (λ x. x.start) c.same_range ∙ s.same_start;
  claims_at = (
    omega (arith, +ℤ_parts t.claimed (pos 1)),
    ground (arith, s.same_start, c.accepted refl),
    Descending-mono r.start (l.tracker.claimed +ℤ pos 1) t.claimed l.claims
        (omega (arith, +ℤ_parts l.tracker.claimed (pos 1), c.accepted refl)) s.claims_at,
  );
  tiles = subst (λ x. Tiles x.end_ l.residuals r.end_) (sym c.same_range) s.tiles;
}
note_claim-IsSound r l (t, false) s c = record {
  valid = claim-IsValid l.tracker (t, false) s.valid c;
  same_start = ap (λ x. x.start) c.same_range ∙ s.same_start;
  claims_at =
      subst (λ x. Descending r.start (x +ℤ pos 1) l.claims) (sym (c.refused refl)) s.claims_at;
  tiles = subst (λ x. Tiles x.end_ l.residuals r.end_) (sym c.same_range) s.tiles;
}

note_split-IsSound :
    (r : Range) (l : Life) (o : Tracker × Option (Range × Range))
    → IsSound r l
    → Splits l.tracker o
    → IsSound r (note_split l o)
unfolding note_split
note_split-IsSound r l (t, none) s c = record {
  valid = split-IsValid l.tracker (t, none) s.valid c;
  same_start = ap (λ x. x.rest.start) (c.unsplit refl) ∙ s.same_start;
  claims_at =
      subst (λ x. Descending r.start (x.claimed +ℤ pos 1) l.claims) (sym (c.unsplit refl))
        s.claims_at;
  tiles = subst (λ x. Tiles x.rest.end_ l.residuals r.end_) (sym (c.unsplit refl)) s.tiles;
}
note_split-IsSound r l (t, some (a, b)) s c =
    let (start, mid, stop, kept, same, _, _, inside) = c.cut a b refl in
    record {
      valid = split-IsValid l.tracker (t, some (a, b)) s.valid c;
      same_start = ap (λ x. x.start) kept ∙ start ∙ s.same_start;
      claims_at = subst (λ x. Descending r.start (x +ℤ pos 1) l.claims) (sym same) s.claims_at;
      tiles = (
        sym (ap (λ x. x.end_) kept ∙ mid),
        inside,
        subst (λ x. Tiles x l.residuals r.end_) (sym stop) s.tiles,
      );
    }

mark_done-IsSound :
    (r : Range) (l : Life) → IsSound r l → IsSound r (record l { tracker = mark_done l.tracker })
unfolding mark_done
mark_done-IsSound r l s = record {
  valid = record {
    start_nonneg = s.valid.start_nonneg;
    end_fits = s.valid.end_fits;
    claim_from = s.valid.claim_from;
    claim_below = s.valid.claim_below;
  };
  same_start = s.same_start;
  claims_at = s.claims_at;
  tiles = s.tiles;
}

module _ (𝓣 : TrackerLaws) (r : Range) where
  step-IsSound : (l : Life) (c : Call 𝓣.Value) → IsSound r l → IsSound r (step 𝓣 l c)
  unfolding step
  step-IsSound l (claim p) s =
      note_claim-IsSound r l (𝓣.claim l.tracker p) s (𝓣.claims l.tracker p s.valid)
  step-IsSound l (split f) s =
      note_split-IsSound r l (𝓣.split l.tracker f) s (𝓣.splits l.tracker f s.valid)
  step-IsSound l finish s = mark_done-IsSound r l s

  run_from-IsSound :
      (calls : List (Call 𝓣.Value)) (l : Life) → IsSound r l → IsSound r (run 𝓣 l calls)
  unfolding run
  run_from-IsSound [] l s = s
  run_from-IsSound (c ∷ calls) l s = run_from-IsSound calls (step 𝓣 l c) (step-IsSound l c s)

born-IsSound :
    (r : Range)
    → pos 0 ≤ℤ r.start
    → r.start ≤ℤ r.end_
    → pos_part r.end_ < 2 ^ 63
    → IsSound r (born r)
born-IsSound r h k fits = record {
  valid = new_tracker-IsValid r h k fits;
  same_start = unfold new_tracker in refl;
  claims_at = tt;
  tiles = unfold new_tracker in refl;
}

-- Over a range of offsets, whatever calls are made in whatever order, the accepted claims only
-- grow and stay in the range, and the parts given away, with the part that is kept, tile the range
-- without a gap or an overlap.
pub run-IsSound :
    (𝓣 : TrackerLaws) (r : Range) (calls : List (Call 𝓣.Value))
    → pos 0 ≤ℤ r.start
    → r.start ≤ℤ r.end_
    → pos_part r.end_ < 2 ^ 63
    → IsSound r (run 𝓣 (born r) calls)
run-IsSound 𝓣 r calls h k fits = run_from-IsSound 𝓣 r calls (born r) (born-IsSound r h k fits)

above_claims :
    (start b from : ℤ) (cs : List ℤ) → b ≤ℤ from → Descending start b cs → All (λ c. c <ℤ from) cs
above_claims start b from [] h d = tt
above_claims start b from (c ∷ cs) h d =
    (omega (arith, h, d.0), above_claims start c from cs (omega (arith, h, d.0)) d.2)

above-Tiles :
    (c from to : ℤ) (bs : List Range) → c <ℤ from → Tiles from bs to → All (λ b. c <ℤ b.start) bs
above-Tiles c from to [] h t = tt
above-Tiles c from to (b ∷ bs) h t =
    (ground (arith, t.0), above-Tiles c b.end_ to bs (ground (arith, t.0, t.1)) t.2)

map_All : (P Q : ℤ → Type 0) (cs : List ℤ) → ((c : ℤ) → P c → Q c) → All P cs → All Q cs
map_All P Q [] f a = tt
map_All P Q (c ∷ cs) f a = (f c a.0, map_All P Q cs f a.1)

-- No position that was claimed lies in a part that was given away, so no two workers read it.
pub run-disjoint :
    (𝓣 : TrackerLaws) (r : Range) (calls : List (Call 𝓣.Value))
    → pos 0 ≤ℤ r.start
    → r.start ≤ℤ r.end_
    → pos_part r.end_ < 2 ^ 63
    → let l = run 𝓣 (born r) calls in All (λ c. All (λ b. c <ℤ b.start) l.residuals) l.claims
run-disjoint 𝓣 r calls h k fits =
    let l = run 𝓣 (born r) calls in
    let s = run-IsSound 𝓣 r calls h k fits in
    map_All (λ c. c <ℤ l.tracker.rest.end_) (λ c. All (λ b. c <ℤ b.start) l.residuals) l.claims
      (λ c below. above-Tiles c l.tracker.rest.end_ r.end_ l.residuals below s.tiles)
      (above_claims r.start (l.tracker.claimed +ℤ pos 1) l.tracker.rest.end_ l.claims
        (omega (arith, +ℤ_parts l.tracker.claimed (pos 1), s.valid.claim_below)) s.claims_at)
