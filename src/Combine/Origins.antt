-- ===== src/Combine/Origins.antt =====
-- `OriginCombinerFn`: what its result says of the outcomes, however they are bundled and merged.
use omnibeam_go.Common.{
  ℕ, suc, ◌+◌, ◌<◌, ◌^◌, ◌≡◌, refl, sym, ap, ◌∙◌, Bool, true, false, List, [], ◌∷◌, length, arith,
}
use omnibeam_go.Common.Int.{ℤ, pos}
use omnibeam_go.Common.Word.{
  IsI64, wrap64, add64, add64_comm, add64_assoc, add64_interchange, add64-IsI64, add64_zero,
  wrap64-suc, wrap64_id, of_u64, to_u64,
}
use omnibeam_go.Combine.{
  OriginAccumulator, create_accumulator, add_input, merge_accumulators, extract_output,
}
use omnibeam_go.Combine.Lifting.{Plan, inputs, fold, run, run-P, run-fold}

abbrev pub run_origin : Plan Bool → OriginAccumulator
run_origin = run create_accumulator add_input merge_accumulators

abbrev pub fold_origin : OriginAccumulator → List Bool → OriginAccumulator
fold_origin = fold create_accumulator add_input merge_accumulators

-- The counters are int64, and every input is counted once as valid or as a dead letter.
pub record IsConserved (a : OriginAccumulator) : Type 0 where
  pub total_fits : IsI64 a.total_read
  pub valid_fits : IsI64 a.valid
  pub dlq_fits : IsI64 a.dlq
  pub conserved : a.total_read ≡ add64 a.valid a.dlq

create-IsConserved : IsConserved create_accumulator
create-IsConserved = record {
  total_fits = omega arith;
  valid_fits = omega arith;
  dlq_fits = omega arith;
  conserved = sym (add64_zero (pos 0) (omega arith));
}

swap_last : (a b c : ℤ) → add64 (add64 a b) c ≡ add64 (add64 a c) b
swap_last a b c = add64_assoc a b c ∙ ap (λ t. add64 a t) (add64_comm b c) ∙ sym (add64_assoc a c b)

add_input-IsConserved :
    (a : OriginAccumulator) (x : Bool) → IsConserved a → IsConserved (add_input a x)
unfolding add_input
add_input-IsConserved a true h = record {
  total_fits = add64-IsI64 a.total_read (pos 1);
  valid_fits = h.valid_fits;
  dlq_fits = add64-IsI64 a.dlq (pos 1);
  conserved = ap (λ t. add64 t (pos 1)) h.conserved ∙ add64_assoc a.valid a.dlq (pos 1);
}
add_input-IsConserved a false h = record {
  total_fits = add64-IsI64 a.total_read (pos 1);
  valid_fits = add64-IsI64 a.valid (pos 1);
  dlq_fits = h.dlq_fits;
  conserved = ap (λ t. add64 t (pos 1)) h.conserved ∙ swap_last a.valid a.dlq (pos 1);
}

merge-IsConserved :
    (a b : OriginAccumulator) → IsConserved a → IsConserved b → IsConserved (merge_accumulators a b)
unfolding merge_accumulators
merge-IsConserved a b h k = record {
  total_fits = add64-IsI64 a.total_read b.total_read;
  valid_fits = add64-IsI64 a.valid b.valid;
  dlq_fits = add64-IsI64 a.dlq b.dlq;
  conserved =
      ap (λ t. add64 t b.total_read) h.conserved
      ∙ ap (λ t. add64 (add64 a.valid a.dlq) t) k.conserved
      ∙ add64_interchange a.valid a.dlq b.valid b.dlq;
}

merge-create : (a : OriginAccumulator) → IsConserved a → merge_accumulators a create_accumulator ≡ a
unfolding merge_accumulators
merge-create a h = λ i. record {
  total_read = add64_zero a.total_read h.total_fits i;
  valid = add64_zero a.valid h.valid_fits i;
  dlq = add64_zero a.dlq h.dlq_fits i;
}

merge-add_input :
    (a b : OriginAccumulator) (x : Bool)
    → merge_accumulators a (add_input b x) ≡ add_input (merge_accumulators a b) x
unfolding merge_accumulators add_input
merge-add_input a b true = λ i. record {
  total_read = sym (add64_assoc a.total_read b.total_read (pos 1)) i;
  valid = add64 a.valid b.valid;
  dlq = sym (add64_assoc a.dlq b.dlq (pos 1)) i;
}
merge-add_input a b false = λ i. record {
  total_read = sym (add64_assoc a.total_read b.total_read (pos 1)) i;
  valid = sym (add64_assoc a.valid b.valid (pos 1)) i;
  dlq = add64 a.dlq b.dlq;
}

-- Combiner lifting: bundling and merging the outcomes in any way gives the counts of one pass.
pub run_origin-fold : (p : Plan Bool) → run_origin p ≡ fold_origin create_accumulator (inputs p)
run_origin-fold =
    run-fold create_accumulator add_input merge_accumulators IsConserved create-IsConserved
      add_input-IsConserved merge-IsConserved merge-create merge-add_input

-- Whatever the plan, the total is the valid records and the dead letters together.
pub run_origin-IsConserved : (p : Plan Bool) → IsConserved (run_origin p)
run_origin-IsConserved =
    run-P create_accumulator add_input merge_accumulators IsConserved create-IsConserved
      add_input-IsConserved merge-IsConserved

-- The number of outcomes of one kind.
abbrev pub count : Bool → List Bool → ℕ
count b [] = 0
count true (true ∷ xs) = suc (count true xs)
count true (false ∷ xs) = count true xs
count false (true ∷ xs) = count false xs
count false (false ∷ xs) = suc (count false xs)

abbrev counted : ℕ → ℕ → OriginAccumulator
counted v d = record {
  total_read = wrap64 (pos (v + d));
  valid = wrap64 (pos v);
  dlq = wrap64 (pos d);
}

counted_at : {v v' d d' : ℕ} → v ≡ v' → d ≡ d' → counted v d ≡ counted v' d'
counted_at p q = λ i. counted (p i) (q i)

wrap64_at : {n k : ℕ} → n ≡ k → wrap64 (pos n) ≡ wrap64 (pos k)
wrap64_at e = ap (λ t. wrap64 (pos t)) e

counted-dlq : (v d : ℕ) → add_input (counted v d) true ≡ counted v (suc d)
unfolding add_input
counted-dlq v d = λ i. record {
  total_read = (wrap64-suc (v + d) ∙ wrap64_at {k = v + suc d} (omega arith)) i;
  valid = wrap64 (pos v);
  dlq = wrap64-suc d i;
}

counted-valid : (v d : ℕ) → add_input (counted v d) false ≡ counted (suc v) d
unfolding add_input
counted-valid v d = λ i. record {
  total_read = (wrap64-suc (v + d) ∙ wrap64_at {k = suc v + d} (omega arith)) i;
  valid = wrap64-suc v i;
  dlq = wrap64 (pos d);
}

fold-counted :
    (v d : ℕ) (xs : List Bool)
    → fold_origin (counted v d) xs ≡ counted (v + count false xs) (d + count true xs)
unfolding fold
fold-counted v d [] = counted_at (omega arith) (omega arith)
fold-counted v d (true ∷ xs) =
    ap (λ a. fold_origin a xs) (counted-dlq v d)
    ∙ fold-counted v (suc d) xs
    ∙ counted_at refl (omega arith)
fold-counted v d (false ∷ xs) =
    ap (λ a. fold_origin a xs) (counted-valid v d)
    ∙ fold-counted (suc v) d xs
    ∙ counted_at (omega arith) refl

count_all : (xs : List Bool) → count false xs + count true xs ≡ length xs
count_all [] = omega arith
count_all (true ∷ xs) = omega (arith, count_all xs)
count_all (false ∷ xs) = omega (arith, count_all xs)

wrap64_pos : {n k : ℕ} → n ≡ k → k < 2 ^ 63 → wrap64 (pos n) ≡ pos k
wrap64_pos {k} e h = wrap64_at e ∙ wrap64_id (pos k) (omega arith)

start : create_accumulator ≡ counted 0 0
unfolding wrap64 of_u64 to_u64
start = refl

-- Below 2^63 inputs the result is the exact count of the inputs and of each outcome, whatever the
-- plan.
pub run_origin_counts :
    (p : Plan Bool)
    → length (inputs p) < 2 ^ 63
    → let m = extract_output (run_origin p) in
      (m.total_read ≡ pos (length (inputs p)))
      × (m.valid ≡ pos (count false (inputs p)))
      × (m.dlq ≡ pos (count true (inputs p)))
unfolding extract_output
run_origin_counts p h =
    let xs : List Bool = inputs p in
    let run_counted : run_origin p ≡ counted (count false xs) (count true xs) =
      run_origin-fold p
      ∙ ap (λ a. fold_origin a xs) start
      ∙ fold-counted 0 0 xs
      ∙ counted_at (omega arith) (omega arith) in
    (
      ap (λ a. a.total_read) run_counted ∙ wrap64_pos (count_all xs) h,
      ap (λ a. a.valid) run_counted ∙ wrap64_pos refl (omega (arith, count_all xs)),
      ap (λ a. a.dlq) run_counted ∙ wrap64_pos refl (omega (arith, count_all xs)),
    )
