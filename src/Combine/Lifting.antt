-- ===== src/Combine/Lifting.antt =====
-- How the runner applies a combiner: inputs are folded in bundles, and the bundles' accumulators
-- are merged in some order, which a plan records.
use omnibeam_go.Common.{◌≡◌, refl, sym, ap, ◌∙◌, List, [], ◌∷◌, ◌++◌}

pub data Plan {ℓ} (X : Type ℓ) : Type ℓ where
  bundle : List X → Plan X
  merged : Plan X → Plan X → Plan X

-- The inputs of a plan, in its order.
unfoldable pub inputs {ℓ} : {X : Type ℓ} → Plan X → List X
inputs (bundle xs) = xs
inputs (merged p q) = inputs p ++ inputs q

module _ {ℓ κ} {X : Type ℓ} {A : Type κ} (create : A) (add : A → X → A) (merge : A → A → A) where
  unfoldable pub fold : A → List X → A
  fold a [] = a
  fold a (x ∷ xs) = fold (add a x) xs

  unfoldable pub run : Plan X → A
  run (bundle xs) = fold create xs
  run (merged p q) = merge (run p) (run q)

  fold-append : (a : A) (xs ys : List X) → fold a (xs ++ ys) ≡ fold (fold a xs) ys
  unfolding fold
  fold-append a [] ys = refl
  fold-append a (x ∷ xs) ys = fold-append (add a x) xs ys

  module _ (P : A → Type 0) (create-P : P create) (add-P : (a : A) (x : X) → P a → P (add a x))
      (merge-P : (a b : A) → P a → P b → P (merge a b)) where
    fold-P : (a : A) (xs : List X) → P a → P (fold a xs)
    unfolding fold
    fold-P a [] h = h
    fold-P a (x ∷ xs) h = fold-P (add a x) xs (add-P a x h)

    -- What every input and every merge keeps holds of the result.
    pub run-P : (p : Plan X) → P (run p)
    unfolding run
    run-P (bundle xs) = fold-P create xs create-P
    run-P (merged p q) = merge-P (run p) (run q) (run-P p) (run-P q)

    module _ (merge-create : (a : A) → P a → merge a create ≡ a)
        (merge-add : (a b : A) (x : X) → merge a (add b x) ≡ add (merge a b) x) where
      merge-fold : (a b : A) (xs : List X) → merge a (fold b xs) ≡ fold (merge a b) xs
      unfolding fold
      merge-fold a b [] = refl
      merge-fold a b (x ∷ xs) = merge-fold a (add b x) xs ∙ ap (λ c. fold c xs) (merge-add a b x)

      -- However the inputs are bundled and merged, the result is that of one fold over them.
      pub run-fold : (p : Plan X) → run p ≡ fold create (inputs p)
      unfolding run inputs
      run-fold (bundle xs) = refl
      run-fold (merged p q) =
          ap (λ b. merge (run p) b) (run-fold q)
          ∙ merge-fold (run p) create (inputs q)
          ∙ ap (λ a. fold a (inputs q)) (merge-create (run p) (run-P p) ∙ run-fold p)
          ∙ sym (fold-append create (inputs p) (inputs q))
