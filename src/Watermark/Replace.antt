-- ===== src/Watermark/Replace.antt =====
-- The placeholder of a query replaced: `strings.ReplaceAll` and `strings.Contains` in `EffectiveQuery` of
-- internal/domain/config_database.go.
use omnibeam_go.Common.{
  ℕ, ◌≤◌, append_assoc, length-append, ◌≡◌, refl, sym, ap, ◌∙◌, Bool, true, false, ◌&&◌, ◌||◌, List,
  [], ◌∷◌, ◌++◌, length, ◌==◌, arith,
}
use omnibeam_go.Common.Text.{codes}
use omnibeam_go.Watermark.Query.{has_prefix, contains_text, replace_from, placeholder}

-- The placeholder without its last character.
abbrev pub unfinished : List ℕ
unfinished = codes ":watermark_valu"

has_prefix-long : (p s t : List ℕ) → length p ≤ length s → has_prefix p (s ++ t) ≡ has_prefix p s
unfolding has_prefix
has_prefix-long [] s t h = refl
has_prefix-long (x ∷ p) [] t h = absurd (omega (arith, h))
has_prefix-long (x ∷ p) (c ∷ s) t h =
    ap (λ b. x == c && b) (has_prefix-long p s t (omega (arith, h)))

or_true : (b : Bool) → (b || true) ≡ true
or_true true = refl
or_true false = refl

or_false : (a b : Bool) → (a || b) ≡ false → (a ≡ false) × (b ≡ false)
or_false a b h = ground arith

-- An occurrence of a part is found.
contains_text-found :
    (part a b : List ℕ)
    → ((s : List ℕ) → has_prefix part (part ++ s) ≡ true)
    → 1 ≤ length part
    → contains_text part (a ++ (part ++ b)) ≡ true
unfolding contains_text
contains_text-found [] a b h k = absurd (omega (arith, k))
contains_text-found (p ∷ part) [] b h k = rw (h b) refl
contains_text-found part (c ∷ a) b h k =
    rw (contains_text-found part a b h k) (or_true (has_prefix part (c ∷ a ++ (part ++ b))))

replace_from-step :
    (part new s : List ℕ) (c : ℕ)
    → has_prefix part (c ∷ s) ≡ false
    → replace_from part new 0 (c ∷ s) ≡ c ∷ replace_from part new 0 s
unfolding replace_from
replace_from-step part new s c h = rw h refl

contains_text-step :
    (part s : List ℕ) (c : ℕ)
    → contains_text part (c ∷ s) ≡ false
    → (has_prefix part (c ∷ s) ≡ false) × (contains_text part s ≡ false)
unfolding contains_text
contains_text-step part s c h = or_false (has_prefix part (c ∷ s)) (contains_text part s) h

-- A text without the part is left as it is.
pub replace_from-absent :
    (part new s : List ℕ) → contains_text part s ≡ false → replace_from part new 0 s ≡ s
unfolding replace_from
replace_from-absent part new [] h = refl
replace_from-absent part new (c ∷ s) h =
    let parts = contains_text-step part s c h in
    replace_from-step part new s c parts.0
    ∙ ap (λ r. c ∷ r) (replace_from-absent part new s parts.1)

prefix_here : (s : List ℕ) → has_prefix placeholder (placeholder ++ s) ≡ true
unfolding has_prefix
prefix_here s = refl

pub found : (a b : List ℕ) → contains_text placeholder (a ++ (placeholder ++ b)) ≡ true
found a b = contains_text-found placeholder a b prefix_here (omega arith)

found_here :
    (new b : List ℕ)
    → replace_from placeholder new 0 (placeholder ++ b) ≡ new ++ replace_from placeholder new 0 b
unfolding replace_from has_prefix
found_here new b = refl

not_before :
    (a b : List ℕ) (c : ℕ)
    → has_prefix placeholder (c ∷ (a ++ unfinished)) ≡ false
    → has_prefix placeholder (c ∷ (a ++ (placeholder ++ b))) ≡ false
not_before a b c h =
    ap (λ s. has_prefix placeholder (c ∷ s)) (sym (append_assoc a unfinished (101 ∷ b)))
    ∙ has_prefix-long placeholder (c ∷ (a ++ unfinished)) (101 ∷ b)
        (omega (arith, length-append a unfinished))
    ∙ h

-- The first occurrence of the placeholder is replaced.
pub replace_from-first :
    (new a b : List ℕ)
    → contains_text placeholder (a ++ unfinished) ≡ false
    → replace_from placeholder new 0 (a ++ (placeholder ++ b))
      ≡ a ++ (new ++ replace_from placeholder new 0 b)
replace_from-first new [] b h = found_here new b
replace_from-first new (c ∷ a) b h =
    let parts = contains_text-step placeholder (a ++ unfinished) c h in
    replace_from-step placeholder new (a ++ (placeholder ++ b)) c (not_before a b c parts.0)
    ∙ ap (λ r. c ∷ r) (replace_from-first new a b parts.1)
