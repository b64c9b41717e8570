-- ===== src/Watermark/Greatest.antt =====
-- `maxParquetColumn` and `resolveWatermarkOutput` of cmd/pipeline/watermark_output.go against the values of
-- the column.
use omnibeam_go.Common.{
  ℕ, ◌≡◌, refl, sym, subst, Bool, true, false, ◌⊎◌, inl, inr, Option, none, some, List, [], ◌∷◌,
  ◌++◌, append-nil, append_assoc, All, All-append, Bool-cases, some_path, none_some, get_elem?,
  if◌then◌else◌,
}
use omnibeam_go.Watermark.{Formats, WatermarkType, WatermarkValue, WatermarkError}
use omnibeam_go.Watermark.Order.{
  IsOrdered, IsOf, exceeds, exceeds_asym, exceeds_irrefl, exceeds_trans, inl_inr, inr_path,
}
use omnibeam_go.Watermark.Typed.{parse_watermark_value-IsOf}
use omnibeam_go.Watermark.Maximum.{
  Parquet, Chunk, File, unreadable, opened, ScanError, and_then, each, column_index,
  parse_parquet_value, parquet_text, greater_of, with_parsed, take_value,
}

-- What the members of a list hold, in order.
abbrev pub gather : {A V : Type 0} → (A → List V) → List A → List V
gather vals [] = []
gather vals (x ∷ xs) = vals x ++ gather vals xs

module _ {V : Type 0} where
  abbrev pub chunk_values : Chunk V → List V
  chunk_values c = gather (λ p. p.values) c.pages

  abbrev pub group_values : ℕ → List (Chunk V) → List V
  group_values i chunks = elim (get_elem? chunks i) [ none ↦ [] | some c ↦ chunk_values c ]

  abbrev pub groups_values : Option ℕ → List (List (Chunk V)) → List V
  groups_values none groups = []
  groups_values (some i) groups = gather (group_values i) groups

  abbrev pub file_values : List ℕ → File V → List V
  file_values column unreadable = []
  file_values column (opened cols groups) = groups_values (column_index column cols) groups

module _ {𝓕 : Formats} (𝓟 : Parquet 𝓕) (t : WatermarkType) where
  -- A value is null, or it parses to one that is not greater than the greatest.
  unfoldable pub Covers : Option (WatermarkValue 𝓕) → 𝓟.Value → Type 0
  Covers m v =
      (𝓟.is_null v ≡ true)
      ⊎ ((top : WatermarkValue 𝓕) × (p : WatermarkValue 𝓕) × (m ≡ some top)
          × (parse_parquet_value 𝓟 t v ≡ inr p)
          × (exceeds 𝓕 p top ≡ false))

  -- One of the values, not a null, parses to the given one.
  pub data Reached (p : WatermarkValue 𝓕) : List 𝓟.Value → Type 0 where
    here :
        {v : 𝓟.Value} {vs : List 𝓟.Value}
        → 𝓟.is_null v ≡ false
        → parse_parquet_value 𝓟 t v ≡ inr p
        → Reached p (v ∷ vs)
    there : {v : 𝓟.Value} {vs : List 𝓟.Value} → Reached p vs → Reached p (v ∷ vs)

  abbrev pub Attained : List 𝓟.Value → Option (WatermarkValue 𝓕) → Type 0
  Attained vs none = Unit
  Attained vs (some m) = IsOf 𝓕 t m × Reached m vs

  -- The greatest of the values that were seen.
  abbrev pub IsGreatest : List 𝓟.Value → Option (WatermarkValue 𝓕) → Type 0
  IsGreatest vs m = Attained vs m × All (Covers m) vs

  Reached-left : (p : WatermarkValue 𝓕) (vs ws : List 𝓟.Value) → Reached p vs → Reached p (vs ++ ws)
  Reached-left p [] ws r = elim r [ ]
  Reached-left p (v ∷ vs) ws (here h k) = here h k
  Reached-left p (v ∷ vs) ws (there r) = there (Reached-left p vs ws r)

  Reached-right :
      (p : WatermarkValue 𝓕) (vs ws : List 𝓟.Value) → Reached p ws → Reached p (vs ++ ws)
  Reached-right p [] ws r = r
  Reached-right p (v ∷ vs) ws r = there (Reached-right p vs ws r)

  Attained-left :
      (vs ws : List 𝓟.Value) (m : Option (WatermarkValue 𝓕)) → Attained vs m → Attained (vs ++ ws) m
  Attained-left vs ws none a = tt
  Attained-left vs ws (some m) a = (a.0, Reached-left m vs ws a.1)

  -- A step that takes the values of a member into account.
  abbrev pub Accounts :
      {X : Type 0}
      → (X → List 𝓟.Value)
      → (Option (WatermarkValue 𝓕) → X → ScanError ⊎ Option (WatermarkValue 𝓕))
      → Type 0
  Accounts {X} vals f =
      (seen : List 𝓟.Value) (m : Option (WatermarkValue 𝓕)) (x : X) (n : Option (WatermarkValue 𝓕))
      → IsGreatest seen m
      → f m x ≡ inr n
      → IsGreatest (seen ++ vals x) n

  pub and_then-inr :
      {A B : Type 0} (r : ScanError ⊎ A) (f : A → ScanError ⊎ B) (b : B)
      → and_then r f ≡ inr b
      → (a : A) × (r ≡ inr a) × (f a ≡ inr b)
  and_then-inr (inl e) f b h = inl_inr h
  and_then-inr (inr a) f b h = (a, refl, h)

  pub each-Accounts :
      {X : Type 0} (vals : X → List 𝓟.Value)
      (f : Option (WatermarkValue 𝓕) → X → ScanError ⊎ Option (WatermarkValue 𝓕))
      → Accounts vals f
      → Accounts (gather vals) (each f)
  unfolding each
  each-Accounts vals f h seen m [] n g e =
      subst (λ vs. IsGreatest vs n) (sym (append-nil seen)) (subst (IsGreatest seen) (inr_path e) g)
  each-Accounts vals f h seen m (x ∷ xs) n g e =
      let (k, first, rest) = and_then-inr (f m x) (λ b. each f b xs) n e in
      subst (λ vs. IsGreatest vs n) (append_assoc seen (vals x) (gather vals xs))
        (each-Accounts vals f h (seen ++ vals x) k xs n (h seen m x k g first) rest)

  pub unless_failed :
      {A B : Type 0} (fails : Bool) (e : A) (a b : B)
      → (if fails then inl e else inr a) ≡ inr b
      → a ≡ b
  unless_failed true e a b h = inl_inr h
  unless_failed false e a b h = inr_path h

  module _ (order : IsOrdered 𝓕) where
    parsed-IsOf :
        (v : 𝓟.Value) (p : WatermarkValue 𝓕) → parse_parquet_value 𝓟 t v ≡ inr p → IsOf 𝓕 t p
    unfolding parse_parquet_value
    parsed-IsOf v p h = parse_watermark_value-IsOf 𝓕 order t (parquet_text 𝓟 t v) p h

    -- A greater value covers what the lesser one did.
    pub raised :
        (top p : WatermarkValue 𝓕)
        → IsOf 𝓕 t top
        → IsOf 𝓕 t p
        → exceeds 𝓕 top p ≡ false
        → (vs : List 𝓟.Value) → All (Covers (some top)) vs
        → All (Covers (some p)) vs
    unfolding Covers
    raised top p i j h [] a = tt
    raised top p i j h (v ∷ vs) (inl e, a) = (inl e, raised top p i j h vs a)
    raised top p i j h (v ∷ vs) (inr (u, w, same, e, l), a) =
        let l' = subst (λ x. exceeds 𝓕 w x ≡ false) (sym (some_path same)) l in
        (
          inr (p, w, refl, e, exceeds_trans 𝓕 order t w top p (parsed-IsOf v w e) i j l' h),
          raised top p i j h vs a,
        )

    first-Covers :
        (p : WatermarkValue 𝓕) (vs : List 𝓟.Value) → All (Covers none) vs → All (Covers (some p)) vs
    unfolding Covers
    first-Covers p [] a = tt
    first-Covers p (v ∷ vs) (inl e, a) = (inl e, first-Covers p vs a)
    first-Covers p (v ∷ vs) (inr (u, w, same, e, l), a) = none_some same

    Covers-self :
        (v : 𝓟.Value) (p : WatermarkValue 𝓕) → parse_parquet_value 𝓟 t v ≡ inr p → Covers (some p) v
    unfolding Covers
    Covers-self v p e = inr (p, p, refl, e, exceeds_irrefl 𝓕 order t p (parsed-IsOf v p e))

    Covers-lesser :
        (v : 𝓟.Value) (p top : WatermarkValue 𝓕)
        → parse_parquet_value 𝓟 t v ≡ inr p
        → exceeds 𝓕 p top ≡ false
        → Covers (some top) v
    unfolding Covers
    Covers-lesser v p top e l = inr (top, p, refl, e, l)

    Covers-null : (m : Option (WatermarkValue 𝓕)) (v : 𝓟.Value) → 𝓟.is_null v ≡ true → Covers m v
    unfolding Covers
    Covers-null m v e = inl e

    reaches :
        (seen : List 𝓟.Value) (v : 𝓟.Value) (p : WatermarkValue 𝓕)
        → 𝓟.is_null v ≡ false
        → parse_parquet_value 𝓟 t v ≡ inr p
        → Attained (seen ++ (v ∷ [])) (some p)
    reaches seen v p k e = (parsed-IsOf v p e, Reached-right p seen (v ∷ []) (here k e))

    extended :
        (seen : List 𝓟.Value) (v : 𝓟.Value) (m : Option (WatermarkValue 𝓕))
        → All (Covers m) seen
        → Covers m v
        → All (Covers m) (seen ++ (v ∷ []))
    extended seen v m a c = All-append (Covers m) seen (v ∷ []) a (c, tt)

    take_greater :
        (seen : List 𝓟.Value) (m : Option (WatermarkValue 𝓕)) (v : 𝓟.Value) (p : WatermarkValue 𝓕)
        → IsGreatest seen m
        → 𝓟.is_null v ≡ false
        → parse_parquet_value 𝓟 t v ≡ inr p
        → IsGreatest (seen ++ (v ∷ [])) (greater_of 𝓟 m p)
    take_greater seen none v p g k e = (
      reaches seen v p k e,
      extended seen v (some p) (first-Covers p seen g.1) (Covers-self v p e),
    )
    take_greater seen (some m) v p g k e = elim (Bool-cases (exceeds 𝓕 p m)) [
      | inl above ↦
          let i = parsed-IsOf v p e in
          let below = exceeds_asym 𝓕 order t p m i g.0.0 above in
          rw above (
            reaches seen v p k e,
            extended seen v (some p) (raised m p g.0.0 i below seen g.1) (Covers-self v p e),
          )
      | inr below ↦ rw below (
        Attained-left seen (v ∷ []) (some m) g.0,
        extended seen v (some m) g.1 (Covers-lesser v p m e below),
      )
    ]

    take_parsed :
        (seen : List 𝓟.Value) (m n : Option (WatermarkValue 𝓕)) (v : 𝓟.Value)
        (r : WatermarkError ⊎ WatermarkValue 𝓕)
        → IsGreatest seen m
        → 𝓟.is_null v ≡ false
        → parse_parquet_value 𝓟 t v ≡ r
        → with_parsed 𝓟 m r ≡ inr n
        → IsGreatest (seen ++ (v ∷ [])) n
    take_parsed seen m n v (inl e) g k p h = inl_inr h
    take_parsed seen m n v (inr w) g k p h =
        subst (IsGreatest (seen ++ (v ∷ []))) (inr_path h) (take_greater seen m v w g k p)

    pub take_value-Accounts : Accounts (λ v. v ∷ []) (take_value 𝓟 t)
    unfolding take_value
    take_value-Accounts seen m v n g h = by_test (𝓟.is_null v) refl h
      where
        by_test :
            (b : Bool)
            → 𝓟.is_null v ≡ b
            → (if b then inr m else with_parsed 𝓟 m (parse_parquet_value 𝓟 t v)) ≡ inr n
            → IsGreatest (seen ++ (v ∷ [])) n
        by_test true e k =
            subst (IsGreatest (seen ++ (v ∷ []))) (inr_path k)
              (Attained-left seen (v ∷ []) m g.0, extended seen v m g.1 (Covers-null m v e))
        by_test false e k = take_parsed seen m n v (parse_parquet_value 𝓟 t v) g e refl k
