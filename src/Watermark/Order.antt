-- ===== src/Watermark/Order.antt =====
-- The order of watermark values: `Compare` of internal/domain/watermark_value.go.
use omnibeam_go.Common.{
  ℕ, ◌≡◌, refl, sym, ap, ◌∙◌, ◌⊎◌, inl, inr, Bool, true, false, List, arith, Bool-cases,
}
use omnibeam_go.Common.Int.{pos, ltb_ℤ}
use omnibeam_go.Common.Tests.{str_eq, str_eq_iff}
use omnibeam_go.Common.Keys.{str_ltb}
use omnibeam_go.Common.Keys.Order.{str_ltb_irrefl, str_ltb_trans, str_ltb_total}
use omnibeam_go.Watermark.{
  Formats, WatermarkType, wm_string, wm_integer, wm_float, wm_timestamp, wm_date, unsupported,
  WatermarkValue, compare_as, compare, three_way,
}

pub inl_inr {ℓ} : {A B : Type 0} {C : Type ℓ} {a : A} {b : B} → inl a ≡ inr b → C
inl_inr h = absurd (ground arith)

pub inr_path : {A B : Type 0} {x y : B} → ◌≡◌ {A = A ⊎ B} (inr x) (inr y) → x ≡ y
inr_path h = cc

module _ (𝓕 : Formats) where
  open 𝓕 use {Real, Instant, zero_real, real_ltb, before, is_finite}

  -- Finite floats and instants are ordered, equal ones in no order: not above is transitive.
  pub record IsOrdered : Type 0 where
    pub zero_finite : is_finite zero_real ≡ true
    pub real_asym : (x y : Real) → real_ltb x y ≡ true → real_ltb y x ≡ false
    pub real_trans :
        (x y z : Real)
        → is_finite x ≡ true
        → is_finite y ≡ true
        → is_finite z ≡ true
        → real_ltb y x ≡ false
        → real_ltb z y ≡ false
        → real_ltb z x ≡ false
    pub before_asym : (x y : Instant) → before x y ≡ true → before y x ≡ false
    pub before_trans :
        (x y z : Instant) → before y x ≡ false → before z y ≡ false → before z x ≡ false

  -- `Compare` finds a value greater than another.
  abbrev pub exceeds : WatermarkValue 𝓕 → WatermarkValue 𝓕 → Bool
  exceeds v w = ltb_ℤ (pos 0) (compare 𝓕 v w)

  -- A value of the type that is no NaN and no infinity.
  abbrev pub IsOf : WatermarkType → WatermarkValue 𝓕 → Type 0
  IsOf t v = (v.w_type ≡ t) × (is_finite v.float_val ≡ true)

-- The value is the greater one by the order of its type.
above : (𝓕 : Formats) → WatermarkType → WatermarkValue 𝓕 → WatermarkValue 𝓕 → Bool
above 𝓕 wm_integer v w = ltb_ℤ w.int_val v.int_val
above 𝓕 wm_float v w = 𝓕.real_ltb w.float_val v.float_val
above 𝓕 wm_timestamp v w = 𝓕.before w.time_val v.time_val
above 𝓕 wm_date v w = 𝓕.before w.time_val v.time_val
above 𝓕 wm_string v w = str_ltb w.str_val v.str_val
above 𝓕 (unsupported t) v w = str_ltb w.str_val v.str_val

three_way-greater :
    (less greater : Bool)
    → (less ≡ true → greater ≡ false)
    → ltb_ℤ (pos 0) (three_way less greater) ≡ greater
three_way-greater true greater h = sym (h refl)
three_way-greater false true h = refl
three_way-greater false false h = refl

str_asym : (s t : List ℕ) → str_ltb s t ≡ true → str_ltb t s ≡ false
str_asym s t h = elim (Bool-cases (str_ltb t s)) [
  | inl e ↦ cc (str_ltb_trans s t s h e, str_ltb_irrefl s)
  | inr e ↦ e
]

-- Not above is transitive.
str_below_trans : (s t u : List ℕ) → str_ltb t s ≡ false → str_ltb u t ≡ false → str_ltb u s ≡ false
str_below_trans s t u h k = elim (Bool-cases (str_eq u t)) [
  | inl e ↦ rw ((str_eq_iff u t).0 e) h
  | inr e ↦ elim (Bool-cases (str_ltb u s)) [
    | inl f ↦ cc (str_ltb_trans t u s (str_ltb_total u t e k) f)
    | inr f ↦ f
  ]
]

module _ (𝓕 : Formats) (order : IsOrdered 𝓕) where
  exceeds-above :
      (t : WatermarkType) (v w : WatermarkValue 𝓕)
      → ltb_ℤ (pos 0) (compare_as 𝓕 t v w) ≡ above 𝓕 t v w
  unfolding compare_as above
  exceeds-above wm_integer v w =
      three_way-greater (ltb_ℤ v.int_val w.int_val) (ltb_ℤ w.int_val v.int_val)
        (λ h. ground (arith, h))
  exceeds-above wm_float v w =
      three_way-greater (𝓕.real_ltb v.float_val w.float_val) (𝓕.real_ltb w.float_val v.float_val)
        (order.real_asym v.float_val w.float_val)
  exceeds-above wm_timestamp v w =
      three_way-greater (𝓕.before v.time_val w.time_val) (𝓕.before w.time_val v.time_val)
        (order.before_asym v.time_val w.time_val)
  exceeds-above wm_date v w =
      three_way-greater (𝓕.before v.time_val w.time_val) (𝓕.before w.time_val v.time_val)
        (order.before_asym v.time_val w.time_val)
  exceeds-above wm_string v w =
      three_way-greater (str_ltb v.str_val w.str_val) (str_ltb w.str_val v.str_val)
        (str_asym v.str_val w.str_val)
  exceeds-above (unsupported t) v w =
      three_way-greater (str_ltb v.str_val w.str_val) (str_ltb w.str_val v.str_val)
        (str_asym v.str_val w.str_val)

  above_asym :
      (t : WatermarkType) (v w : WatermarkValue 𝓕) → above 𝓕 t v w ≡ true → above 𝓕 t w v ≡ false
  unfolding above
  above_asym wm_integer v w h = ground (arith, h)
  above_asym wm_float v w h = order.real_asym w.float_val v.float_val h
  above_asym wm_timestamp v w h = order.before_asym w.time_val v.time_val h
  above_asym wm_date v w h = order.before_asym w.time_val v.time_val h
  above_asym wm_string v w h = str_asym w.str_val v.str_val h
  above_asym (unsupported t) v w h = str_asym w.str_val v.str_val h

  above_trans :
      (t : WatermarkType) (u v w : WatermarkValue 𝓕)
      → IsOf 𝓕 t u
      → IsOf 𝓕 t v
      → IsOf 𝓕 t w
      → above 𝓕 t u v ≡ false
      → above 𝓕 t v w ≡ false
      → above 𝓕 t u w ≡ false
  unfolding above
  above_trans wm_integer u v w i j k h l = ground (arith, h, l)
  above_trans wm_float u v w i j k h l =
      order.real_trans u.float_val v.float_val w.float_val i.1 j.1 k.1 h l
  above_trans wm_timestamp u v w i j k h l = order.before_trans u.time_val v.time_val w.time_val h l
  above_trans wm_date u v w i j k h l = order.before_trans u.time_val v.time_val w.time_val h l
  above_trans wm_string u v w i j k h l = str_below_trans u.str_val v.str_val w.str_val h l
  above_trans (unsupported t) u v w i j k h l = str_below_trans u.str_val v.str_val w.str_val h l

  exceeds-as :
      (t : WatermarkType) (v w : WatermarkValue 𝓕) → v.w_type ≡ t → exceeds 𝓕 v w ≡ above 𝓕 t v w
  exceeds-as t v w h = ap (λ k. ltb_ℤ (pos 0) (compare_as 𝓕 k v w)) h ∙ exceeds-above t v w

  pub exceeds_asym :
      (t : WatermarkType) (v w : WatermarkValue 𝓕)
      → IsOf 𝓕 t v
      → IsOf 𝓕 t w
      → exceeds 𝓕 v w ≡ true
      → exceeds 𝓕 w v ≡ false
  exceeds_asym t v w i j h =
      exceeds-as t w v j.0 ∙ above_asym t v w (sym (exceeds-as t v w i.0) ∙ h)

  pub exceeds_irrefl :
      (t : WatermarkType) (v : WatermarkValue 𝓕) → IsOf 𝓕 t v → exceeds 𝓕 v v ≡ false
  exceeds_irrefl t v i = elim (Bool-cases (exceeds 𝓕 v v)) [
    | inl e ↦ exceeds_asym t v v i i e
    | inr e ↦ e
  ]

  pub exceeds_trans :
      (t : WatermarkType) (u v w : WatermarkValue 𝓕)
      → IsOf 𝓕 t u
      → IsOf 𝓕 t v
      → IsOf 𝓕 t w
      → exceeds 𝓕 u v ≡ false
      → exceeds 𝓕 v w ≡ false
      → exceeds 𝓕 u w ≡ false
  exceeds_trans t u v w i j k h l =
      exceeds-as t u w i.0
      ∙ above_trans t u v w i j k (sym (exceeds-as t u v i.0) ∙ h) (sym (exceeds-as t v w j.0) ∙ l)
