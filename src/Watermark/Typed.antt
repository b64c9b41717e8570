-- ===== src/Watermark/Typed.antt =====
-- What `ParseWatermarkValue` of internal/domain/watermark_value.go returns has the type that was asked for.
use omnibeam_go.Common.{
  ℕ, ◌≡◌, refl, inl, inr, Bool, true, false, Option, none, some, List, [], ◌∷◌, if◌then◌else◌,
  subst,
}
use omnibeam_go.Common.Int.{ℤ}
use omnibeam_go.Numbers.{Parsed, parsed, invalid_int, overflow, trim_space, parse_signed}
use omnibeam_go.Common.Text.{codes}
use omnibeam_go.Watermark.{
  Formats, WatermarkType, wm_string, wm_integer, wm_float, wm_timestamp, wm_date, unsupported,
  WatermarkValue, parse_watermark_value, unless_empty, parse_as, of_integer, of_float, of_instant,
  parse_timestamp, blank_value, is_supported, WatermarkError, invalid_timestamp, invalid_date,
  not_finite, unsupported_type,
}
use omnibeam_go.Watermark.Order.{IsOrdered, IsOf, inl_inr, inr_path}

module _ (𝓕 : Formats) (order : IsOrdered 𝓕) where
  of_instant-IsOf :
      (t : WatermarkType) (e : WatermarkError) (o : Option 𝓕.Instant) (v : WatermarkValue 𝓕)
      → of_instant 𝓕 t e o ≡ inr v
      → IsOf 𝓕 t v
  unfolding of_instant
  of_instant-IsOf t e none v h = inl_inr h
  of_instant-IsOf t e (some x) v h = subst (IsOf 𝓕 t) (inr_path h) (refl, order.zero_finite)

  of_float-IsOf :
      (o : Option 𝓕.Real) (v : WatermarkValue 𝓕) → of_float 𝓕 o ≡ inr v → IsOf 𝓕 wm_float v
  unfolding of_float
  of_float-IsOf none v h = inl_inr h
  of_float-IsOf (some x) v h = by_test (𝓕.is_finite x) refl h
    where
      by_test :
          (b : Bool)
          → 𝓕.is_finite x ≡ b
          → (if b then inr (record (blank_value 𝓕 wm_float) { float_val = x }) else inl not_finite)
            ≡ inr v
          → IsOf 𝓕 wm_float v
      by_test true e k = subst (IsOf 𝓕 wm_float) (inr_path k) (refl, e)
      by_test false e k = inl_inr k

  of_integer-IsOf :
      (p : Parsed ℤ) (v : WatermarkValue 𝓕) → of_integer 𝓕 p ≡ inr v → IsOf 𝓕 wm_integer v
  unfolding of_integer
  of_integer-IsOf (parsed n) v h = subst (IsOf 𝓕 wm_integer) (inr_path h) (refl, order.zero_finite)
  of_integer-IsOf invalid_int v h = inl_inr h
  of_integer-IsOf overflow v h = inl_inr h

  parse_as-IsOf :
      (t : WatermarkType) (s : List ℕ) (v : WatermarkValue 𝓕) → parse_as 𝓕 t s ≡ inr v → IsOf 𝓕 t v
  unfolding parse_as
  parse_as-IsOf wm_integer s v h = of_integer-IsOf (parse_signed s) v h
  parse_as-IsOf wm_float s v h = of_float-IsOf (𝓕.parse_float s) v h
  parse_as-IsOf wm_timestamp s v h =
      of_instant-IsOf wm_timestamp invalid_timestamp (parse_timestamp 𝓕 s) v h
  parse_as-IsOf wm_date s v h =
      of_instant-IsOf wm_date invalid_date (𝓕.parse_time (codes "2006-01-02") s) v h
  parse_as-IsOf wm_string s v h = subst (IsOf 𝓕 wm_string) (inr_path h) (refl, order.zero_finite)
  parse_as-IsOf (unsupported t) s v h = inl_inr h

  unless_empty-IsOf :
      (t : WatermarkType) (s : List ℕ) (v : WatermarkValue 𝓕)
      → unless_empty 𝓕 t s ≡ inr v
      → IsOf 𝓕 t v
  unfolding unless_empty
  unless_empty-IsOf t [] v h = inl_inr h
  unless_empty-IsOf t (c ∷ s) v h = parse_as-IsOf t (c ∷ s) v h

  pub parse_watermark_value-IsOf :
      (t : WatermarkType) (raw : List ℕ) (v : WatermarkValue 𝓕)
      → parse_watermark_value 𝓕 t raw ≡ inr v
      → IsOf 𝓕 t v
  unfolding parse_watermark_value
  parse_watermark_value-IsOf t raw v h = by_test (is_supported t) h
    where
      by_test :
          (b : Bool)
          → (if b then unless_empty 𝓕 t (trim_space raw) else inl unsupported_type) ≡ inr v
          → IsOf 𝓕 t v
      by_test true k = unless_empty-IsOf t (trim_space raw) v k
      by_test false k = inl_inr k
