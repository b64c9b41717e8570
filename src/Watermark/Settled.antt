-- ===== src/Watermark/Settled.antt =====
-- `resolveWatermarkOutput` of cmd/pipeline/watermark_output.go against the values of the column.
use omnibeam_go.Common.{
  ℕ, ◌≡◌, refl, sym, ap, subst, ◌∙◌, Bool, true, false, ◌⊎◌, inl, inr, Option, none, some, List, [],
  ◌∷◌, All, Bool-cases, none_some, some_path,
}
use omnibeam_go.Common.Int.{ℤ, pos, eqb_ℤ}
use omnibeam_go.Watermark.{
  Formats, WatermarkType, WatermarkValue, WatermarkError, text, parse_watermark_value,
}
use omnibeam_go.Numbers.{trim_space}
use omnibeam_go.Watermark.Order.{
  IsOrdered, IsOf, exceeds, exceeds_asym, exceeds_irrefl, inl_inr, inr_path,
}
use omnibeam_go.Watermark.Typed.{parse_watermark_value-IsOf}
use omnibeam_go.Watermark.Maximum.{Parquet, File, ScanError, max_parquet_column}
use omnibeam_go.Watermark.Output.{
  WatermarkConfig, WatermarkOutput, parquet_names, open_all, trimmed_value, incoming, incoming_of,
  given, final_value, output_of_max, Directory, scan_directory, resolve_watermark_output,
}
use omnibeam_go.Watermark.Greatest.{gather, file_values, Covers, Reached, IsGreatest, raised}
use omnibeam_go.Watermark.Scan.{max_parquet_column-IsGreatest}

module _ {𝓕 : Formats} (𝓟 : Parquet 𝓕) where
  -- The values of the column in the parquet files of the directory.
  abbrev pub written :
      WatermarkConfig → (List ℕ → File 𝓟.Value) → List (List ℕ × Bool) → List 𝓟.Value
  written wm read entries = gather (file_values wm.column) (open_all read (parquet_names entries))

  -- An incoming value, if there is one that parses, is not greater.
  abbrev pub IsAtMost : WatermarkError ⊎ Option (WatermarkValue 𝓕) → WatermarkValue 𝓕 → Type 0
  IsAtMost (inl e) v = Unit
  IsAtMost (inr none) v = Unit
  IsAtMost (inr (some w)) v = exceeds 𝓕 w v ≡ false

  -- Every value of the column that is no null, and the incoming one, is not greater than the value, which is
  -- one of them.
  pub record IsLatest (wm : WatermarkConfig) (vs : List 𝓟.Value) (v : WatermarkValue 𝓕)
      : Type 0 where
    pub covers : All (Covers 𝓟 wm.type_ (some v)) vs
    pub at_most : IsAtMost (incoming 𝓕 wm) v
    pub reached : Reached 𝓟 wm.type_ v vs ⊎ (incoming 𝓕 wm ≡ inr (some v))

  incoming-IsOf :
      (order : IsOrdered 𝓕) (wm : WatermarkConfig) (v : WatermarkValue 𝓕)
      → incoming 𝓕 wm ≡ inr (some v)
      → IsOf 𝓕 wm.type_ v
  unfolding incoming_of given
  incoming-IsOf order wm v h = by_value wm.value h
    where
      by_parse :
          (raw : List ℕ) (r : WatermarkError ⊎ WatermarkValue 𝓕)
          → parse_watermark_value 𝓕 wm.type_ raw ≡ r
          → given 𝓕 r ≡ inr (some v)
          → IsOf 𝓕 wm.type_ v
      by_parse raw (inl e) p k = inl_inr k
      by_parse raw (inr w) p k =
          parse_watermark_value-IsOf 𝓕 order wm.type_ raw v (p ∙ ap inr (some_path (inr_path k)))

      by_text :
          (raw s : List ℕ)
          → elim s [ [] ↦ inr none | c ∷ r ↦ given 𝓕 (parse_watermark_value 𝓕 wm.type_ raw) ]
            ≡ inr (some v)
          → IsOf 𝓕 wm.type_ v
      by_text raw [] k = none_some (inr_path k)
      by_text raw (c ∷ s) k = by_parse raw (parse_watermark_value 𝓕 wm.type_ raw) refl k

      by_value : (o : Option (List ℕ)) → incoming_of 𝓕 wm.type_ o ≡ inr (some v) → IsOf 𝓕 wm.type_ v
      by_value none k = none_some (inr_path k)
      by_value (some raw) k = by_text raw (trim_space raw) k

  final_value-IsLatest :
      (order : IsOrdered 𝓕) (wm : WatermarkConfig) (vs : List 𝓟.Value) (m : WatermarkValue 𝓕)
      (r : WatermarkError ⊎ Option (WatermarkValue 𝓕))
      → IsGreatest 𝓟 wm.type_ vs (some m)
      → incoming 𝓕 wm ≡ r
      → IsLatest wm vs (final_value 𝓕 m r)
  unfolding final_value
  final_value-IsLatest order wm vs m (inl e) g p = record {
    covers = g.1;
    at_most = subst (λ q. IsAtMost q m) (sym p) tt;
    reached = inl g.0.1;
  }
  final_value-IsLatest order wm vs m (inr none) g p = record {
    covers = g.1;
    at_most = subst (λ q. IsAtMost q m) (sym p) tt;
    reached = inl g.0.1;
  }
  final_value-IsLatest order wm vs m (inr (some v)) g p =
      let i = incoming-IsOf order wm v p in
      elim (Bool-cases (exceeds 𝓕 v m)) [
        | inl above ↦ rw above (record {
          covers =
              raised 𝓟 wm.type_ order m v g.0.0 i (exceeds_asym 𝓕 order wm.type_ v m i g.0.0 above)
                vs g.1;
          at_most = subst (λ q. IsAtMost q v) (sym p) (exceeds_irrefl 𝓕 order wm.type_ v i);
          reached = inr p;
        })
        | inr below ↦ rw below (record {
          covers = g.1;
          at_most = subst (λ q. IsAtMost q m) (sym p) below;
          reached = inl g.0.1;
        })
      ]

  all_null :
      (t : WatermarkType) (vs : List 𝓟.Value)
      → All (Covers 𝓟 t none) vs
      → All (λ v. 𝓟.is_null v ≡ true) vs
  unfolding Covers
  all_null t [] a = tt
  all_null t (v ∷ vs) (inl e, a) = (e, all_null t vs a)
  all_null t (v ∷ vs) (inr (u, w, same, e, l), a) = none_some same

  -- What a run with rows leaves behind as its watermark.
  abbrev pub IsSettled : WatermarkConfig → List 𝓟.Value → WatermarkOutput → Type 0
  IsSettled wm vs out =
      ((v : WatermarkValue 𝓕) × (out.value ≡ some (text 𝓕 v)) × IsLatest wm vs v)
      ⊎ ((out.value ≡ trimmed_value wm.value) × All (λ v. 𝓟.is_null v ≡ true) vs)

  output_of_max-IsSettled :
      (order : IsOrdered 𝓕) (wm : WatermarkConfig) (vs : List 𝓟.Value)
      (r : ScanError ⊎ Option (WatermarkValue 𝓕)) (out : WatermarkOutput)
      → ((m : Option (WatermarkValue 𝓕)) → r ≡ inr m → IsGreatest 𝓟 wm.type_ vs m)
      → output_of_max 𝓕 wm r ≡ inr out
      → IsSettled wm vs out
  unfolding output_of_max
  output_of_max-IsSettled order wm vs (inl e) out g h = inl_inr h
  output_of_max-IsSettled order wm vs (inr none) out g h =
      inr (ap (λ o. o.value) (sym (inr_path h)), all_null wm.type_ vs (g none refl).1)
  output_of_max-IsSettled order wm vs (inr (some m)) out g h = inl (
    final_value 𝓕 m (incoming 𝓕 wm),
    ap (λ o. o.value) (sym (inr_path h)),
    final_value-IsLatest order wm vs m (incoming 𝓕 wm) (g (some m) refl) refl,
  )

  scan_directory-IsSettled :
      (order : IsOrdered 𝓕) (wm : WatermarkConfig) (read : List ℕ → File 𝓟.Value)
      (entries : List (List ℕ × Bool)) (out : WatermarkOutput)
      → scan_directory 𝓟 wm read (some entries) ≡ inr out
      → IsSettled wm (written wm read entries) out
  unfolding scan_directory
  scan_directory-IsSettled order wm read entries out h =
      let files = open_all read (parquet_names entries) in
      output_of_max-IsSettled order wm (written wm read entries)
        (max_parquet_column 𝓟 wm.type_ files wm.column) out
        (max_parquet_column-IsGreatest 𝓟 wm.type_ order files wm.column) h

  -- After a run that wrote rows and does not track an offset, if the watermark resolves without an error:
  -- either its value is the text of the latest value, one of those of the column or the incoming one, which
  -- none of them exceeds, or the column holds only nulls and the watermark is the trimmed one that was given.
  pub resolve_watermark_output-IsSettled :
      IsOrdered 𝓕
      → (wm : WatermarkConfig) (dir : Directory 𝓟.Value) (entries : List (List ℕ × Bool))
        (total_read rows_written : ℤ) (out : WatermarkOutput)
      → dir.entries ≡ some entries
      → eqb_ℤ rows_written (pos 0) ≡ false
      → resolve_watermark_output 𝓟 wm false dir total_read rows_written ≡ inr out
      → IsSettled wm (written wm dir.read entries) out
  unfolding resolve_watermark_output
  resolve_watermark_output-IsSettled order wm dir entries total_read rows_written out e some_rows
        h =
      scan_directory-IsSettled order wm dir.read entries out
        (subst (λ o. scan_directory 𝓟 wm dir.read o ≡ inr out) e (written_rows some_rows h))
    where
      written_rows :
          eqb_ℤ rows_written (pos 0) ≡ false
          → resolve_watermark_output 𝓟 wm false dir total_read rows_written ≡ inr out
          → scan_directory 𝓟 wm dir.read dir.entries ≡ inr out
      written_rows k l = rw k at l
