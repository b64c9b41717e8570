-- ===== src/Watermark/Scan.antt =====
-- The loops of `maxParquetColumn` of cmd/pipeline/watermark_output.go.
use omnibeam_go.Common.{
  ℕ, ◌≡◌, refl, sym, ap, subst, ◌∙◌, Bool, ◌⊎◌, inl, inr, Option, none, some, List, [], ◌∷◌, ◌++◌,
  append-nil, get_elem?, if◌then◌else◌,
}
use omnibeam_go.Watermark.{Formats, WatermarkType, WatermarkValue}
use omnibeam_go.Watermark.Order.{IsOrdered, inl_inr, inr_path}
use omnibeam_go.Watermark.Maximum.{
  Parquet, Chunk, File, unreadable, opened, ScanError, and_then, each, column_index, take_value,
  scan_page, scan_chunk, scan_row_group, scan_column, scan_file, max_parquet_column,
}
use omnibeam_go.Watermark.Greatest.{
  gather, chunk_values, group_values, groups_values, file_values, IsGreatest, Accounts,
  each-Accounts, and_then-inr, unless_failed, take_value-Accounts,
}

module _ {𝓕 : Formats} (𝓟 : Parquet 𝓕) (t : WatermarkType) (order : IsOrdered 𝓕) where
  gather_single : {V : Type 0} (vs : List V) → gather (λ v. v ∷ []) vs ≡ vs
  gather_single [] = refl
  gather_single (v ∷ vs) = ap (λ ws. v ∷ ws) (gather_single vs)

  -- A loop over members, behind which an error may stand.
  then-Accounts :
      {X : Type 0} (vals : X → List 𝓟.Value)
      (f : Option (WatermarkValue 𝓕) → X → ScanError ⊎ Option (WatermarkValue 𝓕)) (fails : Bool)
      (e : ScanError)
      → Accounts 𝓟 t vals f
      → (seen : List 𝓟.Value) (m : Option (WatermarkValue 𝓕)) (xs : List X)
        (n : Option (WatermarkValue 𝓕))
      → IsGreatest 𝓟 t seen m
      → and_then (each f m xs) (λ k. if fails then inl e else inr k) ≡ inr n
      → IsGreatest 𝓟 t (seen ++ gather vals xs) n
  then-Accounts vals f fails e h seen m xs n g eq =
      let (k, loop, last) =
        and_then-inr 𝓟 t (each f m xs) (λ k. if fails then inl e else inr k) n eq in
      each-Accounts 𝓟 t vals f h seen m xs n g (loop ∙ ap inr (unless_failed 𝓟 t fails e k n last))

  scan_page-Accounts : Accounts 𝓟 t (λ p. p.values) (scan_page 𝓟 t)
  unfolding scan_page
  scan_page-Accounts seen m p n g h =
      subst (λ vs. IsGreatest 𝓟 t (seen ++ vs) n) (gather_single p.values)
        (then-Accounts (λ v. v ∷ []) (take_value 𝓟 t) p.fails _ (take_value-Accounts 𝓟 t order) seen
          m p.values n g h)

  scan_chunk-Accounts : Accounts 𝓟 t chunk_values (scan_chunk 𝓟 t)
  unfolding scan_chunk
  scan_chunk-Accounts seen m c n g h =
      then-Accounts (λ p. p.values) (scan_page 𝓟 t) c.fails _ scan_page-Accounts seen m c.pages n g
        h

  scan_row_group-Accounts : (i : ℕ) → Accounts 𝓟 t (group_values i) (scan_row_group 𝓟 t i)
  unfolding scan_row_group
  scan_row_group-Accounts i seen m chunks n g h = by_chunk (get_elem? chunks i) h
    where
      by_chunk :
          (o : Option (Chunk 𝓟.Value))
          → elim o [ none ↦ inr m | some c ↦ scan_chunk 𝓟 t m c ] ≡ inr n
          → IsGreatest 𝓟 t (seen ++ elim o [ none ↦ [] | some c ↦ chunk_values c ]) n
      by_chunk none k =
          subst (λ vs. IsGreatest 𝓟 t vs n) (sym (append-nil seen))
            (subst (IsGreatest 𝓟 t seen) (inr_path k) g)
      by_chunk (some c) k = scan_chunk-Accounts seen m c n g k

  scan_column-Accounts :
      (i : Option ℕ) → Accounts 𝓟 t (groups_values i) (λ m groups. scan_column 𝓟 t m groups i)
  unfolding scan_column
  scan_column-Accounts none seen m groups n g h = inl_inr h
  scan_column-Accounts (some i) seen m groups n g h =
      each-Accounts 𝓟 t (group_values i) (scan_row_group 𝓟 t i) (scan_row_group-Accounts i) seen m
        groups n g h

  scan_file-Accounts : (column : List ℕ) → Accounts 𝓟 t (file_values column) (scan_file 𝓟 t column)
  unfolding scan_file
  scan_file-Accounts column seen m unreadable n g h = inl_inr h
  scan_file-Accounts column seen m (opened cols groups) n g h =
      scan_column-Accounts (column_index column cols) seen m groups n g h

  -- A scan that ends without an error has found the greatest value of the column.
  pub max_parquet_column-IsGreatest :
      (files : List (File 𝓟.Value)) (column : List ℕ) (n : Option (WatermarkValue 𝓕))
      → max_parquet_column 𝓟 t files column ≡ inr n
      → IsGreatest 𝓟 t (gather (file_values column) files) n
  unfolding max_parquet_column
  max_parquet_column-IsGreatest files column n h =
      each-Accounts 𝓟 t (file_values column) (scan_file 𝓟 t column) (scan_file-Accounts column) []
        none files n (tt, tt) h
