-- ===== src/Metrics/Events.antt =====
-- The counters of internal/domain/metrics.go after any sequence of their atomic steps.
use omnibeam_go.Common.{ℕ, suc, ◌+◌, ◌<◌, ◌^◌, ◌≡◌, refl, ap, ◌∙◌, List, [], ◌∷◌, ◌==◌, arith}
use omnibeam_go.Common.Int.{ℤ, pos, eqb_ℤ}
use omnibeam_go.Common.Word.{add64, add64_pos}
use omnibeam_go.Metrics.{
  PipelineMetrics, new_pipeline_metrics, record_read, add_written, store_row_count, record_api_call,
  record_dead_letter, add_column_null, add_invalid_value, is_strictly_conserved,
}

-- The steps; the row count may be stored late, and by then be an old one.
pub data Event : Type 0 where
  read written api_call dead_letter : Event
  row_count : ℤ → Event
  column_null invalid_value : List ℕ → Event

unfoldable pub step : Event → PipelineMetrics → PipelineMetrics
step read m = record_read m
step written m = (add_written m).0
step api_call m = record_api_call m
step dead_letter m = record_dead_letter m
step (row_count n) m = store_row_count n m
step (column_null col) m = add_column_null col m
step (invalid_value col) m = add_invalid_value col m

unfoldable pub after : List Event → PipelineMetrics → PipelineMetrics
after [] m = m
after (e ∷ es) m = after es (step e m)

abbrev pub reads : List Event → ℕ
reads [] = 0
reads (read ∷ es) = suc (reads es)
reads (written ∷ es) = reads es
reads (api_call ∷ es) = reads es
reads (dead_letter ∷ es) = reads es
reads (row_count n ∷ es) = reads es
reads (column_null col ∷ es) = reads es
reads (invalid_value col ∷ es) = reads es

abbrev pub writes : List Event → ℕ
writes [] = 0
writes (read ∷ es) = writes es
writes (written ∷ es) = suc (writes es)
writes (api_call ∷ es) = writes es
writes (dead_letter ∷ es) = writes es
writes (row_count n ∷ es) = writes es
writes (column_null col ∷ es) = writes es
writes (invalid_value col ∷ es) = writes es

abbrev pub rejections : List Event → ℕ
rejections [] = 0
rejections (read ∷ es) = rejections es
rejections (written ∷ es) = rejections es
rejections (api_call ∷ es) = rejections es
rejections (dead_letter ∷ es) = suc (rejections es)
rejections (row_count n ∷ es) = rejections es
rejections (column_null col ∷ es) = rejections es
rejections (invalid_value col ∷ es) = rejections es

-- Counters that stand at exact numbers.
record Counts (r w d : ℕ) (m : PipelineMetrics) : Type 0 where
  total : m.total_records_read ≡ pos r
  rows : m.rows_written ≡ pos w
  letters : m.dead_letter_count ≡ pos d

more : (n : ℕ) (z : ℤ) → z ≡ pos n → n + 1 < 2 ^ 63 → add64 z (pos 1) ≡ pos (n + 1)
more n z e h = ap (λ x. add64 x (pos 1)) e ∙ add64_pos n 1 h

after-Counts :
    (es : List Event) (r w d : ℕ) (m : PipelineMetrics)
    → r + reads es < 2 ^ 63
    → w + writes es < 2 ^ 63
    → d + rejections es < 2 ^ 63
    → Counts r w d m
    → Counts (r + reads es) (w + writes es) (d + rejections es) (after es m)
unfolding after step record_read add_written record_api_call record_dead_letter store_row_count
    add_column_null add_invalid_value
after-Counts [] r w d m hr hw hd c = record {
  total = c.total ∙ ap pos (omega arith);
  rows = c.rows ∙ ap pos (omega arith);
  letters = c.letters ∙ ap pos (omega arith);
}
after-Counts (read ∷ es) r w d m hr hw hd c =
    let k = after-Counts es (r + 1) w d (record_read m) (omega (arith, hr)) hw hd record {
      total = more r m.total_records_read c.total (omega (arith, hr));
      rows = c.rows;
      letters = c.letters;
    } in
    record { total = k.total ∙ ap pos (omega arith); rows = k.rows; letters = k.letters }
after-Counts (written ∷ es) r w d m hr hw hd c =
    let k = after-Counts es r (w + 1) d (add_written m).0 hr (omega (arith, hw)) hd record {
      total = c.total;
      rows = more w m.rows_written c.rows (omega (arith, hw));
      letters = c.letters;
    } in
    record { total = k.total; rows = k.rows ∙ ap pos (omega arith); letters = k.letters }
after-Counts (dead_letter ∷ es) r w d m hr hw hd c =
    let k = after-Counts es r w (d + 1) (record_dead_letter m) hr hw (omega (arith, hd)) record {
      total = c.total;
      rows = c.rows;
      letters = more d m.dead_letter_count c.letters (omega (arith, hd));
    } in
    record { total = k.total; rows = k.rows; letters = k.letters ∙ ap pos (omega arith) }
after-Counts (api_call ∷ es) r w d m hr hw hd c =
    after-Counts es r w d (record_api_call m) hr hw hd
      record { total = c.total; rows = c.rows; letters = c.letters }
after-Counts (row_count n ∷ es) r w d m hr hw hd c =
    after-Counts es r w d (store_row_count n m) hr hw hd
      record { total = c.total; rows = c.rows; letters = c.letters }
after-Counts (column_null col ∷ es) r w d m hr hw hd c =
    after-Counts es r w d (add_column_null col m) hr hw hd
      record { total = c.total; rows = c.rows; letters = c.letters }
after-Counts (invalid_value col ∷ es) r w d m hr hw hd c =
    after-Counts es r w d (add_invalid_value col m) hr hw hd
      record { total = c.total; rows = c.rows; letters = c.letters }

conserved_iff : (r w d : ℕ) → w + d < 2 ^ 63 → eqb_ℤ (pos r) (add64 (pos w) (pos d)) ≡ (r == w + d)
conserved_iff r w d h = ap (eqb_ℤ (pos r)) (add64_pos w d h) ∙ ground arith

-- From fresh metrics, after fewer than 2^63 reads and writes and rejections, whatever steps were taken
-- in whatever order: the check of conservation passes exactly if the reads were as many as the writes
-- and the rejections together.
pub after-conserved :
    (pid rid : List ℕ) (es : List Event)
    → reads es < 2 ^ 63
    → writes es + rejections es < 2 ^ 63
    → is_strictly_conserved (after es (new_pipeline_metrics pid rid))
      ≡ (reads es == writes es + rejections es)
unfolding is_strictly_conserved
after-conserved pid rid es hr hw =
    let c =
      after-Counts es 0 0 0 (new_pipeline_metrics pid rid) (omega (arith, hr)) (omega (arith, hw))
        (omega (arith, hw)) record { total = refl; rows = refl; letters = refl } in
    rw (c.total, c.rows, c.letters)
      (conserved_iff (0 + reads es) (0 + writes es) (0 + rejections es) (omega (arith, hw))
        ∙ ground arith)
