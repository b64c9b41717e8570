-- ===== src/Examples/Metrics.antt =====
-- The counters of internal/domain/metrics.go at concrete steps, and an interleaving of two calls of
-- `RecordWritten` that leaves the row count behind.
use omnibeam_go.Common.{◌+◌, ◌≡◌, refl, List, [], ◌∷◌, ◌==◌, arith}
use omnibeam_go.Common.Int.{pos, ◌+ℤ◌}
use omnibeam_go.Common.Word.{add64, wrap64, of_u64, to_u64}
use omnibeam_go.Metrics.{new_pipeline_metrics, is_strictly_conserved, add_written, store_row_count}
use omnibeam_go.Metrics.Events.{
  Event, read, written, dead_letter, row_count, column_null, step, after, reads, writes, rejections,
  after-conserved,
}

abbrev events : List Event
events = read ∷ read ∷ written ∷ column_null (97 ∷ []) ∷ dead_letter ∷ row_count (pos 1) ∷ []

after-conserved_example :
    is_strictly_conserved (after events (new_pipeline_metrics [] []))
    ≡ (reads events == writes events + rejections events)
after-conserved_example = after-conserved [] [] events (omega arith) (omega arith)

-- Both add, and the one that added first stores last.
abbrev late_store : List Event
late_store = written ∷ written ∷ row_count (pos 2) ∷ row_count (pos 1) ∷ []

row_count_behind : (after late_store (new_pipeline_metrics [] [])).row_count ≡ pos 1
unfolding after step add_written store_row_count
row_count_behind = refl

rows_written_ahead : (after late_store (new_pipeline_metrics [] [])).rows_written ≡ pos 2
unfolding after step add_written store_row_count add64 wrap64 of_u64 to_u64 ◌+ℤ◌
rows_written_ahead = refl
