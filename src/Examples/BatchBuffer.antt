-- ===== src/Examples/BatchBuffer.antt =====
-- A theorem of internal/beam/core/batch_buffer.go at a concrete sequence of calls.
use omnibeam_go.Common.{ℕ, ◌≡◌, refl, true, false, List, [], ◌∷◌, ◌++◌, All}
use omnibeam_go.Common.Int.{pos}
use omnibeam_go.BatchBuffer.{new_buffer, add, flush, flush_items}
use omnibeam_go.BatchBuffer.Runs.{
  BufferCall, add_item, flush_all, concat, IsFilled, buffer_call, run_calls, run_calls-conserved,
}

-- The flush of the second item fails, that of the third takes all three.
abbrev five_calls : List (BufferCall ℕ)
five_calls =
    add_item 1 false ∷ add_item 2 true ∷ add_item 3 false ∷ add_item 4 false ∷ flush_all false ∷ []

run_calls-conserved_example :
    (concat (run_calls five_calls (new_buffer (pos 2))).1
        ++ (run_calls five_calls (new_buffer (pos 2))).0.items
      ≡ (new_buffer (pos 2)).items ++ (1 ∷ 2 ∷ 3 ∷ 4 ∷ []))
    × All IsFilled (run_calls five_calls (new_buffer (pos 2))).1
run_calls-conserved_example = run_calls-conserved five_calls (new_buffer (pos 2))

two_batches : (run_calls five_calls (new_buffer (pos 2))).1 ≡ (1 ∷ 2 ∷ 3 ∷ []) ∷ (4 ∷ []) ∷ []
unfolding run_calls buffer_call add flush flush_items new_buffer
two_batches = refl
