-- ===== src/Examples/ByteStream.antt =====
-- The theorems on chunks and workers of internal/beam/streams/byte_stream_sdf.go at a file of three
-- lines that is cut at the start of its second line, and what its workers read of it.
use omnibeam_go.Common.{ℕ, ◌≡◌, refl, true, false, List, [], ◌∷◌, ◌++◌, ◌<◌, ◌⊎◌, length, arith}
use omnibeam_go.Common.Int.{pos, ◌≤ℤ◌, ◌-ℤ◌, ◌+ℤ◌}
use omnibeam_go.Tracker.{new_tracker, claim_offset, mark_done}
use omnibeam_go.Common.Word.{add64, sub64, wrap64}
use omnibeam_go.Tracker.Runs.{Tiles}
use omnibeam_go.ByteStream.Chunks.{
  initial_restriction, chunk_size_or_default, split_chunks, split_restriction,
  split_restriction-Tiles,
}
use omnibeam_go.ByteStream.Records.{
  read_line, scan_quotes, read_quoted, read_record, read_record_progress,
}
use omnibeam_go.ByteStream.Worker.{process, skip_partial, feed, after_read}
use omnibeam_go.ByteStream.Lines.{lines_at, keep}
use omnibeam_go.ByteStream.Coverage.{in_chunk, process-in_chunk}
use omnibeam_go.ByteStream.Sync.{scan_boundary, sync_to_boundary, sync_to_boundary-range}
use omnibeam_go.ByteStream.Split.{process_all, is_read, process_all-split_restriction}

-- "a", "b" and "c" in lines of two bytes.
abbrev three_lines : List ℕ
three_lines = 97 ∷ 10 ∷ 98 ∷ 10 ∷ 99 ∷ 10 ∷ []

-- A quoted field with a newline and a doubled quote in it, and a line.
abbrev quoted_lines : List ℕ
quoted_lines = 34 ∷ 97 ∷ 10 ∷ 34 ∷ 34 ∷ 34 ∷ 10 ∷ 98 ∷ 10 ∷ []

split_restriction-Tiles_example :
    Tiles (pos 0) (split_restriction false (pos 2) (record { start = pos 0; end_ = pos 5 })) (pos 5)
split_restriction-Tiles_example =
    split_restriction-Tiles false (pos 2) 0 5 (omega arith)
      (unfold chunk_size_or_default in omega arith)

read_record_progress_example :
    let r = read_record 34 true quoted_lines in
    (r.bytes ++ r.left ≡ quoted_lines)
    × (((r.at_end ≡ false) × (0 < length r.bytes)) ⊎ ((r.at_end ≡ true) × (r.left ≡ [])))
read_record_progress_example = read_record_progress 34 true quoted_lines

-- The quoted record is read whole, over its newline.
read_quoted_record : (read_record 34 true quoted_lines).left ≡ 98 ∷ 10 ∷ []
unfolding read_record read_quoted scan_quotes read_line
read_quoted_record = refl

process-in_chunk_example :
    (process 34 false (new_tracker (record { start = pos 1; end_ = pos 5 })) three_lines).1
    ≡ keep (in_chunk 1 5) (lines_at 0 three_lines)
process-in_chunk_example =
    process-in_chunk 34 1 5 three_lines (omega arith) (omega arith) (omega arith)

process_all-split_restriction_example :
    let cs = split_restriction false (pos 2) (initial_restriction (pos (length three_lines))) in
    process_all 34 three_lines cs
    ≡ keep (is_read 0 (length three_lines) cs) (lines_at 0 three_lines)
process_all-split_restriction_example =
    process_all-split_restriction 34 false (pos 2) three_lines (omega arith)
      (unfold chunk_size_or_default in omega arith)

-- Cut at every line, the file loses all lines but the first.
three_lines_in_chunks :
    process_all 34 three_lines
      (split_restriction false (pos 2) (initial_restriction (pos (length three_lines))))
    ≡ (97 ∷ 10 ∷ []) ∷ []
unfolding process_all process skip_partial feed after_read read_record read_line split_restriction
    split_chunks chunk_size_or_default new_tracker claim_offset mark_done add64 sub64 wrap64 ◌-ℤ◌
    ◌+ℤ◌
three_lines_in_chunks = refl

sync_to_boundary-range_example :
    (pos 1 ≤ℤ sync_to_boundary true 34 quoted_lines (pos 1))
    × (sync_to_boundary true 34 quoted_lines (pos 1) ≤ℤ pos (length quoted_lines))
sync_to_boundary-range_example =
    sync_to_boundary-range true 34 1 quoted_lines (omega arith) (omega arith)

-- The newline at 2 is quoted, so the boundary behind 1 is at 7.
sync_over_quotes : sync_to_boundary true 34 quoted_lines (pos 1) ≡ pos 7
unfolding sync_to_boundary scan_boundary
sync_over_quotes = refl
