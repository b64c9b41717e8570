-- ===== src/ByteStream/Worker.antt =====
-- `ProcessElement` of internal/beam/streams/byte_stream_sdf.go: the feeder of one worker, which reads
-- the records of its range and claims the offset of each. The decoder is fed these bytes; the pipe
-- between the two, and a cancelled context, are not modelled.
use omnibeam_go.Common.{ℕ, zero, suc, Bool, List, [], ◌∷◌, length, drop, if◌then◌else◌}
use omnibeam_go.Common.Int.{ℤ, pos, pos_part, leb_ℤ, ltb_ℤ}
use omnibeam_go.Common.Word.{add64}
use omnibeam_go.Tracker.{Range, Tracker, claim_offset, mark_done}
use omnibeam_go.ByteStream.Records.{Read, read_record}

abbrev pub or_line : List ℕ → List (List ℕ) → List (List ℕ)
or_line [] ls = ls
or_line (b ∷ l) ls = (b ∷ l) ∷ ls

-- After a read the line is written, and the end of the file ends the loop.
unfoldable pub after_read : Tracker → Read → Tracker × List (List ℕ) → Tracker × List (List ℕ)
after_read t r more = if r.at_end then (t, or_line r.bytes []) else (more.0, or_line r.bytes more.1)

-- The loop of the feeder, from the state of the tracker to its state at the end with the lines
-- written: `end_` is the end of the restriction when the worker began. A round that does not stop
-- reads a byte at least, so `suc (length src)` rounds are enough.
unfoldable pub feed : ℕ → (List ℕ → Read) → Tracker → ℤ → ℤ → List ℕ → Tracker × List (List ℕ)
feed zero read t end_ at src = (t, [])
feed (suc n) read t end_ at src =
    let (claimed, accepted) = claim_offset t at in
    let r = read src in
    let more = feed n read claimed end_ (add64 at (pos (length r.bytes))) r.left in
    if leb_ℤ end_ at
    then (t, [])
    else (if accepted then after_read claimed r more else (claimed, []))

-- Past the partial record at the start of a range that does not begin the file.
unfoldable pub skip_partial : (List ℕ → Read) → Range → List ℕ → ℤ × List ℕ
skip_partial read rest src =
    let r = read src in
    if ltb_ℤ (pos 0) rest.start
    then (add64 rest.start (pos (length r.bytes)), r.left)
    else (rest.start, src)

-- The worker: its tracker, which it marks done, and the lines that it feeds to its decoder. That it
-- returns at once when the partial record reaches the end of the range is the loop's first test.
unfoldable pub process : ℕ → Bool → Tracker → List ℕ → Tracker × List (List ℕ)
process q multiline t file =
    let read = read_record q multiline in
    let (at, src) = skip_partial read t.rest (drop (pos_part t.rest.start) file) in
    let (done, written) = feed (suc (length src)) read t t.rest.end_ at src in
    (mark_done done, written)
