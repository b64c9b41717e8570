-- ===== src/ByteStream/Coverage.antt =====
-- Which lines of a file the workers of internal/beam/streams/byte_stream_sdf.go read, for files
-- whose records are lines (`multiline` off): one worker, and all the workers of a split file.
use omnibeam_go.Common.{
  ℕ, zero, suc, ◌+◌, ◌≤◌, ◌<◌, ◌^◌, ◌≡◌, ◌⊎◌, inl, inr, refl, sym, ap, ◌∙◌, Bool, true, false, ◌&&◌,
  ◌||◌, List, [], ◌∷◌, length, length-append, length-drop, drop, ◌==◌, ltb, if◌then◌else◌, arith,
}
use omnibeam_go.Common.Int.{ℤ, pos, pos_part, ◌≤ℤ◌, ◌<ℤ◌, int_laws}
use omnibeam_go.Common.Word.{add64, add64_pos}
use omnibeam_go.Tracker.{Range, Tracker, claim_offset, new_tracker}
use omnibeam_go.Tracker.Laws.{before_start}
use omnibeam_go.ByteStream.Records.{Read, Reads, read_line, read_line-Reads, read_record}
use omnibeam_go.ByteStream.Worker.{feed, after_read, or_line, skip_partial, process}
use omnibeam_go.ByteStream.Lines.{
  lines_at, keep, keep-in, keep-none, keep-skip, lines_at-From, lines_at-read_line, lines_at-offset,
}

-- A tracker that accepts the offset `at`, if that is below `e`.
record IsReady (t : Tracker) (at e : ℕ) : Type 0 where
  running : t.stopped ≡ false
  from : t.rest.start ≤ℤ pos at
  to : t.rest.end_ ≡ pos e
  unclaimed : t.claimed <ℤ pos at

claim-IsReady :
    (t : Tracker) (at e : ℕ)
    → IsReady t at e
    → at < e
    → claim_offset t (pos at) ≡ (record t { claimed = pos at }, true)
unfolding claim_offset
claim-IsReady t at e r h = ground (arith, h, r.running, r.from, r.to, r.unclaimed)

next-IsReady :
    (t : Tracker) (at e n : ℕ)
    → IsReady t at e
    → 0 < n
    → IsReady (record t { claimed = pos at }) (at + n) e
next-IsReady t at e n r h = record {
  running = r.running;
  from = omega (arith, r.from);
  to = r.to;
  unclaimed = omega (arith, h);
}

feed-past :
    (n at e : ℕ) (t : Tracker) (src : List ℕ)
    → e ≤ at
    → (feed n read_line t (pos e) (pos at) src).1 ≡ []
unfolding feed
feed-past zero at e t src h = refl
feed-past (suc n) at e t src h = ground (arith, h)

-- A round below the end of the range.
feed-round :
    (n at e : ℕ) (t : Tracker) (src : List ℕ)
    → IsReady t at e
    → at < e
    → let r = read_line src in
      feed (suc n) read_line t (pos e) (pos at) src
      ≡ after_read
          (record t { claimed = pos at })
          r
          (feed n read_line
            (record t { claimed = pos at })
            (pos e)
            (add64 (pos at) (pos (length r.bytes)))
            r.left)
unfolding feed
feed-round n at e t src k h = ground (arith, h, claim-IsReady t at e k h)

after_read-line :
    (t : Tracker) (r : Read) (more : Tracker × List (List ℕ)) (ls : List (List ℕ)) (ended : Bool)
    → r.at_end ≡ ended
    → 0 < length r.bytes
    → (ended ≡ true → ls ≡ [])
    → (ended ≡ false → more.1 ≡ ls)
    → (after_read t r more).1 ≡ r.bytes ∷ ls
unfolding after_read
after_read-line t r more ls ended e h k m = rw e (ends_or_goes ended t r.bytes more ls h k m)
  where
    ends_or_goes :
        (ended : Bool) (t : Tracker) (l : List ℕ) (more : Tracker × List (List ℕ))
        (ls : List (List ℕ))
        → 0 < length l
        → (ended ≡ true → ls ≡ [])
        → (ended ≡ false → more.1 ≡ ls)
        → (if◌then◌else◌ {A = Tracker × List (List ℕ)} ended
            (t, or_line l [])
            (more.0, or_line l more.1)).1
          ≡ l ∷ ls
    ends_or_goes ended t [] more ls h k m = absurd (omega (arith, h))
    ends_or_goes true t (b ∷ l) more ls h k m = ap (◌∷◌ (b ∷ l)) (sym (k refl))
    ends_or_goes false t (b ∷ l) more ls h k m = ap (◌∷◌ (b ∷ l)) (m refl)

some_bytes :
    (src : List ℕ) (r : Read) (ended : Bool)
    → 0 < length src
    → Reads src r
    → r.at_end ≡ ended
    → 0 < length r.bytes
some_bytes src r true z h e = omega (
  arith,
  ap (length {A = ℕ}) (h.ends e),
  length-append r.bytes r.left,
  ap (length {A = ℕ}) h.whole,
  z,
)
some_bytes src r false z h e = h.moves e

by_order : (a b : ℕ) → (b ≤ a) ⊎ (a < b)
by_order a b = ground arith

module _ (p : ℕ → Bool) (e : ℕ) where
  -- What the feeder writes from a place on, where the test `p` is that of the end of the range.
  Feeds : ℕ → Type 0
  Feeds n =
      (at : ℕ) (t : Tracker) (src : List ℕ)
      → length src < n
      → at + length src < 2 ^ 63
      → IsReady t at e
      → ((x : ℕ) → at ≤ x → p x ≡ ltb x e)
      → (feed n read_line t (pos e) (pos at) src).1 ≡ keep p (lines_at at src)

  feed_line :
      (n at : ℕ) (t : Tracker) (src : List ℕ)
      → Feeds n
      → length src < suc n
      → at + length src < 2 ^ 63
      → IsReady t at e
      → ((x : ℕ) → at ≤ x → p x ≡ ltb x e)
      → at < e
      → (feed (suc n) read_line t (pos e) (pos at) src).1 ≡ keep p (lines_at at src)
  unfolding Feeds
  feed_line n at t [] ih h fits k m below =
      ap (λ x. x.1) (feed-round n at e t [] k below)
      ∙ (unfold after_read read_line keep lines_at in refl)
  feed_line n at t (b ∷ src) ih h fits k m below =
      let r = read_line (b ∷ src) in
      let reads = read_line-Reads (b ∷ src) in
      let moved = some_bytes (b ∷ src) r r.at_end (omega arith) reads refl in
      let total = length-append r.bytes r.left in
      let whole = ap (length {A = ℕ}) reads.whole in
      let claimed : Tracker = record t { claimed = pos at } in
      let next = at + length r.bytes in
      ap (λ x. x.1) (feed-round n at e t (b ∷ src) k below)
      ∙ after_read-line claimed r
          (feed n read_line claimed (pos e) (add64 (pos at) (pos (length r.bytes))) r.left)
          (keep p (lines_at next r.left)) r.at_end refl moved
          (λ z. ap (λ x. keep p (lines_at next x)) (reads.ends z) ∙ (unfold keep lines_at in refl))
          (λ z.
            ap (λ x. (feed n read_line claimed (pos e) x r.left).1)
              (add64_pos at (length r.bytes) (omega (arith, fits, total, whole)))
            ∙ ih next claimed r.left (omega (arith, h, total, whole, moved))
                (omega (arith, fits, total, whole)) (next-IsReady t at e (length r.bytes) k moved)
                (λ x o. m x (omega (arith, o))))
      ∙ sym (
          ap (keep p) (lines_at-read_line at b src)
          ∙ keep-in p (at, r.bytes) (lines_at next r.left)
              (m at (omega arith) ∙ ground (arith, below)))

  -- The feeder writes the lines from where it is up to the end of the range.
  feed-keep : (n : ℕ) → Feeds n
  unfolding Feeds
  feed-keep zero at t src h fits k m = absurd (omega (arith, h))
  feed-keep (suc n) at t src h fits k m = elim (by_order at e) [
    | inl past ↦
        feed-past (suc n) at e t src past
        ∙ sym (
            keep-none p at (lines_at at src) (lines_at-From at src)
              (λ x o. m x o ∙ ground (arith, past, o)))
    | inr below ↦ feed_line n at t src (feed-keep n) h fits k m below
  ]

new_tracker-IsReady :
    (s at e : ℕ)
    → s ≤ at
    → s ≤ e
    → e < 2 ^ 63
    → IsReady (new_tracker (record { start = pos s; end_ = pos e })) at e
unfolding new_tracker
new_tracker-IsReady s at e h k fits = record {
  running = refl;
  from = omega (arith, h);
  to = refl;
  unclaimed =
      rw
        (before_start (record { start = pos s; end_ = pos e }) (omega arith) (omega (arith, k))
          fits)
        (omega (int_laws, h));
}

skip_partial-first :
    (read : List ℕ → Read) (e : ℤ) (src : List ℕ)
    → skip_partial read (record { start = pos 0; end_ = e }) src ≡ (pos 0, src)
unfolding skip_partial
skip_partial-first read e src = ground arith

skip_partial-later :
    (read : List ℕ → Read) (s : ℕ) (e : ℤ) (src : List ℕ)
    → let r = read src in
      skip_partial read (record { start = pos (suc s); end_ = e }) src
      ≡ (add64 (pos (suc s)) (pos (length r.bytes)), r.left)
unfolding skip_partial
skip_partial-later read s e src = ground arith

-- The feeder from where the partial record ends.
feed_from : Tracker → ℤ → ℤ × List ℕ → List (List ℕ)
feed_from t e x = (feed (suc (length x.1)) read_line t e x.0 x.1).1

process-feed_from :
    (q : ℕ) (r : Range) (file : List ℕ)
    → (process q false (new_tracker r) file).1
      ≡ feed_from (new_tracker r) r.end_ (skip_partial read_line r (drop (pos_part r.start) file))
unfolding process feed_from new_tracker read_record
process-feed_from q r file = refl

-- The test of a line's offset that the worker of [s, e) comes to.
abbrev pub in_chunk : ℕ → ℕ → ℕ → Bool
in_chunk s e x = (s == 0 || ltb s x) && ltb x e

-- With `multiline` off, a worker of a range [s, e) that is not empty and lies inside a file whose
-- length is an int64 feeds its decoder exactly the lines of the file that start below e and beyond s, or from
-- the first byte on if s is 0, whole, in their order, each once.
pub process-in_chunk :
    (q s e : ℕ) (file : List ℕ)
    → s < e
    → e ≤ length file
    → length file < 2 ^ 63
    → (process q false (new_tracker (record { start = pos s; end_ = pos e })) file).1
      ≡ keep (in_chunk s e) (lines_at 0 file)
unfolding feed_from Feeds
process-in_chunk q zero e file h k fits =
    let r : Range = record { start = pos 0; end_ = pos e } in
    process-feed_from q r file
    ∙ ap (feed_from (new_tracker r) (pos e)) (skip_partial-first read_line (pos e) file)
    ∙ feed-keep (in_chunk 0 e) e (suc (length file)) 0 (new_tracker r) file (omega arith)
        (omega (arith, fits))
        (new_tracker-IsReady 0 0 e (omega arith) (omega arith) (omega (arith, k, fits)))
        (λ x o. refl)
process-in_chunk q (suc s) e file h k fits =
    let r : Range = record { start = pos (suc s); end_ = pos e } in
    let src = drop (suc s) file in
    let p = read_line src in
    let next = suc s + length p.bytes in
    let reads = read_line-Reads src in
    let dropped = length-drop (suc s) file (omega (arith, h, k)) in
    let read = length-append p.bytes p.left in
    let whole = ap (length {A = ℕ}) reads.whole in
    let moved = some_bytes src p p.at_end (omega (arith, dropped, h, k)) reads refl in
    process-feed_from q r file
    ∙ ap (feed_from (new_tracker r) (pos e)) (skip_partial-later read_line s (pos e) src)
    ∙ ap (λ x. feed_from (new_tracker r) (pos e) (x, p.left))
        (add64_pos (suc s) (length p.bytes) (omega (arith, fits, dropped, read, whole)))
    ∙ feed-keep (in_chunk (suc s) e) e (suc (length p.left)) next (new_tracker r) p.left
        (omega arith) (omega (arith, fits, dropped, read, whole))
        (new_tracker-IsReady (suc s) next e (omega arith) (omega (arith, h))
          (omega (arith, k, fits)))
        (λ x o. ground (arith, o, moved))
    ∙ ap (keep (in_chunk (suc s) e))
        (lines_at-offset next (0 + suc s + length p.bytes) p.left (omega arith))
    ∙ sym (keep-skip (in_chunk (suc s) e) (suc s) 0 file (λ x o. ground (arith, o)))
