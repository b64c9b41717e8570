-- ===== src/Wire/Bytes/Untrusted.antt =====
-- `readVarint` and `readBytes` of internal/beam/core/coders_helpers.go on any input.
use omnibeam_go.Common.{ℕ, ◌≤◌, ◌≡◌, List, ◌++◌, length}
use omnibeam_go.Wire.Reader.{Result, ok, err}
use omnibeam_go.Wire.Bytes.{default_chunk_size_bytes}

-- At most `k` bytes were read from the front of the input.
abbrev pub Reads {ℓ} : {A : Type ℓ} → ℕ → List ℕ → Result A × List ℕ → Type 0
Reads k src r = (head : List ℕ) × (length head ≤ k) × (src ≡ head ++ r.1)

-- What a read of a string leaves: a string within the limit stood behind a length of at most ten bytes, and
-- what followed it is left; after an error the rest of the input is left.
abbrev pub ReadsString : List ℕ → Result (List ℕ) × List ℕ → Type 0
ReadsString src (ok b, rest) =
    (length b ≤ default_chunk_size_bytes)
    × ((head : List ℕ) × (length head ≤ 10) × (src ≡ head ++ (b ++ rest)))
ReadsString src (err e, rest) = (head : List ℕ) × (src ≡ head ++ rest)
