-- ===== src/Watermark/Literal.antt =====
-- The string literals of `SQLLiteral` of internal/domain/watermark_value.go, read as the SQL standard
-- reads them.
use omnibeam_go.Common.{
  ℕ, ◌≡◌, refl, Bool, true, false, Option, none, some, List, [], ◌∷◌, ◌++◌, append_assoc, ◌==◌,
  if◌then◌else◌, arith,
}
use omnibeam_go.Watermark.{double_quotes, quoted}

abbrev pub Reading : Type 0
Reading = Option (List ℕ × List ℕ)

abbrev pub with_character : ℕ → Reading → Reading
with_character c none = none
with_character c (some (s, rest)) = some (c ∷ s, rest)

-- The value of a literal and what follows it, from behind its opening quote; the flag says that a quote was
-- just read, which either closes the literal or begins a doubled one.
unfoldable pub read_body : Bool → List ℕ → Reading
read_body true [] = some ([], [])
read_body false [] = none
read_body true (c ∷ s) =
    let rest = read_body false s in if c == 39 then with_character 39 rest else some ([], c ∷ s)
read_body false (c ∷ s) =
    let rest = read_body (c == 39) s in if c == 39 then rest else with_character c rest

-- A standard string literal at the head of a text.
unfoldable pub read_literal : List ℕ → Reading
read_literal [] = none
read_literal (c ∷ s) = if c == 39 then read_body false s else none

-- No quote comes first.
abbrev pub begins_quoted : List ℕ → Bool
begins_quoted [] = false
begins_quoted (c ∷ s) = c == 39

read_body-closed :
    (rest : List ℕ) → begins_quoted rest ≡ false → read_body true rest ≡ some ([], rest)
unfolding read_body
read_body-closed [] h = refl
read_body-closed (c ∷ s) h = rw h refl

read_body-double_quotes :
    (s rest : List ℕ)
    → begins_quoted rest ≡ false
    → read_body false (double_quotes s ++ 39 ∷ rest) ≡ some (s, rest)
unfolding read_body double_quotes
read_body-double_quotes [] rest h = read_body-closed rest h
read_body-double_quotes (c ∷ s) rest h = ground (arith, read_body-double_quotes s rest h)

-- A quoted text is read back whole, whatever it holds, and nothing behind it is taken into it.
pub read_literal-quoted :
    (s rest : List ℕ)
    → begins_quoted rest ≡ false
    → read_literal (quoted (double_quotes s) ++ rest) ≡ some (s, rest)
unfolding read_literal
read_literal-quoted s rest h =
    rw (append_assoc (double_quotes s) (39 ∷ []) rest) (read_body-double_quotes s rest h)
