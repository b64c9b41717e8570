-- ===== src/Wire/Reader.antt =====
-- An io.Reader over bytes in memory, and the errors of the coders of internal/beam/core. A
-- reader is the list of the bytes that are left; a read returns its result and what it leaves.
use Prim.Native.String.{String}
use omnibeam_go.Common.{
  ℕ, ◌≡◌, Bool, true, false, List, [], ◌∷◌, ◌++◌, length, take, drop, leb, if◌then◌else◌, arith,
  length-append, ap, take-append, drop-append, le→leb,
}
use omnibeam_go.Common.Int.{ℤ}

-- `wrap` and `wrap_at` are `fmt.Errorf` with `%w`: the message's prefix, the index, the cause.
pub data Error : Type 0 where
  eof unexpected_eof varint_overflow nil_token : Error
  invalid_length invalid_field_count : ℤ → Error
  field_count_mismatch : ℕ → ℕ → Error
  wrap : String → Error → Error
  wrap_at : String → ℕ → Error → Error

pub data Result {ℓ} (A : Type ℓ) : Type ℓ where
  ok : A → Result A
  err : Error → Result A

abbrev pub Reader {ℓ} : Type ℓ → Type ℓ
Reader A = List ℕ → Result A × List ℕ

infixl 5 ◌>>=◌ ◌>>◌
abbrev pub ◌>>=◌ {ℓ κ} : {A : Type ℓ} {B : Type κ} → Reader A → (A → Reader B) → Reader B
◌>>=◌ m f src = let (r, rest) = m src in elim r [ ok a ↦ f a rest | err e ↦ (err e, rest) ]

abbrev pub ◌>>◌ {ℓ κ} : {A : Type ℓ} {B : Type κ} → Reader A → Reader B → Reader B
m >> k = m >>= λ _. k

abbrev pub pure {ℓ} : {A : Type ℓ} → A → Reader A
pure a src = (ok a, src)

abbrev pub throw {ℓ} : {A : Type ℓ} → Error → Reader A
throw e src = (err e, src)

-- `v, err := m; if err != nil { return handler }`
abbrev pub catch {ℓ} : {A : Type ℓ} → Reader A → (Error → Reader A) → Reader A
catch m handler src =
    let (r, rest) = m src in elim r [ ok a ↦ (ok a, rest) | err e ↦ handler e rest ]

-- `if err != nil { return fmt.Errorf(...) }` after a read.
abbrev pub context {ℓ} : {A : Type ℓ} → Reader A → (Error → Error) → Reader A
context m f = catch m (λ e. throw (f e))

-- `errors.Is(err, ErrNilToken)` looks through the wrapped errors.
unfoldable pub is_nil_token : Error → Bool
is_nil_token eof = false
is_nil_token unexpected_eof = false
is_nil_token varint_overflow = false
is_nil_token nil_token = true
is_nil_token (invalid_length n) = false
is_nil_token (invalid_field_count n) = false
is_nil_token (field_count_mismatch e g) = false
is_nil_token (wrap s e) = is_nil_token e
is_nil_token (wrap_at s i e) = is_nil_token e

unfoldable pub short_read : List ℕ → Error
short_read [] = eof
short_read (b ∷ src) = unexpected_eof

-- `io.ReadFull` into a buffer of `n` bytes.
unfoldable pub read_full : ℕ → Reader (List ℕ)
read_full n src =
    if leb n (length src) then (ok (take n src), drop n src) else (err (short_read src), [])

pub read_full-append : (b rest : List ℕ) → read_full (length b) (b ++ rest) ≡ (ok b, rest)
unfolding read_full
read_full-append b rest = rw (
  le→leb (length b) (length (b ++ rest)) (omega (arith, length-append b rest)),
  take-append b rest,
  drop-append b rest,
)

-- A read that succeeds hands its value and what it leaves to the next one.
pub bind-ok {ℓ κ} :
    {A : Type ℓ} {B : Type κ} (m : Reader A) (f : A → Reader B) (src : List ℕ) {a : A}
    {rest : List ℕ}
    → m src ≡ (ok a, rest)
    → (m >>= f) src ≡ f a rest
bind-ok {B} m f src e =
    ap (λ p. elim p.0 as (λ _. Result B × List ℕ) [ ok a ↦ f a p.1 | err e ↦ (err e, p.1) ]) e

-- A read that fails ends the whole.
pub bind-err {ℓ κ} :
    {A : Type ℓ} {B : Type κ} (m : Reader A) (f : A → Reader B) (src : List ℕ) {e : Error}
    {rest : List ℕ}
    → m src ≡ (err e, rest)
    → (m >>= f) src ≡ (err e, rest)
bind-err {B} m f src e =
    ap (λ p. elim p.0 as (λ _. Result B × List ℕ) [ ok a ↦ f a p.1 | err e ↦ (err e, p.1) ]) e

pub catch-ok {ℓ} :
    {A : Type ℓ} (m : Reader A) (handler : Error → Reader A) (src : List ℕ) {a : A} {rest : List ℕ}
    → m src ≡ (ok a, rest)
    → catch m handler src ≡ (ok a, rest)
catch-ok {A} m handler src e =
    ap (λ p. elim p.0 as (λ _. Result A × List ℕ) [ ok a ↦ (ok a, p.1) | err e ↦ handler e p.1 ]) e

pub catch-err {ℓ} :
    {A : Type ℓ} (m : Reader A) (handler : Error → Reader A) (src : List ℕ) {e : Error}
    {rest : List ℕ}
    → m src ≡ (err e, rest)
    → catch m handler src ≡ handler e rest
catch-err {A} m handler src e =
    ap (λ p. elim p.0 as (λ _. Result A × List ℕ) [ ok a ↦ (ok a, p.1) | err e ↦ handler e p.1 ]) e

pub context-ok {ℓ} :
    {A : Type ℓ} (m : Reader A) (f : Error → Error) (src : List ℕ) {a : A} {rest : List ℕ}
    → m src ≡ (ok a, rest)
    → context m f src ≡ (ok a, rest)
context-ok m f src e = catch-ok m (λ e. throw (f e)) src e
