-- ===== src/Batch/Coder/Parts.antt =====
-- Reading back the parts of a batch that `RecordBatchEncoder` of
-- internal/beam/core/record_batch_coder.go writes: numbers, texts, audit values.
use omnibeam_go.Common.{
  ℕ, zero, suc, ◌+◌, ◌/◌, ◌^◌, ◌<◌, ◌≡◌, refl, sym, ap, subst, ◌∙◌, List, [], ◌∷◌, ◌++◌, length,
  length-append, take, drop, take-append, drop-append, append_assoc, append-nil, All, arith,
}
use native.Mathlib.Nat.{pow-suc}
use omnibeam_go.Common.Int.{ℤ}
use omnibeam_go.Common.Word.{IsU64, IsI32, to_u32, of_u32, of_u32-to_u32, to_u32-lt}
use omnibeam_go.Common.Dict.{Dict, insert, IsMap, IsMap-middle, insert_new}
use omnibeam_go.Wire.Reader.{Reader, ok, ◌>>=◌, pure, bind-ok, read_full, read_full-append}
use omnibeam_go.Batch.Coder.{
  put_le, le_of, write_each, write_word, write_int32, write_long_text, write_entry, write_audit,
  read_le, read_each, read_int32, text_of_length, read_long_text, read_audit_entries, read_audit,
}

pub length-put_le : (k u : ℕ) → length (put_le k u) ≡ k
unfolding put_le
length-put_le zero u = refl
length-put_le (suc k) u = ap suc (length-put_le k (u / 256))

pub le_of-put_le : (k u : ℕ) → u < 256 ^ k → le_of (put_le k u) ≡ u
unfolding put_le le_of
le_of-put_le zero u h = omega arith
le_of-put_le (suc k) u h =
    omega (arith, pow-suc 256 k, le_of-put_le k (u / 256) (omega (arith, pow-suc 256 k)))

-- A buffer that was written is read whole.
pub read_full-written :
    (n : ℕ) (b rest : List ℕ) → length b ≡ n → read_full n (b ++ rest) ≡ (ok b, rest)
read_full-written n b rest h = rw (sym h) (read_full-append b rest)

pub read_le-put_le :
    (k u : ℕ) (rest : List ℕ) → u < 256 ^ k → read_le k (put_le k u ++ rest) ≡ (ok u, rest)
unfolding read_le
read_le-put_le k u rest h =
    bind-ok (read_full k) (λ b. pure (le_of b)) _
      (read_full-written k (put_le k u) rest (length-put_le k u))
    ∙ ap (λ n. pure n rest) (le_of-put_le k u h)

module _ {ℓ κ} {A : Type ℓ} (write : A → List ℕ) (read : Reader A) (P : A → Type κ)
    (back : (a : A) (rest : List ℕ) → P a → read (write a ++ rest) ≡ (ok a, rest)) where
  pub read_each-write_each :
      (xs : List A) (rest : List ℕ)
      → All P xs
      → read_each read (length xs) (write_each write xs ++ rest) ≡ (ok xs, rest)
  unfolding read_each write_each
  read_each-write_each [] rest hs = refl
  read_each-write_each (x ∷ xs) rest hs = rw (append_assoc (write x) (write_each write xs) rest) (
      bind-ok read (λ x. read_each read (length xs) >>= λ xs. pure (x ∷ xs)) _
        (back x (write_each write xs ++ rest) hs.0)
      ∙ bind-ok (read_each read (length xs)) (λ xs. pure (x ∷ xs)) _
          (read_each-write_each xs rest hs.1))

pub read_word-write_word :
    (u : ℕ) (rest : List ℕ) → IsU64 u → read_le 8 (write_word u ++ rest) ≡ (ok u, rest)
unfolding write_word
read_word-write_word u rest h = read_le-put_le 8 u rest h

pub read_int32-write_int32 :
    (s : ℤ) (rest : List ℕ) → IsI32 s → read_int32 (write_int32 s ++ rest) ≡ (ok s, rest)
unfolding read_int32 write_int32
read_int32-write_int32 s rest h =
    bind-ok (read_le 4) (λ u. pure (of_u32 u)) _ (read_le-put_le 4 (to_u32 s) rest (to_u32-lt s))
    ∙ ap (λ z. pure z rest) (of_u32-to_u32 s h)

abbrev pub IsText : List ℕ → Type 0
IsText s = length s < 2 ^ 32

text_of_length-append : (s rest : List ℕ) → text_of_length (length s) (s ++ rest) ≡ (ok s, rest)
unfolding text_of_length
text_of_length-append [] rest = refl
text_of_length-append (c ∷ s) rest = ground (arith, read_full-append (c ∷ s) rest)

pub read_long_text-write_long_text :
    (s rest : List ℕ) → IsText s → read_long_text (write_long_text s ++ rest) ≡ (ok s, rest)
unfolding read_long_text write_long_text
read_long_text-write_long_text s rest h = rw (append_assoc (put_le 4 (length s)) s rest) (
    bind-ok (read_le 4) text_of_length _ (read_le-put_le 4 (length s) (s ++ rest) h)
    ∙ text_of_length-append s rest)

-- Keys, values and their number fit 16 bits.
abbrev pub IsEntry : List ℕ × List ℕ → Type 0
IsEntry e = (length e.0 < 2 ^ 16) × (length e.1 < 2 ^ 16)

pub record IsAudit (m : Dict (List ℕ)) : Type 0 where
  pub map_ : IsMap m
  pub count : length m < 2 ^ 16
  pub entries : All IsEntry m

-- The two halves of a header of two numbers.
pub first_half : (k u v : ℕ) → u < 256 ^ k → le_of (take k (put_le k u ++ put_le k v)) ≡ u
first_half k u v h =
    ap le_of (rw (length-put_le k u) at (take-append (put_le k u) (put_le k v)))
    ∙ le_of-put_le k u h

pub second_half : (k u v : ℕ) → v < 256 ^ k → le_of (drop k (put_le k u ++ put_le k v)) ≡ v
second_half k u v h =
    ap le_of (rw (length-put_le k u) at (drop-append (put_le k u) (put_le k v)))
    ∙ le_of-put_le k v h

pub length-header : (k u v : ℕ) → length (put_le k u ++ put_le k v) ≡ k + k
length-header k u v =
    omega (arith, length-append (put_le k u) (put_le k v), length-put_le k u, length-put_le k v)

write_entry-append :
    (k v rest : List ℕ)
    → write_entry (k, v) ++ rest
      ≡ (put_le 2 (length k) ++ put_le 2 (length v)) ++ (k ++ (v ++ rest))
unfolding write_entry
write_entry-append k v rest =
    rw
      (
        append_assoc (put_le 2 (length k)) (put_le 2 (length v) ++ (k ++ v)) rest,
        append_assoc (put_le 2 (length v)) (k ++ v) rest,
        append_assoc k v rest,
        append_assoc (put_le 2 (length k)) (put_le 2 (length v)) (k ++ (v ++ rest)),
      )
      refl

entry_body :
    (n i j : ℕ) (k v : List ℕ) (m : Dict (List ℕ)) (rest : List ℕ)
    → i ≡ length k
    → j ≡ length v
    → (read_full i >>= λ k. read_full j >>= λ v. read_audit_entries n (insert k v m))
        (k ++ (v ++ rest))
      ≡ read_audit_entries n (insert k v m) rest
entry_body n i j k v m rest hi hj =
    bind-ok (read_full i) (λ k. read_full j >>= λ v. read_audit_entries n (insert k v m)) _
      (read_full-written i k (v ++ rest) (sym hi))
    ∙ bind-ok (read_full j) (λ v. read_audit_entries n (insert k v m)) _
        (read_full-written j v rest (sym hj))

one_entry :
    (n : ℕ) (k v : List ℕ) (m : Dict (List ℕ)) (rest : List ℕ)
    → IsEntry (k, v)
    → read_audit_entries (suc n) m (write_entry (k, v) ++ rest)
      ≡ read_audit_entries n (insert k v m) rest
unfolding read_audit_entries
one_entry n k v m rest h =
    ap (read_audit_entries (suc n) m) (write_entry-append k v rest)
    ∙ bind-ok (read_full 4)
        (λ b. read_full (le_of (take 2 b)) >>= λ k.
          read_full (le_of (drop 2 b)) >>= λ v. read_audit_entries n (insert k v m))
        _
        (read_full-written 4 (put_le 2 (length k) ++ put_le 2 (length v)) (k ++ (v ++ rest))
          (length-header 2 (length k) (length v)))
    ∙ entry_body n _ _ k v m rest (first_half 2 (length k) (length v) h.0)
        (second_half 2 (length k) (length v) h.1)

read_audit_entries-write_each :
    (m acc : Dict (List ℕ)) (rest : List ℕ)
    → IsMap (acc ++ m)
    → All IsEntry m
    → read_audit_entries (length m) acc (write_each write_entry m ++ rest) ≡ (ok (acc ++ m), rest)
unfolding write_each
read_audit_entries-write_each [] acc rest h hs = unfold read_audit_entries in rw (append-nil acc)
read_audit_entries-write_each ((k, v) ∷ m) acc rest h hs =
    let moved = append_assoc acc ((k, v) ∷ []) m in
    let more : List ℕ = write_each write_entry m ++ rest in
    rw (append_assoc (write_entry (k, v)) (write_each write_entry m) rest) (
      one_entry (length m) k v acc more hs.0
      ∙ ap (λ d. read_audit_entries (length m) d more)
          (insert_new k v acc (IsMap-middle acc k v m h))
      ∙ read_audit_entries-write_each m (acc ++ ((k, v) ∷ [])) rest (subst IsMap (sym moved) h) hs.1
      ∙ ap (λ t. pure t rest) moved)

pub read_audit-write_audit :
    (m : Dict (List ℕ)) (rest : List ℕ)
    → IsAudit m
    → read_audit (write_audit m ++ rest) ≡ (ok m, rest)
unfolding read_audit write_audit
read_audit-write_audit m rest h =
    rw (append_assoc (put_le 2 (length m)) (write_each write_entry m) rest) (
      bind-ok (read_le 2) (λ n. read_audit_entries n []) _
        (read_le-put_le 2 (length m) (write_each write_entry m ++ rest) h.count)
      ∙ read_audit_entries-write_each m [] rest h.map_ h.entries)
