-- ===== src/Coder/Entries.antt =====
-- The loops over the entries of a map that `writeAuditFields`, `readAuditFields`,
-- `writeMapStringInt64`, `readMapStringInt64`, `writeOriginMetrics` and `readOriginMetrics` of
-- internal/beam/core share: the count, and for each entry its key and its value.
use omnibeam_go.Common.{
  ℕ, zero, suc, ◌≤◌, ◌<◌, ◌^◌, ◌≡◌, sym, ap, subst, ◌∙◌, List, [], ◌∷◌, ◌++◌, length, All, arith,
  append-nil, append_assoc,
}
use omnibeam_go.Common.Int.{ℤ, pos, pos_part}
use omnibeam_go.Common.Dict.{Dict, insert, IsMap, IsMap-middle, insert_new}
use omnibeam_go.Wire.Reader.{Reader, ok, ◌>>=◌, pure, bind-ok}
use omnibeam_go.Wire.Varint.{write_varint, read_varint}
use omnibeam_go.Wire.Varint.RoundTrip.{read_varint-write_varint}
use omnibeam_go.Wire.Bytes.{
  write_string, read_string, default_chunk_size_bytes, read_bytes-write_bytes,
}

module _ {V : Type 0} (write_value : V → List ℕ) where
  -- The body of the loop, in the order in which the map is visited.
  unfoldable pub write_entries : Dict V → List ℕ
  write_entries [] = []
  write_entries ((k, v) ∷ m) = write_string k ++ (write_value v ++ write_entries m)

  unfoldable pub write_map : Dict V → List ℕ
  write_map m = write_varint (pos (length m)) ++ write_entries m

module _ {V : Type 0} (read_value : Reader V) where
  -- `n` rounds that each read a key and a value and store them in the map `acc`.
  unfoldable pub read_entries : ℕ → Dict V → Reader (Dict V)
  read_entries zero acc = pure acc
  read_entries (suc n) acc = do k ← read_string; v ← read_value; read_entries n (insert k v acc)

  -- The rounds behind a count; a negative count gives none.
  unfoldable pub read_map_of : ℤ → Reader (Dict V)
  read_map_of n = read_entries (pos_part n) []

  unfoldable pub read_map : Reader (Dict V)
  read_map = do n ← read_varint; read_map_of n

-- The keys are within the reader's limit, and the values meet `P`.
abbrev pub IsWritable : {V : Type 0} → (V → Type 0) → Dict V → Type 0
IsWritable P m = All (λ e. (length e.0 ≤ default_chunk_size_bytes) × P e.1) m

module _ {V : Type 0} (write_value : V → List ℕ) (read_value : Reader V) (P : V → Type 0)
    (value_back : (v : V) (rest : List ℕ)
      → P v
      → read_value (write_value v ++ rest) ≡ (ok v, rest)) where
  one_entry :
      (n : ℕ) (k : List ℕ) (v : V) (acc : Dict V) (rest : List ℕ)
      → length k ≤ default_chunk_size_bytes
      → P v
      → read_entries read_value (suc n) acc (write_string k ++ (write_value v ++ rest))
        ≡ read_entries read_value n (insert k v acc) rest
  unfolding read_entries
  one_entry n k v acc rest hk hv =
      bind-ok read_string (λ k. read_value >>= λ v. read_entries read_value n (insert k v acc)) _
        (read_bytes-write_bytes k (write_value v ++ rest) hk)
      ∙ bind-ok read_value (λ v. read_entries read_value n (insert k v acc)) _
          (value_back v rest hv)

  read_entries-write_entries :
      (m acc : Dict V) (rest : List ℕ)
      → IsMap (acc ++ m)
      → IsWritable P m
      → read_entries read_value (length m) acc (write_entries write_value m ++ rest)
        ≡ (ok (acc ++ m), rest)
  unfolding write_entries
  read_entries-write_entries [] acc rest h w = unfold read_entries in rw (append-nil acc)
  read_entries-write_entries ((k, v) ∷ m) acc rest h w =
      let more = write_entries write_value m in
      let moved = append_assoc acc ((k, v) ∷ []) m in
      let acc' : Dict V = acc ++ ((k, v) ∷ []) in
      let src : List ℕ = more ++ rest in
      rw
        (
          append_assoc (write_string k) (write_value v ++ more) rest,
          append_assoc (write_value v) more rest,
        )
        (one_entry (length m) k v acc src w.0.0 w.0.1
          ∙ ap (λ d. read_entries read_value (length m) d src)
              (insert_new k v acc (IsMap-middle acc k v m h))
          ∙ read_entries-write_entries m acc' rest (subst IsMap (sym moved) h) w.1
          ∙ ap (λ t. pure t rest) moved)

  pub read_map_of-write_entries :
      (m : Dict V) (rest : List ℕ)
      → IsMap m
      → IsWritable P m
      → read_map_of read_value (pos (length m)) (write_entries write_value m ++ rest) ≡ (ok m, rest)
  unfolding read_map_of
  read_map_of-write_entries m rest h w = read_entries-write_entries m [] rest h w

  -- A map that is written is read back in the order in which it was written.
  pub read_map-write_map :
      (m : Dict V) (rest : List ℕ)
      → IsMap m
      → IsWritable P m
      → length m < 2 ^ 63
      → read_map read_value (write_map write_value m ++ rest) ≡ (ok m, rest)
  unfolding read_map write_map
  read_map-write_map m rest h w fits =
      rw (append_assoc (write_varint (pos (length m))) (write_entries write_value m) rest) (
        bind-ok read_varint (read_map_of read_value) _ (
          read_varint-write_varint (pos (length m)) (write_entries write_value m ++ rest)
            (omega arith))
        ∙ read_map_of-write_entries m rest h w)
