-- ===== src/Coder/DeadLetter.antt =====
-- `EncodeDeadLetterRecord` and `DecodeDeadLetterRecord` of internal/beam/core/coders.go.
use omnibeam_go.Common.{
  ℕ, ◌≤◌, ◌≡◌, ◌∙◌, ap, Option, none, some, List, ◌++◌, length, if◌then◌else◌, append_assoc,
}
use omnibeam_go.Common.Int.{ℤ, negsuc}
use omnibeam_go.Common.Word.{IsI64}
use omnibeam_go.Common.Instant.{
  IsInstant, nanos_of, unix_nano, of_unix_nano, unix_nano-IsI64, of_unix_nano-unix_nano,
}
use omnibeam_go.Wire.Reader.{
  Reader, Error, ok, is_nil_token, ◌>>=◌, pure, throw, catch, bind-ok, bind-err, catch-ok,
  catch-err,
}
use omnibeam_go.Wire.Varint.{write_varint, read_varint}
use omnibeam_go.Wire.Varint.RoundTrip.{read_varint-write_varint}
use omnibeam_go.Wire.Bytes.{
  write_string, read_string, default_chunk_size_bytes, read_bytes-write_bytes, read_bytes_nil,
}
use omnibeam_go.Record.{DeadLetterRecord}

unfoldable pub encode_dead_letter_record : Option DeadLetterRecord → List ℕ
encode_dead_letter_record none = write_varint (negsuc 0)
encode_dead_letter_record (some dlq) =
    write_string dlq.raw_payload
    ++ (write_string dlq.error_message
        ++ (write_string dlq.failed_column
            ++ (write_string dlq.source_file ++ write_varint (unix_nano dlq.failed_at))))

abbrev finish : List ℕ → List ℕ → List ℕ → List ℕ → ℤ → Reader (Option DeadLetterRecord)
finish raw msg col file at = pure (
    some (record {
      raw_payload = raw;
      error_message = msg;
      failed_column = col;
      source_file = file;
      failed_at = of_unix_nano at;
    }))

abbrev read_file : List ℕ → List ℕ → List ℕ → Reader (Option DeadLetterRecord)
read_file raw msg col = do file ← read_string; at ← read_varint; finish raw msg col file at

abbrev read_column : List ℕ → List ℕ → Reader (Option DeadLetterRecord)
read_column raw msg = do col ← read_string; read_file raw msg col

abbrev read_message : List ℕ → Reader (Option DeadLetterRecord)
read_message raw = do msg ← read_string; read_column raw msg

-- Behind the first string; `none` where its token stands for nil.
unfoldable pub decode_rest : Option (List ℕ) → Reader (Option DeadLetterRecord)
decode_rest none = pure none
decode_rest (some raw) = read_message raw

abbrev nil_or_fail : Error → Reader (Option (List ℕ))
nil_or_fail e = if is_nil_token e then pure none else throw e

unfoldable pub decode_dead_letter_record : Reader (Option DeadLetterRecord)
decode_dead_letter_record = catch (read_string >>= λ s. pure (some s)) nil_or_fail >>= decode_rest

-- The instant goes through an int64 of nanoseconds.
unfoldable pub restored_dead_letter : DeadLetterRecord → DeadLetterRecord
restored_dead_letter dlq = record dlq { failed_at = of_unix_nano (unix_nano dlq.failed_at) }

pub record IsEncodableDeadLetter (dlq : DeadLetterRecord) : Type 0 where
  pub raw : length dlq.raw_payload ≤ default_chunk_size_bytes
  pub message : length dlq.error_message ≤ default_chunk_size_bytes
  pub column : length dlq.failed_column ≤ default_chunk_size_bytes
  pub file : length dlq.source_file ≤ default_chunk_size_bytes

-- A dead letter whose texts are within the reader's limit is read back but for its instant.
pub decode-encode_dead_letter_restored :
    (dlq : DeadLetterRecord) (rest : List ℕ)
    → IsEncodableDeadLetter dlq
    → decode_dead_letter_record (encode_dead_letter_record (some dlq) ++ rest)
      ≡ (ok (some (restored_dead_letter dlq)), rest)
unfolding decode_dead_letter_record encode_dead_letter_record decode_rest restored_dead_letter
decode-encode_dead_letter_restored dlq rest h =
    let at : List ℕ = write_varint (unix_nano dlq.failed_at) ++ rest in
    let file : List ℕ = write_string dlq.source_file ++ at in
    let col : List ℕ = write_string dlq.failed_column ++ file in
    let msg : List ℕ = write_string dlq.error_message ++ col in
    simp append_assoc (
      bind-ok (catch (read_string >>= λ s. pure (some s)) nil_or_fail) decode_rest _ (
        catch-ok (read_string >>= λ s. pure (some s)) nil_or_fail _ (
          bind-ok read_string (λ s. pure (some s)) _
            (read_bytes-write_bytes dlq.raw_payload msg h.raw)))
      ∙ bind-ok read_string (read_column dlq.raw_payload) msg
          (read_bytes-write_bytes dlq.error_message col h.message)
      ∙ bind-ok read_string (read_file dlq.raw_payload dlq.error_message) col
          (read_bytes-write_bytes dlq.failed_column file h.column)
      ∙ bind-ok read_string
          (λ f. read_varint >>= finish dlq.raw_payload dlq.error_message dlq.failed_column f) file
          (read_bytes-write_bytes dlq.source_file at h.file)
      ∙ bind-ok read_varint
          (finish dlq.raw_payload dlq.error_message dlq.failed_column dlq.source_file) at
          (read_varint-write_varint (unix_nano dlq.failed_at) rest (unix_nano-IsI64 dlq.failed_at)))

-- A dead letter whose texts are within the reader's limit, and whose instant is an int64 of nanoseconds from
-- the Unix epoch, is read back whole, and what follows it is left.
pub decode-encode_dead_letter :
    (dlq : DeadLetterRecord) (rest : List ℕ)
    → IsEncodableDeadLetter dlq
    → IsInstant dlq.failed_at
    → IsI64 (nanos_of dlq.failed_at.seconds dlq.failed_at.nanos)
    → decode_dead_letter_record (encode_dead_letter_record (some dlq) ++ rest)
      ≡ (ok (some dlq), rest)
unfolding restored_dead_letter
decode-encode_dead_letter dlq rest h valid fits =
    decode-encode_dead_letter_restored dlq rest h
    ∙ ap (λ t. (ok (some (record dlq { failed_at = t })), rest))
        (of_unix_nano-unix_nano dlq.failed_at valid fits)

pub decode-encode_dead_letter_nil :
    (rest : List ℕ)
    → decode_dead_letter_record (encode_dead_letter_record none ++ rest) ≡ (ok none, rest)
unfolding decode_dead_letter_record encode_dead_letter_record decode_rest is_nil_token
decode-encode_dead_letter_nil rest =
    bind-ok (catch (read_string >>= λ s. pure (some s)) nil_or_fail) decode_rest _ (
      catch-err (read_string >>= λ s. pure (some s)) nil_or_fail _
        (bind-err read_string (λ s. pure (some s)) _ (read_bytes_nil rest)))
