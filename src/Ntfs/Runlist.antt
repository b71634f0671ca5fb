-- ===== src/Ntfs/Runlist.antt =====
-- Mapping pairs: how an NTFS attribute record stores the extents of a stream
-- (`_signed_min_bytes`, `_unsigned_min_bytes`, `_decode_runlist`, `_encode_runlist`).
pub mod Fields
pub mod RoundTrip
use Prim.Native.Nat.{bit_and, bit_or}
use linux_defragger.Prelude.{
  ℕ, zero, suc, ◌+◌, ◌*◌, ◌/◌, max, Bool, true, false, ◌||◌, Option, some, none, List, [], ◌∷◌,
  ◌++◌, ltb, ◌==◌, if◌then◌else◌, length, take, drop, Result, ok, err, ◌>>=◌, ◌>>◌, raise_if,
}
use linux_defragger.Prelude.Int.{ℤ, pos, negsuc, ◌+ℤ◌, ◌-ℤ◌, leb_ℤ, pos_part}
use linux_defragger.Bytes.{to_bytes, from_bytes, to_signed, from_signed, bit_length, last_byte}

-- `Run(lcn, length)`: a sparse run has no logical cluster number. Cluster numbers and lengths are
-- never negative where a run is built.
pub record Run : Type 0 where
  pub lcn : Option ℕ
  pub length : ℕ

pub data RunlistError : Type 0 where
  delta_exceeds length_not_positive length_exceeds : RunlistError
  invalid_array non_positive_length negative_lcn unterminated : RunlistError

-- `int.__eq__`
abbrev pub eq_ℤ : ℤ → ℤ → Bool
eq_ℤ (pos a) (pos b) = a == b
eq_ℤ (negsuc a) (negsuc b) = a == b
eq_ℤ (pos a) (negsuc b) = false
eq_ℤ (negsuc a) (pos b) = false

-- The loop of `_signed_min_bytes` at `size`, with `left` sizes to try.
unfoldable pub signed_from : ℕ → ℕ → ℤ → Result RunlistError (List ℕ)
unfolding to_signed from_signed
signed_from zero size value = err delta_exceeds
signed_from (suc left) size value = elim (to_signed size value) [
  | none ↦ signed_from left (suc size) value
  | some encoded ↦ elim (eq_ℤ (from_signed encoded) value) [
    | true ↦ ok encoded
    | false ↦ signed_from left (suc size) value
  ]
]

unfoldable pub signed_min_bytes : ℤ → Result RunlistError (List ℕ)
unfolding signed_from
signed_min_bytes value = signed_from 8 1 value

unfoldable pub unsigned_min_bytes : ℕ → Result RunlistError (List ℕ)
unfolding bit_length to_bytes last_byte
unsigned_min_bytes value = do
  raise_if (value == 0) length_not_positive
  let size = max 1 ((bit_length value + 7) / 8)
  let shortest = to_bytes size value
  let encoded = if bit_and (last_byte shortest) 0x80 == 0 then shortest else shortest ++ 0 ∷ []
  raise_if (ltb 8 (length encoded)) length_exceeds
  ok encoded

-- The bytes of a run's cluster number, and the new `previous_lcn`.
unfoldable pub encode_lcn : ℕ → Option ℕ → Result RunlistError (List ℕ × ℕ)
encode_lcn previous none = ok ([], previous)
encode_lcn previous (some lcn) = do
  bytes ← signed_min_bytes (pos lcn -ℤ pos previous)
  ok (bytes, lcn)

-- One run of the loop of `_encode_runlist`, and the runs after it.
unfoldable pub encode_from : ℕ → List Run → Result RunlistError (List ℕ)
encode_from previous [] = ok (0 ∷ [])
encode_from previous (run ∷ runs) = do
  length_bytes ← unsigned_min_bytes run.length
  (offset_bytes, next) ← encode_lcn previous run.lcn
  rest ← encode_from next runs
  ok (
      bit_or (length offset_bytes * 16) (length length_bytes)
      ∷ (length_bytes ++ (offset_bytes ++ rest)))

unfoldable pub encode_runlist : List Run → Result RunlistError (List ℕ)
unfolding encode_from
encode_runlist runs = encode_from 0 runs

-- `previous_lcn += delta`, and the test that follows.
unfoldable pub apply_delta : ℕ → ℤ → Result RunlistError ℕ
unfolding ◌+ℤ◌
apply_delta previous delta = elim (pos previous +ℤ delta) [
  | pos lcn ↦ ok lcn
  | negsuc _ ↦ err negative_lcn
]

-- The cluster number of a run, and the new `previous_lcn`.
unfoldable pub decode_lcn : ℕ → ℕ → List ℕ → Result RunlistError (Option ℕ × ℕ)
decode_lcn zero previous field = ok (none, previous)
decode_lcn (suc size) previous field = do
  lcn ← apply_delta previous (from_signed field)
  ok (some lcn, lcn)

-- The loop of `_decode_runlist` on `data[pos:]`. Each round reads a byte at least, so the length of
-- the data is enough fuel.
unfoldable pub decode_from : ℕ → ℕ → List ℕ → Result RunlistError (List Run)
decode_from fuel previous [] = err unterminated
decode_from zero previous (header ∷ body) = err unterminated
decode_from (suc fuel) previous (header ∷ body) =
    let length_size = bit_and header 0x0F in
    let offset_size = header / 16 in
    let run_length = from_signed (take length_size body) in
    let field = take offset_size (drop length_size body) in
    let after = drop offset_size (drop length_size body) in
    let later = λ (previous : ℕ). decode_from fuel previous after in
    let run : Result RunlistError (List Run) = do
      raise_if
          (length_size == 0
            || ltb 8 length_size
            || ltb 8 offset_size
            || ltb (length body) (length_size + offset_size))
          invalid_array
      raise_if (leb_ℤ run_length (pos 0)) non_positive_length
      (lcn, next) ← decode_lcn offset_size previous field
      runs ← later next
      ok (record { lcn = lcn; length = pos_part run_length } ∷ runs)
    in if header == 0 then ok [] else run

unfoldable pub decode_runlist : List ℕ → Result RunlistError (List Run)
unfolding decode_from
decode_runlist bytes = decode_from (length bytes) 0 bytes
