-- ===== src/Decode/Errors.antt =====
-- Pods/nanopb/pb_decode.c: numbers of more than ten bytes, and messages without a field.
use native.Mathlib.Nat.{pow-le-pow_right, pow-suc, div-add-mod, mod-lt, zero-lt-suc}
use get_together.Common.{
  ℕ, zero, suc, ◌+◌, ◌-◌, ◌*◌, ◌/◌, ◌^◌, ◌≤◌, ◌<◌, ◌≡◌, ◌≢◌, refl, ap, ◌∙◌, true, false, some, List,
  [], ◌∷◌, length, All, take, drop, bit_and, leb, gt→leb, le→leb, ◌==◌, if◌then◌else◌, Bool-cases,
  inl, inr, arith,
}
use get_together.Common.Bits.{bit_and-high}
use get_together.Pb.{varint_overflow, missing_required_field}
use get_together.Pb.Field.{Field}
use get_together.Memory.{Memory}
use get_together.Iter.Nth.{IsDescriptors, begin-nth}
use get_together.Iter.Required.{required_total}
use get_together.IStream.{IStream, return_error, head_or}
use get_together.IStream.Reads.{after}
use get_together.IStream.Safe.{IsSafe, after-IsSafe, pb_readbyte-enough}
use get_together.Decode.{varint_loop, pb_decode_varint}
use get_together.Decode.Fields.{decoded, dec_error}
use get_together.Decode.Env.{DecodeEnv}
use get_together.Decode.Message.{
  all_seen, required_count, check_required, allbits, no_fields_seen, decode_rounds, decode_fields,
  decode_message, pb_decode_noinit,
}
use get_together.Decode.Required.{required_count-nth}

-- The first `n` bytes have their top bit set.
abbrev pub Continue : ℕ → List ℕ → Type 0
Continue zero bs = Unit {0}
Continue (suc n) bs = (128 ≤ head_or (take 1 bs)) × Continue n (drop 1 bs)

top_bit : (b : ℕ) → 128 ≤ b → b < 256 → (bit_and b 0x80 == 0) ≡ false
top_bit b le lt =
    ground (arith, bit_and-high 7 (b - 128) (omega arith), ap (λ (t : ℕ). bit_and t 128) whole)
  where
    whole : b - 128 + 2 ^ 7 ≡ b
    whole = omega arith

head-lt : (bs : List ℕ) → All (λ b. b < 256) bs → head_or (take 1 bs) < 256
head-lt [] h = omega arith
head-lt (b ∷ bs) h = h.0

drop-drop : (n : ℕ) (bs : List ℕ) → drop n (drop 1 bs) ≡ drop (suc n) bs
drop-drop zero [] = refl
drop-drop (suc n) [] = refl
drop-drop n (b ∷ bs) = refl

after-after :
    (s : IStream) (n : ℕ)
    → after (after s 1 (drop 1 s.state)) n (drop n (drop 1 s.state))
      ≡ after s (suc n) (drop (suc n) s.state)
after-after s n =
    ap (λ (t : List ℕ × ℕ). record s { state = t.0; bytes_left = t.1 })
      λ i. (drop-drop n s.state i, fewer s.bytes_left i)
  where
    fewer : (m : ℕ) → m - 1 - n ≡ m - suc n
    fewer m = omega arith

varint_loop-overflow :
    (n bitpos r k : ℕ) (s : IStream)
    → bitpos + 7 * n ≡ 70
    → IsSafe k s
    → n ≤ s.bytes_left
    → Continue n s.state
    → varint_loop 64 (suc n) bitpos r s ≡ return_error (after s n (drop n s.state)) varint_overflow
unfolding varint_loop
varint_loop-overflow zero bitpos r k s last h le high = rw (le→leb 64 bitpos (omega arith)) (
    ap (λ s. return_error s varint_overflow)
      (ap (λ (n : ℕ). record s { bytes_left = n }) (unchanged s.bytes_left)))
  where
    unchanged : (m : ℕ) → m ≡ m - 0
    unchanged m = omega arith
varint_loop-overflow (suc n) bitpos r k s last h le (high, more) =
    rw
      (
        gt→leb 64 bitpos (omega arith),
        pb_readbyte-enough k s h (omega arith),
        top_bit (head_or (take 1 s.state)) high (head-lt s.state h.are_bytes),
      )
      (varint_loop-overflow n (bitpos + 7) _ k (after s 1 (drop 1 s.state)) (omega arith)
          (after-IsSafe k s 1 (omega arith) h) (omega arith) more
        ∙ ap (λ s. return_error s varint_overflow) (after-after s n))

-- On a stream over a buffer of bytes that holds bytes_left bytes and `k` more, of which the
-- first ten are within bytes_left and have the top bit set, pb_decode_varint takes ten bytes
-- and fails with the error "varint overflow".
pub pb_decode_varint-overflow :
    (k : ℕ) (s : IStream)
    → IsSafe k s
    → 10 ≤ s.bytes_left
    → Continue 10 s.state
    → pb_decode_varint s ≡ return_error (after s 10 (drop 10 s.state)) varint_overflow
unfolding pb_decode_varint
pb_decode_varint-overflow k s h le high = varint_loop-overflow 10 0 0 k s (omega arith) h le high

-- A mask of the lowest bits has a bit.
some_bit : (p : ℕ) → 0 < p → p ≤ 2 ^ 31 → (0 == allbits / p) ≡ false
some_bit zero h le = absurd (omega arith)
some_bit (suc p) h le = ground (arith, not_zero)
  where
    not_zero : allbits / suc p ≢ 0
    not_zero e = omega (
      arith,
      ap (λ (t : ℕ). t * suc p) e,
      div-add-mod allbits (suc p),
      mod-lt allbits (zero-lt-suc p),
    )

no_bits_seen :
    (count : ℕ)
    → (count == 0) ≡ false
    → count < 64
    → count ≢ 32
    → all_seen no_fields_seen count ≡ some false
unfolding all_seen
no_bits_seen count more few odd = elim (Bool-cases (leb 32 count)) [
  | inl e ↦ rw e refl
  | inr e ↦
      rw (e, more)
        (ap some (
          some_bit (2 ^ (32 - count)) (power (32 - count))
            (pow-le-pow_right (omega arith) {j = 31} (ground arith))))
]
  where
    power : (m : ℕ) → 0 < 2 ^ m
    power zero = omega arith
    power (suc m) = omega (arith, pow-suc 2 m, power m)

-- For an array of fields of tags other than 0, not empty, with less than 64 required fields and
-- not 32, and a stream with no bytes left, pb_decode_noinit changes no memory and reads
-- nothing: it returns true when no field is required, and otherwise false with the error
-- "missing required field".
pub pb_decode_noinit-empty :
    (e : DecodeEnv) (depth : ℕ) (s : IStream) (fields : List Field) (dest : ℕ) (mem : Memory)
    → IsDescriptors fields
    → 0 < length fields
    → required_total fields < 64
    → required_total fields ≢ 32
    → (s.bytes_left == 0) ≡ true
    → pb_decode_noinit e (suc depth) s fields dest mem ≡ (
        if required_total fields == 0
        then decoded true mem s
        else dec_error mem s missing_required_field)
unfolding pb_decode_noinit decode_message decode_fields decode_rounds check_required
pb_decode_noinit-empty e depth s fields dest mem tags nonempty few odd empty =
    let count =
      ap required_count (begin-nth fields dest)
      ∙ required_count-nth fields dest tags 0 (omega arith) nonempty in
    elim (Bool-cases (required_total fields == 0)) [
      | inl e ↦ rw (empty, count, e) refl
      | inr e ↦ rw (empty, count, e, no_bits_seen (required_total fields) e few odd) refl
    ]
