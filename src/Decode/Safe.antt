-- ===== src/Decode/Safe.antt =====
-- The decoder stays inside of its buffer, on every input: no read outside of it, and every loop
-- ends.
use native.Mathlib.Decide.{dec_lt}
use get_together.Common.{
  ℕ, zero, suc, ◌+◌, ◌-◌, ◌*◌, ◌≤◌, ◌<◌, ◌≡◌, true, false, List, [], take, drop, bit_and, leb, ◌==◌,
  arith, Bool-cases, inl, inr,
}
use get_together.Pb.{varint_overflow, invalid_wire_type, end_of_stream}
use get_together.Pb.Field.{WireType, wt_varint, wt_64bit, wt_string, wt_32bit, wt_other}
use get_together.IStream.{
  IStream, Read, ok, fail, stuck, return_error, pb_read, pb_readbyte, head_or,
}
use get_together.IStream.Reads.{after}
use get_together.IStream.Safe.{
  IsSafe, Kept, Safe, Kept-if, Kept-le, Safe-bind, Safe-ok, Safe-error, Safe-if, read_bytes-enough,
  read_bytes-short, after-IsSafe, pb_read-read_bytes, Safe-pb_read, Safe-pb_readbyte,
}
use get_together.Decode.{
  varint_loop, pb_decode_varint32, pb_decode_varint, skip_varint_loop, pb_skip_varint,
  pb_skip_string, tag_read, pb_decode_tag, pb_skip_field, pb_decode_svarint, pb_decode_fixed32,
  pb_decode_fixed64,
}

-- The fuel is enough for the rounds that the guard on `bitpos` lets pass.
pub Safe-varint_loop :
    (width fuel bitpos r : ℕ)
    → bitpos < width + 7
    → width + 7 ≤ bitpos + 7 * fuel
    → Safe (λ s. varint_loop width fuel bitpos r s)
unfolding varint_loop
Safe-varint_loop width zero bitpos r lt enough = absurd (omega arith)
Safe-varint_loop width (suc fuel) bitpos r lt enough = elim (Bool-cases (leb width bitpos)) [
  | inl e ↦ rw e (Safe-error _ varint_overflow)
  | inr e ↦ rw e (
      Safe-bind pb_readbyte _ Safe-pb_readbyte λ byte.
        Safe-if (λ _. bit_and byte 0x80 == 0) (ok _) (λ s. varint_loop width fuel (bitpos + 7) _ s)
          (Safe-ok _) (Safe-varint_loop width fuel (bitpos + 7) _ (inside e) (omega arith)))
]
  where
    inside : leb width bitpos ≡ false → bitpos + 7 < width + 7
    inside e = ground arith

-- On each stream over a buffer of bytes that holds bytes_left bytes and `k` more, whatever they
-- are, pb_decode_varint ends, reads no byte outside of the buffer, and leaves a stream whose
-- buffer holds its bytes_left bytes, which are not more than before, and the `k` more.
pub Safe-pb_decode_varint : Safe pb_decode_varint
unfolding pb_decode_varint
Safe-pb_decode_varint = Safe-varint_loop 64 11 0 0 (omega arith) (omega arith)

-- On each stream over a buffer of bytes that holds bytes_left bytes and `k` more, whatever they
-- are, pb_decode_varint32 ends, reads no byte outside of the buffer, and leaves a stream whose
-- buffer holds its bytes_left bytes, which are not more than before, and the `k` more.
pub Safe-pb_decode_varint32 : Safe pb_decode_varint32
unfolding pb_decode_varint32
Safe-pb_decode_varint32 = Safe-bind pb_readbyte _ Safe-pb_readbyte λ byte.
    Safe-if (λ _. bit_and byte 0x80 == 0) (ok _) (λ s. varint_loop 32 5 7 _ s) (Safe-ok _)
      (Safe-varint_loop 32 5 7 _ (omega arith) (omega arith))

-- A round of the skipping takes a byte, so that the fuel bounds the rounds.
Safe-skip_varint_loop :
    (fuel k : ℕ) (s : IStream)
    → IsSafe k s
    → s.bytes_left < fuel
    → Kept k s.bytes_left (skip_varint_loop fuel s)
unfolding skip_varint_loop return_error
Safe-skip_varint_loop zero k s h lt = absurd (omega arith)
Safe-skip_varint_loop (suc fuel) k s h lt = elim (dec_lt s.bytes_left 1) [
  | yes none_left ↦
      rw (pb_read-read_bytes k s true 1 h, read_bytes-short s 1 none_left)
        (Safe-error (List ℕ) end_of_stream k s h)
  | no more ↦
      rw (pb_read-read_bytes k s true 1 h, read_bytes-enough k s 1 h (omega arith))
        (Kept-le k (s.bytes_left - 1) s.bytes_left _ (omega arith) (
          Kept-if k (s.bytes_left - 1) (bit_and (head_or (take 1 s.state)) 0x80 == 0)
            (ok [] (after s 1 (drop 1 s.state)))
            (skip_varint_loop fuel (after s 1 (drop 1 s.state)))
            (Safe-ok [] k (after s 1 (drop 1 s.state)) (after-IsSafe k s 1 (omega arith) h))
            (Safe-skip_varint_loop fuel k (after s 1 (drop 1 s.state))
              (after-IsSafe k s 1 (omega arith) h) (omega arith))))
]

pub Safe-pb_skip_varint : Safe pb_skip_varint
unfolding pb_skip_varint
Safe-pb_skip_varint k s h = Safe-skip_varint_loop (suc s.bytes_left) k s h (omega arith)

pub Safe-pb_skip_string : Safe pb_skip_string
unfolding pb_skip_string
Safe-pb_skip_string =
    Safe-bind pb_decode_varint32 _ Safe-pb_decode_varint32 λ length. Safe-pb_read false length

-- For each wire type and each stream over a buffer of bytes that holds bytes_left bytes and `k`
-- more, whatever they are, pb_skip_field ends, reads no byte outside of the buffer, and leaves
-- a stream whose buffer holds its bytes_left bytes, which are not more than before, and the `k`
-- more.
pub Safe-pb_skip_field : (w : WireType) → Safe (λ s. pb_skip_field s w)
unfolding pb_skip_field
Safe-pb_skip_field wt_varint = Safe-pb_skip_varint
Safe-pb_skip_field wt_64bit = Safe-pb_read false 8
Safe-pb_skip_field wt_string = Safe-pb_skip_string
Safe-pb_skip_field wt_32bit = Safe-pb_read false 4
Safe-pb_skip_field (wt_other n) = Safe-error _ invalid_wire_type

Kept-tag_read : (k n : ℕ) (r : Read ℕ) → Kept k n r → Kept k n (tag_read r)
unfolding Kept tag_read
Kept-tag_read k n stuck h = h
Kept-tag_read k n (fail s) h = h
Kept-tag_read k n (ok temp s) h = elim (Bool-cases (temp == 0)) [ inl e ↦ rw e h | inr e ↦ rw e h ]

-- On each stream over a buffer of bytes that holds bytes_left bytes and `k` more, whatever they
-- are, pb_decode_tag ends, reads no byte outside of the buffer, and leaves a stream whose
-- buffer holds its bytes_left bytes, which are not more than before, and the `k` more.
pub Safe-pb_decode_tag : Safe pb_decode_tag
unfolding pb_decode_tag
Safe-pb_decode_tag k s h = Kept-tag_read k s.bytes_left _ (Safe-pb_decode_varint32 k s h)

pub Safe-pb_decode_svarint : Safe pb_decode_svarint
unfolding pb_decode_svarint
Safe-pb_decode_svarint = Safe-bind pb_decode_varint _ Safe-pb_decode_varint λ value. Safe-ok _

pub Safe-pb_decode_fixed32 : Safe pb_decode_fixed32
unfolding pb_decode_fixed32
Safe-pb_decode_fixed32 =
    Safe-bind (λ s. pb_read s true 4) _ (Safe-pb_read true 4) λ bytes. Safe-ok _

pub Safe-pb_decode_fixed64 : Safe pb_decode_fixed64
unfolding pb_decode_fixed64
Safe-pb_decode_fixed64 =
    Safe-bind (λ s. pb_read s true 8) _ (Safe-pb_read true 8) λ bytes. Safe-ok _
