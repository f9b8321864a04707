-- ===== src/Decode/Bounds.antt =====
-- Pods/nanopb/pb_decode.c: how large the numbers are that are read from a buffer of bytes.
use mathlib.Core.Path.{subst}
use get_together.Common.{
  ℕ, zero, suc, ◌+◌, ◌*◌, ◌%◌, ◌^◌, ◌<◌, ◌≡◌, refl, Bool, true, false, bit_and, bit_or, leb, ◌==◌,
  if◌then◌else◌, Bool-cases, inl, inr, arith,
}
use get_together.Common.Bits.{bit_and-ones, bit_or-bound}
use get_together.Pb.{u32_mod}
use get_together.IStream.{IStream, Read, ok, fail, stuck, ◌>>=◌, return_error, pb_readbyte}
use get_together.IStream.Safe.{IsSafe, readbyte_cases}
use get_together.Decode.{varint_loop, pb_decode_varint32, Tag, tag_parts, tag_read, pb_decode_tag}

-- What a successful read gives is less than `n`.
abbrev Below : ℕ → Read ℕ → Type 0
Below n (ok a s) = a < n
Below n (fail s) = Unit {0}
Below n stuck = Unit {0}

Below-if : (n : ℕ) (b : Bool) (x y : Read ℕ) → Below n x → Below n y → Below n (if b then x else y)
Below-if n true x y h g = h
Below-if n false x y h g = g

Below-readbyte :
    (k n : ℕ) (s : IStream) (f : ℕ → IStream → Read ℕ)
    → IsSafe k s
    → ((b : ℕ) (s : IStream) → b < 256 → IsSafe k s → Below n (f b s))
    → Below n (pb_readbyte s >>= f)
unfolding return_error
Below-readbyte k n s f h g = elim (readbyte_cases k s h) [
  | inl e ↦ rw e tt
  | inr (b, s', e, small, safe) ↦ rw e (g b s' small safe)
]

low_seven : (b : ℕ) → bit_and b 0x7F < 128
low_seven b = omega (arith, bit_and-ones 7 127 b refl)

Below-varint_loop :
    (fuel bitpos result k : ℕ) (s : IStream)
    → result < u32_mod
    → IsSafe k s
    → Below u32_mod (varint_loop 32 fuel bitpos result s)
unfolding varint_loop
Below-varint_loop zero bitpos result k s lt h = tt
Below-varint_loop (suc fuel) bitpos result k s lt h = elim (Bool-cases (leb 32 bitpos)) [
  | inl e ↦ rw e (unfold return_error in tt)
  | inr e ↦ rw e (
      Below-readbyte k u32_mod s _ h λ b s' small safe.
        Below-if u32_mod (bit_and b 0x80 == 0) (ok (value b) s') _ (next b)
          (Below-varint_loop fuel (bitpos + 7) _ k s' (next b) safe))
]
  where
    value : ℕ → ℕ
    value b = bit_or result (bit_and b 0x7F * 2 ^ bitpos % 2 ^ 32)

    next : (b : ℕ) → value b < u32_mod
    next b = bit_or-bound 32 result (bit_and b 0x7F * 2 ^ bitpos % 2 ^ 32) lt (omega arith)

pub Below-pb_decode_varint32 :
    (k : ℕ) (s : IStream) → IsSafe k s → Below u32_mod (pb_decode_varint32 s)
unfolding pb_decode_varint32
Below-pb_decode_varint32 k s h = Below-readbyte k u32_mod s _ h λ b s' small safe.
    Below-if u32_mod (bit_and b 0x80 == 0) (ok b s') _ (omega arith)
      (Below-varint_loop 5 7 _ k s' (omega (arith, low_seven b)) safe)

-- A field number has 29 bits.
abbrev pub TagBelow : Read (Bool × Tag) → Type 0
TagBelow (ok (found, t) s) = t.tag < 2 ^ 29
TagBelow (fail s) = Unit {0}
TagBelow stuck = Unit {0}

TagBelow-tag_read : (r : Read ℕ) → Below u32_mod r → TagBelow (tag_read r)
unfolding tag_read tag_parts
TagBelow-tag_read (ok temp s) lt = elim (Bool-cases (temp == 0)) [
  | inl e ↦ rw e (omega arith)
  | inr e ↦ rw e (omega arith)
]
TagBelow-tag_read (fail s) lt = omega arith
TagBelow-tag_read stuck lt = tt

pub TagBelow-pb_decode_tag : (k : ℕ) (s : IStream) → IsSafe k s → TagBelow (pb_decode_tag s)
unfolding pb_decode_tag
TagBelow-pb_decode_tag k s h =
    TagBelow-tag_read (pb_decode_varint32 s) (Below-pb_decode_varint32 k s h)

-- On a stream over a buffer of bytes that holds bytes_left bytes and `k` more: when
-- pb_decode_tag ends, the field number that it sets is less than 2^29.
pub pb_decode_tag-bound :
    (k : ℕ) (s s' : IStream) (found : Bool) (t : Tag)
    → IsSafe k s
    → pb_decode_tag s ≡ ok (found, t) s'
    → t.tag < 2 ^ 29
pb_decode_tag-bound k s s' found t h e = subst (λ r. TagBelow r) e (TagBelow-pb_decode_tag k s h)
