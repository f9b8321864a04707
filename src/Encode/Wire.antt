-- ===== src/Encode/Wire.antt =====
-- What the other functions of the wire format write.
use get_together.Common.{
  ℕ, zero, suc, ◌+◌, ◌*◌, ◌/◌, ◌%◌, ◌^◌, ◌-◌, ◌<◌, ◌≡◌, refl, ap, ◌∙◌, List, [], ◌∷◌, ◌++◌, length,
  if◌then◌else◌, bit_or, leb, arith,
}
use get_together.Common.Bits.{bit_and-ones, shifted-bit_or}
use get_together.Pb.{u64_mod, u32_mod}
use get_together.Pb.Field.{WireType, wire_code}
use get_together.OStream.Emits.{Emits, Emits-pb_write, Emits-bind}
use get_together.Encode.{
  little_endian, zigzag, pb_encode_svarint, pb_encode_fixed32, pb_encode_fixed64, tag_of,
  pb_encode_tag, pb_encode_string,
}
use get_together.Encode.Varint.{varint_bytes, Emits-pb_encode_varint}

-- The `n` lowest bytes of `v`, the lowest first.
unfoldable pub le_bytes : ℕ → ℕ → List ℕ
le_bytes zero v = []
le_bytes (suc n) v = v % 256 ∷ le_bytes n (v / 256)

little_endian-le_bytes : (n v : ℕ) → little_endian n v ≡ le_bytes n v
unfolding little_endian le_bytes
little_endian-le_bytes zero v = refl
little_endian-le_bytes (suc n) v =
    rw (bit_and-ones 8 0xFF v refl, little_endian-le_bytes n (v / 256))

pub length-le_bytes : (n v : ℕ) → length (le_bytes n v) ≡ n
unfolding le_bytes
length-le_bytes zero v = refl
length-le_bytes (suc n) v = ap suc (length-le_bytes n (v / 256))

-- pb_encode_fixed32 emits the four bytes of the value, the lowest first.
pub Emits-pb_encode_fixed32 : (v : ℕ) → Emits (λ s. pb_encode_fixed32 s v) (le_bytes 4 v)
unfolding pb_encode_fixed32 le_bytes
Emits-pb_encode_fixed32 v = rw (little_endian-le_bytes 4 v) (Emits-pb_write (le_bytes 4 v))

-- pb_encode_fixed64 emits the eight bytes of the value, the lowest first.
pub Emits-pb_encode_fixed64 : (v : ℕ) → Emits (λ s. pb_encode_fixed64 s v) (le_bytes 8 v)
unfolding pb_encode_fixed64 le_bytes
Emits-pb_encode_fixed64 v = rw (little_endian-le_bytes 8 v) (Emits-pb_write (le_bytes 8 v))

-- The key of a field number and a wire type.
unfoldable pub key : WireType → ℕ → ℕ
key w n = n * 8 + wire_code w

pub tag_of-key : (w : WireType) (n : ℕ) → wire_code w < 8 → n < u32_mod → tag_of w n ≡ key w n
unfolding tag_of key
tag_of-key w n h k =
    ap (λ (t : ℕ). bit_or t (wire_code w)) small ∙ shifted-bit_or 3 n (wire_code w) h
  where
    small : n * 2 ^ 3 % u64_mod ≡ n * 2 ^ 3
    small = omega arith

-- The bytes of the key: a varint.
unfoldable pub key_bytes : WireType → ℕ → List ℕ
key_bytes w n = varint_bytes (key w n)

-- For a wire type of three bits and a field number below 2^32, pb_encode_tag emits the varint
-- of eight times the number plus the wire type.
pub Emits-pb_encode_tag :
    (w : WireType) (n : ℕ)
    → wire_code w < 8
    → n < u32_mod
    → Emits (λ s. pb_encode_tag s w n) (key_bytes w n)
unfolding pb_encode_tag key_bytes
Emits-pb_encode_tag w n h k =
    rw (tag_of-key w n h k) (Emits-pb_encode_varint (key w n) (unfold key in omega arith))

-- A length, then the bytes.
unfoldable pub string_bytes : List ℕ → List ℕ
string_bytes bs = varint_bytes (length bs) ++ bs

-- For bytes of a length below 2^64, pb_encode_string emits the varint of the length and then
-- the bytes.
pub Emits-pb_encode_string :
    (bs : List ℕ)
    → length bs < u64_mod
    → Emits (λ s. pb_encode_string s bs (length bs)) (string_bytes bs)
unfolding pb_encode_string string_bytes
Emits-pb_encode_string bs h =
    Emits-bind _ _ (varint_bytes (length bs)) bs (Emits-pb_encode_varint (length bs) h)
      (Emits-pb_write bs)

-- For the residue modulo 2^64 of an int64_t n, the zigzag of pb_encode_svarint is 2n when n is
-- not negative, and -2n - 1 when it is.
pub zigzag_lem :
    (v : ℕ) → v < u64_mod → zigzag v ≡ (if leb (2 ^ 63) v then 2 * (u64_mod - v) - 1 else 2 * v)
unfolding zigzag
zigzag_lem v h = ground arith

pub zigzag-lt : (v : ℕ) → zigzag v < u64_mod
unfolding zigzag
zigzag-lt v = ground arith

pub Emits-pb_encode_svarint : (v : ℕ) → Emits (λ s. pb_encode_svarint s v) (varint_bytes (zigzag v))
unfolding pb_encode_svarint
Emits-pb_encode_svarint v = Emits-pb_encode_varint (zigzag v) (zigzag-lt v)
