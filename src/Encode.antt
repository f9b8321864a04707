-- ===== src/Encode.antt =====
-- Pods/nanopb/pb_encode.c: the wire format, varints, fixed-width integers, tags, strings.
pub mod Varint
pub mod Wire
pub mod Env
pub mod Submessage
pub mod Fields
pub mod Array
pub mod Message
use get_together.Common.{
  case_option, ℕ, zero, suc, ◌+◌, ◌-◌, ◌*◌, ◌/◌, ◌%◌, ◌^◌, ◌≡◌, Bool, true, false, Option, none,
  some, List, [], ◌∷◌, bit_and, bit_or, length, ltb, leb, ◌==◌, if◌then◌else◌,
}
use get_together.Pb.{invalid_field_type, Outcome, returns, stuck, ◌>>=◌, u64_mod}
use get_together.Pb.Field.{
  LType, varint, uvarint, svarint, fixed32, fixed64, bytes, string, submessage, extension,
  fixed_length_bytes, Field, WireType, wt_varint, wt_64bit, wt_string, wt_32bit, wire_code,
}
use get_together.OStream.{OStream, pb_write, return_error}

-- The loop `while (value) { buffer[i] = ...; value >>= 7; i++; }` with room for `room` bytes;
-- `none` is a write past the end of the buffer.
unfoldable pub fill_buffer : ℕ → ℕ → Option (List ℕ)
fill_buffer zero value = if value == 0 then some [] else none
fill_buffer (suc room) value = elim (value == 0) [
  | true ↦ some []
  | false ↦
      case_option (fill_buffer room (value / 2 ^ 7)) (none)
        (λ rest. some (bit_or (bit_and value 0x7F) 0x80 ∷ rest))
]

-- `buffer[i-1] &= 0x7F`
unfoldable pub unset_last : List ℕ → List ℕ
unset_last [] = []
unset_last (b ∷ []) = bit_and b 0x7F ∷ []
unset_last (b ∷ c ∷ rest) = b ∷ unset_last (c ∷ rest)

unfoldable pub pb_encode_varint : OStream → ℕ → Outcome OStream
pb_encode_varint s value =
    if leb value 0x7F
    then pb_write s (value ∷ []) 1
    else case_option (fill_buffer 10 value) (stuck)
        (λ buffer. let b = unset_last buffer in pb_write s b (length b))

-- `value` is the bit pattern of an int64_t. ~x is 2^64 - 1 - x.
unfoldable pub zigzag : ℕ → ℕ
zigzag value = if leb (2 ^ 63) value then u64_mod - 1 - value * 2 % u64_mod else value * 2 % u64_mod

unfoldable pub pb_encode_svarint : OStream → ℕ → Outcome OStream
pb_encode_svarint s value = pb_encode_varint s (zigzag value)

-- The first `n` bytes of `val`, the lowest first: `(val >> 8*i) & 0xFF`.
unfoldable pub little_endian : ℕ → ℕ → List ℕ
little_endian zero val = []
little_endian (suc n) val = bit_and val 0xFF ∷ little_endian n (val / 2 ^ 8)

-- `val` is the uint32_t that `value` points to.
unfoldable pub pb_encode_fixed32 : OStream → ℕ → Outcome OStream
pb_encode_fixed32 s val = pb_write s (little_endian 4 val) 4

unfoldable pub pb_encode_fixed64 : OStream → ℕ → Outcome OStream
pb_encode_fixed64 s val = pb_write s (little_endian 8 val) 8

unfoldable pub tag_of : WireType → ℕ → ℕ
tag_of wiretype field_number = bit_or (field_number * 2 ^ 3 % u64_mod) (wire_code wiretype)

unfoldable pub pb_encode_tag : OStream → WireType → ℕ → Outcome OStream
pb_encode_tag s wiretype field_number = pb_encode_varint s (tag_of wiretype field_number)

-- The switch of pb_encode_tag_for_field: the wire type of a field type, if it has one.
unfoldable pub wire_type_for : LType → Option WireType
wire_type_for varint = some wt_varint
wire_type_for uvarint = some wt_varint
wire_type_for svarint = some wt_varint
wire_type_for fixed32 = some wt_32bit
wire_type_for fixed64 = some wt_64bit
wire_type_for bytes = some wt_string
wire_type_for string = some wt_string
wire_type_for submessage = some wt_string
wire_type_for extension = none
wire_type_for fixed_length_bytes = some wt_string

unfoldable pub pb_encode_tag_for_field : OStream → Field → Outcome OStream
pb_encode_tag_for_field s field =
    case_option (wire_type_for field.ltype) (return_error s invalid_field_type)
      (λ wiretype. pb_encode_tag s wiretype field.tag)

unfoldable pub pb_encode_string : OStream → List ℕ → ℕ → Outcome OStream
pb_encode_string s buffer size = do s ← pb_encode_varint s size; pb_write s buffer size
