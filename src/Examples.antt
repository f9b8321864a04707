-- ===== src/Examples.antt =====
-- The theorems of the encoder at concrete messages and values.
pub mod Decode
pub mod Messages
pub mod Base64
pub mod Trips
use get_together.Common.{
  ◌≤◌, ℕ, ◌+◌, ◌%◌, ◌<◌, ◌≡◌, ◌⊎◌, inl, inr, refl, true, false, some, none, List, [], ◌∷◌, ◌++◌,
  pos, length, leb, if◌then◌else◌, ◌-◌, ◌*◌, ◌^◌, arith,
}
use get_together.Pb.{returns, size_mod, u64_mod}
use get_together.Pb.Field.{
  uvarint, submessage, static, required, optional, Field, wt_varint, wire_code,
}
use get_together.Memory.{IsMemory}
use get_together.OStream.Emits.{Ends, Emits, Emits-pb_write}
use get_together.Iter.{current, pb_field_iter_begin, pb_field_iter_next}
use get_together.Encode.{
  zigzag, pb_encode_varint, pb_encode_svarint, pb_encode_tag, pb_encode_string, pb_encode_fixed32,
  pb_encode_fixed64,
}
use get_together.Encode.Varint.{varint_bytes, Emits-pb_encode_varint}
use get_together.Encode.Wire.{
  le_bytes, key_bytes, string_bytes, Emits-pb_encode_tag, Emits-pb_encode_svarint,
  Emits-pb_encode_fixed32, Emits-pb_encode_fixed64, Emits-pb_encode_string, zigzag_lem,
}
use get_together.Encode.Env.{Env}
use get_together.Encode.Submessage.{pb_encode_submessage}
use get_together.Encode.Submessage.Uniform.{Emits-pb_encode_submessage}
use get_together.Encode.Array.{pb_check_proto3_default_value}
use get_together.Encode.Message.{pb_encode}
use get_together.Encode.Message.Plain.{IsPlain, IsNested, Ended, check_default-Ended}
use get_together.Encode.Message.Size.{FailsAlways, pb_encode-Ends}
use get_together.Encode.Message.{pb_get_encoded_size}
use get_together.IStream.{IStream, buf_read, pb_istream_from_buffer}
use get_together.IStream.Safe.{IsSafe, Kept}
use get_together.Decode.{
  pb_decode_varint, pb_decode_varint32, pb_decode_svarint, pb_decode_tag, pb_skip_field,
  pb_decode_fixed32, pb_decode_fixed64,
}
use get_together.Decode.RoundTrip.{
  Takes, pb_decode_varint-varint_bytes, pb_decode_varint32-varint_bytes,
}
use get_together.Decode.Values.{
  pb_decode_tag-key_bytes, pb_decode_fixed32-le_bytes, pb_decode_fixed64-le_bytes, read_string,
}
use get_together.Decode.Safe.{
  Safe-pb_decode_varint, Safe-pb_decode_varint32, Safe-pb_decode_tag, Safe-pb_skip_field,
}
use get_together.Decode.Fields.{
  decoded, is_int_size, pb_dec_varint, pb_dec_uvarint, pb_dec_bytes, pb_dec_string,
  pb_dec_fixed_length_bytes,
}
use get_together.Decode.Fields.Within.{Outside, Within}
use get_together.Decode.Fields.Bounds.{
  Within-pb_dec_bytes, Within-pb_dec_string, Within-pb_dec_fixed_length_bytes,
}
use get_together.Decode.Fields.Integers.{pb_dec_uvarint-varint_bytes}
use get_together.Encode.Varint.{varint_bytes-shape}
use get_together.Memory.{Memory, load}
use get_together.IStream.Reads.{after}
use get_together.Decode.Fields.Trip.{pb_enc_uvarint-pb_dec_uvarint}
use get_together.Encode.Fields.{pb_enc_uvarint}
use get_together.OStream.{OStream, pb_ostream_from_buffer, pb_write}
use get_together.Decode.Trip.{
  ReadsBack, pb_encode_varint-pb_decode_varint, pb_encode_svarint-pb_decode_svarint,
  pb_encode_string-read_string,
}

-- `required uint32 number = 1;`
abbrev pub number : Field
number = record {
  tag = 1;
  ltype = uvarint;
  htype = required;
  atype = static;
  data_offset = 0;
  size_offset = pos 0;
  data_size = 4;
  array_size = 0;
  ptr = 0;
}

-- `optional Inner inner = 2;`, its descriptors at 100.
abbrev inner_field : Field
inner_field = record {
  tag = 2;
  ltype = submessage;
  htype = optional;
  atype = static;
  data_offset = 0;
  size_offset = pos 0;
  data_size = 4;
  array_size = 0;
  ptr = 100;
}

abbrev outer : List Field
outer = number ∷ inner_field ∷ []

abbrev pub env : Env
env = record {
  mem = λ a. a % 256;
  fields_at = λ a. number ∷ [];
  callback_encode = λ f s field arg. returns false s;
  extension_encode = λ f s ext. returns false s;
}

abbrev pub two_bytes : List ℕ
two_bytes = 7 ∷ 8 ∷ []

pub cells : IsMemory env.mem
cells a = omega arith

number-IsPlain : (nested : ℕ → Type 0) → IsPlain nested number
number-IsPlain nested = record {
  tag_small = omega arith;
  size_small = omega arith;
  kept = inl refl;
  not_extension = λ h. cc;
  counted = λ h. elim h [ inl x ↦ cc | inr x ↦ cc ];
  inner = λ h. cc;
}

number-IsNested : IsNested env 1 (number ∷ [])
number-IsNested = (number-IsPlain _, tt)

inner_field-IsPlain : IsPlain (λ p. IsNested env 1 (env.fields_at p)) inner_field
inner_field-IsPlain = record {
  tag_small = omega arith;
  size_small = omega arith;
  kept = inl refl;
  not_extension = λ h. cc;
  counted = λ h. elim h [ inl x ↦ cc | inr x ↦ cc ];
  inner = λ h. number-IsNested;
}

outer-IsNested : IsNested env 2 outer
outer-IsNested = (number-IsPlain _, (inner_field-IsPlain, tt))

pb_encode-Ends_example :
    Ends (λ s. pb_encode env 2 outer 1000 s)
    × (((n : ℕ) × (n < size_mod) × (pb_get_encoded_size env 2 outer 1000 ≡ some (true, some n)))
        ⊎ ((pb_get_encoded_size env 2 outer 1000 ≡ some (false, none))
            × FailsAlways env 2 outer 1000))
pb_encode-Ends_example = pb_encode-Ends env 2 outer 1000 cells outer-IsNested

check_default-Ended_example : Ended (pb_check_proto3_default_value env 2 inner_field 1000)
check_default-Ended_example = check_default-Ended env 1 inner_field 1000 (λ h. number-IsNested)

Emits-pb_encode_submessage_example :
    Emits
      (λ s. pb_encode_submessage (λ s. pb_encode_varint s 300) s)
      (varint_bytes (length (varint_bytes 300) % size_mod) ++ varint_bytes 300)
Emits-pb_encode_submessage_example =
    Emits-pb_encode_submessage (λ s. pb_encode_varint s 300) (varint_bytes 300)
      (Emits-pb_encode_varint 300 (omega arith))

Emits-pb_write_example : Emits (λ s. pb_write s two_bytes (length two_bytes)) two_bytes
Emits-pb_write_example = Emits-pb_write two_bytes

Emits-pb_encode_varint_example : Emits (λ s. pb_encode_varint s 300) (varint_bytes 300)
Emits-pb_encode_varint_example = Emits-pb_encode_varint 300 (omega arith)

Emits-pb_encode_tag_example : Emits (λ s. pb_encode_tag s wt_varint 5) (key_bytes wt_varint 5)
Emits-pb_encode_tag_example =
    Emits-pb_encode_tag wt_varint 5 (unfold wire_code in omega arith) (omega arith)

zigzag_lem_example :
    zigzag (2 ^ 64 - 3)
    ≡ (if leb (2 ^ 63) (2 ^ 64 - 3) then 2 * (u64_mod - (2 ^ 64 - 3)) - 1 else 2 * (2 ^ 64 - 3))
zigzag_lem_example = zigzag_lem (2 ^ 64 - 3) (omega arith)

Emits-pb_encode_fixed64_example : Emits (λ s. pb_encode_fixed64 s 0x0102) (le_bytes 8 0x0102)
Emits-pb_encode_fixed64_example = Emits-pb_encode_fixed64 0x0102

Emits-pb_encode_string_example :
    Emits (λ s. pb_encode_string s two_bytes (length two_bytes)) (string_bytes two_bytes)
Emits-pb_encode_string_example = Emits-pb_encode_string two_bytes (omega arith)
