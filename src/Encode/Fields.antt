-- ===== src/Encode/Fields.antt =====
-- Pods/nanopb/pb_encode.c: the encoders of a single value, PB_ENCODERS. Values are read from memory
-- at the address `src`.
pub mod Uniform
use get_together.Common.{
  case_option, ℕ, ◌+◌, ◌-◌, ◌*◌, ◌%◌, Bool, false, Option, none, some, List, [], ltb, ◌==◌,
  if◌then◌else◌,
}
use get_together.Pb.{
  invalid_data_size, bytes_size_exceeded, invalid_field_descriptor, stream_full,
  submsg_size_changed, Outcome, returns, stuck, ◌>>=◌, size_mod,
}
use get_together.Pb.Field.{
  LType, varint, uvarint, svarint, fixed32, fixed64, bytes, string, submessage, extension,
  fixed_length_bytes, static, pointer, Field,
}
use get_together.Memory.{Memory, load, load_bytes, sign_extend, string_length}
use get_together.OStream.{OStream, pb_write, return_error, pb_ostream_sizing}
use get_together.Encode.{
  pb_encode_varint, pb_encode_svarint, pb_encode_fixed32, pb_encode_fixed64, pb_encode_string,
}
use get_together.Encode.Env.{Env}
use get_together.Encode.Submessage.{pb_encode_submessage}

-- The integer of `data_size` bytes at `src`, if that is a size of an integer type.
unfoldable pub load_int : Memory → Field → ℕ → Option ℕ
load_int mem field src =
    if field.data_size == 1
    then some (load mem src 1)
    else if field.data_size == 2
    then some (load mem src 2)
    else if field.data_size == 4
    then some (load mem src 4)
    else if field.data_size == 8
    then some (load mem src 8)
    else none

-- `max_size` of pb_enc_string: (size_t)-1 for a pointer.
abbrev pub string_limit : Field → ℕ
string_limit field = elim field.atype [ pointer ↦ size_mod - 1 | _ ↦ field.data_size ]

module _ (e : Env) where
  unfoldable pub pb_enc_varint : OStream → Field → ℕ → Outcome OStream
  pb_enc_varint s field src =
      case_option (load_int e.mem field src) (return_error s invalid_data_size)
        (λ value. pb_encode_varint s (sign_extend (8 * field.data_size) value))

  unfoldable pub pb_enc_uvarint : OStream → Field → ℕ → Outcome OStream
  pb_enc_uvarint s field src =
      case_option (load_int e.mem field src) (return_error s invalid_data_size)
        (λ value. pb_encode_varint s value)

  unfoldable pub pb_enc_svarint : OStream → Field → ℕ → Outcome OStream
  pb_enc_svarint s field src =
      case_option (load_int e.mem field src) (return_error s invalid_data_size)
        (λ value. pb_encode_svarint s (sign_extend (8 * field.data_size) value))

  unfoldable pub pb_enc_fixed64 : OStream → Field → ℕ → Outcome OStream
  pb_enc_fixed64 s field src = pb_encode_fixed64 s (load e.mem src 8)

  unfoldable pub pb_enc_fixed32 : OStream → Field → ℕ → Outcome OStream
  pb_enc_fixed32 s field src = pb_encode_fixed32 s (load e.mem src 4)

  -- `size` is the first member of pb_bytes_array_t, and `bytes` follows it at offset 4.
  unfoldable pub pb_enc_bytes : OStream → Field → ℕ → Outcome OStream
  pb_enc_bytes s field src =
      let size : ℕ = load e.mem src 4 in
      let too_long : Bool = elim field.atype [
        | static ↦ ltb field.data_size (size + 4)
        | _ ↦ false
      ] in
      if src == 0
      then pb_encode_string s [] 0
      else if too_long
      then return_error s bytes_size_exceeded
      else pb_encode_string s (load_bytes e.mem (src + 4) size) size

  unfoldable pub pb_enc_string : OStream → Field → ℕ → Outcome OStream
  pb_enc_string s field src =
      let size : ℕ = if src == 0 then 0 else string_length e.mem src (string_limit field) in
      pb_encode_string s (load_bytes e.mem src size) size

  unfoldable pub pb_enc_fixed_length_bytes : OStream → Field → ℕ → Outcome OStream
  pb_enc_fixed_length_bytes s field src =
      pb_encode_string s (load_bytes e.mem src field.data_size) field.data_size

-- `encode` is pb_encode, at one level of nesting less.
module _ (e : Env) (encode : List Field → ℕ → OStream → Outcome OStream) where
  unfoldable pub pb_enc_submessage : OStream → Field → ℕ → Outcome OStream
  pb_enc_submessage s field src =
      if field.ptr == 0
      then return_error s invalid_field_descriptor
      else pb_encode_submessage (encode (e.fields_at field.ptr) src) s

  -- PB_ENCODERS[ltype](s, field, src); a call through the NULL of extensions has no meaning.
  unfoldable pub pb_encoders : LType → OStream → Field → ℕ → Outcome OStream
  pb_encoders varint = pb_enc_varint e
  pb_encoders uvarint = pb_enc_uvarint e
  pb_encoders svarint = pb_enc_svarint e
  pb_encoders fixed32 = pb_enc_fixed32 e
  pb_encoders fixed64 = pb_enc_fixed64 e
  pb_encoders bytes = pb_enc_bytes e
  pb_encoders string = pb_enc_string e
  pb_encoders submessage = pb_enc_submessage
  pb_encoders extension = λ s field src. stuck
  pb_encoders fixed_length_bytes = pb_enc_fixed_length_bytes e
