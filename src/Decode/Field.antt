-- ===== src/Decode/Field.antt =====
-- Pods/nanopb/pb_decode.c: decoding one field, and extensions.
use get_together.Common.{
  case_option, ℕ, zero, suc, ◌+◌, true, false, Option, List, length, get_or, ◌==◌, if◌then◌else◌,
}
use get_together.Pb.{no_malloc_support, invalid_field_type, callback_failed}
use get_together.Pb.Field.{
  HType, required, optional, repeated, oneof, AType, static, pointer, callback, reserved, WireType,
  Field, last_field,
}
use get_together.Memory.{Memory, load_pointer}
use get_together.Iter.{FieldIter, current}
use get_together.IStream.{IStream, pb_istream_from_buffer}
use get_together.Decode.{pb_skip_field, pb_make_string_substream}
use get_together.Decode.Fields.{Decoded, decoded, lost, put, store, read_then, dec_error}
use get_together.Decode.Env.{DecodeEnv}
use get_together.Decode.Defaults.{iter_from_extension}
use get_together.Decode.Items.{
  read_raw_value, decoded_then, close_substream, Decoder, pb_decoders, is_string, decode_repeated,
  clear_union,
}

-- `decode` is pb_decode and pb_decode_noinit, and `defaults` is pb_message_set_to_defaults, at one
-- level of nesting less; `depth` bounds the length of a list of extensions.
module _ (e : DecodeEnv) (depth : ℕ) (decode : Decoder)
    (defaults : List Field → ℕ → Memory → Option Memory) where
  -- The switch of decode_static_field.
  unfoldable pub static_by_htype : HType → IStream → WireType → FieldIter → Memory → Decoded
  static_by_htype required s wire_type it mem =
      pb_decoders e decode (current it).ltype s mem (current it) it.p_data
  static_by_htype optional s wire_type it mem =
      pb_decoders e decode (current it).ltype s
        (if it.p_size == it.p_data then mem else put mem it.p_size 1) (current it) it.p_data
  static_by_htype repeated s wire_type it mem =
      decode_repeated (pb_decoders e decode (current it).ltype) it wire_type s mem
  static_by_htype oneof s wire_type it mem =
      let tagged : Memory = store mem it.p_size 4 (current it).tag in
      case_option (clear_union e defaults (current it).ltype (current it) it.p_data tagged) lost
        λ mem. pb_decoders e decode (current it).ltype s mem (current it) it.p_data

  unfoldable pub decode_static_field : IStream → WireType → FieldIter → Memory → Decoded
  decode_static_field s wire_type it mem = static_by_htype (current it).htype s wire_type it mem

  -- Without PB_ENABLE_MALLOC.
  unfoldable pub decode_pointer_field : IStream → WireType → FieldIter → Memory → Decoded
  decode_pointer_field s wire_type it mem = dec_error mem s no_malloc_support

  -- The loop over a substream that is given to a callback, whose address is read before each call;
  -- `s` is the stream itself, and the fuel bounds the calls.
  unfoldable pub callback_loop : ℕ → IStream → FieldIter → Memory → IStream → Decoded
  callback_loop zero s it mem sub = lost
  callback_loop (suc fuel) s it mem sub =
      elim (e.callback_decode (load_pointer mem it.p_data) sub mem (current it) (it.p_data + 8)) [
        | lost ↦ lost
        | decoded false mem sub ↦ dec_error mem s callback_failed
        | decoded true mem sub ↦ elim (sub.bytes_left == 0) [
          | true ↦ close_substream s (decoded true mem sub)
          | false ↦ callback_loop fuel s it mem sub
        ]
      ]

  -- The answer of a callback on the copy of a scalar; the stream is behind the value.
  unfoldable pub scalar_answer : IStream → Decoded → Decoded
  scalar_answer s (decoded status mem sub) = decoded status mem s
  scalar_answer s lost = lost

  -- pb_callback_t: the address of the function, then `arg`.
  unfoldable pub decode_callback_field : IStream → WireType → FieldIter → Memory → Decoded
  decode_callback_field s wire_type it mem =
      let func : ℕ = load_pointer mem it.p_data in
      if func == 0
      then read_then mem (pb_skip_field s wire_type) (λ _ s. decoded true mem s)
      else if is_string wire_type
      then read_then mem (pb_make_string_substream s)
          (λ substream s. callback_loop (suc substream.bytes_left) s it mem substream)
      else read_then mem (read_raw_value s wire_type 10) (λ buffer s. scalar_answer s (
          e.callback_decode func (pb_istream_from_buffer buffer (length buffer)) mem (current it)
            (it.p_data + 8)))

  -- The switch of decode_field.
  unfoldable pub decode_by_atype : AType → IStream → WireType → FieldIter → Memory → Decoded
  decode_by_atype static s wire_type it mem = decode_static_field s wire_type it mem
  decode_by_atype pointer s wire_type it mem = decode_pointer_field s wire_type it mem
  decode_by_atype callback s wire_type it mem = decode_callback_field s wire_type it mem
  decode_by_atype reserved s wire_type it mem = dec_error mem s invalid_field_type

  unfoldable pub decode_field : IStream → WireType → FieldIter → Memory → Decoded
  decode_field s wire_type it mem = decode_by_atype (current it).atype s wire_type it mem

  unfoldable pub default_extension_decoder : IStream → Memory → ℕ → ℕ → WireType → Decoded
  default_extension_decoder s mem ext tag wire_type =
      let field : Field =
        get_or (e.fields_at (load_pointer mem (load_pointer mem ext + 16))) 0 last_field in
      if field.tag == tag
      then decode_field s wire_type (iter_from_extension e mem ext) (put mem (ext + 24) 1)
      else decoded true mem s

  -- The loop of decode_extension, `pos` the bytes left before it.
  unfoldable pub try_extensions : ℕ → ℕ → ℕ → ℕ → WireType → Memory → IStream → Decoded
  try_extensions zero ext pos tag wire_type mem s = lost
  try_extensions (suc fuel) ext pos tag wire_type mem s =
      let func : ℕ = load_pointer mem (load_pointer mem ext) in
      elim (ext == 0) [
        | true ↦ decoded true mem s
        | false ↦ elim (pos == s.bytes_left) [
          | false ↦ decoded true mem s
          | true ↦
              decoded_then
                (if func == 0
                  then default_extension_decoder s mem ext tag wire_type
                  else e.extension_decode func s mem ext tag wire_type)
                λ mem s. try_extensions fuel (load_pointer mem (ext + 16)) pos tag wire_type mem s
        ]
      ]

  unfoldable pub decode_extension : IStream → ℕ → WireType → FieldIter → Memory → Decoded
  decode_extension s tag wire_type it mem =
      try_extensions depth (load_pointer mem it.p_data) s.bytes_left tag wire_type mem s
