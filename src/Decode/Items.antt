-- ===== src/Decode/Items.antt =====
-- Pods/nanopb/pb_decode.c: raw values, submessages, PB_DECODERS, and the entries of arrays.
use get_together.Common.{
  ℕ, zero, suc, ◌+◌, ◌*◌, ◌%◌, Bool, true, false, ◌&&◌, Option, some, List, [], ◌∷◌, bit_and, ltb,
  leb, ◌==◌, if◌then◌else◌,
}
use get_together.Pb.{u32_mod, invalid_wire_type, invalid_field_descriptor, array_overflow}
use get_together.Pb.Field.{
  LType, varint, uvarint, svarint, fixed32, fixed64, bytes, string, submessage, extension,
  fixed_length_bytes, is_packable, HType, repeated, WireType, wt_varint, wt_64bit, wt_string,
  wt_32bit, wt_other, Field,
}
use get_together.Memory.{Memory, load}
use get_together.Iter.{FieldIter, current}
use get_together.IStream.{IStream, Read, ok, fail, ◌>>=◌, return_error, head_or, pb_read}
use get_together.Decode.{pb_make_string_substream, pb_close_string_substream}
use get_together.Decode.Fields.{
  Decoded, decoded, lost, store, clear, read_then, dec_error, pb_dec_varint, pb_dec_uvarint,
  pb_dec_svarint, pb_dec_fixed32, pb_dec_fixed64, pb_dec_bytes, pb_dec_string,
  pb_dec_fixed_length_bytes,
}
use get_together.Decode.Env.{DecodeEnv}

-- The loop of read_raw_value, with room for `room` bytes more.
unfoldable pub raw_varint : ℕ → IStream → Read (List ℕ)
raw_varint zero s = fail s
raw_varint (suc room) s = pb_read s true 1 >>= λ bytes s.
    let byte : ℕ = head_or bytes in
    let rest = raw_varint room s >>= λ rest s. ok (byte ∷ rest) s in
    if bit_and byte 0x80 == 0 then ok (byte ∷ []) s else rest

-- The bytes that end up in `buf`; their number is what `*size` is set to.
unfoldable pub read_raw_value : IStream → WireType → ℕ → Read (List ℕ)
read_raw_value s wt_varint max_size = raw_varint max_size s
read_raw_value s wt_64bit max_size = pb_read s true 8
read_raw_value s wt_32bit max_size = pb_read s true 4
read_raw_value s wt_string max_size = return_error s invalid_wire_type
read_raw_value s (wt_other n) max_size = return_error s invalid_wire_type

-- `if (!call) return false; rest` for a call that may have changed memory.
unfoldable pub decoded_then : Decoded → (Memory → IStream → Decoded) → Decoded
decoded_then (decoded true mem s) k = k mem s
decoded_then (decoded false mem s) k = decoded false mem s
decoded_then lost k = lost

-- The substream is closed, and the stream is behind it; the answer is that of the decoder, whose
-- result is the last argument.
unfoldable pub close_substream : IStream → Decoded → Decoded
close_substream s (decoded status mem sub) =
    read_then mem (pb_close_string_substream s sub) λ _ s. decoded status mem s
close_substream s lost = lost

-- pb_decode, with true, and pb_decode_noinit.
abbrev pub Decoder : Type 0
Decoder = Bool → IStream → List Field → ℕ → Memory → Decoded

abbrev pub is_repeated : HType → Bool
is_repeated repeated = true
is_repeated _ = false

unfoldable pub pb_dec_submessage : DecodeEnv → Decoder → IStream → Memory → Field → ℕ → Decoded
pb_dec_submessage e decode s mem field dest =
    read_then mem (pb_make_string_substream s) λ substream s.
      if field.ptr == 0
      then dec_error mem s invalid_field_descriptor
      else close_substream s
          (decode (is_repeated field.htype) substream (e.fields_at field.ptr) dest mem)

-- PB_DECODERS; there is no function for extensions.
unfoldable pub pb_decoders : DecodeEnv → Decoder → LType → IStream → Memory → Field → ℕ → Decoded
pb_decoders e decode varint = pb_dec_varint
pb_decoders e decode uvarint = pb_dec_uvarint
pb_decoders e decode svarint = pb_dec_svarint
pb_decoders e decode fixed32 = pb_dec_fixed32
pb_decoders e decode fixed64 = pb_dec_fixed64
pb_decoders e decode bytes = pb_dec_bytes
pb_decoders e decode string = pb_dec_string
pb_decoders e decode submessage = pb_dec_submessage e decode
pb_decoders e decode extension = λ s mem field dest. lost
pb_decoders e decode fixed_length_bytes = pb_dec_fixed_length_bytes

-- `iter->pData + iter->pos->data_size * (*size)`, the product in a uint32_t.
abbrev pub item_address : FieldIter → ℕ → ℕ
item_address it size = it.p_data + (current it).data_size * size % u32_mod

-- `(*size)++`
abbrev pub count_item : FieldIter → Memory → Memory
count_item it mem = store mem it.p_size 4 ((load mem it.p_size 4 + 1) % u32_mod)

-- The loop over a packed array, on the substream. A round takes a byte at least.
unfoldable pub packed_items :
    (IStream → Memory → Field → ℕ → Decoded) → FieldIter → ℕ → Memory → IStream → Decoded
packed_items func it zero mem sub = lost
packed_items func it (suc fuel) mem sub =
    let size : ℕ = load mem it.p_size 4 in
    let rest =
      decoded_then (func sub mem (current it) (item_address it size))
        λ mem sub. packed_items func it fuel (count_item it mem) sub in
    if ltb 0 sub.bytes_left && ltb size (current it).array_size then rest else decoded true mem sub

-- What follows that loop.
unfoldable pub packed_end : IStream → Decoded → Decoded
packed_end s (decoded status mem sub) =
    if sub.bytes_left == 0
    then close_substream s (decoded status mem sub)
    else dec_error mem s array_overflow
packed_end s lost = lost

abbrev pub is_string : WireType → Bool
is_string wt_string = true
is_string _ = false

-- The case PB_HTYPE_REPEATED of decode_static_field.
unfoldable pub decode_repeated :
    (IStream → Memory → Field → ℕ → Decoded) → FieldIter → WireType → IStream → Memory → Decoded
decode_repeated func it wire_type s mem =
    let size : ℕ = load mem it.p_size 4 in
    let packed : Bool = is_string wire_type && is_packable (current it).ltype in
    if packed
    then read_then mem (pb_make_string_substream s) (λ substream s.
      packed_end s (packed_items func it (suc substream.bytes_left) mem substream))
    else if leb (current it).array_size size
    then dec_error mem s array_overflow
    else func s (count_item it mem) (current it) (item_address it size)

-- What the case PB_HTYPE_ONEOF does to a submessage before it is decoded.
unfoldable pub clear_union :
    DecodeEnv
    → (List Field → ℕ → Memory → Option Memory)
    → LType
    → Field
    → ℕ
    → Memory
    → Option Memory
clear_union e defaults submessage field p mem =
    defaults (e.fields_at field.ptr) p (clear mem p field.data_size)
clear_union e defaults _ field p mem = some mem
