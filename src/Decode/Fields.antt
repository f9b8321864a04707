-- ===== src/Decode/Fields.antt =====
-- Pods/nanopb/pb_decode.c: the field decoders pb_dec_varint to pb_dec_fixed_length_bytes, without
-- the one for submessages. What a callback that fails has stored is left out.
pub mod Within
pub mod Numbers
pub mod Bounds
pub mod Integers
pub mod Trip
use get_together.Common.{
  ℕ, zero, suc, ◌+◌, ◌*◌, ◌/◌, ◌%◌, ◌^◌, Bool, true, false, ◌||◌, List, [], ◌∷◌, take, ltb, ◌==◌,
  if◌then◌else◌,
}
use get_together.Pb.{
  Message, set_error, u32_mod, pb_size_max, invalid_data_size, integer_too_large, bytes_overflow,
  size_too_large, string_overflow, no_malloc_support, incorrect_fixed_length_bytes_size,
}
use get_together.Pb.Field.{Field}
use get_together.Memory.{Memory, sign_extend}
use get_together.Encode.Array.{is_pointer}
use get_together.IStream.{IStream, Read, ok, fail, stuck, pb_read}
use get_together.Decode.{
  pb_decode_varint32, pb_decode_varint, pb_decode_svarint, pb_decode_fixed32, pb_decode_fixed64,
}

-- What a field decoder leaves behind: its answer, memory and the stream. `lost` is no C value, as
-- `stuck`.
pub data Decoded : Type 0 where
  decoded : Bool → Memory → IStream → Decoded
  lost : Decoded

-- `*(uint8_t*)a = b`
unfoldable pub put : Memory → ℕ → ℕ → Memory
put mem a b x = if x == a then b else mem x

-- The `n` lowest bytes of `v`, the lowest first.
unfoldable pub store : Memory → ℕ → ℕ → ℕ → Memory
store mem a zero v = mem
store mem a (suc n) v = store (put mem a (v % 256)) (a + 1) n (v / 256)

unfoldable pub store_bytes : Memory → ℕ → List ℕ → Memory
store_bytes mem a [] = mem
store_bytes mem a (b ∷ bs) = store_bytes (put mem a b) (a + 1) bs

-- memset(dest, 0, n)
unfoldable pub clear : Memory → ℕ → ℕ → Memory
clear mem a zero = mem
clear mem a (suc n) = clear (put mem a 0) (a + 1) n

-- `if (!call) return false; rest`
unfoldable pub read_then {ℓ} : {A : Type ℓ} → Memory → Read A → (A → IStream → Decoded) → Decoded
read_then mem (ok a s) k = k a s
read_then mem (fail s) k = decoded false mem s
read_then mem stuck k = lost

-- PB_RETURN_ERROR(stream, msg)
unfoldable pub dec_error : Memory → IStream → Message → Decoded
dec_error mem s msg = decoded false mem (record s { errmsg = set_error s.errmsg msg })

-- The sizes of the integer types.
unfoldable pub is_int_size : ℕ → Bool
is_int_size n = n == 8 || n == 4 || n == 2 || n == 1

-- "Cast to the proper field size, while checking for overflows".
unfoldable pub store_int : (ℕ → ℕ) → Memory → Field → ℕ → ℕ → IStream → Decoded
store_int clamp mem field dest value s =
    let mem' : Memory = store mem dest field.data_size value in
    if is_int_size field.data_size
    then if clamp value == value then decoded true mem' s else dec_error mem' s integer_too_large
    else dec_error mem s invalid_data_size

-- The value of a signed or unsigned integer of n bytes, as a residue modulo 2^64.
unfoldable pub clamp_signed : ℕ → ℕ → ℕ
clamp_signed n value = sign_extend (8 * n) (value % 2 ^ (8 * n))

unfoldable pub clamp_unsigned : ℕ → ℕ → ℕ
clamp_unsigned n value = value % 2 ^ (8 * n)

-- Fields of at most 32 bits are cast to int32_t first.
unfoldable pub pb_dec_varint : IStream → Memory → Field → ℕ → Decoded
pb_dec_varint s mem field dest = read_then mem (pb_decode_varint s) λ value s.
    let svalue : ℕ = if field.data_size == 8 then value else clamp_signed 4 value in
    store_int (clamp_signed field.data_size) mem field dest svalue s

unfoldable pub pb_dec_uvarint : IStream → Memory → Field → ℕ → Decoded
pb_dec_uvarint s mem field dest =
    read_then mem (pb_decode_varint s)
      λ value s. store_int (clamp_unsigned field.data_size) mem field dest value s

unfoldable pub pb_dec_svarint : IStream → Memory → Field → ℕ → Decoded
pb_dec_svarint s mem field dest =
    read_then mem (pb_decode_svarint s)
      λ value s. store_int (clamp_signed field.data_size) mem field dest value s

unfoldable pub pb_dec_fixed32 : IStream → Memory → Field → ℕ → Decoded
pb_dec_fixed32 s mem field dest =
    read_then mem (pb_decode_fixed32 s) λ value s. decoded true (store mem dest 4 value) s

unfoldable pub pb_dec_fixed64 : IStream → Memory → Field → ℕ → Decoded
pb_dec_fixed64 s mem field dest =
    read_then mem (pb_decode_fixed64 s) λ value s. decoded true (store mem dest 8 value) s

-- pb_read(stream, dest, size)
unfoldable pub read_into : IStream → Memory → ℕ → ℕ → Decoded
read_into s mem dest size =
    read_then mem (pb_read s true size)
      λ bytes s. decoded true (store_bytes mem dest (take size bytes)) s

-- pb_bytes_array_t: `size` in 4 bytes, then `bytes`.
unfoldable pub pb_dec_bytes : IStream → Memory → Field → ℕ → Decoded
pb_dec_bytes s mem field dest = read_then mem (pb_decode_varint32 s) λ size s.
    let alloc_size : ℕ = size + 4 in
    if ltb pb_size_max size
    then dec_error mem s bytes_overflow
    else if ltb alloc_size size
    then dec_error mem s size_too_large
    else if is_pointer field.atype
    then dec_error mem s no_malloc_support
    else if ltb field.data_size alloc_size
    then dec_error mem s bytes_overflow
    else read_into s (store mem dest 4 size) (dest + 4) size

-- The terminator is written whatever the answer of the read.
unfoldable pub terminate : ℕ → Decoded → Decoded
terminate a (decoded status mem s) = decoded status (put mem a 0) s
terminate a lost = lost

-- `size + 1` is computed in a uint32_t.
unfoldable pub pb_dec_string : IStream → Memory → Field → ℕ → Decoded
pb_dec_string s mem field dest = read_then mem (pb_decode_varint32 s) λ size s.
    let alloc_size : ℕ = (size + 1) % u32_mod in
    if ltb alloc_size size
    then dec_error mem s size_too_large
    else if is_pointer field.atype
    then dec_error mem s no_malloc_support
    else if ltb field.data_size alloc_size
    then dec_error mem s string_overflow
    else terminate (dest + size) (read_into s mem dest size)

unfoldable pub pb_dec_fixed_length_bytes : IStream → Memory → Field → ℕ → Decoded
pb_dec_fixed_length_bytes s mem field dest = read_then mem (pb_decode_varint32 s) λ size s.
    if ltb pb_size_max size
    then dec_error mem s bytes_overflow
    else if size == 0
    then decoded true (clear mem dest field.data_size) s
    else if size == field.data_size
    then read_into s mem dest field.data_size
    else dec_error mem s incorrect_fixed_length_bytes_size
