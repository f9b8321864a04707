-- ===== src/Decode.antt =====
-- Pods/nanopb/pb_decode.c: the wire format.
pub mod RoundTrip
pub mod Values
pub mod Safe
pub mod Bounds
pub mod Took
pub mod Trip
pub mod Fields
pub mod Env
pub mod Defaults
pub mod Items
pub mod Field
pub mod Substream
pub mod Contained
pub mod Message
pub mod Required
pub mod Errors
use get_together.Common.{
  ℕ, zero, suc, ◌+◌, ◌-◌, ◌*◌, ◌/◌, ◌%◌, ◌^◌, Bool, true, false, Option, none, some, List, [], ◌∷◌,
  bit_and, bit_or, ltb, leb, ◌==◌, if◌then◌else◌,
}
use get_together.Pb.{varint_overflow, invalid_wire_type, parent_stream_too_short, u32_mod, u64_mod}
use get_together.Pb.Field.{WireType, wt_varint, wt_64bit, wt_string, wt_32bit, wt_other}
use get_together.IStream.{
  IStream, Read, ok, fail, stuck, ◌>>=◌, return_error, head_or, pb_read, pb_readbyte,
}

-- The loop of pb_decode_varint32 (`width` 32) and pb_decode_varint (64).
unfoldable pub varint_loop : ℕ → ℕ → ℕ → ℕ → IStream → Read ℕ
varint_loop width zero bitpos result s = stuck
varint_loop width (suc fuel) bitpos result s =
    if leb width bitpos
    then return_error s varint_overflow
    else pb_readbyte s >>= λ byte s.
        let result' = bit_or result (bit_and byte 0x7F * 2 ^ bitpos % 2 ^ width) in
        let rest = varint_loop width fuel (bitpos + 7) result' s in
        if bit_and byte 0x80 == 0 then ok result' s else rest

unfoldable pub pb_decode_varint32 : IStream → Read ℕ
pb_decode_varint32 s = pb_readbyte s >>= λ byte s.
    let rest = varint_loop 32 5 7 (bit_and byte 0x7F) s in
    if bit_and byte 0x80 == 0 then ok byte s else rest

unfoldable pub pb_decode_varint : IStream → Read ℕ
pb_decode_varint s = varint_loop 64 11 0 0 s

-- Each round takes a byte.
unfoldable pub skip_varint_loop : ℕ → IStream → Read (List ℕ)
skip_varint_loop zero s = stuck
skip_varint_loop (suc fuel) s = pb_read s true 1 >>= λ bytes s.
    let rest = skip_varint_loop fuel s in
    if bit_and (head_or bytes) 0x80 == 0 then ok [] s else rest

unfoldable pub pb_skip_varint : IStream → Read (List ℕ)
pb_skip_varint s = skip_varint_loop (suc s.bytes_left) s

unfoldable pub pb_skip_string : IStream → Read (List ℕ)
pb_skip_string s = pb_decode_varint32 s >>= λ length s. pb_read s false length

-- What pb_decode_tag leaves in its out-parameters.
pub record Tag : Type 0 where
  pub wire_type : WireType
  pub tag : ℕ
  pub eof : Bool

-- The wire type of three bits.
unfoldable pub wire_of : ℕ → WireType
wire_of n =
    if n == 0
    then wt_varint
    else if n == 1
    then wt_64bit
    else if n == 2
    then wt_string
    else if n == 5
    then wt_32bit
    else wt_other n

-- The out-parameters as pb_decode_tag first sets them, and `eof`.
abbrev pub no_tag : Bool → Tag
no_tag eof = record { wire_type = wt_varint; tag = 0; eof = eof }

unfoldable pub tag_parts : ℕ → Tag
tag_parts temp = record { wire_type = wire_of (bit_and temp 7); tag = temp / 2 ^ 3; eof = false }

-- pb_decode_tag behind its call of pb_decode_varint32.
unfoldable pub tag_read : Read ℕ → Read (Bool × Tag)
tag_read stuck = stuck
tag_read (fail s) = ok (false, no_tag (s.bytes_left == 0)) s
tag_read (ok temp s) = if temp == 0 then ok (false, no_tag true) s else ok (true, tag_parts temp) s

-- The answer, and the out-parameters, which are set on failure too.
unfoldable pub pb_decode_tag : IStream → Read (Bool × Tag)
pb_decode_tag s = tag_read (pb_decode_varint32 s)

unfoldable pub pb_skip_field : IStream → WireType → Read (List ℕ)
pb_skip_field s wt_varint = pb_skip_varint s
pb_skip_field s wt_64bit = pb_read s false 8
pb_skip_field s wt_string = pb_skip_string s
pb_skip_field s wt_32bit = pb_read s false 4
pb_skip_field s (wt_other n) = return_error s invalid_wire_type

-- The substream of a length-delimited value; the stream is left with the rest of its bytes.
unfoldable pub pb_make_string_substream : IStream → Read IStream
pb_make_string_substream s = pb_decode_varint32 s >>= λ size s.
    if ltb s.bytes_left size
    then return_error s parent_stream_too_short
    else ok (record s { bytes_left = size }) (record s { bytes_left = s.bytes_left - size })

-- The end of pb_close_string_substream, behind the skipping of the rest.
unfoldable pub close_at : IStream → Read (List ℕ) → Read (List ℕ)
close_at s stuck = stuck
close_at s (fail sub) = fail s
close_at s (ok bytes sub) = ok [] (record s { state = sub.state; errmsg = sub.errmsg })

-- Skips what is left of the substream, and moves the stream behind it.
unfoldable pub pb_close_string_substream : IStream → IStream → Read (List ℕ)
pb_close_string_substream s substream = close_at s (
    if substream.bytes_left == 0
    then ok [] substream
    else pb_read substream false substream.bytes_left)

-- ~n is 2^64 - 1 - n.
unfoldable pub pb_decode_svarint : IStream → Read ℕ
pb_decode_svarint s = pb_decode_varint s >>= λ value s.
    ok (if bit_and value 1 == 0 then value / 2 else u64_mod - 1 - value / 2) s

-- `bytes[0] << 0 | bytes[1] << 8 | ...` on words of `width` bits.
unfoldable pub join_bytes : ℕ → ℕ → List ℕ → ℕ → ℕ
join_bytes width shift [] acc = acc
join_bytes width shift (b ∷ bs) acc =
    join_bytes width (shift + 8) bs (bit_or acc (b * 2 ^ shift % 2 ^ width))

unfoldable pub pb_decode_fixed32 : IStream → Read ℕ
pb_decode_fixed32 s = pb_read s true 4 >>= λ bytes s. ok (join_bytes 32 0 bytes 0) s

unfoldable pub pb_decode_fixed64 : IStream → Read ℕ
pb_decode_fixed64 s = pb_read s true 8 >>= λ bytes s. ok (join_bytes 64 0 bytes 0) s
