-- ===== src/Examples/Decode.antt =====
-- The theorems of the decoder and of the round trips at concrete streams and values.
use get_together.Common.{
  ◌≤◌, ◌<◌, ℕ, ◌≡◌, refl, true, false, none, [], ◌∷◌, ◌++◌, length, ◌-◌, ◌^◌, arith,
}
use get_together.Pb.{returns, varint_overflow}
use get_together.Pb.Field.{Field, wt_varint, wt_string}
use get_together.Encode.{pb_encode_varint, pb_encode_svarint, pb_encode_string}
use get_together.Encode.Varint.{varint_bytes}
use get_together.Encode.Wire.{le_bytes, key_bytes}
use get_together.IStream.{
  IStream, buf_read, pb_istream_from_buffer, return_error, pb_readbyte, call_source,
}
use get_together.IStream.Safe.{IsSafe, Kept}
use get_together.Decode.{
  pb_decode_varint, pb_decode_varint32, pb_decode_svarint, pb_decode_tag, tag_read, tag_parts,
  wire_of, pb_skip_field, pb_decode_fixed32, pb_decode_fixed64,
}
use get_together.Decode.RoundTrip.{
  Takes, pb_decode_varint-varint_bytes, pb_decode_varint32-varint_bytes,
}
use get_together.Decode.Values.{
  pb_decode_tag-key_bytes, pb_decode_fixed32-le_bytes, pb_decode_fixed64-le_bytes, read_string,
}
use get_together.Decode.Safe.{Safe-pb_decode_tag, Safe-pb_skip_field}
use get_together.Decode.Errors.{pb_decode_varint-overflow}
use get_together.Decode.Bounds.{pb_decode_tag-bound}
use get_together.Decode.Fields.{
  pb_dec_fixed_length_bytes, decoded, is_int_size, pb_dec_uvarint, pb_dec_bytes, pb_dec_string,
}
use get_together.Decode.Fields.Within.{Outside, Within}
use get_together.Decode.Fields.Bounds.{
  Within-pb_dec_bytes, Within-pb_dec_fixed_length_bytes, Within-pb_dec_string,
}
use get_together.Decode.Fields.Integers.{pb_dec_uvarint-varint_bytes}
use get_together.Encode.Varint.{varint_bytes-shape}
use get_together.Memory.{Memory, load}
use get_together.IStream.Reads.{after}
use get_together.Decode.Fields.Trip.{pb_enc_uvarint-pb_dec_uvarint}
use get_together.Encode.Fields.{pb_enc_uvarint}
use get_together.OStream.{OStream, pb_ostream_from_buffer}
use get_together.Decode.Trip.{
  ReadsBack, pb_encode_varint-pb_decode_varint, pb_encode_svarint-pb_decode_svarint,
  pb_encode_string-read_string,
}
use get_together.Examples.{number, env, two_bytes, cells}

pb_decode_varint-varint_bytes_example : Takes pb_decode_varint (varint_bytes 300) 300
pb_decode_varint-varint_bytes_example = pb_decode_varint-varint_bytes 300 (omega arith)

pb_decode_varint32-varint_bytes_example : Takes pb_decode_varint32 (varint_bytes 300) 300
pb_decode_varint32-varint_bytes_example = pb_decode_varint32-varint_bytes 300 (omega arith)

pb_decode_tag-key_bytes_example :
    Takes pb_decode_tag
      (key_bytes wt_varint 5)
      (true, record { wire_type = wt_varint; tag = 5; eof = false })
pb_decode_tag-key_bytes_example = pb_decode_tag-key_bytes wt_varint 5 tt (omega arith) (omega arith)

pb_decode_fixed32-le_bytes_example : Takes pb_decode_fixed32 (le_bytes 4 0x01020304) 0x01020304
pb_decode_fixed32-le_bytes_example = pb_decode_fixed32-le_bytes 0x01020304 (omega arith)

pb_decode_fixed64-le_bytes_example : Takes pb_decode_fixed64 (le_bytes 8 0x0102) 0x0102
pb_decode_fixed64-le_bytes_example = pb_decode_fixed64-le_bytes 0x0102 (omega arith)

pb_encode_varint-pb_decode_varint_example :
    ReadsBack (λ s. pb_encode_varint s 300) pb_decode_varint 300 16
pb_encode_varint-pb_decode_varint_example =
    pb_encode_varint-pb_decode_varint 300 16 (omega arith) (omega arith) (omega arith)

pb_encode_svarint-pb_decode_svarint_example :
    ReadsBack (λ s. pb_encode_svarint s (2 ^ 64 - 3)) pb_decode_svarint (2 ^ 64 - 3) 16
pb_encode_svarint-pb_decode_svarint_example =
    pb_encode_svarint-pb_decode_svarint (2 ^ 64 - 3) 16 (omega arith) (omega arith) (omega arith)

pb_encode_string-read_string_example :
    ReadsBack (λ s. pb_encode_string s two_bytes (length two_bytes)) read_string two_bytes 16
pb_encode_string-read_string_example =
    pb_encode_string-read_string two_bytes 16 (omega arith) (omega arith) (omega arith)

-- A buffer of three bytes, the last byte of a varint missing.
abbrev cut_off : IStream
cut_off = record {
  callback = buf_read;
  state = 172 ∷ 200 ∷ 130 ∷ [];
  bytes_left = 3;
  errmsg = none;
}

cut_off-IsSafe : IsSafe 0 cut_off
cut_off-IsSafe = record {
  on_buffer = refl;
  enough = omega arith;
  are_bytes = (omega arith, (omega arith, (omega arith, tt)));
}

Safe-pb_decode_tag_example : Kept 0 3 (pb_decode_tag cut_off)
Safe-pb_decode_tag_example = Safe-pb_decode_tag 0 cut_off cut_off-IsSafe

Safe-pb_skip_field_example : Kept 0 3 (pb_skip_field cut_off wt_varint)
Safe-pb_skip_field_example = Safe-pb_skip_field wt_varint 0 cut_off cut_off-IsSafe

-- A length of two and two bytes.
abbrev two_letters : IStream
two_letters = record {
  callback = buf_read;
  state = 2 ∷ 65 ∷ 66 ∷ [];
  bytes_left = 3;
  errmsg = none;
}

two_letters-IsSafe : IsSafe 0 two_letters
two_letters-IsSafe = record {
  on_buffer = refl;
  enough = omega arith;
  are_bytes = (omega arith, (omega arith, (omega arith, tt)));
}

abbrev wide : Field
wide = record number { data_size = 8 }

Within-pb_dec_bytes_example : Within 0 3 env.mem 1000 8 (pb_dec_bytes two_letters env.mem wide 1000)
Within-pb_dec_bytes_example = Within-pb_dec_bytes 0 two_letters env.mem wide 1000 two_letters-IsSafe

Within-pb_dec_string_example :
    Within 0 3 env.mem 1000 8 (pb_dec_string two_letters env.mem wide 1000)
Within-pb_dec_string_example =
    Within-pb_dec_string 0 two_letters env.mem wide 1000 two_letters-IsSafe

-- A field of two bytes.
abbrev pair : Field
pair = record number { data_size = 2 }

Within-pb_dec_fixed_length_bytes_example :
    Within 0 3 env.mem 1000 2 (pb_dec_fixed_length_bytes two_letters env.mem pair 1000)
Within-pb_dec_fixed_length_bytes_example =
    Within-pb_dec_fixed_length_bytes 0 two_letters env.mem pair 1000 two_letters-IsSafe

pb_decode_tag-bound_example : 0 < 2 ^ 29
unfolding pb_decode_tag tag_read tag_parts wire_of pb_decode_varint32 pb_readbyte call_source
pb_decode_tag-bound_example =
    pb_decode_tag-bound 0 two_letters (after two_letters 1 (65 ∷ 66 ∷ [])) true
      (record { wire_type = wt_string; tag = 0; eof = false }) two_letters-IsSafe refl

-- Eleven bytes with the top bit set.
abbrev endless : IStream
endless = record {
  callback = buf_read;
  state = 200 ∷ 200 ∷ 200 ∷ 200 ∷ 200 ∷ 200 ∷ 200 ∷ 200 ∷ 200 ∷ 200 ∷ 200 ∷ [];
  bytes_left = 11;
  errmsg = none;
}

endless-IsSafe : IsSafe 0 endless
endless-IsSafe = record {
  on_buffer = refl;
  enough = omega arith;
  are_bytes = (
    omega arith,
    (
      omega arith,
      (
        omega arith,
        (
          omega arith,
          (
            omega arith,
            (
              omega arith,
              (omega arith, (omega arith, (omega arith, (omega arith, (omega arith, tt))))),
            ),
          ),
        ),
      ),
    ),
  );
}

pb_decode_varint-overflow_example :
    pb_decode_varint endless ≡ return_error (after endless 10 (200 ∷ [])) varint_overflow
pb_decode_varint-overflow_example =
    pb_decode_varint-overflow 0 endless endless-IsSafe (omega arith) (
      omega arith,
      (
        omega arith,
        (
          omega arith,
          (
            omega arith,
            (
              omega arith,
              (omega arith, (omega arith, (omega arith, (omega arith, (omega arith, tt))))),
            ),
          ),
        ),
      ),
    )

-- A buffer with the varint of 300 and a byte behind it.
abbrev three_hundred : IStream
three_hundred = record {
  callback = buf_read;
  state = varint_bytes 300 ++ 9 ∷ [];
  bytes_left = 11;
  errmsg = none;
}

pb_dec_uvarint-varint_bytes_example :
    (mem' : Memory) × (pb_dec_uvarint three_hundred env.mem number 1000
      ≡ decoded true mem' (after three_hundred (length (varint_bytes 300)) (9 ∷ [])))
    × (load mem' 1000 4 ≡ 300)
    × ((x : ℕ) → Outside 1000 4 x → mem' x ≡ env.mem x)
pb_dec_uvarint-varint_bytes_example =
    pb_dec_uvarint-varint_bytes three_hundred env.mem number 1000 300 (9 ∷ []) int_size
      (omega arith) (omega arith) (record { on_buffer = refl; holds = refl })
      (omega (arith, (varint_bytes-shape 300 (omega arith)).2))
  where
    int_size : is_int_size 4 ≡ true
    int_size = unfold is_int_size in refl

pb_enc_uvarint-pb_dec_uvarint_example :
    (s : OStream) × (mem' : Memory) × (pb_enc_uvarint env (pb_ostream_from_buffer 16) number 2000
      ≡ returns true s)
    × (s.bytes_written ≤ 16)
    × (pb_dec_uvarint (pb_istream_from_buffer s.state s.bytes_written) env.mem number 1000
        ≡ decoded true mem' (pb_istream_from_buffer [] 0))
    × (load mem' 1000 4 ≡ load env.mem 2000 4)
    × ((x : ℕ) → Outside 1000 4 x → mem' x ≡ env.mem x)
pb_enc_uvarint-pb_dec_uvarint_example =
    pb_enc_uvarint-pb_dec_uvarint env number 2000 16 env.mem 1000 cells int_size (omega arith)
      (omega arith)
  where
    int_size : is_int_size 4 ≡ true
    int_size = unfold is_int_size in refl
