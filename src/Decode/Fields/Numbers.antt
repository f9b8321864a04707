-- ===== src/Decode/Fields/Numbers.antt =====
-- The decoders of numbers write only into the field, and take a byte at least.
use get_together.Common.{ℕ, ◌<◌, refl, true, ◌==◌, arith}
use get_together.Pb.Field.{Field}
use get_together.Memory.{Memory}
use get_together.IStream.{IStream, Read}
use get_together.IStream.Safe.{IsSafe, Safe}
use get_together.Decode.{pb_decode_varint, pb_decode_svarint, pb_decode_fixed32, pb_decode_fixed64}
use get_together.Decode.Safe.{
  Safe-pb_decode_varint, Safe-pb_decode_svarint, Safe-pb_decode_fixed32, Safe-pb_decode_fixed64,
}
use get_together.Decode.Took.{
  Consumes, Took-pb_decode_varint, Took-pb_decode_svarint, Took-pb_decode_fixed32,
  Took-pb_decode_fixed64,
}
use get_together.Decode.Fields.{
  Decoded, read_then, is_int_size, store_int, pb_dec_varint, pb_dec_uvarint, pb_dec_svarint,
  pb_dec_fixed32, pb_dec_fixed64,
}
use get_together.Decode.Fields.Within.{
  Within, store-Outside, Within-error, Within-decoded, Within-if, Within-read_then,
}

module _ (k : ℕ) where
  Within-store_int :
      (left : ℕ) (clamp : ℕ → ℕ) (mem : Memory) (field : Field) (dest value : ℕ) (s : IStream)
      → IsSafe k s
      → s.bytes_left < left
      → Within k left mem dest field.data_size (store_int clamp mem field dest value s)
  unfolding store_int
  Within-store_int left clamp mem field dest value s h lt =
      Within-if k left mem dest n (is_int_size field.data_size) _ _
        (λ _.
          Within-if k left mem dest n (clamp value == value) _ _
            (λ _. Within-decoded k left mem dest n _ true s h lt (store-Outside mem dest n value))
            λ _.
              Within-error k left mem dest n _ s _ h (omega arith) (store-Outside mem dest n value))
        λ _. Within-error k left mem dest n mem s _ h (omega arith) λ x o. refl
    where
      n : ℕ
      n = field.data_size

  -- A read that takes a byte, and what is done with what it gives.
  pub Within-head {ℓ} :
      {A : Type ℓ} (read : IStream → Read A) (mem : Memory) (dest n : ℕ) (f : A → IStream → Decoded)
      → Safe read
      → Consumes read
      → (s : IStream) → IsSafe k s
      → ((a : A) (s' : IStream)
          → IsSafe k s'
          → s'.bytes_left < s.bytes_left
          → Within k s.bytes_left mem dest n (f a s'))
      → Within k s.bytes_left mem dest n (read_then mem (read s) f)
  Within-head read mem dest n f safe takes s h g =
      Within-read_then k s.bytes_left mem dest n mem s.bytes_left (read s) f (omega arith)
        (safe k s h) (takes k s h) (λ x o. refl) g

  -- pb_dec_varint, on a stream over a buffer of bytes that holds bytes_left bytes and `k` more,
  -- whatever they are, ends, reads no byte outside of the buffer, leaves a stream whose buffer
  -- holds its bytes_left bytes, which are fewer than before if it returns true, and the `k`
  -- more, and changes no byte of memory outside of the data_size bytes of the field at `dest`.
  pub Within-pb_dec_varint :
      (s : IStream) (mem : Memory) (field : Field) (dest : ℕ)
      → IsSafe k s
      → Within k s.bytes_left mem dest field.data_size (pb_dec_varint s mem field dest)
  unfolding pb_dec_varint
  Within-pb_dec_varint s mem field dest h =
      Within-head pb_decode_varint mem dest field.data_size _ Safe-pb_decode_varint
        Took-pb_decode_varint s h
        λ value s' safe lt. Within-store_int s.bytes_left _ mem field dest _ s' safe lt

  pub Within-pb_dec_uvarint :
      (s : IStream) (mem : Memory) (field : Field) (dest : ℕ)
      → IsSafe k s
      → Within k s.bytes_left mem dest field.data_size (pb_dec_uvarint s mem field dest)
  unfolding pb_dec_uvarint
  Within-pb_dec_uvarint s mem field dest h =
      Within-head pb_decode_varint mem dest field.data_size _ Safe-pb_decode_varint
        Took-pb_decode_varint s h
        λ value s' safe lt. Within-store_int s.bytes_left _ mem field dest _ s' safe lt

  pub Within-pb_dec_svarint :
      (s : IStream) (mem : Memory) (field : Field) (dest : ℕ)
      → IsSafe k s
      → Within k s.bytes_left mem dest field.data_size (pb_dec_svarint s mem field dest)
  unfolding pb_dec_svarint
  Within-pb_dec_svarint s mem field dest h =
      Within-head pb_decode_svarint mem dest field.data_size _ Safe-pb_decode_svarint
        Took-pb_decode_svarint s h
        λ value s' safe lt. Within-store_int s.bytes_left _ mem field dest _ s' safe lt

  pub Within-pb_dec_fixed32 :
      (s : IStream) (mem : Memory) (field : Field) (dest : ℕ)
      → IsSafe k s
      → Within k s.bytes_left mem dest 4 (pb_dec_fixed32 s mem field dest)
  unfolding pb_dec_fixed32
  Within-pb_dec_fixed32 s mem field dest h =
      Within-head pb_decode_fixed32 mem dest 4 _ Safe-pb_decode_fixed32 Took-pb_decode_fixed32 s h
        λ value s' safe lt.
          Within-decoded k s.bytes_left mem dest 4 _ true s' safe lt
            (store-Outside mem dest 4 value)

  pub Within-pb_dec_fixed64 :
      (s : IStream) (mem : Memory) (field : Field) (dest : ℕ)
      → IsSafe k s
      → Within k s.bytes_left mem dest 8 (pb_dec_fixed64 s mem field dest)
  unfolding pb_dec_fixed64
  Within-pb_dec_fixed64 s mem field dest h =
      Within-head pb_decode_fixed64 mem dest 8 _ Safe-pb_decode_fixed64 Took-pb_decode_fixed64 s h
        λ value s' safe lt.
          Within-decoded k s.bytes_left mem dest 8 _ true s' safe lt
            (store-Outside mem dest 8 value)
