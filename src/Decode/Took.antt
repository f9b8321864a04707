-- ===== src/Decode/Took.antt =====
-- What the decoder reads takes a byte at least.
use get_together.Common.{ℕ, ◌<◌, true, bit_and, ◌==◌, arith}
use get_together.IStream.{IStream, Read, ok, ◌>>=◌, pb_read, pb_readbyte}
use get_together.IStream.Safe.{
  IsSafe, Safe, Took, Took-bind, Safe-ok, Safe-if, Safe-pb_read, Safe-pb_readbyte, Took-pb_readbyte,
  Took-read_bytes, pb_read-read_bytes,
}
use get_together.Decode.{
  varint_loop, pb_decode_varint32, pb_decode_varint, pb_decode_svarint, pb_decode_fixed32,
  pb_decode_fixed64,
}
use get_together.Decode.Safe.{Safe-varint_loop, Safe-pb_decode_varint}

-- A read that takes a byte on success.
abbrev pub Consumes {ℓ} : {A : Type ℓ} → (IStream → Read A) → Type 0
Consumes read = (k : ℕ) (s : IStream) → IsSafe k s → Took s.bytes_left (read s)

Consumes-bind {ℓ κ} :
    {A : Type ℓ} {B : Type κ} (read : IStream → Read A) (f : A → IStream → Read B)
    → Safe read
    → Consumes read
    → ((a : A) → Safe (f a))
    → Consumes (λ s. read s >>= f)
Consumes-bind read f safe takes g k s h =
    Took-bind k s.bytes_left (read s) f (safe k s h) (takes k s h) (λ a s' h'. g a k s' h')

Took-pb_read : (count : ℕ) → 0 < count → Consumes (λ s. pb_read s true count)
Took-pb_read count pos k s h =
    rw (pb_read-read_bytes k s true count h) (Took-read_bytes k s count pos h)

pub Took-pb_decode_varint : Consumes pb_decode_varint
unfolding pb_decode_varint varint_loop
Took-pb_decode_varint = Consumes-bind pb_readbyte _ Safe-pb_readbyte Took-pb_readbyte λ byte.
    Safe-if (λ _. bit_and byte 0x80 == 0) (ok _) (λ s. varint_loop 64 10 7 _ s) (Safe-ok _)
      (Safe-varint_loop 64 10 7 _ (omega arith) (omega arith))

pub Took-pb_decode_varint32 : Consumes pb_decode_varint32
unfolding pb_decode_varint32
Took-pb_decode_varint32 = Consumes-bind pb_readbyte _ Safe-pb_readbyte Took-pb_readbyte λ byte.
    Safe-if (λ _. bit_and byte 0x80 == 0) (ok _) (λ s. varint_loop 32 5 7 _ s) (Safe-ok _)
      (Safe-varint_loop 32 5 7 _ (omega arith) (omega arith))

pub Took-pb_decode_svarint : Consumes pb_decode_svarint
unfolding pb_decode_svarint
Took-pb_decode_svarint =
    Consumes-bind pb_decode_varint _ Safe-pb_decode_varint Took-pb_decode_varint λ value. Safe-ok _

pub Took-pb_decode_fixed32 : Consumes pb_decode_fixed32
unfolding pb_decode_fixed32
Took-pb_decode_fixed32 =
    Consumes-bind (λ s. pb_read s true 4) _ (Safe-pb_read true 4) (Took-pb_read 4 (omega arith))
      λ bytes. Safe-ok _

pub Took-pb_decode_fixed64 : Consumes pb_decode_fixed64
unfolding pb_decode_fixed64
Took-pb_decode_fixed64 =
    Consumes-bind (λ s. pb_read s true 8) _ (Safe-pb_read true 8) (Took-pb_read 8 (omega arith))
      λ bytes. Safe-ok _
