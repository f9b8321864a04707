-- ===== src/Trip/Delimited.antt =====
-- A message with its length in front, encoded to a buffer and decoded in front of other bytes.
use native.Mathlib.Nat.{mod-eq_of_lt}
use native.Mathlib.Decide.{dec_le}
use get_together.Common.{
  ℕ, ◌+◌, ◌-◌, ◌%◌, ◌≤◌, ◌<◌, ◌≡◌, ◌⊎◌, inl, inr, refl, ap, ◌∙◌, true, some, List, ◌++◌, length,
  length-append, append_assoc, arith,
}
use get_together.Pb.{returns, size_mod, u32_mod}
use get_together.Pb.Field.{Field}
use get_together.Memory.{Memory, IsMemory}
use get_together.OStream.{OStream, pb_ostream_from_buffer}
use get_together.OStream.Emits.{Emits, push_bytes}
use get_together.IStream.{IStream, pb_istream_from_buffer}
use get_together.IStream.Reads.{Holds}
use get_together.Encode.Varint.{varint_bytes, varint_bytes-shape}
use get_together.Encode.Submessage.Uniform.{Emits-pb_encode_submessage}
use get_together.Encode.Env.{Env}
use get_together.Encode.Message.{pb_encode, pb_encode_delimited, pb_get_encoded_size}
use get_together.Encode.Message.Size.{size_of-Emits}
use get_together.Decode.{pb_close_string_substream, close_at}
use get_together.Decode.Values.{make_substream}
use get_together.Decode.Env.{DecodeEnv}
use get_together.Decode.Fields.{decoded, read_then}
use get_together.Decode.Fields.Within.{Frame}
use get_together.Decode.Items.{close_substream}
use get_together.Decode.Message.{pb_decode, pb_decode_delimited}
use get_together.Trip.Shape.{message_bound, IsFlat, HasValues, SameMessage}
use get_together.Trip.Nested.{flat-MessageCrosses}
use get_together.Trip.Whole.{ReadsMessage, flat-ReadsMessage}

-- The substream of the message, its decoding, and the stream behind it.
delimited_read :
    (d : DecodeEnv) (depth : ℕ) (fields : List Field) (dest : ℕ) (s : IStream) (mem mem' : Memory)
    (bs rest : List ℕ)
    → length bs < u32_mod
    → Holds s (varint_bytes (length bs) ++ (bs ++ rest))
    → length (varint_bytes (length bs)) + length bs ≤ s.bytes_left
    → pb_decode d depth (record s { state = bs ++ rest; bytes_left = length bs }) fields dest mem
      ≡ decoded true mem' (record s { state = rest; bytes_left = 0 })
    → pb_decode_delimited d depth s fields dest mem
      ≡ decoded true mem' (record s {
        state = rest;
        bytes_left = s.bytes_left - length (varint_bytes (length bs)) - length bs;
      })
unfolding pb_decode_delimited read_then close_substream pb_close_string_substream close_at
delimited_read d depth fields dest s mem mem' bs rest small holds left value =
    rw (make_substream (length bs) small s (bs ++ rest) holds left, value) refl

-- The message of the struct at `src` is that of the struct at `dest` after pb_encode_delimited to a
-- buffer of `max` bytes, and pb_decode_delimited of what it wrote with `tail` behind, which is left.
abbrev pub RestoredFrom :
    Env → DecodeEnv → ℕ → List Field → ℕ → ℕ → ℕ → Memory → ℕ → List ℕ → Type 0
RestoredFrom e d depth fields n src max mem dest tail =
    (s : OStream) × (mem' : Memory) × (pb_encode_delimited e depth fields src
        (pb_ostream_from_buffer max)
      ≡ returns true s)
    × (s.bytes_written ≤ max)
    × (pb_decode_delimited d depth
          (pb_istream_from_buffer (s.state ++ tail) (s.bytes_written + length tail)) fields dest mem
        ≡ decoded true mem' (pb_istream_from_buffer tail (length tail)))
    × Frame mem dest n mem'
    × SameMessage e.fields_at depth fields e.mem src mem' dest

restored_from :
    (e : Env) (d : DecodeEnv) (depth : ℕ) (fields : List Field) (n src max dest : ℕ) (mem : Memory)
    (tail bs : List ℕ)
    → Emits (λ s. pb_encode e depth fields src s) bs
    → ReadsMessage e d depth fields n src bs
    → max < u32_mod
    → length bs + 10 ≤ max
    → RestoredFrom e d depth fields n src max mem dest tail
unfolding pb_encode_delimited pb_ostream_from_buffer pb_istream_from_buffer
restored_from e d depth fields n src max dest mem tail bs emits reads small le =
    let front : List ℕ = varint_bytes (length bs) in
    let (all, some_byte, ten) = varint_bytes-shape (length bs) (omega arith) in
    let lengths : length (front ++ bs) ≡ length front + length bs = length-append front bs in
    let apart : (front ++ bs) ++ tail ≡ front ++ (bs ++ tail) = append_assoc front bs tail in
    let input : IStream =
      pb_istream_from_buffer ((front ++ bs) ++ tail) (0 + length (front ++ bs) + length tail) in
    let same_size : length bs % size_mod ≡ length bs = mod-eq_of_lt (omega arith) in
    let written : Emits (λ s. pb_encode_delimited e depth fields src s) (front ++ bs) =
      rw same_size at (Emits-pb_encode_submessage (pb_encode e depth fields src) bs emits) in
    let (mem', value, frame, same) =
      reads (record input { state = bs ++ tail; bytes_left = length bs }) mem dest tail
        (record { on_buffer = refl; holds = refl }) refl in
    (
      push_bytes (pb_ostream_from_buffer max) (front ++ bs),
      mem',
      written.fits (pb_ostream_from_buffer max) refl refl (omega arith)
          (omega (arith, lengths, ten)),
      omega (arith, lengths, ten),
      delimited_read d depth fields dest input mem mem' bs tail (omega arith)
            (record { on_buffer = refl; holds = apart }) (omega (arith, lengths)) value
          ∙ ap (λ (t : ℕ). decoded true mem' (record input { state = tail; bytes_left = t }))
              (omega (arith, lengths)),
      frame,
      same,
    )

-- A message is flat when its fields are static, no extensions, of sizes below 2^32 that go with
-- their types, each required, or optional with a has_ field in front of it, or optional without
-- a has_ field, no submessage and without an own default value, or an array of numbers with a
-- count of four bytes in front of it and of less than 2^32 entries and bytes, with different
-- tags from 1 below 2^29, its struct of `n` bytes holds one field behind the other, the
-- required fields are less than 64 and not 32, and its submessages are flat, nested less than
-- `depth` deep. It has values when the run of a bytes field that is there is within the field,
-- the string of a string field that is there ends within the field, and no count is larger than
-- its array. For a memory of bytes, a flat message with values in the struct at `src`, not at
-- 0, whose descriptors bound it below 2^64 bytes, which counts for a field ten bytes for the
-- key and ten and data_size for the value, for an array ten for the key, ten for the length and
-- ten and data_size for each of array_size entries, and for a submessage ten for the key, ten
-- for the length and its own bound, the same arrays of descriptors for both sides, a buffer of
-- `max` bytes below 2^32, a struct in any state at `dest` and any bytes `tail`: there is a
-- `size` that pb_get_encoded_size gives, and unless the buffer is smaller than `size` and ten
-- bytes, pb_encode_delimited on the buffer returns true within it, and pb_decode_delimited of
-- what it wrote with `tail` behind returns true, leaves exactly `tail`, changes no byte of
-- memory outside of the struct at `dest`, and that struct holds the same message as the one at
-- `src`: each optional field with a has_ field is there or not as in the other, and the fields
-- that are there have the same value, byte by byte, each array has as many entries as the
-- other, the same ones, and so in submessages.
pub pb_encode_delimited-pb_decode_delimited :
    (e : Env) (d : DecodeEnv) (depth : ℕ) (fields : List Field) (n src max dest : ℕ) (mem : Memory)
    (tail : List ℕ)
    → IsMemory e.mem
    → d.fields_at ≡ e.fields_at
    → 0 < src
    → IsFlat e.fields_at depth fields n
    → HasValues e.fields_at depth e.mem fields src
    → message_bound e.fields_at depth fields < size_mod
    → max < u32_mod
    → (size : ℕ) × (pb_get_encoded_size e depth fields src ≡ some (true, some size))
      × ((max < size + 10) ⊎ RestoredFrom e d depth fields n src max mem dest tail)
unfolding pb_encode_delimited pb_ostream_from_buffer pb_istream_from_buffer
pb_encode_delimited-pb_decode_delimited e d depth fields n src max dest mem tail cells shared
      some_src flat values few small =
    let c =
      flat-MessageCrosses e cells d (λ p i. shared i p) depth fields n src some_src flat values in
    let (bs, bounded, emits, reads) = c in
    let (size, fills) = size_of-Emits e depth fields src bs emits (omega arith) in
    (
      length bs,
      size,
      elim (dec_le (length bs + 10) max) [
        | no over ↦ inl (omega arith)
        | yes le ↦ inr (
            restored_from e d depth fields n src max dest mem tail bs emits
              (flat-ReadsMessage e d depth fields n src shared flat c (omega arith)) small le)
      ],
    )
