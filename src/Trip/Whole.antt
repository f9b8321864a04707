-- ===== src/Trip/Whole.antt =====
-- A message that is encoded to a buffer and decoded from it.
use native.Mathlib.Decide.{dec_le}
use get_together.Common.{
  ◌≤◌, ℕ, zero, suc, ◌<◌, ◌≡◌, ◌⊎◌, inl, inr, refl, ◌∙◌, sym, true, false, some, List, [], ◌++◌,
  length, append-nil, arith,
}
use get_together.Pb.{returns, size_mod, u32_mod}
use get_together.Pb.Field.{Field}
use get_together.Memory.{Memory, IsMemory}
use get_together.OStream.{OStream, pb_ostream_from_buffer}
use get_together.IStream.{IStream, pb_istream_from_buffer}
use get_together.IStream.Reads.{Holds}
use get_together.Encode.Env.{Env}
use get_together.Encode.Message.{pb_encode, pb_get_encoded_size}
use get_together.Encode.Message.Size.{FillsBuffers, size_of-Emits}
use get_together.Decode.Env.{DecodeEnv}
use get_together.Decode.Fields.{decoded, lost}
use get_together.Decode.Fields.Within.{Frame}
use get_together.Decode.Defaults.{pb_message_set_to_defaults}
use get_together.Decode.Contained.Frames.{Frame-trans}
use get_together.Decode.Message.{decode_message, pb_decode}
use get_together.Trip.Shape.{message_bound, IsFlat, HasValues, SameMessage}
use get_together.Trip.Blank.{flat-Blanks}
use get_together.Trip.Messages.{MessageCrosses}
use get_together.Trip.Nested.{flat-MessageCrosses}

decode-defaults :
    (d : DecodeEnv) (depth : ℕ) (s : IStream) (fields : List Field) (dest : ℕ) (mem mem' : Memory)
    → pb_message_set_to_defaults d depth fields dest mem ≡ some mem'
    → pb_decode d depth s fields dest mem ≡ decode_message d depth false s fields dest mem'
unfolding pb_decode decode_message
decode-defaults d zero s fields dest mem mem' e = refl
decode-defaults d (suc depth) s fields dest mem mem' e = rw e refl

-- What pb_decode makes of the bytes of a message, with the struct in any state, in front of any
-- bytes.
abbrev pub ReadsMessage : Env → DecodeEnv → ℕ → List Field → ℕ → ℕ → List ℕ → Type 0
ReadsMessage e d depth fields n src bs =
    (s : IStream) (mem : Memory) (dest : ℕ) (tail : List ℕ)
    → Holds s (bs ++ tail)
    → s.bytes_left ≡ length bs
    → (mem' : Memory) × (pb_decode d depth s fields dest mem
        ≡ decoded true mem' (record s { state = tail; bytes_left = 0 }))
      × Frame mem dest n mem'
      × SameMessage e.fields_at depth fields e.mem src mem' dest

pub flat-ReadsMessage :
    (e : Env) (d : DecodeEnv) (depth : ℕ) (fields : List Field) (n src : ℕ)
    → d.fields_at ≡ e.fields_at
    → IsFlat e.fields_at depth fields n
    → (c : MessageCrosses e d depth fields n src) → length c.0 < u32_mod
    → ReadsMessage e d depth fields n src c.0
flat-ReadsMessage e d depth fields n src shared flat (bs, bounded, emits, reads) small s mem dest
      tail holds left =
    let (start, eq, frame, blank) = flat-Blanks d depth fields n dest mem (rw shared flat) in
    let (mem', value, frame', same) =
      reads small s start dest tail (rw⁻¹ shared blank) holds left in
    (
      mem',
      decode-defaults d depth s fields dest mem start eq ∙ value,
      Frame-trans mem start mem' dest n frame frame',
      same,
    )

-- The message of the struct at `src` is that of the struct at `dest` after pb_encode to a buffer of
-- `max` bytes, with `size` bytes written, and pb_decode of what it wrote.
abbrev pub Restored : Env → DecodeEnv → ℕ → List Field → ℕ → ℕ → ℕ → ℕ → Memory → ℕ → Type 0
Restored e d depth fields n src size max mem dest =
    (s : OStream) × (mem' : Memory) × (pb_encode e depth fields src (pb_ostream_from_buffer max)
      ≡ returns true s)
    × (s.bytes_written ≡ size)
    × (pb_decode d depth (pb_istream_from_buffer s.state s.bytes_written) fields dest mem
        ≡ decoded true mem' (pb_istream_from_buffer [] 0))
    × Frame mem dest n mem'
    × SameMessage e.fields_at depth fields e.mem src mem' dest

-- A decoder for the descriptors of an encoder, without callbacks.
abbrev same_fields : Env → DecodeEnv
same_fields e = record {
  fields_at = e.fields_at;
  callback_decode = λ f s mem field arg. lost;
  extension_decode = λ f s mem ext tag wire_type. lost;
}

-- A message is flat when its fields are static, no extensions, of sizes below 2^32 that go with
-- their types, each required, or optional with a has_ field in front of it, or optional without
-- a has_ field, no submessage and without an own default value, or an array of numbers with a
-- count of four bytes in front of it and of less than 2^32 entries and bytes, with different
-- tags from 1 below 2^29, its struct of `n` bytes holds one field behind the other, the
-- required fields are less than 64 and not 32, and its submessages are flat, nested less than
-- `depth` deep. It has values when the run of a bytes field that is there is within the field,
-- the string of a string field that is there ends within the field, and no count is larger than
-- its array. For a memory of bytes, a flat message with values in the struct at `src`, not at
-- 0, whose descriptors bound it below 2^64 bytes, which counts for a field ten bytes for the
-- key and ten and data_size for the value, for an array ten for the key, ten for the length and
-- ten and data_size for each of array_size entries, and for a submessage ten for the key, ten
-- for the length and its own bound, the same arrays of descriptors for both sides, a buffer of
-- `max` bytes below 2^32 and a struct in any state at `dest`: there is a `size` that
-- pb_get_encoded_size gives, and if the buffer is smaller pb_encode on it returns false, and
-- else pb_encode on the buffer returns true with `size` bytes written, and pb_decode of what it
-- wrote returns true, leaves nothing, changes no byte of memory outside of the struct at
-- `dest`, and that struct holds the same message as the one at `src`: each optional field with
-- a has_ field is there or not as in the other, and the fields that are there have the same
-- value, byte by byte, each array has as many entries as the other, the same ones, and so in
-- submessages.
pub pb_encode-pb_decode :
    (e : Env) (d : DecodeEnv) (depth : ℕ) (fields : List Field) (n src max dest : ℕ) (mem : Memory)
    → IsMemory e.mem
    → d.fields_at ≡ e.fields_at
    → 0 < src
    → IsFlat e.fields_at depth fields n
    → HasValues e.fields_at depth e.mem fields src
    → message_bound e.fields_at depth fields < size_mod
    → max < u32_mod
    → (size : ℕ) × (pb_get_encoded_size e depth fields src ≡ some (true, some size))
      × (((max < size)
            × (s : OStream) × (pb_encode e depth fields src (pb_ostream_from_buffer max)
                ≡ returns false s))
          ⊎ Restored e d depth fields n src size max mem dest)
unfolding pb_ostream_from_buffer pb_istream_from_buffer
pb_encode-pb_decode e d depth fields n src max dest mem cells shared some_src flat values few
      small =
    let c =
      flat-MessageCrosses e cells d (λ p i. shared i p) depth fields n src some_src flat values in
    let (bs, bounded, emits, reads) = c in
    let (size, (fits, full)) = size_of-Emits e depth fields src bs emits (omega arith) in
    (
      length bs,
      size,
      elim (dec_le (length bs) max) [
        | no over ↦ let (s, refused) = full max (omega arith) in inl (omega arith, s, refused)
        | yes le ↦
            let (mem', value, frame, same) =
              flat-ReadsMessage e d depth fields n src shared flat c (omega arith)
                (pb_istream_from_buffer bs (length bs)) mem dest []
                (record { on_buffer = refl; holds = sym (append-nil bs) }) refl in
            inr (
              record (pb_ostream_from_buffer max) { state = bs; bytes_written = length bs },
              mem',
              fits max (omega arith) le,
              refl,
              value,
              frame,
              same,
            )
      ],
    )

-- A message is flat when its fields are static, no extensions, of sizes below 2^32 that go with
-- their types, each required, or optional with a has_ field in front of it, or optional without
-- a has_ field, no submessage and without an own default value, or an array of numbers with a
-- count of four bytes in front of it and of less than 2^32 entries and bytes, with different
-- tags from 1 below 2^29, its struct of `n` bytes holds one field behind the other, the
-- required fields are less than 64 and not 32, and its submessages are flat, nested less than
-- `depth` deep. It has values when the run of a bytes field that is there is within the field,
-- the string of a string field that is there ends within the field, and no count is larger than
-- its array. For a memory of bytes and a flat message with values in the struct at `src`, not
-- at 0, whose descriptors bound it below 2^64 bytes, which counts for a field ten bytes for the
-- key and ten and data_size for the value, for an array ten for the key, ten for the length and
-- ten and data_size for each of array_size entries, and for a submessage ten for the key, ten
-- for the length and its own bound: the message has some bytes `bs`, not more than the bound.
-- pb_get_encoded_size returns true with exactly their number; for each buffer of at least that
-- size and below 2^64, pb_encode returns true and writes exactly `bs`, and for each smaller
-- buffer it returns false.
pub pb_get_encoded_size-pb_encode :
    (e : Env) (depth : ℕ) (fields : List Field) (n src : ℕ)
    → IsMemory e.mem
    → 0 < src
    → IsFlat e.fields_at depth fields n
    → HasValues e.fields_at depth e.mem fields src
    → message_bound e.fields_at depth fields < size_mod
    → (bs : List ℕ) × (length bs ≤ message_bound e.fields_at depth fields)
      × (pb_get_encoded_size e depth fields src ≡ some (true, some (length bs)))
      × FillsBuffers e depth fields src bs
pb_get_encoded_size-pb_encode e depth fields n src cells some_src flat values few =
    let (bs, bounded, emits, reads) =
      flat-MessageCrosses e cells (same_fields e) (λ p. refl) depth fields n src some_src flat
        values in
    let (size, filled) = size_of-Emits e depth fields src bs emits (omega arith) in
    (bs, bounded, size, filled)
