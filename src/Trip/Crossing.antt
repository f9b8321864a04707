-- ===== src/Trip/Crossing.antt =====
-- One field from a struct to bytes and to another struct.
use get_together.Common.{ℕ, ◌+◌, ◌≤◌, ◌<◌, ◌≡◌, ◌≢◌, refl, true, some, List, ◌++◌, length, arith}
use get_together.Pb.{u32_mod}
use get_together.Pb.Field.{
  is_packable, LType, varint, uvarint, svarint, fixed32, fixed64, bytes, string, submessage,
  extension, fixed_length_bytes, static, Field, WireType, wire_code,
}
use get_together.Memory.{Memory, IsMemory}
use get_together.OStream.Emits.{Action, Emits}
use get_together.IStream.{IStream}
use get_together.IStream.Reads.{Holds, after}
use get_together.Encode.{wire_type_for}
use get_together.Encode.Env.{Env}
use get_together.Encode.Fields.{pb_encoders, pb_enc_submessage}
use get_together.Decode.Env.{DecodeEnv}
use get_together.Decode.Fields.{Decoded, decoded}
use get_together.Decode.Fields.Within.{Frame}
use get_together.Decode.Items.{Decoder, pb_decoders, pb_dec_submessage}
use get_together.Decode.Values.{IsProto}
use get_together.Trip.Cells.{SameBytes}
use get_together.Trip.Values.{
  Carries, Carries-varint, Carries-uvarint, Carries-svarint, Carries-fixed32, Carries-fixed64,
}
use get_together.Trip.Runs.{Carries-bytes, Carries-string, Carries-fixed_length_bytes}
use get_together.Trip.Shape.{value_bound, IsTyped, HasValue, SameValue, BlankValue}

-- An encoder writes certain bytes, and a decoder reads them into a memory that is `Ready` at the
-- place: there, within `size` bytes, `Same` holds afterwards. Lengths are read as uint32_t.
pub record Crosses (act : Action) (read : IStream → Memory → ℕ → Decoded) (size : ℕ)
    (Ready Same : Memory → ℕ → Type 0) : Type 0 where
  pub value_bytes : List ℕ
  pub emits : Emits act value_bytes
  pub reads :
      length value_bytes < u32_mod
      → (s : IStream) (mem : Memory) (q : ℕ) (rest : List ℕ) → Ready mem q
      → Holds s (value_bytes ++ rest)
      → length value_bytes ≤ s.bytes_left
      → (mem' : Memory) × (read s mem q ≡ decoded true mem' (after s (length value_bytes) rest))
        × Frame mem q size mem'
        × Same mem' q

Carries-Crosses :
    {act : Action} {read : IStream → Memory → ℕ → Decoded} {size : ℕ}
    {Ready Same : Memory → ℕ → Type 0}
    → Carries act read size Same
    → (c : Crosses act read size Ready Same) × (length c.value_bytes ≤ 10 + size)
Carries-Crosses c = (
  record {
    value_bytes = c.bytes;
    emits = c.emits;
    reads = λ small s mem q rest ready holds left. c.reads small s mem q rest holds left;
  },
  c.bounded,
)

-- The numbers of fixed width.
abbrev pub HasWidth : LType → List ℕ → Type 0
HasWidth fixed32 bs = length bs ≡ 4
HasWidth fixed64 bs = length bs ≡ 8
HasWidth _ bs = Unit {0}

module _ (e : Env) (cells : IsMemory e.mem) (encode : List Field → ℕ → Action) (d : DecodeEnv)
    (decode : Decoder) (field : Field) (p : ℕ) where
  -- What the field crosses with when its type is `t`.
  abbrev pub ValueCrosses :
      (Memory → ℕ → ℕ → Type 0) → (Memory → ℕ → ℕ → ℕ → Type 0) → LType → Type 0
  ValueCrosses blank same t =
      Crosses (λ s. pb_encoders e encode t s field p)
        (λ s mem q. pb_decoders d decode t s mem field q) field.data_size
        (λ mem q. BlankValue (blank mem) t field q)
        (λ mem q. SameValue (same mem) t field e.mem p mem q)

  pub typed-Crosses :
      (most : ℕ → ℕ) (inner has : ℕ → ℕ → Type 0) (blank : Memory → ℕ → ℕ → Type 0)
      (same : Memory → ℕ → ℕ → ℕ → Type 0) (t : LType)
      → field.atype ≡ static
      → field.data_size < u32_mod
      → 0 < p
      → (field.ptr ≢ 0
          → inner field.ptr field.data_size
          → has field.ptr p
          → (c : Crosses
              (λ s. pb_enc_submessage e encode s field p)
              (λ s mem q. pb_dec_submessage d decode s mem field q)
              field.data_size
              (λ mem q. blank mem field.ptr q)
              (λ mem q. same mem field.ptr p q))
            × (length c.value_bytes ≤ 10 + most field.ptr))
      → IsTyped inner t field
      → HasValue has t e.mem field p
      → (c : ValueCrosses blank same t) × (length c.value_bytes ≤ value_bound most t field)
  unfolding value_bound IsTyped HasValue SameValue BlankValue pb_encoders pb_decoders
  typed-Crosses most inner has blank same varint kept narrow some_p sub typed value =
      Carries-Crosses (Carries-varint e cells field p typed)
  typed-Crosses most inner has blank same uvarint kept narrow some_p sub typed value =
      Carries-Crosses (Carries-uvarint e cells field p typed)
  typed-Crosses most inner has blank same svarint kept narrow some_p sub typed value =
      Carries-Crosses (Carries-svarint e cells field p typed)
  typed-Crosses most inner has blank same fixed32 kept narrow some_p sub typed value =
      Carries-Crosses ((Carries-fixed32 e cells field p typed).0)
  typed-Crosses most inner has blank same fixed64 kept narrow some_p sub typed value =
      Carries-Crosses ((Carries-fixed64 e cells field p typed).0)
  typed-Crosses most inner has blank same bytes kept narrow some_p sub typed value =
      Carries-Crosses (Carries-bytes e cells field p kept some_p value)
  typed-Crosses most inner has blank same string kept narrow some_p sub typed value =
      Carries-Crosses (Carries-string e cells field p kept some_p narrow value)
  typed-Crosses most inner has blank same submessage kept narrow some_p sub (some_ptr, flat) value =
      sub some_ptr flat value
  typed-Crosses most inner has blank same extension kept narrow some_p sub typed value =
      absurd typed
  typed-Crosses most inner has blank same fixed_length_bytes kept narrow some_p sub typed value =
      Carries-Crosses (Carries-fixed_length_bytes e cells field p typed narrow)

  -- An entry of an array of numbers.
  abbrev pub EntryCarries : LType → Type 0
  EntryCarries t =
      (c : Carries (λ s. pb_encoders e encode t s field p)
        (λ s mem q. pb_decoders d decode t s mem field q) field.data_size
        (λ mem q. SameBytes e.mem p mem q field.data_size))
      × HasWidth t c.bytes

  pub packable-EntryCarries :
      (inner : ℕ → ℕ → Type 0) (t : LType)
      → is_packable t ≡ true
      → IsTyped inner t field
      → EntryCarries t
  unfolding IsTyped pb_encoders pb_decoders is_packable
  packable-EntryCarries inner varint packed typed = (Carries-varint e cells field p typed, tt)
  packable-EntryCarries inner uvarint packed typed = (Carries-uvarint e cells field p typed, tt)
  packable-EntryCarries inner svarint packed typed = (Carries-svarint e cells field p typed, tt)
  packable-EntryCarries inner fixed32 packed typed = Carries-fixed32 e cells field p typed
  packable-EntryCarries inner fixed64 packed typed = Carries-fixed64 e cells field p typed
  packable-EntryCarries inner _ packed typed = cc

-- Each of these types has a wire type.
pub typed_wire :
    (inner : ℕ → ℕ → Type 0) (field : Field) (t : LType)
    → IsTyped inner t field
    → (w : WireType) × (wire_type_for t ≡ some w) × IsProto w × (wire_code w < 8)
unfolding IsTyped wire_type_for wire_code
typed_wire inner field extension h = absurd h
typed_wire inner field varint h = (_, refl, tt, omega arith)
typed_wire inner field uvarint h = (_, refl, tt, omega arith)
typed_wire inner field svarint h = (_, refl, tt, omega arith)
typed_wire inner field fixed32 h = (_, refl, tt, omega arith)
typed_wire inner field fixed64 h = (_, refl, tt, omega arith)
typed_wire inner field bytes h = (_, refl, tt, omega arith)
typed_wire inner field string h = (_, refl, tt, omega arith)
typed_wire inner field submessage h = (_, refl, tt, omega arith)
typed_wire inner field fixed_length_bytes h = (_, refl, tt, omega arith)
