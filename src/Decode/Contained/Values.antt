-- ===== src/Decode/Contained/Values.antt =====
-- Submessages, and the decoders of PB_DECODERS, write only into the field.
use get_together.Common.{ℕ, suc, ◌+◌, ◌≤◌, ◌≡◌, ◌≢◌, refl, Bool, ◌==◌, arith}
use get_together.Pb.{invalid_field_descriptor}
use get_together.Pb.Field.{
  LType, varint, uvarint, svarint, fixed32, fixed64, bytes, string, submessage, extension,
  fixed_length_bytes, Field,
}
use get_together.Memory.{Memory}
use get_together.IStream.{IStream}
use get_together.IStream.Safe.{IsSafe}
use get_together.Decode.Fields.{Decoded}
use get_together.Decode.Fields.Within.{Within, Within-error, Within-if, Within-widen}
use get_together.Decode.Fields.Numbers.{
  Within-pb_dec_varint, Within-pb_dec_uvarint, Within-pb_dec_svarint, Within-pb_dec_fixed32,
  Within-pb_dec_fixed64,
}
use get_together.Decode.Fields.Bounds.{
  Within-pb_dec_bytes, Within-pb_dec_string, Within-pb_dec_fixed_length_bytes,
}
use get_together.Decode.Env.{DecodeEnv}
use get_together.Decode.Items.{Decoder, is_repeated, pb_dec_submessage, pb_decoders}
use get_together.Decode.Substream.{Within-make_substream, Within-close}

-- The decoder of nested messages writes only into their structs, whatever stands in the buffer.
abbrev pub IsContained : DecodeEnv → Decoder → (ℕ → ℕ → Type 0) → Type 0
IsContained e decode inner =
    (init : Bool) (k : ℕ) (s : IStream) (p dest m : ℕ) (mem : Memory)
    → IsSafe k s
    → inner p m
    → Within k (suc s.bytes_left) mem dest m (decode init s (e.fields_at p) dest mem)

-- A decoder for a field that writes only into the field.
abbrev pub IsWithin : (IStream → Memory → Field → ℕ → Decoded) → Field → ℕ → Type 0
IsWithin func field m =
    (k : ℕ) (s : IStream) (mem : Memory) (dest : ℕ)
    → IsSafe k s
    → Within k s.bytes_left mem dest m (func s mem field dest)

module _ (e : DecodeEnv) (decode : Decoder) (inner : ℕ → ℕ → Type 0)
    (contained : IsContained e decode inner) (field : Field) where
  Within-pb_dec_submessage :
      inner field.ptr field.data_size → IsWithin (pb_dec_submessage e decode) field field.data_size
  unfolding pb_dec_submessage
  Within-pb_dec_submessage laid k s mem dest h =
      Within-make_substream k mem dest n mem s _ (λ x o. refl) h
        λ sub s' safe_sub safe lt.
          Within-if k s.bytes_left mem dest n (field.ptr == 0) _ _
            (λ _.
              Within-error k s.bytes_left mem dest n mem s' invalid_field_descriptor safe
                (omega arith) λ x o. refl)
            λ _. Within-close k s.bytes_left (suc sub.bytes_left) mem dest n s' _ safe lt (
              contained (is_repeated field.htype) (k + s'.bytes_left) sub field.ptr dest n mem
                safe_sub laid)
    where
      n : ℕ
      n = field.data_size

  -- What a field type asks of the field.
  pub IsWithin-pb_decoders :
      field.ltype ≢ extension
      → (field.ltype ≡ fixed32 → 4 ≤ field.data_size)
      → (field.ltype ≡ fixed64 → 8 ≤ field.data_size)
      → (field.ltype ≡ submessage → inner field.ptr field.data_size)
      → (t : LType) → field.ltype ≡ t
      → IsWithin (pb_decoders e decode t) field field.data_size
  unfolding pb_decoders
  IsWithin-pb_decoders plain four eight sub varint eq =
      λ k s mem dest h. Within-pb_dec_varint k s mem field dest h
  IsWithin-pb_decoders plain four eight sub uvarint eq =
      λ k s mem dest h. Within-pb_dec_uvarint k s mem field dest h
  IsWithin-pb_decoders plain four eight sub svarint eq =
      λ k s mem dest h. Within-pb_dec_svarint k s mem field dest h
  IsWithin-pb_decoders plain four eight sub fixed32 eq = λ k s mem dest h.
      Within-widen k s.bytes_left mem dest field.data_size mem s.bytes_left dest 4 _ (omega arith)
        (λ x o. ground (arith, four eq)) (λ x o. refl) (Within-pb_dec_fixed32 k s mem field dest h)
  IsWithin-pb_decoders plain four eight sub fixed64 eq = λ k s mem dest h.
      Within-widen k s.bytes_left mem dest field.data_size mem s.bytes_left dest 8 _ (omega arith)
        (λ x o. ground (arith, eight eq)) (λ x o. refl) (Within-pb_dec_fixed64 k s mem field dest h)
  IsWithin-pb_decoders plain four eight sub bytes eq =
      λ k s mem dest h. Within-pb_dec_bytes k s mem field dest h
  IsWithin-pb_decoders plain four eight sub string eq =
      λ k s mem dest h. Within-pb_dec_string k s mem field dest h
  IsWithin-pb_decoders plain four eight sub submessage eq = Within-pb_dec_submessage (sub eq)
  IsWithin-pb_decoders plain four eight sub extension eq = absurd (plain eq)
  IsWithin-pb_decoders plain four eight sub fixed_length_bytes eq =
      λ k s mem dest h. Within-pb_dec_fixed_length_bytes k s mem field dest h
