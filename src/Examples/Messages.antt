-- ===== src/Examples/Messages.antt =====
-- The theorems of the message decoder at a concrete message.
use get_together.Common.{
  ℕ, zero, suc, ◌+◌, ◌<◌, ◌≤◌, ◌≡◌, ◌⊎◌, inl, inr, refl, Bool, true, false, none, some, List, [],
  ◌∷◌, get_or, All, ltb, ltb→lt, if◌then◌else◌, Bool-cases, negsuc, pos, arith,
}
use get_together.Pb.Field.{uvarint, submessage, static, required, repeated, Field, last_field}
use get_together.Memory.{Memory}
use get_together.Iter.{pb_field_iter_begin, pb_field_iter_find, advance, size_in_struct}
use get_together.Iter.Nth.{IsDescriptors, nth}
use get_together.Iter.Find.{has_tag, pb_field_iter_find-nth}
use get_together.Iter.Required.{required_total}
use get_together.IStream.{IStream, buf_read}
use get_together.IStream.Safe.{IsSafe}
use get_together.Pb.{missing_required_field}
use get_together.Decode.Fields.{lost, dec_error}
use get_together.Decode.Errors.{pb_decode_noinit-empty}
use get_together.Decode.Fields.Within.{Within}
use get_together.Decode.Env.{DecodeEnv}
use get_together.Decode.Defaults.{pb_message_set_to_defaults}
use get_together.Decode.Message.{required_count, pb_decode, pb_decode_noinit, pb_decode_delimited}
use get_together.Decode.Required.{required_count-nth}
use get_together.Decode.Contained.{FieldFits, IsLaidOut}
use get_together.Decode.Contained.Frames.{Contained}
use get_together.Decode.Contained.Defaults.{Contained-pb_message_set_to_defaults}
use get_together.Decode.Contained.Message.{
  Within-pb_decode, Within-pb_decode_noinit, Within-pb_decode_delimited,
}
use get_together.Examples.{number}

-- `repeated uint32 numbers = 2;`, of at most three entries, their count in front.
abbrev numbers : Field
numbers = record {
  tag = 2;
  ltype = uvarint;
  htype = repeated;
  atype = static;
  data_offset = 4;
  size_offset = negsuc 3;
  data_size = 4;
  array_size = 3;
  ptr = 0;
}

-- `required Inner inner = 3;`, its descriptors at 100.
abbrev inner : Field
inner = record {
  tag = 3;
  ltype = submessage;
  htype = required;
  atype = static;
  data_offset = 0;
  size_offset = pos 0;
  data_size = 4;
  array_size = 0;
  ptr = 100;
}

abbrev fields : List Field
fields = number ∷ numbers ∷ inner ∷ []

abbrev env : DecodeEnv
env = record {
  fields_at = λ a. number ∷ [];
  callback_decode = λ f s mem field arg. lost;
  extension_decode = λ f s mem ext tag wire_type. lost;
}

abbrev mem : Memory
mem = λ a. 0

fields-IsDescriptors : IsDescriptors fields
fields-IsDescriptors = (omega arith, (omega arith, (omega arith, tt)))

number-FieldFits :
    (laid : ℕ → ℕ → Type 0) (dest n : ℕ)
    → 4 ≤ n
    → FieldFits laid dest n number (dest + 0) (dest + 0 + 0)
number-FieldFits laid dest n le = record {
  not_callback = λ h. cc;
  not_extension = λ h. cc;
  data_inside = (omega arith, omega arith);
  counted = λ h. elim h [ inl x ↦ cc | inr x ↦ cc ];
  marked = λ h. cc;
  four_bytes = λ h. cc;
  eight_bytes = λ h. cc;
  array_small = omega arith;
  submessage_inner = λ h. cc;
}

inner-FieldFits :
    (dest k : ℕ)
    → k < 1
    → FieldFits
        (λ p m. IsLaidOut env.fields_at 0 (env.fields_at p) m)
        dest
        4
        (get_or (number ∷ []) k last_field)
        (nth (number ∷ []) dest k).p_data
        (nth (number ∷ []) dest k).p_size
unfolding nth pb_field_iter_begin
inner-FieldFits dest zero lt = number-FieldFits _ dest 4 (omega arith)
inner-FieldFits dest (suc k) lt = absurd (omega arith)

inner-IsLaidOut : IsLaidOut env.fields_at 1 (number ∷ []) 4
unfolding IsLaidOut required_total
inner-IsLaidOut = ((omega arith, tt), inner-FieldFits, omega arith, omega arith)

fields-FieldFits :
    (dest k : ℕ)
    → k < 3
    → FieldFits
        (λ p m. IsLaidOut env.fields_at 1 (env.fields_at p) m)
        dest
        24
        (get_or fields k last_field)
        (nth fields dest k).p_data
        (nth fields dest k).p_size
unfolding nth pb_field_iter_begin advance size_in_struct
fields-FieldFits dest zero lt = number-FieldFits _ dest 24 (omega arith)
fields-FieldFits dest (suc zero) lt = record {
  not_callback = λ h. cc;
  not_extension = λ h. cc;
  data_inside = (omega arith, omega arith);
  counted = λ h. (omega arith, omega arith);
  marked = λ h. cc;
  four_bytes = λ h. cc;
  eight_bytes = λ h. cc;
  array_small = omega arith;
  submessage_inner = λ h. cc;
}
fields-FieldFits dest (suc (suc zero)) lt = record {
  not_callback = λ h. cc;
  not_extension = λ h. cc;
  data_inside = (omega arith, omega arith);
  counted = λ h. elim h [ inl x ↦ cc | inr x ↦ cc ];
  marked = λ h. cc;
  four_bytes = λ h. cc;
  eight_bytes = λ h. cc;
  array_small = omega arith;
  submessage_inner = λ h. inner-IsLaidOut;
}
fields-FieldFits dest (suc (suc (suc k))) lt = absurd (omega arith)

fields-IsLaidOut : IsLaidOut env.fields_at 2 fields 24
unfolding IsLaidOut required_total
fields-IsLaidOut = (fields-IsDescriptors, fields-FieldFits, omega arith, omega arith)

-- 300 for `number`, 1 and 2 packed for `numbers`, an unknown field, and 5 for `number` in `inner`.
abbrev message : IStream
message = record {
  callback = buf_read;
  state = 8 ∷ 172 ∷ 2 ∷ 18 ∷ 2 ∷ 1 ∷ 2 ∷ 40 ∷ 9 ∷ 26 ∷ 2 ∷ 8 ∷ 5 ∷ [];
  bytes_left = 13;
  errmsg = none;
}

abbrev all_bytes : List ℕ → Bool
all_bytes [] = true
all_bytes (b ∷ bs) = if ltb b 256 then all_bytes bs else false

are_bytes : (bs : List ℕ) → all_bytes bs ≡ true → All (λ b. b < 256) bs
are_bytes [] h = tt
are_bytes (b ∷ bs) h = elim (Bool-cases (ltb b 256)) [
  | inl e ↦ (ltb→lt b 256 e, are_bytes bs (rest b bs e h))
  | inr e ↦ absurd (never b bs e h)
]
  where
    rest :
        (b : ℕ) (bs : List ℕ) → ltb b 256 ≡ true → all_bytes (b ∷ bs) ≡ true → all_bytes bs ≡ true
    rest b bs e h = ground arith

    never : (b : ℕ) (bs : List ℕ) → ltb b 256 ≡ false → all_bytes (b ∷ bs) ≡ true → ⊥
    never b bs e h = ground arith

message-IsSafe : IsSafe 0 message
message-IsSafe = record {
  on_buffer = refl;
  enough = omega arith;
  are_bytes = are_bytes message.state refl;
}

-- A length of thirteen and the message.
abbrev delimited : IStream
delimited = record message { state = 13 ∷ message.state; bytes_left = 14 }

Within-pb_decode_noinit_example :
    Within 0 14 mem 1000 24 (pb_decode_noinit env 2 message fields 1000 mem)
Within-pb_decode_noinit_example =
    Within-pb_decode_noinit env 2 0 message fields 1000 24 mem message-IsSafe fields-IsLaidOut

delimited-IsSafe : IsSafe 0 delimited
delimited-IsSafe = record {
  on_buffer = refl;
  enough = omega arith;
  are_bytes = are_bytes delimited.state refl;
}

Within-pb_decode_example : Within 0 14 mem 1000 24 (pb_decode env 2 message fields 1000 mem)
Within-pb_decode_example =
    Within-pb_decode env 2 0 message fields 1000 24 mem message-IsSafe fields-IsLaidOut

Within-pb_decode_delimited_example :
    Within 0 14 mem 1000 24 (pb_decode_delimited env 2 delimited fields 1000 mem)
Within-pb_decode_delimited_example =
    Within-pb_decode_delimited env 2 0 delimited fields 1000 24 mem delimited-IsSafe
      fields-IsLaidOut

Contained-pb_message_set_to_defaults_example :
    Contained mem 1000 24 (pb_message_set_to_defaults env 2 fields 1000 mem)
Contained-pb_message_set_to_defaults_example =
    Contained-pb_message_set_to_defaults env 2 fields 1000 24 mem fields-IsLaidOut

required_count-nth_example : required_count (nth fields 1000 1) ≡ some 2
unfolding required_total
required_count-nth_example =
    required_count-nth fields 1000 fields-IsDescriptors 1 (omega arith) (omega arith)

pb_field_iter_find-nth_example :
    ((k : ℕ) × (k < 3)
      × (has_tag 3 (get_or fields k last_field) ≡ true)
      × (pb_field_iter_find (nth fields 1000 1) 3 ≡ some (nth fields 1000 k, true)))
    ⊎ ((pb_field_iter_find (nth fields 1000 1) 3 ≡ some (nth fields 1000 1, false))
        × ((k : ℕ) → k < 3 → has_tag 3 (get_or fields k last_field) ≡ false))
pb_field_iter_find-nth_example =
    pb_field_iter_find-nth fields 1000 1 3 fields-IsDescriptors (omega arith)

-- No bytes at all.
abbrev empty : IStream
empty = record { callback = buf_read; state = []; bytes_left = 0; errmsg = none }

pb_decode_noinit-empty_example :
    pb_decode_noinit env 2 empty fields 1000 mem ≡ dec_error mem empty missing_required_field
unfolding required_total
pb_decode_noinit-empty_example =
    pb_decode_noinit-empty env 1 empty fields 1000 mem fields-IsDescriptors (omega arith)
      (omega arith) (omega arith) refl
