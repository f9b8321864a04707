-- ===== src/Examples/Trips.antt =====
-- A concrete message that is encoded and decoded.
use get_together.Common.{
  false, ◌≤◌, length, ℕ, zero, suc, ◌+◌, ◌<◌, ◌≡◌, ◌⊎◌, inl, inr, refl, true, some, List, [], ◌∷◌,
  get_or, negsuc, pos, ◌==◌, if◌then◌else◌, arith,
}
use get_together.Pb.Field.{
  is_packable, uvarint, svarint, string, submessage, static, required, optional, repeated, Field,
  last_field,
}
use get_together.Memory.{Memory, IsMemory, load, string_length}
use get_together.Iter.{pb_field_iter_begin, advance, size_in_struct}
use get_together.Iter.Nth.{nth}
use get_together.Iter.Required.{required_total}
use get_together.Encode.Env.{Env}
use get_together.Encode.Message.{pb_encode, pb_get_encoded_size}
use get_together.Pb.{size_mod, stuck, returns}
use get_together.OStream.{OStream, pb_ostream_from_buffer}
use get_together.Encode.Message.Size.{FillsBuffers}
use get_together.Decode.Env.{DecodeEnv}
use get_together.Decode.Fields.{lost, is_int_size}
use get_together.Trip.Shape.{
  value_bound, field_bound, total, message_bound, IsTyped, IsField, IsFlat, IsPresent, HasValue,
  HasValues,
}
use get_together.Trip.Blank.{Blanks, flat-Blanks}
use get_together.Trip.Whole.{Restored, pb_get_encoded_size-pb_encode, pb_encode-pb_decode}
use get_together.Trip.Delimited.{RestoredFrom, pb_encode_delimited-pb_decode_delimited}
use get_together.Examples.{number}

-- `optional sint32 change = 2;`, four bytes behind its `has_change`.
abbrev change : Field
change = record {
  tag = 2;
  ltype = svarint;
  htype = optional;
  atype = static;
  data_offset = 4;
  size_offset = negsuc 3;
  data_size = 4;
  array_size = 0;
  ptr = 0;
}

-- `required string name = 3;`, of at most four bytes.
abbrev name : Field
name = record {
  tag = 3;
  ltype = string;
  htype = required;
  atype = static;
  data_offset = 0;
  size_offset = pos 0;
  data_size = 4;
  array_size = 0;
  ptr = 0;
}

-- `required Inner inner = 4;`, its descriptors at 100.
abbrev inner : Field
inner = record {
  tag = 4;
  ltype = submessage;
  htype = required;
  atype = static;
  data_offset = 0;
  size_offset = pos 0;
  data_size = 4;
  array_size = 0;
  ptr = 100;
}

-- `repeated uint32 numbers = 5;`, at most three, four bytes behind `numbers_count`.
abbrev numbers : Field
numbers = record {
  tag = 5;
  ltype = uvarint;
  htype = repeated;
  atype = static;
  data_offset = 4;
  size_offset = negsuc 3;
  data_size = 4;
  array_size = 3;
  ptr = 0;
}

-- `uint32 level = 6;` of proto3, without a `has_` field.
abbrev level : Field
level = record {
  tag = 6;
  ltype = uvarint;
  htype = optional;
  atype = static;
  data_offset = 0;
  size_offset = pos 0;
  data_size = 4;
  array_size = 0;
  ptr = 0;
}

abbrev fields : List Field
fields = number ∷ change ∷ name ∷ inner ∷ numbers ∷ level ∷ []

-- The struct at 1000: 300, that there is a change, -3, "hi", 7, the numbers 8 and 9, and level 0.
abbrev mem : Memory
mem a =
    if a == 1000
    then 44
    else if a == 1001
    then 1
    else if a == 1004
    then 1
    else if a == 1008
    then 253
    else if a == 1009
    then 255
    else if a == 1010
    then 255
    else if a == 1011
    then 255
    else if a == 1012
    then 104
    else if a == 1013
    then 105
    else if a == 1016
    then 7
    else if a == 1020
    then 2
    else if a == 1024
    then 8
    else if a == 1028
    then 9
    else 0

cells : IsMemory mem
cells a = ground arith

abbrev env : Env
env = record {
  mem = mem;
  fields_at = λ a. number ∷ [];
  callback_encode = λ f s field arg. stuck;
  extension_encode = λ f s ext. stuck;
}

abbrev decode_env : DecodeEnv
decode_env = record {
  fields_at = λ a. number ∷ [];
  callback_decode = λ f s mem field arg. lost;
  extension_decode = λ f s mem ext tag wire_type. lost;
}

number-IsField : (inner : ℕ → ℕ → Type 0) → IsField inner number
unfolding IsTyped is_int_size
number-IsField inner = record {
  kept = refl;
  tag_some = omega arith;
  tag_small = omega arith;
  narrow = omega arith;
  marked = inl refl;
  typed = refl;
}

one-IsFlat : IsFlat env.fields_at 1 (number ∷ []) 4
unfolding IsFlat required_total
one-IsFlat = (
  (λ k lt. only k lt),
  (λ j k ltj ltk e. omega arith),
  omega arith,
  omega arith,
  λ e. omega arith,
)
  where
    only :
        (k : ℕ)
        → k < 1
        → IsField
            (λ p m. IsFlat env.fields_at 0 (env.fields_at p) m)
            (get_or (number ∷ []) k last_field)
    only zero lt = number-IsField _
    only (suc k) lt = absurd (omega arith)

fields-IsField :
    (k : ℕ)
    → k < 6
    → IsField (λ p m. IsFlat env.fields_at 1 (env.fields_at p) m) (get_or fields k last_field)
unfolding IsTyped is_int_size is_packable
fields-IsField zero lt = number-IsField _
fields-IsField (suc zero) lt = record {
  kept = refl;
  tag_some = omega arith;
  tag_small = omega arith;
  narrow = omega arith;
  marked = inr (inl (refl, (3, refl, omega arith, omega arith)));
  typed = refl;
}
fields-IsField (suc (suc zero)) lt = record {
  kept = refl;
  tag_some = omega arith;
  tag_small = omega arith;
  narrow = omega arith;
  marked = inl refl;
  typed = tt;
}
fields-IsField (suc (suc (suc zero))) lt = record {
  kept = refl;
  tag_some = omega arith;
  tag_small = omega arith;
  narrow = omega arith;
  marked = inl refl;
  typed = ((λ e. omega arith), one-IsFlat);
}
fields-IsField (suc (suc (suc (suc zero)))) lt = record {
  kept = refl;
  tag_some = omega arith;
  tag_small = omega arith;
  narrow = omega arith;
  marked =
      inr (inr (inl (refl, (3, refl, omega arith, omega arith), refl, omega arith, omega arith)));
  typed = refl;
}
fields-IsField (suc (suc (suc (suc (suc zero))))) lt = record {
  kept = refl;
  tag_some = omega arith;
  tag_small = omega arith;
  narrow = omega arith;
  marked = inr (inr (inr (refl, refl, refl)));
  typed = refl;
}
fields-IsField (suc (suc (suc (suc (suc (suc k)))))) lt = absurd (omega arith)

tag_at : (k : ℕ) → k < 6 → (get_or fields k last_field).tag ≡ k + 1
tag_at zero lt = refl
tag_at (suc zero) lt = refl
tag_at (suc (suc zero)) lt = refl
tag_at (suc (suc (suc zero))) lt = refl
tag_at (suc (suc (suc (suc zero)))) lt = refl
tag_at (suc (suc (suc (suc (suc zero))))) lt = refl
tag_at (suc (suc (suc (suc (suc (suc k)))))) lt = absurd (omega arith)

fields-IsFlat : IsFlat env.fields_at 2 fields 40
unfolding IsFlat required_total
fields-IsFlat = (
  fields-IsField,
  (λ j k ltj ltk e. omega (arith, tag_at j ltj, tag_at k ltk)),
  omega arith,
  omega arith,
  λ e. omega arith,
)

one-HasValues : HasValues env.fields_at 1 mem (number ∷ []) 1016
unfolding HasValues HasValue
one-HasValues zero lt = ((λ there. tt), (λ rep. cc))
one-HasValues (suc k) lt = absurd (omega arith)

fields-HasValues : HasValues env.fields_at 2 mem fields 1000
unfolding HasValues IsPresent HasValue load nth pb_field_iter_begin advance size_in_struct
    string_length
fields-HasValues zero lt = ((λ there. tt), (λ rep. cc))
fields-HasValues (suc zero) lt = ((λ there. tt), (λ rep. cc))
fields-HasValues (suc (suc zero)) lt = ((λ there. omega arith), (λ rep. cc))
fields-HasValues (suc (suc (suc zero))) lt = ((λ there. one-HasValues), (λ rep. cc))
fields-HasValues (suc (suc (suc (suc zero)))) lt = ((λ there. absurd there), (λ rep. omega arith))
fields-HasValues (suc (suc (suc (suc (suc zero))))) lt = ((λ there. tt), (λ rep. cc))
fields-HasValues (suc (suc (suc (suc (suc (suc k)))))) lt = absurd (omega arith)

fields_bound : message_bound env.fields_at 2 fields < size_mod
unfolding message_bound field_bound value_bound total
fields_bound = omega arith

pb_get_encoded_size-pb_encode_example :
    (bs : List ℕ) × (length bs ≤ message_bound env.fields_at 2 fields)
    × (pb_get_encoded_size env 2 fields 1000 ≡ some (true, some (length bs)))
    × FillsBuffers env 2 fields 1000 bs
pb_get_encoded_size-pb_encode_example =
    pb_get_encoded_size-pb_encode env 2 fields 40 1000 cells (omega arith) fields-IsFlat
      fields-HasValues fields_bound

pb_encode-pb_decode_example :
    (size : ℕ) × (pb_get_encoded_size env 2 fields 1000 ≡ some (true, some size))
    × (((64 < size)
          × (s : OStream) × (pb_encode env 2 fields 1000 (pb_ostream_from_buffer 64)
              ≡ returns false s))
        ⊎ Restored env decode_env 2 fields 40 1000 size 64 mem 2000)
pb_encode-pb_decode_example =
    pb_encode-pb_decode env decode_env 2 fields 40 1000 64 2000 mem cells refl (omega arith)
      fields-IsFlat fields-HasValues fields_bound (omega arith)

flat-Blanks_example : Blanks decode_env 2 fields 40 2000 mem
flat-Blanks_example = flat-Blanks decode_env 2 fields 40 2000 mem fields-IsFlat

pb_encode_delimited-pb_decode_delimited_example :
    (size : ℕ) × (pb_get_encoded_size env 2 fields 1000 ≡ some (true, some size))
    × ((64 < size + 10) ⊎ RestoredFrom env decode_env 2 fields 40 1000 64 mem 2000 (7 ∷ 8 ∷ []))
pb_encode_delimited-pb_decode_delimited_example =
    pb_encode_delimited-pb_decode_delimited env decode_env 2 fields 40 1000 64 2000 mem (7 ∷ 8 ∷ [])
      cells refl (omega arith) fields-IsFlat fields-HasValues fields_bound (omega arith)
