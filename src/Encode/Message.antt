-- ===== src/Encode/Message.antt =====
-- Pods/nanopb/pb_encode.c: fields, extensions, messages.
pub mod Plain
pub mod Place
pub mod Values
pub mod Uniform
pub mod Size
use get_together.Common.{
  case_option, ℕ, zero, suc, ◌+◌, ◌%◌, ◌≡◌, Bool, true, false, not, Option, none, some, List,
  length, nonzero, offset, ◌==◌, if◌then◌else◌,
}
use get_together.Pb.{
  missing_required_field, invalid_field_type, callback_error, Outcome, returns, stuck, ◌>>=◌,
}
use get_together.Pb.Field.{
  HType, required, optional, repeated, oneof, AType, static, pointer, callback, reserved, Field,
  last_field,
}
use get_together.Memory.{Memory, load, load_pointer}
use get_together.OStream.{OStream, return_error, pb_ostream_sizing}
use get_together.Common.{get_or}
use get_together.Iter.{FieldIter, current, pb_field_iter_begin, pb_field_iter_next, is_extension}
use get_together.Encode.{pb_encode_tag_for_field}
use get_together.Encode.Env.{Env}
use get_together.Encode.Submessage.{pb_encode_submessage}
use get_together.Encode.Fields.{pb_encoders}
use get_together.Encode.Array.{is_pointer, encode_array, pb_check_proto3_default_value}

-- Where `pSize` of encode_basic_field points: to the local `implicit_has`, or into the message.
pub data SizePointer : Type 0 where
  implicit_has : Bool → SizePointer
  stored : ℕ → SizePointer

-- `*(const bool*)pSize`
unfoldable pub read_has : Memory → SizePointer → Bool
read_has mem (implicit_has has) = has
read_has mem (stored p) = not (mem p == 0)

-- `*(const pb_size_t*)pSize`; a read of the local bool as a pb_size_t has no meaning.
unfoldable pub read_size : Memory → SizePointer → Option ℕ
read_size mem (implicit_has has) = none
read_size mem (stored p) = some (load mem p 4)

-- `pSize = &implicit_has` with the value of `implicit_has`: for an optional field whether its value
-- is no default, and else true. A pointer overwrites it by whether its `target` is not NULL.
unfoldable pub implicit_size : AType → HType → Option Bool → ℕ → Option SizePointer
implicit_size pointer h is_default target = some (implicit_has (not (target == 0)))
implicit_size _ optional is_default target =
    case_option is_default none λ d. some (implicit_has (not d))
implicit_size _ _ is_default target = some (implicit_has true)

-- Where `pSize` points for the field at `p`. `none`: out of fuel.
unfoldable pub size_pointer : Env → ℕ → Field → ℕ → ℕ → Option SizePointer
size_pointer e depth field p target =
    if nonzero field.size_offset
    then some (stored (offset p field.size_offset))
    else implicit_size field.atype field.htype (pb_check_proto3_default_value e depth field p)
        target

-- Tag and value of a field that is there.
unfoldable pub tag_and_value :
    (OStream → Field → ℕ → Outcome OStream) → Field → ℕ → OStream → Outcome OStream
tag_and_value func field p s = do s ← pb_encode_tag_for_field s field; func s field p

-- The switch of encode_basic_field on the first argument, PB_HTYPE(field->type).
unfoldable pub by_htype :
    HType
    → Memory
    → (OStream → Field → ℕ → Outcome OStream)
    → Field
    → ℕ
    → SizePointer
    → OStream
    → Outcome OStream
by_htype required mem func field p size s =
    if p == 0 then return_error s missing_required_field else tag_and_value func field p s
by_htype optional mem func field p size s =
    if read_has mem size then tag_and_value func field p s else returns true s
by_htype repeated mem func field p size s =
    case_option (read_size mem size) stuck
      λ count. encode_array mem field p count (λ s p. func s field p) s
by_htype oneof mem func field p size s =
    case_option (read_size mem size) stuck
      λ which. if which == field.tag then tag_and_value func field p s else returns true s

-- `depth` bounds the nesting for the test of default values; `encode` is pb_encode, at one level
-- of nesting less.
module _ (e : Env) (depth : ℕ) (encode : List Field → ℕ → OStream → Outcome OStream) where
  unfoldable pub encode_basic_field : OStream → Field → ℕ → Outcome OStream
  encode_basic_field s field p =
      let target : ℕ = if is_pointer field.atype then load_pointer e.mem p else p in
      case_option (size_pointer e depth field p target) stuck
        λ size. by_htype field.htype e.mem (pb_encoders e encode field.ltype) field target size s

  -- pb_callback_t: the address of the function, then `arg`.
  unfoldable pub encode_callback_field : OStream → Field → ℕ → Outcome OStream
  encode_callback_field s field p =
      let func : ℕ = load_pointer e.mem p in
      if func == 0 then returns true s else elim (e.callback_encode func s field (p + 8)) [
        | stuck ↦ stuck
        | returns ok s' ↦ if ok then returns true s' else return_error s' callback_error
      ]

  -- The switch of encode_field.
  unfoldable pub by_atype : AType → OStream → Field → ℕ → Outcome OStream
  by_atype static s field p = encode_basic_field s field p
  by_atype pointer s field p = encode_basic_field s field p
  by_atype callback s field p = encode_callback_field s field p
  by_atype reserved s field p = return_error s invalid_field_type

  unfoldable pub encode_field : OStream → Field → ℕ → Outcome OStream
  encode_field s field p = by_atype field.atype s field p

  -- pb_extension_t: `type` at 0, `dest` at 8, `next` at 16; pb_extension_type_t: `decode` at 0,
  -- `encode` at 8, `arg` at 16.
  unfoldable pub default_extension_encoder : OStream → ℕ → Outcome OStream
  default_extension_encoder s ext =
      let arg : ℕ = load_pointer e.mem (load_pointer e.mem ext + 16) in
      let field : Field = get_or (e.fields_at arg) 0 last_field in
      encode_field s field
        (if is_pointer field.atype then ext + 8 else load_pointer e.mem (ext + 8))

  -- The loop over the linked list of extensions; the fuel bounds its length.
  unfoldable pub each_extension : ℕ → ℕ → OStream → Outcome OStream
  each_extension zero ext s = stuck
  each_extension (suc fuel) ext s =
      let func : ℕ = load_pointer e.mem (load_pointer e.mem ext + 8) in
      elim (ext == 0) [
        | true ↦ returns true s
        | false ↦ do
          s ← if func == 0 then default_extension_encoder s ext else e.extension_encode func s ext
          each_extension fuel (load_pointer e.mem (ext + 16)) s
      ]

  unfoldable pub encode_extension_field : OStream → ℕ → Outcome OStream
  encode_extension_field s p = each_extension depth (load_pointer e.mem p) s

  -- One round of the loop of pb_encode.
  unfoldable pub encode_one : FieldIter → OStream → Outcome OStream
  encode_one it s =
      if is_extension (current it).ltype
      then encode_extension_field s it.p_data
      else encode_field s (current it) it.p_data

  unfoldable pub each_field : ℕ → FieldIter → OStream → Outcome OStream
  each_field zero it s = stuck
  each_field (suc fuel) it s = encode_one it s >>= λ s.
      let (it', more) = pb_field_iter_next it in
      let rest = each_field fuel it' s in if more then rest else returns true s

-- `depth` bounds the nesting of messages, and the length of a list of extensions.
unfoldable pub pb_encode : Env → ℕ → List Field → ℕ → OStream → Outcome OStream
pb_encode e zero fields src s = stuck
pb_encode e (suc depth) fields src s =
    let (it, some_field) = pb_field_iter_begin fields src in
    let walk = each_field e (suc depth) (pb_encode e depth) (length fields) it s in
    if some_field then walk else returns true s

unfoldable pub pb_encode_delimited : Env → ℕ → List Field → ℕ → OStream → Outcome OStream
pb_encode_delimited e depth fields src s = pb_encode_submessage (pb_encode e depth fields src) s

-- The answer of pb_get_encoded_size and what `*size` is set to: nothing on failure.
unfoldable pub size_result : Outcome OStream → Option (Bool × Option ℕ)
size_result stuck = none
size_result (returns ok s) = some (if ok then (true, some s.bytes_written) else (false, none))

unfoldable pub pb_get_encoded_size : Env → ℕ → List Field → ℕ → Option (Bool × Option ℕ)
pb_get_encoded_size e depth fields src =
    size_result (pb_encode e depth fields src pb_ostream_sizing)
