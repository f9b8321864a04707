-- ===== src/Iter.antt =====
-- Pods/nanopb/pb_common.c: the iterator over the fields of a message.
pub mod Walk
pub mod Nth
pub mod Seek
pub mod Find
pub mod Required
use get_together.Common.{
  ℕ, zero, suc, ◌+◌, ◌*◌, ◌%◌, ◌^◌, ◌≡◌, Bool, true, false, not, ◌&&◌, Option, none, some, List,
  length, get_or, offset, ◌==◌, if◌then◌else◌,
}
use get_together.Pb.{u32_mod, pb_size_max}
use get_together.Pb.Field.{
  Field, last_field, LType, extension, HType, required, repeated, oneof, AType, static, pointer,
}

-- pb_field_iter_t. `start` is the array of descriptors and `pos` the index of the current one in
-- it; the array's end, and all behind it, reads as PB_LAST_FIELD. `p_data`, `p_size` are addresses.
pub record FieldIter : Type 0 where
  pub start : List Field
  pub pos : ℕ
  pub required_field_index : ℕ
  pub dest_struct : ℕ
  pub p_data : ℕ
  pub p_size : ℕ

-- `*iter->pos`
unfoldable pub current : FieldIter → Field
current it = get_or it.start it.pos last_field

-- The iterator and `iter->pos->tag != 0`.
unfoldable pub pb_field_iter_begin : List Field → ℕ → FieldIter × Bool
pb_field_iter_begin fields dest_struct =
    let first : Field = get_or fields 0 last_field in
    let here : ℕ = dest_struct + first.data_offset in
    (
      record {
        start = fields;
        pos = 0;
        required_field_index = 0;
        dest_struct = dest_struct;
        p_data = here;
        p_size = offset here first.size_offset;
      },
      not (first.tag == 0),
    )

abbrev pub is_oneof : HType → Bool
is_oneof oneof = true
is_oneof _ = false

abbrev pub is_required : HType → Bool
is_required required = true
is_required _ = false

-- The size of a field in its struct.
unfoldable pub size_in_struct : Field → ℕ
size_in_struct prev = elim prev.atype [
  | static ↦ elim prev.htype [ repeated ↦ prev.data_size * prev.array_size | _ ↦ prev.data_size ]
  | pointer ↦ 8
  | _ ↦ prev.data_size
]

-- The branch of pb_field_iter_next that moves on, from the field `prev` to the field `field`.
unfoldable pub advance : FieldIter → Field → Field → FieldIter
advance it prev field =
    let here : ℕ = it.p_data + size_in_struct prev + field.data_offset in
    let index : ℕ = it.required_field_index in
    if is_oneof prev.htype && is_oneof field.htype && field.data_offset == pb_size_max
    then record it { pos = it.pos + 1 }
    else record it {
      pos = it.pos + 1;
      required_field_index = if is_required prev.htype then (index + 1) % u32_mod else index;
      p_data = here;
      p_size = offset here field.size_offset;
    }

unfoldable pub pb_field_iter_next : FieldIter → FieldIter × Bool
pb_field_iter_next it =
    let prev : Field = current it in
    let field : Field = get_or it.start (it.pos + 1) last_field in
    if prev.tag == 0
    then (it, false)
    else if field.tag == 0
    then ((pb_field_iter_begin it.start it.dest_struct).0, false)
    else (advance it prev field, true)

abbrev pub is_extension : LType → Bool
is_extension extension = true
is_extension _ = false

-- The loop of pb_field_iter_find, `start` its start position; `none` when the fuel has run out.
unfoldable pub find_from : ℕ → ℕ → ℕ → FieldIter → Option (FieldIter × Bool)
find_from zero start tag it = none
find_from (suc fuel) start tag it =
    let field : Field = current it in
    let it' : FieldIter = (pb_field_iter_next it).0 in
    let rest = find_from fuel start tag it' in
    if field.tag == tag && not (is_extension field.ltype)
    then some (it, true)
    else if it'.pos == start
    then some (it', false)
    else rest

-- One round for each field is enough, and one for an empty array.
unfoldable pub pb_field_iter_find : FieldIter → ℕ → Option (FieldIter × Bool)
pb_field_iter_find it tag = find_from (suc (length it.start)) it.pos tag it
