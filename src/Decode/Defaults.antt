-- ===== src/Decode/Defaults.antt =====
-- Pods/nanopb/pb_decode.c: pb_field_set_to_default and pb_message_set_to_defaults.
use get_together.Common.{
  case_option, ℕ, zero, suc, ◌+◌, Bool, true, false, Option, none, some, List, length, get_or, ◌==◌,
  if◌then◌else◌,
}
use get_together.Pb.Field.{
  LType, submessage, HType, required, optional, repeated, oneof, AType, static, pointer, callback,
  reserved, Field, last_field,
}
use get_together.Memory.{Memory, load_pointer, load_bytes}
use get_together.Iter.{FieldIter, current, is_extension, pb_field_iter_begin, pb_field_iter_next}
use get_together.Encode.Array.{is_pointer}
use get_together.Decode.Fields.{put, store, store_bytes, clear}
use get_together.Decode.Env.{DecodeEnv}

-- pb_extension_t: `type` at 0, `dest` at 8, `next` at 16, `found` at 24; pb_extension_type_t: `decode`
-- at 0, `arg` at 16.
unfoldable pub iter_from_extension : DecodeEnv → Memory → ℕ → FieldIter
iter_from_extension e mem ext =
    let fields : List Field = e.fields_at (load_pointer mem (load_pointer mem ext + 16)) in
    let dest : ℕ = load_pointer mem (ext + 8) in
    let field : Field = get_or fields 0 last_field in
    record (pb_field_iter_begin fields dest).0 {
      p_data = if is_pointer field.atype then ext + 8 else dest;
      p_size = ext + 24;
    }

-- `if (init_data)`; `message` is pb_message_set_to_defaults.
unfoldable pub init_data :
    (List Field → ℕ → Memory → Option Memory)
    → DecodeEnv
    → LType
    → Field
    → ℕ
    → Memory
    → Option Memory
init_data message e submessage field p mem = message (e.fields_at field.ptr) p mem
init_data message e _ field p mem =
    if field.ptr == 0
    then some (clear mem p field.data_size)
    else some (store_bytes mem p (load_bytes mem field.ptr field.data_size))

-- The branch of a static field, by PB_HTYPE.
unfoldable pub static_default :
    (List Field → ℕ → Memory → Option Memory)
    → DecodeEnv
    → HType
    → FieldIter
    → Memory
    → Option Memory
static_default message e required it mem =
    init_data message e (current it).ltype (current it) it.p_data mem
static_default message e optional it mem =
    init_data message e (current it).ltype (current it) it.p_data
      (if it.p_size == it.p_data then mem else put mem it.p_size 0)
static_default message e repeated it mem = some (store mem it.p_size 4 0)
static_default message e oneof it mem = some (store mem it.p_size 4 0)

-- The branch of a pointer field: the pointer is NULL, a count or a `which_` field 0.
unfoldable pub pointer_default : HType → FieldIter → Memory → Memory
pointer_default repeated it mem = store (store mem it.p_data 8 0) it.p_size 4 0
pointer_default oneof it mem = store (store mem it.p_data 8 0) it.p_size 4 0
pointer_default _ it mem = store mem it.p_data 8 0

unfoldable pub default_by_atype :
    (List Field → ℕ → Memory → Option Memory)
    → DecodeEnv
    → AType
    → FieldIter
    → Memory
    → Option Memory
default_by_atype message e static it mem = static_default message e (current it).htype it mem
default_by_atype message e pointer it mem = some (pointer_default (current it).htype it mem)
default_by_atype message e callback it mem = some mem
default_by_atype message e reserved it mem = some mem

-- The walk over a list of extensions; `one` is pb_field_set_to_default, the fuel bounds the list.
unfoldable pub extension_defaults :
    (FieldIter → Memory → Option Memory) → DecodeEnv → ℕ → ℕ → Memory → Option Memory
extension_defaults one e zero ext mem = none
extension_defaults one e (suc fuel) ext mem =
    let found_unset : Memory = put mem (ext + 24) 0 in
    let rest =
      case_option (one (iter_from_extension e found_unset ext) found_unset) none
        λ mem. extension_defaults one e fuel (load_pointer mem (ext + 16)) mem in
    if ext == 0 then some mem else rest

-- The loop of pb_message_set_to_defaults.
unfoldable pub each_to_default :
    (FieldIter → Memory → Option Memory) → ℕ → FieldIter → Memory → Option Memory
each_to_default one zero it mem = none
each_to_default one (suc fuel) it mem = case_option (one it mem) none λ mem.
    let (it', more) = pb_field_iter_next it in
    let rest = each_to_default one fuel it' mem in if more then rest else some mem

-- pb_message_set_to_defaults with `one` for pb_field_set_to_default.
unfoldable pub message_to_defaults :
    (FieldIter → Memory → Option Memory) → List Field → ℕ → Memory → Option Memory
message_to_defaults one fields dest mem =
    let (it, some_field) = pb_field_iter_begin fields dest in
    let walk = each_to_default one (length fields) it mem in if some_field then walk else some mem

-- pb_field_set_to_default with `one` for its recursive calls; the first argument tells whether the
-- field is the one for extensions.
unfoldable pub field_default :
    Bool → (FieldIter → Memory → Option Memory) → DecodeEnv → ℕ → FieldIter → Memory → Option Memory
field_default true one e depth it mem =
    extension_defaults one e depth (load_pointer mem it.p_data) mem
field_default false one e depth it mem =
    default_by_atype (message_to_defaults one) e (current it).atype it mem

-- `depth` bounds the nesting of messages, and the length of a list of extensions. `none`: out of
-- fuel.
unfoldable pub pb_field_set_to_default : DecodeEnv → ℕ → FieldIter → Memory → Option Memory
pb_field_set_to_default e zero it mem = none
pb_field_set_to_default e (suc depth) it mem =
    field_default (is_extension (current it).ltype) (pb_field_set_to_default e depth) e depth it mem

unfoldable pub pb_message_set_to_defaults : DecodeEnv → ℕ → List Field → ℕ → Memory → Option Memory
pb_message_set_to_defaults e depth fields dest mem =
    message_to_defaults (pb_field_set_to_default e depth) fields dest mem
