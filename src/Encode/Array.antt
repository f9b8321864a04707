-- ===== src/Encode/Array.antt =====
-- Pods/nanopb/pb_encode.c: arrays, and the test for a default value.
pub mod Uniform
use get_together.Common.{
  ℕ, zero, suc, ◌+◌, ◌*◌, ◌%◌, Bool, true, false, not, ◌&&◌, Option, none, some, List, [], length,
  ltb, ◌==◌, if◌then◌else◌,
}
use get_together.Pb.{array_max_size_exceeded, Outcome, returns, stuck, ◌>>=◌, size_mod}
use get_together.Pb.Field.{
  LType, fixed32, fixed64, bytes, string, submessage, fixed_length_bytes, AType, static, pointer,
  wt_string, is_packable, Field,
}
use get_together.Memory.{Memory, load, load_pointer}
use get_together.OStream.{Writer, OStream, pb_write, return_error, pb_ostream_sizing}
use get_together.Iter.{FieldIter, current, pb_field_iter_begin, pb_field_iter_next}
use get_together.Encode.{pb_encode_varint, pb_encode_tag, pb_encode_tag_for_field}
use get_together.Encode.Env.{Env}

abbrev pub is_pointer : AType → Bool
is_pointer pointer = true
is_pointer _ = false

-- `for (i = 0; i < count; i++) { if (!func(stream, field, p)) return false; p += data_size; }`
unfoldable pub each_entry : (OStream → ℕ → Outcome OStream) → ℕ → ℕ → ℕ → OStream → Outcome OStream
each_entry func zero data_size p s = returns true s
each_entry func (suc count) data_size p s = do
  s ← func s p
  each_entry func count data_size (p + data_size) s

-- The result of a run on a sizing stream: whether it returned true, and the bytes counted.
unfoldable pub sizing_run : Outcome OStream → Option (Bool × ℕ)
sizing_run stuck = none
sizing_run (returns ok s) = some (ok, s.bytes_written)

-- "Determine the total size of packed array."
unfoldable pub packed_size : LType → (OStream → ℕ → Outcome OStream) → ℕ → ℕ → ℕ → Option (Bool × ℕ)
packed_size fixed32 func count data_size p = some (true, 4 * count % size_mod)
packed_size fixed64 func count data_size p = some (true, 8 * count % size_mod)
packed_size _ func count data_size p =
    sizing_run (each_entry func count data_size p pb_ostream_sizing)

-- What is done after the size of a packed array is written; the first argument is the callback.
unfoldable pub packed_entries :
    Option Writer → (OStream → ℕ → Outcome OStream) → ℕ → ℕ → ℕ → ℕ → OStream → Outcome OStream
packed_entries none func count data_size p size s = pb_write s [] size
packed_entries (some write) func count data_size p size s = each_entry func count data_size p s

-- The size and the entries of a packed array, after its tag.
unfoldable pub write_packed :
    (OStream → ℕ → Outcome OStream) → ℕ → ℕ → ℕ → Option (Bool × ℕ) → OStream → Outcome OStream
write_packed func count data_size p none s = stuck
write_packed func count data_size p (some (false, size)) s = returns false s
write_packed func count data_size p (some (true, size)) s = do
  s ← pb_encode_varint s size
  packed_entries s.callback func count data_size p size s

-- An entry of an array that is not packed. Strings and byte arrays behind a pointer are pointers
-- themselves.
unfoldable pub tagged_entry :
    Memory → Field → (OStream → ℕ → Outcome OStream) → OStream → ℕ → Outcome OStream
tagged_entry mem field func s p =
    let inner : Bool =
      is_pointer field.atype && elim field.ltype [ string ↦ true | bytes ↦ true | _ ↦ false ] in
    do s ← pb_encode_tag_for_field s field; func s (if inner then load_pointer mem p else p)

unfoldable pub encode_array :
    Memory → Field → ℕ → ℕ → (OStream → ℕ → Outcome OStream) → OStream → Outcome OStream
encode_array mem field p count func s =
    if count == 0
    then returns true s
    else if not (is_pointer field.atype) && ltb field.array_size count
    then return_error s array_max_size_exceeded
    else if is_packable field.ltype
    then (do
      s ← pb_encode_tag s wt_string field.tag
      write_packed func count field.data_size p
          (packed_size field.ltype func count field.data_size p) s)
    else each_entry (tagged_entry mem field func) count field.data_size p s

-- Byte-per-byte comparison with zero.
unfoldable pub all_zero : Memory → ℕ → ℕ → Bool
all_zero mem p zero = true
all_zero mem p (suc n) = (mem p == 0) && all_zero mem (p + 1) n

-- `if (!check) return false; rest`, where `none` stands for fuel that has run out.
unfoldable pub both : Option Bool → Option Bool → Option Bool
both none rest = none
both (some false) rest = some false
both (some true) rest = rest

-- The walk over the fields of a submessage in pb_check_proto3_default_value.
unfoldable pub each_default : (Field → ℕ → Option Bool) → ℕ → FieldIter → Option Bool
each_default check zero it = none
each_default check (suc fuel) it =
    let (it', more) = pb_field_iter_next it in
    let rest = each_default check fuel it' in
    both (check (current it) it.p_data) (if more then rest else some true)

-- The cases of pb_check_proto3_default_value; `check` is that function on the fields of a
-- submessage.
unfoldable pub check_value :
    Env → (Field → ℕ → Option Bool) → AType → LType → Field → ℕ → Option Bool
check_value e check static bytes field p = some (load e.mem p 4 == 0)
check_value e check static string field p = some (e.mem p == 0)
check_value e check static fixed_length_bytes field p = some (field.data_size == 0)
check_value e check static submessage field p =
    let fields : List Field = e.fields_at field.ptr in
    let (it, some_field) = pb_field_iter_begin fields p in
    let walk : Option Bool = each_default check (length fields) it in
    if some_field then walk else some true
check_value e check _ _ field p = some (all_zero e.mem p field.data_size)

-- `depth` bounds the nesting of submessages; `none` when it does not suffice.
unfoldable pub pb_check_proto3_default_value : Env → ℕ → Field → ℕ → Option Bool
pb_check_proto3_default_value e zero field p = none
pb_check_proto3_default_value e (suc depth) field p =
    check_value e (pb_check_proto3_default_value e depth) field.atype field.ltype field p
