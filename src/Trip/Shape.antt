-- ===== src/Trip/Shape.antt =====
-- Messages that a round trip restores: their descriptors, their values, and when two structs hold the
-- same message.
use get_together.Common.{
  ℕ, zero, suc, ◌+◌, ◌*◌, ◌^◌, ◌≤◌, ◌<◌, ◌≡◌, ◌≢◌, ◌⊎◌, true, false, ℤ, pos, negsuc, List, length,
  get_or, ◌==◌,
}
use get_together.Pb.{u32_mod}
use get_together.Pb.Field.{
  LType, is_packable, varint, uvarint, svarint, fixed32, fixed64, bytes, string, submessage,
  extension, fixed_length_bytes, HType, required, optional, repeated, static, Field, last_field,
}
use get_together.Memory.{Memory, load, string_length}
use get_together.Iter.Nth.{nth}
use get_together.Iter.Required.{required_total}
use get_together.Decode.Fields.{is_int_size}
use get_together.Decode.Items.{is_repeated}
use get_together.Trip.Cells.{SameBytes}

-- The part of a struct from the end of the field before to the end of the field, and where it is.
abbrev pub room : HType → Field → ℕ
room repeated field = field.data_size * field.array_size
room _ field = field.data_size

abbrev pub width : Field → ℕ
width field = field.data_offset + room field.htype field

abbrev pub slot : List Field → ℕ → ℕ
slot fields zero = 0
slot fields (suc k) = slot fields k + width (get_or fields k last_field)

-- The sizes that go with a field type; `inner` is for the descriptors and the struct of a submessage.
unfoldable pub IsTyped : (ℕ → ℕ → Type 0) → LType → Field → Type 0
IsTyped inner varint field = is_int_size field.data_size ≡ true
IsTyped inner uvarint field = is_int_size field.data_size ≡ true
IsTyped inner svarint field = is_int_size field.data_size ≡ true
IsTyped inner fixed32 field = field.data_size ≡ 4
IsTyped inner fixed64 field = field.data_size ≡ 8
IsTyped inner bytes field = Unit {0}
IsTyped inner string field = Unit {0}
IsTyped inner submessage field = (field.ptr ≢ 0) × inner field.ptr field.data_size
IsTyped inner extension field = ⊥
IsTyped inner fixed_length_bytes field = 0 < field.data_size

-- The `has_` field, or the count, of `n` bytes stands in front of the field, behind the field before.
abbrev pub HasFlag : ℕ → Field → Type 0
HasFlag n field =
    (m : ℕ) × (field.size_offset ≡ negsuc m) × (suc m ≤ field.data_offset) × (n ≤ suc m)

-- An optional field without a `has_` field, whose default value is 0.
abbrev pub IsImplicit : Field → Type 0
IsImplicit field = (field.htype ≡ optional) × (field.size_offset ≡ pos 0) × (field.ptr ≡ 0)

-- A required field, an optional field, or an array of numbers with its count.
abbrev pub IsMarked : Field → Type 0
IsMarked field =
    (field.htype ≡ required)
    ⊎ (((field.htype ≡ optional) × HasFlag 1 field)
        ⊎ (((field.htype ≡ repeated)
              × HasFlag 4 field
              × (is_packable field.ltype ≡ true)
              × (field.data_size * field.array_size < u32_mod)
              × (field.array_size < u32_mod))
            ⊎ IsImplicit field))

-- A static field of these, with a tag of the protocol.
pub record IsField (inner : ℕ → ℕ → Type 0) (field : Field) : Type 0 where
  pub kept : field.atype ≡ static
  pub tag_some : 1 ≤ field.tag
  pub tag_small : field.tag < 2 ^ 29
  pub narrow : field.data_size < u32_mod
  pub marked : IsMarked field
  pub typed : IsTyped inner field.ltype field

-- Descriptors of such fields, with different tags, for structs of `n` bytes, with submessages nested
-- less than `depth` deep. For 32 required fields the C code shifts by 32 bits, and from 64 on it
-- reads behind `fields_seen`.
unfoldable pub IsFlat : (ℕ → List Field) → ℕ → List Field → ℕ → Type 0
IsFlat fields_at zero fields n = ⊥
IsFlat fields_at (suc depth) fields n =
    ((k : ℕ)
      → k < length fields
      → IsField (λ p m. IsFlat fields_at depth (fields_at p) m) (get_or fields k last_field))
    × ((j k : ℕ)
        → j < length fields
        → k < length fields
        → (get_or fields j last_field).tag ≡ (get_or fields k last_field).tag
        → j ≡ k)
    × (slot fields (length fields) ≤ n)
    × (required_total fields < 64)
    × (required_total fields ≢ 32)

-- As many bytes as the value of a field, the field, and a message have at most, more than enough:
-- ten for each key and each varint. `inner` is for the descriptors of a submessage.
unfoldable pub value_bound : (ℕ → ℕ) → LType → Field → ℕ
value_bound inner submessage field = 10 + inner field.ptr
value_bound inner _ field = 10 + field.data_size

unfoldable pub field_bound : (ℕ → ℕ) → HType → Field → ℕ
field_bound inner repeated field = 20 + field.array_size * (10 + field.data_size)
field_bound inner _ field = 10 + value_bound inner field.ltype field

-- The sum over `n` numbers from `k` on.
unfoldable pub total : (ℕ → ℕ) → ℕ → ℕ → ℕ
total f zero k = 0
total f (suc n) k = f k + total f n (suc k)

unfoldable pub message_bound : (ℕ → List Field) → ℕ → List Field → ℕ
message_bound fields_at zero fields = 0
message_bound fields_at (suc depth) fields =
    total
      (λ k.
        field_bound (λ p. message_bound fields_at depth (fields_at p))
          (get_or fields k last_field).htype (get_or fields k last_field))
      (length fields) 0

-- Is the single field there, whose `has_` field, if it has one, is at `p_size`?
unfoldable pub IsPresent : Memory → HType → ℤ → ℕ → Type 0
IsPresent mem required o p_size = Unit {0}
IsPresent mem repeated o p_size = ⊥
IsPresent mem _ (pos zero) p_size = Unit {0}
IsPresent mem _ _ p_size = mem p_size ≢ 0

-- A run of bytes is within its array, and a string ends there; `inner` is for a submessage.
unfoldable pub HasValue : (ℕ → ℕ → Type 0) → LType → Memory → Field → ℕ → Type 0
HasValue inner bytes mem field p = load mem p 4 + 4 ≤ field.data_size
HasValue inner string mem field p = string_length mem p field.data_size < field.data_size
HasValue inner submessage mem field p = inner field.ptr p
HasValue inner _ mem field p = Unit {0}

-- The values that are there in the struct at `src`; a count is not larger than its array.
unfoldable pub HasValues : (ℕ → List Field) → ℕ → Memory → List Field → ℕ → Type 0
HasValues fields_at zero mem fields src = ⊥
HasValues fields_at (suc depth) mem fields src =
    (k : ℕ)
    → k < length fields
    → (IsPresent mem (get_or fields k last_field).htype (get_or fields k last_field).size_offset
          (nth fields src k).p_size
        → HasValue (λ q p. HasValues fields_at depth mem (fields_at q) p)
            (get_or fields k last_field).ltype mem (get_or fields k last_field)
            (nth fields src k).p_data)
      × ((get_or fields k last_field).htype ≡ repeated
          → load mem (nth fields src k).p_size 4 ≤ (get_or fields k last_field).array_size)

-- The value at `p` is the value at `q` of another memory: the same bytes, as many as count.
unfoldable pub SameValue : (ℕ → ℕ → ℕ → Type 0) → LType → Field → Memory → ℕ → Memory → ℕ → Type 0
SameValue inner bytes field mem p mem' q = SameBytes mem p mem' q (4 + load mem p 4)
SameValue inner string field mem p mem' q =
    SameBytes mem p mem' q (string_length mem p field.data_size + 1)
SameValue inner submessage field mem p mem' q = inner field.ptr p q
SameValue inner _ field mem p mem' q = SameBytes mem p mem' q field.data_size

-- The same count, and the same entries.
abbrev pub SameArray : Field → Memory → ℕ → ℕ → Memory → ℕ → ℕ → Type 0
SameArray field mem p p_size mem' q q_size =
    (load mem' q_size 4 ≡ load mem p_size 4)
    × ((i : ℕ)
        → i < load mem p_size 4
        → SameBytes mem (p + field.data_size * i) mem' (q + field.data_size * i) field.data_size)

-- Both structs have the field, or neither, and if so with the same value.
pub record SameField (inner : ℕ → ℕ → ℕ → Type 0) (field : Field) (mem : Memory) (p p_size : ℕ)
    (mem' : Memory) (q q_size : ℕ) : Type 0 where
  pub has : field.htype ≡ optional → HasFlag 1 field → (mem' q_size == 0) ≡ (mem p_size == 0)
  pub value :
      IsPresent mem field.htype field.size_offset p_size
      → SameValue inner field.ltype field mem p mem' q
  pub entries : field.htype ≡ repeated → SameArray field mem p p_size mem' q q_size

-- The structs at `src` and, in another memory, at `dest` hold the same message.
unfoldable pub SameMessage : (ℕ → List Field) → ℕ → List Field → Memory → ℕ → Memory → ℕ → Type 0
SameMessage fields_at zero fields mem src mem' dest = ⊥
SameMessage fields_at (suc depth) fields mem src mem' dest =
    (k : ℕ)
    → k < length fields
    → SameField (λ r p q. SameMessage fields_at depth (fields_at r) mem p mem' q)
        (get_or fields k last_field) mem (nth fields src k).p_data (nth fields src k).p_size mem'
        (nth fields dest k).p_data (nth fields dest k).p_size

-- No field with a `has_` field is there, no array has entries, and the optional fields without
-- `has_` are 0, in the message and in its submessages.
unfoldable pub BlankValue : (ℕ → ℕ → Type 0) → LType → Field → ℕ → Type 0
BlankValue inner submessage field q = inner field.ptr q
BlankValue inner _ field q = Unit {0}

pub record BlankField (inner : ℕ → ℕ → Type 0) (field : Field) (mem : Memory) (q q_size : ℕ)
    : Type 0 where
  pub has : field.htype ≡ optional → HasFlag 1 field → mem q_size ≡ 0
  pub zeros : IsImplicit field → (i : ℕ) → i < field.data_size → mem (q + i) ≡ 0
  pub empty : field.htype ≡ repeated → load mem q_size 4 ≡ 0
  pub value : is_repeated field.htype ≡ false → BlankValue inner field.ltype field q

unfoldable pub IsBlank : (ℕ → List Field) → ℕ → List Field → Memory → ℕ → Type 0
IsBlank fields_at zero fields mem dest = ⊥
IsBlank fields_at (suc depth) fields mem dest =
    (k : ℕ)
    → k < length fields
    → BlankField (λ r q. IsBlank fields_at depth (fields_at r) mem q) (get_or fields k last_field)
        mem (nth fields dest k).p_data (nth fields dest k).p_size
