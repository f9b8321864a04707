-- ===== src/Decode/Contained.antt =====
-- Message structs whose fields lie inside of them, and what stays inside.
pub mod Frames
pub mod Defaults
pub mod Values
pub mod Items
pub mod OneField
pub mod Places
pub mod Ends
pub mod Rounds
pub mod Message
use get_together.Common.{
  ℕ, zero, suc, ◌+◌, ◌*◌, ◌≤◌, ◌<◌, ◌≡◌, ◌≢◌, ◌⊎◌, inl, inr, List, [], ◌∷◌, length, get_or, Bool,
  ap, ◌∙◌, if◌then◌else◌, arith,
}
use get_together.Pb.{u32_mod}
use get_together.Pb.Field.{
  LType, fixed32, fixed64, submessage, extension, HType, required, optional, repeated, oneof, AType,
  static, pointer, callback, Field, last_field,
}
use get_together.Iter.Required.{required_total}
use get_together.Iter.Nth.{IsDescriptors, nth}
use get_together.Decode.Fields.Within.{Outside}

-- The `m` bytes at `a` are among the `n` bytes at `base`.
abbrev pub Inside : ℕ → ℕ → ℕ → ℕ → Type 0
Inside base n a m = (base ≤ a) × (a + m ≤ base + n)

pub Outside-Inside : (base n a m x : ℕ) → Inside base n a m → Outside base n x → Outside a m x
Outside-Inside base n a m x h o = ground (arith, h.0, h.1)

-- The bytes that a field has in its struct.
abbrev pub extent : AType → HType → Field → ℕ
extent static repeated field = field.data_size * field.array_size
extent static _ field = field.data_size
extent pointer _ field = 8
extent _ _ field = 0

pub Inside-extent :
    (base n p : ℕ) (field : Field) (a : AType) (t : HType)
    → field.atype ≡ a
    → field.htype ≡ t
    → Inside base n p (extent field.atype field.htype field)
    → Inside base n p (extent a t field)
Inside-extent base n p field a t at ht h =
    rw⁻¹ (ap (λ a. extent a field.htype field) at ∙ ap (λ t. extent a t field) ht) h

-- A field in a struct of `n` bytes at `base`, no callback and no extension, with its count, `which_`
-- and `has_` field in the struct. The struct of a submessage is `inner`.
pub record FieldFits (inner : ℕ → ℕ → Type 0) (base n : ℕ) (field : Field) (p_data p_size : ℕ)
    : Type 0 where
  pub not_callback : field.atype ≢ callback
  pub not_extension : field.ltype ≢ extension
  pub data_inside : Inside base n p_data (extent field.atype field.htype field)
  pub counted : (field.htype ≡ repeated) ⊎ (field.htype ≡ oneof) → Inside base n p_size 4
  pub marked : field.htype ≡ optional → p_size ≢ p_data → Inside base n p_size 1
  pub four_bytes : field.ltype ≡ fixed32 → 4 ≤ field.data_size
  pub eight_bytes : field.ltype ≡ fixed64 → 8 ≤ field.data_size
  pub array_small : field.data_size * field.array_size < u32_mod
  pub submessage_inner : field.ltype ≡ submessage → inner field.ptr field.data_size

-- Structs of `n` bytes for the descriptors, with submessages nested less than `depth` deep. For 32
-- required fields the C code shifts by 32 bits, and from 64 on it reads behind `fields_seen`.
unfoldable pub IsLaidOut : (ℕ → List Field) → ℕ → List Field → ℕ → Type 0
IsLaidOut fields_at zero fields n = ⊥
IsLaidOut fields_at (suc depth) fields n =
    IsDescriptors fields
    × ((dest k : ℕ)
        → k < length fields
        → FieldFits (λ p m. IsLaidOut fields_at depth (fields_at p) m) dest n
            (get_or fields k last_field) (nth fields dest k).p_data (nth fields dest k).p_size)
    × (required_total fields < 64)
    × (required_total fields ≢ 32)
