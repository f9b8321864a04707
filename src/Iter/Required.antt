-- ===== src/Iter/Required.antt =====
-- The number of required fields in front of the iterator.
use get_together.Common.{
  ℕ, zero, suc, ◌+◌, ◌%◌, ◌≤◌, ◌<◌, ◌≡◌, refl, true, false, List, [], ◌∷◌, length, get_or, drop,
  if◌then◌else◌, arith,
}
use get_together.Pb.{u32_mod}
use get_together.Pb.Field.{HType, required, optional, repeated, oneof, Field, last_field}
use get_together.Iter.{FieldIter, is_oneof, is_required, pb_field_iter_begin, advance}
use get_together.Iter.Nth.{nth}

-- The number of required fields.
unfoldable pub required_total : List Field → ℕ
required_total [] = 0
required_total (field ∷ fields) =
    if is_required field.htype then suc (required_total fields) else required_total fields

pub required_total-drop :
    (fields : List Field) (k : ℕ)
    → k < length fields
    → required_total (drop k fields) ≡ (
        if is_required (get_or fields k last_field).htype
        then suc (required_total (drop (suc k) fields))
        else required_total (drop (suc k) fields))
required_total-drop [] k lt = absurd (omega arith)
required_total-drop (field ∷ fields) zero lt = unfold required_total in refl
required_total-drop (field ∷ fields) (suc k) lt = required_total-drop fields k (omega arith)

pub required_total-past :
    (fields : List Field) (k : ℕ) → length fields ≤ k → required_total (drop k fields) ≡ 0
required_total-past [] zero le = unfold required_total in refl
required_total-past [] (suc k) le = unfold required_total in refl
required_total-past (field ∷ fields) zero le = absurd (omega arith)
required_total-past (field ∷ fields) (suc k) le = required_total-past fields k (omega arith)

oneof_not_required : (t : HType) → is_oneof t ≡ true → is_required t ≡ false
oneof_not_required required h = cc
oneof_not_required optional h = refl
oneof_not_required repeated h = refl
oneof_not_required oneof h = refl

-- In a union the index stays, and the field before is not a required one.
advance-index :
    (it : FieldIter) (prev field : Field)
    → (advance it prev field).required_field_index ≡ (
        if is_required prev.htype
        then (it.required_field_index + 1) % u32_mod
        else it.required_field_index)
unfolding advance
advance-index it prev field = ground (arith, oneof_not_required prev.htype)

-- What the iterator counts, with the required fields from it on, is their number.
pub nth-index :
    (fields : List Field) (dest k : ℕ)
    → required_total fields < u32_mod
    → k < length fields
    → (nth fields dest k).required_field_index + required_total (drop k fields)
      ≡ required_total fields
unfolding nth
nth-index fields dest zero few lt = unfold pb_field_iter_begin in omega arith
nth-index fields dest (suc k) few lt = ground (
  arith,
  nth-index fields dest k few (omega arith),
  advance-index (nth fields dest k) (get_or fields k last_field) (get_or fields (k + 1) last_field),
  required_total-drop fields k (omega arith),
)
