-- ===== src/Decode/Contained/Places.antt =====
-- Where the iterator stands while a message is decoded: on a field, or at the beginning of an array
-- without fields, which reads as PB_LAST_FIELD.
use get_together.Common.{
  ℕ, zero, suc, ◌<◌, ◌≡◌, ◌≢◌, refl, ap, ◌∙◌, Bool, true, false, some, List, [], ◌∷◌, ◌⊎◌, length,
  get_or, ◌==◌, Bool-cases, inl, inr, arith,
}
use get_together.Pb.Field.{Field, last_field}
use get_together.Iter.{FieldIter, is_extension, pb_field_iter_next}
use get_together.Iter.Nth.{IsDescriptors, nth, nth-place}
use get_together.Iter.Seek.{seek, seek-nth}
use get_together.Iter.Required.{required_total}
use get_together.Decode.Message.{extension_from, find_extension_field, required_count}
use get_together.Decode.Required.{required_count-nth}
use get_together.Iter.{current, pb_field_iter_find, find_from, pb_field_iter_begin}
use get_together.Iter.Find.{pb_field_iter_find-nth}
use get_together.Decode.Message.{seek_end}
use get_together.Decode.Contained.{FieldFits}

abbrev pub IsPlace : List Field → ℕ → Type 0
IsPlace [] zero = Unit {0}
IsPlace [] (suc k) = ⊥
IsPlace (field ∷ fields) k = k < length (field ∷ fields)

pub begin-IsPlace : (fields : List Field) → IsPlace fields 0
begin-IsPlace [] = tt
begin-IsPlace (field ∷ fields) = omega arith

extension_from-seek :
    (fuel start : ℕ) (it : FieldIter)
    → extension_from fuel start it ≡ seek (λ field. is_extension field.ltype) fuel start it
unfolding extension_from seek
extension_from-seek zero start it = refl
extension_from-seek (suc fuel) start it =
    rw (extension_from-seek fuel start (pb_field_iter_next it).0) refl

-- Without extensions, the iterator comes back to where it was.
find_extension_field-nth :
    (fields : List Field) (dest p : ℕ)
    → IsDescriptors fields
    → p < length fields
    → ((k : ℕ) → k < length fields → is_extension (get_or fields k last_field).ltype ≡ false)
    → find_extension_field (nth fields dest p) ≡ some (nth fields dest p, false)
unfolding find_extension_field
find_extension_field-nth fields dest p tags lt plain =
    let (a, b, c) = nth-place fields dest p in
    ap (λ fs. extension_from (suc (length fs)) (nth fields dest p).pos (nth fields dest p)) a
    ∙ ap (λ i. extension_from (suc (length fields)) i (nth fields dest p)) b
    ∙ extension_from-seek (suc (length fields)) p (nth fields dest p)
    ∙ elim (seek-nth (λ field. is_extension field.ltype) fields dest p tags lt) [
      | inl (i, inside, wanted, eq) ↦ absurd (differ _ wanted (plain i inside))
      | inr (eq, all) ↦ eq
    ]
  where
    differ : (b : Bool) → b ≡ true → b ≢ false
    differ b h g = cc

-- An array without fields.
module _ (dest : ℕ) where
  empty_extension : find_extension_field (nth [] dest 0) ≡ some (nth [] dest 0, false)
  unfolding find_extension_field extension_from pb_field_iter_next current nth pb_field_iter_begin
  empty_extension = refl

  empty_find :
      (tag : ℕ)
      → ((k : ℕ) × IsPlace [] k
          × (pb_field_iter_find (nth [] dest 0) tag ≡ some (nth [] dest k, true)))
        ⊎ (pb_field_iter_find (nth [] dest 0) tag ≡ some (nth [] dest 0, false))
  unfolding pb_field_iter_find find_from pb_field_iter_next current nth pb_field_iter_begin
  empty_find tag = elim (Bool-cases (0 == tag)) [
    | inl e ↦ inl (0, tt, rw e refl)
    | inr e ↦ inr (rw e refl)
  ]

  empty_count : required_count (nth [] dest 0) ≡ some (required_total [])
  unfolding required_count seek_end pb_field_iter_next current nth pb_field_iter_begin
      required_total
  empty_count = refl

  empty_fits :
      (inner : ℕ → ℕ → Type 0) (n : ℕ)
      → FieldFits inner dest n last_field (nth [] dest 0).p_data (nth [] dest 0).p_size
  unfolding nth pb_field_iter_begin
  empty_fits inner n = record {
    not_callback = λ h. cc;
    not_extension = λ h. cc;
    data_inside = (omega arith, omega arith);
    counted = λ h. elim h [ inl x ↦ cc | inr x ↦ cc ];
    marked = λ h. cc;
    four_bytes = λ h. cc;
    eight_bytes = λ h. cc;
    array_small = omega arith;
    submessage_inner = λ h. cc;
  }

pub find_extension_field-IsPlace :
    (fields : List Field) (dest p : ℕ)
    → IsDescriptors fields
    → IsPlace fields p
    → ((k : ℕ) → k < length fields → is_extension (get_or fields k last_field).ltype ≡ false)
    → find_extension_field (nth fields dest p) ≡ some (nth fields dest p, false)
find_extension_field-IsPlace [] dest zero tags at plain = empty_extension dest
find_extension_field-IsPlace [] dest (suc p) tags at plain = absurd at
find_extension_field-IsPlace (field ∷ fields) dest p tags at plain =
    find_extension_field-nth (field ∷ fields) dest p tags at plain

pub pb_field_iter_find-IsPlace :
    (fields : List Field) (dest p tag : ℕ)
    → IsDescriptors fields
    → IsPlace fields p
    → ((k : ℕ) × IsPlace fields k
        × (pb_field_iter_find (nth fields dest p) tag ≡ some (nth fields dest k, true)))
      ⊎ (pb_field_iter_find (nth fields dest p) tag ≡ some (nth fields dest p, false))
pb_field_iter_find-IsPlace [] dest zero tag tags at = empty_find dest tag
pb_field_iter_find-IsPlace [] dest (suc p) tag tags at = absurd at
pb_field_iter_find-IsPlace (field ∷ fields) dest p tag tags at =
    elim (pb_field_iter_find-nth (field ∷ fields) dest p tag tags at) [
      | inl (k, inside, has, eq) ↦ inl (k, inside, eq)
      | inr (eq, all) ↦ inr eq
    ]

pub required_count-IsPlace :
    (fields : List Field) (dest p : ℕ)
    → IsDescriptors fields
    → required_total fields < 64
    → IsPlace fields p
    → required_count (nth fields dest p) ≡ some (required_total fields)
required_count-IsPlace [] dest zero tags few at = empty_count dest
required_count-IsPlace [] dest (suc p) tags few at = absurd at
required_count-IsPlace (field ∷ fields) dest p tags few at =
    required_count-nth (field ∷ fields) dest tags p (omega arith) at

pub FieldFits-IsPlace :
    (inner : ℕ → ℕ → Type 0) (fields : List Field) (dest n p : ℕ)
    → ((k : ℕ)
        → k < length fields
        → FieldFits inner dest n
            (get_or fields k last_field)
            (nth fields dest k).p_data
            (nth fields dest k).p_size)
    → IsPlace fields p
    → FieldFits inner dest n
        (get_or fields p last_field)
        (nth fields dest p).p_data
        (nth fields dest p).p_size
FieldFits-IsPlace inner [] dest n zero fits at = empty_fits dest inner n
FieldFits-IsPlace inner [] dest n (suc p) fits at = absurd at
FieldFits-IsPlace inner (field ∷ fields) dest n p fits at = fits p at
