-- ===== src/Iter/Walk.antt =====
-- Where the iterator stands after each step.
use get_together.Common.{
  ℕ, zero, suc, ◌+◌, ◌<◌, ◌≡◌, ◌≢◌, refl, true, List, [], ◌∷◌, length, get_or, All, arith,
}
use get_together.Pb.Field.{Field, last_field}
use get_together.Iter.{FieldIter, pb_field_iter_begin, advance, pb_field_iter_next}

-- Behind its end an array reads as PB_LAST_FIELD.
pub tag-in_range :
    (fields : List Field) (k : ℕ) → (get_or fields k last_field).tag ≢ 0 → k < length fields
tag-in_range [] k h = absurd (h refl)
tag-in_range (f ∷ fields) zero h = omega arith
tag-in_range (f ∷ fields) (suc k) h = omega (arith, tag-in_range fields k h)

pub All-get_or {κ} :
    (P : Field → Type κ) (fields : List Field) (k : ℕ)
    → All P fields
    → k < length fields
    → P (get_or fields k last_field)
All-get_or P [] k h lt = absurd (omega arith)
All-get_or P (f ∷ fields) zero h lt = h.0
All-get_or P (f ∷ fields) (suc k) h lt = All-get_or P fields k h.1 (omega arith)

-- When pb_field_iter_next returns true, the iterator stays in the same array of descriptors and
-- stands on the next descriptor, in front of the end of the array.
pub next_more :
    (it : FieldIter)
    → (pb_field_iter_next it).1 ≡ true
    → ((pb_field_iter_next it).0.start ≡ it.start)
      × ((pb_field_iter_next it).0.pos ≡ it.pos + 1)
      × (it.pos + 1 < length it.start)
unfolding pb_field_iter_next advance
next_more it h = ground (arith, tag-in_range it.start (it.pos + 1))

pub begin_some :
    (fields : List Field) (p : ℕ) → (pb_field_iter_begin fields p).1 ≡ true → 0 < length fields
unfolding pb_field_iter_begin
begin_some fields p h = ground (arith, tag-in_range fields 0)
