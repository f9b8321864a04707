-- ===== src/Iter/Find.antt =====
-- pb_field_iter_find is a search once around the array of descriptors.
use get_together.Common.{
  ℕ, zero, suc, ◌<◌, ◌≡◌, ◌⊎◌, refl, ap, ◌∙◌, Bool, true, false, not, ◌&&◌, some, List, length,
  get_or, ◌==◌,
}
use get_together.Pb.Field.{Field, last_field}
use get_together.Iter.{FieldIter, pb_field_iter_next, is_extension, find_from, pb_field_iter_find}
use get_together.Iter.Nth.{IsDescriptors, nth, nth-place}
use get_together.Iter.Seek.{seek, seek-nth}

-- A field that pb_field_iter_find looks for.
abbrev pub has_tag : ℕ → Field → Bool
has_tag tag field = field.tag == tag && not (is_extension field.ltype)

find_from-seek :
    (fuel start tag : ℕ) (it : FieldIter)
    → find_from fuel start tag it ≡ seek (has_tag tag) fuel start it
unfolding find_from seek
find_from-seek zero start tag it = refl
find_from-seek (suc fuel) start tag it =
    rw (find_from-seek fuel start tag (pb_field_iter_next it).0) refl

find-seek :
    (fields : List Field) (dest p tag : ℕ)
    → pb_field_iter_find (nth fields dest p) tag
      ≡ seek (has_tag tag) (suc (length fields)) p (nth fields dest p)
unfolding pb_field_iter_find
find-seek fields dest p tag =
    let (a, b, c) = nth-place fields dest p in
    ap (λ (t : List Field × ℕ). find_from (suc (length t.0)) t.1 tag (nth fields dest p))
      (λ i. (a i, b i))
    ∙ find_from-seek (suc (length fields)) p tag (nth fields dest p)

-- On the iterator that stands on a field `p` of an array whose fields have tags other than 0,
-- pb_field_iter_find ends, in one of two ways. Either it returns true, and the iterator stands
-- where a walk from the beginning reaches a field that has the tag and is no extension; or it
-- returns false, the iterator is the one it was, and no field of the array has the tag and is
-- no extension.
pub pb_field_iter_find-nth :
    (fields : List Field) (dest p tag : ℕ)
    → IsDescriptors fields
    → p < length fields
    → ((k : ℕ) × (k < length fields)
        × (has_tag tag (get_or fields k last_field) ≡ true)
        × (pb_field_iter_find (nth fields dest p) tag ≡ some (nth fields dest k, true)))
      ⊎ ((pb_field_iter_find (nth fields dest p) tag ≡ some (nth fields dest p, false))
          × ((k : ℕ) → k < length fields → has_tag tag (get_or fields k last_field) ≡ false))
pb_field_iter_find-nth fields dest p tag tags lt =
    rw (find-seek fields dest p tag) (seek-nth (has_tag tag) fields dest p tags lt)
