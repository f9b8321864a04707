-- ===== src/Iter/Nth.antt =====
-- The iterator at each descriptor of an array, as a walk from the beginning reaches it.
use get_together.Common.{
  ℕ, zero, suc, ◌+◌, ◌≤◌, ◌<◌, ◌≡◌, ◌≢◌, refl, ◌∙◌, true, false, List, [], ◌∷◌, length, get_or, All,
  ◌==◌, arith,
}
use get_together.Pb.Field.{Field, last_field}
use get_together.Iter.{FieldIter, current, pb_field_iter_begin, advance, pb_field_iter_next}
use get_together.Iter.Walk.{All-get_or}

-- An array of descriptors: only PB_LAST_FIELD behind its end has tag 0.
abbrev pub IsDescriptors : List Field → Type 0
IsDescriptors fields = All (λ field. field.tag ≢ 0) fields

pub get_or-past :
    (fields : List Field) (k : ℕ) → length fields ≤ k → get_or fields k last_field ≡ last_field
get_or-past [] k h = refl
get_or-past (f ∷ fields) zero h = absurd (omega arith)
get_or-past (f ∷ fields) (suc k) h = get_or-past fields k (omega arith)

-- The iterator that has taken `k` steps from the beginning.
unfoldable pub nth : List Field → ℕ → ℕ → FieldIter
nth fields dest zero = (pb_field_iter_begin fields dest).0
nth fields dest (suc k) =
    advance (nth fields dest k) (get_or fields k last_field) (get_or fields (k + 1) last_field)

pub begin-nth :
    (fields : List Field) (dest : ℕ) → (pb_field_iter_begin fields dest).0 ≡ nth fields dest 0
unfolding nth
begin-nth fields dest = refl

module _ (fields : List Field) (dest : ℕ) where
  advance-place :
      (it : FieldIter) (prev field : Field)
      → ((advance it prev field).start ≡ it.start)
        × ((advance it prev field).pos ≡ it.pos + 1)
        × ((advance it prev field).dest_struct ≡ it.dest_struct)
  unfolding advance
  advance-place it prev field = ground arith

  pub nth-place :
      (k : ℕ)
      → ((nth fields dest k).start ≡ fields)
        × ((nth fields dest k).pos ≡ k)
        × ((nth fields dest k).dest_struct ≡ dest)
  unfolding nth pb_field_iter_begin
  nth-place zero = (refl, refl, refl)
  nth-place (suc k) =
      let (a, b, c) = nth-place k in
      let (a', b', c') =
        advance-place (nth fields dest k) (get_or fields k last_field)
          (get_or fields (k + 1) last_field) in
      (a' ∙ a, omega (arith, b, b'), c' ∙ c)

  pub current-nth : (k : ℕ) → current (nth fields dest k) ≡ get_or fields k last_field
  unfolding current
  current-nth k = let (a, b, c) = nth-place k in rw (a, b) refl

  nonzero-tag :
      (k : ℕ)
      → IsDescriptors fields
      → k < length fields
      → ((get_or fields k last_field).tag == 0) ≡ false
  nonzero-tag k h lt = ground (arith, All-get_or (λ field. field.tag ≢ 0) fields k h lt)

  pub next-nth :
      (k : ℕ)
      → IsDescriptors fields
      → k + 1 < length fields
      → pb_field_iter_next (nth fields dest k) ≡ (nth fields dest (suc k), true)
  unfolding pb_field_iter_next nth advance
  next-nth k h lt =
      let (a, b, c) = nth-place k in
      rw (current-nth k, a, b, nonzero-tag k h (omega arith), nonzero-tag (k + 1) h lt) refl

  pub next-last :
      (k : ℕ)
      → IsDescriptors fields
      → k + 1 ≡ length fields
      → pb_field_iter_next (nth fields dest k) ≡ (nth fields dest 0, false)
  unfolding pb_field_iter_next
  next-last k h eq =
      let (a, b, c) = nth-place k in
      rw
        (
          current-nth k,
          nonzero-tag k h (omega arith),
          a,
          b,
          c,
          get_or-past fields (k + 1) (omega arith),
        )
        (unfold nth in refl)
