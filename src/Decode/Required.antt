-- ===== src/Decode/Required.antt =====
-- Pods/nanopb/pb_decode.c: the required fields of a message, which pb_decode_noinit counts and checks.
use get_together.Common.{
  ℕ, zero, suc, ◌+◌, ◌-◌, ◌/◌, ◌%◌, ◌^◌, ◌≤◌, ◌<◌, ◌≡◌, ◌≢◌, refl, ap, ◌∙◌, Bool, true, false, ◌&&◌,
  some, List, [], ◌∷◌, length, get_or, ltb, leb, leb→gt, gt→leb, ◌==◌, Bool-cases, inl, inr, arith,
}
use native.Mathlib.Decide.{dec_lt}
use get_together.Pb.{u32_mod}
use get_together.Pb.Field.{Field, last_field}
use get_together.Iter.{FieldIter, current, is_required}
use get_together.Iter.Nth.{IsDescriptors, nth, nth-place, current-nth, next-nth, next-last}
use get_together.Iter.Walk.{All-get_or}
use get_together.Iter.Required.{required_total, required_total-drop, required_total-past, nth-index}
use get_together.Decode.Message.{
  pb_max_required_fields, set_bits, mark_seen, seek_end, required_count, allbits, all_seen,
}

module _ (fields : List Field) (dest : ℕ) (tags : IsDescriptors fields) where
  -- The walk ends behind the last field, whose index and repetition rule it gives.
  seek_end-nth :
      (fuel k : ℕ)
      → k < length fields
      → length fields ≤ k + fuel
      → (m : ℕ) × (m + 1 ≡ length fields)
        × (seek_end fuel (nth fields dest k)
            ≡ some (
              nth fields dest 0,
              (nth fields dest m).required_field_index,
              (get_or fields m last_field).htype,
            ))
  unfolding seek_end
  seek_end-nth zero k lt enough = absurd (omega arith)
  seek_end-nth (suc fuel) k lt enough = elim (dec_lt (k + 1) (length fields)) [
    | yes more ↦
        let (m, last, eq) = seek_end-nth fuel (suc k) (omega arith) (omega arith) in
        (m, last, rw (next-nth fields dest k tags more) eq)
    | no done ↦
        let last : k + 1 ≡ length fields = omega arith in
        (k, last, rw (next-last fields dest k tags last, current-nth fields dest k) refl)
  ]

  -- For an array of less than 2^32 required fields, of tags other than 0, the number of
  -- required fields that pb_decode_noinit finds by walking to the end is the number of required
  -- fields in the array, from whichever field the walk starts.
  pub required_count-nth :
      (k : ℕ)
      → required_total fields < u32_mod
      → k < length fields
      → required_count (nth fields dest k) ≡ some (required_total fields)
  unfolding required_count
  required_count-nth k few lt =
      let (m, last, eq) = seek_end-nth (suc (length fields)) k lt (omega arith) in
      let walk =
        ap (λ fs. seek_end (suc (length fs)) (nth fields dest k)) (nth-place fields dest k).0
        ∙ eq in
      rw (walk, current-nth fields dest 0)
        (ap some (
          ground (
            arith,
            All-get_or (λ field. field.tag ≢ 0) fields 0 tags (omega arith),
            nth-index fields dest m few (omega arith),
            required_total-drop fields m (omega arith),
            required_total-past fields (suc m) (omega arith),
          )))

set_bits-length :
    (words : List ℕ) (i bits : ℕ)
    → i < length words
    → (words' : List ℕ) × (set_bits words i bits ≡ some words') × (length words' ≡ length words)
unfolding set_bits
set_bits-length [] i bits lt = absurd (omega arith)
set_bits-length (w ∷ ws) zero bits lt = (_, refl, refl)
set_bits-length (w ∷ ws) (suc i) bits lt =
    let (ws', eq, same) = set_bits-length ws i bits (omega arith) in
    (w ∷ ws', rw eq refl, omega (arith, same))

-- The bit of a field is among the words of `fields_seen`.
pub mark_seen-length :
    (it : FieldIter) (seen : List ℕ)
    → length seen ≡ 2
    → (seen' : List ℕ) × (mark_seen it seen ≡ some seen') × (length seen' ≡ 2)
unfolding mark_seen
mark_seen-length it seen two =
    elim (Bool-cases
      (is_required (current it).htype && ltb it.required_field_index pb_max_required_fields)) [
        | inl e ↦
            let (seen', eq, same) =
              set_bits-length seen (it.required_field_index / 2 ^ 5)
                (2 ^ (it.required_field_index % 32))
                (omega (
                  arith,
                  two,
                  and_right (is_required (current it).htype) it.required_field_index e,
                )) in
            (seen', rw (e, eq) refl, same ∙ two)
        | inr e ↦ (seen, rw e refl, two)
      ]
  where
    and_right : (a : Bool) (i : ℕ) → (a && ltb i 64) ≡ true → i < 64
    and_right a i h = ground arith

last_word :
    (w count : ℕ) (words : List ℕ)
    → (count == 0) ≡ false
    → count < 32
    → all_seen (w ∷ words) count ≡ some (w == allbits / 2 ^ (32 - count))
unfolding all_seen
last_word w count words more few = rw (gt→leb 32 count few, more) refl

-- Two words hold the bits of less than 64 fields; for 32 the C code has no meaning.
pub all_seen-some :
    (seen : List ℕ) (count : ℕ)
    → length seen ≡ 2
    → (count == 0) ≡ false
    → count < 64
    → count ≢ 32
    → (b : Bool) × (all_seen seen count ≡ some b)
all_seen-some [] count two more few odd = absurd (omega arith)
all_seen-some (w ∷ []) count two more few odd = absurd (omega arith)
all_seen-some (w ∷ v ∷ words) count two more few odd = elim (Bool-cases (leb 32 count)) [
  | inr e ↦ (_, last_word w count (v ∷ words) more (leb→gt 32 count e))
  | inl e ↦ elim (Bool-cases (w == allbits)) [
    | inl all ↦ (
      v == allbits / 2 ^ (32 - (count - 32)),
      unfold all_seen in
          rw (e, all) (last_word v (count - 32) words (ground (arith, e)) (omega arith)),
    )
    | inr all ↦ (false, unfold all_seen in rw (e, all) refl)
  ]
]
