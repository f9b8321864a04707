-- ===== src/Iter/Seek.antt =====
-- A search once around the array of descriptors, from where it starts: it finds a descriptor that
-- is wanted, or there is none.
use native.Mathlib.Decide.{dec_lt}
use get_together.Common.{
  ℕ, zero, suc, ◌+◌, ◌≤◌, ◌<◌, ◌≡◌, ◌⊎◌, refl, ap, ◌∙◌, Bool, true, false, Option, some, none, List,
  length, get_or, ◌==◌, if◌then◌else◌, Bool-cases, inl, inr, arith,
}
use get_together.Pb.Field.{Field, last_field}
use get_together.Iter.{FieldIter, current, pb_field_iter_next}
use get_together.Iter.Nth.{IsDescriptors, nth, nth-place, current-nth, next-nth, next-last}

self_eq : (n : ℕ) → (n == n) ≡ true
self_eq n = ground arith

other : (a b : ℕ) → a < b ⊎ b < a → (a == b) ≡ false
other a b h = ground arith

-- A search around the array that stops at a descriptor that `wanted` accepts.
unfoldable pub seek : (Field → Bool) → ℕ → ℕ → FieldIter → Option (FieldIter × Bool)
seek wanted zero start it = none
seek wanted (suc fuel) start it =
    let it' : FieldIter = (pb_field_iter_next it).0 in
    let rest = seek wanted fuel start it' in
    if wanted (current it)
    then some (it, true)
    else if it'.pos == start
    then some (it', false)
    else rest

module _ (wanted : Field → Bool) (fields : List Field) (dest : ℕ) (tags : IsDescriptors fields)
    (start : ℕ) (inside : start < length fields) where
  -- The descriptor at `k` is wanted, or not.
  abbrev pub IsWanted : ℕ → Type 0
  IsWanted k = wanted (get_or fields k last_field) ≡ true

  abbrev pub IsPassed : ℕ → Type 0
  IsPassed k = wanted (get_or fields k last_field) ≡ false

  -- What a search from `p` on gives.
  abbrev Result : ℕ → ℕ → (ℕ → Type 0) → Type 0
  Result fuel p Rest =
      ((k : ℕ) × (k < length fields)
        × IsWanted k
        × (seek wanted fuel start (nth fields dest p) ≡ some (nth fields dest k, true)))
      ⊎ ((seek wanted fuel start (nth fields dest p) ≡ some (nth fields dest start, false))
          × ((k : ℕ) → Rest k → IsPassed k))

  seek-found :
      (fuel p : ℕ)
      → IsWanted p
      → seek wanted (suc fuel) start (nth fields dest p) ≡ some (nth fields dest p, true)
  unfolding seek
  seek-found fuel p e = rw (current-nth fields dest p, e) refl

  seek-stop :
      (fuel p q : ℕ) (more : Bool)
      → IsPassed p
      → pb_field_iter_next (nth fields dest p) ≡ (nth fields dest q, more)
      → q ≡ start
      → seek wanted (suc fuel) start (nth fields dest p) ≡ some (nth fields dest start, false)
  unfolding seek
  seek-stop fuel p q more e next eq =
      rw (current-nth fields dest p, e, next, stops)
        (ap (λ (t : ℕ). some (nth fields dest t, false)) eq)
    where
      stops : ((nth fields dest q).pos == start) ≡ true
      stops = ap (λ (t : ℕ). t == start) ((nth-place fields dest q).1 ∙ eq) ∙ self_eq start

  seek-next :
      (fuel p q : ℕ) (more : Bool)
      → IsPassed p
      → pb_field_iter_next (nth fields dest p) ≡ (nth fields dest q, more)
      → (q == start) ≡ false
      → seek wanted (suc fuel) start (nth fields dest p)
        ≡ seek wanted fuel start (nth fields dest q)
  unfolding seek
  seek-next fuel p q more e next ne =
      rw (current-nth fields dest p, e, next, (nth-place fields dest q).1, ne) refl

  -- The descriptors that a search from `p` on passes.
  abbrev Below : ℕ → ℕ → Type 0
  Below p k = (p ≤ k) × (k < start)

  abbrev Around : ℕ → ℕ → Type 0
  Around p k = (k < length fields) × ((p ≤ k) ⊎ (k < start))

  -- One round that goes on to `q`.
  Result-step :
      (fuel p q : ℕ) (more : Bool) (Rest Rest' : ℕ → Type 0)
      → IsPassed p
      → pb_field_iter_next (nth fields dest p) ≡ (nth fields dest q, more)
      → (q == start) ≡ false
      → ((k : ℕ) → Rest k → (k ≡ p) ⊎ Rest' k)
      → Result fuel q Rest'
      → Result (suc fuel) p Rest
  Result-step fuel p q more Rest Rest' e next ne split (inl (k, lt, w, eq)) =
      inl (k, lt, w, seek-next fuel p q more e next ne ∙ eq)
  Result-step fuel p q more Rest Rest' e next ne split (inr (eq, all)) = inr (
    seek-next fuel p q more e next ne ∙ eq,
    λ k h. elim (split k h) [ inl same ↦ rw same e | inr rest ↦ all k rest ],
  )

  -- A round that finds the descriptor, or goes on.
  Result-or :
      (fuel p : ℕ) (Rest : ℕ → Type 0)
      → p < length fields
      → (IsPassed p → Result (suc fuel) p Rest)
      → Result (suc fuel) p Rest
  Result-or fuel p Rest lt h = elim (Bool-cases (wanted (get_or fields p last_field))) [
    | inl e ↦ inl (p, lt, e, seek-found fuel p e)
    | inr e ↦ h e
  ]

  seek-Below : (fuel p : ℕ) → p < start → start ≤ p + fuel → Result fuel p (Below p)
  seek-Below zero p lt le = absurd (omega arith)
  seek-Below (suc fuel) p lt le = Result-or fuel p (Below p) (omega (arith, inside)) λ e.
      elim (dec_lt (p + 1) start) [
        | yes more ↦
            Result-step fuel p (suc p) true (Below p) (Below (suc p)) e
              (next-nth fields dest p tags (omega (arith, inside)))
              (other (suc p) start (inl (omega arith))) (λ k h. ground arith)
              (seek-Below fuel (suc p) (omega arith) (omega arith))
        | no last ↦ inr (
          seek-stop fuel p (suc p) true e (next-nth fields dest p tags (omega (arith, inside)))
              (omega arith),
          λ k h. rw (only k p start h (omega arith)) e,
        )
      ]
    where
      only : (k p start : ℕ) → (p ≤ k) × (k < start) → start ≤ p + 1 → k ≡ p
      only k p start h le = omega (arith, h.0, h.1)

  seek-Around :
      (fuel p : ℕ)
      → start ≤ p
      → p < length fields
      → length fields + start ≤ p + fuel
      → Result fuel p (Around p)
  seek-Around zero p ge lt le = absurd (omega arith)
  seek-Around (suc fuel) p ge lt le = Result-or fuel p (Around p) lt λ e.
      elim (dec_lt (p + 1) (length fields)) [
        | yes more ↦
            Result-step fuel p (suc p) true (Around p) (Around (suc p)) e
              (next-nth fields dest p tags more) (other (suc p) start (inr (omega arith)))
              (λ k h. ground arith)
              (seek-Around fuel (suc p) (omega arith) (omega arith) (omega arith))
        | no last ↦ elim (dec_lt 0 start) [
          | yes pos ↦
              Result-step fuel p 0 false (Around p) (Below 0) e
                (next-last fields dest p tags (omega arith)) (other 0 start (inl pos))
                (λ k h. ground arith) (seek-Below fuel 0 pos (omega arith))
          | no zero_start ↦ inr (
            seek-stop fuel p 0 false e (next-last fields dest p tags (omega arith)) (omega arith),
            λ k h. rw (only k p start (length fields) h (omega arith) (omega arith)) e,
          )
        ]
      ]
    where
      only : (k p start n : ℕ) → (k < n) × ((p ≤ k) ⊎ (k < start)) → n ≤ p + 1 → start ≤ 0 → k ≡ p
      only k p start n h le l = ground arith

-- Once around, from `p` on.
pub seek-nth :
    (wanted : Field → Bool) (fields : List Field) (dest p : ℕ)
    → IsDescriptors fields
    → p < length fields
    → ((k : ℕ) × (k < length fields)
        × (wanted (get_or fields k last_field) ≡ true)
        × (seek wanted (suc (length fields)) p (nth fields dest p)
            ≡ some (nth fields dest k, true)))
      ⊎ ((seek wanted (suc (length fields)) p (nth fields dest p) ≡ some (nth fields dest p, false))
          × ((k : ℕ) → k < length fields → wanted (get_or fields k last_field) ≡ false))
seek-nth wanted fields dest p tags lt =
    elim (seek-Around wanted fields dest tags p lt (suc (length fields)) p (omega arith) lt
      (omega arith)) [ inl found ↦ inl found | inr (eq, all) ↦ inr (eq, λ k h. all k (h, side k)) ]
  where
    side : (k : ℕ) → (p ≤ k) ⊎ (k < p)
    side k = ground arith
