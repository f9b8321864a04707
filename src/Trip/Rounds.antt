-- ===== src/Trip/Rounds.antt =====
-- The loops of pb_encode and pb_decode_noinit over the fields of a flat message.
use get_together.Common.{
  ℕ, zero, suc, ◌+◌, ◌≤◌, ◌<◌, ◌≡◌, ◌≢◌, inl, inr, refl, ap, ◌∙◌, true, false, some, List, [], ◌∷◌,
  ◌++◌, length, get_or, drop, lt→ltb, ◌==◌, if◌then◌else◌, Bool-cases, Bool, arith,
}
use get_together.Pb.Field.{HType, required, Field, last_field}
use get_together.Memory.{Memory}
use get_together.OStream.Emits.{Action, Emits, Emits-bind}
use get_together.OStream.Uniform.{Emits-returns}
use get_together.IStream.{IStream}
use get_together.Iter.{is_required, is_extension, pb_field_iter_find}
use get_together.Iter.Nth.{IsDescriptors, nth, current-nth, next-nth, next-last}
use get_together.Iter.Required.{required_total, required_total-drop, nth-index}
use get_together.Encode.Env.{Env}
use get_together.Encode.Message.{encode_one, each_field}
use get_together.Decode.Fields.{decoded}
use get_together.Decode.Message.{Progress, mark_seen, required_count, all_seen, check_required}
use get_together.Iter.Find.{has_tag, pb_field_iter_find-nth}
use get_together.Decode.Contained.Places.{IsPlace, required_count-IsPlace}
use get_together.Trip.Seen.{seen_words, set_bits-seen_words, all_seen-seen_words}

-- The fields from `k` on, `n` of them, each with its bytes.
module _ (segment : ℕ → List ℕ) where
  abbrev pub segments : ℕ → ℕ → List ℕ
  segments zero k = []
  segments (suc n) k = segment k ++ segments n (suc k)

  pub Emits-each_field :
      (e : Env) (depth : ℕ) (encode : List Field → ℕ → Action) (fields : List Field) (src : ℕ)
      → IsDescriptors fields
      → ((k : ℕ)
          → k < length fields
          → Emits (λ s. encode_one e depth encode (nth fields src k) s) (segment k))
      → (fuel n k : ℕ) → suc n + k ≡ length fields
      → suc n ≤ fuel
      → Emits (λ s. each_field e depth encode fuel (nth fields src k) s) (segments (suc n) k)
  unfolding each_field
  Emits-each_field e depth encode fields src tags each zero n k len le = absurd (omega arith)
  Emits-each_field e depth encode fields src tags each (suc fuel) zero k len le =
      Emits-bind _ _ (segment k) [] (each k (omega arith))
        (rw (next-last fields src k tags (omega arith)) Emits-returns)
  Emits-each_field e depth encode fields src tags each (suc fuel) (suc n) k len le =
      Emits-bind _ _ (segment k) (segments (suc n) (suc k)) (each k (omega arith)) (
        rw (next-nth fields src k tags (omega arith)) (
          Emits-each_field e depth encode fields src tags each fuel n (suc k) (omega arith)
            (omega arith)))

-- The bit of a required field is set, when the required fields before it have theirs.
pub mark_seen-nth :
    (fields : List Field) (dest k r : ℕ)
    → required_total fields < 64
    → k < length fields
    → r + required_total (drop k fields) ≡ required_total fields
    → (r' : ℕ) × (mark_seen (nth fields dest k) (seen_words r) ≡ some (seen_words r'))
      × (r' + required_total (drop (suc k) fields) ≡ required_total fields)
unfolding mark_seen
mark_seen-nth fields dest k r few lt here =
    let total = required_total-drop fields k lt in
    let same : (nth fields dest k).required_field_index ≡ r =
      omega (arith, nth-index fields dest k (omega arith) lt) in
    elim (Bool-cases (is_required (get_or fields k last_field).htype)) [
      | inl e ↦
          let more : required_total (drop k fields) ≡ suc (required_total (drop (suc k) fields)) =
            total
            ∙ ap
                (λ (b : Bool).
                  if b
                  then suc (required_total (drop (suc k) fields))
                  else required_total (drop (suc k) fields))
                e in
          (
            suc r,
            rw (current-nth fields dest k, e, same, lt→ltb r 64 (omega (arith, more)))
                (set_bits-seen_words r (omega (arith, more))),
            omega (arith, more),
          )
      | inr e ↦
          let equal : required_total (drop k fields) ≡ required_total (drop (suc k) fields) =
            total
            ∙ ap
                (λ (b : Bool).
                  if b
                  then suc (required_total (drop (suc k) fields))
                  else required_total (drop (suc k) fields))
                e in
          (r, rw (current-nth fields dest k, e) refl, omega (arith, equal))
    ]

-- An optional field has no bit.
pub unmarked :
    (fields : List Field) (k : ℕ)
    → k < length fields
    → (get_or fields k last_field).htype ≢ required
    → required_total (drop k fields) ≡ required_total (drop (suc k) fields)
unmarked fields k lt other =
    required_total-drop fields k lt
    ∙ ap
        (λ (b : Bool).
          if b
          then suc (required_total (drop (suc k) fields))
          else required_total (drop (suc k) fields))
        (not_required (get_or fields k last_field).htype other)
  where
    not_required : (t : HType) → t ≢ required → is_required t ≡ false
    not_required required h = absurd (h refl)
    not_required _ h = refl

pub IsPlace-lt :
    (fields : List Field) (p k : ℕ) → k < length fields → IsPlace fields p → p < length fields
IsPlace-lt [] p k lt h = absurd (omega arith)
IsPlace-lt (field ∷ fields) p k lt h = h

pub lt-IsPlace : (fields : List Field) (p : ℕ) → p < length fields → IsPlace fields p
lt-IsPlace [] p h = absurd (omega arith)
lt-IsPlace (field ∷ fields) p h = h

-- The field with the tag is the one that pb_field_iter_find finds.
pub find-tag :
    (fields : List Field) (dest p k : ℕ)
    → IsDescriptors fields
    → ((j k : ℕ)
        → j < length fields
        → k < length fields
        → (get_or fields j last_field).tag ≡ (get_or fields k last_field).tag
        → j ≡ k)
    → is_extension (get_or fields k last_field).ltype ≡ false
    → p < length fields
    → k < length fields
    → pb_field_iter_find (nth fields dest p) (get_or fields k last_field).tag
      ≡ some (nth fields dest k, true)
find-tag fields dest p k tags distinct plain at lt =
    let tag : ℕ = (get_or fields k last_field).tag in
    elim (pb_field_iter_find-nth fields dest p tag tags at) [
      | inl (j, inside, wanted, eq) ↦
          let same : j ≡ k = distinct j k inside lt (tag_of (get_or fields j last_field) wanted) in
          eq ∙ ap (λ (i : ℕ). some (nth fields dest i, true)) same
      | inr (eq, passed) ↦ absurd (never (get_or fields k last_field) plain (passed k lt))
    ]
  where
    tag_of :
        (field : Field)
        → has_tag (get_or fields k last_field).tag field ≡ true
        → field.tag ≡ (get_or fields k last_field).tag
    tag_of field h = ground arith

    never : (field : Field) → is_extension field.ltype ≡ false → has_tag field.tag field ≡ false → ⊥
    never field e h = ground arith

-- With all required fields seen the message is complete.
pub check_required_complete :
    (fields : List Field) (dest p : ℕ) (s : IStream) (mem : Memory) (st : Progress)
    → IsDescriptors fields
    → required_total fields < 64
    → required_total fields ≢ 32
    → IsPlace fields p
    → st.iter ≡ nth fields dest p
    → st.fields_seen ≡ seen_words (required_total fields)
    → check_required s mem st ≡ decoded true mem s
unfolding check_required
check_required_complete fields dest p s mem st tags few odd at on seen =
    let counts : required_count st.iter ≡ some (required_total fields) =
      ap required_count on ∙ required_count-IsPlace fields dest p tags few at in
    elim (Bool-cases (required_total fields == 0)) [
      | inl e ↦ rw (counts, e) refl
      | inr e ↦
          let all =
            ap (λ ws. all_seen ws (required_total fields)) seen
            ∙ all_seen-seen_words (required_total fields) e few odd in
          rw (counts, e, all) refl
    ]
