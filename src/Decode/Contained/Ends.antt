-- ===== src/Decode/Contained/Ends.antt =====
-- The search for an extension, and the check of the required fields at the end of a message.
use get_together.Common.{
  ℕ, suc, ◌≤◌, ◌<◌, ◌≡◌, ◌≢◌, refl, ap, ◌∙◌, true, some, List, length, ◌==◌, Bool-cases, inl, inr,
  arith,
}
use get_together.Pb.{missing_required_field}
use get_together.Pb.Field.{Field}
use get_together.Memory.{Memory}
use get_together.Iter.Nth.{IsDescriptors, nth}
use get_together.Iter.Required.{required_total}
use get_together.IStream.{IStream}
use get_together.IStream.Safe.{IsSafe}
use get_together.Decode.Fields.Within.{Frame, Within, Within-decoded, Within-error, Within-if}
use get_together.Decode.Message.{Progress, required_count, all_seen, check_required}
use get_together.Decode.Required.{all_seen-some}
use get_together.Decode.Contained.Places.{IsPlace, required_count-IsPlace}

-- Where the rounds of a message are: the iterator is on a field, and `fields_seen` is two words.
abbrev pub IsOn : List Field → ℕ → Progress → Type 0
IsOn fields dest st =
    (k : ℕ) × IsPlace fields k × (st.iter ≡ nth fields dest k) × (length st.fields_seen ≡ 2)

-- A message in a struct of `n` bytes at `dest`, with memory `mem` before, and `left` bytes to read.
module _ (fields : List Field) (dest n k left : ℕ) (mem : Memory) (tags : IsDescriptors fields)
    (few : required_total fields < 64) (odd : required_total fields ≢ 32) where
  Within-checked :
      (s : IStream) (mem' : Memory) (seen : List ℕ) (count : ℕ)
      → IsSafe k s
      → s.bytes_left ≤ left
      → Frame mem dest n mem'
      → length seen ≡ 2
      → count < 64
      → count ≢ 32
      → (st : Progress) → st.fields_seen ≡ seen
      → required_count st.iter ≡ some count
      → Within k (suc left) mem dest n (check_required s mem' st)
  unfolding check_required
  Within-checked s mem' seen count h le same two few odd st e counts =
      elim (Bool-cases (count == 0)) [
        | inl none_required ↦
            rw (counts, none_required)
              (Within-decoded k (suc left) mem dest n mem' true s h (omega arith) same)
        | inr more ↦
            let (b, eq) = all_seen-some seen count two more few odd in
            let eq' = ap (λ ws. all_seen ws count) e ∙ eq in
            rw (counts, more, eq')
              (Within-if k (suc left) mem dest n b _ _
                (λ _. Within-decoded k (suc left) mem dest n mem' true s h (omega arith) same)
                λ _.
                  Within-error k (suc left) mem dest n mem' s missing_required_field h (omega arith)
                    same)
      ]

  pub Within-check_required :
      (s : IStream) (mem' : Memory) (st : Progress)
      → IsSafe k s
      → s.bytes_left ≤ left
      → Frame mem dest n mem'
      → IsOn fields dest st
      → Within k (suc left) mem dest n (check_required s mem' st)
  Within-check_required s mem' st h le same (i, lt, at, two) =
      Within-checked s mem' st.fields_seen (required_total fields) h le same two few odd st refl
        (ap required_count at ∙ required_count-IsPlace fields dest i tags few lt)
