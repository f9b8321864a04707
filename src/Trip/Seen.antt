-- ===== src/Trip/Seen.antt =====
-- The words of `fields_seen` while required fields are met one after another.
use Prim.Native.Nat.{min}
use native.Mathlib.Nat.{div-div-eq-div-mul, pow-suc, one-le-pow}
use native.Mathlib.Decide.{dec_lt}
use get_together.Common.{
  ℕ, zero, suc, ◌-◌, ◌*◌, ◌/◌, ◌%◌, ◌^◌, ◌≤◌, ◌<◌, ◌≡◌, ◌≢◌, sym, refl, ap, ◌∙◌, true, false, some,
  List, [], ◌∷◌, bit_or, gt→leb, le→leb, ◌==◌, arith,
}
use get_together.Common.Bits.{bit_or-shifted}
use get_together.Decode.Message.{set_bits, allbits, all_seen}

-- The lowest `r` bits of the two words.
abbrev pub seen_words : ℕ → List ℕ
seen_words r = (2 ^ min r 32 - 1) ∷ (2 ^ (r - 32) - 1) ∷ []

one_more : (r : ℕ) → bit_or (2 ^ r - 1) (2 ^ r) ≡ 2 ^ suc r - 1
one_more r =
    ap (λ (t : ℕ). bit_or (2 ^ r - 1) t) one_times
    ∙ bit_or-shifted r 1 (2 ^ r - 1) (omega (arith, one-le-pow r 2))
    ∙ omega (arith, one-le-pow r 2, pow-suc 2 r)
  where
    one_times : 2 ^ r ≡ 1 * 2 ^ r
    one_times = omega arith

-- The bit of the next required field is set.
pub set_bits-seen_words :
    (r : ℕ)
    → r < 64
    → set_bits (seen_words r) (r / 2 ^ 5) (2 ^ (r % 32)) ≡ some (seen_words (suc r))
unfolding set_bits
set_bits-seen_words r lt = elim (dec_lt r 32) [
  | yes low ↦ rw (first low) (ap some (λ i. low_word low i ∷ high_word low i ∷ []))
  | no above ↦
      let high : 32 ≤ r = omega arith in
      rw (second high) (ap some (λ i. full_word high i ∷ next_word high i ∷ []))
]
  where
    first : r < 32 → r / 2 ^ 5 ≡ 0
    first low = omega arith

    second : 32 ≤ r → r / 2 ^ 5 ≡ 1
    second high = omega arith

    low_word : r < 32 → bit_or (2 ^ min r 32 - 1) (2 ^ (r % 32)) ≡ 2 ^ min (suc r) 32 - 1
    low_word low =
        ap (λ (t : ℕ × ℕ). bit_or (2 ^ t.0 - 1) (2 ^ t.1)) (λ i. (here low i, rest low i))
        ∙ one_more r
        ∙ ap (λ (t : ℕ). 2 ^ t - 1) (omega arith)
      where
        here : r < 32 → min r 32 ≡ r
        here low = omega arith

        rest : r < 32 → r % 32 ≡ r
        rest low = omega arith

    high_word : r < 32 → 2 ^ (r - 32) - 1 ≡ 2 ^ (suc r - 32) - 1
    high_word low = ap (λ (t : ℕ). 2 ^ t - 1) (omega arith)

    full_word : 32 ≤ r → 2 ^ min r 32 - 1 ≡ 2 ^ min (suc r) 32 - 1
    full_word high = ap (λ (t : ℕ). 2 ^ t - 1) (omega arith)

    next_word : 32 ≤ r → bit_or (2 ^ (r - 32) - 1) (2 ^ (r % 32)) ≡ 2 ^ (suc r - 32) - 1
    next_word high =
        ap (λ (t : ℕ). bit_or (2 ^ (r - 32) - 1) (2 ^ t)) (omega arith)
        ∙ one_more (r - 32)
        ∙ ap (λ (t : ℕ). 2 ^ t - 1) (omega arith)

-- The highest bits of a word, moved down.
ones_shifted : (k : ℕ) → k ≤ 32 → allbits / 2 ^ k ≡ 2 ^ (32 - k) - 1
ones_shifted zero h = refl
ones_shifted (suc k) h =
    ap (λ (t : ℕ). allbits / t) (pow-suc 2 k)
    ∙ sym (div-div-eq-div-mul allbits (2 ^ k) 2)
    ∙ omega (arith, ones_shifted k (omega arith), halve)
  where
    halve : 2 ^ (32 - k) ≡ 2 ^ (32 - suc k) * 2
    halve = ap (λ (t : ℕ). 2 ^ t) split ∙ pow-suc 2 (32 - suc k)
      where
        split : 32 - k ≡ suc (32 - suc k)
        split = omega arith

partial_word : (c : ℕ) → c ≤ 32 → (2 ^ c - 1 == allbits / 2 ^ (32 - c)) ≡ true
partial_word c h = ground (arith, ones_shifted (32 - c) (omega arith), back)
  where
    back : 2 ^ (32 - (32 - c)) ≡ 2 ^ c
    back = ap (λ (t : ℕ). 2 ^ t) (omega arith)

last_word :
    (c : ℕ) (words : List ℕ)
    → (c == 0) ≡ false
    → c < 32
    → all_seen ((2 ^ c - 1) ∷ words) c ≡ some true
unfolding all_seen
last_word c words more few = rw (gt→leb 32 c few, more) (ap some (partial_word c (omega arith)))

-- When as many required fields were seen as there are, less than 64 and not 32, the check holds.
pub all_seen-seen_words :
    (c : ℕ) → (c == 0) ≡ false → c < 64 → c ≢ 32 → all_seen (seen_words c) c ≡ some true
all_seen-seen_words c more few odd = elim (dec_lt c 32) [
  | yes low ↦
      ap (λ (t : ℕ). all_seen ((2 ^ t - 1) ∷ (2 ^ (c - 32) - 1) ∷ []) c) (here low)
      ∙ last_word c _ more low
  | no high ↦
      ap (λ (t : ℕ). all_seen ((2 ^ t - 1) ∷ (2 ^ (c - 32) - 1) ∷ []) c) (whole (omega arith))
      ∙ unfold all_seen in
        rw (le→leb 32 c (omega arith)) (last_word (c - 32) [] (ground arith) (omega arith))
]
  where
    here : c < 32 → min c 32 ≡ c
    here low = omega arith

    whole : 32 ≤ c → min c 32 ≡ 32
    whole high = omega arith
