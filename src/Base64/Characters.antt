-- ===== src/Base64/Characters.antt =====
-- The alphabet, and the bytes that are put together from the values of characters.
use get_together.Common.{
  ℕ, zero, suc, ◌*◌, ◌/◌, ◌%◌, ◌^◌, ◌<◌, ◌≡◌, refl, ap, ◌∙◌, Bool, true, false, not, ◌&&◌, Option,
  none, some, case_option, bit_and, bit_or, ◌==◌, if◌then◌else◌, Bool-cases, inl, inr, arith,
}
use get_together.Common.Bits.{bit_and-ones, shifted-bit_or}
use get_together.Base64.{
  alphabet, char_at, pad64, isspace, strchr, output_0, output_1, output_2, output_3,
}

-- A character of the alphabet, which strchr finds.
abbrev is_char : ℕ → Bool
is_char n =
    not (isspace (char_at n))
    && not (char_at n == pad64)
    && case_option (strchr alphabet (char_at n)) false (λ m. m == n)

abbrev all_below : ℕ → (ℕ → Bool) → Bool
all_below zero f = true
all_below (suc n) f = if f n then all_below n f else false

all_below-lt : (n k : ℕ) (f : ℕ → Bool) → all_below n f ≡ true → k < n → f k ≡ true
all_below-lt zero k f h lt = absurd (omega arith)
all_below-lt (suc n) k f h lt = elim (Bool-cases (f n)) [
  | inl e ↦ ground (arith, all_below-lt n k f)
  | inr e ↦ ground arith
]

alphabet-all : all_below 64 is_char ≡ true
unfolding char_at strchr
alphabet-all = refl

pub char_at-strchr :
    (n : ℕ)
    → n < 64
    → (isspace (char_at n) ≡ false)
      × ((char_at n == pad64) ≡ false)
      × (strchr alphabet (char_at n) ≡ some n)
char_at-strchr n lt =
    split (isspace (char_at n)) (char_at n == pad64) (strchr alphabet (char_at n))
      (all_below-lt 64 n is_char alphabet-all lt)
  where
    split :
        (a b : Bool) (o : Option ℕ)
        → (not a && not b && case_option o false (λ m. m == n)) ≡ true
        → (a ≡ false) × (b ≡ false) × (o ≡ some n)
    split true b o h = cc
    split false true o h = cc
    split false false none h = cc
    split false false (some m) h = (refl, refl, ap some (ground arith))

module _ (a b c : ℕ) (a_byte : a < 256) (b_byte : b < 256) (c_byte : c < 256) where
  pub output-lt : (output_0 a < 64) × (output_1 a b < 64) × (output_2 b c < 64) × (output_3 c < 64)
  unfolding output_0 output_1 output_2 output_3
  output-lt = (
    omega arith,
    omega (arith, bit_and-ones 2 3 a refl),
    omega (arith, bit_and-ones 4 15 b refl),
    omega (arith, bit_and-ones 6 63 c refl),
  )

  pub first_byte : bit_or (output_0 a * 2 ^ 2 % 256) (output_1 a b / 2 ^ 4) % 256 ≡ a
  unfolding output_0 output_1
  first_byte =
      ap (λ (t : ℕ). bit_or t (output_1 a b / 2 ^ 4) % 256) high
      ∙ omega (arith, shifted-bit_or 2 (a / 4) (output_1 a b / 2 ^ 4) (omega (arith, low)), low)
    where
      high : output_0 a * 2 ^ 2 % 256 ≡ a / 4 * 2 ^ 2
      high = omega arith

      low : output_1 a b / 2 ^ 4 ≡ a % 4
      low = omega (arith, bit_and-ones 2 3 a refl)

  pub second_byte :
      bit_or (bit_and (output_1 a b) 0x0f * 2 ^ 4 % 256) (output_2 b c / 2 ^ 2) % 256 ≡ b
  unfolding output_1 output_2
  second_byte =
      ap (λ (t : ℕ). bit_or t (output_2 b c / 2 ^ 2) % 256) high
      ∙ omega (arith, shifted-bit_or 4 (b / 16) (output_2 b c / 2 ^ 2) (omega (arith, low)), low)
    where
      high : bit_and (output_1 a b) 0x0f * 2 ^ 4 % 256 ≡ b / 16 * 2 ^ 4
      high = omega (arith, bit_and-ones 4 15 (output_1 a b) refl, bit_and-ones 2 3 a refl)

      low : output_2 b c / 2 ^ 2 ≡ b % 16
      low = omega (arith, bit_and-ones 4 15 b refl)

  pub third_byte : bit_or (bit_and (output_2 b c) 0x03 * 2 ^ 6 % 256) (output_3 c) % 256 ≡ c
  unfolding output_2 output_3
  third_byte =
      ap (λ (t : ℕ). bit_or t (output_3 c) % 256) high
      ∙ omega (arith, shifted-bit_or 6 (c / 64) (output_3 c) (omega (arith, low)), low)
    where
      high : bit_and (output_2 b c) 0x03 * 2 ^ 6 % 256 ≡ c / 64 * 2 ^ 6
      high = omega (arith, bit_and-ones 2 3 (output_2 b c) refl, bit_and-ones 4 15 b refl)

      low : output_3 c ≡ c % 64
      low = bit_and-ones 6 63 c refl
