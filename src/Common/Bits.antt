-- ===== src/Common/Bits.antt =====
-- `&` with a low mask and `|` of disjoint parts, as arithmetic, at every width.
use Prim.Native.Nat.{
  ℕ, zero, suc, ◌+◌, ◌*◌, ◌/◌, ◌%◌, ◌^◌, ◌≤◌, ◌<◌, min, max, bit_and, bit_or, digits, bitwise,
  bit_and-bitwise, bit_or-bitwise,
}
use mathlib.Core.Path.{◌≡◌, refl, ap, ◌∙◌}
use native.Mathlib.Omega.{arith}
use native.Mathlib.Nat.{pow-suc, one-le-pow}

-- The digit recursion gives the same number on any fuel from the first operand on.
module _ (z : ℕ → ℕ) (f : ℕ → ℕ → ℕ) where
  digits_enough : (m n a b : ℕ) → n ≤ m → a ≤ n → digits z f n a b ≡ bitwise z f a b
  digits_enough m zero zero b p q = refl
  digits_enough m zero (suc a) b p q = absurd (omega arith)
  digits_enough m (suc n) zero b p q = refl
  digits_enough zero (suc n) (suc a) b p q = absurd (omega arith)
  digits_enough (suc m) (suc n) (suc a) b p q =
      let half : ℕ = suc a / 2 in
      rw (
        digits_enough m n half (b / 2) (omega arith) (omega arith),
        digits_enough m a half (b / 2) (omega arith) (omega arith),
      )

  bitwise-halve :
      (a b : ℕ)
      → bitwise z f (suc a) b ≡ bitwise z f (suc a / 2) (b / 2) * 2 + f (suc a % 2) (b % 2)
  bitwise-halve a b = rw (digits_enough a a (suc a / 2) (b / 2) (omega arith) (omega arith))

zero-bit_or : (b : ℕ) → bit_or 0 b ≡ b
zero-bit_or b = bit_or-bitwise 0 b

zero-bit_and : (b : ℕ) → bit_and 0 b ≡ 0
zero-bit_and b = bit_and-bitwise 0 b

pub bit_or-halve : (a b : ℕ) → bit_or a b ≡ bit_or (a / 2) (b / 2) * 2 + max (a % 2) (b % 2)
bit_or-halve zero b = omega (arith, zero-bit_or b, zero-bit_or (b / 2))
bit_or-halve (suc a) b =
    rw
      (bit_or-bitwise (suc a) b, bitwise-halve (λ y. y) max a b, bit_or-bitwise (suc a / 2) (b / 2))

pub bit_and-halve : (a b : ℕ) → bit_and a b ≡ bit_and (a / 2) (b / 2) * 2 + min (a % 2) (b % 2)
bit_and-halve zero b = omega (arith, zero-bit_and b, zero-bit_and (b / 2))
bit_and-halve (suc a) b =
    rw (
      bit_and-bitwise (suc a) b,
      bitwise-halve (λ y. 0) min a b,
      bit_and-bitwise (suc a / 2) (b / 2),
    )

two-pow-suc : (q k : ℕ) → q * 2 ^ suc k ≡ q * 2 ^ k * 2
two-pow-suc q k = omega (arith, ap (λ (t : ℕ). q * t) (pow-suc 2 k))

-- `r | (q << k)` is a sum when `r` has k bits.
pub bit_or-shifted : (k q r : ℕ) → r < 2 ^ k → bit_or r (q * 2 ^ k) ≡ r + q * 2 ^ k
bit_or-shifted zero q r h = ground (arith, zero-bit_or q)
bit_or-shifted (suc k) q r h = omega (
  arith,
  bit_or-halve r (q * 2 ^ suc k),
  pow-suc 2 k,
  two-pow-suc q k,
  ap (λ (t : ℕ). bit_or (r / 2) t) half,
  bit_or-shifted k q (r / 2) (omega (arith, pow-suc 2 k)),
)
  where
    half : q * 2 ^ suc k / 2 ≡ q * 2 ^ k
    half = omega (arith, two-pow-suc q k)

bit_or-zero : (n a : ℕ) → a ≤ n → bit_or a 0 ≡ a
bit_or-zero n zero h = refl
bit_or-zero zero (suc a) h = absurd (omega arith)
bit_or-zero (suc n) (suc a) h =
    omega (arith, bit_or-halve (suc a) 0, bit_or-zero n (suc a / 2) (omega arith))

-- The same with the shifted part first.
pub shifted-bit_or : (k q r : ℕ) → r < 2 ^ k → bit_or (q * 2 ^ k) r ≡ q * 2 ^ k + r
shifted-bit_or zero q r h = ground (arith, bit_or-zero (q * 1) (q * 1) (omega arith))
shifted-bit_or (suc k) q r h = omega (
  arith,
  bit_or-halve (q * 2 ^ suc k) r,
  pow-suc 2 k,
  two-pow-suc q k,
  ap (λ (t : ℕ). bit_or t (r / 2)) half,
  shifted-bit_or k q (r / 2) (omega (arith, pow-suc 2 k)),
)
  where
    half : q * 2 ^ suc k / 2 ≡ q * 2 ^ k
    half = omega (arith, two-pow-suc q k)

bit_and-zero : (n a : ℕ) → a ≤ n → bit_and a 0 ≡ 0
bit_and-zero n zero h = refl
bit_and-zero zero (suc a) h = absurd (omega arith)
bit_and-zero (suc n) (suc a) h =
    omega (arith, bit_and-halve (suc a) 0, bit_and-zero n (suc a / 2) (omega arith))

mod_halve : (a P : ℕ) → 0 < P → a % (P * 2) ≡ a / 2 % P * 2 + a % 2
mod_halve a P h = grind arith

two_pow-suc : (k : ℕ) → 2 ^ suc k ≡ 2 ^ k * 2
two_pow-suc k = omega (arith, pow-suc 2 k)

pow_pos : (k : ℕ) → 0 < 2 ^ k
pow_pos k = omega (arith, one-le-pow k 2)

-- A mask of k ones keeps the remainder by 2 ^ k.
pub bit_and-ones : (k m a : ℕ) → m + 1 ≡ 2 ^ k → bit_and a m ≡ a % 2 ^ k
bit_and-ones zero m a h = omega (arith, ap (λ (t : ℕ). bit_and a t) m_zero, bit_and-zero a a)
  where
    m_zero : m ≡ 0
    m_zero = omega arith
bit_and-ones (suc k) m a h =
    bit_and-halve a m
    ∙ rw (two_pow-suc k, mod_halve a (2 ^ k) (pow_pos k))
        (omega (arith, two_pow-suc k, bit_and-ones k (m / 2) (a / 2)))

-- The test of one bit.
pub bit_and-low : (k a : ℕ) → a < 2 ^ k → bit_and a (2 ^ k) ≡ 0
bit_and-low zero a h = ap (λ (t : ℕ). bit_and t 1) a_zero
  where
    a_zero : a ≡ 0
    a_zero = omega arith
bit_and-low (suc k) a h = omega (
  arith,
  bit_and-halve a (2 ^ suc k),
  two_pow-suc k,
  ap (λ (t : ℕ). bit_and (a / 2) t) half,
  bit_and-low k (a / 2) (omega (arith, two_pow-suc k)),
)
  where
    half : 2 ^ suc k / 2 ≡ 2 ^ k
    half = omega (arith, two_pow-suc k)

pub bit_and-high : (k a : ℕ) → a < 2 ^ k → bit_and (a + 2 ^ k) (2 ^ k) ≡ 2 ^ k
bit_and-high zero a h = ap (λ (t : ℕ). bit_and (t + 1) 1) a_zero
  where
    a_zero : a ≡ 0
    a_zero = omega arith
bit_and-high (suc k) a h = omega (
  arith,
  bit_and-halve (a + 2 ^ suc k) (2 ^ suc k),
  two_pow-suc k,
  ap (λ (t : ℕ). bit_and ((a + 2 ^ suc k) / 2) t) half,
  ap (λ (t : ℕ). bit_and t (2 ^ k)) half_sum,
  bit_and-high k (a / 2) (omega (arith, two_pow-suc k)),
)
  where
    half : 2 ^ suc k / 2 ≡ 2 ^ k
    half = omega (arith, two_pow-suc k)

    half_sum : (a + 2 ^ suc k) / 2 ≡ a / 2 + 2 ^ k
    half_sum = omega (arith, two_pow-suc k)

pub bit_or-bound : (k a b : ℕ) → a < 2 ^ k → b < 2 ^ k → bit_or a b < 2 ^ k
bit_or-bound zero a b h g =
    omega (arith, bit_or-halve a b, ap (λ (t : ℕ). bit_or t (b / 2)) a_zero, zero-bit_or (b / 2))
  where
    a_zero : a / 2 ≡ 0
    a_zero = omega arith
bit_or-bound (suc k) a b h g = omega (
  arith,
  bit_or-halve a b,
  two_pow-suc k,
  bit_or-bound k (a / 2) (b / 2) (omega (arith, two_pow-suc k)) (omega (arith, two_pow-suc k)),
)
