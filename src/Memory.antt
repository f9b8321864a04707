-- ===== src/Memory.antt =====
-- Memory as a function from addresses to bytes, and what the C code reads from it: little-endian
-- integers, pointers of 8 bytes, runs of bytes.
use native.Mathlib.Nat.{pow-suc, add-zero}
use get_together.Common.{
  Bool, false, Bool-cases, inl, inr, sym, ◌∙◌, ℕ, zero, suc, ◌+◌, ◌-◌, ◌*◌, ◌^◌, ◌<◌, ◌≤◌, ◌≡◌, ◌≢◌,
  refl, ap, List, [], ◌∷◌, length, All, ltb, ◌==◌, if◌then◌else◌, arith,
}

abbrev pub Memory : Type 0
Memory = ℕ → ℕ

-- Every cell holds a byte.
abbrev pub IsMemory : Memory → Type 0
IsMemory mem = (a : ℕ) → mem a < 256

-- The unsigned integer of `n` bytes at `a`.
unfoldable pub load : Memory → ℕ → ℕ → ℕ
load mem a zero = 0
load mem a (suc n) = mem a + 256 * load mem (a + 1) n

-- `*(void**)a`
unfoldable pub load_pointer : Memory → ℕ → ℕ
load_pointer mem a = load mem a 8

-- The `n` bytes from `a` on.
unfoldable pub load_bytes : Memory → ℕ → ℕ → List ℕ
load_bytes mem a zero = []
load_bytes mem a (suc n) = mem a ∷ load_bytes mem (a + 1) n

-- An intN_t of `bits` bits, read as a bit pattern, converted to int64_t: its pattern of 64 bits.
unfoldable pub sign_extend : ℕ → ℕ → ℕ
sign_extend bits v = if ltb v (2 ^ (bits - 1)) then v else v + 2 ^ 64 - 2 ^ bits

-- The number of bytes before the first 0 from `p` on, at most `max_size`.
unfoldable pub string_length : Memory → ℕ → ℕ → ℕ
string_length mem p zero = 0
string_length mem p (suc max_size) =
    let rest = string_length mem (p + 1) max_size in if mem p == 0 then 0 else suc rest

pub length-load_bytes : (mem : Memory) (a n : ℕ) → length (load_bytes mem a n) ≡ n
unfolding load_bytes
length-load_bytes mem a zero = refl
length-load_bytes mem a (suc n) = ap suc (length-load_bytes mem (a + 1) n)

pub load_bytes-IsByte :
    (mem : Memory) (a n : ℕ) → IsMemory mem → All (λ b. b < 256) (load_bytes mem a n)
unfolding load_bytes
load_bytes-IsByte mem a zero h = tt
load_bytes-IsByte mem a (suc n) h = (h a, load_bytes-IsByte mem (a + 1) n h)

pub load-lt : (mem : Memory) (a n : ℕ) → IsMemory mem → load mem a n < 256 ^ n
unfolding load
load-lt mem a zero h = omega arith
load-lt mem a (suc n) h = omega (arith, pow-suc 256 n, h a, load-lt mem (a + 1) n h)

pub string_length-le : (mem : Memory) (p max_size : ℕ) → string_length mem p max_size ≤ max_size
unfolding string_length
string_length-le mem p zero = omega arith
string_length-le mem p (suc m) = ground (arith, string_length-le mem (p + 1) m)

-- No byte of the string is 0.
pub string_length-nonzero :
    (mem : Memory) (p max_size i : ℕ) → i < string_length mem p max_size → mem (p + i) ≢ 0
unfolding string_length
string_length-nonzero mem p zero i h = absurd (omega arith)
string_length-nonzero mem p (suc m) zero h = λ e. ground (arith, ap mem (add-zero p))
string_length-nonzero mem p (suc m) (suc i) h =
    λ e. ground (arith, string_length-nonzero mem (p + 1) m i, ap mem (shift p i))
  where
    shift : (p i : ℕ) → p + 1 + i ≡ p + suc i
    shift p i = omega arith

-- Behind a string that is shorter than its limit stands a 0.
pub string_length-zero :
    (mem : Memory) (p max_size : ℕ)
    → string_length mem p max_size < max_size
    → mem (p + string_length mem p max_size) ≡ 0
unfolding string_length
string_length-zero mem p zero h = absurd (omega arith)
string_length-zero mem p (suc m) h = elim (Bool-cases (mem p == 0)) [
  | inl e ↦ rw e (ap mem (add-zero p) ∙ ground (arith, e))
  | inr e ↦ rw e (
      ap mem (sym (shift p (string_length mem (p + 1) m)))
      ∙ string_length-zero mem (p + 1) m (shorter (mem p == 0) e h))
]
  where
    shift : (p i : ℕ) → p + 1 + i ≡ p + suc i
    shift p i = omega arith

    shorter :
        (b : Bool)
        → b ≡ false
        → (if b then 0 else suc (string_length mem (p + 1) m)) < suc m
        → string_length mem (p + 1) m < m
    shorter b e h = ground arith
