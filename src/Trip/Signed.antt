-- ===== src/Trip/Signed.antt =====
-- Signed integers as bit patterns of 64 bits, and stored in the bytes of a field.
use native.Mathlib.Nat.{pow-suc, one-le-pow}
use get_together.Common.{
  ℕ, zero, suc, ◌+◌, ◌*◌, ◌/◌, ◌%◌, ◌^◌, ◌<◌, ◌≡◌, ◌⊎◌, inl, inr, refl, sym, ap, ◌∙◌, true, ◌==◌,
  if◌then◌else◌, arith,
}
use get_together.Pb.Field.{Field}
use get_together.Memory.{Memory, sign_extend}
use get_together.IStream.{IStream}
use get_together.Decode.Fields.{decoded, put, store, is_int_size, store_int, clamp_signed}
use get_together.Decode.Fields.Integers.{bytes_pow}

mod_split : (v P : ℕ) → 0 < P → v % (P * 256) ≡ v / 256 % P * 256 + v % 256
mod_split v P h = grind arith

store_mod : (mem : Memory) (a n v : ℕ) → store mem a n (v % 256 ^ n) ≡ store mem a n v
unfolding store
store_mod mem a zero v = refl
store_mod mem a (suc n) v =
    ap (λ (t : ℕ × ℕ). store (put mem a t.0) (a + 1) n t.1) (λ i. (low i, high i))
    ∙ store_mod (put mem a (v % 256)) (a + 1) n (v / 256)
  where
    split : v % 256 ^ suc n ≡ v / 256 % 256 ^ n * 256 + v % 256
    split =
        ap (λ (t : ℕ). v % t) (pow-suc 256 n)
        ∙ mod_split v (256 ^ n) (omega (arith, one-le-pow n 256))

    low : v % 256 ^ suc n % 256 ≡ v % 256
    low = omega (arith, split)

    high : v % 256 ^ suc n / 256 ≡ v / 256 % 256 ^ n
    high = omega (arith, split)

-- The pattern of a signed integer of `n` bytes, as an int64_t.
module _ (n v : ℕ) (size : is_int_size n ≡ true) (lt : v < 256 ^ n) where
  pub sizes : (n ≡ 1) ⊎ ((n ≡ 2) ⊎ ((n ≡ 4) ⊎ (n ≡ 8)))
  unfolding is_int_size
  sizes = ground arith

  extended-mod : sign_extend (8 * n) v % 256 ^ n ≡ v
  unfolding sign_extend
  extended-mod = elim sizes [
    | inl e ↦ rw e (ground (arith, bound e))
    | inr (inl e) ↦ rw e (ground (arith, bound e))
    | inr (inr (inl e)) ↦ rw e (ground (arith, bound e))
    | inr (inr (inr e)) ↦ rw e (ground (arith, bound e))
  ]
    where
      bound : {m : ℕ} → n ≡ m → v < 256 ^ m
      bound e = rw⁻¹ e lt

  clamp_signed-extended : clamp_signed n (sign_extend (8 * n) v) ≡ sign_extend (8 * n) v
  unfolding clamp_signed
  clamp_signed-extended =
      ap (λ (t : ℕ). sign_extend (8 * n) (sign_extend (8 * n) v % t)) (bytes_pow n)
      ∙ ap (sign_extend (8 * n)) extended-mod

  -- The cast of pb_dec_varint to int32_t changes nothing.
  pub int32_cast :
      (if n == 8 then sign_extend (8 * n) v else clamp_signed 4 (sign_extend (8 * n) v))
      ≡ sign_extend (8 * n) v
  unfolding clamp_signed sign_extend
  int32_cast = elim sizes [
    | inl e ↦ rw e (ground (arith, bound e))
    | inr (inl e) ↦ rw e (ground (arith, bound e))
    | inr (inr (inl e)) ↦ rw e (ground (arith, bound e))
    | inr (inr (inr e)) ↦ rw e (ground (arith, bound e))
  ]
    where
      bound : {m : ℕ} → n ≡ m → v < 256 ^ m
      bound e = rw⁻¹ e lt

  store-extended : (mem : Memory) (q : ℕ) → store mem q n (sign_extend (8 * n) v) ≡ store mem q n v
  store-extended mem q =
      sym (store_mod mem q n (sign_extend (8 * n) v)) ∙ ap (store mem q n) extended-mod

self_eq : (v : ℕ) → (v == v) ≡ true
self_eq v = ground arith

-- Both signed types store the value that was loaded.
pub store_signed :
    (mem : Memory) (field : Field) (q v : ℕ) (s : IStream)
    → is_int_size field.data_size ≡ true
    → v < 256 ^ field.data_size
    → store_int (clamp_signed field.data_size) mem field q (sign_extend (8 * field.data_size) v) s
      ≡ decoded true (store mem q field.data_size v) s
unfolding store_int
store_signed mem field q v s size lt =
    rw
      (
        size,
        clamp_signed-extended field.data_size v size lt,
        self_eq (sign_extend (8 * field.data_size) v),
        store-extended field.data_size v size lt mem q,
      )
      refl
