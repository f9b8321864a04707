-- ===== src/Trip/Arrays.antt =====
-- What encode_array writes for an array of numbers.
use native.Mathlib.Nat.{mul-suc, suc-mul}
use get_together.Common.{
  ℕ, zero, suc, ◌+◌, ◌*◌, ◌%◌, ◌^◌, ◌≤◌, ◌<◌, ◌≡◌, sym, ap, true, false, some, List, [], ◌++◌,
  length, length-append, ge→ltb, ◌==◌, arith,
}
use get_together.Pb.{Outcome, size_mod}
use get_together.Pb.Field.{
  LType, fixed32, fixed64, is_packable, static, wt_string, wire_code, Field,
}
use get_together.Memory.{Memory}
use get_together.OStream.{OStream}
use get_together.OStream.Emits.{Emits, Emits-bind}
use get_together.OStream.Uniform.{Emits-cong, Emits-returns}
use get_together.Encode.Varint.{varint_bytes}
use get_together.Encode.Wire.{key_bytes, Emits-pb_encode_tag}
use get_together.Encode.Array.{each_entry, packed_size, encode_array}
use get_together.Encode.Array.Uniform.{counted, Emits-write_packed}
use get_together.Trip.Crossing.{HasWidth}

-- The bytes of the entries of an array at `p`, from the entry `i` on, `n` of them.
abbrev pub entries_from : (ℕ → List ℕ) → ℕ → ℕ → ℕ → ℕ → List ℕ
entries_from entry size p zero i = []
entries_from entry size p (suc n) i = entry (p + size * i) ++ entries_from entry size p n (suc i)

-- The entries of an array, `size` bytes apart, each with its bytes.
module _ (func : OStream → ℕ → Outcome OStream) (size : ℕ) (entry : ℕ → List ℕ)
    (emits : (p : ℕ) → Emits (λ s. func s p) (entry p)) where
  Emits-entries :
      (n i p : ℕ)
      → Emits (λ s. each_entry func n size (p + size * i) s) (entries_from entry size p n i)
  unfolding each_entry
  Emits-entries zero i p = Emits-returns
  Emits-entries (suc n) i p =
      Emits-bind _ _ (entry (p + size * i)) (entries_from entry size p n (suc i))
        (emits (p + size * i)) (rw (next_place p i) (Emits-entries n (suc i) p))
    where
      next_place : (p i : ℕ) → p + size * i + size ≡ p + size * suc i
      next_place p i = omega (arith, mul-suc size i)

  Emits-all :
      (count p : ℕ)
      → Emits (λ s. each_entry func count size p s) (entries_from entry size p count 0)
  Emits-all count p =
      Emits-cong _ _ _ (λ s. ap (λ (t : ℕ). each_entry func count size t s) first)
        (Emits-entries count 0 p)
    where
      first : p ≡ p + size * 0
      first = omega arith

  entries_width :
      (w n i p : ℕ)
      → ((p : ℕ) → length (entry p) ≡ w)
      → length (entries_from entry size p n i) ≡ w * n
  entries_width w zero i p h = omega arith
  entries_width w (suc n) i p h = omega (
    arith,
    length-append (entry (p + size * i)) (entries_from entry size p n (suc i)),
    h (p + size * i),
    entries_width w n (suc i) p h,
  )

  packed_size-entries :
      (t : LType) (count p : ℕ)
      → ((p : ℕ) → HasWidth t (entry p))
      → packed_size t func count size p
        ≡ some (true, length (entries_from entry size p count 0) % size_mod)
  unfolding packed_size
  packed_size-entries fixed32 count p h =
      ap (λ (n : ℕ). some (true, n % size_mod)) (sym (entries_width 4 count 0 p h))
  packed_size-entries fixed64 count p h =
      ap (λ (n : ℕ). some (true, n % size_mod)) (sym (entries_width 8 count 0 p h))
  packed_size-entries _ count p h =
      counted func count size p (entries_from entry size p count 0) (Emits-all count p)

  -- The key, the length, and the entries.
  pub Emits-encode_array :
      (mem : Memory) (field : Field) (count p : ℕ)
      → field.atype ≡ static
      → field.data_size ≡ size
      → field.tag < 2 ^ 32
      → is_packable field.ltype ≡ true
      → (count == 0) ≡ false
      → count ≤ field.array_size
      → ((p : ℕ) → HasWidth field.ltype (entry p))
      → Emits
          (λ s. encode_array mem field p count func s)
          (key_bytes wt_string field.tag
            ++ (varint_bytes (length (entries_from entry size p count 0) % size_mod)
                ++ entries_from entry size p count 0))
  unfolding encode_array wire_code
  Emits-encode_array mem field count p kept same small packed some_entry fits widths =
      rw
        (
          some_entry,
          kept,
          ge→ltb field.array_size count fits,
          packed,
          same,
          packed_size-entries field.ltype count p widths,
        )
        (Emits-bind _ _ (key_bytes wt_string field.tag) _
          (Emits-pb_encode_tag wt_string field.tag (omega arith) small)
          (Emits-write_packed func count size p (entries_from entry size p count 0)
            (Emits-all count p)))

-- Entries of at most `most` bytes.
pub entries_bounded :
    (entry : ℕ → List ℕ) (size most n i p : ℕ)
    → ((p : ℕ) → length (entry p) ≤ most)
    → length (entries_from entry size p n i) ≤ n * most
entries_bounded entry size most zero i p h = omega arith
entries_bounded entry size most (suc n) i p h = omega (
  arith,
  length-append (entry (p + size * i)) (entries_from entry size p n (suc i)),
  h (p + size * i),
  entries_bounded entry size most n (suc i) p h,
  suc-mul n most,
)
