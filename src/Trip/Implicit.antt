-- ===== src/Trip/Implicit.antt =====
-- Optional fields without a `has_` field: pb_check_proto3_default_value of pb_encode.c tells whether
-- the field is written, and a field that is not written is the same as one of zeros.
use native.Mathlib.Nat.{add-zero}
use get_together.Common.{
  ℕ, zero, suc, ◌+◌, ◌≤◌, ◌<◌, ◌≡◌, refl, ap, ◌∙◌, sym, Bool, true, some, arith,
}
use get_together.Pb.Field.{
  LType, varint, uvarint, svarint, fixed32, fixed64, bytes, string, submessage, extension,
  fixed_length_bytes, static, Field,
}
use get_together.Memory.{Memory, load, string_length}
use get_together.Encode.Env.{Env}
use get_together.Encode.Array.{all_zero, check_value, pb_check_proto3_default_value}
use get_together.Trip.Cells.{SameBytes}
use get_together.Trip.Shape.{IsTyped, HasValue, SameValue}

-- The `n` bytes at `q` are 0.
abbrev pub Zeros : Memory → ℕ → ℕ → Type 0
Zeros mem q n = (i : ℕ) → i < n → mem (q + i) ≡ 0

all_zero-Zeros : (mem : Memory) (n p : ℕ) → all_zero mem p n ≡ true → Zeros mem p n
unfolding all_zero
all_zero-Zeros mem zero p h i lt = absurd (omega arith)
all_zero-Zeros mem (suc n) p h zero lt = ap mem (add-zero p) ∙ ground (arith, h)
all_zero-Zeros mem (suc n) p h (suc i) lt =
    ap mem (omega arith) ∙ all_zero-Zeros mem n (p + 1) (ground (arith, h)) i (omega arith)

load-Zeros : (mem : Memory) (n p : ℕ) → load mem p n ≡ 0 → Zeros mem p n
unfolding load
load-Zeros mem zero p h i lt = absurd (omega arith)
load-Zeros mem (suc n) p h zero lt = ap mem (add-zero p) ∙ omega (arith, h)
load-Zeros mem (suc n) p h (suc i) lt =
    ap mem (omega arith) ∙ load-Zeros mem n (p + 1) (omega (arith, h)) i (omega arith)

Zeros-SameBytes :
    (mem : Memory) (p : ℕ) (mem' : Memory) (q n size : ℕ)
    → Zeros mem p n
    → Zeros mem' q size
    → n ≤ size
    → SameBytes mem p mem' q n
Zeros-SameBytes mem p mem' q n size here there le i lt = there i (omega arith) ∙ sym (here i lt)

no_string : (mem : Memory) (p n : ℕ) → mem p ≡ 0 → string_length mem p n ≡ 0
unfolding string_length
no_string mem p zero h = refl
no_string mem p (suc n) h = ground (arith, h)

one_zero : (mem : Memory) (p : ℕ) → mem p ≡ 0 → Zeros mem p 1
one_zero mem p h zero lt = ap mem (add-zero p) ∙ h
one_zero mem p h (suc i) lt = absurd (omega arith)

-- What the test for a default value answers for the field at `p`, and that it is right.
pub record Tested (e : Env) (depth : ℕ) (same : Memory → ℕ → ℕ → ℕ → Type 0) (field : Field) (p : ℕ)
    : Type 0 where
  pub is_default : Bool
  pub tested : pb_check_proto3_default_value e depth field p ≡ some is_default
  pub zeros_same :
      is_default ≡ true
      → (mem' : Memory) (q : ℕ) → Zeros mem' q field.data_size
      → SameValue (same mem') field.ltype field e.mem p mem' q

module _ (e : Env) (depth : ℕ) (field : Field) (p : ℕ) (inner : ℕ → ℕ → Type 0)
    (has : ℕ → ℕ → Type 0) (same : Memory → ℕ → ℕ → ℕ → Type 0) where
  numbers_same :
      all_zero e.mem p field.data_size ≡ true
      → (mem' : Memory) (q : ℕ) → Zeros mem' q field.data_size
      → SameBytes e.mem p mem' q field.data_size
  numbers_same h mem' q zeros =
      Zeros-SameBytes e.mem p mem' q field.data_size field.data_size
        (all_zero-Zeros e.mem field.data_size p h) zeros (omega arith)

  typed_default :
      (t : LType)
      → field.ptr ≡ 0
      → IsTyped inner t field
      → HasValue has t e.mem field p
      → (b : Bool) × (check_value e (pb_check_proto3_default_value e depth) static t field p
          ≡ some b)
        × (b ≡ true
            → (mem' : Memory) (q : ℕ) → Zeros mem' q field.data_size
            → SameValue (same mem') t field e.mem p mem' q)
  unfolding check_value IsTyped HasValue SameValue
  typed_default extension none_set typed there = absurd typed
  typed_default submessage none_set (some_ptr, _) there = absurd (some_ptr none_set)
  typed_default bytes none_set typed there = (
    _,
    refl,
    λ h mem' q zeros.
        let no_size : load e.mem p 4 ≡ 0 = ground (arith, h) in
        Zeros-SameBytes e.mem p mem' q (4 + load e.mem p 4) field.data_size
          (λ i lt. load-Zeros e.mem 4 p no_size i (omega arith)) zeros (omega arith),
  )
  typed_default string none_set typed there = (
    _,
    refl,
    λ h mem' q zeros.
        let first : e.mem p ≡ 0 = ground (arith, h) in
        Zeros-SameBytes e.mem p mem' q (string_length e.mem p field.data_size + 1) field.data_size
          (λ i lt.
            one_zero e.mem p first i (omega (arith, no_string e.mem p field.data_size first)))
          zeros (omega arith),
  )
  typed_default fixed_length_bytes none_set typed there =
      (_, refl, λ h mem' q zeros. absurd (ground (arith, h)))
  typed_default varint none_set typed there = (_, refl, numbers_same)
  typed_default uvarint none_set typed there = (_, refl, numbers_same)
  typed_default svarint none_set typed there = (_, refl, numbers_same)
  typed_default fixed32 none_set typed there = (_, refl, numbers_same)
  typed_default fixed64 none_set typed there = (_, refl, numbers_same)

  pub typed-Tested :
      field.atype ≡ static
      → field.ptr ≡ 0
      → IsTyped inner field.ltype field
      → HasValue has field.ltype e.mem field p
      → Tested e (suc depth) same field p
  unfolding pb_check_proto3_default_value
  typed-Tested kept none_set typed there =
      let (b, eq, right) = typed_default field.ltype none_set typed there in
      record {
        is_default = b;
        tested =
            ap (λ a. check_value e (pb_check_proto3_default_value e depth) a field.ltype field p)
              kept
            ∙ eq;
        zeros_same = right;
      }
