-- ===== src/Encode/Message/Place.antt =====
-- Where encode_basic_field finds the count or the tag of a plain field.
use get_together.Common.{
  ℕ, suc, ◌≡◌, ◌≢◌, inl, inr, refl, Bool, true, Option, some, nonzero, Bool-cases,
}
use get_together.Pb.Field.{
  LType, extension, AType, static, pointer, callback, reserved, HType, required, optional, repeated,
  oneof, Field,
}
use get_together.Iter.{is_extension}
use get_together.Encode.Env.{Env}
use get_together.Encode.Message.{SizePointer, stored, implicit_size, size_pointer}
use get_together.Encode.Message.Plain.{IsPlain, IsNested, Ended, check_default-Ended}

-- Where a count is read, `pSize` points into the struct.
abbrev pub HasPlace : HType → SizePointer → Type 0
HasPlace repeated size = (a : ℕ) × (size ≡ stored a)
HasPlace oneof size = (a : ℕ) × (size ≡ stored a)
HasPlace _ size = Unit {0}

stored-HasPlace : (t : HType) (a : ℕ) → HasPlace t (stored a)
stored-HasPlace repeated a = (a, refl)
stored-HasPlace oneof a = (a, refl)
stored-HasPlace _ a = tt

implicit_size-HasPlace :
    (a : AType) (t : HType) (d : Option Bool) (target : ℕ)
    → Ended d
    → t ≢ repeated
    → t ≢ oneof
    → (size : SizePointer) × (implicit_size a t d target ≡ some size) × HasPlace t size
unfolding implicit_size
implicit_size-HasPlace a repeated d target h x y = absurd (x refl)
implicit_size-HasPlace a oneof d target h x y = absurd (y refl)
implicit_size-HasPlace pointer required d target h x y = (_, refl, tt)
implicit_size-HasPlace pointer optional d target h x y = (_, refl, tt)
implicit_size-HasPlace _ required d target h x y = (_, refl, tt)
implicit_size-HasPlace static optional d target (b, e) x y = rw e (_, refl, tt)
implicit_size-HasPlace callback optional d target (b, e) x y = rw e (_, refl, tt)
implicit_size-HasPlace reserved optional d target (b, e) x y = rw e (_, refl, tt)

pub size_pointer-HasPlace :
    (e : Env) (depth : ℕ) (field : Field) (p target : ℕ)
    → IsPlain (λ q. IsNested e depth (e.fields_at q)) field
    → (size : SizePointer) × (size_pointer e (suc depth) field p target ≡ some size)
      × HasPlace field.htype size
unfolding size_pointer
size_pointer-HasPlace e depth field p target plain = elim (Bool-cases (nonzero field.size_offset)) [
  | inl x ↦ rw x (_, refl, stored-HasPlace field.htype _)
  | inr x ↦ rw x (
      implicit_size-HasPlace field.atype field.htype _ target
        (check_default-Ended e depth field p plain.inner) (λ r. cc (x, plain.counted (inl r)))
        (λ r. cc (x, plain.counted (inr r))))
]

pub is_extension-true : (t : LType) → is_extension t ≡ true → t ≡ extension
is_extension-true extension x = refl
is_extension-true _ x = cc
