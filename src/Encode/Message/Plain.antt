-- ===== src/Encode/Message/Plain.antt =====
-- Messages of plain fields, and that the test for default values ends on them.
use get_together.Common.{
  ℕ, zero, suc, ◌+◌, ◌≤◌, ◌<◌, ◌≡◌, ◌≢◌, ◌⊎◌, refl, ap, ◌∙◌, Bool, true, false, Option, none, some,
  List, All, length, get_or, nonzero, if◌then◌else◌, arith,
}
use get_together.Pb.{u32_mod, u64_mod}
use get_together.Pb.Field.{
  LType, bytes, string, submessage, extension, fixed_length_bytes, AType, static, pointer, repeated,
  oneof, Field, last_field,
}
use get_together.Iter.{FieldIter, current, pb_field_iter_begin, pb_field_iter_next}
use get_together.Iter.Walk.{next_more, begin_some, All-get_or}
use get_together.Encode.Env.{Env}
use get_together.Encode.Array.{check_value, each_default, both, pb_check_proto3_default_value}

-- A field in the struct or behind a pointer, no callback and no extension. A count or a `which_`
-- field has its place in the struct, and a submessage has descriptors, which are `nested`.
pub record IsPlain (nested : ℕ → Type 0) (field : Field) : Type 0 where
  pub tag_small : field.tag < u32_mod
  pub size_small : field.data_size < u64_mod
  pub kept : (field.atype ≡ static) ⊎ (field.atype ≡ pointer)
  pub not_extension : field.ltype ≢ extension
  pub counted : (field.htype ≡ repeated) ⊎ (field.htype ≡ oneof) → nonzero field.size_offset ≡ true
  pub inner : field.ltype ≡ submessage → nested field.ptr

-- Messages of plain fields, nested less than `depth` deep.
abbrev pub IsNested : Env → ℕ → List Field → Type 0
IsNested e zero fields = ⊥
IsNested e (suc depth) fields = All (IsPlain (λ p. IsNested e depth (e.fields_at p))) fields

abbrev pub Ended : Option Bool → Type 0
Ended x = (b : Bool) × (x ≡ some b)

both-Ended : (x y : Option Bool) → Ended x → Ended y → Ended (both x y)
unfolding both
both-Ended none y (b, h) k = cc
both-Ended (some false) y h k = (false, refl)
both-Ended (some true) y h k = k

if-Ended :
    (b : Bool) (x y : Option Bool)
    → (b ≡ true → Ended x)
    → (b ≡ false → Ended y)
    → Ended (if b then x else y)
if-Ended true x y h k = h refl
if-Ended false x y h k = k refl

-- The walk over the fields ends.
each_default-Ended :
    (check : Field → ℕ → Option Bool) (fields : List Field)
    → ((k p : ℕ) → k < length fields → Ended (check (get_or fields k last_field) p))
    → (fuel : ℕ) (it : FieldIter) → it.start ≡ fields
    → it.pos < length fields
    → length fields ≤ it.pos + fuel
    → Ended (each_default check fuel it)
unfolding each_default current
each_default-Ended check fields h zero it e lt le = absurd (omega arith)
each_default-Ended check fields h (suc fuel) it e lt le =
    both-Ended _ _ (rw e (h it.pos it.p_data lt)) (
      if-Ended (pb_field_iter_next it).1 _ _
        (λ more.
          let (same, forward, inside) = next_more it more in
          each_default-Ended check fields h fuel (pb_field_iter_next it).0 (same ∙ e)
            (omega (arith, forward, ap length e)) (omega (arith, forward)))
        (λ _. (true, refl)))

submessage-Ended :
    (e : Env) (check : Field → ℕ → Option Bool) (field : Field) (p : ℕ)
    → ((k p : ℕ)
        → k < length (e.fields_at field.ptr)
        → Ended (check (get_or (e.fields_at field.ptr) k last_field) p))
    → Ended (check_value e check static submessage field p)
unfolding check_value
submessage-Ended e check field p h =
    if-Ended (pb_field_iter_begin fields p).1 _ _
      (λ some_field.
        each_default-Ended check fields h (length fields) (pb_field_iter_begin fields p).0
          (unfold pb_field_iter_begin in refl)
          (unfold pb_field_iter_begin in begin_some fields p some_field)
          (unfold pb_field_iter_begin in omega arith))
      (λ _. (true, refl))
  where
    fields : List Field
    fields = e.fields_at field.ptr

by_type-Ended :
    (e : Env) (check : Field → ℕ → Option Bool) (field : Field) (p : ℕ) (a : AType) (t : LType)
    → (t ≡ submessage → Ended (check_value e check static submessage field p))
    → Ended (check_value e check a t field p)
unfolding check_value
by_type-Ended e check field p static submessage k = k refl
by_type-Ended e check field p static bytes k = (_, refl)
by_type-Ended e check field p static string k = (_, refl)
by_type-Ended e check field p static fixed_length_bytes k = (_, refl)
by_type-Ended e check field p _ _ k = (_, refl)

-- For a field whose descriptors, if it is a submessage, are of plain fields nested less than
-- `depth` deep, pb_check_proto3_default_value ends within `depth` + 1 levels.
pub check_default-Ended :
    (e : Env) (depth : ℕ) (field : Field) (p : ℕ)
    → (field.ltype ≡ submessage → IsNested e depth (e.fields_at field.ptr))
    → Ended (pb_check_proto3_default_value e (suc depth) field p)
unfolding pb_check_proto3_default_value
check_default-Ended e zero field p h =
    by_type-Ended e _ field p field.atype field.ltype (λ x. absurd (h x))
check_default-Ended e (suc depth) field p h = by_type-Ended e _ field p field.atype field.ltype λ x.
    submessage-Ended e (pb_check_proto3_default_value e (suc depth)) field p λ k q lt.
      check_default-Ended e depth (get_or (e.fields_at field.ptr) k last_field) q
        (All-get_or (IsPlain (λ r. IsNested e depth (e.fields_at r))) (e.fields_at field.ptr) k
          (h x) lt).inner
