-- ===== src/Trip/Written.antt =====
-- What encode_field writes for one field of a flat message.
use get_together.Common.{
  if◌then◌else◌, case_option, offset, ap, ◌∙◌, ℕ, suc, Bool, not, pos, ◌-◌, ◌^◌, ◌<◌, ◌≡◌, inl, inr,
  refl, false, some, List, ◌++◌, nonzero, negsuc, Bool-cases, ◌==◌, arith,
}
use get_together.Pb.Field.{required, optional, static, Field, WireType, wire_code}
use get_together.OStream.{OStream}
use get_together.OStream.Emits.{Action, Emits, Emits-bind}
use get_together.Encode.{wire_type_for, pb_encode_tag_for_field}
use get_together.Encode.Env.{Env}
use get_together.Encode.Wire.{key_bytes, Emits-pb_encode_tag}
use get_together.Encode.Fields.{pb_encoders}
use get_together.Pb.{stuck, Outcome}
use get_together.Memory.{load_pointer}
use get_together.Encode.Array.{is_pointer, pb_check_proto3_default_value}
use get_together.Encode.Message.{
  SizePointer, stored, implicit_has, implicit_size, size_pointer, tag_and_value, by_htype,
  encode_basic_field, by_atype, encode_field,
}

Emits-tag_for_field :
    (field : Field) (w : WireType)
    → wire_type_for field.ltype ≡ some w
    → wire_code w < 8
    → field.tag < 2 ^ 32
    → Emits (λ s. pb_encode_tag_for_field s field) (key_bytes w field.tag)
unfolding pb_encode_tag_for_field
Emits-tag_for_field field w eq lt small = rw eq (Emits-pb_encode_tag w field.tag lt small)

-- A field that is there, in front of any bytes: key and value.
module _ (e : Env) (depth : ℕ) (encode : List Field → ℕ → Action) (field : Field) (p : ℕ) where
  pub Emits-present :
      (w : WireType) (bs : List ℕ)
      → wire_type_for field.ltype ≡ some w
      → wire_code w < 8
      → field.tag < 2 ^ 32
      → Emits (λ s. pb_encoders e encode field.ltype s field p) bs
      → Emits
          (λ s. tag_and_value (pb_encoders e encode field.ltype) field p s)
          (key_bytes w field.tag ++ bs)
  unfolding tag_and_value
  Emits-present w bs eq lt small h =
      Emits-bind _ _ (key_bytes w field.tag) bs (Emits-tag_for_field field w eq lt small) h

  -- What encode_field does with a required field.
  pub encode_required :
      (s : OStream)
      → field.atype ≡ static
      → field.htype ≡ required
      → 0 < p
      → encode_field e depth encode s field p
        ≡ tag_and_value (pb_encoders e encode field.ltype) field p s
  unfolding encode_field by_atype encode_basic_field size_pointer implicit_size by_htype
  encode_required s kept req some_p = elim (Bool-cases (nonzero field.size_offset)) [
    | inl e ↦ rw (kept, req, e, zero_no) refl
    | inr e ↦ rw (kept, req, e, zero_no) refl
  ]
    where
      zero_no : (p == 0) ≡ false
      zero_no = ground arith

  -- With an optional field without a `has_` field, and the answer of the test for its default value.
  pub encode_implicit :
      (s : OStream) (b : Bool)
      → field.atype ≡ static
      → field.htype ≡ optional
      → field.size_offset ≡ pos 0
      → pb_check_proto3_default_value e depth field p ≡ some b
      → encode_field e depth encode s field p
        ≡ by_htype field.htype e.mem
            (pb_encoders e encode field.ltype)
            field
            p
            (implicit_has (not b))
            s
  unfolding encode_field by_atype encode_basic_field size_pointer implicit_size
  encode_implicit s b kept opt no_flag tested =
      let write : ℕ → SizePointer → Outcome OStream =
        λ q size. by_htype field.htype e.mem (pb_encoders e encode field.ltype) field q size s in
      ap (λ a. by_atype e depth encode a s field p) kept
      ∙ ap
          (λ a.
            let q : ℕ = if is_pointer a then load_pointer e.mem p else p in
            case_option (size_pointer e depth field p q) stuck (write q))
          kept
      ∙ ap
          (λ o.
            case_option
              (if nonzero o
                then some (stored (offset p o))
                else implicit_size field.atype field.htype
                    (pb_check_proto3_default_value e depth field p) p)
              stuck (write p))
          no_flag
      ∙ ap
          (λ a.
            case_option
              (implicit_size a field.htype (pb_check_proto3_default_value e depth field p) p) stuck
              (write p))
          kept
      ∙ ap
          (λ t.
            case_option (implicit_size static t (pb_check_proto3_default_value e depth field p) p)
              stuck (write p))
          opt
      ∙ ap (λ r. case_option (implicit_size static optional r p) stuck (write p)) tested

  -- And with a field whose `has_` field or count is in the struct.
  pub encode_flagged :
      (s : OStream) (m : ℕ)
      → field.atype ≡ static
      → field.size_offset ≡ negsuc m
      → encode_field e depth encode s field p
        ≡ by_htype field.htype e.mem
            (pb_encoders e encode field.ltype)
            field
            p
            (stored (p - suc m))
            s
  unfolding encode_field by_atype encode_basic_field size_pointer
  encode_flagged s m kept flag = rw (kept, flag) refl
