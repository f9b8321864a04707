-- ===== src/Trip/Visited.antt =====
-- What encode_one does at one field of a flat message.
use get_together.Common.{
  Bool, some, ℕ, ◌<◌, ◌≡◌, refl, ap, ◌∙◌, sym, true, not, List, length, get_or, offset, ◌==◌,
  if◌then◌else◌, arith,
}
use get_together.Pb.{returns}
use get_together.Pb.Field.{optional, repeated, Field, last_field}
use get_together.Memory.{load}
use get_together.OStream.{OStream}
use get_together.OStream.Emits.{Action}
use get_together.Iter.{FieldIter}
use get_together.Iter.Nth.{nth, current-nth}
use get_together.Encode.Env.{Env}
use get_together.Encode.Fields.{pb_encoders}
use get_together.Encode.Message.{read_has, tag_and_value, by_htype, encode_field, encode_one}
use get_together.Encode.Message.{stored, read_size}
use get_together.Trip.Shape.{IsImplicit, IsField, HasFlag}
use get_together.Trip.Places.{nth-address, not_extension}
use get_together.Encode.Array.{encode_array}
use get_together.Trip.Written.{encode_flagged, encode_implicit}
use get_together.Encode.Array.{pb_check_proto3_default_value}

module _ (e : Env) (depth : ℕ) (encode : List Field → ℕ → Action) (inner : ℕ → ℕ → Type 0)
    (fields : List Field)
    (plain : (k : ℕ) → k < length fields → IsField inner (get_or fields k last_field)) (src k : ℕ)
    (lt : k < length fields) where
  abbrev field : Field
  field = get_or fields k last_field

  abbrev from : FieldIter
  from = nth fields src k

  pub encode_one-plain :
      (s : OStream)
      → encode_one e depth encode from s ≡ encode_field e depth encode s field from.p_data
  unfolding encode_one
  encode_one-plain s = rw (current-nth fields src k, not_extension inner fields plain k lt) refl

  pub some_address : 0 < src → 0 < from.p_data
  some_address h = let (at, _) = nth-address inner fields plain src k lt in omega (arith, at)

  -- What encode_one does with a field whose `has_` field or count is in the struct.
  encode_flag :
      (s : OStream) (n : ℕ)
      → HasFlag n field
      → encode_one e depth encode from s
        ≡ by_htype field.htype e.mem
            (pb_encoders e encode field.ltype)
            field
            from.p_data
            (stored from.p_size)
            s
  encode_flag s n (m, flag, le, small) =
      let (at, size) = nth-address inner fields plain src k lt in
      encode_one-plain s
      ∙ encode_flagged e depth encode field from.p_data s m (plain k lt).kept flag
      ∙ ap
          (λ (a : ℕ).
            by_htype field.htype e.mem (pb_encoders e encode field.ltype) field from.p_data
              (stored a) s)
          (sym (size ∙ ap (offset from.p_data) flag))

  pub encode_has :
      (s : OStream)
      → field.htype ≡ optional
      → HasFlag 1 field
      → encode_one e depth encode from s ≡ (
          if not (e.mem from.p_size == 0)
          then tag_and_value (pb_encoders e encode field.ltype) field from.p_data s
          else returns true s)
  unfolding by_htype read_has
  encode_has s opt flag = encode_flag s 1 flag ∙ rw opt refl

  -- A field without a `has_` field.
  pub encode_tested :
      (s : OStream)
      → IsImplicit field
      → (b : Bool) → pb_check_proto3_default_value e depth field from.p_data ≡ some b
      → encode_one e depth encode from s ≡ (
          if not b
          then tag_and_value (pb_encoders e encode field.ltype) field from.p_data s
          else returns true s)
  unfolding by_htype read_has
  encode_tested s (opt, no_flag, _) b tested =
      encode_one-plain s
      ∙ encode_implicit e depth encode field from.p_data s b (plain k lt).kept opt no_flag tested
      ∙ rw opt refl

  pub encode_numbers :
      (s : OStream)
      → field.htype ≡ repeated
      → HasFlag 4 field
      → encode_one e depth encode from s
        ≡ encode_array e.mem field from.p_data
            (load e.mem from.p_size 4)
            (λ s p. pb_encoders e encode field.ltype s field p)
            s
  unfolding by_htype read_size
  encode_numbers s rep flag = encode_flag s 4 flag ∙ rw rep refl
