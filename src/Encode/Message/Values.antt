-- ===== src/Encode/Message/Values.antt =====
-- The encoder that PB_ENCODERS gives for a field writes fixed bytes, or fails.
use get_together.Common.{ℕ, ◌<◌, ◌≡◌, ◌≢◌, refl, List, ◌==◌}
use get_together.Pb.{Outcome, u32_mod, u64_mod, invalid_field_descriptor}
use get_together.Pb.Field.{
  LType, varint, uvarint, svarint, fixed32, fixed64, bytes, string, submessage, extension,
  fixed_length_bytes, Field,
}
use get_together.Memory.{IsMemory}
use get_together.OStream.{OStream}
use get_together.OStream.Emits.{Action}
use get_together.OStream.Uniform.{Uniform, Uniform-bind, Uniform-error, Uniform-if}
use get_together.Encode.{pb_encode_tag_for_field}
use get_together.Encode.Wire.{length-le_bytes}
use get_together.Encode.Env.{Env}
use get_together.Encode.Fields.{pb_encoders, pb_enc_submessage}
use get_together.Encode.Fields.Uniform.{
  Uniform-pb_enc_varint, Uniform-pb_enc_uvarint, Uniform-pb_enc_svarint, Emits-pb_enc_fixed32,
  Emits-pb_enc_fixed64, Uniform-pb_enc_bytes, Uniform-pb_enc_string,
  Uniform-pb_enc_fixed_length_bytes,
}
use get_together.Encode.Submessage.Uniform.{Uniform-pb_encode_submessage}
use get_together.Encode.Array.Uniform.{Entries, Uniform-tag_for_field}
use get_together.Encode.Message.{tag_and_value}

module _ (e : Env) (cells : IsMemory e.mem) where
  pub Entries-pb_encoders :
      (encode : List Field → ℕ → Action) (field : Field)
      → field.data_size < u64_mod
      → field.ltype ≢ extension
      → ((src : ℕ) → field.ltype ≡ submessage → Uniform (encode (e.fields_at field.ptr) src))
      → Entries field.ltype (λ s p. pb_encoders e encode field.ltype s field p)
  unfolding pb_encoders
  Entries-pb_encoders encode field small plain sub = by_type field.ltype refl
    where
      by_type : (t : LType) → field.ltype ≡ t → Entries t (λ s p. pb_encoders e encode t s field p)
      by_type varint x = λ p. Uniform-pb_enc_varint e cells field p
      by_type uvarint x = λ p. Uniform-pb_enc_uvarint e cells field p
      by_type svarint x = λ p. Uniform-pb_enc_svarint e cells field p
      by_type fixed32 x = λ p. (_, Emits-pb_enc_fixed32 e cells field p, length-le_bytes 4 _)
      by_type fixed64 x = λ p. (_, Emits-pb_enc_fixed64 e cells field p, length-le_bytes 8 _)
      by_type bytes x = λ p. Uniform-pb_enc_bytes e cells field p
      by_type string x = λ p. Uniform-pb_enc_string e cells field p small
      by_type submessage x = λ p.
          unfold pb_enc_submessage in
          Uniform-if (field.ptr == 0) _ _ (λ _. Uniform-error invalid_field_descriptor)
            λ _. Uniform-pb_encode_submessage (encode (e.fields_at field.ptr) p) (sub p x)
      by_type extension x = absurd (plain x)
      by_type fixed_length_bytes x = λ p. Uniform-pb_enc_fixed_length_bytes e cells field p small

  pub Uniform-tag_and_value :
      (func : OStream → Field → ℕ → Outcome OStream) (field : Field) (p : ℕ)
      → field.tag < u32_mod
      → Uniform (λ s. func s field p)
      → Uniform (λ s. tag_and_value func field p s)
  unfolding tag_and_value
  Uniform-tag_and_value func field p h k =
      Uniform-bind (λ s. pb_encode_tag_for_field s field) (λ s. func s field p)
        (Uniform-tag_for_field field h) k
