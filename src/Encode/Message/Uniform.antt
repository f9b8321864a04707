-- ===== src/Encode/Message/Uniform.antt =====
-- pb_encode on a message of plain fields writes fixed bytes, or fails.
use get_together.Common.{
  ℕ, zero, suc, ◌+◌, ◌≤◌, ◌<◌, ◌≡◌, ◌⊎◌, inl, inr, refl, ap, ◌∙◌, List, length, ◌==◌, if◌then◌else◌,
  arith,
}
use get_together.Pb.{Outcome, u32_mod, missing_required_field}
use get_together.Pb.Field.{
  submessage, static, pointer, HType, required, optional, repeated, oneof, Field,
}
use get_together.Memory.{IsMemory, load, load_pointer}
use get_together.OStream.{OStream}
use get_together.OStream.Emits.{Action}
use get_together.OStream.Uniform.{
  Uniform, Uniform-bind, Uniform-returns, Uniform-error, Uniform-if, Uniform-cong,
}
use get_together.Iter.{FieldIter, current, is_extension, pb_field_iter_begin, pb_field_iter_next}
use get_together.Iter.Walk.{next_more, begin_some, All-get_or}
use get_together.Encode.Env.{Env}
use get_together.Encode.Fields.{pb_encoders}
use get_together.Encode.Array.{is_pointer}
use get_together.Encode.Array.Uniform.{Entries, Entries-Uniform, Uniform-encode_array}
use get_together.Encode.Message.{
  SizePointer, read_has, read_size, by_htype, encode_basic_field, by_atype, encode_field,
  encode_one, each_field, pb_encode,
}
use get_together.Encode.Message.Plain.{IsPlain, IsNested}
use get_together.Encode.Message.Place.{HasPlace, size_pointer-HasPlace, is_extension-true}
use get_together.Encode.Message.Values.{Entries-pb_encoders, Uniform-tag_and_value}

module _ (e : Env) (cells : IsMemory e.mem) where
  Uniform-by_htype :
      (func : OStream → Field → ℕ → Outcome OStream) (field : Field) (p : ℕ) (size : SizePointer)
      → field.tag < u32_mod
      → Entries field.ltype (λ s p. func s field p)
      → (t : HType) → HasPlace t size
      → Uniform (λ s. by_htype t e.mem func field p size s)
  unfolding by_htype read_size
  Uniform-by_htype func field p size h k required place =
      Uniform-if (p == 0) _ _ (λ _. Uniform-error missing_required_field)
        λ _. Uniform-tag_and_value e cells func field p h (Entries-Uniform field.ltype _ p k)
  Uniform-by_htype func field p size h k optional place =
      Uniform-if (read_has e.mem size) _ _
        (λ _. Uniform-tag_and_value e cells func field p h (Entries-Uniform field.ltype _ p k))
        λ _. Uniform-returns
  Uniform-by_htype func field p size h k repeated (a, x) =
      rw x (Uniform-encode_array e.mem field p (load e.mem a 4) (λ s p. func s field p) h k)
  Uniform-by_htype func field p size h k oneof (a, x) = rw x (
      Uniform-if (load e.mem a 4 == field.tag) _ _
        (λ _. Uniform-tag_and_value e cells func field p h (Entries-Uniform field.ltype _ p k))
        λ _. Uniform-returns)

  Uniform-basic_field :
      (depth : ℕ) (encode : List Field → ℕ → Action) (field : Field) (p : ℕ)
      → IsPlain (λ q. IsNested e depth (e.fields_at q)) field
      → ((src : ℕ) → field.ltype ≡ submessage → Uniform (encode (e.fields_at field.ptr) src))
      → Uniform (λ s. encode_basic_field e (suc depth) encode s field p)
  unfolding encode_basic_field
  Uniform-basic_field depth encode field p plain sub =
      let target : ℕ = if is_pointer field.atype then load_pointer e.mem p else p in
      let (size, x, place) = size_pointer-HasPlace e depth field p target plain in
      rw x (
        Uniform-by_htype (pb_encoders e encode field.ltype) field target size plain.tag_small
          (Entries-pb_encoders e cells encode field plain.size_small plain.not_extension sub)
          field.htype place)

  Uniform-encode_field :
      (depth : ℕ) (encode : List Field → ℕ → Action) (field : Field) (p : ℕ)
      → IsPlain (λ q. IsNested e depth (e.fields_at q)) field
      → ((src : ℕ) → field.ltype ≡ submessage → Uniform (encode (e.fields_at field.ptr) src))
      → Uniform (λ s. encode_field e (suc depth) encode s field p)
  unfolding encode_field by_atype
  Uniform-encode_field depth encode field p plain sub = go plain.kept
    where
      basic : Uniform (λ s. encode_basic_field e (suc depth) encode s field p)
      basic = Uniform-basic_field depth encode field p plain sub

      go :
          (field.atype ≡ static) ⊎ (field.atype ≡ pointer)
          → Uniform (λ s. by_atype e (suc depth) encode field.atype s field p)
      go (inl x) =
          Uniform-cong _ _ (λ s. ap (λ a. by_atype e (suc depth) encode a s field p) x) basic
      go (inr x) =
          Uniform-cong _ _ (λ s. ap (λ a. by_atype e (suc depth) encode a s field p) x) basic

  Uniform-encode_one :
      (depth : ℕ) (encode : List Field → ℕ → Action) (it : FieldIter)
      → IsPlain (λ q. IsNested e depth (e.fields_at q)) (current it)
      → ((src : ℕ)
          → (current it).ltype ≡ submessage
          → Uniform (encode (e.fields_at (current it).ptr) src))
      → Uniform (λ s. encode_one e (suc depth) encode it s)
  unfolding encode_one
  Uniform-encode_one depth encode it plain sub =
      Uniform-if (is_extension (current it).ltype) _ _
        (λ x. absurd (plain.not_extension (is_extension-true (current it).ltype x)))
        λ _. Uniform-encode_field depth encode (current it) it.p_data plain sub

  -- The theorem at one level of nesting.
  Uniform-each_field :
      (depth : ℕ) (fields : List Field)
      → IsNested e (suc depth) fields
      → ((inner : List Field) (src : ℕ)
          → IsNested e depth inner
          → Uniform (λ s. pb_encode e depth inner src s))
      → (fuel : ℕ) (it : FieldIter) → it.start ≡ fields
      → it.pos < length fields
      → length fields ≤ it.pos + fuel
      → Uniform (λ s. each_field e (suc depth) (pb_encode e depth) fuel it s)
  unfolding each_field
  Uniform-each_field depth fields nested sub zero it x lt le = absurd (omega arith)
  Uniform-each_field depth fields nested sub (suc fuel) it x lt le =
      Uniform-bind (λ s. encode_one e (suc depth) (pb_encode e depth) it s) _
        (Uniform-encode_one depth (pb_encode e depth) it plain
          λ src y. sub (e.fields_at (current it).ptr) src (plain.inner y))
        (Uniform-if (pb_field_iter_next it).1 _ _
          (λ more.
            let (same, forward, inside) = next_more it more in
            Uniform-each_field depth fields nested sub fuel (pb_field_iter_next it).0 (same ∙ x)
              (omega (arith, forward, ap length x)) (omega (arith, forward)))
          λ _. Uniform-returns)
    where
      plain : IsPlain (λ q. IsNested e depth (e.fields_at q)) (current it)
      plain = unfold current in rw x (All-get_or _ fields it.pos nested lt)

-- On plain messages pb_encode either writes some bytes, whatever the stream, or fails.
pub Uniform-pb_encode :
    (e : Env) (depth : ℕ) (fields : List Field) (src : ℕ)
    → IsMemory e.mem
    → IsNested e depth fields
    → Uniform (λ s. pb_encode e depth fields src s)
unfolding pb_encode
Uniform-pb_encode e zero fields src cells nested = absurd nested
Uniform-pb_encode e (suc depth) fields src cells nested =
    Uniform-if (pb_field_iter_begin fields src).1 _ _
      (λ some_field.
        Uniform-each_field e cells depth fields nested
          (λ inner q n. Uniform-pb_encode e depth inner q cells n) (length fields)
          (pb_field_iter_begin fields src).0 (unfold pb_field_iter_begin in refl)
          (unfold pb_field_iter_begin in begin_some fields src some_field)
          (unfold pb_field_iter_begin in omega arith))
      λ _. Uniform-returns
