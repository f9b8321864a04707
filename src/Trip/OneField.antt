-- ===== src/Trip/OneField.antt =====
-- What encode_field and decode_field do with one field of a flat message.
use native.Mathlib.Nat.{mul-le-mul_right}
use get_together.Common.{
  length-append, ◌+◌, ◌^◌, negsuc, ◌%◌, ◌*◌, ℕ, ◌≤◌, ◌<◌, ◌≡◌, ◌≢◌, ◌⊎◌, inl, inr, refl, ap, ◌∙◌,
  sym, true, false, Option, List, [], ◌++◌, length, get_or, Bool-cases, ◌==◌, arith,
}
use get_together.Pb.{size_mod, u32_mod}
use get_together.Pb.Field.{
  wire_code, wt_string, is_packable, HType, required, optional, repeated, Field, WireType,
  last_field,
}
use get_together.Memory.{load, Memory, IsMemory}
use get_together.OStream.Emits.{Action, Emits}
use get_together.OStream.Uniform.{Emits-cong, Emits-returns}
use get_together.Iter.{FieldIter}
use get_together.Iter.Nth.{nth}
use get_together.Encode.Env.{Env}
use get_together.Encode.Wire.{key_bytes, key}
use get_together.Encode.Fields.{pb_encoders}
use get_together.Encode.Message.{encode_one}
use get_together.Decode.Env.{DecodeEnv}
use get_together.Decode.Items.{Decoder}
use get_together.Decode.Values.{IsProto}
use get_together.Trip.Shape.{IsImplicit, IsField, HasFlag, IsPresent}
use get_together.Trip.Places.{one_htype, never_implicit}
use get_together.Trip.Kept.{Agree}
use get_together.Trip.Crossing.{EntryCarries, ValueCrosses, typed_wire}
use get_together.Encode.Array.{encode_array}
use get_together.Trip.Arrays.{entries_bounded, Emits-encode_array}
use get_together.Encode.Varint.{varint_bytes, varint_bytes-shape}
use get_together.Trip.Written.{Emits-present, encode_required}
use get_together.Trip.Implicit.{Tested}
use get_together.Trip.Received.{
  FieldBlank, FieldSame, ReadsField, repeated-IsPresent, reads-required, reads-optional,
  reads-implicit, array_bytes, reads-array,
}
use get_together.Trip.Visited.{
  encode_one-plain, some_address, encode_has, encode_tested, encode_numbers,
}

optional-IsPresent :
    (mem : Memory) (t : HType) (m p_size : ℕ)
    → t ≡ optional
    → IsPresent mem t (negsuc m) p_size
    → mem p_size ≢ 0
unfolding IsPresent
optional-IsPresent mem required m p_size e h = cc
optional-IsPresent mem repeated m p_size e h = cc
optional-IsPresent mem _ m p_size e h = h

key_bytes-bounded :
    (w : WireType) (n : ℕ) → wire_code w < 8 → n < 2 ^ 29 → length (key_bytes w n) ≤ 10
unfolding key_bytes key
key_bytes-bounded w n code small =
    let (all, some_byte, ten) = varint_bytes-shape (n * 8 + wire_code w) (omega arith) in ten

segment-bounded :
    (w : WireType) (n : ℕ) (bs : List ℕ) (bound : ℕ)
    → wire_code w < 8
    → n < 2 ^ 29
    → 10 + length bs ≤ bound
    → length (key_bytes w n ++ bs) ≤ bound
segment-bounded w n bs bound code small h =
    omega (arith, length-append (key_bytes w n) bs, key_bytes-bounded w n code small)

-- One field of a message at `src` and of a message at `dest`. A submessage crosses by itself.
module _ (e : Env) (cells : IsMemory e.mem) (depth : ℕ) (encode : List Field → ℕ → Action)
    (d : DecodeEnv) (level : ℕ) (decode : Decoder)
    (defaults : List Field → ℕ → Memory → Option Memory) (inner : ℕ → ℕ → Type 0)
    (blank : Memory → ℕ → ℕ → Type 0) (same : Memory → ℕ → ℕ → ℕ → Type 0)
    (blank_kept : (mem mem' : Memory) (r q m : ℕ)
      → inner r m
      → Agree mem mem' q m
      → blank mem r q
      → blank mem' r q)
    (fields : List Field)
    (plain : (k : ℕ) → k < length fields → IsField inner (get_or fields k last_field)) (src k : ℕ)
    (lt : k < length fields) (bound : ℕ) where
  abbrev field : Field
  field = get_or fields k last_field

  abbrev from : FieldIter
  from = nth fields src k

  abbrev BlankAt : ℕ → Memory → Type 0
  BlankAt dest mem =
      FieldBlank e cells encode d level decode defaults inner blank same blank_kept fields plain src
        k lt dest mem

  abbrev SameAt : ℕ → Memory → Type 0
  SameAt dest mem =
      FieldSame e cells encode d level decode defaults inner blank same blank_kept fields plain src
        k lt dest mem

  abbrev ReadsAt : ℕ → WireType → List ℕ → Type 0
  ReadsAt dest w bs =
      ReadsField e cells encode d level decode defaults inner blank same blank_kept fields plain src
        k lt dest w bs

  -- What encode_one writes for the field, and how decode_field reads it: nothing, for an optional
  -- field that is not there, or key and value.
  pub record FieldCrosses : Type 0 where
    pub segment : List ℕ
    pub bounded : length segment ≤ bound
    pub emits : Emits (λ s. encode_one e depth encode from s) segment
    pub crosses :
        (dest : ℕ)
        → ((segment ≡ [])
            × (field.htype ≢ required)
            × ((mem : Memory) → BlankAt dest mem → SameAt dest mem))
          ⊎ ((w : WireType) × (bs : List ℕ) × (segment ≡ key_bytes w field.tag ++ bs)
              × IsProto w
              × ReadsAt dest w bs)

  required-Crosses :
      0 < src
      → field.htype ≡ required
      → (c : ValueCrosses e cells encode d decode field from.p_data blank same field.ltype)
      → 10 + length c.value_bytes ≤ bound
      → FieldCrosses
  required-Crosses some_src req c narrow =
      let (w, wire, proto, code) = typed_wire inner field field.ltype (plain k lt).typed in
      let tag_small = (plain k lt).tag_small in
      record {
        segment = key_bytes w field.tag ++ c.value_bytes;
        bounded = segment-bounded w field.tag c.value_bytes bound code tag_small narrow;
        emits =
            Emits-cong _ _ _
              (λ s.
                encode_one-plain e depth encode inner fields plain src k lt s
                ∙ encode_required e depth encode field from.p_data s (plain k lt).kept req
                    (some_address e depth encode inner fields plain src k lt some_src))
              (Emits-present e depth encode field from.p_data w c.value_bytes wire code
                (omega arith) c.emits);
        crosses = λ dest. inr (
          w,
          c.value_bytes,
          refl,
          proto,
          reads-required e cells encode d level decode defaults inner blank same blank_kept fields
              plain src k lt dest w c req,
        );
      }

  present-Crosses :
      field.htype ≡ optional
      → HasFlag 1 field
      → (e.mem from.p_size == 0) ≡ false
      → (c : ValueCrosses e cells encode d decode field from.p_data blank same field.ltype)
      → 10 + length c.value_bytes ≤ bound
      → FieldCrosses
  present-Crosses opt flag there c narrow =
      let (w, wire, proto, code) = typed_wire inner field field.ltype (plain k lt).typed in
      let tag_small = (plain k lt).tag_small in
      record {
        segment = key_bytes w field.tag ++ c.value_bytes;
        bounded = segment-bounded w field.tag c.value_bytes bound code tag_small narrow;
        emits =
            Emits-cong _ _ _
              (λ s.
                encode_has e depth encode inner fields plain src k lt s opt flag ∙ rw there refl)
              (Emits-present e depth encode field from.p_data w c.value_bytes wire code
                (omega arith) c.emits);
        crosses = λ dest. inr (
          w,
          c.value_bytes,
          refl,
          proto,
          reads-optional e cells encode d level decode defaults inner blank same blank_kept fields
              plain src k lt dest w c opt flag (λ z. ground (arith, there)),
        );
      }

  absent-Crosses :
      field.htype ≡ optional → HasFlag 1 field → (e.mem from.p_size == 0) ≡ true → FieldCrosses
  absent-Crosses opt flag absent = record {
    segment = [];
    bounded = omega arith;
    emits =
        Emits-cong _ _ _
          (λ s. encode_has e depth encode inner fields plain src k lt s opt flag ∙ rw absent refl)
          Emits-returns;
    crosses = λ dest. inl (
      refl,
      (λ req. one_htype _ required optional (λ h. cc) req opt),
      (λ mem ready. record {
        has = λ _ _. ap (λ (t : ℕ). t == 0) (ready.has opt flag) ∙ sym absent;
        value = λ there. absurd (
            optional-IsPresent e.mem field.htype flag.0 from.p_size opt (rw (flag.1) at there)
              (ground (arith, absent)));
        entries = λ rep. absurd (one_htype _ optional repeated (λ h. cc) opt rep);
      }),
    );
  }

  tested-Crosses :
      IsImplicit field
      → Tested e depth same field from.p_data
      → (c : ValueCrosses e cells encode d decode field from.p_data blank same field.ltype)
      → 10 + length c.value_bytes ≤ bound
      → FieldCrosses
  tested-Crosses implicit t c narrow = elim (Bool-cases t.is_default) [
    | inl default ↦ record {
      segment = [];
      bounded = omega arith;
      emits =
          Emits-cong _ _ _
            (λ s.
              encode_tested e depth encode inner fields plain src k lt s implicit t.is_default
                t.tested
              ∙ rw default refl)
            Emits-returns;
      crosses = λ dest. inl (
        refl,
        (λ req. one_htype _ required optional (λ h. cc) req implicit.0),
        (λ mem ready. record {
          has = λ _ flag. absurd (never_implicit field implicit.1 flag);
          value = λ _. t.zeros_same default mem (nth fields dest k).p_data (ready.zeros implicit);
          entries = λ rep. absurd (one_htype _ optional repeated (λ h. cc) implicit.0 rep);
        }),
      );
    }
    | inr written ↦
        let (w, wire, proto, code) = typed_wire inner field field.ltype (plain k lt).typed in
        let tag_small = (plain k lt).tag_small in
        record {
          segment = key_bytes w field.tag ++ c.value_bytes;
          bounded = segment-bounded w field.tag c.value_bytes bound code tag_small narrow;
          emits =
              Emits-cong _ _ _
                (λ s.
                  encode_tested e depth encode inner fields plain src k lt s implicit t.is_default
                    t.tested
                  ∙ rw written refl)
                (Emits-present e depth encode field from.p_data w c.value_bytes wire code
                  (omega arith) c.emits);
          crosses = λ dest. inr (
            w,
            c.value_bytes,
            refl,
            proto,
            reads-implicit e cells encode d level decode defaults inner blank same blank_kept fields
                plain src k lt dest w c implicit,
          );
        }
  ]

  empty-Crosses :
      field.htype ≡ repeated
      → HasFlag 4 field
      → (load e.mem from.p_size 4 == 0) ≡ true
      → FieldCrosses
  unfolding encode_array
  empty-Crosses rep flag none_there = record {
    segment = [];
    bounded = omega arith;
    emits =
        Emits-cong _ _ _
          (λ s.
            encode_numbers e depth encode inner fields plain src k lt s rep flag
            ∙ rw none_there refl)
          Emits-returns;
    crosses = λ dest. inl (
      refl,
      (λ req. one_htype _ required repeated (λ h. cc) req rep),
      (λ mem ready. record {
        has = λ opt _. absurd (one_htype _ repeated optional (λ h. cc) rep opt);
        value = λ there.
            absurd (repeated-IsPresent e.mem field.htype field.size_offset from.p_size rep there);
        entries = λ _. (
          ready.empty rep ∙ ground (arith, none_there),
          λ i lt. absurd (ground (arith, none_there)),
        );
      }),
    );
  }

  array-Crosses :
      (rep : field.htype ≡ repeated)
      → HasFlag 4 field
      → (load e.mem from.p_size 4 == 0) ≡ false
      → (entry : (p : ℕ) → EntryCarries e cells encode d decode field p field.ltype)
      → is_packable field.ltype ≡ true
      → field.data_size * field.array_size < u32_mod
      → field.array_size < u32_mod
      → load e.mem from.p_size 4 ≤ field.array_size
      → 20 + field.array_size * (10 + field.data_size) ≤ bound
      → FieldCrosses
  array-Crosses rep flag some_there entry packed room_small size_small fits most =
      let tag_small = (plain k lt).tag_small in
      let entries =
        array_bytes e cells encode d level decode defaults inner blank same blank_kept fields plain
          src k lt 0 rep entry packed room_small size_small fits in
      let front = varint_bytes (length entries % size_mod) in
      let (all, some_byte, ten) = varint_bytes-shape (length entries % size_mod) (omega arith) in
      let few : length entries ≤ load e.mem from.p_size 4 * (10 + field.data_size) =
        entries_bounded (λ p. (entry p).0.bytes) field.data_size (10 + field.data_size)
          (load e.mem from.p_size 4) 0 from.p_data (λ p. (entry p).0.bounded) in
      record {
        bounded =
            segment-bounded wt_string field.tag (front ++ entries) bound
              (unfold wire_code in omega arith) tag_small
              (omega (
                arith,
                ten,
                few,
                length-append front entries,
                mul-le-mul_right (10 + field.data_size) fits,
                most,
              ));
        segment =
            key_bytes wt_string field.tag
            ++ (varint_bytes (
                  length (
                    array_bytes e cells encode d level decode defaults inner blank same blank_kept
                      fields plain src k lt 0 rep entry packed room_small size_small fits)
                  % size_mod)
                ++ array_bytes e cells encode d level decode defaults inner blank same blank_kept
                    fields plain src k lt 0 rep entry packed room_small size_small fits);
        emits =
            Emits-cong _ _ _
              (λ s. encode_numbers e depth encode inner fields plain src k lt s rep flag)
              (Emits-encode_array (λ s p. pb_encoders e encode field.ltype s field p)
                field.data_size (λ p. (entry p).0.bytes) (λ p. (entry p).0.emits) e.mem field
                (load e.mem from.p_size 4) from.p_data (plain k lt).kept refl (omega arith) packed
                some_there fits (λ p. (entry p).1));
        crosses = λ dest. inr (
          wt_string,
          _,
          refl,
          tt,
          reads-array e cells encode d level decode defaults inner blank same blank_kept fields
              plain src k lt dest rep entry packed room_small size_small fits,
        );
      }

  pub flat-FieldCrosses :
      0 < src
      → (IsPresent e.mem field.htype field.size_offset from.p_size
          → (c : ValueCrosses e cells encode d decode field from.p_data blank same field.ltype)
            × (10 + length c.value_bytes ≤ bound))
      → (is_packable field.ltype ≡ true
          → (p : ℕ) → EntryCarries e cells encode d decode field p field.ltype)
      → (field.htype ≡ repeated → load e.mem from.p_size 4 ≤ field.array_size)
      → (IsImplicit field → Tested e depth same field from.p_data)
      → (field.htype ≡ repeated → 20 + field.array_size * (10 + field.data_size) ≤ bound)
      → FieldCrosses
  unfolding IsPresent
  flat-FieldCrosses some_src value entry fits tested most = elim ((plain k lt).marked) [
    | inl req ↦ let (c, narrow) = value (rw req tt) in required-Crosses some_src req c narrow
    | inr (inl (opt, flag)) ↦ elim (Bool-cases (e.mem from.p_size == 0)) [
      | inl absent ↦ absent-Crosses opt flag absent
      | inr there ↦
          let (c, narrow) = value (rw (opt, flag.1) (λ z. ground (arith, there))) in
          present-Crosses opt flag there c narrow
    ]
    | inr (inr (inr implicit)) ↦
        let (c, narrow) = value (rw (implicit.0, implicit.1) tt) in
        tested-Crosses implicit (tested implicit) c narrow
    | inr (inr (inl (rep, flag, packed, room_small, size_small))) ↦
        elim (Bool-cases (load e.mem from.p_size 4 == 0)) [
          | inl none_there ↦ empty-Crosses rep flag none_there
          | inr some_there ↦
              array-Crosses rep flag some_there (entry packed) packed room_small size_small
                (fits rep) (most rep)
        ]
  ]
