-- ===== src/Encode/Array/Uniform.antt =====
-- Arrays are written in fixed bytes, or not at all.
use get_together.Common.{
  ℕ, zero, suc, ◌+◌, ◌*◌, ◌%◌, ◌<◌, ◌≡◌, refl, ap, ◌∙◌, Bool, true, not, ◌&&◌, Option, none, some,
  List, [], ◌++◌, length, length-append, ltb, ◌==◌, arith,
}
use get_together.Pb.{
  Outcome, returns, size_mod, u32_mod, invalid_field_type, array_max_size_exceeded,
}
use get_together.Pb.Field.{
  LType, varint, fixed32, fixed64, extension, Field, wt_string, wire_code, is_packable,
}
use get_together.Memory.{Memory}
use get_together.OStream.{Writer, OStream, pb_ostream_sizing}
use get_together.OStream.Emits.{Emits, Emits-bind, pb_write-Ends, pb_write-counts}
use get_together.OStream.Uniform.{
  Uniform, emits, fails, Uniform-bind, Uniform-returns, Emits-returns, Uniform-error, Uniform-if,
}
use get_together.Encode.{pb_encode_tag_for_field, wire_type_for}
use get_together.Encode.Varint.{varint_bytes, Emits-pb_encode_varint}
use get_together.Encode.Wire.{Emits-pb_encode_tag}
use get_together.Encode.Array.{
  is_pointer, each_entry, sizing_run, packed_size, packed_entries, write_packed, tagged_entry,
  encode_array,
}

pub Uniform-tag_for_field :
    (field : Field) → field.tag < u32_mod → Uniform (λ s. pb_encode_tag_for_field s field)
unfolding pb_encode_tag_for_field wire_type_for wire_code
Uniform-tag_for_field field h = by_type field.ltype refl
  where
    by_type : (t : LType) → field.ltype ≡ t → Uniform (λ s. pb_encode_tag_for_field s field)
    by_type extension x = rw x (Uniform-error invalid_field_type)
    by_type varint x = rw x (emits _ (Emits-pb_encode_tag _ field.tag (omega arith) h))
    by_type _ x = rw x (emits _ (Emits-pb_encode_tag _ field.tag (omega arith) h))

module _ (func : OStream → ℕ → Outcome OStream) where
  pub Uniform-each_entry :
      ((p : ℕ) → Uniform (λ s. func s p))
      → (count data_size p : ℕ) → Uniform (λ s. each_entry func count data_size p s)
  unfolding each_entry
  Uniform-each_entry h zero data_size p = Uniform-returns
  Uniform-each_entry h (suc count) data_size p =
      Uniform-bind (λ s. func s p) (λ s. each_entry func count data_size (p + data_size) s) (h p)
        (Uniform-each_entry h count data_size (p + data_size))

  -- Entries of one width.
  pub Emits-each_entry :
      (w : ℕ)
      → ((p : ℕ) → (bs : List ℕ) × Emits (λ s. func s p) bs × (length bs ≡ w))
      → (count data_size p : ℕ)
      → (bs : List ℕ) × Emits (λ s. each_entry func count data_size p s) bs
        × (length bs ≡ w * count)
  unfolding each_entry
  Emits-each_entry w h zero data_size p = ([], Emits-returns, omega arith)
  Emits-each_entry w h (suc count) data_size p =
      let (bs, e, x) = h p in
      let (cs, f, y) = Emits-each_entry w h count data_size (p + data_size) in
      (
        bs ++ cs,
        Emits-bind (λ s. func s p) (λ s. each_entry func count data_size (p + data_size) s) bs cs e
            f,
        omega (arith, length-append bs cs),
      )

module _ (func : OStream → ℕ → Outcome OStream) (count data_size p : ℕ) (bs : List ℕ)
    (h : Emits (λ s. each_entry func count data_size p s) bs) where
  packed_entries-Ends :
      (c : Option Writer) (n : ℕ) (s : OStream)
      → (b : Bool) × (s' : OStream) × (packed_entries c func count data_size p n s ≡ returns b s')
  unfolding packed_entries
  packed_entries-Ends none n s = (pb_write-Ends [] n).at s
  packed_entries-Ends (some w) n s = h.ends.at s

  Emits-packed_entries :
      Emits (λ s. packed_entries s.callback func count data_size p (length bs % size_mod) s) bs
  unfolding packed_entries
  Emits-packed_entries = record {
    ends = record { at = λ s. packed_entries-Ends s.callback (length bs % size_mod) s };
    sizing = λ s c m.
        ap (λ w. packed_entries w func count data_size p (length bs % size_mod) s) c
        ∙ pb_write-counts s [] (length bs % size_mod) c
        ∙ ap (λ (t : ℕ). returns true (record s { bytes_written = t })) (omega arith);
    fits = λ s c m k r.
        ap (λ w. packed_entries w func count data_size p (length bs % size_mod) s) c
        ∙ h.fits s c m k r;
    full = λ s c m k r t.
        let (s', x) = h.full s c m k r t in
        (s', ap (λ w. packed_entries w func count data_size p (length bs % size_mod) s) c ∙ x);
  }

  pub Emits-write_packed :
      Emits
        (λ s. write_packed func count data_size p (some (true, length bs % size_mod)) s)
        (varint_bytes (length bs % size_mod) ++ bs)
  unfolding write_packed
  Emits-write_packed =
      Emits-bind _ _ _ bs (Emits-pb_encode_varint (length bs % size_mod) (omega arith))
        Emits-packed_entries

  pub counted :
      sizing_run (each_entry func count data_size p pb_ostream_sizing)
      ≡ some (true, length bs % size_mod)
  unfolding sizing_run
  counted =
      ap sizing_run (h.sizing pb_ostream_sizing refl (omega arith))
      ∙ ap (λ (t : ℕ). some (true, t)) (omega arith)

module _ (func : OStream → ℕ → Outcome OStream) (count data_size p : ℕ) where
  sized_by_run :
      Uniform (λ s. each_entry func count data_size p s)
      → Uniform (λ s.
        write_packed func count data_size p
          (sizing_run (each_entry func count data_size p pb_ostream_sizing))
          s)
  sized_by_run (emits bs h) =
      rw (counted func count data_size p bs h)
        (emits _ (Emits-write_packed func count data_size p bs h))
  sized_by_run (fails f) =
      let (s', x) = f.at pb_ostream_sizing in
      rw x (unfold sizing_run write_packed in fails (record { at = λ s. (s, refl) }))

  sized_by_width :
      (w : ℕ)
      → ((p : ℕ) → (bs : List ℕ) × Emits (λ s. func s p) bs × (length bs ≡ w))
      → Uniform (λ s. write_packed func count data_size p (some (true, w * count % size_mod)) s)
  sized_by_width w h =
      let (bs, e, x) = Emits-each_entry func w h count data_size p in
      rw (← x) (emits _ (Emits-write_packed func count data_size p bs e))

-- What an array needs of the function that writes an entry.
abbrev pub Entries : LType → (OStream → ℕ → Outcome OStream) → Type 0
Entries fixed32 func = (p : ℕ) → (bs : List ℕ) × Emits (λ s. func s p) bs × (length bs ≡ 4)
Entries fixed64 func = (p : ℕ) → (bs : List ℕ) × Emits (λ s. func s p) bs × (length bs ≡ 8)
Entries _ func = (p : ℕ) → Uniform (λ s. func s p)

pub Entries-Uniform :
    (t : LType) (func : OStream → ℕ → Outcome OStream) (p : ℕ)
    → Entries t func
    → Uniform (λ s. func s p)
Entries-Uniform fixed32 func p h = let (bs, e, x) = h p in emits bs e
Entries-Uniform fixed64 func p h = let (bs, e, x) = h p in emits bs e
Entries-Uniform _ func p h = h p

Uniform-packed :
    (t : LType) (func : OStream → ℕ → Outcome OStream) (count data_size p : ℕ)
    → Entries t func
    → Uniform (λ s. write_packed func count data_size p (packed_size t func count data_size p) s)
unfolding packed_size
Uniform-packed fixed32 func count data_size p h = sized_by_width func count data_size p 4 h
Uniform-packed fixed64 func count data_size p h = sized_by_width func count data_size p 8 h
Uniform-packed _ func count data_size p h =
    sized_by_run func count data_size p (Uniform-each_entry func h count data_size p)

Uniform-tagged_entry :
    (mem : Memory) (field : Field) (func : OStream → ℕ → Outcome OStream) (p : ℕ)
    → field.tag < u32_mod
    → ((p : ℕ) → Uniform (λ s. func s p))
    → Uniform (λ s. tagged_entry mem field func s p)
unfolding tagged_entry
Uniform-tagged_entry mem field func p k h = Uniform-bind _ _ (Uniform-tag_for_field field k) (h _)

pub Uniform-encode_array :
    (mem : Memory) (field : Field) (p count : ℕ) (func : OStream → ℕ → Outcome OStream)
    → field.tag < u32_mod
    → Entries field.ltype func
    → Uniform (λ s. encode_array mem field p count func s)
unfolding encode_array wire_code
Uniform-encode_array mem field p count func k h =
    Uniform-if (count == 0) _ _ (λ _. Uniform-returns)
      λ _.
        Uniform-if (not (is_pointer field.atype) && ltb field.array_size count) _ _
          (λ _. Uniform-error array_max_size_exceeded)
          λ _.
            Uniform-if (is_packable field.ltype) _ _
              (λ _.
                Uniform-bind _ _ (emits _ (Emits-pb_encode_tag wt_string field.tag (omega arith) k))
                  (Uniform-packed field.ltype func count field.data_size p h))
              λ _.
                Uniform-each_entry (tagged_entry mem field func)
                  (λ p.
                    Uniform-tagged_entry mem field func p k
                      λ p. Entries-Uniform field.ltype func p h)
                  count field.data_size p
