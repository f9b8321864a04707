-- ===== src/Trip/Received.antt =====
-- What decode_field does with one field of a flat message that was encoded.
use get_together.Common.{
  ℤ, pos, length-append, suc, ◌%◌, ◌*◌, ℕ, ◌≤◌, ◌<◌, ◌≡◌, ◌≢◌, inl, refl, ap, ◌∙◌, true, false,
  Option, List, ◌++◌, length, get_or, offset, ◌==◌, arith,
}
use get_together.Pb.{size_mod, u32_mod}
use get_together.Pb.Field.{
  wt_string, is_packable, HType, required, optional, repeated, Field, WireType, last_field,
}
use get_together.Memory.{load, Memory, IsMemory}
use get_together.OStream.Emits.{Action}
use get_together.IStream.{IStream}
use get_together.IStream.Reads.{Holds, after}
use get_together.Iter.{FieldIter, current}
use get_together.Iter.Nth.{nth, current-nth}
use get_together.Encode.Env.{Env}
use get_together.Decode.Env.{DecodeEnv}
use get_together.Decode.Fields.{decoded, put}
use get_together.Decode.Fields.Within.{Outside, put-other}
use get_together.Decode.Items.{Decoder, pb_decoders}
use get_together.Decode.Field.{static_by_htype, decode_static_field, decode_by_atype, decode_field}
use get_together.Decode.Items.{is_repeated, decode_repeated}
use get_together.Trip.Cells.{put-same}
use get_together.Trip.Shape.{IsImplicit, room, IsField, HasFlag, IsPresent, SameField, BlankField}
use get_together.Trip.Places.{
  one_htype, never_implicit, repeated-HasFlag, room-single, slot-Outside, flag-Outside, InSlot,
  nth-address, flag-InSlot,
}
use get_together.Trip.Kept.{Agree, Agree-BlankValue}
use get_together.Trip.Crossing.{EntryCarries, ValueCrosses}
use get_together.Trip.Arrays.{entries_from}
use get_together.Trip.Items.{packed_items-entries}
use get_together.Trip.Packed.{decode_repeated-packed}
use get_together.Encode.Varint.{varint_bytes}

pub repeated-IsPresent :
    (mem : Memory) (t : HType) (o : ℤ) (p_size : ℕ) → t ≡ repeated → IsPresent mem t o p_size → ⊥
unfolding IsPresent
repeated-IsPresent mem repeated o p_size e h = h
repeated-IsPresent mem _ o p_size e h = cc

-- One field of a message at `src` and of a message at `dest`. A submessage crosses by itself.
module _ (e : Env) (cells : IsMemory e.mem) (encode : List Field → ℕ → Action) (d : DecodeEnv)
    (level : ℕ) (decode : Decoder) (defaults : List Field → ℕ → Memory → Option Memory)
    (inner : ℕ → ℕ → Type 0) (blank : Memory → ℕ → ℕ → Type 0) (same : Memory → ℕ → ℕ → ℕ → Type 0)
    (blank_kept : (mem mem' : Memory) (r q m : ℕ)
      → inner r m
      → Agree mem mem' q m
      → blank mem r q
      → blank mem' r q)
    (fields : List Field)
    (plain : (k : ℕ) → k < length fields → IsField inner (get_or fields k last_field)) (src k : ℕ)
    (lt : k < length fields) where
  abbrev field : Field
  field = get_or fields k last_field

  abbrev from : FieldIter
  from = nth fields src k

  -- With the struct at `dest`.
  module _ (dest : ℕ) where
    abbrev to : FieldIter
    to = nth fields dest k

    -- The field of the struct at `dest` is blank, or the same as that of the struct at `src`.
    abbrev pub FieldBlank : Memory → Type 0
    FieldBlank mem = BlankField (blank mem) field mem to.p_data to.p_size

    abbrev pub FieldSame : Memory → Type 0
    FieldSame mem = SameField (same mem) field e.mem from.p_data from.p_size mem to.p_data to.p_size

    -- Nothing has changed outside of the slot of the field.
    abbrev pub SlotFrame : Memory → Memory → Type 0
    SlotFrame mem mem' = (x : ℕ) → (InSlot inner fields plain dest k x → ⊥) → mem' x ≡ mem x

    -- decode_field takes `bs` behind a key of the wire type `w`.
    abbrev pub ReadsField : WireType → List ℕ → Type 0
    ReadsField w bs =
        length bs < u32_mod
        → (s : IStream) (mem : Memory) (rest : List ℕ) → FieldBlank mem
        → Holds s (bs ++ rest)
        → length bs ≤ s.bytes_left
        → (mem' : Memory) × (decode_field d level decode defaults s w to mem
            ≡ decoded true mem' (after s (length bs) rest))
          × SlotFrame mem mem'
          × FieldSame mem'

    decode_plain :
        (s : IStream) (w : WireType) (mem : Memory)
        → decode_field d level decode defaults s w to mem
          ≡ static_by_htype d level decode defaults field.htype s w to mem
    unfolding decode_field decode_by_atype decode_static_field
    decode_plain s w mem =
        ap (λ a. decode_by_atype d level decode defaults a s w to mem)
          (ap (λ f. f.atype) (current-nth fields dest k) ∙ (plain k lt).kept)
        ∙ ap (λ f. static_by_htype d level decode defaults f.htype s w to mem)
            (current-nth fields dest k)

    data-Outside :
        (x : ℕ)
        → is_repeated field.htype ≡ false
        → (InSlot inner fields plain dest k x → ⊥)
        → Outside to.p_data field.data_size x
    data-Outside x single out =
        rw (room-single field.htype field single) at
          (slot-Outside inner fields plain dest k x lt out)

    module _ (w : WireType)
        (c : ValueCrosses e cells encode d decode field from.p_data blank same field.ltype) where
      pub reads-required : field.htype ≡ required → ReadsField w c.value_bytes
      unfolding static_by_htype
      reads-required req small s mem rest ready holds left =
          let (mem', eq, frame, value) =
            c.reads small s mem to.p_data rest (ready.value (rw req refl)) holds left in
          (
            mem',
            decode_plain s w mem ∙ rw (req, current-nth fields dest k) eq,
            λ x out. frame x (data-Outside x (rw req refl) out),
            record {
              has = λ opt _. absurd (one_htype _ required optional (λ h. cc) req opt);
              value = λ there. value;
              entries = λ rep. absurd (one_htype _ required repeated (λ h. cc) req rep);
            },
          )

      pub reads-optional :
          field.htype ≡ optional
          → HasFlag 1 field
          → e.mem from.p_size ≢ 0
          → ReadsField w c.value_bytes
      unfolding static_by_htype
      reads-optional opt flag there small s mem rest ready holds left =
          let (at, before) = flag-InSlot inner fields plain dest k 1 lt flag in
          let (mem', eq, frame, value) =
            c.reads small s (put mem to.p_size 1) to.p_data rest
              (Agree-BlankValue inner (blank mem) (blank (put mem to.p_size 1)) field.ltype field
                to.p_data
                (λ h.
                  blank_kept mem (put mem to.p_size 1) field.ptr to.p_data field.data_size h
                    λ x ge small. put-other mem to.p_size 1 x (λ eq. omega (arith, before)))
                (plain k lt).typed (ready.value (rw opt refl)))
              holds left in
          (
            mem',
            decode_plain s w mem
                ∙ rw (opt, current-nth fields dest k, apart (omega (arith, before))) eq,
            λ x out.
                frame x (data-Outside x (rw opt refl) out)
                ∙ put-other mem to.p_size 1 x
                    (λ eq. out (rw eq (at to.p_size (omega arith) (omega arith)))),
            record {
              has = λ _ _.
                  both_there _ _
                    (frame to.p_size (inl (omega (arith, before))) ∙ put-same mem to.p_size 1)
                    there;
              value = λ _. value;
              entries = λ rep. absurd (one_htype _ optional repeated (λ h. cc) opt rep);
            },
          )
        where
          apart : to.p_size < to.p_data → (to.p_size == to.p_data) ≡ false
          apart h = ground arith

          both_there : (a b : ℕ) → a ≡ 1 → b ≢ 0 → (a == 0) ≡ (b == 0)
          both_there a b h g = ground arith

      pub reads-implicit : IsImplicit field → ReadsField w c.value_bytes
      unfolding static_by_htype
      reads-implicit implicit small s mem rest ready holds left =
          let (opt, no_flag, _) = implicit in
          let (mem', eq, frame, value) =
            c.reads small s mem to.p_data rest (ready.value (rw opt refl)) holds left in
          (
            mem',
            decode_plain s w mem
                ∙ rw
                    (
                      opt,
                      current-nth fields dest k,
                      no_has to.p_size to.p_data (
                          (nth-address inner fields plain dest k lt).1
                          ∙ ap (offset to.p_data) no_flag),
                    )
                    eq,
            λ x out. frame x (data-Outside x (rw opt refl) out),
            record {
              has = λ _ flag. absurd (never_implicit field no_flag flag);
              value = λ _. value;
              entries = λ rep. absurd (one_htype _ optional repeated (λ h. cc) opt rep);
            },
          )
        where
          no_has : (a b : ℕ) → a ≡ offset b (pos 0) → (a == b) ≡ true
          no_has a b h = ground arith

    module _ (rep : field.htype ≡ repeated)
        (entry : (p : ℕ) → EntryCarries e cells encode d decode field p field.ltype)
        (packed : is_packable field.ltype ≡ true)
        (room_small : field.data_size * field.array_size < u32_mod)
        (size_small : field.array_size < u32_mod)
        (fits : load e.mem from.p_size 4 ≤ field.array_size) where
      abbrev pub array_bytes : List ℕ
      array_bytes =
          entries_from (λ p. (entry p).0.bytes) field.data_size from.p_data
            (load e.mem from.p_size 4) 0

      packed_here : is_packable (current to).ltype ≡ true
      packed_here = ap (λ f. is_packable f.ltype) (current-nth fields dest k) ∙ packed

      -- Outside of the slot is outside of the count and of the array.
      array-Outside :
          (x : ℕ)
          → (InSlot inner fields plain dest k x → ⊥)
          → Outside to.p_size 4 x × Outside to.p_data (field.data_size * field.array_size) x
      array-Outside x out = (
        flag-Outside inner fields plain dest k 4 x lt (repeated-HasFlag inner fields plain k lt rep)
            out,
        rw (ap (λ t. room t field) rep) at (slot-Outside inner fields plain dest k x lt out),
      )

      pub reads-array :
          ReadsField wt_string (varint_bytes (length array_bytes % size_mod) ++ array_bytes)
      unfolding static_by_htype
      reads-array small s mem rest ready holds left =
          let func = pb_decoders d decode field.ltype in
          let (at, before) =
            flag-InSlot inner fields plain dest k 4 lt
              (repeated-HasFlag inner fields plain k lt rep) in
          let lengths = length-append (varint_bytes (length array_bytes % size_mod)) array_bytes in
          let (mem', loop, spared, (counts, entries)) =
            packed_items-entries e.mem field func (λ p. (entry p).0.bytes)
              (λ p. (entry p).0.some_byte) (λ p. (entry p).0.reads) to (current-nth fields dest k)
              before room_small size_small from.p_data (load e.mem from.p_size 4) fits
              (load e.mem from.p_size 4) 0 (suc (length array_bytes))
              (record s { state = array_bytes ++ rest; bytes_left = length array_bytes }) mem rest
              (omega arith) (ready.empty rep, λ j none_yet. absurd (omega arith))
              (record { on_buffer = holds.on_buffer; holds = refl }) refl (omega arith)
              (omega (arith, lengths)) in
          (
            mem',
            decode_plain s wt_string mem
                ∙ ap (λ t. static_by_htype d level decode defaults t s wt_string to mem) rep
                ∙ ap
                    (λ (f : Field).
                      decode_repeated (pb_decoders d decode f.ltype) to wt_string s mem)
                    (current-nth fields dest k)
                ∙ decode_repeated-packed func to s mem mem' array_bytes rest packed_here small holds
                    left loop,
            λ x out. let (a, b) = array-Outside x out in spared x a b,
            record {
              has = λ opt _. absurd (one_htype _ repeated optional (λ h. cc) rep opt);
              value = λ there.
                  absurd
                    (repeated-IsPresent e.mem field.htype field.size_offset from.p_size rep there);
              entries = λ _. (counts, entries);
            },
          )
