-- ===== src/Trip/Nested.antt =====
-- Flat messages at every level of nesting.
use native.Mathlib.Decide.{dec_lt}
use get_together.Common.{
  ◌*◌, length-append, ℕ, zero, suc, ◌+◌, ◌≤◌, ◌<◌, ◌≡◌, ◌≢◌, refl, true, false, List, [], ◌++◌,
  length, get_or, arith,
}
use get_together.Pb.{u32_mod}
use get_together.Decode.Items.{is_repeated}
use get_together.Pb.Field.{HType, repeated, Field, last_field}
use get_together.Memory.{Memory, IsMemory}
use get_together.OStream.Emits.{Emits}
use get_together.IStream.{IStream}
use get_together.IStream.Reads.{Holds}
use get_together.Iter.Nth.{nth, begin-nth}
use get_together.Encode.Env.{Env}
use get_together.Encode.Message.{encode_one, pb_encode}
use get_together.Decode.Env.{DecodeEnv}
use get_together.Decode.Fields.{decoded}
use get_together.Decode.Fields.Within.{Frame, Outside}
use get_together.Decode.Defaults.{pb_message_set_to_defaults}
use get_together.Decode.Contained.Places.{begin-IsPlace}
use get_together.Decode.Message.{decode_fields, decode_message}
use get_together.Trip.Shape.{
  value_bound, field_bound, total, message_bound, IsImplicit, IsPresent, IsField, IsFlat, HasValues,
  SameField, SameMessage, BlankField, IsBlank,
}
use get_together.Trip.Places.{
  flat-IsDescriptors, not_extension, InSlot, InSlot-struct, InSlot-apart,
}
use get_together.Trip.Kept.{
  Agree, IsPresent-single, slot-SameField, slot-BlankField, Agree-SameMessage, Agree-IsBlank,
}
use get_together.Trip.Crossing.{typed-Crosses, packable-EntryCarries}
use get_together.Trip.Implicit.{typed-Tested}
use get_together.Trip.Visited.{some_address}
use get_together.Trip.OneField.{FieldCrosses, flat-FieldCrosses}
use get_together.Trip.Rounds.{segments}
use get_together.Trip.Reading.{IsSegment, rounds-segments}
use get_together.Trip.Messages.{MessageCrosses, submessage-Crosses, Emits-segments}

field_bound-single :
    (inner : ℕ → ℕ) (t : HType) (field : Field)
    → is_repeated t ≡ false
    → field_bound inner t field ≡ 10 + value_bound inner field.ltype field
unfolding field_bound
field_bound-single inner repeated field h = cc
field_bound-single inner _ field h = refl

field_bound-repeated :
    (inner : ℕ → ℕ) (t : HType) (field : Field)
    → t ≡ repeated
    → field_bound inner t field ≡ 20 + field.array_size * (10 + field.data_size)
unfolding field_bound
field_bound-repeated inner t field h = rw h refl

-- The bytes of the fields from `k` on, `n` of them, are not more than those of each together.
segments-bounded :
    (segment : ℕ → List ℕ) (bound : ℕ → ℕ) (m n k : ℕ)
    → n + k ≤ m
    → ((k : ℕ) → k < m → length (segment k) ≤ bound k)
    → length (segments segment n k) ≤ total bound n k
unfolding total
segments-bounded segment bound m zero k le h = omega arith
segments-bounded segment bound m (suc n) k le h = omega (
  arith,
  length-append (segment k) (segments segment n (suc k)),
  h k (omega arith),
  segments-bounded segment bound m n (suc k) (omega arith) h,
)

implicit_there :
    (mem : Memory) (field : Field) (p_size : ℕ)
    → IsImplicit field
    → IsPresent mem field.htype field.size_offset p_size
unfolding IsPresent
implicit_there mem field p_size (opt, no_flag, _) = rw (opt, no_flag) tt

module _ (e : Env) (cells : IsMemory e.mem) (d : DecodeEnv)
    (shared : (p : ℕ) → d.fields_at p ≡ e.fields_at p) where
  -- One level, when the level below crosses.
  module _ (depth : ℕ) (fields : List Field) (n src : ℕ) (some_src : 0 < src)
      (flat : IsFlat e.fields_at (suc depth) fields n)
      (values : HasValues e.fields_at (suc depth) e.mem fields src)
      (below : (p m q : ℕ)
        → 0 < q
        → IsFlat e.fields_at depth (e.fields_at p) m
        → HasValues e.fields_at depth e.mem (e.fields_at p) q
        → MessageCrosses e d depth (e.fields_at p) m q) where
    abbrev Inner : ℕ → ℕ → Type 0
    Inner p m = IsFlat e.fields_at depth (e.fields_at p) m

    abbrev Has : ℕ → ℕ → Type 0
    Has p q = HasValues e.fields_at depth e.mem (e.fields_at p) q

    abbrev Blank : Memory → ℕ → ℕ → Type 0
    Blank mem r q = IsBlank e.fields_at depth (e.fields_at r) mem q

    abbrev Same : Memory → ℕ → ℕ → ℕ → Type 0
    Same mem r p q = SameMessage e.fields_at depth (e.fields_at r) e.mem p mem q

    plain : (k : ℕ) → k < length fields → IsField Inner (get_or fields k last_field)
    unfolding IsFlat
    plain = flat.0

    Blank-kept :
        (mem mem' : Memory) (r q m : ℕ)
        → Inner r m
        → Agree mem mem' q m
        → Blank mem r q
        → Blank mem' r q
    Blank-kept mem mem' r q m h same b =
        Agree-IsBlank e.fields_at depth (e.fields_at r) m mem mem' q h same b

    abbrev most : ℕ → ℕ
    most p = message_bound e.fields_at depth (e.fields_at p)

    abbrev bound : ℕ → ℕ
    bound k = field_bound most (get_or fields k last_field).htype (get_or fields k last_field)

    abbrev Crossing : (k : ℕ) → k < length fields → Type 0
    Crossing k lt =
        FieldCrosses e cells (suc depth) (pb_encode e depth) d depth (decode_message d depth)
          (pb_message_set_to_defaults d depth) Inner Blank Same Blank-kept fields plain src k lt
          (bound k)

    crossing : (k : ℕ) (lt : k < length fields) → Crossing k lt
    unfolding HasValues
    crossing k lt =
        let field = get_or fields k last_field in
        let at = (nth fields src k).p_data in
        let some_at =
          some_address e (suc depth) (pb_encode e depth) Inner fields plain src k lt some_src in
        flat-FieldCrosses e cells (suc depth) (pb_encode e depth) d depth (decode_message d depth)
          (pb_message_set_to_defaults d depth) Inner Blank Same Blank-kept fields plain src k lt
          (bound k) some_src
          (λ there.
            let single =
              IsPresent-single e.mem field.htype field.size_offset (nth fields src k).p_size
                there in
            let (c, narrow) =
              typed-Crosses e cells (pb_encode e depth) d (decode_message d depth) field at most
                Inner Has Blank Same field.ltype (plain k lt).kept (plain k lt).narrow some_at
                (λ some_ptr inner has.
                  submessage-Crosses e d depth field at some_ptr single (shared field.ptr)
                    (below field.ptr field.data_size at some_at inner has))
                (plain k lt).typed ((values k lt).0 there) in
            (c, omega (arith, narrow, field_bound-single most field.htype field single)))
          (λ packed p.
            packable-EntryCarries e cells (pb_encode e depth) d (decode_message d depth) field p
              Inner field.ltype packed (plain k lt).typed)
          (values k lt).1
          (λ implicit.
            typed-Tested e depth field at Inner Has Same (plain k lt).kept implicit.2
              (plain k lt).typed
              ((values k lt).0 (implicit_there e.mem field (nth fields src k).p_size implicit)))
          (λ rep. omega (arith, field_bound-repeated most field.htype field rep))

    pick : (k : ℕ) → Dec (k < length fields) → List ℕ
    pick k (yes lt) = (crossing k lt).segment
    pick k (no h) = []

    segment : ℕ → List ℕ
    segment k = pick k (dec_lt k (length fields))

    Emits-segment :
        (k : ℕ)
        → k < length fields
        → Emits (λ s. encode_one e (suc depth) (pb_encode e depth) (nth fields src k) s) (segment k)
    unfolding segment pick
    Emits-segment k lt = go (dec_lt k (length fields))
      where
        go :
            (x : Dec (k < length fields))
            → Emits
                (λ s. encode_one e (suc depth) (pb_encode e depth) (nth fields src k) s)
                (pick k x)
        go (yes lt') = (crossing k lt').emits
        go (no h) = absurd (h lt)

    segment-bounded : (k : ℕ) → k < length fields → length (segment k) ≤ bound k
    unfolding segment pick
    segment-bounded k lt = go (dec_lt k (length fields))
      where
        go : (x : Dec (k < length fields)) → length (pick k x) ≤ bound k
        go (yes lt') = (crossing k lt').bounded
        go (no h) = absurd (h lt)

    -- With the struct at `dest`.
    module _ (dest : ℕ) where
      abbrev BlankAt : ℕ → Memory → Type 0
      BlankAt k mem =
          BlankField (Blank mem) (get_or fields k last_field) mem (nth fields dest k).p_data
            (nth fields dest k).p_size

      abbrev SameAt : ℕ → Memory → Type 0
      SameAt k mem =
          SameField (Same mem) (get_or fields k last_field) e.mem (nth fields src k).p_data
            (nth fields src k).p_size mem (nth fields dest k).p_data (nth fields dest k).p_size

      abbrev SlotAt : ℕ → ℕ → Type 0
      SlotAt k x = InSlot Inner fields plain dest k x

      each-IsSegment :
          (k : ℕ)
          → k < length fields
          → IsSegment d depth
              (decode_message d depth)
              (pb_message_set_to_defaults d depth)
              fields
              dest
              segment
              BlankAt
              SameAt
              SlotAt
              k
      unfolding segment pick
      each-IsSegment k lt = go (dec_lt k (length fields))
        where
          go :
              (x : Dec (k < length fields))
              → IsSegment d depth
                  (decode_message d depth)
                  (pb_message_set_to_defaults d depth)
                  fields
                  dest
                  (λ _. pick k x)
                  BlankAt
                  SameAt
                  SlotAt
                  k
          go (yes lt') = (crossing k lt').crosses dest
          go (no h) = absurd (h lt)

      spared :
          (j k x : ℕ) (mem mem' : Memory)
          → j ≢ k
          → ((x : ℕ) → (SlotAt k x → ⊥) → mem' x ≡ mem x)
          → SlotAt j x
          → mem' x ≡ mem x
      spared j k x mem mem' differ spares at =
          spares x (λ at'. InSlot-apart Inner fields plain dest j k x differ at at')

      reads_message :
          (s : IStream) (mem : Memory) (tail : List ℕ)
          → length (segments segment (length fields) 0) < u32_mod
          → IsBlank e.fields_at (suc depth) fields mem dest
          → Holds s (segments segment (length fields) 0 ++ tail)
          → s.bytes_left ≡ length (segments segment (length fields) 0)
          → (mem' : Memory) × (decode_message d (suc depth) false s fields dest mem
              ≡ decoded true mem' (record s { state = tail; bytes_left = 0 }))
            × Frame mem dest n mem'
            × SameMessage e.fields_at (suc depth) fields e.mem src mem' dest
      unfolding decode_message decode_fields SameMessage IsBlank HasValues IsFlat
      reads_message s mem tail small blank holds left =
          let (_, distinct, fits, few, odd) = flat in
          let (mem', eq, out, same) =
            rounds-segments d depth (decode_message d depth) (pb_message_set_to_defaults d depth)
              fields dest segment BlankAt SameAt SlotAt (flat-IsDescriptors Inner fields plain)
              distinct
              (λ k lt. (
                not_extension Inner fields plain k lt,
                (plain k lt).tag_some,
                (plain k lt).tag_small,
              ))
              few odd each-IsSegment
              (λ j k mem mem' ltj ltk differ spares b.
                slot-BlankField Inner fields plain mem src mem mem' dest j ltj
                  (λ x at. spared j k x mem mem' differ spares at) _ _
                  (λ r q m h same b. Blank-kept mem mem' r q m h same b) b)
              (λ j k mem mem' ltj ltk differ spares h.
                slot-SameField Inner fields plain e.mem src mem mem' dest j ltj
                  (λ x at. spared j k x mem mem' differ spares at) Has _ _ (values j ltj)
                  (λ r p q m flat values same h.
                    Agree-SameMessage e.fields_at depth (e.fields_at r) m e.mem p mem mem' q flat
                      values same h)
                  h)
              (length fields) 0 (suc s.bytes_left) s mem _ tail (omega arith)
              (record {
                place = 0;
                is_place = begin-IsPlace fields;
                on = begin-nth fields dest;
                count = 0;
                seen = refl;
                counted = omega arith;
                behind = λ j lt. absurd (omega arith);
                ahead = λ j le lt. blank j lt;
              })
              holds left (omega arith) small in
          (
            mem',
            eq,
            (λ x o.
                out x
                  (λ k lt at. apart x o (InSlot-struct Inner fields plain dest n k x lt fits at))),
            same,
          )
        where
          apart : (x : ℕ) → Outside dest n x → (dest ≤ x) × (x < dest + n) → ⊥
          apart x o (from, to) = ground arith

    one_level : MessageCrosses e d (suc depth) fields n src
    unfolding message_bound
    one_level = (
      segments segment (length fields) 0,
      segments-bounded segment bound (length fields) (length fields) 0 (omega arith)
          segment-bounded,
      Emits-segments e depth fields src segment (flat-IsDescriptors Inner fields plain)
          Emits-segment,
      λ small s mem dest tail blank holds left.
          reads_message dest s mem tail small blank holds left,
    )

  -- Every level.
  pub flat-MessageCrosses :
      (depth : ℕ) (fields : List Field) (n src : ℕ)
      → 0 < src
      → IsFlat e.fields_at depth fields n
      → HasValues e.fields_at depth e.mem fields src
      → MessageCrosses e d depth fields n src
  unfolding IsFlat
  flat-MessageCrosses zero fields n src some_src flat values = absurd flat
  flat-MessageCrosses (suc depth) fields n src some_src flat values =
      one_level depth fields n src some_src flat values
        λ p m q some_q flat values. flat-MessageCrosses depth (e.fields_at p) m q some_q flat values
