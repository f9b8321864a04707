-- ===== src/Trip/Blank.antt =====
-- pb_message_set_to_defaults on a flat message: it ends, and the struct holds no optional field, no
-- entries of arrays, and zeros in the optional fields without `has_`.
use native.Mathlib.Decide.{dec_lt}
use get_together.Common.{
  ℕ, zero, suc, ◌+◌, ◌≤◌, ◌<◌, ◌≡◌, ◌≢◌, inl, inr, refl, ap, ◌∙◌, true, false, some, List, [], ◌∷◌,
  length, get_or, Bool-cases, offset, pos, ◌==◌, if◌then◌else◌, arith,
}
use get_together.Pb.Field.{
  LType, submessage, HType, required, optional, repeated, Field, last_field,
}
use get_together.Memory.{Memory, load_bytes, length-load_bytes}
use get_together.Iter.{current, is_extension, pb_field_iter_begin}
use get_together.Iter.Nth.{nth, begin-nth, current-nth, next-nth, next-last}
use get_together.Decode.Env.{DecodeEnv}
use get_together.Decode.Fields.{put, store, clear, store_bytes}
use get_together.Decode.Fields.Within.{
  Frame, Outside, put-other, store-Outside, clear-Outside, store_bytes-Outside,
}
use get_together.Decode.Fields.Integers.{load-store}
use get_together.Decode.Items.{is_repeated}
use get_together.Decode.Defaults.{
  init_data, static_default, default_by_atype, each_to_default, message_to_defaults, field_default,
  pb_field_set_to_default, pb_message_set_to_defaults,
}
use get_together.Trip.Cells.{clear_zero, put-same}
use get_together.Trip.Shape.{HasFlag, IsTyped, IsField, IsFlat, BlankValue, BlankField, IsBlank}
use get_together.Trip.Places.{
  flat-IsDescriptors, slot-Outside, flag-Outside, one_htype, room-single, nth-address,
  never_implicit, not_extension, flag-InSlot, InSlot, InSlot-struct, InSlot-apart,
}
use get_together.Trip.Kept.{Agree-IsBlank, slot-BlankField}

-- The defaults of a message of `n` bytes, nested less than `depth` deep.
abbrev pub Blanks : DecodeEnv → ℕ → List Field → ℕ → ℕ → Memory → Type 0
Blanks d depth fields n dest mem =
    (mem' : Memory) × (pb_message_set_to_defaults d depth fields dest mem ≡ some mem')
    × Frame mem dest n mem'
    × IsBlank d.fields_at depth fields mem' dest

never_single : (t : HType) → t ≡ repeated → is_repeated t ≢ false
never_single t e single = cc

module _ (d : DecodeEnv) (depth : ℕ)
    (below : (p m q : ℕ) (mem : Memory)
      → IsFlat d.fields_at depth (d.fields_at p) m
      → Blanks d depth (d.fields_at p) m q mem)
    (fields : List Field)
    (plain : (k : ℕ)
      → k < length fields
      → IsField (λ p m. IsFlat d.fields_at depth (d.fields_at p) m) (get_or fields k last_field))
    (dest : ℕ) where
  abbrev Inner : ℕ → ℕ → Type 0
  Inner p m = IsFlat d.fields_at depth (d.fields_at p) m

  abbrev BlankAt : ℕ → Memory → Type 0
  BlankAt k mem =
      BlankField (λ r q. IsBlank d.fields_at depth (d.fields_at r) mem q)
        (get_or fields k last_field) mem (nth fields dest k).p_data (nth fields dest k).p_size

  -- The bytes of one field.
  init_plain :
      (field : Field) (q : ℕ) (mem : Memory)
      → (mem' : Memory) × ((if field.ptr == 0
            then some (clear mem q field.data_size)
            else some (store_bytes mem q (load_bytes mem field.ptr field.data_size)))
          ≡ some mem')
        × Frame mem q field.data_size mem'
        × (field.ptr ≡ 0 → (i : ℕ) → i < field.data_size → mem' (q + i) ≡ 0)
  init_plain field q mem = elim (Bool-cases (field.ptr == 0)) [
    | inl e ↦ rw e (
      _,
      refl,
      (λ x o. clear-Outside mem q field.data_size x o),
      (λ none_set i small. clear_zero field.data_size q mem i small),
    )
    | inr e ↦ rw e (
      _,
      refl,
      (λ x o.
          store_bytes-Outside mem q field.data_size x (load_bytes mem field.ptr field.data_size)
            (omega (arith, length-load_bytes mem field.ptr field.data_size)) o),
      (λ none_set. absurd (ground (arith, e, none_set))),
    )
  ]

  init_data-Blank :
      (t : LType) (field : Field) (q : ℕ) (mem : Memory)
      → IsTyped Inner t field
      → (mem' : Memory) × (init_data (pb_message_set_to_defaults d depth) d t field q mem
          ≡ some mem')
        × Frame mem q field.data_size mem'
        × BlankValue (λ r q. IsBlank d.fields_at depth (d.fields_at r) mem' q) t field q
        × (field.ptr ≡ 0 → (i : ℕ) → i < field.data_size → mem' (q + i) ≡ 0)
  unfolding init_data IsTyped BlankValue
  init_data-Blank submessage field q mem (some_ptr, flat) =
      let (mem', eq, frame, blank) = below field.ptr field.data_size q mem flat in
      (mem', eq, frame, blank, λ none_set. absurd (some_ptr none_set))
  init_data-Blank _ field q mem typed =
      let (mem', eq, frame, zeros) = init_plain field q mem in (mem', eq, frame, tt, zeros)

  module _ (k : ℕ) (lt : k < length fields) where
    set_default-static :
        (mem : Memory)
        → pb_field_set_to_default d (suc depth) (nth fields dest k) mem
          ≡ static_default
              (pb_message_set_to_defaults d depth)
              d
              (get_or fields k last_field).htype
              (nth fields dest k)
              mem
    unfolding pb_field_set_to_default field_default default_by_atype pb_message_set_to_defaults
    set_default-static mem =
        let it = nth fields dest k in
        let here = current-nth fields dest k in
        ap
          (λ (f : Field).
            field_default (is_extension f.ltype) (pb_field_set_to_default d depth) d depth it mem)
          here
        ∙ ap (λ b. field_default b (pb_field_set_to_default d depth) d depth it mem)
            (not_extension Inner fields plain k lt)
        ∙ ap (λ a. default_by_atype (pb_message_set_to_defaults d depth) d a it mem)
            (ap (λ (f : Field). f.atype) here ∙ (plain k lt).kept)
        ∙ ap (λ (f : Field). static_default (pb_message_set_to_defaults d depth) d f.htype it mem)
            here

    -- The memory that the field is initialised in, and the whole step.
    static_Blank :
        (mem start : Memory)
        → static_default
            (pb_message_set_to_defaults d depth)
            d
            (get_or fields k last_field).htype
            (nth fields dest k)
            mem
          ≡ init_data
              (pb_message_set_to_defaults d depth)
              d
              (current (nth fields dest k)).ltype
              (current (nth fields dest k))
              (nth fields dest k).p_data
              start
        → ((x : ℕ) → (InSlot Inner fields plain dest k x → ⊥) → start x ≡ mem x)
        → is_repeated (get_or fields k last_field).htype ≡ false
        → ((get_or fields k last_field).htype ≡ optional
            → HasFlag 1 (get_or fields k last_field)
            → start (nth fields dest k).p_size ≡ 0)
        → (mem' : Memory) × (pb_field_set_to_default d (suc depth) (nth fields dest k) mem
            ≡ some mem')
          × ((x : ℕ) → (InSlot Inner fields plain dest k x → ⊥) → mem' x ≡ mem x)
          × BlankAt k mem'
    static_Blank mem start step outside single flag =
        let it = nth fields dest k in
        let field = get_or fields k last_field in
        let (mem', eq, frame, value, zeros) =
          init_data-Blank field.ltype field it.p_data start (plain k lt).typed in
        (
          mem',
          set_default-static mem
              ∙ step
              ∙ ap
                  (λ (f : Field).
                    init_data (pb_message_set_to_defaults d depth) d f.ltype f it.p_data start)
                  (current-nth fields dest k)
              ∙ eq,
          (λ x out.
              frame x (
                rw (room-single field.htype field single) at
                  (slot-Outside Inner fields plain dest k x lt out))
              ∙ outside x out),
          record {
            has = λ opt has_flag.
                let (at, before) = flag-InSlot Inner fields plain dest k 1 lt has_flag in
                frame it.p_size (inl (omega (arith, before))) ∙ flag opt has_flag;
            zeros = λ implicit. zeros implicit.2;
            empty = λ rep. absurd (never_single field.htype rep single);
            value = λ _. value;
          },
        )

    -- An array: its count is 0.
    array_Blank :
        (mem : Memory)
        → (get_or fields k last_field).htype ≡ repeated
        → HasFlag 4 (get_or fields k last_field)
        → (mem' : Memory) × (pb_field_set_to_default d (suc depth) (nth fields dest k) mem
            ≡ some mem')
          × ((x : ℕ) → (InSlot Inner fields plain dest k x → ⊥) → mem' x ≡ mem x)
          × BlankAt k mem'
    unfolding static_default
    array_Blank mem rep flag =
        let it = nth fields dest k in
        (
          store mem it.p_size 4 0,
          set_default-static mem ∙ rw rep refl,
          (λ x out.
              store-Outside mem it.p_size 4 0 x
                (flag-Outside Inner fields plain dest k 4 x lt flag out)),
          record {
            has = λ opt. absurd (one_htype _ repeated optional (λ h. cc) rep opt);
            zeros = λ implicit. absurd (one_htype _ repeated optional (λ h. cc) rep implicit.0);
            empty = λ _. load-store mem it.p_size 4 0 (omega arith);
            value = λ single. absurd (never_single (get_or fields k last_field).htype rep single);
          },
        )

    one_Blank :
        (mem : Memory)
        → (mem' : Memory) × (pb_field_set_to_default d (suc depth) (nth fields dest k) mem
            ≡ some mem')
          × ((x : ℕ) → (InSlot Inner fields plain dest k x → ⊥) → mem' x ≡ mem x)
          × BlankAt k mem'
    unfolding static_default
    one_Blank mem = elim ((plain k lt).marked) [
      | inl req ↦
          static_Blank mem mem (rw req refl) (λ x out. refl) (rw req refl)
            (λ opt _. absurd (one_htype _ required optional (λ h. cc) req opt))
      | inr (inl (opt, flag)) ↦
          let it = nth fields dest k in
          let (at, before) = flag-InSlot Inner fields plain dest k 1 lt flag in
          static_Blank mem (put mem it.p_size 0) (rw (opt, apart (omega (arith, before))) refl)
            (λ x out.
              put-other mem it.p_size 0 x
                (λ eq. out (rw eq (at it.p_size (omega arith) (omega arith)))))
            (rw opt refl) (λ _ _. put-same mem it.p_size 0)
      | inr (inr (inl (rep, flag, _, _, _))) ↦ array_Blank mem rep flag
      | inr (inr (inr (opt, no_flag, none_set))) ↦
          static_Blank mem mem
            (rw
              (
                opt,
                no_has (nth fields dest k).p_size (nth fields dest k).p_data (
                    (nth-address Inner fields plain dest k lt).1
                    ∙ ap (offset (nth fields dest k).p_data) no_flag),
              )
              refl)
            (λ x out. refl) (rw opt refl)
            (λ _ flag. absurd (never_implicit (get_or fields k last_field) no_flag flag))
    ]
      where
        apart :
            (nth fields dest k).p_size < (nth fields dest k).p_data
            → ((nth fields dest k).p_size == (nth fields dest k).p_data) ≡ false
        apart h = ground arith

        no_has : (a b : ℕ) → a ≡ offset b (pos 0) → (a == b) ≡ true
        no_has a b h = ground arith

  -- The fields from `k` on, `n` of them.
  each_Blank :
      (n k : ℕ) (mem : Memory)
      → suc n + k ≡ length fields
      → (mem' : Memory) × (each_to_default
            (pb_field_set_to_default d (suc depth))
            (suc n)
            (nth fields dest k)
            mem
          ≡ some mem')
        × ((x : ℕ)
            → ((j : ℕ) → k ≤ j → j < length fields → InSlot Inner fields plain dest j x → ⊥)
            → mem' x ≡ mem x)
        × ((j : ℕ) → k ≤ j → j < length fields → BlankAt j mem')
  unfolding each_to_default
  each_Blank zero k mem len =
      let (mem', eq, outside, blank) = one_Blank k (omega arith) mem in
      (
        mem',
        rw (eq, next-last fields dest k (flat-IsDescriptors Inner fields plain) (omega arith)) refl,
        (λ x out. outside x (out k (omega arith) (omega arith))),
        (λ j le lt. rw (at_last j le lt) blank),
      )
    where
      at_last : (j : ℕ) → k ≤ j → j < length fields → j ≡ k
      at_last j le lt = omega arith
  each_Blank (suc n) k mem len =
      let (mem1, eq, outside, blank) = one_Blank k (omega arith) mem in
      let (mem', eq', outside', blanks) = each_Blank n (suc k) mem1 (omega arith) in
      (
        mem',
        rw (eq, next-nth fields dest k (flat-IsDescriptors Inner fields plain) (omega arith)) eq',
        (λ x out.
            outside' x (λ j le lt. out j (omega arith) lt)
            ∙ outside x (out k (omega arith) (omega arith))),
        (λ j le lt. elim (dec_lt k j) [
          | yes more ↦ blanks j (omega arith) lt
          | no last ↦ rw (at_first j le last) (
              slot-BlankField Inner fields plain mem 0 mem1 mem' dest k (omega arith)
                (λ x at. outside' x (λ i le lt at'.
                  InSlot-apart Inner fields plain dest k i x (λ e. omega arith) at at'))
                _ _
                (λ r q m flat same h.
                  Agree-IsBlank d.fields_at depth (d.fields_at r) m mem1 mem' q flat same h)
                blank)
        ]),
      )
    where
      at_first : (j : ℕ) → k ≤ j → ¬ (k < j) → j ≡ k
      at_first j le last = omega arith

begin_true :
    (f : Field) (fields : List Field) (dest : ℕ)
    → 1 ≤ f.tag
    → (pb_field_iter_begin (f ∷ fields) dest).1 ≡ true
unfolding pb_field_iter_begin
begin_true f fields dest h = ground arith

-- A message is flat when its fields are static, no extensions, of sizes below 2^32 that go with
-- their types, each required, or optional with a has_ field in front of it, or optional without
-- a has_ field, no submessage and without an own default value, or an array of numbers with a
-- count of four bytes in front of it and of less than 2^32 entries and bytes, with different
-- tags from 1 below 2^29, its struct of `n` bytes holds one field behind the other, the
-- required fields are less than 64 and not 32, and its submessages are flat, nested less than
-- `depth` deep. For a flat message and a struct in any state, pb_message_set_to_defaults ends,
-- changes no byte of memory outside of the struct, and afterwards no optional field with a has_
-- field is there, no array has entries, and the optional fields without has_ are 0, neither in
-- the message nor in its submessages.
pub flat-Blanks :
    (d : DecodeEnv) (depth : ℕ) (fields : List Field) (n dest : ℕ) (mem : Memory)
    → IsFlat d.fields_at depth fields n
    → Blanks d depth fields n dest mem
unfolding IsFlat IsBlank pb_message_set_to_defaults message_to_defaults
flat-Blanks d zero fields n dest mem flat = absurd flat
flat-Blanks d (suc depth) [] n dest mem flat =
    (mem, unfold pb_field_iter_begin in refl, (λ x o. refl), (λ k lt. absurd (omega arith)))
flat-Blanks d (suc depth) (f ∷ fields) n dest mem (plain, distinct, fits, few, odd) =
    let (mem', eq, outside, blank) =
      each_Blank d depth (λ p m q mem flat. flat-Blanks d depth (d.fields_at p) m q mem flat)
        (f ∷ fields) plain dest (length fields) 0 mem (omega arith) in
    (
      mem',
      rw (begin_true f fields dest (plain 0 (omega arith)).tag_some, begin-nth (f ∷ fields) dest)
          eq,
      (λ x o.
          outside x
            (λ j le lt at. apart x o (InSlot-struct _ (f ∷ fields) plain dest n j x lt fits at))),
      (λ k lt. blank k (omega arith) lt),
    )
  where
    apart : (x : ℕ) → Outside dest n x → (dest ≤ x) × (x < dest + n) → ⊥
    apart x o (from, to) = ground arith
