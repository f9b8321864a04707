-- ===== src/Trip/Places.antt =====
-- Where the fields of a flat message are: one slot behind the other, in the order of the descriptors.
use native.Mathlib.Decide.{dec_lt}
use get_together.Common.{
  ℕ, zero, suc, ◌+◌, ◌-◌, ◌≤◌, ◌<◌, ◌≡◌, ◌≢◌, inl, inr, refl, ap, ◌∙◌, sym, false, List, [], ◌∷◌,
  length, get_or, All, offset, pos, arith,
}
use get_together.Pb.Field.{
  LType, extension, HType, required, optional, repeated, static, Field, last_field,
}
use get_together.Iter.{
  FieldIter, is_oneof, is_extension, size_in_struct, advance, pb_field_iter_begin,
}
use get_together.Iter.Nth.{IsDescriptors, nth}
use get_together.Decode.Items.{is_repeated}
use get_together.Decode.Fields.Within.{Outside}
use get_together.Trip.Shape.{HasFlag, room, IsMarked, slot, IsTyped, IsField}

-- A field has one repetition rule.
pub one_htype : (t a b : HType) → a ≢ b → t ≡ a → t ≢ b
one_htype t a b h e e' = h (sym e ∙ e')

All-each {κ} :
    (P : Field → Type κ) (fields : List Field)
    → ((k : ℕ) → k < length fields → P (get_or fields k last_field))
    → All P fields
All-each P [] h = tt
All-each P (f ∷ fields) h = (h 0 (omega arith), All-each P fields (λ k lt. h (suc k) (omega arith)))

plain-oneof : (field : Field) → IsMarked field → is_oneof field.htype ≡ false
plain-oneof field (inl e) = rw e refl
plain-oneof field (inr (inl (e, _))) = rw e refl
plain-oneof field (inr (inr (inl r))) = rw r.0 refl
plain-oneof field (inr (inr (inr i))) = rw i.0 refl

plain_size :
    (field : Field)
    → field.atype ≡ static
    → IsMarked field
    → size_in_struct field ≡ room field.htype field
unfolding size_in_struct
plain_size field a (inl e) = rw (a, e) refl
plain_size field a (inr (inl (e, _))) = rw (a, e) refl
plain_size field a (inr (inr (inl r))) = rw (a, r.0) refl
plain_size field a (inr (inr (inr i))) = rw (a, i.0) refl

advance-plain :
    (it : FieldIter) (prev field : Field)
    → is_oneof prev.htype ≡ false
    → ((advance it prev field).p_data ≡ it.p_data + size_in_struct prev + field.data_offset)
      × ((advance it prev field).p_size
          ≡ offset (it.p_data + size_in_struct prev + field.data_offset) field.size_offset)
unfolding advance
advance-plain it prev field e = rw e (refl, refl)

nth-suc :
    (fields : List Field) (dest k : ℕ)
    → nth fields dest (suc k)
      ≡ advance (nth fields dest k) (get_or fields k last_field) (get_or fields (suc k) last_field)
unfolding nth
nth-suc fields dest k =
    ap
      (λ (t : ℕ).
        advance (nth fields dest k) (get_or fields k last_field) (get_or fields t last_field))
      (omega arith)

module _ (inner : ℕ → ℕ → Type 0) (fields : List Field)
    (plain : (k : ℕ) → k < length fields → IsField inner (get_or fields k last_field)) where
  pub flat-IsDescriptors : IsDescriptors fields
  flat-IsDescriptors =
      All-each (λ field. field.tag ≢ 0) fields
        λ k lt e. let some_tag = (plain k lt).tag_some in omega arith

  pub not_extension :
      (k : ℕ) → k < length fields → is_extension (get_or fields k last_field).ltype ≡ false
  unfolding IsTyped
  not_extension k lt = by_type (get_or fields k last_field).ltype (plain k lt).typed
    where
      by_type : (t : LType) → IsTyped inner t (get_or fields k last_field) → is_extension t ≡ false
      by_type extension h = absurd h
      by_type _ h = refl

  -- The address of the field, and of its `has_` field.
  pub nth-address :
      (dest k : ℕ)
      → k < length fields
      → ((nth fields dest k).p_data
          ≡ dest + slot fields k + (get_or fields k last_field).data_offset)
        × ((nth fields dest k).p_size
            ≡ offset (nth fields dest k).p_data (get_or fields k last_field).size_offset)
  nth-address dest zero lt = unfold nth in unfold pb_field_iter_begin in (omega arith, refl)
  nth-address dest (suc k) lt =
      let it = nth fields dest k in
      let prev = get_or fields k last_field in
      let field = get_or fields (suc k) last_field in
      let (at, _) = nth-address dest k (omega arith) in
      let (moved, size) =
        advance-plain it prev field (plain-oneof prev (plain k (omega arith)).marked) in
      let same : size_in_struct prev ≡ room prev.htype prev =
        plain_size prev (plain k (omega arith)).kept (plain k (omega arith)).marked in
      rw (nth-suc fields dest k) (
        omega (arith, moved, at, same),
        size ∙ ap (λ (t : ℕ). offset t field.size_offset) (sym moved),
      )

  pub slot-le : (j k : ℕ) → j ≤ k → slot fields j ≤ slot fields k
  slot-le j zero h = ap_zero j h
    where
      ap_zero : (j : ℕ) → j ≤ 0 → slot fields j ≤ 0
      ap_zero zero h = omega arith
      ap_zero (suc j) h = absurd (omega arith)
  slot-le j (suc k) h = elim (dec_lt j (suc k)) [
    | yes lt ↦ omega (arith, slot-le j k (omega arith))
    | no le ↦ rw (same le) (omega arith)
  ]
    where
      same : ¬ (j < suc k) → j ≡ suc k
      same le = omega arith

  -- The address is in the slot of the field.
  abbrev pub InSlot : ℕ → ℕ → ℕ → Type 0
  InSlot dest k x = (dest + slot fields k ≤ x) × (x < dest + slot fields (suc k))

  pub data-InSlot :
      (dest k x : ℕ)
      → k < length fields
      → (nth fields dest k).p_data ≤ x
      → x
        < (nth fields dest k).p_data
          + room (get_or fields k last_field).htype (get_or fields k last_field)
      → InSlot dest k x
  data-InSlot dest k x lt from to =
      let (at, _) = nth-address dest k lt in (omega (arith, at), omega (arith, at))

  pub repeated-HasFlag :
      (k : ℕ)
      → k < length fields
      → (get_or fields k last_field).htype ≡ repeated
      → HasFlag 4 (get_or fields k last_field)
  repeated-HasFlag k lt rep = elim ((plain k lt).marked) [
    | inl e ↦ absurd (one_htype _ required repeated (λ h. cc) e rep)
    | inr (inl (e, _)) ↦ absurd (one_htype _ optional repeated (λ h. cc) e rep)
    | inr (inr (inl r)) ↦ r.1
    | inr (inr (inr i)) ↦ absurd (one_htype _ optional repeated (λ h. cc) i.0 rep)
  ]

  -- The `has_` field or the count stands in front of the data, in the slot.
  pub flag-InSlot :
      (dest k n : ℕ)
      → k < length fields
      → HasFlag n (get_or fields k last_field)
      → ((x : ℕ)
          → (nth fields dest k).p_size ≤ x
          → x < (nth fields dest k).p_size + n
          → InSlot dest k x)
        × ((nth fields dest k).p_size + n ≤ (nth fields dest k).p_data)
  flag-InSlot dest k n lt (m, e, le, small) =
      let (at, size) = nth-address dest k lt in
      let back : (nth fields dest k).p_size ≡ (nth fields dest k).p_data - suc m =
        size ∙ ap (offset (nth fields dest k).p_data) e in
      ((λ x from to. (omega (arith, at, back), omega (arith, at, back))), omega (arith, at, back))

  -- Outside of the slot is outside of the `has_` field or the count.
  pub flag-Outside :
      (dest k n x : ℕ)
      → k < length fields
      → HasFlag n (get_or fields k last_field)
      → (InSlot dest k x → ⊥)
      → Outside (nth fields dest k).p_size n x
  flag-Outside dest k n x lt flag h = elim (dec_lt x (nth fields dest k).p_size) [
    | yes front ↦ inl front
    | no not_front ↦ elim (dec_lt x ((nth fields dest k).p_size + n)) [
      | yes here ↦ absurd (h ((flag-InSlot dest k n lt flag).0 x (omega arith) here))
      | no behind ↦ inr (omega arith)
    ]
  ]

  -- Every slot is in the struct, and no two of them meet.
  pub InSlot-struct :
      (dest n k x : ℕ)
      → k < length fields
      → slot fields (length fields) ≤ n
      → InSlot dest k x
      → (dest ≤ x) × (x < dest + n)
  InSlot-struct dest n k x lt fits (from, to) =
      (omega arith, omega (arith, slot-le (suc k) (length fields)))

  pub InSlot-apart : (dest j k x : ℕ) → j ≢ k → InSlot dest j x → InSlot dest k x → ⊥
  InSlot-apart dest j k x differ (from, to) (from', to') = elim (dec_lt j k) [
    | yes lt ↦ omega (arith, slot-le (suc j) k (omega arith))
    | no le ↦ omega (arith, slot-le (suc k) j (omega arith))
  ]

  -- Outside of the slot is outside of the data.
  pub slot-Outside :
      (dest k x : ℕ)
      → k < length fields
      → (InSlot dest k x → ⊥)
      → Outside
          (nth fields dest k).p_data
          (room (get_or fields k last_field).htype (get_or fields k last_field))
          x
  slot-Outside dest k x lt h = elim (dec_lt x (nth fields dest k).p_data) [
    | yes before ↦ inl before
    | no not_before ↦
        elim (dec_lt x (
          (nth fields dest k).p_data
          + room (get_or fields k last_field).htype (get_or fields k last_field))) [
            | yes here ↦ absurd (h (data-InSlot dest k x lt (omega arith) here))
            | no behind ↦ inr (omega arith)
          ]
  ]

-- A field without a `has_` field has none.
pub never_implicit : (field : Field) → field.size_offset ≡ pos 0 → HasFlag 1 field → ⊥
never_implicit field e (m, flag, _, _) = cc

pub room-single :
    (t : HType) (field : Field) → is_repeated t ≡ false → room t field ≡ field.data_size
room-single repeated field h = cc
room-single _ field h = refl
