-- ===== src/Decode/Contained/Defaults.antt =====
-- The default values of a message lie inside of its struct.
use get_together.Common.{
  ℕ, zero, suc, ◌+◌, ◌≤◌, ◌<◌, ◌≡◌, ◌≢◌, ◌⊎◌, refl, ◌∙◌, false, Option, none, some, List, length,
  inl, inr, case_option, ◌==◌, if◌then◌else◌, Bool-cases, arith,
}
use native.Mathlib.Decide.{dec_lt}
use get_together.Pb.Field.{
  LType, submessage, extension, HType, required, optional, repeated, oneof, AType, static, pointer,
  callback, reserved, Field,
}
use get_together.Memory.{Memory, load_bytes, length-load_bytes}
use get_together.Iter.{FieldIter, current, is_extension, pb_field_iter_begin}
use get_together.Iter.Nth.{IsDescriptors, nth, current-nth, next-nth, next-last}
use get_together.Iter.Walk.{begin_some}
use get_together.Decode.Fields.{store, store_bytes, clear}
use get_together.Decode.Fields.Within.{Frame, store_bytes-Outside}
use get_together.Decode.Env.{DecodeEnv}
use get_together.Decode.Defaults.{
  init_data, static_default, pointer_default, default_by_atype, each_to_default,
  message_to_defaults, field_default, pb_field_set_to_default, pb_message_set_to_defaults,
}
use get_together.Decode.Contained.{
  Inside, Outside-Inside, extent, Inside-extent, FieldFits, IsLaidOut,
}
use get_together.Decode.Contained.Frames.{
  Contained, Frame-trans, store-Frame, clear-Frame, marked-Frame, Contained-part,
}

module _ (e : DecodeEnv) (message : List Field → ℕ → Memory → Option Memory)
    (inner : ℕ → ℕ → Type 0)
    (sub : (p m dest : ℕ) (mem : Memory)
      → inner p m
      → Contained mem dest m (message (e.fields_at p) dest mem))
    (dest n : ℕ) where
  Contained-plain :
      (field : Field) (p : ℕ) (mem mem' : Memory)
      → Inside dest n p field.data_size
      → Frame mem dest n mem'
      → Contained mem dest n (
          if field.ptr == 0
          then some (clear mem' p field.data_size)
          else some (store_bytes mem' p (load_bytes mem' field.ptr field.data_size)))
  unfolding Contained
  Contained-plain field p mem mem' h same = elim (Bool-cases (field.ptr == 0)) [
    | inl e ↦
        rw e (Frame-trans mem mem' _ dest n same (clear-Frame mem' dest n p field.data_size h))
    | inr e ↦ rw e (λ x o.
        store_bytes-Outside mem' p field.data_size x (load_bytes mem' field.ptr field.data_size)
          (omega (arith, length-load_bytes mem' field.ptr field.data_size))
          (Outside-Inside dest n p field.data_size x h o)
        ∙ same x o)
  ]

  Contained-init_data :
      (field : Field) (p : ℕ) (mem mem' : Memory) (t : LType)
      → Inside dest n p field.data_size
      → (t ≡ submessage → inner field.ptr field.data_size)
      → Frame mem dest n mem'
      → Contained mem dest n (init_data message e t field p mem')
  unfolding init_data
  Contained-init_data field p mem mem' submessage h g same =
      Contained-part mem mem' dest n p field.data_size _ h same
        (sub field.ptr field.data_size p mem' (g refl))
  Contained-init_data field p mem mem' _ h g same = Contained-plain field p mem mem' h same

  whole :
      (it : FieldIter) (t : HType)
      → (current it).htype ≡ t
      → (current it).atype ≡ static
      → FieldFits inner dest n (current it) it.p_data it.p_size
      → Inside dest n it.p_data (extent static t (current it))
  whole it t eq st fits =
      Inside-extent dest n it.p_data (current it) static t st eq fits.data_inside

  Contained-static :
      (it : FieldIter) (mem : Memory) (t : HType)
      → (current it).htype ≡ t
      → (current it).atype ≡ static
      → FieldFits inner dest n (current it) it.p_data it.p_size
      → Contained mem dest n (static_default message e t it mem)
  unfolding static_default
  Contained-static it mem required eq st fits =
      Contained-init_data (current it) it.p_data mem mem (current it).ltype
        (whole it required eq st fits) fits.submessage_inner λ x o. refl
  Contained-static it mem optional eq st fits =
      Contained-init_data (current it) it.p_data mem _ (current it).ltype
        (whole it optional eq st fits) fits.submessage_inner
        (marked-Frame it mem 0 dest n (fits.marked eq))
  Contained-static it mem repeated eq st fits =
      unfold Contained in store-Frame mem dest n it.p_size 4 0 (fits.counted (inl eq))
  Contained-static it mem oneof eq st fits =
      unfold Contained in store-Frame mem dest n it.p_size 4 0 (fits.counted (inr eq))

  Contained-pointer :
      (it : FieldIter) (mem : Memory) (t : HType)
      → (current it).htype ≡ t
      → Inside dest n it.p_data 8
      → ((t ≡ repeated) ⊎ (t ≡ oneof) → Inside dest n it.p_size 4)
      → Frame mem dest n (pointer_default t it mem)
  unfolding pointer_default
  Contained-pointer it mem repeated eq h g =
      Frame-trans mem (store mem it.p_data 8 0) _ dest n (store-Frame mem dest n it.p_data 8 0 h)
        (store-Frame (store mem it.p_data 8 0) dest n it.p_size 4 0 (g (inl refl)))
  Contained-pointer it mem oneof eq h g =
      Frame-trans mem (store mem it.p_data 8 0) _ dest n (store-Frame mem dest n it.p_data 8 0 h)
        (store-Frame (store mem it.p_data 8 0) dest n it.p_size 4 0 (g (inr refl)))
  Contained-pointer it mem _ eq h g = store-Frame mem dest n it.p_data 8 0 h

  Contained-by_atype :
      (it : FieldIter) (mem : Memory) (a : AType)
      → (current it).atype ≡ a
      → FieldFits inner dest n (current it) it.p_data it.p_size
      → Contained mem dest n (default_by_atype message e a it mem)
  unfolding default_by_atype
  Contained-by_atype it mem static eq fits = Contained-static it mem (current it).htype refl eq fits
  Contained-by_atype it mem pointer eq fits =
      unfold Contained in
      Contained-pointer it mem (current it).htype refl
        (Inside-extent dest n it.p_data (current it) pointer (current it).htype eq refl
          fits.data_inside)
        fits.counted
  Contained-by_atype it mem callback eq fits = unfold Contained in λ x o. refl
  Contained-by_atype it mem reserved eq fits = unfold Contained in λ x o. refl

pub is_extension-false : (t : LType) → t ≢ extension → is_extension t ≡ false
is_extension-false extension h = absurd (h refl)
is_extension-false _ h = refl

-- The fields of a struct that fits.
module _ (one : FieldIter → Memory → Option Memory) (fields : List Field)
    (tags : IsDescriptors fields) (dest n : ℕ)
    (each : (k : ℕ) (mem : Memory)
      → k < length fields
      → Contained mem dest n (one (nth fields dest k) mem)) where
  Contained-then :
      (mem : Memory) (r : Option Memory) (f : Memory → Option Memory)
      → Contained mem dest n r
      → ((mem' : Memory) → Contained mem' dest n (f mem'))
      → Contained mem dest n (case_option r none f)
  unfolding Contained
  Contained-then mem none f h g = h
  Contained-then mem (some mem') f h g = after (f mem') (g mem')
    where
      after : (r : Option Memory) → Contained mem' dest n r → Contained mem dest n r
      after none l = l
      after (some mem'') l = Frame-trans mem mem' mem'' dest n h l

  Contained-walk :
      (fuel k : ℕ) (mem : Memory)
      → k < length fields
      → length fields ≤ k + fuel
      → Contained mem dest n (each_to_default one fuel (nth fields dest k) mem)
  unfolding each_to_default
  Contained-walk zero k mem lt le = absurd (omega arith)
  Contained-walk (suc fuel) k mem lt le =
      Contained-then mem (one (nth fields dest k) mem) _ (each k mem lt) λ mem'.
        elim (dec_lt (k + 1) (length fields)) [
          | yes more ↦
              rw (next-nth fields dest k tags more)
                (Contained-walk fuel (suc k) mem' (omega arith) (omega arith))
          | no last ↦
              rw (next-last fields dest k tags (omega arith)) (unfold Contained in λ x o. refl)
        ]

  Contained-message :
      (mem : Memory) → Contained mem dest n (message_to_defaults one fields dest mem)
  unfolding message_to_defaults
  Contained-message mem = elim (Bool-cases (pb_field_iter_begin fields dest).1) [
    | inl e ↦ rw e (
        unfold nth in Contained-walk (length fields) 0 mem (begin_some fields dest e) (omega arith))
    | inr e ↦ rw e (unfold Contained in λ x o. refl)
  ]

Contained-field :
    (e : DecodeEnv) (depth : ℕ) (inner : ℕ → ℕ → Type 0) (dest n : ℕ) (it : FieldIter)
    (mem : Memory)
    → ((p m dest : ℕ) (mem : Memory)
        → inner p m
        → Contained mem dest m (pb_message_set_to_defaults e depth (e.fields_at p) dest mem))
    → FieldFits inner dest n (current it) it.p_data it.p_size
    → Contained mem dest n (pb_field_set_to_default e (suc depth) it mem)
unfolding pb_field_set_to_default field_default pb_message_set_to_defaults
Contained-field e depth inner dest n it mem sub fit =
    rw (is_extension-false (current it).ltype fit.not_extension) (
      Contained-by_atype e (message_to_defaults (pb_field_set_to_default e depth)) inner sub dest n
        it mem (current it).atype refl fit)

-- A message is laid out in a struct of `n` bytes when only PB_LAST_FIELD has tag 0, there is no
-- callback and no extension, each field with its count, which_ and has_ field lies in the
-- struct, fixed32 fields have at least 4 bytes and fixed64 fields 8, arrays have less than 2^32
-- bytes, the required fields are less than 64 and not 32, and the structs of submessages are
-- the same, nested less than `depth` deep. For such a message pb_message_set_to_defaults ends,
-- and changes no byte of memory outside of the struct at `dest`.
pub Contained-pb_message_set_to_defaults :
    (e : DecodeEnv) (depth : ℕ) (fields : List Field) (dest n : ℕ) (mem : Memory)
    → IsLaidOut e.fields_at depth fields n
    → Contained mem dest n (pb_message_set_to_defaults e depth fields dest mem)
unfolding pb_message_set_to_defaults IsLaidOut
Contained-pb_message_set_to_defaults e zero fields dest n mem laid = absurd laid
Contained-pb_message_set_to_defaults e (suc depth) fields dest n mem (tags, fits, few, odd) =
    Contained-message (pb_field_set_to_default e (suc depth)) fields tags dest n
      (λ k mem lt.
        Contained-field e depth (λ p m. IsLaidOut e.fields_at depth (e.fields_at p) m) dest n
          (nth fields dest k) mem
          (λ p m dest mem laid.
            Contained-pb_message_set_to_defaults e depth (e.fields_at p) dest m mem laid)
          (rw (current-nth fields dest k) (fits dest k lt)))
      mem
