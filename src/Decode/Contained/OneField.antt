-- ===== src/Decode/Contained/OneField.antt =====
-- A field that is decoded writes only into its struct.
use get_together.Common.{ℕ, ◌≡◌, refl, Option, none, some, List, ◌∙◌, inl, inr, case_option, arith}
use get_together.Pb.{no_malloc_support, invalid_field_type}
use get_together.Pb.Field.{
  LType, submessage, HType, required, optional, repeated, oneof, AType, static, pointer, callback,
  reserved, WireType, Field,
}
use get_together.Memory.{Memory}
use get_together.Iter.{FieldIter, current}
use get_together.IStream.{IStream}
use get_together.IStream.Safe.{IsSafe}
use get_together.Decode.Fields.{Decoded, lost, store, clear}
use get_together.Decode.Fields.Within.{Frame, Within, Within-error, Within-widen}
use get_together.Decode.Env.{DecodeEnv}
use get_together.Decode.Items.{Decoder, pb_decoders, clear_union}
use get_together.Decode.Field.{
  static_by_htype, decode_static_field, decode_pointer_field, decode_by_atype, decode_field,
}
use get_together.Decode.Contained.{Inside, Outside-Inside, Inside-extent, extent, FieldFits}
use get_together.Decode.Contained.Frames.{
  Contained, Frame-trans, store-Frame, clear-Frame, marked-Frame,
}
use get_together.Decode.Contained.Values.{IsContained, IsWithin, IsWithin-pb_decoders}
use get_together.Decode.Contained.Items.{Within-decode_repeated}

-- The value at `p` in a struct of `n` bytes at `dest`, after changes in the struct.
module _ (k : ℕ) (s : IStream) (func : IStream → Memory → Field → ℕ → Decoded) (field : Field)
    (p dest n : ℕ) (mem : Memory) (safe : IsSafe k s) (within : IsWithin func field field.data_size)
    (inside : Inside dest n p field.data_size) where
  Within-value :
      (mem' : Memory)
      → Frame mem dest n mem'
      → Within k s.bytes_left mem dest n (func s mem' field p)
  Within-value mem' same =
      Within-widen k s.bytes_left mem dest n mem' s.bytes_left p field.data_size _ (omega arith)
        (λ x o. Outside-Inside dest n p field.data_size x inside o) same (within k s mem' p safe)

  Within-cleared :
      (tagged : Memory) (r : Option Memory)
      → Frame mem dest n tagged
      → Contained tagged p field.data_size r
      → Within k s.bytes_left mem dest n (case_option r lost λ mem'. func s mem' field p)
  unfolding Contained
  Within-cleared tagged none same h = absurd h
  Within-cleared tagged (some mem') same h =
      Within-value mem' λ x o. h x (Outside-Inside dest n p field.data_size x inside o) ∙ same x o

module _ (e : DecodeEnv) (depth : ℕ) (decode : Decoder)
    (defaults : List Field → ℕ → Memory → Option Memory) (inner : ℕ → ℕ → Type 0)
    (contained : IsContained e decode inner)
    (sub : (p m dest : ℕ) (mem : Memory)
      → inner p m
      → Contained mem dest m (defaults (e.fields_at p) dest mem))
    (dest n : ℕ) (it : FieldIter) (fits : FieldFits inner dest n (current it) it.p_data it.p_size)
    (k : ℕ) (s : IStream) (wire_type : WireType) (mem : Memory) (safe : IsSafe k s) where
  Contained-clear_union :
      (t : LType) (field : Field) (p : ℕ) (tagged : Memory)
      → (t ≡ submessage → inner field.ptr field.data_size)
      → Contained tagged p field.data_size (clear_union e defaults t field p tagged)
  unfolding clear_union Contained
  Contained-clear_union submessage field p tagged g =
      after_clear (defaults (e.fields_at field.ptr) p (clear tagged p field.data_size))
        (sub field.ptr field.data_size p _ (g refl))
    where
      after_clear :
          (r : Option Memory)
          → Contained (clear tagged p field.data_size) p field.data_size r
          → Contained tagged p field.data_size r
      after_clear none h = h
      after_clear (some mem') h =
          Frame-trans tagged (clear tagged p field.data_size) mem' p field.data_size
            (clear-Frame tagged p field.data_size p field.data_size (omega arith, omega arith)) h
  Contained-clear_union _ field p tagged g = λ x o. refl

  decoder : IsWithin (pb_decoders e decode (current it).ltype) (current it) (current it).data_size
  decoder =
      IsWithin-pb_decoders e decode inner contained (current it) fits.not_extension fits.four_bytes
        fits.eight_bytes fits.submessage_inner (current it).ltype refl

  Within-static_by_htype :
      (t : HType)
      → (current it).htype ≡ t
      → Inside dest n it.p_data (extent static t (current it))
      → Within k s.bytes_left mem dest n
          (static_by_htype e depth decode defaults t s wire_type it mem)
  unfolding static_by_htype
  Within-static_by_htype required eq h =
      Within-value k s (pb_decoders e decode (current it).ltype) (current it) it.p_data dest n mem
        safe decoder h mem λ x o. refl
  Within-static_by_htype optional eq h =
      Within-value k s (pb_decoders e decode (current it).ltype) (current it) it.p_data dest n mem
        safe decoder h _ (marked-Frame it mem 1 dest n (fits.marked eq))
  Within-static_by_htype repeated eq h =
      Within-decode_repeated (pb_decoders e decode (current it).ltype) it dest n decoder h
        (fits.counted (inl eq)) fits.array_small k s mem wire_type safe
  Within-static_by_htype oneof eq h =
      Within-cleared k s (pb_decoders e decode (current it).ltype) (current it) it.p_data dest n mem
        safe decoder h (store mem it.p_size 4 (current it).tag) _
        (store-Frame mem dest n it.p_size 4 (current it).tag (fits.counted (inr eq)))
        (Contained-clear_union (current it).ltype (current it) it.p_data _ fits.submessage_inner)

  Within-decode_by_atype :
      (a : AType)
      → (current it).atype ≡ a
      → Within k s.bytes_left mem dest n
          (decode_by_atype e depth decode defaults a s wire_type it mem)
  unfolding decode_by_atype decode_static_field decode_pointer_field
  Within-decode_by_atype static eq = Within-static_by_htype (current it).htype refl (
      Inside-extent dest n it.p_data (current it) static (current it).htype eq refl
        fits.data_inside)
  Within-decode_by_atype pointer eq =
      Within-error k s.bytes_left mem dest n mem s no_malloc_support safe (omega arith) λ x o. refl
  Within-decode_by_atype callback eq = absurd (fits.not_callback eq)
  Within-decode_by_atype reserved eq =
      Within-error k s.bytes_left mem dest n mem s invalid_field_type safe (omega arith) λ x o. refl

  pub Within-decode_field :
      Within k s.bytes_left mem dest n (decode_field e depth decode defaults s wire_type it mem)
  unfolding decode_field
  Within-decode_field = Within-decode_by_atype (current it).atype refl
