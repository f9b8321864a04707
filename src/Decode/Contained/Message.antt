-- ===== src/Decode/Contained/Message.antt =====
-- pb_decode_noinit and pb_decode write only into the struct, and end.
use get_together.Common.{
  ℕ, zero, suc, ◌+◌, ◌<◌, ◌≡◌, ◌≢◌, refl, Bool, true, false, Option, none, some, List, length,
  get_or, case_option, ◌==◌, if◌then◌else◌, Bool-cases, inl, inr, arith,
}
use get_together.Pb.Field.{Field, last_field}
use get_together.Memory.{Memory}
use get_together.Iter.{is_extension}
use get_together.Iter.Nth.{IsDescriptors, nth, begin-nth, current-nth}
use get_together.Iter.Required.{required_total}
use get_together.IStream.{IStream, Read, ok, fail, stuck}
use get_together.IStream.Safe.{IsSafe, Kept, Took}
use get_together.Decode.{Tag, tag_read, pb_decode_varint32, pb_decode_tag}
use get_together.Decode.Safe.{Safe-pb_decode_tag}
use get_together.Decode.Took.{Took-pb_decode_varint32}
use get_together.Decode.Bounds.{TagBelow, TagBelow-pb_decode_tag}
use get_together.Decode.Fields.{Decoded, lost}
use get_together.Decode.Fields.Within.{Frame, Within, Within-if, Within-widen}
use get_together.Decode.Env.{DecodeEnv}
use get_together.Decode.Defaults.{pb_message_set_to_defaults}
use get_together.Decode.Items.{Decoder}
use get_together.Decode.Field.{decode_field}
use get_together.Decode.Message.{
  Progress, Rounds, tagged_field, decode_rounds, decode_fields, decode_message, pb_decode_noinit,
  pb_decode, pb_decode_delimited,
}
use get_together.Decode.Substream.{Within-make_substream, Within-close}
use get_together.Decode.Contained.{IsLaidOut}
use get_together.Decode.Contained.Frames.{Contained}
use get_together.Decode.Contained.Defaults.{
  is_extension-false, Contained-pb_message_set_to_defaults,
}
use get_together.Decode.Contained.OneField.{Within-decode_field}
use get_together.Decode.Contained.Places.{IsPlace, begin-IsPlace, FieldFits-IsPlace}
use get_together.Decode.Contained.Ends.{IsOn, Within-check_required}
use get_together.Decode.Contained.Rounds.{NextWithin, Within-found_field}

-- A tag that is there takes a byte at least.
abbrev TagTook : ℕ → Read (Bool × Tag) → Type 0
TagTook n (ok (true, t) s) = s.bytes_left < n
TagTook n (ok (false, t) s) = Unit {0}
TagTook n (fail s) = Unit {0}
TagTook n stuck = Unit {0}

TagTook-tag_read : (n : ℕ) (r : Read ℕ) → Took n r → TagTook n (tag_read r)
unfolding tag_read
TagTook-tag_read n (ok temp s) lt = elim (Bool-cases (temp == 0)) [
  | inl e ↦ rw e tt
  | inr e ↦ rw e lt
]
TagTook-tag_read n (fail s) h = tt
TagTook-tag_read n stuck h = tt

TagTook-pb_decode_tag : (k : ℕ) (s : IStream) → IsSafe k s → TagTook s.bytes_left (pb_decode_tag s)
unfolding pb_decode_tag
TagTook-pb_decode_tag k s h =
    TagTook-tag_read s.bytes_left (pb_decode_varint32 s) (Took-pb_decode_varint32 k s h)

module _ (e : DecodeEnv) (depth : ℕ) (decode : Decoder)
    (defaults : List Field → ℕ → Memory → Option Memory) (fields : List Field) (dest n k : ℕ)
    (mem : Memory) (tags : IsDescriptors fields) (few : required_total fields < 64)
    (odd : required_total fields ≢ 32)
    (plain : (i : ℕ) → i < length fields → is_extension (get_or fields i last_field).ltype ≡ false)
    (each : (i : ℕ) (s : IStream) (t : Tag) (mem' : Memory)
      → IsPlace fields i
      → IsSafe k s
      → Within k s.bytes_left mem' dest n
          (decode_field e depth decode defaults s t.wire_type (nth fields dest i) mem')) where
  Within-tagged_field :
      (next : Rounds) (left : ℕ) (mem' : Memory) (st : Progress) (r : Read (Bool × Tag))
      → NextWithin fields dest n k left mem tags few odd next
      → Kept k left r
      → TagTook left r
      → TagBelow r
      → Frame mem dest n mem'
      → IsOn fields dest st
      → Within k (suc left) mem dest n (tagged_field e depth decode defaults next mem' st r)
  unfolding tagged_field Kept Within
  Within-tagged_field next left mem' st stuck goes_on h took small same on = absurd h
  Within-tagged_field next left mem' st (fail s) goes_on (h, le) took small same on =
      (h, omega arith, same)
  Within-tagged_field next left mem' st (ok (true, t) s) goes_on (h, le) took small same on =
      Within-found_field fields dest n k left mem tags few odd e depth decode defaults next goes_on
        plain each s mem' st t small h took same on
  Within-tagged_field next left mem' st (ok (false, t) s) goes_on (h, le) took small same on =
      Within-if k (suc left) mem dest n t.eof _ _
        (λ _. Within-check_required fields dest n k left mem tags few odd s mem' st h le same on)
        λ _. (h, omega arith, same)

  -- The fuel is enough: a round takes a byte.
  Within-decode_rounds :
      (fuel : ℕ) (s : IStream) (mem' : Memory) (st : Progress)
      → IsSafe k s
      → s.bytes_left < fuel
      → Frame mem dest n mem'
      → IsOn fields dest st
      → Within k
          (suc s.bytes_left)
          mem
          dest
          n
          (decode_rounds e depth decode defaults fuel s mem' st)
  unfolding decode_rounds
  Within-decode_rounds zero s mem' st h lt same on = absurd (omega arith)
  Within-decode_rounds (suc fuel) s mem' st h lt same on =
      Within-if k (suc s.bytes_left) mem dest n (s.bytes_left == 0) _ _
        (λ _.
          Within-check_required fields dest n k s.bytes_left mem tags few odd s mem' st h
            (omega arith) same on)
        λ _.
          Within-tagged_field (decode_rounds e depth decode defaults fuel) s.bytes_left mem' st
            (pb_decode_tag s)
            (λ s' mem'' st' h' lt' same' on'.
              Within-widen k (suc s.bytes_left) mem dest n mem (suc s'.bytes_left) dest n _
                (omega arith) (λ x o. o) (λ x o. refl)
                (Within-decode_rounds fuel s' mem'' st' h' (omega arith) same' on'))
            (Safe-pb_decode_tag k s h) (TagTook-pb_decode_tag k s h) (TagBelow-pb_decode_tag k s h)
            same on

Within-defaulted :
    (k left : ℕ) (mem : Memory) (dest n : ℕ) (r : Option Memory) (f : Memory → Decoded)
    → Contained mem dest n r
    → ((mem' : Memory) → Within k left mem' dest n (f mem'))
    → Within k left mem dest n (case_option r lost f)
unfolding Contained
Within-defaulted k left mem dest n none f h g = absurd h
Within-defaulted k left mem dest n (some mem') f h g =
    Within-widen k left mem dest n mem' left dest n (f mem') (omega arith) (λ x o. o) h (g mem')

defaults_if :
    (e : DecodeEnv) (depth : ℕ) (init : Bool) (fields : List Field) (dest n : ℕ) (mem : Memory)
    → IsLaidOut e.fields_at depth fields n
    → Contained mem dest n
        (if init then pb_message_set_to_defaults e depth fields dest mem else some mem)
defaults_if e depth true fields dest n mem laid =
    Contained-pb_message_set_to_defaults e depth fields dest n mem laid
defaults_if e depth false fields dest n mem laid = unfold Contained in λ x o. refl

Within-decode_message :
    (e : DecodeEnv) (depth : ℕ) (init : Bool) (k : ℕ) (s : IStream) (fields : List Field)
    (dest n : ℕ) (mem : Memory)
    → IsSafe k s
    → IsLaidOut e.fields_at depth fields n
    → Within k (suc s.bytes_left) mem dest n (decode_message e depth init s fields dest mem)
unfolding decode_message decode_fields IsLaidOut
Within-decode_message e zero init k s fields dest n mem h laid = absurd laid
Within-decode_message e (suc depth) init k s fields dest n mem h laid =
    let (tags, fits, few, odd) = laid in
    Within-defaulted k (suc s.bytes_left) mem dest n _ _
      (defaults_if e (suc depth) init fields dest n mem laid)
      λ mem'.
        Within-decode_rounds e depth (decode_message e depth) (pb_message_set_to_defaults e depth)
          fields dest n k mem' tags few odd
          (λ i lt.
            is_extension-false (get_or fields i last_field).ltype (fits dest i lt).not_extension)
          (λ i s' t mem'' lt h'.
            Within-decode_field e depth (decode_message e depth)
              (pb_message_set_to_defaults e depth)
              (λ p m. IsLaidOut e.fields_at depth (e.fields_at p) m)
              (λ init k s p dest m mem h laid.
                Within-decode_message e depth init k s (e.fields_at p) dest m mem h laid)
              (λ p m dest mem laid.
                Contained-pb_message_set_to_defaults e depth (e.fields_at p) dest m mem laid)
              dest n (nth fields dest i)
              (rw (current-nth fields dest i) (FieldFits-IsPlace _ fields dest n i (fits dest) lt))
              k s' t.wire_type mem'' h')
          (suc s.bytes_left) s mem' _ h (omega arith) (λ x o. refl)
          (0, begin-IsPlace fields, begin-nth fields dest, refl)

-- A message is laid out in a struct of `n` bytes when only PB_LAST_FIELD has tag 0, there is no
-- callback and no extension, each field with its count, which_ and has_ field lies in the
-- struct, fixed32 fields have at least 4 bytes and fixed64 fields 8, arrays have less than 2^32
-- bytes, the required fields are less than 64 and not 32, and the structs of submessages are
-- the same, nested less than `depth` deep. For such a message and a stream over a buffer of
-- bytes that holds bytes_left bytes and `k` more, whatever they are, pb_decode ends, reads no
-- byte outside of the buffer, never reads or writes outside of fields_seen, changes no byte of
-- memory outside of the struct at `dest`, and leaves a stream whose buffer holds its bytes_left
-- bytes, which are not more than before, and the `k` more.
pub Within-pb_decode :
    (e : DecodeEnv) (depth k : ℕ) (s : IStream) (fields : List Field) (dest n : ℕ) (mem : Memory)
    → IsSafe k s
    → IsLaidOut e.fields_at depth fields n
    → Within k (suc s.bytes_left) mem dest n (pb_decode e depth s fields dest mem)
unfolding pb_decode
Within-pb_decode e depth k s fields dest n mem h laid =
    Within-decode_message e depth true k s fields dest n mem h laid

-- A message is laid out in a struct of `n` bytes when only PB_LAST_FIELD has tag 0, there is no
-- callback and no extension, each field with its count, which_ and has_ field lies in the
-- struct, fixed32 fields have at least 4 bytes and fixed64 fields 8, arrays have less than 2^32
-- bytes, the required fields are less than 64 and not 32, and the structs of submessages are
-- the same, nested less than `depth` deep. For such a message and a stream over a buffer of
-- bytes that holds bytes_left bytes and `k` more, whatever they are, pb_decode_noinit ends,
-- reads no byte outside of the buffer, never reads or writes outside of fields_seen, changes no
-- byte of memory outside of the struct at `dest`, and leaves a stream whose buffer holds its
-- bytes_left bytes, which are not more than before, and the `k` more.
pub Within-pb_decode_noinit :
    (e : DecodeEnv) (depth k : ℕ) (s : IStream) (fields : List Field) (dest n : ℕ) (mem : Memory)
    → IsSafe k s
    → IsLaidOut e.fields_at depth fields n
    → Within k (suc s.bytes_left) mem dest n (pb_decode_noinit e depth s fields dest mem)
unfolding pb_decode_noinit
Within-pb_decode_noinit e depth k s fields dest n mem h laid =
    Within-decode_message e depth false k s fields dest n mem h laid

-- A message is laid out in a struct of `n` bytes when only PB_LAST_FIELD has tag 0, there is no
-- callback and no extension, each field with its count, which_ and has_ field lies in the
-- struct, fixed32 fields have at least 4 bytes and fixed64 fields 8, arrays have less than 2^32
-- bytes, the required fields are less than 64 and not 32, and the structs of submessages are
-- the same, nested less than `depth` deep. For such a message and a stream over a buffer of
-- bytes that holds bytes_left bytes and `k` more, whatever they are, pb_decode_delimited ends,
-- reads no byte outside of the buffer, changes no byte of memory outside of the struct at
-- `dest`, and leaves a stream whose buffer holds its bytes_left bytes, which are fewer than
-- before if it returns true, and the `k` more.
pub Within-pb_decode_delimited :
    (e : DecodeEnv) (depth k : ℕ) (s : IStream) (fields : List Field) (dest n : ℕ) (mem : Memory)
    → IsSafe k s
    → IsLaidOut e.fields_at depth fields n
    → Within k s.bytes_left mem dest n (pb_decode_delimited e depth s fields dest mem)
unfolding pb_decode_delimited
Within-pb_decode_delimited e depth k s fields dest n mem h laid =
    Within-make_substream k mem dest n mem s _ (λ x o. refl) h
      λ sub s' safe_sub safe lt.
        Within-close k s.bytes_left (suc sub.bytes_left) mem dest n s' _ safe lt
          (Within-pb_decode e depth (k + s'.bytes_left) sub fields dest n mem safe_sub laid)
