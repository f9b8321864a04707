-- ===== src/Decode/Contained/Rounds.antt =====
-- The rounds of pb_decode_noinit write only into the struct.
use mathlib.Core.Path.{subst}
use get_together.Common.{
  ℕ, suc, ◌^◌, ◌<◌, ◌≡◌, ◌≢◌, refl, ap, ◌∙◌, sym, false, Option, List, length, get_or, leb, gt→leb,
  inl, inr, arith,
}
use get_together.Pb.Field.{Field, last_field}
use get_together.Memory.{Memory}
use get_together.Iter.{is_extension, pb_field_iter_find}
use get_together.Iter.Nth.{IsDescriptors, nth}
use get_together.Iter.Required.{required_total}
use get_together.IStream.{IStream, Read, ok, fail, stuck}
use get_together.IStream.Safe.{IsSafe, Kept}
use get_together.Decode.{Tag, pb_skip_field}
use get_together.Decode.Safe.{Safe-pb_skip_field}
use get_together.Decode.Fields.{read_then}
use get_together.Decode.Fields.Within.{Frame, Within, Within-if, Within-widen}
use get_together.Decode.Env.{DecodeEnv}
use get_together.Decode.Items.{Decoder}
use get_together.Decode.Field.{decode_field}
use get_together.Decode.Message.{
  find_extension_field, Progress, allbits, Rounds, skip_unknown, with_range, unknown_field,
  known_field, found_field,
}
use get_together.Decode.Required.{mark_seen-length}
use get_together.Decode.Contained.Items.{Within-then}
use get_together.Decode.Contained.Ends.{IsOn}
use get_together.Decode.Contained.Places.{
  IsPlace, find_extension_field-IsPlace, pb_field_iter_find-IsPlace,
}

-- A message in a struct of `n` bytes at `dest`, with memory `mem` before, and `left` bytes to read.
module _ (fields : List Field) (dest n k left : ℕ) (mem : Memory) (tags : IsDescriptors fields)
    (few : required_total fields < 64) (odd : required_total fields ≢ 32) where
  -- What the rounds after this one keep.
  abbrev pub NextWithin : Rounds → Type 0
  NextWithin next =
      (s : IStream) (mem' : Memory) (st : Progress)
      → IsSafe k s
      → s.bytes_left < left
      → Frame mem dest n mem'
      → IsOn fields dest st
      → Within k (suc left) mem dest n (next s mem' st)

  module _ (e : DecodeEnv) (depth : ℕ) (decode : Decoder)
      (defaults : List Field → ℕ → Memory → Option Memory) (next : Rounds)
      (goes_on : NextWithin next)
      (plain : (i : ℕ)
        → i < length fields
        → is_extension (get_or fields i last_field).ltype ≡ false)
      (each : (i : ℕ) (s : IStream) (t : Tag) (mem' : Memory)
        → IsPlace fields i
        → IsSafe k s
        → Within k s.bytes_left mem' dest n
            (decode_field e depth decode defaults s t.wire_type (nth fields dest i) mem')) where
    Within-skipped :
        (r : Read (List ℕ)) (m : ℕ) (mem' : Memory) (st : Progress)
        → m < left
        → Kept k m r
        → Frame mem dest n mem'
        → IsOn fields dest st
        → Within k (suc left) mem dest n (read_then mem' r λ _ s. next s mem' st)
    unfolding Kept read_then
    Within-skipped (ok a s) m mem' st lt (h, le) same on = goes_on s mem' st h (omega arith) same on
    Within-skipped (fail s) m mem' st lt (h, le) same on = unfold Within in (h, omega arith, same)
    Within-skipped stuck m mem' st lt h same on = absurd h

    Within-skip_unknown :
        (s : IStream) (mem' : Memory) (st : Progress) (t : Tag)
        → IsSafe k s
        → s.bytes_left < left
        → Frame mem dest n mem'
        → IsOn fields dest st
        → Within k (suc left) mem dest n (skip_unknown next s mem' st t)
    unfolding skip_unknown
    Within-skip_unknown s mem' st t h lt same on =
        Within-skipped (pb_skip_field s t.wire_type) s.bytes_left mem' st lt
          (Safe-pb_skip_field t.wire_type k s h) same on

    -- The range of the extensions is empty, and its start is behind all tags.
    Within-unknown_field :
        (s : IStream) (mem' : Memory) (st : Progress) (t : Tag)
        → t.tag < 2 ^ 29
        → IsSafe k s
        → s.bytes_left < left
        → Frame mem dest n mem'
        → IsOn fields dest st
        → Within k (suc left) mem dest n (unknown_field e depth decode defaults next s mem' st t)
    unfolding unknown_field with_range
    Within-unknown_field s mem' st t small h lt same (i, inside, at, two) =
        let looked =
          ap find_extension_field at
          ∙ find_extension_field-IsPlace fields dest i tags inside plain in
        Within-if k (suc left) mem dest n (leb st.extension_range_start t.tag) _ _
          (λ _.
            rw (looked, gt→leb allbits t.tag (omega arith))
              (Within-skip_unknown s mem' _ t h lt same (i, inside, refl, two)))
          λ _. Within-skip_unknown s mem' st t h lt same (i, inside, at, two)

    Within-known_field :
        (s : IStream) (mem' : Memory) (st : Progress) (t : Tag)
        → IsSafe k s
        → s.bytes_left < left
        → Frame mem dest n mem'
        → IsOn fields dest st
        → Within k (suc left) mem dest n (known_field e depth decode defaults next s mem' st t)
    unfolding known_field
    Within-known_field s mem' st t h lt same (i, inside, at, two) =
        let (seen, eq, two') = mark_seen-length st.iter st.fields_seen two in
        rw eq (
          Within-then k (suc left) s.bytes_left mem dest n _ _ (omega arith)
            (Within-widen k s.bytes_left mem dest n mem' s.bytes_left dest n _ (omega arith)
              (λ x o. o) same
              (subst
                (λ it.
                  Within k s.bytes_left mem' dest n
                    (decode_field e depth decode defaults s t.wire_type it mem'))
                (sym at) (each i s t mem' inside h)))
            λ mem'' s' safe lt' same'.
              goes_on s' mem'' _ safe (omega arith) same' (i, inside, at, two'))

    pub Within-found_field :
        (s : IStream) (mem' : Memory) (st : Progress) (t : Tag)
        → t.tag < 2 ^ 29
        → IsSafe k s
        → s.bytes_left < left
        → Frame mem dest n mem'
        → IsOn fields dest st
        → Within k (suc left) mem dest n (
            found_field e depth decode defaults next s mem' st t (pb_field_iter_find st.iter t.tag))
    unfolding found_field
    Within-found_field s mem' st t small h lt same (i, inside, at, two) =
        elim (pb_field_iter_find-IsPlace fields dest i t.tag tags inside) [
          | inl (j, inside', eq) ↦
              rw (ap (λ it. pb_field_iter_find it t.tag) at ∙ eq)
                (Within-known_field s mem' _ t h lt same (j, inside', refl, two))
          | inr eq ↦
              rw (ap (λ it. pb_field_iter_find it t.tag) at ∙ eq)
                (Within-unknown_field s mem' _ t small h lt same (i, inside, refl, two))
        ]
