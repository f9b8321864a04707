-- ===== src/Decode/Message.antt =====
-- Pods/nanopb/pb_decode.c: decoding a message.
use get_together.Common.{
  case_option, ℕ, zero, suc, ◌+◌, ◌-◌, ◌/◌, ◌%◌, ◌^◌, Bool, true, false, not, ◌&&◌, Option, none,
  some, List, [], ◌∷◌, length, bit_or, ltb, leb, ◌==◌, if◌then◌else◌,
}
use get_together.Pb.{missing_required_field}
use get_together.Pb.Field.{Field, HType}
use get_together.Memory.{Memory}
use get_together.Iter.{
  FieldIter, current, is_required, is_extension, pb_field_iter_begin, pb_field_iter_next,
  pb_field_iter_find,
}
use get_together.IStream.{IStream, Read, ok, fail, stuck}
use get_together.Decode.{Tag, pb_decode_tag, pb_skip_field, pb_make_string_substream}
use get_together.Decode.Fields.{Decoded, decoded, lost, read_then, dec_error}
use get_together.Decode.Env.{DecodeEnv}
use get_together.Decode.Defaults.{pb_message_set_to_defaults}
use get_together.Decode.Items.{Decoder, close_substream, decoded_then}
use get_together.Decode.Field.{decode_field, decode_extension}

-- The loop of find_extension_field, `start` its start position; `none` when the fuel has run out.
unfoldable pub extension_from : ℕ → ℕ → FieldIter → Option (FieldIter × Bool)
extension_from zero start it = none
extension_from (suc fuel) start it =
    let it' : FieldIter = (pb_field_iter_next it).0 in
    let rest = extension_from fuel start it' in
    if is_extension (current it).ltype
    then some (it, true)
    else if it'.pos == start
    then some (it', false)
    else rest

unfoldable pub find_extension_field : FieldIter → Option (FieldIter × Bool)
find_extension_field it = extension_from (suc (length it.start)) it.pos it

-- What pb_decode_noinit keeps from round to round: `iter`, `fields_seen` and
-- `extension_range_start`.
pub record Progress : Type 0 where
  pub iter : FieldIter
  pub fields_seen : List ℕ
  pub extension_range_start : ℕ

-- `words[i] |= bit`; `none` out of range.
unfoldable pub set_bits : List ℕ → ℕ → ℕ → Option (List ℕ)
set_bits [] i bits = none
set_bits (w ∷ ws) zero bits = some (bit_or w bits ∷ ws)
set_bits (w ∷ ws) (suc i) bits = case_option (set_bits ws i bits) none λ ws. some (w ∷ ws)

-- PB_MAX_REQUIRED_FIELDS, and the words of `fields_seen`.
abbrev pub pb_max_required_fields : ℕ
pb_max_required_fields = 64

abbrev pub no_fields_seen : List ℕ
no_fields_seen = 0 ∷ 0 ∷ []

-- The bit of a required field is set in `fields_seen`.
unfoldable pub mark_seen : FieldIter → List ℕ → Option (List ℕ)
mark_seen it seen =
    let index : ℕ = it.required_field_index in
    if is_required (current it).htype && ltb index pb_max_required_fields
    then set_bits seen (index / 2 ^ 5) (2 ^ (index % 32))
    else some seen

-- "First figure out the number of required fields by seeking to the end of the field array": where
-- the iterator ends, the number, and the last repetition rule.
unfoldable pub seek_end : ℕ → FieldIter → Option (FieldIter × ℕ × HType)
seek_end zero it = none
seek_end (suc fuel) it =
    let (it', more) = pb_field_iter_next it in
    let rest = seek_end fuel it' in
    if more then rest else some (it', it.required_field_index, (current it).htype)

-- "Fixup if last field was also required."
unfoldable pub required_count : FieldIter → Option ℕ
required_count it = case_option (seek_end (suc (length it.start)) it) none λ r.
    let (it', index, last_type) = r in
    some (if is_required last_type && not ((current it').tag == 0) then index + 1 else index)

-- ~(uint32_t)0
abbrev pub allbits : ℕ
allbits = 0xffff_ffff

-- "Check the whole words", then "the remaining bits", from the word of `words` on that stands first,
-- `count` the required fields from there on. `none` where C gives no meaning: a read behind the
-- last word, or a shift by 32.
unfoldable pub all_seen : List ℕ → ℕ → Option Bool
all_seen [] count = none
all_seen (w ∷ words) count =
    if leb 32 count
    then (if w == allbits then all_seen words (count - 32) else some false)
    else if count == 0
    then none
    else some (w == allbits / 2 ^ (32 - count))

-- "Check that all required fields were present."
unfoldable pub check_required : IStream → Memory → Progress → Decoded
check_required s mem st = case_option (required_count st.iter) lost λ count.
    if count == 0
    then decoded true mem s
    else case_option (all_seen st.fields_seen count) lost
        λ seen. if seen then decoded true mem s else dec_error mem s missing_required_field

-- What the rounds after this one do.
abbrev pub Rounds : Type 0
Rounds = IStream → Memory → Progress → Decoded

-- "No match found, skip data"
unfoldable pub skip_unknown : Rounds → IStream → Memory → Progress → Tag → Decoded
skip_unknown next s mem st t = read_then mem (pb_skip_field s t.wire_type) λ _ s. next s mem st

module _ (e : DecodeEnv) (depth : ℕ) (decode : Decoder)
    (defaults : List Field → ℕ → Memory → Option Memory) (next : Rounds) where
  -- A tag in the range of the extensions.
  unfoldable pub in_extensions : IStream → Memory → Progress → Tag → Decoded
  in_extensions s mem st t =
      decoded_then (decode_extension e depth decode defaults s t.tag t.wire_type st.iter mem)
        λ mem s'.
          if s.bytes_left == s'.bytes_left then skip_unknown next s' mem st t else next s' mem st

  -- A tag that no field has; the range of the extensions is looked up.
  unfoldable pub with_range :
      IStream → Memory → Progress → Tag → Option (FieldIter × Bool) → Decoded
  with_range s mem st t none = lost
  with_range s mem st t (some (it, found)) =
      let range : ℕ = if found then (current it).tag else allbits in
      let st' : Progress = record st { iter = it; extension_range_start = range } in
      if leb range t.tag then in_extensions s mem st' t else skip_unknown next s mem st' t

  unfoldable pub unknown_field : IStream → Memory → Progress → Tag → Decoded
  unknown_field s mem st t =
      if leb st.extension_range_start t.tag
      then with_range s mem st t (find_extension_field st.iter)
      else skip_unknown next s mem st t

  unfoldable pub known_field : IStream → Memory → Progress → Tag → Decoded
  known_field s mem st t = case_option (mark_seen st.iter st.fields_seen) lost λ seen.
      decoded_then (decode_field e depth decode defaults s t.wire_type st.iter mem)
        λ mem s. next s mem (record st { fields_seen = seen })

  -- What follows pb_field_iter_find.
  unfoldable pub found_field :
      IStream → Memory → Progress → Tag → Option (FieldIter × Bool) → Decoded
  found_field s mem st t none = lost
  found_field s mem st t (some (it, true)) = known_field s mem (record st { iter = it }) t
  found_field s mem st t (some (it, false)) = unknown_field s mem (record st { iter = it }) t

  -- What follows pb_decode_tag, which does not end in `fail`.
  unfoldable pub tagged_field : Memory → Progress → Read (Bool × Tag) → Decoded
  tagged_field mem st stuck = lost
  tagged_field mem st (fail s) = decoded false mem s
  tagged_field mem st (ok (true, t) s) = found_field s mem st t (pb_field_iter_find st.iter t.tag)
  tagged_field mem st (ok (false, t) s) =
      if t.eof then check_required s mem st else decoded false mem s

module _ (e : DecodeEnv) (depth : ℕ) (decode : Decoder)
    (defaults : List Field → ℕ → Memory → Option Memory) where
  -- The loop of pb_decode_noinit and what follows it. A round takes a byte at least.
  unfoldable pub decode_rounds : ℕ → Rounds
  decode_rounds zero s mem st = lost
  decode_rounds (suc fuel) s mem st =
      let round =
        tagged_field e depth decode defaults (decode_rounds fuel) mem st (pb_decode_tag s) in
      if s.bytes_left == 0 then check_required s mem st else round

  unfoldable pub decode_fields : IStream → List Field → ℕ → Memory → Decoded
  decode_fields s fields dest mem = decode_rounds (suc s.bytes_left) s mem (record {
    iter = (pb_field_iter_begin fields dest).0;
    fields_seen = no_fields_seen;
    extension_range_start = 0;
  })

-- pb_decode, with true, and pb_decode_noinit, with false. `depth` bounds the nesting of messages, and
-- the length of a list of extensions.
unfoldable pub decode_message : DecodeEnv → ℕ → Decoder
decode_message e zero init s fields dest mem = lost
decode_message e (suc depth) init s fields dest mem =
    case_option
      (if init then pb_message_set_to_defaults e (suc depth) fields dest mem else some mem) lost
      λ mem.
        decode_fields e depth (decode_message e depth) (pb_message_set_to_defaults e depth) s fields
          dest mem

unfoldable pub pb_decode_noinit : DecodeEnv → ℕ → IStream → List Field → ℕ → Memory → Decoded
pb_decode_noinit e depth s fields dest mem = decode_message e depth false s fields dest mem

unfoldable pub pb_decode : DecodeEnv → ℕ → IStream → List Field → ℕ → Memory → Decoded
pb_decode e depth s fields dest mem = decode_message e depth true s fields dest mem

unfoldable pub pb_decode_delimited : DecodeEnv → ℕ → IStream → List Field → ℕ → Memory → Decoded
pb_decode_delimited e depth s fields dest mem =
    read_then mem (pb_make_string_substream s)
      λ substream s. close_substream s (pb_decode e depth substream fields dest mem)
