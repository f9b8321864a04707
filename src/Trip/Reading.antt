-- ===== src/Trip/Reading.antt =====
-- pb_decode_noinit on the segments of a message, one behind the other.
use native.Mathlib.Decide.{dec_lt}
use get_together.Common.{
  ℕ, zero, suc, ◌+◌, ◌*◌, ◌^◌, ◌≤◌, ◌<◌, ◌≡◌, ◌≢◌, ◌⊎◌, inl, inr, refl, ap, ◌∙◌, true, false, some,
  Option, List, [], ◌++◌, length, length-append, append_assoc, get_or, drop, ◌==◌, arith,
}
use get_together.Pb.{u32_mod}
use get_together.Pb.Field.{required, Field, WireType, wire_code, last_field}
use get_together.Memory.{Memory}
use get_together.IStream.{IStream, ok}
use get_together.IStream.Reads.{Holds, after}
use get_together.Iter.{is_extension, pb_field_iter_find}
use get_together.Iter.Nth.{IsDescriptors, nth}
use get_together.Iter.Required.{required_total, required_total-past}
use get_together.Encode.Varint.{varint_bytes-shape}
use get_together.Encode.Wire.{key, key_bytes}
use get_together.Decode.{pb_decode_tag}
use get_together.Decode.Env.{DecodeEnv}
use get_together.Decode.Fields.{decoded}
use get_together.Decode.Items.{Decoder, decoded_then}
use get_together.Decode.Field.{decode_field}
use get_together.Decode.RoundTrip.{Holds-cong}
use get_together.Decode.Values.{IsProto, wire_code-lt, pb_decode_tag-key_bytes}
use get_together.Decode.Contained.Places.{IsPlace}
use get_together.Decode.Message.{
  Progress, mark_seen, known_field, found_field, tagged_field, decode_rounds,
}
use get_together.Trip.Seen.{seen_words}
use get_together.Trip.Rounds.{
  segments, mark_seen-nth, unmarked, IsPlace-lt, lt-IsPlace, find-tag, check_required_complete,
}

not_zero : (n : ℕ) → 1 ≤ n → (n == 0) ≡ false
not_zero n h = ground arith

is_zero : (n : ℕ) → n ≡ 0 → (n == 0) ≡ true
is_zero n h = ground arith

key_bytes-length : (w : WireType) (n : ℕ) → IsProto w → n < 2 ^ 29 → 1 ≤ length (key_bytes w n)
unfolding key_bytes key
key_bytes-length w n proto small =
    let (all, some_byte, ten) =
      varint_bytes-shape (n * 8 + wire_code w) (omega (arith, wire_code-lt w proto)) in
    some_byte

-- A message whose fields are `Blank` in a struct and, after decoding, `Same`. A field that is read
-- changes only memory in its `Slot`, and the slots of other fields stay as they were.
module _ (d : DecodeEnv) (level : ℕ) (decode : Decoder)
    (defaults : List Field → ℕ → Memory → Option Memory) (fields : List Field) (dest : ℕ)
    (segment : ℕ → List ℕ) (Blank Same : ℕ → Memory → Type 0) (Slot : ℕ → ℕ → Type 0) where
  abbrev pub Spares : ℕ → Memory → Memory → Type 0
  Spares k mem mem' = (x : ℕ) → (Slot k x → ⊥) → mem' x ≡ mem x

  -- The segment of the field `k` is empty, or a key and a value that decode_field reads.
  abbrev pub IsSegment : ℕ → Type 0
  IsSegment k =
      ((segment k ≡ [])
        × ((get_or fields k last_field).htype ≢ required)
        × ((mem : Memory) → Blank k mem → Same k mem))
      ⊎ ((w : WireType) × (bs : List ℕ) × (segment k
            ≡ key_bytes w (get_or fields k last_field).tag ++ bs)
          × IsProto w
          × (length bs < u32_mod
              → (s : IStream) (mem : Memory) (rest : List ℕ) → Blank k mem
              → Holds s (bs ++ rest)
              → length bs ≤ s.bytes_left
              → (mem' : Memory) × (decode_field d level decode defaults s w (nth fields dest k) mem
                  ≡ decoded true mem' (after s (length bs) rest))
                × Spares k mem mem'
                × Same k mem'))

  module _ (tags : IsDescriptors fields)
      (distinct : (j k : ℕ)
        → j < length fields
        → k < length fields
        → (get_or fields j last_field).tag ≡ (get_or fields k last_field).tag
        → j ≡ k)
      (plain : (k : ℕ)
        → k < length fields
        → (is_extension (get_or fields k last_field).ltype ≡ false)
          × (1 ≤ (get_or fields k last_field).tag)
          × ((get_or fields k last_field).tag < 2 ^ 29))
      (few : required_total fields < 64) (odd : required_total fields ≢ 32)
      (each : (k : ℕ) → k < length fields → IsSegment k)
      (blank_kept : (j k : ℕ) (mem mem' : Memory)
        → j < length fields
        → k < length fields
        → j ≢ k
        → Spares k mem mem'
        → Blank j mem
        → Blank j mem')
      (same_kept : (j k : ℕ) (mem mem' : Memory)
        → j < length fields
        → k < length fields
        → j ≢ k
        → Spares k mem mem'
        → Same j mem
        → Same j mem') where
    -- What a round does with a key, when the value behind it is decoded.
    one_round :
        (fuel k p : ℕ) (w : WireType) (s s1 s2 : IStream) (mem mem' : Memory) (st : Progress)
        (words : List ℕ)
        → k < length fields
        → p < length fields
        → st.iter ≡ nth fields dest p
        → 1 ≤ s.bytes_left
        → pb_decode_tag s
          ≡ ok
              (true, record { wire_type = w; tag = (get_or fields k last_field).tag; eof = false })
              s1
        → mark_seen (nth fields dest k) st.fields_seen ≡ some words
        → decode_field d level decode defaults s1 w (nth fields dest k) mem ≡ decoded true mem' s2
        → decode_rounds d level decode defaults (suc fuel) s mem st
          ≡ decode_rounds d level decode defaults fuel s2 mem'
              (record st { iter = nth fields dest k; fields_seen = words })
    unfolding decode_rounds tagged_field found_field known_field decoded_then
    one_round fuel k p w s s1 s2 mem mem' st words lt at on some_byte key marked value =
        let (no_extension, pos, small) = plain k lt in
        let found =
          ap (λ it. pb_field_iter_find it (get_or fields k last_field).tag) on
          ∙ find-tag fields dest p k tags distinct no_extension at lt in
        rw (not_zero s.bytes_left some_byte, key, found, marked, value) refl

    -- Where the rounds are, when the fields in front of `k` are done.
    pub record Done (k : ℕ) (mem : Memory) (st : Progress) : Type 0 where
      pub place : ℕ
      pub is_place : IsPlace fields place
      pub on : st.iter ≡ nth fields dest place
      pub count : ℕ
      pub seen : st.fields_seen ≡ seen_words count
      pub counted : count + required_total (drop k fields) ≡ required_total fields
      pub behind : (j : ℕ) → j < k → Same j mem
      pub ahead : (j : ℕ) → k ≤ j → j < length fields → Blank j mem

    -- One field more is done.
    next-Done :
        (k : ℕ) (mem mem' : Memory) (st st' : Progress) (place count : ℕ)
        → Done k mem st
        → k < length fields
        → IsPlace fields place
        → st'.iter ≡ nth fields dest place
        → st'.fields_seen ≡ seen_words count
        → count + required_total (drop (suc k) fields) ≡ required_total fields
        → ((j : ℕ) → j < length fields → j ≢ k → Blank j mem → Blank j mem')
        → ((j : ℕ) → j < length fields → j ≢ k → Same j mem → Same j mem')
        → Same k mem'
        → Done (suc k) mem' st'
    next-Done k mem mem' st st' place count done lt at on seen counted blanks sames here = record {
      place = place;
      is_place = at;
      on = on;
      count = count;
      seen = seen;
      counted = counted;
      behind = λ j le. elim (dec_lt j k) [
        | yes before ↦ sames j (omega arith) (λ e. omega arith) (done.behind j before)
        | no last ↦ rw (at_last j le last) here
      ];
      ahead = λ j le inside. blanks j inside (λ e. omega arith) (done.ahead j (omega arith) inside);
    }
      where
        at_last : (j : ℕ) → j < suc k → ¬ (j < k) → j ≡ k
        at_last j le last = omega arith

    -- A segment of key and value behind the fields that are done.
    segment_round :
        (k fuel : ℕ) (w : WireType) (bs rest : List ℕ) (s : IStream) (mem mem' : Memory)
        (st : Progress)
        → k < length fields
        → IsProto w
        → (done : Done k mem st)
        → Holds s (key_bytes w (get_or fields k last_field).tag ++ (bs ++ rest))
        → length (key_bytes w (get_or fields k last_field).tag) + length bs ≤ s.bytes_left
        → 1 ≤ length (key_bytes w (get_or fields k last_field).tag)
        → Spares k mem mem'
        → Same k mem'
        → decode_field d level decode defaults
            (after s (length (key_bytes w (get_or fields k last_field).tag)) (bs ++ rest))
            w
            (nth fields dest k)
            mem
          ≡ decoded true mem' (
              after
                (after s (length (key_bytes w (get_or fields k last_field).tag)) (bs ++ rest))
                (length bs)
                rest)
        → (st' : Progress) × Done (suc k) mem' st'
          × (decode_rounds d level decode defaults (suc fuel) s mem st
              ≡ decode_rounds d level decode defaults fuel
                  (after
                    (after s (length (key_bytes w (get_or fields k last_field).tag)) (bs ++ rest))
                    (length bs)
                    rest)
                  mem'
                  st')
    segment_round k fuel w bs rest s mem mem' st lt proto done holds left some_byte spares same
          value =
        let (no_extension, pos, small) = plain k lt in
        let (r, marked, counted) = mark_seen-nth fields dest k done.count few lt done.counted in
        let st' : Progress = record st { iter = nth fields dest k; fields_seen = seen_words r } in
        (
          st',
          next-Done k mem mem' st st' k r done lt (lt-IsPlace fields k lt) refl refl counted
              (λ j inside other. blank_kept j k mem mem' inside lt other spares)
              (λ j inside other. same_kept j k mem mem' inside lt other spares) same,
          one_round fuel k done.place w s _ _ mem mem' st (seen_words r) lt
              (IsPlace-lt fields done.place k lt done.is_place) done.on (omega arith)
              (pb_decode_tag-key_bytes w (get_or fields k last_field).tag proto pos small s
                (bs ++ rest) holds (omega arith))
              (ap (mark_seen (nth fields dest k)) done.seen ∙ marked) value,
        )

    -- Behind the last segment.
    no_segment :
        (k fuel : ℕ) (s : IStream) (mem : Memory) (st : Progress)
        → k ≡ length fields
        → Done k mem st
        → s.bytes_left ≡ 0
        → decode_rounds d level decode defaults (suc fuel) s mem st ≡ decoded true mem s
    unfolding decode_rounds
    no_segment k fuel s mem st len done none_left = rw (is_zero s.bytes_left none_left) (
        check_required_complete fields dest done.place s mem st tags few odd done.is_place done.on (
          done.seen
          ∙ ap seen_words
              (omega (arith, done.counted, required_total-past fields k (omega arith)))))

    -- The rounds end at the end of the segments, with every field the same.
    pub rounds-segments :
        (n k fuel : ℕ) (s : IStream) (mem : Memory) (st : Progress) (tail : List ℕ)
        → n + k ≡ length fields
        → Done k mem st
        → Holds s (segments segment n k ++ tail)
        → s.bytes_left ≡ length (segments segment n k)
        → length (segments segment n k) < fuel
        → length (segments segment n k) < u32_mod
        → (mem' : Memory) × (decode_rounds d level decode defaults fuel s mem st
            ≡ decoded true mem' (record s { state = tail; bytes_left = 0 }))
          × ((x : ℕ) → ((k : ℕ) → k < length fields → Slot k x → ⊥) → mem' x ≡ mem x)
          × ((k : ℕ) → k < length fields → Same k mem')
    rounds-segments n k zero s mem st tail len done holds left enough small = absurd (omega arith)
    rounds-segments zero k (suc fuel) s mem st tail len done holds left enough small = (
      mem,
      no_segment k fuel s mem st (omega arith) done left
          ∙ (λ i. decoded true mem (record s { state = holds.holds i; bytes_left = left i })),
      (λ x out. refl),
      (λ j lt. done.behind j (omega arith)),
    )
    rounds-segments (suc n) k (suc fuel) s mem st tail len done holds left enough small =
        let rest : List ℕ = segments segment n (suc k) in
        let lt : k < length fields = omega arith in
        elim (each k lt) [
          | inl (empty, other, unchanged) ↦
              let same_bytes : segment k ++ rest ≡ rest = ap (λ bs. bs ++ rest) empty in
              rounds-segments n (suc k) (suc fuel) s mem st tail (omega arith)
                (next-Done k mem mem st st done.place done.count done lt done.is_place done.on
                  done.seen (omega (arith, done.counted, unmarked fields k lt other))
                  (λ j inside other h. h) (λ j inside other h. h)
                  (unchanged mem (done.ahead k (omega arith) lt)))
                (Holds-cong s _ _ (ap (λ bs. bs ++ tail) same_bytes) holds)
                (left ∙ ap length same_bytes) (rw⁻¹ (ap length same_bytes) enough)
                (rw⁻¹ (ap length same_bytes) small)
          | inr (w, bs, key, proto, reads) ↦
              let front : List ℕ = key_bytes w (get_or fields k last_field).tag in
              let apart : segment k ++ rest ≡ front ++ (bs ++ rest) =
                ap (λ t. t ++ rest) key ∙ append_assoc front bs rest in
              let whole : (segment k ++ rest) ++ tail ≡ front ++ (bs ++ (rest ++ tail)) =
                ap (λ t. t ++ tail) apart
                ∙ append_assoc front (bs ++ rest) tail
                ∙ ap (λ t. front ++ t) (append_assoc bs rest tail) in
              let lengths : length (segment k ++ rest) ≡ length front + (length bs + length rest) =
                ap length apart
                ∙ length-append front (bs ++ rest)
                ∙ ap (λ (t : ℕ). length front + t) (length-append bs rest) in
              let some_byte : 1 ≤ length front =
                let (no_extension, pos, few) = plain k lt in
                key_bytes-length w (get_or fields k last_field).tag proto few in
              let (mem', value, spares, same) =
                reads (omega (arith, lengths)) (after s (length front) (bs ++ (rest ++ tail))) mem
                  (rest ++ tail) (done.ahead k (omega arith) lt)
                  (record { on_buffer = holds.on_buffer; holds = refl }) (omega (arith, lengths)) in
              let (st', done', round) =
                segment_round k fuel w bs (rest ++ tail) s mem mem' st lt proto done
                  (Holds-cong s _ _ whole holds) (omega (arith, lengths)) some_byte spares same
                  value in
              let (mem'', rounds, out, all) =
                rounds-segments n (suc k) fuel
                  (after (after s (length front) (bs ++ (rest ++ tail))) (length bs) (rest ++ tail))
                  mem' st' tail (omega arith) done'
                  (record { on_buffer = holds.on_buffer; holds = refl }) (omega (arith, lengths))
                  (omega (arith, lengths)) (omega (arith, lengths)) in
              (mem'', round ∙ rounds, (λ x o. out x o ∙ spares x (o k lt)), all)
        ]
