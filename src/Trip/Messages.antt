-- ===== src/Trip/Messages.antt =====
-- A flat message with its submessages, from a struct to bytes and to another struct.
use native.Mathlib.Nat.{mod-eq_of_lt}
use get_together.Common.{
  ℕ, suc, ◌+◌, ◌-◌, ◌%◌, ◌≤◌, ◌<◌, ◌≡◌, ◌≢◌, refl, ap, ◌∙◌, true, false, List, [], ◌∷◌, ◌++◌,
  length, length-append, append_assoc, ◌==◌, arith,
}
use get_together.Pb.{u32_mod, size_mod}
use get_together.Pb.Field.{Field}
use get_together.Memory.{Memory}
use get_together.OStream.Emits.{Emits}
use get_together.OStream.Uniform.{Emits-returns}
use get_together.IStream.{IStream}
use get_together.IStream.Reads.{Holds}
use get_together.Iter.{pb_field_iter_begin}
use get_together.Iter.Nth.{IsDescriptors, nth}
use get_together.Encode.Varint.{varint_bytes, varint_bytes-shape}
use get_together.Encode.Submessage.Uniform.{Emits-pb_encode_submessage}
use get_together.Encode.Env.{Env}
use get_together.Encode.Fields.{pb_enc_submessage}
use get_together.Encode.Message.{encode_one, pb_encode}
use get_together.Decode.{pb_close_string_substream, close_at}
use get_together.Decode.RoundTrip.{Holds-cong}
use get_together.Decode.Values.{make_substream}
use get_together.Decode.Env.{DecodeEnv}
use get_together.Decode.Fields.{decoded, read_then}
use get_together.Decode.Fields.Within.{Frame}
use get_together.Decode.Items.{is_repeated, close_substream, pb_dec_submessage}
use get_together.Decode.Message.{decode_message}
use get_together.Trip.Shape.{message_bound, SameMessage, IsBlank}
use get_together.Trip.Crossing.{Crosses}
use get_together.Trip.Rounds.{segments, Emits-each_field}

module _ (e : Env) (d : DecodeEnv) where
  -- The message at `src` has bytes, at most so many, that pb_encode writes, and that pb_decode_noinit reads into each
  -- struct of default values, of `n` bytes, in front of any bytes.
  abbrev pub MessageCrosses : ℕ → List Field → ℕ → ℕ → Type 0
  MessageCrosses depth fields n src =
      (bs : List ℕ) × (length bs ≤ message_bound e.fields_at depth fields)
      × Emits (λ s. pb_encode e depth fields src s) bs
      × (length bs < u32_mod
          → (s : IStream) (mem : Memory) (dest : ℕ) (tail : List ℕ)
          → IsBlank e.fields_at depth fields mem dest
          → Holds s (bs ++ tail)
          → s.bytes_left ≡ length bs
          → (mem' : Memory) × (decode_message d depth false s fields dest mem
              ≡ decoded true mem' (record s { state = tail; bytes_left = 0 }))
            × Frame mem dest n mem'
            × SameMessage e.fields_at depth fields e.mem src mem' dest)

  not_zero : (n : ℕ) → n ≢ 0 → (n == 0) ≡ false
  not_zero n h = ground arith

  -- The substream of the message, its decoding, and the stream behind it.
  submessage_read :
      (depth : ℕ) (field : Field) (s : IStream) (mem mem' : Memory) (q : ℕ) (bs rest : List ℕ)
      → field.ptr ≢ 0
      → is_repeated field.htype ≡ false
      → length bs < u32_mod
      → Holds s (varint_bytes (length bs) ++ (bs ++ rest))
      → length (varint_bytes (length bs)) + length bs ≤ s.bytes_left
      → decode_message d depth false
          (record s { state = bs ++ rest; bytes_left = length bs })
          (d.fields_at field.ptr)
          q
          mem
        ≡ decoded true mem' (record s { state = rest; bytes_left = 0 })
      → pb_dec_submessage d (decode_message d depth) s mem field q
        ≡ decoded true mem' (record s {
          state = rest;
          bytes_left = s.bytes_left - length (varint_bytes (length bs)) - length bs;
        })
  unfolding pb_dec_submessage read_then close_substream pb_close_string_substream close_at
  submessage_read depth field s mem mem' q bs rest some_ptr single small holds left value =
      rw
        (
          make_substream (length bs) small s (bs ++ rest) holds left,
          not_zero field.ptr some_ptr,
          single,
          value,
        )
        refl

  -- A length, then the message.
  pub submessage-Crosses :
      (depth : ℕ) (field : Field) (p : ℕ)
      → field.ptr ≢ 0
      → is_repeated field.htype ≡ false
      → d.fields_at field.ptr ≡ e.fields_at field.ptr
      → MessageCrosses depth (e.fields_at field.ptr) field.data_size p
      → (c : Crosses
          (λ s. pb_enc_submessage e (pb_encode e depth) s field p)
          (λ s mem q. pb_dec_submessage d (decode_message d depth) s mem field q)
          field.data_size
          (λ mem q. IsBlank e.fields_at depth (e.fields_at field.ptr) mem q)
          (λ mem q. SameMessage e.fields_at depth (e.fields_at field.ptr) e.mem p mem q))
        × (length c.value_bytes ≤ 10 + message_bound e.fields_at depth (e.fields_at field.ptr))
  unfolding pb_enc_submessage
  submessage-Crosses depth field p some_ptr single shared (bs, bounded, emits, reads) = (
    record {
      value_bytes = varint_bytes (length bs % size_mod) ++ bs;
      emits =
          rw (not_zero field.ptr some_ptr)
            (Emits-pb_encode_submessage (pb_encode e depth (e.fields_at field.ptr) p) bs emits);
      reads = λ small s mem q rest blank holds left.
          let lengths = length-append (varint_bytes (length bs % size_mod)) bs in
          let whole : length bs % size_mod ≡ length bs = mod-eq_of_lt (omega (arith, lengths)) in
          let widths : length (varint_bytes (length bs % size_mod))
              ≡ length (varint_bytes (length bs)) =
            ap (λ (t : ℕ). length (varint_bytes t)) whole in
          let (mem', value, frame, same) =
            reads (omega (arith, lengths)) (record s { state = bs ++ rest; bytes_left = length bs })
              mem q rest blank (record { on_buffer = holds.on_buffer; holds = refl }) refl in
          (
            mem',
            submessage_read depth field s mem mem' q bs rest some_ptr single
                  (omega (arith, lengths))
                  (Holds-cong s _ _
                    (append_assoc (varint_bytes (length bs % size_mod)) bs rest
                      ∙ ap (λ (t : ℕ). varint_bytes t ++ (bs ++ rest)) whole)
                    holds)
                  (omega (arith, lengths, widths))
                  (ap
                      (λ fs.
                        decode_message d depth false
                          (record s { state = bs ++ rest; bytes_left = length bs }) fs q mem)
                      shared
                    ∙ value)
                ∙ ap (λ (t : ℕ). decoded true mem' (record s { state = rest; bytes_left = t }))
                    (omega (arith, lengths, widths)),
            frame,
            same,
          );
    },
    let lengths = length-append (varint_bytes (length bs % size_mod)) bs in
        let (all, some_byte, ten) = varint_bytes-shape (length bs % size_mod) (omega arith) in
        omega (arith, lengths, ten, bounded),
  )

-- pb_encode on an array of descriptors whose fields have these segments.
pub Emits-segments :
    (e : Env) (depth : ℕ) (fields : List Field) (src : ℕ) (segment : ℕ → List ℕ)
    → IsDescriptors fields
    → ((k : ℕ)
        → k < length fields
        → Emits
            (λ s. encode_one e (suc depth) (pb_encode e depth) (nth fields src k) s)
            (segment k))
    → Emits (λ s. pb_encode e (suc depth) fields src s) (segments segment (length fields) 0)
unfolding pb_encode pb_field_iter_begin
Emits-segments e depth [] src segment tags each = Emits-returns
Emits-segments e depth (f ∷ fields) src segment tags each = rw (first_tag f.tag tags.0) (
    unfold nth in
    Emits-each_field segment e (suc depth) (pb_encode e depth) (f ∷ fields) src tags each
      (suc (length fields)) (length fields) 0 (omega arith) (omega arith))
  where
    first_tag : (n : ℕ) → n ≢ 0 → (n == 0) ≡ false
    first_tag n h = ground arith
