-- ===== src/Encode/Submessage/Uniform.antt =====
-- What pb_encode_submessage writes: a length, then the message.
use get_together.Common.{
  ℕ, ◌+◌, ◌%◌, ◌≤◌, ◌<◌, ◌≡◌, refl, sym, ap, ◌∙◌, Bool, true, Option, none, some, List, [], ◌++◌,
  length, ltb, ==_iff, ge→ltb, lt→ltb, ◌==◌, if◌then◌else◌, Bool-cases, inl, inr, arith,
}
use get_together.Pb.{stream_full, Outcome, returns, stuck, ◌>>=◌, size_mod}
use get_together.OStream.{Writer, OStream, return_error, pb_ostream_sizing, buf_write}
use get_together.OStream.Emits.{
  Action, Emits, Ends, push_bytes, Emits-bind, pb_write-Ends, pb_write-counts,
}
use get_together.OStream.Uniform.{Uniform, emits, fails, Emits-cong}
use get_together.Encode.{pb_encode_varint}
use get_together.Encode.Varint.{varint_bytes, Emits-pb_encode_varint}
use get_together.Encode.Submessage.{
  finish_submessage, substream_of, write_submessage, write_sized, pb_encode_submessage,
}

finish_submessage-Ends :
    (s : OStream) (n : ℕ) (r : Outcome OStream)
    → (b : Bool) × (s' : OStream) × (r ≡ returns b s')
    → (b : Bool) × (s' : OStream) × (finish_submessage s n r ≡ returns b s')
unfolding finish_submessage return_error
finish_submessage-Ends s n stuck (b, s', x) = cc
finish_submessage-Ends s n (returns b sub) h = elim (Bool-cases (sub.bytes_written == n)) [
  | inl x ↦ rw x (_, _, refl)
  | inr x ↦ rw x (_, _, refl)
]

write_submessage-Ends :
    (c : Option Writer) (encode : Action) (n : ℕ) (s : OStream)
    → Ends encode
    → (b : Bool) × (s' : OStream) × (write_submessage c encode n s ≡ returns b s')
unfolding write_submessage return_error
write_submessage-Ends none encode n s h = (pb_write-Ends [] n).at s
write_submessage-Ends (some w) encode n s h =
    elim (Bool-cases (ltb s.max_size ((s.bytes_written + n) % size_mod))) [
      | inl x ↦ rw x (_, _, refl)
      | inr x ↦ rw x (finish_submessage-Ends s n _ (h.at (substream_of s n)))
    ]

-- A message that its substream has taken whole is a success.
finish_submessage_whole :
    (s : OStream) (bs : List ℕ)
    → s.errmsg ≡ none
    → s.bytes_written + length bs < size_mod
    → finish_submessage s (length bs) (returns true (push_bytes (substream_of s (length bs)) bs))
      ≡ returns true (push_bytes s bs)
unfolding finish_submessage
finish_submessage_whole s bs m h = rw ((==_iff (0 + length bs) (length bs)).1 (omega arith)) (λ i.
    returns true (record s { state = s.state ++ bs; bytes_written = total i; errmsg = sym m i }))
  where
    total : (s.bytes_written + (0 + length bs)) % size_mod ≡ s.bytes_written + length bs
    total = omega arith

module _ (encode : Action) (bs : List ℕ) (h : Emits encode bs) where
  write_submessage-fits :
      (s : OStream)
      → s.callback ≡ some buf_write
      → s.errmsg ≡ none
      → s.max_size < size_mod
      → s.bytes_written + length bs ≤ s.max_size
      → write_submessage (some buf_write) encode (length bs % size_mod) s
        ≡ returns true (push_bytes s bs)
  unfolding write_submessage
  write_submessage-fits s c m k r = rw small (
      rw (ge→ltb s.max_size ((s.bytes_written + length bs) % size_mod) (omega arith)) (
        ap (finish_submessage s (length bs))
          (h.fits (substream_of s (length bs)) c refl (omega arith) (omega arith))
        ∙ finish_submessage_whole s bs m (omega arith)))
    where
      small : length bs % size_mod ≡ length bs
      small = omega arith

  Emits-write_submessage :
      Emits (λ s. write_submessage s.callback encode (length bs % size_mod) s) bs
  unfolding write_submessage return_error
  Emits-write_submessage = record {
    ends = record {
      at = λ s. write_submessage-Ends s.callback encode (length bs % size_mod) s h.ends;
    };
    sizing = λ s c m.
        ap (λ w. write_submessage w encode (length bs % size_mod) s) c
        ∙ pb_write-counts s [] (length bs % size_mod) c
        ∙ ap (λ (t : ℕ). returns true (record s { bytes_written = t })) (omega arith);
    fits = λ s c m k r.
        ap (λ w. write_submessage w encode (length bs % size_mod) s) c
        ∙ write_submessage-fits s c m k r;
    full = λ s c m k r t.
        let over : ltb s.max_size ((s.bytes_written + length bs % size_mod) % size_mod) ≡ true =
          lt→ltb s.max_size ((s.bytes_written + length bs % size_mod) % size_mod) (omega arith) in
        (
          _,
          ap (λ w. write_submessage w encode (length bs % size_mod) s) c
              ∙ ap
                  (λ b.
                    if b
                    then return_error s stream_full
                    else finish_submessage s (length bs % size_mod)
                        (encode (substream_of s (length bs % size_mod))))
                  over,
        );
  }

  -- When an encoder emits the bytes `bs`, pb_encode_submessage with that encoder emits the
  -- varint of their number modulo 2^64 and then `bs`: on a sizing stream, on a buffer with
  -- room, and, by returning false, on a buffer without.
  pub Emits-pb_encode_submessage :
      Emits (λ s. pb_encode_submessage encode s) (varint_bytes (length bs % size_mod) ++ bs)
  unfolding pb_encode_submessage write_sized
  Emits-pb_encode_submessage =
      Emits-cong _
        (λ s. pb_encode_varint s (length bs % size_mod) >>= λ s.
          write_submessage s.callback encode (length bs % size_mod) s)
        _
        (λ s.
          ap (write_sized encode s) (h.sizing pb_ostream_sizing refl (omega arith))
          ∙ ap (λ (t : ℕ). pb_encode_varint s t >>= λ s. write_submessage s.callback encode t s)
              (omega arith))
        (Emits-bind _ _ _ bs (Emits-pb_encode_varint (length bs % size_mod) (omega arith))
          Emits-write_submessage)

-- If the message can be encoded so can the submessage, and else neither.
pub Uniform-pb_encode_submessage :
    (encode : Action) → Uniform encode → Uniform (λ s. pb_encode_submessage encode s)
unfolding pb_encode_submessage write_sized
Uniform-pb_encode_submessage encode (emits bs h) =
    emits (varint_bytes (length bs % size_mod) ++ bs) (Emits-pb_encode_submessage encode bs h)
Uniform-pb_encode_submessage encode (fails f) = fails (record {
  at = λ s.
      let (s', x) = f.at pb_ostream_sizing in
      (record s { errmsg = s'.errmsg }, ap (write_sized encode s) x);
})
