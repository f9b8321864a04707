-- ===== src/Decode/Trip.antt =====
-- A value that is encoded to a buffer and decoded from it.
use native.Mathlib.Nat.{zero-add}
use get_together.Common.{
  ℕ, ◌+◌, ◌≤◌, ◌<◌, ◌≡◌, refl, ap, ◌∙◌, sym, true, List, [], length, append-nil, length-append,
  arith,
}
use get_together.Pb.{returns, size_mod, u32_mod, u64_mod}
use get_together.OStream.{OStream, pb_ostream_from_buffer}
use get_together.OStream.Emits.{Action, Emits}
use get_together.IStream.{IStream, Read, ok, pb_istream_from_buffer}
use get_together.Encode.{zigzag, pb_encode_varint, pb_encode_svarint, pb_encode_string}
use get_together.Encode.Varint.{varint_bytes, varint_bytes-shape, Emits-pb_encode_varint}
use get_together.Encode.Wire.{
  string_bytes, zigzag-lt, Emits-pb_encode_svarint, Emits-pb_encode_string,
}
use get_together.Decode.{pb_decode_varint, pb_decode_svarint}
use get_together.Decode.RoundTrip.{Takes, pb_decode_varint-varint_bytes}
use get_together.Decode.Values.{pb_decode_svarint-zigzag, read_string, read_string-string_bytes}

-- Encoding to a buffer of `max` bytes returns true, within the buffer, and decoding what it wrote
-- gives `v` and reads all of it.
abbrev pub ReadsBack {ℓ} : {A : Type ℓ} → Action → (IStream → Read A) → A → ℕ → Type ℓ
ReadsBack act read v max =
    (s : OStream) × (act (pb_ostream_from_buffer max) ≡ returns true s)
    × (s.bytes_written ≤ max)
    × (read (pb_istream_from_buffer s.state s.bytes_written) ≡ ok v (pb_istream_from_buffer [] 0))

reads_back {ℓ} :
    {A : Type ℓ} (act : Action) (read : IStream → Read A) (bs : List ℕ) (v : A) (max : ℕ)
    → Emits act bs
    → Takes read bs v
    → max < size_mod
    → length bs ≤ max
    → ReadsBack act read v max
unfolding pb_ostream_from_buffer pb_istream_from_buffer
reads_back act read bs v max e t small le = (
  record (pb_ostream_from_buffer max) { state = bs; bytes_written = length bs },
  e.fits (pb_ostream_from_buffer max) refl refl small (omega arith)
      ∙ ap
          (λ (n : ℕ).
            returns true (record (pb_ostream_from_buffer max) { state = bs; bytes_written = n }))
          (zero-add (length bs)),
  le,
  t (pb_istream_from_buffer bs (length bs)) []
        (record { on_buffer = refl; holds = sym (append-nil bs) }) (omega arith)
      ∙ ap (λ (n : ℕ). ok v (pb_istream_from_buffer [] n)) (omega arith),
)

-- For every uint64_t and every buffer of at least ten bytes and less than 2^64,
-- pb_encode_varint returns true, stays within the buffer, and pb_decode_varint on what it wrote
-- gives the value and leaves nothing.
pub pb_encode_varint-pb_decode_varint :
    (v max : ℕ)
    → v < u64_mod
    → 10 ≤ max
    → max < size_mod
    → ReadsBack (λ s. pb_encode_varint s v) pb_decode_varint v max
pb_encode_varint-pb_decode_varint v max h le small =
    let (all, some_byte, ten) = varint_bytes-shape v h in
    reads_back _ _ (varint_bytes v) v max (Emits-pb_encode_varint v h)
      (pb_decode_varint-varint_bytes v h) small (omega (arith, ten))

-- For every int64_t, as its residue modulo 2^64, and every buffer of at least ten bytes and
-- less than 2^64, pb_encode_svarint returns true, stays within the buffer, and
-- pb_decode_svarint on what it wrote gives the value and leaves nothing.
pub pb_encode_svarint-pb_decode_svarint :
    (v max : ℕ)
    → v < u64_mod
    → 10 ≤ max
    → max < size_mod
    → ReadsBack (λ s. pb_encode_svarint s v) pb_decode_svarint v max
pb_encode_svarint-pb_decode_svarint v max h le small =
    let (all, some_byte, ten) = varint_bytes-shape (zigzag v) (zigzag-lt v) in
    reads_back _ _ (varint_bytes (zigzag v)) v max (Emits-pb_encode_svarint v)
      (pb_decode_svarint-zigzag v h) small (omega (arith, ten))

-- For bytes of a length below 2^32 and every buffer with at least ten bytes more and less than
-- 2^64, pb_encode_string returns true, stays within the buffer, and opening a substream on what
-- it wrote, reading all of it and closing it gives the bytes and leaves nothing.
pub pb_encode_string-read_string :
    (bs : List ℕ) (max : ℕ)
    → length bs < u32_mod
    → length bs + 10 ≤ max
    → max < size_mod
    → ReadsBack (λ s. pb_encode_string s bs (length bs)) read_string bs max
unfolding string_bytes
pb_encode_string-read_string bs max h le small =
    let (all, some_byte, ten) = varint_bytes-shape (length bs) (omega arith) in
    reads_back _ _ (string_bytes bs) bs max (Emits-pb_encode_string bs (omega arith))
      (read_string-string_bytes bs h) small
      (omega (arith, ten, length-append (varint_bytes (length bs)) bs))
