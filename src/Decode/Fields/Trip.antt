-- ===== src/Decode/Fields/Trip.antt =====
-- An unsigned integer goes from a field to a buffer and from the buffer to a field.
use native.Mathlib.Nat.{zero-add, pow-le-pow_right}
use get_together.Common.{
  ℕ, ◌^◌, ◌≤◌, ◌<◌, ◌≡◌, ◌∙◌, refl, ap, true, some, List, [], append-nil, sym, length, arith,
}
use get_together.Pb.{returns, size_mod, u64_mod}
use get_together.Pb.Field.{Field}
use get_together.Memory.{Memory, IsMemory, load, load-lt}
use get_together.OStream.{OStream, pb_ostream_from_buffer}
use get_together.IStream.{pb_istream_from_buffer}
use get_together.OStream.Emits.{Emits}
use get_together.Encode.Varint.{varint_bytes, varint_bytes-shape, Emits-pb_encode_varint}
use get_together.Encode.Env.{Env}
use get_together.Encode.Fields.{load_int, pb_enc_uvarint}
use get_together.Decode.Fields.{decoded, is_int_size, pb_dec_uvarint}
use get_together.Decode.Fields.Within.{Outside}
use get_together.Decode.Fields.Integers.{bytes_pow, pb_dec_uvarint-varint_bytes}

pub load_int-load :
    (mem : Memory) (field : Field) (src : ℕ)
    → is_int_size field.data_size ≡ true
    → load_int mem field src ≡ some (load mem src field.data_size)
unfolding load_int is_int_size
load_int-load mem field src h = ground arith

pub int_size-le : (n : ℕ) → is_int_size n ≡ true → n ≤ 8
unfolding is_int_size
int_size-le n h = ground arith

pub load-u64 :
    (mem : Memory) (src n : ℕ) → IsMemory mem → is_int_size n ≡ true → load mem src n < u64_mod
load-u64 mem src n cells h = omega (arith, load-lt mem src n cells, grows)
  where
    grows : 256 ^ n ≤ 256 ^ 8
    grows = pow-le-pow_right (omega arith) (int_size-le n h)

pub Emits-pb_enc_uvarint :
    (e : Env) (field : Field) (src : ℕ)
    → IsMemory e.mem
    → is_int_size field.data_size ≡ true
    → Emits (λ s. pb_enc_uvarint e s field src) (varint_bytes (load e.mem src field.data_size))
unfolding pb_enc_uvarint
Emits-pb_enc_uvarint e field src cells h = rw (load_int-load e.mem field src h) (
    Emits-pb_encode_varint (load e.mem src field.data_size)
      (load-u64 e.mem src field.data_size cells h))

-- For a memory of bytes, a field of 8, 4, 2 or 1 bytes and a buffer of at least ten bytes and
-- less than 2^64, pb_enc_uvarint on the field at `src` returns true and stays within the
-- buffer, and pb_dec_uvarint on what it wrote returns true, leaves nothing, and leaves memory
-- in which the field at `dest` holds the integer of the field at `src` and no byte outside of
-- it has changed.
pub pb_enc_uvarint-pb_dec_uvarint :
    (e : Env) (field : Field) (src max : ℕ) (mem : Memory) (dest : ℕ)
    → IsMemory e.mem
    → is_int_size field.data_size ≡ true
    → 10 ≤ max
    → max < size_mod
    → (s : OStream) × (mem' : Memory) × (pb_enc_uvarint e (pb_ostream_from_buffer max) field src
        ≡ returns true s)
      × (s.bytes_written ≤ max)
      × (pb_dec_uvarint (pb_istream_from_buffer s.state s.bytes_written) mem field dest
          ≡ decoded true mem' (pb_istream_from_buffer [] 0))
      × (load mem' dest field.data_size ≡ load e.mem src field.data_size)
      × ((x : ℕ) → Outside dest field.data_size x → mem' x ≡ mem x)
unfolding pb_ostream_from_buffer pb_istream_from_buffer
pb_enc_uvarint-pb_dec_uvarint e field src max mem dest cells h le small =
    let v : ℕ = load e.mem src field.data_size in
    let bs : List ℕ = varint_bytes v in
    let lt : v < u64_mod = load-u64 e.mem src field.data_size cells h in
    let (all, some_byte, ten) = varint_bytes-shape v lt in
    let (mem', read, loaded, kept) =
      pb_dec_uvarint-varint_bytes (pb_istream_from_buffer bs (length bs)) mem field dest v [] h
        (omega (arith, load-lt e.mem src field.data_size cells, bytes_pow field.data_size)) lt
        (record { on_buffer = refl; holds = sym (append-nil bs) }) (omega arith) in
    (
      record (pb_ostream_from_buffer max) { state = bs; bytes_written = length bs },
      mem',
      (Emits-pb_enc_uvarint e field src cells h).fits (pb_ostream_from_buffer max) refl refl small
            (omega (arith, ten))
          ∙ ap
              (λ (n : ℕ).
                returns true
                  (record (pb_ostream_from_buffer max) { state = bs; bytes_written = n }))
              (zero-add (length bs)),
      omega (arith, ten),
      read ∙ ap (λ (n : ℕ). decoded true mem' (pb_istream_from_buffer [] n)) (omega arith),
      loaded,
      kept,
    )
