-- ===== src/Trip/Values.antt =====
-- Values of plain field types, from a memory through bytes to another memory.
use get_together.Common.{ℕ, ◌+◌, ◌*◌, ◌≤◌, ◌<◌, ◌≡◌, refl, true, List, ◌++◌, length, arith}
use get_together.Pb.{u32_mod, u64_mod}
use get_together.Pb.Field.{Field}
use get_together.Memory.{Memory, IsMemory, load, load-lt, sign_extend}
use get_together.OStream.Emits.{Action, Emits}
use get_together.IStream.{IStream}
use get_together.IStream.Reads.{Holds, after}
use get_together.Encode.{zigzag}
use get_together.Encode.Varint.{varint_bytes, varint_bytes-shape, Emits-pb_encode_varint}
use get_together.Encode.Wire.{length-le_bytes, zigzag-lt, le_bytes, Emits-pb_encode_svarint}
use get_together.Encode.Env.{Env}
use get_together.Encode.Fields.{
  pb_enc_varint, pb_enc_uvarint, pb_enc_svarint, pb_enc_fixed32, pb_enc_fixed64,
}
use get_together.Encode.Fields.Uniform.{sign_extend-lt, Emits-pb_enc_fixed32, Emits-pb_enc_fixed64}
use get_together.Decode.RoundTrip.{pb_decode_varint-varint_bytes}
use get_together.Decode.Values.{
  pb_decode_svarint-zigzag, pb_decode_fixed32-le_bytes, pb_decode_fixed64-le_bytes,
}
use get_together.Decode.Fields.{
  Decoded, decoded, store, read_then, is_int_size, pb_dec_varint, pb_dec_uvarint, pb_dec_svarint,
  pb_dec_fixed32, pb_dec_fixed64,
}
use get_together.Decode.Fields.Within.{Frame, store-Outside}
use get_together.Decode.Fields.Integers.{bytes_pow, uvarint_stored}
use get_together.Decode.Fields.Trip.{load_int-load, load-u64, Emits-pb_enc_uvarint}
use get_together.Trip.Cells.{SameBytes, store-SameBytes}
use get_together.Trip.Signed.{sizes, int32_cast, store_signed}

-- In front of any bytes `rest`, and into any memory, `read` takes `bs` and leaves at `q`, within
-- `size` bytes, a value for which `Same` holds.
abbrev pub Reads : (IStream → Memory → ℕ → Decoded) → List ℕ → ℕ → (Memory → ℕ → Type 0) → Type 0
Reads read bs size Same =
    (s : IStream) (mem : Memory) (q : ℕ) (rest : List ℕ)
    → Holds s (bs ++ rest)
    → length bs ≤ s.bytes_left
    → (mem' : Memory) × (read s mem q ≡ decoded true mem' (after s (length bs) rest))
      × Frame mem q size mem'
      × Same mem' q

-- An encoder writes certain bytes, not many more than `size`, and a decoder reads them. The length of a submessage is read as
-- a uint32_t.
pub record Carries (act : Action) (read : IStream → Memory → ℕ → Decoded) (size : ℕ)
    (Same : Memory → ℕ → Type 0) : Type 0 where
  pub bytes : List ℕ
  pub some_byte : 1 ≤ length bytes
  pub bounded : length bytes ≤ 10 + size
  pub emits : Emits act bytes
  pub reads : length bytes < u32_mod → Reads read bytes size Same

module _ (e : Env) (cells : IsMemory e.mem) (field : Field) (p : ℕ) where
  abbrev Copies : ℕ → Memory → ℕ → Type 0
  Copies n mem' q = SameBytes e.mem p mem' q n

  pub Carries-uvarint :
      is_int_size field.data_size ≡ true
      → Carries
          (λ s. pb_enc_uvarint e s field p)
          (λ s mem q. pb_dec_uvarint s mem field q)
          field.data_size
          (Copies field.data_size)
  Carries-uvarint size =
      let v : ℕ = load e.mem p field.data_size in
      record {
        bytes = varint_bytes v;
        some_byte = (varint_bytes-shape v (load-u64 e.mem p field.data_size cells size)).1;
        bounded =
            let (all, some_byte, ten) =
              varint_bytes-shape v (load-u64 e.mem p field.data_size cells size) in
            omega (arith, ten);
        emits = Emits-pb_enc_uvarint e field p cells size;
        reads = λ small s mem q rest holds left. (
          store mem q field.data_size v,
          uvarint_stored s mem field q v rest size
              (omega (arith, load-lt e.mem p field.data_size cells, bytes_pow field.data_size))
              (load-u64 e.mem p field.data_size cells size) holds left,
          store-Outside mem q field.data_size v,
          store-SameBytes e.mem cells field.data_size p q mem,
        );
      }

  pub Carries-fixed32 :
      field.data_size ≡ 4
      → (c : Carries
          (λ s. pb_enc_fixed32 e s field p)
          (λ s mem q. pb_dec_fixed32 s mem field q)
          field.data_size
          (Copies field.data_size))
        × (length c.bytes ≡ 4)
  unfolding pb_dec_fixed32 read_then
  Carries-fixed32 size =
      let v : ℕ = load e.mem p 4 in
      (
        record {
          bytes = le_bytes 4 v;
          some_byte = omega (arith, length-le_bytes 4 v);
          bounded = omega (arith, length-le_bytes 4 v);
          emits = Emits-pb_enc_fixed32 e cells field p;
          reads = λ small s mem q rest holds left. rw size (
            store mem q 4 v,
            rw
                (pb_decode_fixed32-le_bytes v (omega (arith, load-lt e.mem p 4 cells)) s rest holds
                  left)
                refl,
            store-Outside mem q 4 v,
            store-SameBytes e.mem cells 4 p q mem,
          );
        },
        length-le_bytes 4 v,
      )

  pub Carries-fixed64 :
      field.data_size ≡ 8
      → (c : Carries
          (λ s. pb_enc_fixed64 e s field p)
          (λ s mem q. pb_dec_fixed64 s mem field q)
          field.data_size
          (Copies field.data_size))
        × (length c.bytes ≡ 8)
  unfolding pb_dec_fixed64 read_then
  Carries-fixed64 size =
      let v : ℕ = load e.mem p 8 in
      (
        record {
          bytes = le_bytes 8 v;
          some_byte = omega (arith, length-le_bytes 8 v);
          bounded = omega (arith, length-le_bytes 8 v);
          emits = Emits-pb_enc_fixed64 e cells field p;
          reads = λ small s mem q rest holds left. rw size (
            store mem q 8 v,
            rw
                (pb_decode_fixed64-le_bytes v (omega (arith, load-lt e.mem p 8 cells)) s rest holds
                  left)
                refl,
            store-Outside mem q 8 v,
            store-SameBytes e.mem cells 8 p q mem,
          );
        },
        length-le_bytes 8 v,
      )

  extended-lt :
      is_int_size field.data_size ≡ true
      → sign_extend (8 * field.data_size) (load e.mem p field.data_size) < u64_mod
  extended-lt size = sign_extend-lt e.mem p field.data_size cells (
      sizes field.data_size (load e.mem p field.data_size) size
        (load-lt e.mem p field.data_size cells))

  pub Carries-svarint :
      is_int_size field.data_size ≡ true
      → Carries
          (λ s. pb_enc_svarint e s field p)
          (λ s mem q. pb_dec_svarint s mem field q)
          field.data_size
          (Copies field.data_size)
  unfolding pb_enc_svarint pb_dec_svarint read_then
  Carries-svarint size =
      let v : ℕ = load e.mem p field.data_size in
      let w : ℕ = sign_extend (8 * field.data_size) v in
      record {
        bytes = varint_bytes (zigzag w);
        some_byte = (varint_bytes-shape (zigzag w) (zigzag-lt w)).1;
        bounded =
            let (all, some_byte, ten) = varint_bytes-shape (zigzag w) (zigzag-lt w) in
            omega (arith, ten);
        emits = rw (load_int-load e.mem field p size) (Emits-pb_encode_svarint w);
        reads = λ small s mem q rest holds left. (
          store mem q field.data_size v,
          rw (pb_decode_svarint-zigzag w (extended-lt size) s rest holds left)
              (store_signed mem field q v _ size (load-lt e.mem p field.data_size cells)),
          store-Outside mem q field.data_size v,
          store-SameBytes e.mem cells field.data_size p q mem,
        );
      }

  pub Carries-varint :
      is_int_size field.data_size ≡ true
      → Carries
          (λ s. pb_enc_varint e s field p)
          (λ s mem q. pb_dec_varint s mem field q)
          field.data_size
          (Copies field.data_size)
  unfolding pb_enc_varint pb_dec_varint read_then
  Carries-varint size =
      let v : ℕ = load e.mem p field.data_size in
      let w : ℕ = sign_extend (8 * field.data_size) v in
      record {
        bytes = varint_bytes w;
        some_byte = (varint_bytes-shape w (extended-lt size)).1;
        bounded =
            let (all, some_byte, ten) = varint_bytes-shape w (extended-lt size) in
            omega (arith, ten);
        emits = rw (load_int-load e.mem field p size) (Emits-pb_encode_varint w (extended-lt size));
        reads = λ small s mem q rest holds left. (
          store mem q field.data_size v,
          rw
              (
                pb_decode_varint-varint_bytes w (extended-lt size) s rest holds left,
                int32_cast field.data_size v size (load-lt e.mem p field.data_size cells),
              )
              (store_signed mem field q v _ size (load-lt e.mem p field.data_size cells)),
          store-Outside mem q field.data_size v,
          store-SameBytes e.mem cells field.data_size p q mem,
        );
      }
