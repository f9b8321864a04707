-- ===== src/Decode/Fields/Integers.antt =====
-- An unsigned integer that is encoded from a field is decoded into a field.
use native.Mathlib.Nat.{mod-eq_of_lt, pow-suc}
use native.Mathlib.Numerals.{towards_suc}
use get_together.Common.{
  ℕ, zero, suc, ◌/◌, ◌+◌, ◌*◌, ◌%◌, ◌^◌, ◌≤◌, ◌<◌, ◌≡◌, inl, refl, ap, ◌∙◌, true, List, ◌++◌,
  length, ◌==◌, arith,
}
use get_together.Pb.{u64_mod}
use get_together.Pb.Field.{Field}
use get_together.Memory.{Memory, load}
use get_together.IStream.{IStream}
use get_together.IStream.Reads.{Holds, after}
use get_together.Encode.Varint.{varint_bytes}
use get_together.Decode.RoundTrip.{pb_decode_varint-varint_bytes}
use get_together.Decode.Fields.Within.{Outside, store-Outside}
use get_together.Decode.Fields.{
  Decoded, decoded, store, read_then, put, is_int_size, store_int, clamp_unsigned, pb_dec_uvarint,
}

put-same : (mem : Memory) (a b : ℕ) → put mem a b a ≡ b
unfolding put
put-same mem a b = ground arith

pub load-store : (mem : Memory) (a n v : ℕ) → v < 256 ^ n → load (store mem a n v) a n ≡ v
unfolding load store
load-store mem a zero v h = omega arith
load-store mem a (suc n) v h = omega (
  arith,
  store-Outside (put mem a (v % 256)) (a + 1) n (v / 256) a (inl (omega arith)),
  put-same mem a (v % 256),
  load-store (put mem a (v % 256)) (a + 1) n (v / 256) (omega (arith, pow-suc 256 n)),
)

shift_eight : (s : ℕ) → 2 ^ (s + 8) ≡ 256 * 2 ^ s
shift_eight s = simp towards_suc (omega arith)

pub bytes_pow : (n : ℕ) → 2 ^ (8 * n) ≡ 256 ^ n
bytes_pow zero = refl
bytes_pow (suc n) =
    ap (λ (t : ℕ). 2 ^ t) eight_more
    ∙ omega (arith, shift_eight (8 * n), bytes_pow n, pow-suc 256 n)
  where
    eight_more : 8 * suc n ≡ 8 * n + 8
    eight_more = omega arith

self_eq : (v : ℕ) → (v == v) ≡ true
self_eq v = ground arith

pub uvarint_stored :
    (s : IStream) (mem : Memory) (field : Field) (dest v : ℕ) (rest : List ℕ)
    → is_int_size field.data_size ≡ true
    → v < 2 ^ (8 * field.data_size)
    → v < u64_mod
    → Holds s (varint_bytes v ++ rest)
    → length (varint_bytes v) ≤ s.bytes_left
    → pb_dec_uvarint s mem field dest
      ≡ decoded true (store mem dest field.data_size v) (after s (length (varint_bytes v)) rest)
unfolding pb_dec_uvarint store_int read_then clamp_unsigned
uvarint_stored s mem field dest v rest size fits lt holds left =
    ap (λ r. read_then mem r done) (pb_decode_varint-varint_bytes v lt s rest holds left)
    ∙ rw (size, whole, self_eq v) refl
  where
    done : ℕ → IStream → Decoded
    done value s = store_int (clamp_unsigned field.data_size) mem field dest value s

    whole : v % 2 ^ (8 * field.data_size) ≡ v
    whole = mod-eq_of_lt fits

-- For a field of 8, 4, 2 or 1 bytes and a uint64_t that fits in it, pb_dec_uvarint on a buffer
-- stream that starts with the varint of the value, which is within bytes_left, returns true,
-- moves the stream exactly behind the varint, and leaves memory in which the field at `dest`
-- holds the value and no byte outside of it has changed.
pub pb_dec_uvarint-varint_bytes :
    (s : IStream) (mem : Memory) (field : Field) (dest v : ℕ) (rest : List ℕ)
    → is_int_size field.data_size ≡ true
    → v < 2 ^ (8 * field.data_size)
    → v < u64_mod
    → Holds s (varint_bytes v ++ rest)
    → length (varint_bytes v) ≤ s.bytes_left
    → (mem' : Memory) × (pb_dec_uvarint s mem field dest
        ≡ decoded true mem' (after s (length (varint_bytes v)) rest))
      × (load mem' dest field.data_size ≡ v)
      × ((x : ℕ) → Outside dest field.data_size x → mem' x ≡ mem x)
pb_dec_uvarint-varint_bytes s mem field dest v rest size fits lt holds left = (
  store mem dest field.data_size v,
  uvarint_stored s mem field dest v rest size fits lt holds left,
  load-store mem dest field.data_size v (omega (arith, bytes_pow field.data_size)),
  store-Outside mem dest field.data_size v,
)
