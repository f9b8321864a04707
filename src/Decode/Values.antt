-- ===== src/Decode/Values.antt =====
-- What the encoder writes the decoder reads back: keys, zigzag, fixed words, strings.
use native.Mathlib.Numerals.{towards_suc}
use native.Mathlib.Nat.{pow-suc, mod-add-div, mod-eq_of_lt}
use get_together.Common.{
  ℕ, zero, suc, ◌+◌, ◌-◌, ◌*◌, ◌/◌, ◌%◌, ◌^◌, ◌≤◌, ◌<◌, ◌≡◌, refl, sym, ap, ◌∙◌, true, false, List,
  ◌++◌, length, length-append, append_assoc, bit_and, bit_or, ge→ltb, ◌==◌, if◌then◌else◌, arith,
}
use get_together.Common.Bits.{bit_and-ones, bit_or-shifted}
use get_together.Pb.{u32_mod, u64_mod}
use get_together.Pb.Field.{WireType, wt_varint, wt_64bit, wt_string, wt_32bit, wt_other, wire_code}
use get_together.IStream.{IStream, Read, ok, ◌>>=◌, pb_read}
use get_together.IStream.Reads.{Holds, after, pb_read-buffer}
use get_together.Encode.{zigzag}
use get_together.Encode.Varint.{varint_bytes}
use get_together.Encode.Wire.{le_bytes, length-le_bytes, key, key_bytes, string_bytes, zigzag-lt}
use get_together.Decode.{
  wire_of, tag_parts, tag_read, pb_decode_tag, pb_decode_svarint, join_bytes, pb_decode_fixed32,
  pb_decode_fixed64, pb_make_string_substream, pb_close_string_substream, close_at,
}
use get_together.Decode.RoundTrip.{
  Holds-cong, Takes, pb_decode_varint-varint_bytes, pb_decode_varint32-varint_bytes,
}

-- The four wire types of the protocol.
abbrev pub IsProto : WireType → Type 0
IsProto (wt_other n) = ⊥
IsProto _ = Unit {0}

pub wire_code-lt : (w : WireType) → IsProto w → wire_code w < 8
unfolding wire_code
wire_code-lt wt_varint h = omega arith
wire_code-lt wt_64bit h = omega arith
wire_code-lt wt_string h = omega arith
wire_code-lt wt_32bit h = omega arith
wire_code-lt (wt_other n) h = absurd h

wire_of-wire_code : (w : WireType) → IsProto w → wire_of (wire_code w) ≡ w
unfolding wire_of wire_code
wire_of-wire_code wt_varint h = refl
wire_of-wire_code wt_64bit h = refl
wire_of-wire_code wt_string h = refl
wire_of-wire_code wt_32bit h = refl
wire_of-wire_code (wt_other n) h = absurd h

positive : (n : ℕ) → 1 ≤ n → (n == 0) ≡ false
positive n h = ground arith

-- For each of the four wire types of the protocol and each field number from 1 below 2^29,
-- pb_decode_tag on a buffer stream that starts with the bytes of the key, which are within
-- bytes_left, returns true with that wire type and number, with eof false, and moves the stream
-- exactly behind the key.
pub pb_decode_tag-key_bytes :
    (w : WireType) (n : ℕ)
    → IsProto w
    → 1 ≤ n
    → n < 2 ^ 29
    → Takes pb_decode_tag (key_bytes w n) (true, record { wire_type = w; tag = n; eof = false })
unfolding pb_decode_tag tag_read tag_parts key_bytes key
pb_decode_tag-key_bytes w n proto pos lt s rest h left =
    ap tag_read
      (pb_decode_varint32-varint_bytes (n * 8 + wire_code w) (omega (arith, small)) s rest h left)
    ∙ rw
        (
          positive (n * 8 + wire_code w) (omega arith),
          bit_and-ones 3 7 (n * 8 + wire_code w) refl,
          low,
          high,
          wire_of-wire_code w proto,
        )
        refl
  where
    small : wire_code w < 8
    small = wire_code-lt w proto

    low : (n * 8 + wire_code w) % 8 ≡ wire_code w
    low = omega (arith, small)

    high : (n * 8 + wire_code w) / 8 ≡ n
    high = omega (arith, small)

unzigzag :
    (v : ℕ)
    → v < u64_mod
    → (if bit_and (zigzag v) 1 == 0 then zigzag v / 2 else u64_mod - 1 - zigzag v / 2) ≡ v
unfolding zigzag
unzigzag v h = rw (bit_and-ones 1 1 (zigzag v) refl) (ground arith)

-- Every int64_t, as its residue.
pub pb_decode_svarint-zigzag :
    (v : ℕ) → v < u64_mod → Takes pb_decode_svarint (varint_bytes (zigzag v)) v
unfolding pb_decode_svarint
pb_decode_svarint-zigzag v lt s rest h left =
    rw (pb_decode_varint-varint_bytes (zigzag v) (zigzag-lt v) s rest h left)
      (ap (λ (t : ℕ). ok t (after s (length (varint_bytes (zigzag v))) rest)) (unzigzag v lt))

join_bytes-le_bytes :
    (width n shift acc v : ℕ)
    → acc < 2 ^ shift
    → v < 256 ^ n
    → acc + v * 2 ^ shift < 2 ^ width
    → join_bytes width shift (le_bytes n v) acc ≡ acc + v * 2 ^ shift
unfolding join_bytes le_bytes
join_bytes-le_bytes width zero shift acc v small lt fits =
    omega (arith, ap (λ (t : ℕ). t * 2 ^ shift) none_left)
  where
    none_left : v ≡ 0
    none_left = omega arith
join_bytes-le_bytes width (suc n) shift acc v small lt fits =
    ap (join_bytes width (shift + 8) (le_bytes n (v / 256))) joined
    ∙ join_bytes-le_bytes width n (shift + 8) (acc + v % 256 * 2 ^ shift) (v / 256) small'
        (omega (arith, pow-suc 256 n)) (omega (arith, sum))
    ∙ sum
  where
    shift_eight : 2 ^ (shift + 8) ≡ 256 * 2 ^ shift
    shift_eight = simp towards_suc (omega arith)

    sum : acc + v % 256 * 2 ^ shift + v / 256 * 2 ^ (shift + 8) ≡ acc + v * 2 ^ shift
    sum = omega (
      arith,
      ap (λ (t : ℕ). v / 256 * t) shift_eight,
      ap (λ (t : ℕ). t * 2 ^ shift) (mod-add-div v 256),
    )

    small' : acc + v % 256 * 2 ^ shift < 2 ^ (shift + 8)
    small' = rw shift_eight (grind arith)

    joined : bit_or acc (v % 256 * 2 ^ shift % 2 ^ width) ≡ acc + v % 256 * 2 ^ shift
    joined =
        ap (bit_or acc) (mod-eq_of_lt (omega (arith, sum)))
        ∙ bit_or-shifted shift (v % 256) acc small

module _ (width n v : ℕ) (small : v < 256 ^ n) (fits : v < 2 ^ width) where
  fixed-le_bytes :
      Takes
        (λ s. pb_read s true n >>= λ bytes s. ok (join_bytes width 0 bytes 0) s)
        (le_bytes n v)
        v
  fixed-le_bytes s rest holds left =
      ap (λ r. r >>= done)
        (ap (pb_read s true) (sym (length-le_bytes n v))
          ∙ pb_read-buffer s (le_bytes n v) rest holds left)
      ∙ ap (λ (t : ℕ). ok t (after s (length (le_bytes n v)) rest))
          (join_bytes-le_bytes width n 0 0 v (omega arith) small (omega arith) ∙ omega arith)
    where
      done : List ℕ → IStream → Read ℕ
      done bytes s = ok (join_bytes width 0 bytes 0) s

-- For each uint32_t, pb_decode_fixed32 on a buffer stream that starts with its four bytes, the
-- lowest first, within bytes_left, gives the value and moves the stream exactly behind them.
pub pb_decode_fixed32-le_bytes : (v : ℕ) → v < u32_mod → Takes pb_decode_fixed32 (le_bytes 4 v) v
unfolding pb_decode_fixed32
pb_decode_fixed32-le_bytes v h = fixed-le_bytes 32 4 v (omega arith) h

-- For each uint64_t, pb_decode_fixed64 on a buffer stream that starts with its eight bytes, the
-- lowest first, within bytes_left, gives the value and moves the stream exactly behind them.
pub pb_decode_fixed64-le_bytes : (v : ℕ) → v < u64_mod → Takes pb_decode_fixed64 (le_bytes 8 v) v
unfolding pb_decode_fixed64
pb_decode_fixed64-le_bytes v h = fixed-le_bytes 64 8 v (omega arith) h

-- The substream has the length that stands in front, the stream the rest.
pub make_substream :
    (n : ℕ)
    → n < u32_mod
    → (s : IStream) (rest : List ℕ) → Holds s (varint_bytes n ++ rest)
    → length (varint_bytes n) + n ≤ s.bytes_left
    → pb_make_string_substream s
      ≡ ok
          (record s { state = rest; bytes_left = n })
          (record s { state = rest; bytes_left = s.bytes_left - length (varint_bytes n) - n })
unfolding pb_make_string_substream
make_substream n h s rest holds left =
    rw
      (
        pb_decode_varint32-varint_bytes n h s rest holds (omega arith),
        ge→ltb (s.bytes_left - length (varint_bytes n)) n (omega arith),
      )
      refl

-- Opens the substream, reads all of it, and closes it.
abbrev pub read_string : IStream → Read (List ℕ)
read_string s = pb_make_string_substream s >>= λ substream s.
    pb_read substream true substream.bytes_left >>= λ bytes substream.
    pb_close_string_substream s substream >>= λ _ s. ok bytes s

pub read_string-string_bytes :
    (bs : List ℕ) → length bs < u32_mod → Takes read_string (string_bytes bs) bs
unfolding string_bytes pb_close_string_substream close_at
read_string-string_bytes bs h s rest holds left =
    ap (λ r. r >>= all)
      (make_substream (length bs) h s (bs ++ rest) holds'
        (omega (arith, length-append (varint_bytes (length bs)) bs)))
    ∙ ap (λ r. r >>= close)
        (pb_read-buffer (record s { state = bs ++ rest; bytes_left = length bs }) bs rest
          (record { on_buffer = holds.on_buffer; holds = refl }) (omega arith))
    ∙ rw (zero_left, both_lengths) refl
  where
    k : ℕ
    k = length (varint_bytes (length bs))

    holds' : Holds s (varint_bytes (length bs) ++ (bs ++ rest))
    holds' = Holds-cong s _ _ (append_assoc (varint_bytes (length bs)) bs rest) holds

    moved : IStream
    moved = record s { state = bs ++ rest; bytes_left = s.bytes_left - k - length bs }

    close : List ℕ → IStream → Read (List ℕ)
    close bytes sub = pb_close_string_substream moved sub >>= λ _ s. ok bytes s

    all : IStream → IStream → Read (List ℕ)
    all sub s = pb_read sub true sub.bytes_left >>= λ bytes sub.
        pb_close_string_substream s sub >>= λ _ s. ok bytes s

    zero_left : length bs - length bs ≡ 0
    zero_left = omega arith

    both_lengths :
        s.bytes_left - k - length bs ≡ s.bytes_left - length (varint_bytes (length bs) ++ bs)
    both_lengths = omega (arith, length-append (varint_bytes (length bs)) bs)
