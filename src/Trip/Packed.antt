-- ===== src/Trip/Packed.antt =====
-- An array of numbers on a substream.
use native.Mathlib.Nat.{mod-eq_of_lt}
use get_together.Common.{
  ℕ, suc, ◌+◌, ◌-◌, ◌%◌, ◌≤◌, ◌<◌, ◌≡◌, refl, ap, ◌∙◌, true, List, ◌++◌, length, length-append,
  append_assoc, arith,
}
use get_together.Pb.{u32_mod, size_mod}
use get_together.Pb.Field.{wt_string, is_packable, Field}
use get_together.Memory.{Memory}
use get_together.IStream.{IStream}
use get_together.IStream.Reads.{Holds, after}
use get_together.Iter.{FieldIter, current}
use get_together.Encode.Varint.{varint_bytes}
use get_together.Decode.{pb_close_string_substream, close_at}
use get_together.Decode.RoundTrip.{Holds-cong}
use get_together.Decode.Values.{make_substream}
use get_together.Decode.Fields.{Decoded, decoded, read_then}
use get_together.Decode.Items.{packed_items, packed_end, close_substream, decode_repeated}

packed_read :
    (func : IStream → Memory → Field → ℕ → Decoded) (it : FieldIter) (s : IStream)
    (mem mem' : Memory) (bs rest : List ℕ)
    → is_packable (current it).ltype ≡ true
    → length bs < u32_mod
    → Holds s (varint_bytes (length bs) ++ (bs ++ rest))
    → length (varint_bytes (length bs)) + length bs ≤ s.bytes_left
    → packed_items func it
        (suc (length bs))
        mem
        (record s { state = bs ++ rest; bytes_left = length bs })
      ≡ decoded true mem' (record s { state = rest; bytes_left = 0 })
    → decode_repeated func it wt_string s mem
      ≡ decoded true mem' (record s {
        state = rest;
        bytes_left = s.bytes_left - length (varint_bytes (length bs)) - length bs;
      })
unfolding decode_repeated packed_end read_then close_substream pb_close_string_substream close_at
packed_read func it s mem mem' bs rest packed small holds left loop =
    rw (packed, make_substream (length bs) small s (bs ++ rest) holds left, loop) refl

-- The same with the length as encode_array writes it.
pub decode_repeated-packed :
    (func : IStream → Memory → Field → ℕ → Decoded) (it : FieldIter) (s : IStream)
    (mem mem' : Memory) (bs rest : List ℕ)
    → is_packable (current it).ltype ≡ true
    → length (varint_bytes (length bs % size_mod) ++ bs) < u32_mod
    → Holds s ((varint_bytes (length bs % size_mod) ++ bs) ++ rest)
    → length (varint_bytes (length bs % size_mod) ++ bs) ≤ s.bytes_left
    → packed_items func it
        (suc (length bs))
        mem
        (record s { state = bs ++ rest; bytes_left = length bs })
      ≡ decoded true mem' (record s { state = rest; bytes_left = 0 })
    → decode_repeated func it wt_string s mem
      ≡ decoded true mem' (after s (length (varint_bytes (length bs % size_mod) ++ bs)) rest)
decode_repeated-packed func it s mem mem' bs rest packed small holds left loop =
    let lengths = length-append (varint_bytes (length bs % size_mod)) bs in
    let whole : length bs % size_mod ≡ length bs = mod-eq_of_lt (omega (arith, lengths)) in
    let widths : length (varint_bytes (length bs % size_mod)) ≡ length (varint_bytes (length bs)) =
      ap (λ (t : ℕ). length (varint_bytes t)) whole in
    packed_read func it s mem mem' bs rest packed (omega (arith, lengths))
      (Holds-cong s _ _
        (append_assoc (varint_bytes (length bs % size_mod)) bs rest
          ∙ ap (λ (t : ℕ). varint_bytes t ++ (bs ++ rest)) whole)
        holds)
      (omega (arith, lengths, widths)) loop
    ∙ ap (λ (t : ℕ). decoded true mem' (record s { state = rest; bytes_left = t }))
        (omega (arith, lengths, widths))
