-- ===== src/Decode/Substream.antt =====
-- Substreams of a buffer: opened, given to a decoder, and closed.
use get_together.Common.{
  All-drop, ℕ, ◌+◌, ◌-◌, ◌<◌, ◌≡◌, refl, true, false, [], length-drop, drop, ltb, ltb→ge, ◌==◌,
  if◌then◌else◌, Bool-cases, inl, inr, arith,
}
use get_together.Pb.{parent_stream_too_short}
use get_together.Memory.{Memory}
use get_together.IStream.{IStream, Read, ok, fail, stuck, ◌>>=◌, return_error}
use get_together.IStream.Safe.{IsSafe, Kept, Took, read_bytes-enough, pb_read-read_bytes}
use get_together.Decode.{
  pb_decode_varint32, pb_make_string_substream, close_at, pb_close_string_substream,
}
use get_together.Decode.Safe.{Safe-pb_decode_varint32}
use get_together.Decode.Took.{Took-pb_decode_varint32}
use get_together.Decode.Fields.{Decoded, decoded, lost, read_then}
use get_together.Decode.Fields.Within.{Frame, Within}
use get_together.Decode.Items.{close_substream}

-- What follows the length in pb_make_string_substream.
abbrev split : ℕ → IStream → Read IStream
split size s =
    if ltb s.bytes_left size
    then return_error s parent_stream_too_short
    else ok (record s { bytes_left = size }) (record s { bytes_left = s.bytes_left - size })

-- What the work on a substream may rely on: the bytes of the stream stand behind it.
abbrev pub OnSubstream : ℕ → ℕ → Memory → ℕ → ℕ → (IStream → IStream → Decoded) → Type 0
OnSubstream k left mem dest n f =
    (sub s : IStream)
    → IsSafe (k + s.bytes_left) sub
    → IsSafe k s
    → s.bytes_left < left
    → Within k left mem dest n (f sub s)

module _ (k left : ℕ) (mem : Memory) (dest n : ℕ) (mem' : Memory)
    (same : Frame mem dest n mem') where
  Within-split :
      (f : IStream → IStream → Decoded) (size : ℕ) (s : IStream)
      → IsSafe k s
      → s.bytes_left < left
      → OnSubstream k left mem dest n f
      → Within k left mem dest n (read_then mem' (split size s) f)
  unfolding Within read_then return_error
  Within-split f size s h lt g = elim (Bool-cases (ltb s.bytes_left size)) [
    | inl e ↦ rw e (
      record { on_buffer = h.on_buffer; enough = h.enough; are_bytes = h.are_bytes },
      omega arith,
      same,
    )
    | inr e ↦ rw e (
        g (record s { bytes_left = size }) (record s { bytes_left = s.bytes_left - size })
          (record {
            on_buffer = h.on_buffer;
            enough = omega (arith, h.enough, ltb→ge s.bytes_left size e);
            are_bytes = h.are_bytes;
          })
          (record {
            on_buffer = h.on_buffer;
            enough = omega (arith, h.enough);
            are_bytes = h.are_bytes;
          })
          (omega arith))
  ]

  Within-split_read :
      (f : IStream → IStream → Decoded) (r : Read ℕ)
      → Kept k left r
      → Took left r
      → OnSubstream k left mem dest n f
      → Within k left mem dest n (read_then mem' (r >>= split) f)
  unfolding Kept
  Within-split_read f (ok size s) (h, le) lt g = Within-split f size s h lt g
  Within-split_read f (fail s) (h, le) t g = unfold Within read_then in (h, le, same)
  Within-split_read f stuck h t g = absurd h

pub Within-make_substream :
    (k : ℕ) (mem : Memory) (dest n : ℕ) (mem' : Memory) (s : IStream)
    (f : IStream → IStream → Decoded)
    → Frame mem dest n mem'
    → IsSafe k s
    → OnSubstream k s.bytes_left mem dest n f
    → Within k s.bytes_left mem dest n (read_then mem' (pb_make_string_substream s) f)
unfolding pb_make_string_substream
Within-make_substream k mem dest n mem' s f same h g =
    Within-split_read k s.bytes_left mem dest n mem' same f (pb_decode_varint32 s)
      (Safe-pb_decode_varint32 k s h) (Took-pb_decode_varint32 k s h) g

-- Closing skips what is left of the substream, and the stream goes on behind it.
close-IsSafe :
    (k : ℕ) (s sub : IStream)
    → IsSafe k s
    → IsSafe (k + s.bytes_left) sub
    → (s' : IStream) × (pb_close_string_substream s sub ≡ ok [] s')
      × IsSafe k s'
      × (s'.bytes_left ≡ s.bytes_left)
unfolding pb_close_string_substream close_at
close-IsSafe k s sub h g = elim (Bool-cases (sub.bytes_left == 0)) [
  | inl e ↦ (
    record s { state = sub.state; errmsg = sub.errmsg },
    rw e refl,
    record { on_buffer = h.on_buffer; enough = omega (arith, g.enough); are_bytes = g.are_bytes },
    refl,
  )
  | inr e ↦ (
    record s { state = drop sub.bytes_left sub.state; errmsg = sub.errmsg },
    rw
        (
          e,
          pb_read-read_bytes (k + s.bytes_left) sub false sub.bytes_left g,
          read_bytes-enough (k + s.bytes_left) sub sub.bytes_left g (omega arith),
        )
        refl,
    record {
      on_buffer = h.on_buffer;
      enough = omega (arith, g.enough, length-drop sub.bytes_left sub.state);
      are_bytes = All-drop (λ b. b < 256) sub.bytes_left sub.state g.are_bytes;
    },
    refl,
  )
]

pub Within-close :
    (k left sub_left : ℕ) (mem : Memory) (dest n : ℕ) (s : IStream) (d : Decoded)
    → IsSafe k s
    → s.bytes_left < left
    → Within (k + s.bytes_left) sub_left mem dest n d
    → Within k left mem dest n (close_substream s d)
unfolding Within close_substream read_then
Within-close k left sub_left mem dest n s (decoded true mem' sub) h lt (g, l, same) =
    let (s', e, safe, eq) = close-IsSafe k s sub h g in rw e (safe, omega arith, same)
Within-close k left sub_left mem dest n s (decoded false mem' sub) h lt (g, l, same) =
    let (s', e, safe, eq) = close-IsSafe k s sub h g in rw e (safe, omega arith, same)
Within-close k left sub_left mem dest n s lost h lt g = g
