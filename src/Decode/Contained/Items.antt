-- ===== src/Decode/Contained/Items.antt =====
-- The entries of arrays are written only into the array and its count.
use native.Mathlib.Nat.{mod-eq_of_lt}
use get_together.Common.{
  ℕ, zero, suc, ◌+◌, ◌*◌, ◌%◌, ◌≤◌, ◌<◌, ◌≡◌, refl, ◌∙◌, Bool, true, false, ◌&&◌, ltb, ltb→lt, leb,
  leb→gt, ◌==◌, arith,
}
use get_together.Pb.{u32_mod, array_overflow}
use get_together.Pb.Field.{is_packable, WireType, Field}
use get_together.Memory.{Memory, load}
use get_together.Iter.{FieldIter, current}
use get_together.IStream.{IStream}
use get_together.IStream.Safe.{IsSafe}
use get_together.Decode.Fields.{Decoded, decoded, lost}
use get_together.Decode.Fields.Within.{
  Frame, Within, Within-decoded, Within-error, Within-if, Within-widen, Within-Frame,
}
use get_together.Decode.Items.{
  decoded_then, item_address, count_item, packed_items, packed_end, is_string, decode_repeated,
}
use get_together.Decode.Substream.{Within-make_substream, Within-close}
use get_together.Decode.Contained.{Inside}
use get_together.Decode.Contained.Frames.{store-Frame}
use get_together.Decode.Contained.Values.{IsWithin}

-- A result within the bytes, and what is done when it is true.
pub Within-then :
    (k left l : ℕ) (mem : Memory) (dest n : ℕ) (d : Decoded) (f : Memory → IStream → Decoded)
    → l ≤ left
    → Within k l mem dest n d
    → ((mem' : Memory) (s : IStream)
        → IsSafe k s
        → s.bytes_left < l
        → Frame mem dest n mem'
        → Within k left mem dest n (f mem' s))
    → Within k left mem dest n (decoded_then d f)
unfolding Within decoded_then
Within-then k left l mem dest n (decoded true mem' s) f le (h, lt, same) g = g mem' s h lt same
Within-then k left l mem dest n (decoded false mem' s) f le (h, lt, same) g = (h, omega arith, same)
Within-then k left l mem dest n lost f le h g = h

item_room :
    (d size a : ℕ)
    → size < a
    → d * a < u32_mod
    → (d * size % u32_mod ≡ d * size) × (d * size + d ≤ d * a)
item_room d size a lt small = (mod-eq_of_lt (omega (arith, room)), room)
  where
    room : d * size + d ≤ d * a
    room = grind arith

-- An array in a struct of `n` bytes at `dest`.
module _ (func : IStream → Memory → Field → ℕ → Decoded) (it : FieldIter) (dest n : ℕ)
    (within : IsWithin func (current it) (current it).data_size)
    (items : Inside dest n it.p_data ((current it).data_size * (current it).array_size))
    (count : Inside dest n it.p_size 4)
    (small : (current it).data_size * (current it).array_size < u32_mod) where
  Within-item :
      (k : ℕ) (s : IStream) (mem mem' : Memory) (size : ℕ)
      → IsSafe k s
      → size < (current it).array_size
      → Frame mem dest n mem'
      → Within k s.bytes_left mem dest n (func s mem' (current it) (item_address it size))
  Within-item k s mem mem' size h lt same =
      let (eq, room) = item_room (current it).data_size size (current it).array_size lt small in
      Within-widen k s.bytes_left mem dest n mem' s.bytes_left (item_address it size)
        (current it).data_size _ (omega arith) (λ x o. ground (arith, eq, room, items.0, items.1))
        same (within k s mem' (item_address it size) h)

  counted-Frame :
      (mem mem' : Memory) → Frame mem dest n mem' → Frame mem dest n (count_item it mem')
  counted-Frame mem mem' same x o =
      store-Frame mem' dest n it.p_size 4 ((load mem' it.p_size 4 + 1) % u32_mod) count x o
      ∙ same x o

  and-true : (a b : Bool) → (a && b) ≡ true → (a ≡ true) × (b ≡ true)
  and-true true true h = (refl, refl)
  and-true true false h = cc
  and-true false b h = cc

  Within-packed_items :
      (fuel k : ℕ) (mem mem' : Memory) (sub : IStream)
      → IsSafe k sub
      → sub.bytes_left < fuel
      → Frame mem dest n mem'
      → Within k (suc sub.bytes_left) mem dest n (packed_items func it fuel mem' sub)
  unfolding packed_items
  Within-packed_items zero k mem mem' sub h lt same = absurd (omega arith)
  Within-packed_items (suc fuel) k mem mem' sub h lt same =
      let size : ℕ = load mem' it.p_size 4 in
      Within-if k (suc sub.bytes_left) mem dest n
        (ltb 0 sub.bytes_left && ltb size (current it).array_size) _ _
        (λ e.
          Within-then k (suc sub.bytes_left) sub.bytes_left mem dest n _ _ (omega arith)
            (Within-item k sub mem mem' size h
              (ltb→lt size (current it).array_size (and-true _ _ e).1) same)
            λ mem'' sub' safe lt' same'.
              Within-widen k (suc sub.bytes_left) mem dest n mem (suc sub'.bytes_left) dest n _
                (omega arith) (λ x o. o) (λ x o. refl)
                (Within-packed_items fuel k mem (count_item it mem'') sub' safe (omega arith)
                  (counted-Frame mem mem'' same')))
        λ _. Within-decoded k (suc sub.bytes_left) mem dest n mem' true sub h (omega arith) same

  Within-packed_end :
      (k left l : ℕ) (mem : Memory) (s : IStream) (d : Decoded)
      → IsSafe k s
      → s.bytes_left < left
      → Within (k + s.bytes_left) l mem dest n d
      → Within k left mem dest n (packed_end s d)
  unfolding packed_end
  Within-packed_end k left l mem s (decoded status mem' sub) h lt g =
      Within-if k left mem dest n (sub.bytes_left == 0) _ _
        (λ _. Within-close k left l mem dest n s (decoded status mem' sub) h lt g)
        λ _.
          Within-error k left mem dest n mem' s array_overflow h (omega arith)
            (Within-Frame (k + s.bytes_left) l mem dest n status mem' sub g)
  Within-packed_end k left l mem s lost h lt g = unfold Within in absurd (unfold Within in g)

  pub Within-decode_repeated :
      (k : ℕ) (s : IStream) (mem : Memory) (wire_type : WireType)
      → IsSafe k s
      → Within k s.bytes_left mem dest n (decode_repeated func it wire_type s mem)
  unfolding decode_repeated
  Within-decode_repeated k s mem wire_type h =
      let size : ℕ = load mem it.p_size 4 in
      Within-if k s.bytes_left mem dest n (is_string wire_type && is_packable (current it).ltype) _
        _
        (λ _.
          Within-make_substream k mem dest n mem s _ (λ x o. refl) h
            λ sub s' safe_sub safe lt.
              Within-packed_end k s.bytes_left (suc sub.bytes_left) mem s' _ safe lt (
                Within-packed_items (suc sub.bytes_left) (k + s'.bytes_left) mem mem sub safe_sub
                  (omega arith) λ x o. refl))
        λ _.
          Within-if k s.bytes_left mem dest n (leb (current it).array_size size) _ _
            (λ _.
              Within-error k s.bytes_left mem dest n mem s array_overflow h (omega arith)
                λ x o. refl)
            λ e.
              Within-item k s mem (count_item it mem) size h (leb→gt (current it).array_size size e)
                (counted-Frame mem mem λ x o. refl)
