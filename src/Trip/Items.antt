-- ===== src/Trip/Items.antt =====
-- What packed_items reads of an array of numbers.
use native.Mathlib.Nat.{mod-eq_of_lt}
use native.Mathlib.Decide.{dec_lt}
use get_together.Common.{
  ℕ, zero, suc, ◌+◌, ◌*◌, ◌%◌, ◌≤◌, ◌<◌, ◌≡◌, inl, inr, refl, ap, ◌∙◌, true, false, List, ◌++◌,
  length, length-append, append_assoc, ltb, lt→ltb, arith,
}
use get_together.Pb.{u32_mod}
use get_together.Pb.Field.{Field}
use get_together.Memory.{Memory, load}
use get_together.IStream.{IStream}
use get_together.IStream.Reads.{Holds, after}
use get_together.Iter.{FieldIter, current}
use get_together.Decode.RoundTrip.{Holds-cong}
use get_together.Decode.Fields.{Decoded, decoded}
use get_together.Decode.Fields.Within.{Outside, Frame, store-Outside}
use get_together.Decode.Fields.Integers.{load-store}
use get_together.Decode.Items.{decoded_then, count_item, packed_items}
use get_together.Trip.Cells.{SameBytes, Frame-SameBytes}
use get_together.Trip.Arrays.{entries_from}
use get_together.Trip.Kept.{Agree-load, entry_fits}
use get_together.Trip.Values.{Reads}

-- An array of `count` numbers at `p` of the memory `source`, each with bytes that `func` reads, and
-- the array of a field, behind its count.
module _ (source : Memory) (field : Field) (func : IStream → Memory → Field → ℕ → Decoded)
    (entry : ℕ → List ℕ) (entry_some : (p : ℕ) → 1 ≤ length (entry p))
    (reads : (p : ℕ)
      → length (entry p) < u32_mod
      → Reads
          (λ s mem q. func s mem field q)
          (entry p)
          field.data_size
          (λ mem q. SameBytes source p mem q field.data_size))
    (it : FieldIter) (here : current it ≡ field) (before : it.p_size + 4 ≤ it.p_data)
    (room_small : field.data_size * field.array_size < u32_mod)
    (size_small : field.array_size < u32_mod) (p count : ℕ) (fits : count ≤ field.array_size) where
  -- Nothing has changed outside of the count and the array.
  abbrev pub ArrayFrame : Memory → Memory → Type 0
  ArrayFrame mem mem' =
      (x : ℕ)
      → Outside it.p_size 4 x
      → Outside it.p_data (field.data_size * field.array_size) x
      → mem' x ≡ mem x

  -- The first `i` entries are there.
  abbrev pub HasEntries : ℕ → Memory → Type 0
  HasEntries i mem =
      (load mem it.p_size 4 ≡ i)
      × ((j : ℕ)
          → j < i
          → SameBytes source (p + field.data_size * j) mem (it.p_data + field.data_size * j)
              field.data_size)

  address-item :
      (i : ℕ)
      → i < field.array_size
      → it.p_data + field.data_size * i % u32_mod ≡ it.p_data + field.data_size * i
  address-item i lt =
      ap (λ (t : ℕ). it.p_data + t)
        (mod-eq_of_lt (omega (arith, entry_fits field.data_size i field.array_size lt)))

  -- After one entry more.
  one_entry :
      (i : ℕ) (mem mem1 : Memory)
      → i < count
      → HasEntries i mem
      → Frame mem (it.p_data + field.data_size * i) field.data_size mem1
      → SameBytes source
          (p + field.data_size * i)
          mem1
          (it.p_data + field.data_size * i)
          field.data_size
      → HasEntries (suc i) (count_item it mem1) × ArrayFrame mem (count_item it mem1)
  one_entry i mem mem1 lt (counts, entries) frame same =
      let counted : load mem1 it.p_size 4 ≡ i =
        Agree-load mem mem1 it.p_size 4 (λ x from to. frame x (inl (omega arith))) ∙ counts in
      let next : (load mem1 it.p_size 4 + 1) % u32_mod ≡ suc i = omega (arith, counted) in
      let inside = entry_fits field.data_size i field.array_size (omega arith) in
      (
        (
          load-store mem1 it.p_size 4 ((load mem1 it.p_size 4 + 1) % u32_mod) (omega arith) ∙ next,
          λ j le.
              Frame-SameBytes source mem1 (count_item it mem1) (p + field.data_size * j)
                (it.p_data + field.data_size * j) field.data_size it.p_size 4
                (λ x o. store-Outside mem1 it.p_size 4 ((load mem1 it.p_size 4 + 1) % u32_mod) x o)
                (λ t small. inr (omega arith)) (stays j le),
        ),
        (λ x o o'.
            store-Outside mem1 it.p_size 4 ((load mem1 it.p_size 4 + 1) % u32_mod) x o
            ∙ frame x (ground (arith, inside))),
      )
    where
      at_last : (j : ℕ) → j < suc i → ¬ (j < i) → j ≡ i
      at_last j le last = omega arith

      stays :
          (j : ℕ)
          → j < suc i
          → SameBytes source
              (p + field.data_size * j)
              mem1
              (it.p_data + field.data_size * j)
              field.data_size
      stays j le = elim (dec_lt j i) [
        | yes earlier ↦
            Frame-SameBytes source mem mem1 (p + field.data_size * j)
              (it.p_data + field.data_size * j) field.data_size (it.p_data + field.data_size * i)
              field.data_size frame
              (λ t small. inl (omega (arith, entry_fits field.data_size j i earlier)))
              (entries j earlier)
        | no last ↦ rw (at_last j le last) same
      ]

  nonempty : (i n : ℕ) → 1 ≤ length (entries_from entry field.data_size p (suc n) i)
  nonempty i n = omega (
    arith,
    entry_some (p + field.data_size * i),
    length-append (entry (p + field.data_size * i))
        (entries_from entry field.data_size p n (suc i)),
  )

  -- The loop takes the entries from `i` on, `n` of them, and ends with all.
  pub packed_items-entries :
      (n i fuel : ℕ) (sub : IStream) (mem : Memory) (rest : List ℕ)
      → n + i ≡ count
      → HasEntries i mem
      → Holds sub (entries_from entry field.data_size p n i ++ rest)
      → sub.bytes_left ≡ length (entries_from entry field.data_size p n i)
      → length (entries_from entry field.data_size p n i) < fuel
      → length (entries_from entry field.data_size p n i) < u32_mod
      → (mem' : Memory) × (packed_items func it fuel mem sub
          ≡ decoded true mem' (record sub { state = rest; bytes_left = 0 }))
        × ArrayFrame mem mem'
        × HasEntries count mem'
  unfolding packed_items decoded_then
  packed_items-entries n i zero sub mem rest len done holds left enough small = absurd (omega arith)
  packed_items-entries zero i (suc fuel) sub mem rest len done holds left enough small = (
    mem,
    rw (none_left sub.bytes_left left)
        (λ t. decoded true mem (record sub { state = holds.holds t; bytes_left = left t })),
    (λ x o o'. refl),
    rw (← same_count) done,
  )
    where
      same_count : i ≡ count
      same_count = omega arith

      none_left : (b : ℕ) → b ≡ 0 → ltb 0 b ≡ false
      none_left b e = ground arith
  packed_items-entries (suc n) i (suc fuel) sub mem rest len done holds left enough small =
      let bs : List ℕ = entry (p + field.data_size * i) in
      let more : List ℕ = entries_from entry field.data_size p n (suc i) in
      let lengths = length-append bs more in
      let some_byte = entry_some (p + field.data_size * i) in
      let (mem1, value, frame, same) =
        reads (p + field.data_size * i) (omega (arith, lengths)) sub mem
          (it.p_data + field.data_size * i) (more ++ rest)
          (Holds-cong sub _ _ (append_assoc bs more rest) holds) (omega (arith, lengths)) in
      let (done', spared) = one_entry i mem mem1 (omega arith) done frame same in
      let (mem', loop, spared', all) =
        packed_items-entries n (suc i) fuel (after sub (length bs) (more ++ rest))
          (count_item it mem1) rest (omega arith) done'
          (record { on_buffer = holds.on_buffer; holds = refl }) (omega (arith, lengths))
          (omega (arith, lengths)) (omega (arith, lengths)) in
      (
        mem',
        rw
            (
              lt→ltb 0 sub.bytes_left (omega (arith, lengths)),
              done.0,
              here,
              lt→ltb i field.array_size (omega arith),
              address-item i (omega arith),
              value,
            )
            loop,
        (λ x o o'. spared' x o o' ∙ spared x o o'),
        all,
      )
