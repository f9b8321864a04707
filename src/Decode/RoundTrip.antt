-- ===== src/Decode/RoundTrip.antt =====
-- What the encoder writes the decoder reads back, and leaves what follows: varints.
use native.Mathlib.Nat.{pow-suc, mod-eq_of_lt, mod-add-div}
use native.Mathlib.Numerals.{towards_suc}
use native.Mathlib.Decide.{dec_lt}
use get_together.Common.{
  ℕ, zero, suc, ◌+◌, ◌-◌, ◌*◌, ◌/◌, ◌%◌, ◌^◌, ◌≤◌, ◌<◌, ◌≡◌, refl, sym, ap, ◌∙◌, List, [], ◌∷◌,
  ◌++◌, length, bit_and, bit_or, gt→leb, ◌==◌, if◌then◌else◌, arith,
}
use get_together.Common.Bits.{bit_and-ones, bit_or-shifted, bit_and-low, bit_and-high}
use get_together.Pb.{u32_mod, u64_mod}
use get_together.IStream.{IStream, Read, ok}
use get_together.IStream.Reads.{Holds, after, pb_readbyte-buffer}
use get_together.Encode.Varint.{
  varint_groups, varint_groups-small, varint_groups-more, varint_bytes,
}
use get_together.Decode.{varint_loop, pb_decode_varint32, pb_decode_varint}

shift_seven : (s : ℕ) → 2 ^ (s + 7) ≡ 128 * 2 ^ s
shift_seven s = simp towards_suc (omega arith)

-- What one round does with a byte of a buffer.
varint_loop-round :
    (width fuel bitpos r b : ℕ) (s : IStream) (rest : List ℕ)
    → bitpos < width
    → r < 2 ^ bitpos
    → r + b % 128 * 2 ^ bitpos < 2 ^ width
    → Holds s (b ∷ rest)
    → 1 ≤ s.bytes_left
    → varint_loop width (suc fuel) bitpos r s ≡ (
        if bit_and b 0x80 == 0
        then ok (r + b % 128 * 2 ^ bitpos) (after s 1 rest)
        else varint_loop width fuel (bitpos + 7) (r + b % 128 * 2 ^ bitpos) (after s 1 rest))
unfolding varint_loop
varint_loop-round width fuel bitpos r b s rest lt small fits h left =
    rw
      (
        gt→leb width bitpos lt,
        pb_readbyte-buffer s b rest h left,
        bit_and-ones 7 0x7F b refl,
        joined,
      )
      refl
  where
    joined : bit_or r (b % 128 * 2 ^ bitpos % 2 ^ width) ≡ r + b % 128 * 2 ^ bitpos
    joined = ap (bit_or r) (mod-eq_of_lt (omega arith)) ∙ bit_or-shifted bitpos (b % 128) r small

low_byte : (w : ℕ) → w < 128 → bit_and w 0x80 ≡ 0
low_byte w h = bit_and-low 7 w h

more_byte : (w : ℕ) → bit_and (w % 128 + 128) 0x80 ≡ 128
more_byte w = bit_and-high 7 (w % 128) (omega arith)

varint_loop-last :
    (width fuel bitpos r w : ℕ) (s : IStream) (rest : List ℕ)
    → bitpos < width
    → r < 2 ^ bitpos
    → w < 128
    → r + w * 2 ^ bitpos < 2 ^ width
    → Holds s (w ∷ rest)
    → 1 ≤ s.bytes_left
    → varint_loop width (suc fuel) bitpos r s ≡ ok (r + w * 2 ^ bitpos) (after s 1 rest)
varint_loop-last width fuel bitpos r w s rest lt small one fits h left =
    varint_loop-round width fuel bitpos r w s rest lt small (rw same fits) h left
    ∙ rw (same, low_byte w one) refl
  where
    same : w % 128 ≡ w
    same = omega arith

module _ (bitpos r w : ℕ) where
  joined_small : r < 2 ^ bitpos → r + w % 128 * 2 ^ bitpos < 2 ^ (bitpos + 7)
  joined_small h = rw (shift_seven bitpos) (grind arith)

  joined_sum : r + w % 128 * 2 ^ bitpos + w / 128 * 2 ^ (bitpos + 7) ≡ r + w * 2 ^ bitpos
  joined_sum = omega (
    arith,
    ap (λ (t : ℕ). w / 128 * t) (shift_seven bitpos),
    ap (λ (t : ℕ). t * 2 ^ bitpos) (mod-add-div w 128),
  )

pub Holds-cong : (s : IStream) (bs cs : List ℕ) → bs ≡ cs → Holds s bs → Holds s cs
Holds-cong s bs cs e h = record { on_buffer = h.on_buffer; holds = h.holds ∙ e }

-- A byte of more, when the rounds behind it give `y`.
varint_loop-more :
    (width fuel bitpos r w : ℕ) (s : IStream) (rest : List ℕ) (y : Read ℕ)
    → bitpos < width
    → r < 2 ^ bitpos
    → r + w * 2 ^ bitpos < 2 ^ width
    → Holds s ((w % 128 + 128) ∷ rest)
    → 1 ≤ s.bytes_left
    → varint_loop width fuel (bitpos + 7) (r + w % 128 * 2 ^ bitpos) (after s 1 rest) ≡ y
    → varint_loop width (suc fuel) bitpos r s ≡ y
varint_loop-more width fuel bitpos r w s rest y lt small fits h left e =
    varint_loop-round width fuel bitpos r (w % 128 + 128) s rest lt small
      (rw same (omega (arith, joined_sum bitpos r w))) h left
    ∙ rw (same, more_byte w) e
  where
    same : (w % 128 + 128) % 128 ≡ w % 128
    same = omega arith

-- A read that takes exactly `bs` from any buffer and gives `v`.
abbrev pub Takes {ℓ} : {A : Type ℓ} → (IStream → Read A) → List ℕ → A → Type ℓ
Takes read bs v =
    (s : IStream) (rest : List ℕ)
    → Holds s (bs ++ rest)
    → length bs ≤ s.bytes_left
    → read s ≡ ok v (after s (length bs) rest)

-- The groups of `w` behind a result of `bitpos` bits.
varint_loop-groups :
    (width k fuel bitpos r w : ℕ)
    → k < fuel
    → bitpos + 7 * k < width
    → r < 2 ^ bitpos
    → w < 128 ^ suc k
    → r + w * 2 ^ bitpos < 2 ^ width
    → Takes (λ s. varint_loop width fuel bitpos r s) (varint_groups k w) (r + w * 2 ^ bitpos)
varint_loop-groups width k zero bitpos r w f lt small bound fits = absurd (omega arith)
varint_loop-groups width zero (suc fuel) bitpos r w f lt small bound fits =
    rw (varint_groups-small zero w (omega arith)) λ s rest h left.
      varint_loop-last width fuel bitpos r w s rest (omega arith) small (omega arith) fits h left
varint_loop-groups width (suc k) (suc fuel) bitpos r w f lt small bound fits =
    let next =
      varint_loop-groups width k fuel (bitpos + 7) (r + w % 128 * 2 ^ bitpos) (w / 128)
        (omega arith) (omega arith) (joined_small bitpos r w small)
        (omega (arith, pow-suc 128 (suc k))) (omega (arith, joined_sum bitpos r w)) in
    elim (dec_lt w 128) [
      | yes one ↦ rw (varint_groups-small (suc k) w one) λ s rest h left.
          varint_loop-last width fuel bitpos r w s rest (omega arith) small one fits h left
      | no more ↦ rw (varint_groups-more k w (omega arith)) λ s rest h left.
          varint_loop-more width fuel bitpos r w s (varint_groups k (w / 128) ++ rest) _
            (omega arith) small fits h (omega arith)
            (next (after s 1 (varint_groups k (w / 128) ++ rest)) rest
                (record { on_buffer = h.on_buffer; holds = refl }) (omega arith)
              ∙ rw
                  (joined_sum bitpos r w, sub_suc s.bytes_left (length (varint_groups k (w / 128))))
                  refl)
    ]
  where
    sub_suc : (a b : ℕ) → a - 1 - b ≡ a - suc b
    sub_suc a b = omega arith

-- For each uint64_t, pb_decode_varint on a buffer stream that starts with its varint, which is
-- within bytes_left, gives the value and moves the stream exactly behind the varint.
pub pb_decode_varint-varint_bytes :
    (v : ℕ) → v < u64_mod → Takes pb_decode_varint (varint_bytes v) v
unfolding pb_decode_varint varint_bytes
pb_decode_varint-varint_bytes v h s rest holds left =
    varint_loop-groups 64 9 11 0 0 v (omega arith) (omega arith) (omega arith) (omega arith)
      (omega arith) s rest holds left
    ∙ ap (λ (t : ℕ). ok t (after s (length (varint_groups 9 v)) rest)) (omega arith)

varint_groups-enough : (j k v : ℕ) → v < 128 ^ suc j → j ≤ k → varint_groups k v ≡ varint_groups j v
varint_groups-enough zero k v h le =
    varint_groups-small k v (omega arith) ∙ sym (varint_groups-small zero v (omega arith))
varint_groups-enough (suc j) zero v h le = absurd (omega arith)
varint_groups-enough (suc j) (suc k) v h le = elim (dec_lt v 128) [
  | yes one ↦ varint_groups-small (suc k) v one ∙ sym (varint_groups-small (suc j) v one)
  | no more ↦ rw (
    varint_groups-more k v (omega arith),
    varint_groups-more j v (omega arith),
    varint_groups-enough j k (v / 128) (omega (arith, pow-suc 128 (suc j))) (omega arith),
  )
]

varint32-small : (v : ℕ) → v < 128 → Takes pb_decode_varint32 (v ∷ []) v
unfolding pb_decode_varint32
varint32-small v h s rest holds left =
    rw (pb_readbyte-buffer s v rest holds left, low_byte v h) refl

varint32-more :
    (v : ℕ)
    → 128 ≤ v
    → v < u32_mod
    → Takes pb_decode_varint32 ((v % 128 + 128) ∷ varint_groups 3 (v / 128)) v
unfolding pb_decode_varint32
varint32-more v big h s rest holds left =
    rw
      (
        pb_readbyte-buffer s (v % 128 + 128) (varint_groups 3 (v / 128) ++ rest) holds
            (omega arith),
        more_byte v,
        bit_and-ones 7 0x7F (v % 128 + 128) refl,
        same,
      )
      (varint_loop-groups 32 3 5 7 (v % 128) (v / 128) (omega arith) (omega arith) (omega arith)
          (omega arith) (omega arith) (after s 1 (varint_groups 3 (v / 128) ++ rest)) rest
          (record { on_buffer = holds.on_buffer; holds = refl }) (omega arith)
        ∙ rw (sum, sub_suc s.bytes_left (length (varint_groups 3 (v / 128)))) refl)
  where
    same : (v % 128 + 128) % 128 ≡ v % 128
    same = omega arith

    sum : v % 128 + v / 128 * 128 ≡ v
    sum = omega arith

    sub_suc : (a b : ℕ) → a - 1 - b ≡ a - suc b
    sub_suc a b = omega arith

-- For each uint32_t, pb_decode_varint32 on a buffer stream that starts with its varint, which
-- is within bytes_left, gives the value and moves the stream exactly behind the varint.
pub pb_decode_varint32-varint_bytes :
    (v : ℕ) → v < u32_mod → Takes pb_decode_varint32 (varint_bytes v) v
unfolding varint_bytes
pb_decode_varint32-varint_bytes v h = elim (dec_lt v 128) [
  | yes one ↦ rw (varint_groups-small 9 v one) (varint32-small v one)
  | no more ↦
      rw
        (
          varint_groups-more 8 v (omega arith),
          varint_groups-enough 3 8 (v / 128) (omega arith) (omega arith),
        )
        (varint32-more v (omega arith) h)
]
