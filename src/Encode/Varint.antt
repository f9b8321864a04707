-- ===== src/Encode/Varint.antt =====
-- What `pb_encode_varint` writes: seven bits a byte, lowest group first, the top bit set on every
-- byte but the last.
use native.Mathlib.Nat.{pow-suc}
use native.Mathlib.Decide.{dec_lt}
use get_together.Common.{
  ℕ, zero, suc, ◌+◌, ◌/◌, ◌%◌, ◌^◌, ◌≤◌, ◌<◌, ◌≡◌, refl, ap, ◌∙◌, true, false, some, List, [], ◌∷◌,
  sym, length, All, bit_and, bit_or, ltb, le→leb, gt→leb, arith,
}
use get_together.Common.Bits.{bit_and-ones, bit_or-shifted}
use get_together.Pb.{u64_mod}
use get_together.OStream.Emits.{Emits, Emits-pb_write}
use get_together.Encode.{fill_buffer, unset_last, pb_encode_varint}

-- The groups of `v`, at most `k + 1` of them.
unfoldable pub varint_groups : ℕ → ℕ → List ℕ
varint_groups zero v = v ∷ []
varint_groups (suc k) v = elim (ltb v 128) [
  | true ↦ v ∷ []
  | false ↦ (v % 128 + 128) ∷ varint_groups k (v / 128)
]

-- The varint of a uint64_t.
unfoldable pub varint_bytes : ℕ → List ℕ
unfolding varint_groups
varint_bytes v = varint_groups 9 v

group_byte : (v : ℕ) → bit_or (bit_and v 0x7F) 0x80 ≡ v % 128 + 128
group_byte v =
    ap (λ (t : ℕ). bit_or t 0x80) (bit_and-ones 7 0x7F v refl)
    ∙ bit_or-shifted 7 1 (v % 128) (omega arith)

last_byte : (v : ℕ) → bit_and (v % 128 + 128) 0x7F ≡ v % 128
last_byte v = bit_and-ones 7 0x7F (v % 128 + 128) refl ∙ omega arith

pub varint_groups-small : (k v : ℕ) → v < 128 → varint_groups k v ≡ v ∷ []
unfolding varint_groups
varint_groups-small zero v h = refl
varint_groups-small (suc k) v h = ground arith

pub varint_groups-more :
    (k v : ℕ) → 128 ≤ v → varint_groups (suc k) v ≡ (v % 128 + 128) ∷ varint_groups k (v / 128)
unfolding varint_groups
varint_groups-more k v h = ground arith

fill_buffer-zero : (k : ℕ) → fill_buffer k 0 ≡ some []
unfolding fill_buffer
fill_buffer-zero zero = refl
fill_buffer-zero (suc k) = refl

fill_buffer-suc :
    (k v : ℕ) (rest : List ℕ)
    → 0 < v
    → fill_buffer k (v / 128) ≡ some rest
    → fill_buffer (suc k) v ≡ some ((v % 128 + 128) ∷ rest)
unfolding fill_buffer
fill_buffer-suc k v rest h e = ground (arith, group_byte v)

fill_buffer-last : (k v : ℕ) → 0 < v → v < 128 → fill_buffer (suc k) v ≡ some ((v % 128 + 128) ∷ [])
fill_buffer-last k v pos lt =
    fill_buffer-suc k v [] pos (ap (fill_buffer k) small ∙ fill_buffer-zero k)
  where
    small : v / 128 ≡ 0
    small = omega arith

-- The loop stays in its buffer, and what it leaves, with the last top bit cleared, is the varint.
fill_buffer-groups :
    (k v : ℕ)
    → 0 < v
    → v < 128 ^ suc k
    → (c : ℕ) × (rest : List ℕ) × (fill_buffer (suc k) v ≡ some (c ∷ rest))
      × (unset_last (c ∷ rest) ≡ varint_groups k v)
unfolding unset_last
fill_buffer-groups zero v pos lt = (
  v % 128 + 128,
  [],
  fill_buffer-last 0 v pos (omega arith),
  ap (λ (t : ℕ). t ∷ []) (last_byte v ∙ omega arith) ∙ sym (varint_groups-small 0 v (omega arith)),
)
fill_buffer-groups (suc k) v pos lt = elim (dec_lt v 128) [
  | yes one ↦ (
    v % 128 + 128,
    [],
    fill_buffer-last (suc k) v pos one,
    ap (λ (t : ℕ). t ∷ []) (last_byte v ∙ omega arith) ∙ sym (varint_groups-small (suc k) v one),
  )
  | no more ↦
      let (c, rest, filled, unset) =
        fill_buffer-groups k (v / 128) (omega arith) (omega (arith, pow-suc 128 (suc k))) in
      (
        v % 128 + 128,
        c ∷ rest,
        fill_buffer-suc (suc k) v (c ∷ rest) pos filled,
        ap (λ (t : List ℕ). (v % 128 + 128) ∷ t) unset ∙ sym (varint_groups-more k v (omega arith)),
      )
]

-- For each uint64_t, pb_encode_varint stays within its array of ten bytes and emits the varint
-- of the value: seven bits a byte, the lowest first, the top bit set on all bytes but the last.
pub Emits-pb_encode_varint :
    (v : ℕ) → v < u64_mod → Emits (λ s. pb_encode_varint s v) (varint_bytes v)
unfolding pb_encode_varint varint_bytes
Emits-pb_encode_varint v lt = elim (dec_lt v 128) [
  | yes one ↦
      rw (varint_groups-small 9 v one, le→leb v 0x7F (omega arith)) (Emits-pb_write (v ∷ []))
  | no more ↦
      let (c, rest, filled, unset) = fill_buffer-groups 9 v (omega arith) (omega arith) in
      rw (gt→leb v 0x7F (omega arith), filled, ← unset) (Emits-pb_write (unset_last (c ∷ rest)))
]

-- A varint has 1 to k + 1 groups, each a byte.
pub varint_groups-shape :
    (k v : ℕ)
    → v < 128 ^ suc k
    → All (λ b. b < 256) (varint_groups k v)
      × (1 ≤ length (varint_groups k v))
      × (length (varint_groups k v) ≤ k + 1)
unfolding varint_groups
varint_groups-shape zero v h = omega arith
varint_groups-shape (suc k) v h =
    ground (arith, varint_groups-shape k (v / 128) (omega (arith, pow-suc 128 (suc k))))

pub varint_bytes-shape :
    (v : ℕ)
    → v < u64_mod
    → All (λ b. b < 256) (varint_bytes v)
      × (1 ≤ length (varint_bytes v))
      × (length (varint_bytes v) ≤ 10)
unfolding varint_bytes
varint_bytes-shape v h = varint_groups-shape 9 v (omega arith)
