-- ===== src/Trip/Cells.antt =====
-- Values that are copied from one memory to another.
use native.Mathlib.Nat.{add-zero}
use native.Mathlib.Decide.{dec_lt}
use get_together.Common.{ℕ, zero, suc, ◌+◌, ◌-◌, ◌/◌, ◌%◌, ◌≤◌, ◌<◌, ◌≡◌, sym, ap, ◌∙◌, inl, arith}
use get_together.Memory.{Memory, IsMemory, load, load_bytes, length-load_bytes}
use get_together.Decode.Fields.{put, clear, store, store_bytes}
use get_together.Decode.Fields.Within.{
  Frame, Outside, store-Outside, clear-Outside, store_bytes-Outside,
}

-- The `n` bytes at `q` are the `n` bytes at `p` of another memory.
abbrev pub SameBytes : Memory → ℕ → Memory → ℕ → ℕ → Type 0
SameBytes mem p mem' q n = (i : ℕ) → i < n → mem' (q + i) ≡ mem (p + i)

pub put-same : (mem : Memory) (a b : ℕ) → put mem a b a ≡ b
unfolding put
put-same mem a b = ground arith

module _ (mem : Memory) (cells : IsMemory mem) where
  load-head : (p n : ℕ) → load mem p (suc n) % 256 ≡ mem p
  unfolding load
  load-head p n = omega (arith, cells p)

  load-tail : (p n : ℕ) → load mem p (suc n) / 256 ≡ load mem (p + 1) n
  unfolding load
  load-tail p n = omega (arith, cells p)

  -- An integer that is loaded and stored.
  pub store-SameBytes :
      (n p q : ℕ) (mem' : Memory) → SameBytes mem p (store mem' q n (load mem p n)) q n
  unfolding store
  store-SameBytes zero p q mem' i lt = absurd (omega arith)
  store-SameBytes (suc n) p q mem' zero lt =
      ap (store (put mem' q (load mem p (suc n) % 256)) (q + 1) n (load mem p (suc n) / 256))
        (add-zero q)
      ∙ store-Outside (put mem' q (load mem p (suc n) % 256)) (q + 1) n (load mem p (suc n) / 256) q
          (inl (omega arith))
      ∙ put-same mem' q (load mem p (suc n) % 256)
      ∙ load-head p n
      ∙ ap mem (sym (add-zero p))
  store-SameBytes (suc n) p q mem' (suc i) lt =
      ap (λ (t : ℕ). store (put mem' q (load mem p (suc n) % 256)) (q + 1) n t (q + suc i))
        (load-tail p n)
      ∙ ap (store (put mem' q (load mem p (suc n) % 256)) (q + 1) n (load mem (p + 1) n))
          (omega arith)
      ∙ store-SameBytes n (p + 1) (q + 1) (put mem' q (load mem p (suc n) % 256)) i (omega arith)
      ∙ ap mem (omega arith)

-- Bytes that are cleared.
pub clear_zero : (n q : ℕ) (mem : Memory) (i : ℕ) → i < n → clear mem q n (q + i) ≡ 0
unfolding clear
clear_zero zero q mem i lt = absurd (omega arith)
clear_zero (suc n) q mem zero lt =
    ap (clear (put mem q 0) (q + 1) n) (add-zero q)
    ∙ clear-Outside (put mem q 0) (q + 1) n q (inl (omega arith))
    ∙ put-same mem q 0
clear_zero (suc n) q mem (suc i) lt =
    ap (clear (put mem q 0) (q + 1) n) (omega arith)
    ∙ clear_zero n (q + 1) (put mem q 0) i (omega arith)

-- Bytes that are read and stored.
pub store_bytes-SameBytes :
    (mem : Memory) (n p q : ℕ) (mem' : Memory)
    → SameBytes mem p (store_bytes mem' q (load_bytes mem p n)) q n
unfolding store_bytes load_bytes
store_bytes-SameBytes mem zero p q mem' i lt = absurd (omega arith)
store_bytes-SameBytes mem (suc n) p q mem' zero lt =
    ap (store_bytes (put mem' q (mem p)) (q + 1) (load_bytes mem (p + 1) n)) (add-zero q)
    ∙ store_bytes-Outside (put mem' q (mem p)) (q + 1) n q (load_bytes mem (p + 1) n)
        (omega (arith, length-load_bytes mem (p + 1) n)) (inl (omega arith))
    ∙ put-same mem' q (mem p)
    ∙ ap mem (sym (add-zero p))
store_bytes-SameBytes mem (suc n) p q mem' (suc i) lt =
    ap (store_bytes (put mem' q (mem p)) (q + 1) (load_bytes mem (p + 1) n)) (omega arith)
    ∙ store_bytes-SameBytes mem n (p + 1) (q + 1) (put mem' q (mem p)) i (omega arith)
    ∙ ap mem (omega arith)

-- What is outside of the bytes that a step changes stays the same.
pub Frame-SameBytes :
    (mem mem' mem'' : Memory) (p q n a m : ℕ)
    → Frame mem' a m mem''
    → ((i : ℕ) → i < n → Outside a m (q + i))
    → SameBytes mem p mem' q n
    → SameBytes mem p mem'' q n
Frame-SameBytes mem mem' mem'' p q n a m same apart h i lt = same (q + i) (apart i lt) ∙ h i lt

-- One run of bytes behind another.
pub SameBytes-join :
    (mem mem' : Memory) (p q a b : ℕ)
    → SameBytes mem p mem' q a
    → SameBytes mem (p + a) mem' (q + a) b
    → SameBytes mem p mem' q (a + b)
SameBytes-join mem mem' p q a b front back i lt = elim (dec_lt i a) [
  | yes h ↦ front i h
  | no h ↦
      ap mem' (over q (omega arith))
      ∙ back (i - a) (omega arith)
      ∙ ap mem (sym (over p (omega arith)))
]
  where
    over : (x : ℕ) → a ≤ i → x + i ≡ x + a + (i - a)
    over x h = omega arith
