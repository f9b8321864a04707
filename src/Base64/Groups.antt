-- ===== src/Base64/Groups.antt =====
-- How f_b64_pton reads a group of characters.
use native.Mathlib.Nat.{mod-eq_of_lt}
use get_together.Common.{
  ℕ, ◌+◌, ◌*◌, ◌/◌, ◌%◌, ◌^◌, ◌≤◌, ◌<◌, ◌≡◌, ◌≢◌, refl, ap, ◌∙◌, false, some, List, ◌∷◌, ◌++◌,
  bit_and, bit_or, gt→leb, ◌==◌, arith, inl,
}
use get_together.Pb.{u32_mod}
use get_together.Memory.{Memory}
use get_together.Decode.Fields.{put}
use get_together.Decode.Fields.Within.{Frame, put-other}
use get_together.Base64.{
  char_at, output_0, output_1, output_2, output_3, three_chars, State, state_0, state_1, state_2,
  state_3, next_state, next_index, store_bits, store_char, pton_char, pton_next, pton_loop,
}
use get_together.Base64.Characters.{char_at-strchr, output-lt, first_byte, second_byte, third_byte}

put-same : (mem : Memory) (a b : ℕ) → put mem a b a ≡ b
unfolding put
put-same mem a b = ground arith

-- The place `target` has room for `targsize` bytes.
module _ (target targsize : ℕ) (not_null : target ≢ 0) (small : targsize ≤ u32_mod) where
  some_target : (target == 0) ≡ false
  some_target = ground arith

  pton_loop-char :
      (x : ℕ) (state : State) (i : ℕ) (mem mem' : Memory) (src : List ℕ)
      → x < 64
      → store_bits state target targsize i x mem ≡ some mem'
      → pton_loop (char_at x ∷ src) target targsize state i mem
        ≡ pton_loop src target targsize (next_state state) (next_index state i) mem'
  unfolding pton_loop pton_char pton_next store_char
  pton_loop-char x state i mem mem' src lt eq =
      let (no_space, no_pad, found) = char_at-strchr x lt in
      rw (no_space, no_pad, found, some_target, eq) refl

  -- Memory after the character `x` in each state.
  abbrev after_0 : ℕ → ℕ → Memory → Memory
  after_0 i x mem = put mem (target + i) (x * 2 ^ 2 % 256)

  abbrev after_1 : ℕ → ℕ → Memory → Memory
  after_1 i x mem =
      put (put mem (target + i) (bit_or (mem (target + i)) (x / 2 ^ 4) % 256)) (target + (i + 1))
        (bit_and x 0x0f * 2 ^ 4 % 256)

  abbrev after_2 : ℕ → ℕ → Memory → Memory
  after_2 i x mem =
      put (put mem (target + i) (bit_or (mem (target + i)) (x / 2 ^ 2) % 256)) (target + (i + 1))
        (bit_and x 0x03 * 2 ^ 6 % 256)

  abbrev after_3 : ℕ → ℕ → Memory → Memory
  after_3 i x mem = put mem (target + i) (bit_or (mem (target + i)) x % 256)

  read_0 :
      (i x : ℕ) (mem : Memory) (src : List ℕ)
      → x < 64
      → i < targsize
      → pton_loop (char_at x ∷ src) target targsize state_0 i mem
        ≡ pton_loop src target targsize state_1 i (after_0 i x mem)
  read_0 i x mem src lt room =
      pton_loop-char x state_0 i mem _ src lt
        (unfold store_bits in rw (gt→leb targsize i room) refl)

  read_1 :
      (i x : ℕ) (mem : Memory) (src : List ℕ)
      → x < 64
      → i + 1 < targsize
      → pton_loop (char_at x ∷ src) target targsize state_1 i mem
        ≡ pton_loop src target targsize state_2 (i + 1) (after_1 i x mem)
  unfolding store_bits
  read_1 i x mem src lt room =
      let whole : (i + 1) % u32_mod ≡ i + 1 = mod-eq_of_lt (omega arith) in
      pton_loop-char x state_1 i mem (after_1 i x mem) src lt
        (rw (whole, gt→leb targsize (i + 1) room) refl)
      ∙ ap (λ j. pton_loop src target targsize state_2 j (after_1 i x mem)) whole

  read_2 :
      (i x : ℕ) (mem : Memory) (src : List ℕ)
      → x < 64
      → i + 1 < targsize
      → pton_loop (char_at x ∷ src) target targsize state_2 i mem
        ≡ pton_loop src target targsize state_3 (i + 1) (after_2 i x mem)
  unfolding store_bits
  read_2 i x mem src lt room =
      let whole : (i + 1) % u32_mod ≡ i + 1 = mod-eq_of_lt (omega arith) in
      pton_loop-char x state_2 i mem (after_2 i x mem) src lt
        (rw (whole, gt→leb targsize (i + 1) room) refl)
      ∙ ap (λ j. pton_loop src target targsize state_3 j (after_2 i x mem)) whole

  read_3 :
      (i x : ℕ) (mem : Memory) (src : List ℕ)
      → x < 64
      → i + 1 < targsize
      → pton_loop (char_at x ∷ src) target targsize state_3 i mem
        ≡ pton_loop src target targsize state_0 (i + 1) (after_3 i x mem)
  unfolding store_bits
  read_3 i x mem src lt room =
      let whole : (i + 1) % u32_mod ≡ i + 1 = mod-eq_of_lt (omega arith) in
      pton_loop-char x state_3 i mem (after_3 i x mem) src lt
        (rw (gt→leb targsize i (omega arith)) refl)
      ∙ ap (λ j. pton_loop src target targsize state_0 j (after_3 i x mem)) whole

  -- A byte and the bits behind it, at `i`, and memory as it was elsewhere.
  put_two :
      (mem : Memory) (i u v : ℕ)
      → (put (put mem (target + i) u) (target + (i + 1)) v (target + i) ≡ u)
        × (put (put mem (target + i) u) (target + (i + 1)) v (target + (i + 1)) ≡ v)
        × Frame mem (target + i) 2 (put (put mem (target + i) u) (target + (i + 1)) v)
  put_two mem i u v = (
    put-other (put mem (target + i) u) (target + (i + 1)) v (target + i) (omega arith)
        ∙ put-same mem (target + i) u,
    put-same (put mem (target + i) u) (target + (i + 1)) v,
    λ x o.
        put-other (put mem (target + i) u) (target + (i + 1)) v x (λ e. ground arith)
        ∙ put-other mem (target + i) u x (λ e. ground arith),
  )

  -- Memory behind the first two characters of a group, behind three, and behind four.
  abbrev pub two_read : ℕ → ℕ → ℕ → Memory → Memory
  two_read a b i mem = after_1 i (output_1 a b) (after_0 i (output_0 a) mem)

  abbrev pub three_read : ℕ → ℕ → ℕ → ℕ → Memory → Memory
  three_read a b c i mem = after_2 (i + 1) (output_2 b c) (two_read a b i mem)

  abbrev pub four_read : ℕ → ℕ → ℕ → ℕ → Memory → Memory
  four_read a b c i mem = after_3 (i + 1 + 1) (output_3 c) (three_read a b c i mem)

  module _ (a b c : ℕ) (a_byte : a < 256) (b_byte : b < 256) (c_byte : c < 256) (i : ℕ)
      (mem : Memory) where
    pub two_read-bytes :
        (two_read a b i mem (target + i) ≡ a)
        × (two_read a b i mem (target + (i + 1)) ≡ bit_and (output_1 a b) 0x0f * 2 ^ 4 % 256)
        × Frame mem (target + i) 2 (two_read a b i mem)
    two_read-bytes =
        let before : Memory = after_0 i (output_0 a) mem in
        let (here, behind, same) = put_two before i _ _ in
        (
          here
              ∙ ap (λ (v : ℕ). bit_or v (output_1 a b / 2 ^ 4) % 256) (put-same mem (target + i) _)
              ∙ first_byte a b c a_byte b_byte c_byte,
          behind,
          λ x o. same x o ∙ put-other mem (target + i) _ x (λ e. ground arith),
        )

    pub three_read-bytes :
        (three_read a b c i mem (target + i) ≡ a)
        × (three_read a b c i mem (target + (i + 1)) ≡ b)
        × (three_read a b c i mem (target + (i + 1 + 1))
            ≡ bit_and (output_2 b c) 0x03 * 2 ^ 6 % 256)
        × Frame mem (target + i) 3 (three_read a b c i mem)
    three_read-bytes =
        let (first, second, frame) = two_read-bytes in
        let (here, behind, same) = put_two (two_read a b i mem) (i + 1) _ _ in
        (
          same (target + i) (inl (omega arith)) ∙ first,
          here
              ∙ ap (λ (v : ℕ). bit_or v (output_2 b c / 2 ^ 2) % 256) second
              ∙ second_byte a b c a_byte b_byte c_byte,
          behind,
          λ x o. same x (ground arith) ∙ frame x (ground arith),
        )

    pub four_read-bytes :
        (four_read a b c i mem (target + i) ≡ a)
        × (four_read a b c i mem (target + (i + 1)) ≡ b)
        × (four_read a b c i mem (target + (i + 1 + 1)) ≡ c)
        × Frame mem (target + i) 3 (four_read a b c i mem)
    four_read-bytes =
        let (first, second, third, frame) = three_read-bytes in
        let before : Memory = three_read a b c i mem in
        (
          put-other before (target + (i + 1 + 1)) _ (target + i) (omega arith) ∙ first,
          put-other before (target + (i + 1 + 1)) _ (target + (i + 1)) (omega arith) ∙ second,
          put-same before (target + (i + 1 + 1)) _
              ∙ ap (λ (v : ℕ). bit_or v (output_3 c) % 256) third
              ∙ third_byte a b c a_byte b_byte c_byte,
          λ x o. put-other before (target + (i + 1 + 1)) _ x (λ e. ground arith) ∙ frame x o,
        )

    pub read_two :
        (src : List ℕ)
        → i + 1 < targsize
        → pton_loop
            (char_at (output_0 a) ∷ char_at (output_1 a b) ∷ src)
            target
            targsize
            state_0
            i
            mem
          ≡ pton_loop src target targsize state_2 (i + 1) (two_read a b i mem)
    read_two src room =
        let (lt_0, lt_1, lt_2, lt_3) = output-lt a b c a_byte b_byte c_byte in
        read_0 i (output_0 a) mem _ lt_0 (omega arith) ∙ read_1 i (output_1 a b) _ src lt_1 room

    pub read_three :
        (src : List ℕ)
        → i + 1 + 1 < targsize
        → pton_loop
            (char_at (output_0 a) ∷ char_at (output_1 a b) ∷ char_at (output_2 b c) ∷ src)
            target
            targsize
            state_0
            i
            mem
          ≡ pton_loop src target targsize state_3 (i + 1 + 1) (three_read a b c i mem)
    read_three src room =
        let (lt_0, lt_1, lt_2, lt_3) = output-lt a b c a_byte b_byte c_byte in
        read_two _ (omega arith) ∙ read_2 (i + 1) (output_2 b c) _ src lt_2 room

    pub read_four :
        (src : List ℕ)
        → i + 1 + 1 + 1 < targsize
        → pton_loop (three_chars a b c ++ src) target targsize state_0 i mem
          ≡ pton_loop src target targsize state_0 (i + 1 + 1 + 1) (four_read a b c i mem)
    unfolding three_chars
    read_four src room =
        let (lt_0, lt_1, lt_2, lt_3) = output-lt a b c a_byte b_byte c_byte in
        read_three _ (omega arith) ∙ read_3 (i + 1 + 1) (output_3 c) _ src lt_3 room
