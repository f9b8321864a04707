-- ===== src/Base64/RoundTrip.antt =====
-- What f_b64_ntop writes, f_b64_pton reads back.
use get_together.Common.{
  ℕ, suc, ◌+◌, ◌*◌, ◌/◌, ◌%◌, ◌^◌, ◌≤◌, ◌<◌, ◌≡◌, ◌≢◌, refl, ap, ◌∙◌, Bool, true, false, not, ◌&&◌,
  List, [], ◌∷◌, ◌++◌, length, All, bit_and, ◌==◌, if◌then◌else◌, arith, inl,
}
use get_together.Common.Bits.{bit_and-ones}
use get_together.Pb.{u32_mod, size_mod}
use get_together.Memory.{Memory, load_bytes}
use get_together.Decode.Fields.Within.{Frame}
use get_together.Base64.{
  Parsed, refused, output_1, output_2, two_chars, one_char, f_b64_ntop, state_0, state_2, state_3,
  pton_char, skip_spaces, only_spaces, last_pad, second_pad, pton_pad, pton_end, pton_next,
  pton_loop, f_b64_pton, pad64,
}
use get_together.Base64.Text.{base64, length-base64, ntop_loop-base64}
use get_together.Base64.Groups.{
  two_read, three_read, four_read, two_read-bytes, three_read-bytes, four_read-bytes, read_two,
  read_three, read_four,
}

load_cons :
    (mem : Memory) (p n b : ℕ) (bs : List ℕ)
    → mem p ≡ b
    → load_bytes mem (p + 1) n ≡ bs
    → load_bytes mem p (suc n) ≡ b ∷ bs
unfolding load_bytes
load_cons mem p n b bs e h = rw (e, h) refl

-- The end of the text, `=` or `==`, behind bytes whose extra bits are zeros.
pad_one :
    (target targsize i : ℕ) (mem : Memory)
    → mem (target + i) ≡ 0
    → pton_loop (pad64 ∷ []) target targsize state_3 i mem ≡ record { answer = i; mem = mem }
unfolding pton_loop pton_char pton_next pton_pad last_pad only_spaces
pad_one target targsize i mem zeros = rw zeros (no_bits (not (target == 0)))
  where
    no_bits :
        (b : Bool)
        → (if b && false then refused mem else record { answer = i; mem = mem })
          ≡ record { answer = i; mem = mem }
    no_bits true = refl
    no_bits false = refl

pad_two :
    (target targsize i : ℕ) (mem : Memory)
    → mem (target + i) ≡ 0
    → pton_loop (pad64 ∷ pad64 ∷ []) target targsize state_2 i mem
      ≡ record { answer = i; mem = mem }
unfolding pton_loop pton_char pton_next pton_pad second_pad skip_spaces
pad_two target targsize i mem zeros = pad_one target targsize i mem zeros

same_answer :
    (i j : ℕ) (mem : Memory)
    → i ≡ j
    → ◌≡◌ {A = Parsed} (record { answer = i; mem = mem }) (record { answer = j; mem = mem })
same_answer i j mem e = ap (λ (j : ℕ). record { answer = j; mem = mem }) e

nothing_read :
    (target targsize i : ℕ) (mem : Memory)
    → pton_loop [] target targsize state_0 i mem ≡ record { answer = i + 0; mem = mem }
unfolding pton_loop pton_end
nothing_read target targsize i mem = same_answer i (i + 0) mem (omega arith)

-- The bits of the last character that belong to no byte.
one_extra : (a : ℕ) → bit_and (output_1 a 0) 0x0f * 2 ^ 4 % 256 ≡ 0
unfolding output_1
one_extra a = omega (arith, bit_and-ones 4 15 (output_1 a 0) refl, bit_and-ones 2 3 a refl)

two_extra : (b : ℕ) → bit_and (output_2 b 0) 0x03 * 2 ^ 6 % 256 ≡ 0
unfolding output_2
two_extra b = omega (arith, bit_and-ones 2 3 (output_2 b 0) refl, bit_and-ones 4 15 b refl)

module _ (target targsize : ℕ) (not_null : target ≢ 0) (small : targsize ≤ u32_mod) where
  -- What reading the text of `bs` gives, from index `i` on.
  abbrev ReadsText : ℕ → Memory → List ℕ → Type 0
  ReadsText i mem bs =
      (mem' : Memory) × (pton_loop (base64 bs) target targsize state_0 i mem
        ≡ record { answer = i + length bs; mem = mem' })
      × (load_bytes mem' (target + i) (length bs) ≡ bs)
      × Frame mem (target + i) (length bs + 1) mem'

  next_byte : (mem' : Memory) (i b : ℕ) → mem' (target + (i + 1)) ≡ b → mem' (target + i + 1) ≡ b
  next_byte mem' i b e = ap mem' (omega arith) ∙ e

  read_base64 :
      (bs : List ℕ) (i : ℕ) (mem : Memory)
      → All (λ b. b < 256) bs
      → i + length bs < targsize
      → ReadsText i mem bs
  unfolding base64
  read_base64 [] i mem bytes room =
      (mem, nothing_read target targsize i mem, unfold load_bytes in refl, λ x o. refl)
  read_base64 (a ∷ []) i mem (a_byte, bytes) room =
      let zero_byte : 0 < 256 = omega arith in
      let (first, behind, frame) =
        two_read-bytes target targsize not_null small a 0 0 a_byte zero_byte zero_byte i mem in
      (
        two_read target targsize not_null small a 0 i mem,
        unfold one_char in
            read_two target targsize not_null small a 0 0 a_byte zero_byte zero_byte i mem
              (pad64 ∷ pad64 ∷ []) room
            ∙ pad_two target targsize (i + 1) _ (behind ∙ one_extra a),
        load_cons _ (target + i) 0 a [] first (unfold load_bytes in refl),
        frame,
      )
  read_base64 (a ∷ b ∷ []) i mem (a_byte, (b_byte, bytes)) room =
      let zero_byte : 0 < 256 = omega arith in
      let (first, second, behind, frame) =
        three_read-bytes target targsize not_null small a b 0 a_byte b_byte zero_byte i mem in
      let mem' : Memory = three_read target targsize not_null small a b 0 i mem in
      (
        mem',
        unfold two_chars in
            read_three target targsize not_null small a b 0 a_byte b_byte zero_byte i mem
              (pad64 ∷ []) (omega arith)
            ∙ pad_one target targsize (i + 1 + 1) mem' (behind ∙ two_extra b)
            ∙ same_answer (i + 1 + 1) (i + 2) mem' (omega arith),
        load_cons mem' (target + i) 1 a (b ∷ []) first (
            load_cons mem' (target + i + 1) 0 b [] (next_byte mem' i b second)
              (unfold load_bytes in refl)),
        frame,
      )
  read_base64 (a ∷ b ∷ c ∷ bs) i mem (a_byte, (b_byte, (c_byte, bytes))) room =
      let (first, second, third, frame) =
        four_read-bytes target targsize not_null small a b c a_byte b_byte c_byte i mem in
      let (mem', eq, loaded, same) =
        read_base64 bs (i + 1 + 1 + 1) (four_read target targsize not_null small a b c i mem) bytes
          (omega arith) in
      (
        mem',
        read_four target targsize not_null small a b c a_byte b_byte c_byte i mem (base64 bs)
              (omega arith)
            ∙ eq
            ∙ same_answer (i + 1 + 1 + 1 + length bs) (i + suc (suc (suc (length bs)))) mem'
                (omega arith),
        load_cons mem' (target + i) _ a _ (same (target + i) (inl (omega arith)) ∙ first) (
            load_cons mem' (target + i + 1) _ b _
              (next_byte mem' i b (same (target + (i + 1)) (inl (omega arith)) ∙ second))
              (load_cons mem' (target + i + 1 + 1) _ c bs
                (ap mem' (omega arith) ∙ same (target + (i + 1 + 1)) (inl (omega arith)) ∙ third)
                (ap (λ (p : ℕ). load_bytes mem' p (length bs)) (omega arith) ∙ loaded))),
        λ x o. same x (ground arith) ∙ frame x (ground arith),
      )

-- For bytes `bs`, a buffer of `room` characters, below 2^64, with room for the text and its
-- end, and a target, not NULL, of `targsize` bytes, more than those of `bs` and at most 2^32:
-- f_b64_ntop returns the length of the text, four for every three bytes begun, as an int, and
-- stores the text and a 0; f_b64_pton on the text returns the number of bytes, the target holds
-- `bs`, and no byte of memory outside of the target has changed.
pub f_b64_ntop-f_b64_pton :
    (bs : List ℕ) (room target targsize : ℕ) (mem : Memory)
    → All (λ b. b < 256) bs
    → (length bs + 2) / 3 * 4 < room
    → room < size_mod
    → target ≢ 0
    → length bs < targsize
    → targsize ≤ u32_mod
    → (text : List ℕ) × (mem' : Memory) × (f_b64_ntop bs room
        ≡ record { answer = (length bs + 2) / 3 * 4 % u32_mod; target = text ++ 0 ∷ [] })
      × (f_b64_pton text target targsize mem ≡ record { answer = length bs; mem = mem' })
      × (load_bytes mem' target (length bs) ≡ bs)
      × Frame mem target targsize mem'
unfolding f_b64_ntop f_b64_pton
f_b64_ntop-f_b64_pton bs room target targsize mem bytes enough whole not_null holds small =
    let (mem', eq, loaded, same) =
      read_base64 target targsize not_null small bs 0 mem bytes (omega arith) in
    (
      base64 bs,
      mem',
      ntop_loop-base64 bs room [] whole (omega (arith, length-base64 bs))
          ∙ ap (λ (n : ℕ). record { answer = n % u32_mod; target = base64 bs ++ 0 ∷ [] })
              (length-base64 bs),
      eq ∙ same_answer (0 + length bs) (length bs) mem' (omega arith),
      ap (λ (p : ℕ). load_bytes mem' p (length bs)) (omega arith) ∙ loaded,
      λ x o. same x (ground arith),
    )
