-- ===== src/Examples/Base64.antt =====
-- The theorems of base64 at concrete texts.
use get_together.Common.{
  ℕ, ◌+◌, ◌*◌, ◌/◌, ◌%◌, ◌≤◌, ◌≡◌, refl, List, [], ◌∷◌, ◌++◌, length, inl, arith,
}
use get_together.Pb.{u32_mod}
use get_together.Memory.{Memory, load_bytes}
use get_together.Decode.Fields.Within.{Frame}
use get_together.Base64.{
  char_at, f_b64_ntop, three_chars, padded, one_char, terminated, ntop_loop, output_0, output_1,
  output_2, output_3, f_b64_pton,
}
use get_together.Base64.RoundTrip.{f_b64_ntop-f_b64_pton}
use get_together.Base64.Written.{f_b64_ntop-FitsIn}
use get_together.Base64.Bounds.{f_b64_pton-StaysIn}

-- "Many"
abbrev many : List ℕ
many = 77 ∷ 97 ∷ 110 ∷ 121 ∷ []

abbrev mem : Memory
mem = λ a. 7

-- "TWFueQ=="
many_text :
    f_b64_ntop many 9
    ≡ record { answer = 8; target = 84 ∷ 87 ∷ 70 ∷ 117 ∷ 101 ∷ 81 ∷ 61 ∷ 61 ∷ 0 ∷ [] }
unfolding f_b64_ntop ntop_loop three_chars one_char padded terminated char_at output_0 output_1
    output_2 output_3
many_text = refl

f_b64_ntop-f_b64_pton_example :
    (text : List ℕ) × (mem' : Memory) × (f_b64_ntop many 9
      ≡ record { answer = (4 + 2) / 3 * 4 % u32_mod; target = text ++ 0 ∷ [] })
    × (f_b64_pton text 1000 5 mem ≡ record { answer = 4; mem = mem' })
    × (load_bytes mem' 1000 4 ≡ many)
    × Frame mem 1000 5 mem'
f_b64_ntop-f_b64_pton_example =
    f_b64_ntop-f_b64_pton many 9 1000 5 mem
      (omega arith, (omega arith, (omega arith, (omega arith, tt)))) (omega arith) (omega arith)
      (omega arith) (omega arith) (omega arith)

f_b64_ntop-FitsIn_example : length (f_b64_ntop many 6).target ≤ 6
f_b64_ntop-FitsIn_example = f_b64_ntop-FitsIn many 6 (omega arith)

-- A text that is too long for the target.
f_b64_pton-StaysIn_example : (f_b64_pton (84 ∷ 87 ∷ 70 ∷ 117 ∷ []) 1000 2 mem).mem 999 ≡ 7
f_b64_pton-StaysIn_example =
    f_b64_pton-StaysIn (84 ∷ 87 ∷ 70 ∷ 117 ∷ []) 1000 2 mem (omega arith) (omega arith) 999
      (inl (omega arith))
