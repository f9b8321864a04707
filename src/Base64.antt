-- ===== src/Base64.antt =====
-- Pods/FirebaseDatabase/Firebase/Database/third_party/SocketRocket/fbase64.c: base64.
pub mod Text
pub mod Characters
pub mod Groups
pub mod RoundTrip
pub mod Written
pub mod Bounds
use get_together.Common.{
  ℕ, ◌+◌, ◌*◌, ◌/◌, ◌%◌, ◌^◌, Bool, true, false, not, ◌&&◌, ◌||◌, Option, none, some, case_option,
  List, [], ◌∷◌, ◌++◌, length, get_or, bit_and, bit_or, ltb, leb, ◌==◌, if◌then◌else◌,
}
use get_together.Pb.{u32_mod, size_mod}
use get_together.Memory.{Memory}
use get_together.Decode.Fields.{put}

-- Base64: the letters, large and small, the digits, `+` and `/`.
abbrev pub alphabet : List ℕ
alphabet =
    65 ∷ 66 ∷ 67 ∷ 68 ∷ 69 ∷ 70 ∷ 71 ∷ 72 ∷ 73 ∷ 74 ∷ 75 ∷ 76 ∷ 77 ∷ 78 ∷ 79 ∷ 80 ∷ 81 ∷ 82 ∷ 83
    ∷ 84 ∷ 85 ∷ 86 ∷ 87 ∷ 88 ∷ 89 ∷ 90 ∷ 97 ∷ 98 ∷ 99 ∷ 100 ∷ 101 ∷ 102 ∷ 103 ∷ 104 ∷ 105 ∷ 106
    ∷ 107 ∷ 108 ∷ 109 ∷ 110 ∷ 111 ∷ 112 ∷ 113 ∷ 114 ∷ 115 ∷ 116 ∷ 117 ∷ 118 ∷ 119 ∷ 120 ∷ 121 ∷ 122
    ∷ 48 ∷ 49 ∷ 50 ∷ 51 ∷ 52 ∷ 53 ∷ 54 ∷ 55 ∷ 56 ∷ 57 ∷ 43 ∷ 47 ∷ []

-- `Base64[n]`; behind the characters stands the end of the string.
unfoldable pub char_at : ℕ → ℕ
char_at n = get_or alphabet n 0

abbrev pub pad64 : ℕ
pad64 = 61

-- -1 as an int, which is its residue modulo 2^32.
abbrev pub minus_one : ℕ
minus_one = 0xffff_ffff

-- The answer of f_b64_ntop, and the characters that it has stored at `target`.
pub record Encoded : Type 0 where
  pub answer : ℕ
  pub target : List ℕ

-- The four values of `output`.
unfoldable pub output_0 : ℕ → ℕ
output_0 a = a / 2 ^ 2

unfoldable pub output_1 : ℕ → ℕ → ℕ
output_1 a b = (bit_and a 0x03 * 2 ^ 4 + b / 2 ^ 4) % 256

unfoldable pub output_2 : ℕ → ℕ → ℕ
output_2 b c = (bit_and b 0x0f * 2 ^ 2 + c / 2 ^ 6) % 256

unfoldable pub output_3 : ℕ → ℕ
output_3 c = bit_and c 0x3f

-- The characters of three bytes, of two, and of one.
unfoldable pub three_chars : ℕ → ℕ → ℕ → List ℕ
three_chars a b c =
    char_at (output_0 a)
    ∷ char_at (output_1 a b)
    ∷ char_at (output_2 b c)
    ∷ char_at (output_3 c)
    ∷ []

unfoldable pub two_chars : ℕ → ℕ → List ℕ
two_chars a b = char_at (output_0 a) ∷ char_at (output_1 a b) ∷ char_at (output_2 b 0) ∷ pad64 ∷ []

unfoldable pub one_char : ℕ → List ℕ
one_char a = char_at (output_0 a) ∷ char_at (output_1 a 0) ∷ pad64 ∷ pad64 ∷ []

-- `datalength + 4 > targsize`, the sum in a size_t.
abbrev pub too_long : ℕ → List ℕ → Bool
too_long targsize target = ltb targsize ((length target + 4) % size_mod)

-- The end of f_b64_ntop.
unfoldable pub terminated : ℕ → List ℕ → Encoded
terminated targsize target =
    if leb targsize (length target)
    then record { answer = minus_one; target = target }
    else record { answer = length target % u32_mod; target = target ++ 0 ∷ [] }

-- What is left behind the groups of three bytes.
unfoldable pub padded : ℕ → List ℕ → List ℕ → Encoded
padded targsize target chars =
    if too_long targsize target
    then record { answer = minus_one; target = target }
    else terminated targsize (target ++ chars)

-- The loop of f_b64_ntop and what follows it, `target` what has been stored.
unfoldable pub ntop_loop : List ℕ → ℕ → List ℕ → Encoded
ntop_loop [] targsize target = terminated targsize target
ntop_loop (a ∷ []) targsize target = padded targsize target (one_char a)
ntop_loop (a ∷ b ∷ []) targsize target = padded targsize target (two_chars a b)
ntop_loop (a ∷ b ∷ c ∷ src) targsize target =
    let rest = ntop_loop src targsize (target ++ three_chars a b c) in
    if too_long targsize target then record { answer = minus_one; target = target } else rest

-- The `srclength` bytes at `src` are the list.
unfoldable pub f_b64_ntop : List ℕ → ℕ → Encoded
f_b64_ntop src targsize = ntop_loop src targsize []

-- isspace, in the C locale.
abbrev pub isspace : ℕ → Bool
isspace ch = (leb 9 ch && leb ch 13) || ch == 32

-- strchr, as an index.
unfoldable pub strchr : List ℕ → ℕ → Option ℕ
strchr [] ch = none
strchr (c ∷ cs) ch =
    let rest = strchr cs ch in if c == ch then some 0 else case_option rest none λ i. some (i + 1)

-- `state`
pub data State : Type 0 where
  state_0 : State
  state_1 : State
  state_2 : State
  state_3 : State

abbrev pub next_state : State → State
next_state state_0 = state_1
next_state state_1 = state_2
next_state state_2 = state_3
next_state state_3 = state_0

abbrev pub next_index : State → ℕ → ℕ
next_index state_0 i = i
next_index _ i = (i + 1) % u32_mod

-- The answer of f_b64_pton, and memory behind it.
pub record Parsed : Type 0 where
  pub answer : ℕ
  pub mem : Memory

abbrev pub refused : Memory → Parsed
refused mem = record { answer = minus_one; mem = mem }

-- The switch in the loop, for a `target` that is not NULL; `x` is `pos - Base64`, and `none` means
-- that there is no room. The sum `tarindex + 1` is a u_int.
unfoldable pub store_bits : State → ℕ → ℕ → ℕ → ℕ → Memory → Option Memory
store_bits state_0 target targsize i x mem =
    if leb targsize i then none else some (put mem (target + i) (x * 2 ^ 2 % 256))
store_bits state_1 target targsize i x mem =
    let j : ℕ = (i + 1) % u32_mod in
    if leb targsize j
    then none
    else some (
        put (put mem (target + i) (bit_or (mem (target + i)) (x / 2 ^ 4) % 256)) (target + j)
          (bit_and x 0x0f * 2 ^ 4 % 256))
store_bits state_2 target targsize i x mem =
    let j : ℕ = (i + 1) % u32_mod in
    if leb targsize j
    then none
    else some (
        put (put mem (target + i) (bit_or (mem (target + i)) (x / 2 ^ 2) % 256)) (target + j)
          (bit_and x 0x03 * 2 ^ 6 % 256))
store_bits state_3 target targsize i x mem =
    if leb targsize i then none else some (put mem (target + i) (bit_or (mem (target + i)) x % 256))

unfoldable pub store_char : State → ℕ → ℕ → ℕ → ℕ → Memory → Option Memory
store_char state target targsize i x mem =
    if target == 0 then some mem else store_bits state target targsize i x mem

-- What a character means for the loop: the next round, the end of the data, or an error.
pub data Next : Type 0 where
  goes_on : State → ℕ → Memory → Next
  pad : Next
  no_char : Next

unfoldable pub pton_char : ℕ → ℕ → ℕ → State → ℕ → Memory → Next
pton_char ch target targsize state i mem =
    if isspace ch
    then goes_on state i mem
    else if ch == pad64
    then pad
    else case_option (strchr alphabet ch) no_char λ x.
      case_option (store_char state target targsize i x mem) no_char
        λ mem. goes_on (next_state state) (next_index state i) mem

-- "Skip any number of spaces."
unfoldable pub skip_spaces : List ℕ → List ℕ
skip_spaces [] = []
skip_spaces (ch ∷ src) = let rest = skip_spaces src in if isspace ch then rest else ch ∷ src

unfoldable pub only_spaces : List ℕ → Bool
only_spaces [] = true
only_spaces (ch ∷ src) = isspace ch && only_spaces src

-- "Is there anything but whitespace after it?", and the extra bits are zeros.
unfoldable pub last_pad : List ℕ → ℕ → ℕ → Memory → Parsed
last_pad src target i mem =
    if only_spaces src
    then (if not (target == 0) && not (mem (target + i) == 0)
        then refused mem
        else record { answer = i; mem = mem })
    else refused mem

-- "Make sure there is another trailing = sign."
unfoldable pub second_pad : List ℕ → ℕ → ℕ → Memory → Parsed
second_pad [] target i mem = refused mem
second_pad (ch ∷ src) target i mem = if ch == pad64 then last_pad src target i mem else refused mem

-- "We got a pad char."
unfoldable pub pton_pad : List ℕ → State → ℕ → ℕ → Memory → Parsed
pton_pad src state_0 target i mem = refused mem
pton_pad src state_1 target i mem = refused mem
pton_pad src state_2 target i mem = second_pad (skip_spaces src) target i mem
pton_pad src state_3 target i mem = last_pad src target i mem

-- "We ended by seeing the end of the string."
unfoldable pub pton_end : State → ℕ → Memory → Parsed
pton_end state_0 i mem = record { answer = i; mem = mem }
pton_end _ i mem = refused mem

unfoldable pub pton_next :
    Next → List ℕ → State → ℕ → ℕ → Memory → (State → ℕ → Memory → Parsed) → Parsed
pton_next (goes_on state' i' mem') src state target i mem rest = rest state' i' mem'
pton_next pad src state target i mem rest = pton_pad src state target i mem
pton_next no_char src state target i mem rest = refused mem

-- The loop of f_b64_pton and what follows it.
unfoldable pub pton_loop : List ℕ → ℕ → ℕ → State → ℕ → Memory → Parsed
pton_loop [] target targsize state i mem = pton_end state i mem
pton_loop (ch ∷ src) target targsize state i mem =
    pton_next (pton_char ch target targsize state i mem) src state target i mem
      λ state i mem. pton_loop src target targsize state i mem

-- `src` is the characters of the string, its end not among them.
unfoldable pub f_b64_pton : List ℕ → ℕ → ℕ → Memory → Parsed
f_b64_pton src target targsize mem = pton_loop src target targsize state_0 0 mem
