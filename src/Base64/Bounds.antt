-- ===== src/Base64/Bounds.antt =====
-- f_b64_pton stays inside of its target, whatever it is given.
use get_together.Common.{
  ℕ, ◌+◌, ◌%◌, ◌≤◌, ◌<◌, ◌≡◌, ◌≢◌, refl, ◌∙◌, Bool, true, false, not, ◌&&◌, Option, none, some,
  case_option, List, [], ◌∷◌, leb, leb→gt, ◌==◌, if◌then◌else◌, arith,
}
use get_together.Pb.{u32_mod}
use get_together.Memory.{Memory}
use get_together.Decode.Fields.{put}
use get_together.Decode.Fields.Within.{Outside, Frame, put-other}
use get_together.Base64.{
  State, state_0, state_1, state_2, state_3, next_state, next_index, Parsed, store_bits, store_char,
  Next, goes_on, pad, no_char, pton_char, only_spaces, last_pad, second_pad, skip_spaces, pton_pad,
  pton_end, pton_next, pton_loop, f_b64_pton, isspace, pad64, strchr, alphabet,
}

-- `tarindex` in each state: before a byte has been begun it may be at the end of the target.
abbrev IsIndex : ℕ → State → ℕ → Type 0
IsIndex targsize state_0 i = i ≤ targsize
IsIndex targsize _ i = i < targsize

module _ (target targsize : ℕ) (mem : Memory) (small : targsize < u32_mod) where
  -- A place in the target.
  put-Frame :
      (mem' : Memory) (i b : ℕ)
      → i < targsize
      → Frame mem target targsize mem'
      → Frame mem target targsize (put mem' (target + i) b)
  put-Frame mem' i b lt same x o = put-other mem' (target + i) b x (λ e. ground arith) ∙ same x o

  -- A memory that is there is `mem` outside of the target, and `tarindex` goes on inside of it.
  abbrev Stores : State → ℕ → Option Memory → Type 0
  Stores state i none = Unit {0}
  Stores state i (some mem') =
      Frame mem target targsize mem' × IsIndex targsize (next_state state) (next_index state i)

  Stores-if :
      (state : State) (i : ℕ) (b : Bool) (mem' : Memory)
      → (b ≡ false → Stores state i (some mem'))
      → Stores state i (if b then none else some mem')
  Stores-if state i true mem' h = tt
  Stores-if state i false mem' h = h refl

  store_bits-Stores :
      (state : State) (i x : ℕ) (mem' : Memory)
      → IsIndex targsize state i
      → Frame mem target targsize mem'
      → Stores state i (store_bits state target targsize i x mem')
  unfolding store_bits
  store_bits-Stores state_0 i x mem' at same =
      Stores-if state_0 i (leb targsize i) _
        λ e. (put-Frame mem' i _ (leb→gt targsize i e) same, leb→gt targsize i e)
  store_bits-Stores state_1 i x mem' at same =
      Stores-if state_1 i (leb targsize ((i + 1) % u32_mod)) _ λ e.
        let lt = leb→gt targsize ((i + 1) % u32_mod) e in
        (put-Frame _ ((i + 1) % u32_mod) _ lt (put-Frame mem' i _ at same), lt)
  store_bits-Stores state_2 i x mem' at same =
      Stores-if state_2 i (leb targsize ((i + 1) % u32_mod)) _ λ e.
        let lt = leb→gt targsize ((i + 1) % u32_mod) e in
        (put-Frame _ ((i + 1) % u32_mod) _ lt (put-Frame mem' i _ at same), lt)
  store_bits-Stores state_3 i x mem' at same =
      Stores-if state_3 i (leb targsize i) _ λ e. (put-Frame mem' i _ at same, omega arith)

  abbrev Follows : Next → Type 0
  Follows (goes_on state i mem') = Frame mem target targsize mem' × IsIndex targsize state i
  Follows pad = Unit {0}
  Follows no_char = Unit {0}

  Follows-if :
      (b : Bool) (x y : Next) → Follows x → (b ≡ false → Follows y) → Follows (if b then x else y)
  Follows-if true x y h g = h
  Follows-if false x y h g = g refl

  Follows-found :
      (o : Option ℕ) (f : ℕ → Next) → ((x : ℕ) → Follows (f x)) → Follows (case_option o no_char f)
  Follows-found none f h = tt
  Follows-found (some x) f h = h x

  Follows-stored :
      (state : State) (i : ℕ) (o : Option Memory)
      → Stores state i o
      → Follows (case_option o no_char λ mem'. goes_on (next_state state) (next_index state i) mem')
  Follows-stored state i none h = tt
  Follows-stored state i (some mem') h = h

  store_char-Stores :
      (state : State) (i x : ℕ) (mem' : Memory)
      → target ≢ 0
      → IsIndex targsize state i
      → Frame mem target targsize mem'
      → Stores state i (store_char state target targsize i x mem')
  unfolding store_char
  store_char-Stores state i x mem' not_null at same =
      rw (some_target not_null) (store_bits-Stores state i x mem' at same)
    where
      some_target : target ≢ 0 → (target == 0) ≡ false
      some_target h = ground arith

  pton_char-Follows :
      (ch : ℕ) (state : State) (i : ℕ) (mem' : Memory)
      → target ≢ 0
      → IsIndex targsize state i
      → Frame mem target targsize mem'
      → Follows (pton_char ch target targsize state i mem')
  unfolding pton_char
  pton_char-Follows ch state i mem' not_null at same =
      Follows-if (isspace ch) _ _ (same, at)
        λ _. Follows-if (ch == pad64) pad _ tt λ _.
          Follows-found (strchr alphabet ch) _
            λ x. Follows-stored state i _ (store_char-Stores state i x mem' not_null at same)

  abbrev StaysIn : Parsed → Type 0
  StaysIn r = Frame mem target targsize r.mem

  StaysIn-if : (b : Bool) (x y : Parsed) → StaysIn x → StaysIn y → StaysIn (if b then x else y)
  StaysIn-if true x y h g = h
  StaysIn-if false x y h g = g

  last_pad-StaysIn :
      (src : List ℕ) (i : ℕ) (mem' : Memory)
      → Frame mem target targsize mem'
      → StaysIn (last_pad src target i mem')
  unfolding last_pad
  last_pad-StaysIn src i mem' same =
      StaysIn-if (only_spaces src) _ _
        (StaysIn-if (not (target == 0) && not (mem' (target + i) == 0)) _ _ same same) same

  second_pad-StaysIn :
      (src : List ℕ) (i : ℕ) (mem' : Memory)
      → Frame mem target targsize mem'
      → StaysIn (second_pad src target i mem')
  unfolding second_pad
  second_pad-StaysIn [] i mem' same = same
  second_pad-StaysIn (ch ∷ src) i mem' same =
      StaysIn-if (ch == pad64) _ _ (last_pad-StaysIn src i mem' same) same

  pton_pad-StaysIn :
      (src : List ℕ) (state : State) (i : ℕ) (mem' : Memory)
      → Frame mem target targsize mem'
      → StaysIn (pton_pad src state target i mem')
  unfolding pton_pad
  pton_pad-StaysIn src state_0 i mem' same = same
  pton_pad-StaysIn src state_1 i mem' same = same
  pton_pad-StaysIn src state_2 i mem' same = second_pad-StaysIn (skip_spaces src) i mem' same
  pton_pad-StaysIn src state_3 i mem' same = last_pad-StaysIn src i mem' same

  pton_next-StaysIn :
      (next : Next) (src : List ℕ) (state : State) (i : ℕ) (mem' : Memory)
      (rest : State → ℕ → Memory → Parsed)
      → Follows next
      → Frame mem target targsize mem'
      → ((state : State) (i : ℕ) (mem'' : Memory)
          → IsIndex targsize state i
          → Frame mem target targsize mem''
          → StaysIn (rest state i mem''))
      → StaysIn (pton_next next src state target i mem' rest)
  unfolding pton_next
  pton_next-StaysIn (goes_on state' i' mem'') src state i mem' rest (same', at') same h =
      h state' i' mem'' at' same'
  pton_next-StaysIn pad src state i mem' rest f same h = pton_pad-StaysIn src state i mem' same
  pton_next-StaysIn no_char src state i mem' rest f same h = same

  pton_end-StaysIn :
      (state : State) (i : ℕ) (mem' : Memory)
      → Frame mem target targsize mem'
      → StaysIn (pton_end state i mem')
  unfolding pton_end
  pton_end-StaysIn state_0 i mem' same = same
  pton_end-StaysIn state_1 i mem' same = same
  pton_end-StaysIn state_2 i mem' same = same
  pton_end-StaysIn state_3 i mem' same = same

  pub pton_loop-StaysIn :
      (src : List ℕ) (state : State) (i : ℕ) (mem' : Memory)
      → target ≢ 0
      → IsIndex targsize state i
      → Frame mem target targsize mem'
      → StaysIn (pton_loop src target targsize state i mem')
  unfolding pton_loop
  pton_loop-StaysIn [] state i mem' not_null at same = pton_end-StaysIn state i mem' same
  pton_loop-StaysIn (ch ∷ src) state i mem' not_null at same =
      pton_next-StaysIn (pton_char ch target targsize state i mem') src state i mem' _
        (pton_char-Follows ch state i mem' not_null at same) same
        λ state' i' mem'' at' same'. pton_loop-StaysIn src state' i' mem'' not_null at' same'

-- For every text and a target, not NULL, of `targsize` bytes, below 2^32, f_b64_pton changes no
-- byte of memory outside of the target.
pub f_b64_pton-StaysIn :
    (src : List ℕ) (target targsize : ℕ) (mem : Memory)
    → target ≢ 0
    → targsize < u32_mod
    → (x : ℕ) → Outside target targsize x
    → (f_b64_pton src target targsize mem).mem x ≡ mem x
unfolding f_b64_pton
f_b64_pton-StaysIn src target targsize mem not_null small x o =
    pton_loop-StaysIn target targsize mem small src state_0 0 mem not_null (omega arith)
      (λ x o. refl) x o
