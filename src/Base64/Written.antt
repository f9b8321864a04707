-- ===== src/Base64/Written.antt =====
-- f_b64_ntop stores no more characters than it has room for.
use get_together.Common.{
  ℕ, ◌+◌, ◌%◌, ◌≤◌, ◌<◌, ◌≡◌, refl, Bool, true, false, List, [], ◌∷◌, ◌++◌, length, length-append,
  ltb→ge, leb, leb→gt, if◌then◌else◌, arith,
}
use get_together.Pb.{size_mod}
use get_together.Base64.{
  Encoded, three_chars, two_chars, one_char, too_long, terminated, padded, ntop_loop, f_b64_ntop,
}

-- The characters are not more than `targsize`.
abbrev FitsIn : ℕ → Encoded → Type 0
FitsIn targsize r = length r.target ≤ targsize

FitsIn-if :
    (targsize : ℕ) (b : Bool) (x y : Encoded)
    → (b ≡ true → FitsIn targsize x)
    → (b ≡ false → FitsIn targsize y)
    → FitsIn targsize (if b then x else y)
FitsIn-if targsize true x y h g = h refl
FitsIn-if targsize false x y h g = g refl

terminated-FitsIn :
    (targsize : ℕ) (target : List ℕ)
    → length target ≤ targsize
    → FitsIn targsize (terminated targsize target)
unfolding terminated
terminated-FitsIn targsize target le =
    FitsIn-if targsize (leb targsize (length target)) _ _ (λ _. le)
      λ e. omega (arith, leb→gt targsize (length target) e, length-append target (0 ∷ []))

-- Room for a group of four characters.
room :
    (targsize : ℕ) (target : List ℕ)
    → length target ≤ targsize
    → targsize + 4 < size_mod
    → too_long targsize target ≡ false
    → length target + 4 ≤ targsize
room targsize target le small e = omega (arith, ltb→ge targsize ((length target + 4) % size_mod) e)

padded-FitsIn :
    (targsize : ℕ) (target chars : List ℕ)
    → length chars ≡ 4
    → length target ≤ targsize
    → targsize + 4 < size_mod
    → FitsIn targsize (padded targsize target chars)
unfolding padded
padded-FitsIn targsize target chars four le small =
    FitsIn-if targsize (too_long targsize target) _ _ (λ _. le)
      λ e.
        terminated-FitsIn targsize (target ++ chars)
          (omega (arith, room targsize target le small e, length-append target chars))

ntop_loop-FitsIn :
    (src : List ℕ) (targsize : ℕ) (target : List ℕ)
    → length target ≤ targsize
    → targsize + 4 < size_mod
    → FitsIn targsize (ntop_loop src targsize target)
unfolding ntop_loop one_char two_chars three_chars
ntop_loop-FitsIn [] targsize target le small = terminated-FitsIn targsize target le
ntop_loop-FitsIn (a ∷ []) targsize target le small = padded-FitsIn targsize target _ refl le small
ntop_loop-FitsIn (a ∷ b ∷ []) targsize target le small =
    padded-FitsIn targsize target _ refl le small
ntop_loop-FitsIn (a ∷ b ∷ c ∷ src) targsize target le small =
    FitsIn-if targsize (too_long targsize target) _ _ (λ _. le)
      λ e.
        ntop_loop-FitsIn src targsize (target ++ three_chars a b c)
          (omega (arith, room targsize target le small e, length-append target (three_chars a b c)))
          small

-- For all bytes and each `targsize` more than 4 below 2^64, f_b64_ntop stores no more than
-- `targsize` characters, the 0 at the end among them, whether it succeeds or not.
pub f_b64_ntop-FitsIn :
    (src : List ℕ) (targsize : ℕ)
    → targsize + 4 < size_mod
    → length (f_b64_ntop src targsize).target ≤ targsize
unfolding f_b64_ntop
f_b64_ntop-FitsIn src targsize small = ntop_loop-FitsIn src targsize [] (omega arith) small
