-- ===== src/Base64/Text.antt =====
-- The text that f_b64_ntop writes.
use get_together.Common.{
  ℕ, ◌+◌, ◌*◌, ◌/◌, ◌%◌, ◌<◌, ◌≡◌, refl, ap, ◌∙◌, List, [], ◌∷◌, ◌++◌, length, append-nil,
  append_assoc, length-append, ge→ltb, gt→leb, arith,
}
use get_together.Pb.{u32_mod, size_mod}
use get_together.Base64.{three_chars, two_chars, one_char, terminated, padded, ntop_loop}

-- Four characters for each group of three bytes, and for what is left.
unfoldable pub base64 : List ℕ → List ℕ
base64 [] = []
base64 (a ∷ []) = one_char a
base64 (a ∷ b ∷ []) = two_chars a b
base64 (a ∷ b ∷ c ∷ src) = three_chars a b c ++ base64 src

pub length-base64 : (src : List ℕ) → length (base64 src) ≡ (length src + 2) / 3 * 4
unfolding base64 one_char two_chars three_chars
length-base64 [] = omega arith
length-base64 (a ∷ []) = omega arith
length-base64 (a ∷ b ∷ []) = omega arith
length-base64 (a ∷ b ∷ c ∷ src) = omega (arith, length-base64 src)

terminated-room :
    (targsize : ℕ) (target : List ℕ)
    → length target < targsize
    → terminated targsize target
      ≡ record { answer = length target % u32_mod; target = target ++ 0 ∷ [] }
unfolding terminated
terminated-room targsize target lt = rw (gt→leb targsize (length target) lt) refl

padded-room :
    (targsize : ℕ) (target chars : List ℕ)
    → targsize < size_mod
    → length chars ≡ 4
    → length target + 4 < targsize
    → padded targsize target chars
      ≡ record { answer = length (target ++ chars) % u32_mod; target = (target ++ chars) ++ 0 ∷ [] }
unfolding padded
padded-room targsize target chars small four lt =
    rw (ge→ltb targsize ((length target + 4) % size_mod) (omega arith))
      (terminated-room targsize (target ++ chars) (omega (arith, length-append target chars)))

pub ntop_loop-base64 :
    (src : List ℕ) (targsize : ℕ) (target : List ℕ)
    → targsize < size_mod
    → length target + length (base64 src) < targsize
    → ntop_loop src targsize target ≡ record {
      answer = length (target ++ base64 src) % u32_mod;
      target = (target ++ base64 src) ++ 0 ∷ [];
    }
unfolding ntop_loop base64 one_char two_chars three_chars
ntop_loop-base64 [] targsize target small lt =
    rw (append-nil target) (terminated-room targsize target (omega arith))
ntop_loop-base64 (a ∷ []) targsize target small lt = padded-room targsize target _ small refl lt
ntop_loop-base64 (a ∷ b ∷ []) targsize target small lt = padded-room targsize target _ small refl lt
ntop_loop-base64 (a ∷ b ∷ c ∷ src) targsize target small lt =
    let same = append_assoc target (three_chars a b c) (base64 src) in
    rw (ge→ltb targsize ((length target + 4) % size_mod) (omega arith)) (
      ntop_loop-base64 src targsize (target ++ three_chars a b c) small
        (omega (arith, length-append target (three_chars a b c)))
      ∙ ap (λ (t : List ℕ). record { answer = length t % u32_mod; target = t ++ 0 ∷ [] }) same)
