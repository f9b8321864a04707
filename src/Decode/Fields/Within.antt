-- ===== src/Decode/Fields/Within.antt =====
-- What it means for a field decoder to write only within a field.
use get_together.Common.{
  ℕ, zero, suc, ◌+◌, ◌/◌, ◌%◌, ◌≤◌, ◌<◌, ◌≡◌, ◌≢◌, ◌⊎◌, refl, ◌∙◌, Bool, true, false, List, [], ◌∷◌,
  length, if◌then◌else◌, arith,
}
use get_together.Pb.{Message}
use get_together.Memory.{Memory}
use get_together.IStream.{IStream, Read, ok, fail, stuck}
use get_together.IStream.Safe.{IsSafe, Kept, Took}
use get_together.Decode.Fields.{
  Decoded, decoded, lost, put, store, store_bytes, clear, read_then, dec_error,
}

-- Outside of the `n` bytes at `dest`.
abbrev pub Outside : ℕ → ℕ → ℕ → Type 0
Outside dest n x = (x < dest) ⊎ (dest + n ≤ x)

-- A memory that is `mem` outside of the `n` bytes at `dest`.
abbrev pub Frame : Memory → ℕ → ℕ → Memory → Type 0
Frame mem dest n mem' = (x : ℕ) → Outside dest n x → mem' x ≡ mem x

-- A result that is not lost, with a stream on which reading is safe, with `k` bytes behind, and
-- with a memory that is `mem` outside of the `n` bytes at `dest`. Success takes one of the `left`
-- bytes that were left at least.
unfoldable pub Within : ℕ → ℕ → Memory → ℕ → ℕ → Decoded → Type 0
Within k left mem dest n (decoded true mem' s) =
    IsSafe k s × (s.bytes_left < left) × Frame mem dest n mem'
Within k left mem dest n (decoded false mem' s) =
    IsSafe k s × (s.bytes_left ≤ left) × Frame mem dest n mem'
Within k left mem dest n lost = ⊥

pub put-other : (mem : Memory) (a b x : ℕ) → x ≢ a → put mem a b x ≡ mem x
unfolding put
put-other mem a b x h = ground arith

pub store-Outside : (mem : Memory) (a n v x : ℕ) → Outside a n x → store mem a n v x ≡ mem x
unfolding store
store-Outside mem a zero v x h = refl
store-Outside mem a (suc n) v x h =
    store-Outside (put mem a (v % 256)) (a + 1) n (v / 256) x (ground arith)
    ∙ put-other mem a (v % 256) x (λ e. ground arith)

pub store_bytes-Outside :
    (mem : Memory) (a n x : ℕ) (bs : List ℕ)
    → length bs ≤ n
    → Outside a n x
    → store_bytes mem a bs x ≡ mem x
unfolding store_bytes
store_bytes-Outside mem a n x [] le h = refl
store_bytes-Outside mem a zero x (b ∷ bs) le h = absurd (omega arith)
store_bytes-Outside mem a (suc n) x (b ∷ bs) le h =
    store_bytes-Outside (put mem a b) (a + 1) n x bs (omega arith) (ground arith)
    ∙ put-other mem a b x (λ e. ground arith)

pub clear-Outside : (mem : Memory) (a n x : ℕ) → Outside a n x → clear mem a n x ≡ mem x
unfolding clear
clear-Outside mem a zero x h = refl
clear-Outside mem a (suc n) x h =
    clear-Outside (put mem a 0) (a + 1) n x (ground arith) ∙ put-other mem a 0 x (λ e. ground arith)

pub Within-Frame :
    (k left : ℕ) (mem : Memory) (dest n : ℕ) (status : Bool) (mem' : Memory) (s : IStream)
    → Within k left mem dest n (decoded status mem' s)
    → Frame mem dest n mem'
unfolding Within
Within-Frame k left mem dest n true mem' s (h, lt, same) = same
Within-Frame k left mem dest n false mem' s (h, lt, same) = same

module _ (k left : ℕ) (mem : Memory) (dest n : ℕ) where
  pub Within-decoded :
      (mem' : Memory) (b : Bool) (s : IStream)
      → IsSafe k s
      → s.bytes_left < left
      → Frame mem dest n mem'
      → Within k left mem dest n (decoded b mem' s)
  unfolding Within
  Within-decoded mem' true s h lt f = (h, lt, f)
  Within-decoded mem' false s h lt f = (h, omega arith, f)

  pub Within-error :
      (mem' : Memory) (s : IStream) (msg : Message)
      → IsSafe k s
      → s.bytes_left ≤ left
      → Frame mem dest n mem'
      → Within k left mem dest n (dec_error mem' s msg)
  unfolding Within dec_error
  Within-error mem' s msg h le f =
      (record { on_buffer = h.on_buffer; enough = h.enough; are_bytes = h.are_bytes }, le, f)

  pub Within-if :
      (b : Bool) (x y : Decoded)
      → (b ≡ true → Within k left mem dest n x)
      → (b ≡ false → Within k left mem dest n y)
      → Within k left mem dest n (if b then x else y)
  Within-if true x y h l = h refl
  Within-if false x y h l = l refl

  pub Within-read_then {ℓ} :
      {A : Type ℓ} (mem' : Memory) (m : ℕ) (r : Read A) (f : A → IStream → Decoded)
      → m ≤ left
      → Kept k m r
      → Took left r
      → Frame mem dest n mem'
      → ((a : A) (s : IStream)
          → IsSafe k s
          → s.bytes_left < left
          → Within k left mem dest n (f a s))
      → Within k left mem dest n (read_then mem' r f)
  unfolding Within read_then Kept
  Within-read_then mem' m (ok a s) f le (h, l) lt same g = g a s h lt
  Within-read_then mem' m (fail s) f le (h, l) t same g = (h, omega arith, same)
  Within-read_then mem' m stuck f le h t same g = h

  -- A result within a part of the bytes, after a change of memory within the bytes.
  pub Within-widen :
      (mem' : Memory) (left' dest' n' : ℕ) (d : Decoded)
      → left' ≤ left
      → ((x : ℕ) → Outside dest n x → Outside dest' n' x)
      → Frame mem dest n mem'
      → Within k left' mem' dest' n' d
      → Within k left mem dest n d
  unfolding Within
  Within-widen mem' left' dest' n' (decoded true mem'' s) le part same (h, lt, f) =
      (h, omega arith, λ x o. f x (part x o) ∙ same x o)
  Within-widen mem' left' dest' n' (decoded false mem'' s) le part same (h, lt, f) =
      (h, omega arith, λ x o. f x (part x o) ∙ same x o)
  Within-widen mem' left' dest' n' lost le part same h = h
