-- ===== src/IStream/Safe.antt =====
-- Reads that stay inside of their buffer and end.
use get_together.Common.{
  ℕ, suc, ◌+◌, ◌-◌, ◌≤◌, ◌<◌, ◌≡◌, refl, ap, ◌∙◌, Bool, true, false, List, [], ◌∷◌, ◌⊎◌, length,
  length-drop, take, drop, All, All-drop, lt→ltb, ge→ltb, ◌==◌, if◌then◌else◌, arith, Bool-cases,
  inl, inr,
}
use native.Mathlib.Decide.{dec_lt}
use get_together.Pb.{Message, end_of_stream}
use get_together.IStream.{
  buf_read, IStream, Read, ok, fail, stuck, ◌>>=◌, return_error, call_source, read_bytes, pb_read,
  pb_readbyte, head_or, skip_bytes, user,
}
use get_together.IStream.Reads.{after}

-- A stream over a buffer of bytes that has those that are still to be read, and `k` bytes more.
pub record IsSafe (k : ℕ) (s : IStream) : Type 0 where
  pub on_buffer : s.callback ≡ buf_read
  pub enough : s.bytes_left + k ≤ length s.state
  pub are_bytes : All (λ b. b < 256) s.state

-- A result that is not stuck, with a stream in which at most `n` bytes are left.
unfoldable pub Kept {ℓ} : {A : Type ℓ} → ℕ → ℕ → Read A → Type 0
Kept k n (ok a s) = IsSafe k s × (s.bytes_left ≤ n)
Kept k n (fail s) = IsSafe k s × (s.bytes_left ≤ n)
Kept k n stuck = ⊥

abbrev pub Safe {ℓ} : {A : Type ℓ} → (IStream → Read A) → Type 0
Safe read = (k : ℕ) (s : IStream) → IsSafe k s → Kept k s.bytes_left (read s)

pub Kept-bind {ℓ κ} :
    {A : Type ℓ} {B : Type κ} (k n : ℕ) (r : Read A) (f : A → IStream → Read B)
    → Kept k n r
    → ((a : A) (s : IStream) → IsSafe k s → s.bytes_left ≤ n → Kept k n (f a s))
    → Kept k n (r >>= f)
unfolding Kept
Kept-bind k n (ok a s) f (h, le) g = g a s h le
Kept-bind k n (fail s) f h g = h
Kept-bind k n stuck f h g = h

pub Kept-le {ℓ} : {A : Type ℓ} (k m n : ℕ) (r : Read A) → m ≤ n → Kept k m r → Kept k n r
unfolding Kept
Kept-le k m n (ok a s) le (h, l) = (h, omega arith)
Kept-le k m n (fail s) le (h, l) = (h, omega arith)
Kept-le k m n stuck le h = h

-- Success takes a byte of `n` at least.
abbrev pub Took {ℓ} : {A : Type ℓ} → ℕ → Read A → Type 0
Took n (ok a s) = s.bytes_left < n
Took n (fail s) = Unit {0}
Took n stuck = Unit {0}

pub Kept-Took {ℓ} : {A : Type ℓ} (k m n : ℕ) (r : Read A) → m < n → Kept k m r → Took n r
unfolding Kept
Kept-Took k m n (ok a s) lt (h, le) = omega arith
Kept-Took k m n (fail s) lt h = tt
Kept-Took k m n stuck lt h = tt

-- Two reads in a row.
pub Safe-bind {ℓ κ} :
    {A : Type ℓ} {B : Type κ} (read : IStream → Read A) (f : A → IStream → Read B)
    → Safe read
    → ((a : A) → Safe (f a))
    → Safe (λ s. read s >>= f)
Safe-bind read f h g k s safe =
    Kept-bind k s.bytes_left (read s) f (h k s safe)
      λ a s' safe' le. Kept-le k s'.bytes_left s.bytes_left (f a s') le (g a k s' safe')

pub Safe-ok {ℓ} : {A : Type ℓ} (a : A) → Safe (ok a)
unfolding Kept
Safe-ok a k s h = (h, omega arith)

pub Safe-error {ℓ} : (A : Type ℓ) (m : Message) → Safe (λ s. return_error {A = A} s m)
unfolding Kept return_error
Safe-error A m k s h =
    (record { on_buffer = h.on_buffer; enough = h.enough; are_bytes = h.are_bytes }, omega arith)

pub Took-bind {ℓ κ} :
    {A : Type ℓ} {B : Type κ} (k n : ℕ) (r : Read A) (f : A → IStream → Read B)
    → Kept k n r
    → Took n r
    → ((a : A) (s : IStream) → IsSafe k s → Kept k s.bytes_left (f a s))
    → Took n (r >>= f)
unfolding Kept
Took-bind k n (ok a s) f (h, le) lt g = Kept-Took k s.bytes_left n (f a s) lt (g a s h)
Took-bind k n (fail s) f h t g = tt
Took-bind k n stuck f h t g = tt

pub Kept-if {ℓ} :
    {A : Type ℓ} (k n : ℕ) (b : Bool) (x y : Read A)
    → Kept k n x
    → Kept k n y
    → Kept k n (if b then x else y)
Kept-if k n true x y h l = h
Kept-if k n false x y h l = l

pub Safe-if {ℓ} :
    {A : Type ℓ} (b : IStream → Bool) (x y : IStream → Read A)
    → Safe x
    → Safe y
    → Safe (λ s. if b s then x s else y s)
Safe-if b x y h l k s safe = Kept-if k s.bytes_left (b s) (x s) (y s) (h k s safe) (l k s safe)

-- On such a stream a read gives what stands in the buffer, or fails.
pub read_bytes-enough :
    (k : ℕ) (s : IStream) (count : ℕ)
    → IsSafe k s
    → count ≤ s.bytes_left
    → read_bytes s count ≡ ok (take count s.state) (after s count (drop count s.state))
unfolding read_bytes call_source
read_bytes-enough k s count h le = rw (ge→ltb s.bytes_left count le) (
    ap (λ c. call_source c s count >>= done) h.on_buffer
    ∙ rw (ge→ltb (length s.state) count (omega (arith, h.enough))) refl)
  where
    done : List ℕ → IStream → Read (List ℕ)
    done bytes s = ok bytes (record s { bytes_left = s.bytes_left - count })

pub read_bytes-short :
    (s : IStream) (count : ℕ)
    → s.bytes_left < count
    → read_bytes s count ≡ return_error s end_of_stream
unfolding read_bytes
read_bytes-short s count lt = rw (lt→ltb s.bytes_left count lt) refl

pub after-IsSafe :
    (k : ℕ) (s : IStream) (count : ℕ)
    → count ≤ s.bytes_left
    → IsSafe k s
    → IsSafe k (after s count (drop count s.state))
after-IsSafe k s count le h = record {
  on_buffer = h.on_buffer;
  enough = omega (arith, h.enough, length-drop count s.state);
  are_bytes = All-drop (λ b. b < 256) count s.state h.are_bytes;
}

pub Safe-read_bytes : (count : ℕ) → Safe (λ s. read_bytes s count)
unfolding Kept
Safe-read_bytes count k s h = elim (dec_lt s.bytes_left count) [
  | yes lt ↦ rw (read_bytes-short s count lt) (Safe-error _ end_of_stream k s h)
  | no ge ↦
      rw (read_bytes-enough k s count h (omega arith))
        (after-IsSafe k s count (omega arith) h, omega arith)
]

-- On a buffer skipping is reading.
pub pb_read-read_bytes :
    (k : ℕ) (s : IStream) (stores : Bool) (count : ℕ)
    → IsSafe k s
    → pb_read s stores count ≡ read_bytes s count
unfolding pb_read
pb_read-read_bytes k s true count h = refl
pb_read-read_bytes k s false count h =
    ap
      (λ c. elim c [ buf_read ↦ read_bytes s count | user reader ↦ skip_bytes (suc count) s count ])
      h.on_buffer

pub Safe-pb_read : (stores : Bool) (count : ℕ) → Safe (λ s. pb_read s stores count)
Safe-pb_read stores count k s h =
    rw (pb_read-read_bytes k s stores count h) (Safe-read_bytes count k s h)

first_byte : (bs : List ℕ) → All (λ b. b < 256) bs → head_or (take 1 bs) < 256
first_byte [] h = omega arith
first_byte (b ∷ bs) h = h.0

-- On such a stream pb_readbyte fails, or takes the byte that stands first.
module _ (k : ℕ) (s : IStream) (h : IsSafe k s) where
  some_left : (s.bytes_left == 0) ≡ false → 1 ≤ s.bytes_left
  some_left e = ground arith

  one_byte :
      1 ≤ s.bytes_left
      → call_source s.callback s 1 ≡ ok (take 1 s.state) (record s { state = drop 1 s.state })
  unfolding call_source
  one_byte le =
      ap (λ c. call_source c s 1) h.on_buffer
      ∙ rw (ge→ltb (length s.state) 1 (omega (arith, h.enough))) refl

  readbyte-Kept : Kept k s.bytes_left (pb_readbyte s)
  unfolding Kept pb_readbyte
  readbyte-Kept = elim (Bool-cases (s.bytes_left == 0)) [
    | inl e ↦ rw e (Safe-error _ end_of_stream k s h)
    | inr e ↦ rw (e, one_byte (some_left e)) (after-IsSafe k s 1 (some_left e) h, omega arith)
  ]

  pub Took-pb_readbyte : Took s.bytes_left (pb_readbyte s)
  unfolding pb_readbyte return_error
  Took-pb_readbyte = elim (Bool-cases (s.bytes_left == 0)) [
    | inl e ↦ rw e tt
    | inr e ↦ rw (e, one_byte (some_left e)) (lower (some_left e))
  ]
    where
      lower : 1 ≤ s.bytes_left → s.bytes_left - 1 < s.bytes_left
      lower le = omega arith

pub pb_readbyte-enough :
    (k : ℕ) (s : IStream)
    → IsSafe k s
    → 1 ≤ s.bytes_left
    → pb_readbyte s ≡ ok (head_or (take 1 s.state)) (after s 1 (drop 1 s.state))
unfolding pb_readbyte
pb_readbyte-enough k s h le = rw (not_empty s.bytes_left le, one_byte k s h le) refl
  where
    not_empty : (n : ℕ) → 1 ≤ n → (n == 0) ≡ false
    not_empty n h = ground arith

pub readbyte_cases :
    (k : ℕ) (s : IStream)
    → IsSafe k s
    → (pb_readbyte s ≡ return_error s end_of_stream)
      ⊎ ((b : ℕ) × (s' : IStream) × (pb_readbyte s ≡ ok b s') × (b < 256) × IsSafe k s')
unfolding pb_readbyte
readbyte_cases k s h = elim (Bool-cases (s.bytes_left == 0)) [
  | inl e ↦ inl (rw e refl)
  | inr e ↦ inr (
    head_or (take 1 s.state),
    after s 1 (drop 1 s.state),
    rw (e, one_byte k s h (some_left k s h e)) refl,
    first_byte s.state h.are_bytes,
    after-IsSafe k s 1 (some_left k s h e) h,
  )
]

pub Safe-pb_readbyte : Safe pb_readbyte
Safe-pb_readbyte k s h = readbyte-Kept k s h

pub Took-read_bytes :
    (k : ℕ) (s : IStream) (count : ℕ)
    → 0 < count
    → IsSafe k s
    → Took s.bytes_left (read_bytes s count)
unfolding return_error
Took-read_bytes k s count pos h = elim (dec_lt s.bytes_left count) [
  | yes lt ↦ rw (read_bytes-short s count lt) tt
  | no ge ↦ rw (read_bytes-enough k s count h (omega arith)) (omega arith)
]
