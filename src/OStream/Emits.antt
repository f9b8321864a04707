-- ===== src/OStream/Emits.antt =====
-- What it means for an operation on an output stream to write certain bytes.
use get_together.Common.{
  ℕ, ◌+◌, ◌%◌, ◌≤◌, ◌<◌, ◌≡◌, refl, Bool, true, false, Option, none, some, List, ◌++◌, length, take,
  ltb, Bool-cases, inl, inr, ge→ltb, lt→ltb, take-length, ◌∙◌, ap, sym, append_assoc, length-append,
  arith,
}
use native.Mathlib.Decide.{dec_le}
use get_together.Pb.{Outcome, returns, ◌>>=◌, size_mod}
use get_together.OStream.{
  OStream, Writer, buf_write, count_bytes, return_error, written, write_to, pb_write,
}

abbrev pub Action : Type 0
Action = OStream → Outcome OStream

-- On every stream the action ends and returns.
pub record Ends (act : Action) : Type 0 where
  pub at : (s : OStream) → (b : Bool) × (s' : OStream) × (act s ≡ returns b s')

-- On every stream the action returns false.
pub record Fails (act : Action) : Type 0 where
  pub at : (s : OStream) → (s' : OStream) × (act s ≡ returns false s')

-- The stream after `bs` has been written to a buffer.
abbrev pub push_bytes : OStream → List ℕ → OStream
push_bytes s bs = record s { state = s.state ++ bs; bytes_written = s.bytes_written + length bs }

-- The action writes `bs`: a sizing stream counts them, a buffer gets them if they fit below
-- `max_size`, and else the action returns false. A buffer stream with an error message is left out:
-- there a submessage would clear the message.
pub record Emits (act : Action) (bs : List ℕ) : Type 0 where
  pub ends : Ends act
  pub sizing :
      (s : OStream)
      → s.callback ≡ none
      → s.bytes_written < size_mod
      → act s ≡ returns true (count_bytes s (length bs))
  pub fits :
      (s : OStream)
      → s.callback ≡ some buf_write
      → s.errmsg ≡ none
      → s.max_size < size_mod
      → s.bytes_written + length bs ≤ s.max_size
      → act s ≡ returns true (push_bytes s bs)
  pub full :
      (s : OStream)
      → s.callback ≡ some buf_write
      → s.errmsg ≡ none
      → s.bytes_written ≤ s.max_size
      → s.max_size < s.bytes_written + length bs
      → s.bytes_written + length bs < size_mod
      → (s' : OStream) × (act s ≡ returns false s')

written-Ends :
    (s : OStream) (count : ℕ) (r : Bool × List ℕ)
    → (b : Bool) × (s' : OStream) × (written s count r ≡ returns b s')
unfolding written return_error
written-Ends s count (true, state) = (true, _, refl)
written-Ends s count (false, state) = (false, _, refl)

write_to-Ends :
    (c : Option Writer) (s : OStream) (buf : List ℕ) (count : ℕ)
    → (b : Bool) × (s' : OStream) × (write_to c s buf count ≡ returns b s')
unfolding write_to return_error
write_to-Ends none s buf count = (true, _, refl)
write_to-Ends (some w) s buf count =
    elim (Bool-cases (ltb s.max_size ((s.bytes_written + count) % size_mod))) [
      | inl e ↦ rw e (false, _, refl)
      | inr e ↦ rw e (written-Ends s count (w s.state (take count buf)))
    ]

pub pb_write-Ends : (buf : List ℕ) (count : ℕ) → Ends (λ s. pb_write s buf count)
unfolding pb_write
pb_write-Ends buf count = record { at = λ s. write_to-Ends s.callback s buf count }

-- A sizing stream only counts.
pub pb_write-counts :
    (s : OStream) (buf : List ℕ) (count : ℕ)
    → s.callback ≡ none
    → pb_write s buf count ≡ returns true (count_bytes s count)
unfolding pb_write write_to
pb_write-counts s buf count h = ap (λ c. write_to c s buf count) h

-- Bytes that fit are copied; a chunk that does not fit is refused.
write_to-buffer :
    (s : OStream) (bs : List ℕ)
    → s.max_size < size_mod
    → s.bytes_written + length bs ≤ s.max_size
    → write_to (some buf_write) s bs (length bs) ≡ returns true (push_bytes s bs)
unfolding write_to written
write_to-buffer s bs h k =
    rw (ge→ltb s.max_size ((s.bytes_written + length bs) % size_mod) (omega arith))
      (rw (take-length bs, small) refl)
  where
    small : (s.bytes_written + length bs) % size_mod ≡ s.bytes_written + length bs
    small = omega arith

write_to-full :
    (s : OStream) (bs : List ℕ)
    → s.max_size < s.bytes_written + length bs
    → s.bytes_written + length bs < size_mod
    → (s' : OStream) × (write_to (some buf_write) s bs (length bs) ≡ returns false s')
unfolding write_to return_error
write_to-full s bs h k =
    rw (lt→ltb s.max_size ((s.bytes_written + length bs) % size_mod) (omega arith)) (_, refl)

-- pb_write with all of a list of bytes emits them: it ends on every stream; a sizing stream
-- counts them; a buffer stream without an error message appends them and returns true when they
-- fit below max_size, and returns false when they do not.
pub Emits-pb_write : (bs : List ℕ) → Emits (λ s. pb_write s bs (length bs)) bs
unfolding pb_write
Emits-pb_write bs = record {
  ends = record { at = λ s. write_to-Ends s.callback s bs (length bs) };
  sizing = λ s h m. ap (to s) h ∙ unfold write_to in refl;
  fits = λ s h m k r. ap (to s) h ∙ write_to-buffer s bs k r;
  full = λ s h m k r t. let (s', e) = write_to-full s bs r t in (s', ap (to s) h ∙ e);
}
  where
    to : OStream → Option Writer → Outcome OStream
    to s c = write_to c s bs (length bs)

count_bytes_twice :
    (s : OStream) (m n : ℕ) → count_bytes (count_bytes s m) n ≡ count_bytes s (m + n)
count_bytes_twice s m n = ap (λ (t : ℕ). record s { bytes_written = t }) (omega arith)

push_bytes_twice :
    (s : OStream) (bs cs : List ℕ) → push_bytes (push_bytes s bs) cs ≡ push_bytes s (bs ++ cs)
push_bytes_twice s bs cs =
    rw (length-append bs cs, append_assoc)
      (ap (λ (t : ℕ). record s { state = s.state ++ (bs ++ cs); bytes_written = t }) (omega arith))

-- One action after another, the second only if the first returned true.
module _ (act act' : Action) where
  pub Ends-bind : Ends act → Ends act' → Ends (λ s. act s >>= act')
  Ends-bind h k = record { at = λ s. go s (h.at s) }
    where
      go :
          (s : OStream)
          → (b : Bool) × (s' : OStream) × (act s ≡ returns b s')
          → (b : Bool) × (s' : OStream) × ((act s >>= act') ≡ returns b s')
      go s (true, s', e) = rw e (k.at s')
      go s (false, s', e) = rw e (false, s', refl)

  pub Fails-bind_left : Fails act → Fails (λ s. act s >>= act')
  Fails-bind_left h = record { at = λ s. let (s', e) = h.at s in rw e (s', refl) }

  pub Fails-bind_right : Ends act → Fails act' → Fails (λ s. act s >>= act')
  Fails-bind_right h k = record { at = λ s. go s (h.at s) }
    where
      go :
          (s : OStream)
          → (b : Bool) × (s' : OStream) × (act s ≡ returns b s')
          → (s' : OStream) × ((act s >>= act') ≡ returns false s')
      go s (true, s', e) = rw e (k.at s')
      go s (false, s', e) = rw e (s', refl)

  pub Emits-bind :
      (bs cs : List ℕ) → Emits act bs → Emits act' cs → Emits (λ s. act s >>= act') (bs ++ cs)
  Emits-bind bs cs h k = record {
    ends = Ends-bind h.ends k.ends;
    sizing = λ s c m.
        ap (λ r. r >>= act') (h.sizing s c m)
        ∙ k.sizing (count_bytes s (length bs)) c (omega arith)
        ∙ ap (returns true) (count_bytes_twice s (length bs) (length cs))
        ∙ ap (λ (n : ℕ). returns true (count_bytes s n)) (sym (length-append bs cs));
    fits = λ s c m lt le.
        ap (λ r. r >>= act') (h.fits s c m lt (omega (arith, length-append bs cs)))
        ∙ k.fits (push_bytes s bs) c m lt (omega (arith, length-append bs cs))
        ∙ ap (returns true) (push_bytes_twice s bs cs);
    full = λ s c m le gt lt. elim (dec_le (s.bytes_written + length bs) s.max_size) [
      | yes fit ↦
          let (s', e) =
            k.full (push_bytes s bs) c m fit (omega (arith, length-append bs cs))
              (omega (arith, length-append bs cs)) in
          (s', ap (λ r. r >>= act') (h.fits s c m (omega arith) fit) ∙ e)
      | no over ↦
          let (s', e) =
            h.full s c m le (omega (arith, length-append bs cs))
              (omega (arith, length-append bs cs)) in
          (s', ap (λ r. r >>= act') e)
    ];
  }
