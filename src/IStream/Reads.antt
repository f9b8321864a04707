-- ===== src/IStream/Reads.antt =====
-- Reading from a buffer.
use get_together.Common.{
  ℕ, ◌-◌, ◌≤◌, ◌≡◌, ap, ◌∙◌, List, [], ◌∷◌, ◌++◌, length, length-append, take, drop, take-append,
  drop-append, true, false, if◌then◌else◌, ltb, ge→ltb, ◌==◌, arith,
}
use get_together.IStream.{
  buf_read, IStream, Read, ok, stuck, ◌>>=◌, call_source, read_bytes, pb_read, pb_readbyte, head_or,
}

-- A stream over a buffer that holds `bs` in front of its pointer.
pub record Holds (s : IStream) (bs : List ℕ) : Type 0 where
  pub on_buffer : s.callback ≡ buf_read
  pub holds : s.state ≡ bs

abbrev pub after : IStream → ℕ → List ℕ → IStream
after s n rest = record s { state = rest; bytes_left = s.bytes_left - n }

gt→eq : (n : ℕ) → 1 ≤ n → (n == 0) ≡ false
gt→eq n h = ground arith

call_source-buffer :
    (s : IStream) (bs rest : List ℕ)
    → s.state ≡ bs ++ rest
    → call_source buf_read s (length bs) ≡ ok bs (record s { state = rest })
unfolding call_source
call_source-buffer s bs rest h =
    ap
      (λ (st : List ℕ).
        if ltb (length st) (length bs)
        then stuck
        else ok (take (length bs) st) (record s { state = drop (length bs) st }))
      h
    ∙ rw (
      ge→ltb (length (bs ++ rest)) (length bs) (omega (arith, length-append bs rest)),
      take-append bs rest,
      drop-append bs rest,
    )

pub read_bytes-buffer :
    (s : IStream) (bs rest : List ℕ)
    → Holds s (bs ++ rest)
    → length bs ≤ s.bytes_left
    → read_bytes s (length bs) ≡ ok bs (after s (length bs) rest)
unfolding read_bytes
read_bytes-buffer s bs rest h le = rw (ge→ltb s.bytes_left (length bs) le) (
    ap (λ r. r >>= done)
      (ap (λ c. call_source c s (length bs)) h.on_buffer ∙ call_source-buffer s bs rest h.holds))
  where
    done : List ℕ → IStream → Read (List ℕ)
    done bytes s = ok bytes (record s { bytes_left = s.bytes_left - length bs })

pub pb_readbyte-buffer :
    (s : IStream) (b : ℕ) (rest : List ℕ)
    → Holds s (b ∷ rest)
    → 1 ≤ s.bytes_left
    → pb_readbyte s ≡ ok b (after s 1 rest)
unfolding pb_readbyte
pb_readbyte-buffer s b rest h le = rw (gt→eq s.bytes_left le) (
    ap (λ r. r >>= done)
      (ap (λ c. call_source c s 1) h.on_buffer ∙ call_source-buffer s (b ∷ []) rest h.holds))
  where
    done : List ℕ → IStream → Read ℕ
    done bytes s = ok (head_or bytes) (record s { bytes_left = s.bytes_left - 1 })

-- pb_read into memory is a plain read.
pub pb_read-buffer :
    (s : IStream) (bs rest : List ℕ)
    → Holds s (bs ++ rest)
    → length bs ≤ s.bytes_left
    → pb_read s true (length bs) ≡ ok bs (after s (length bs) rest)
unfolding pb_read
pb_read-buffer s bs rest h le = read_bytes-buffer s bs rest h le
