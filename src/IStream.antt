-- ===== src/IStream.antt =====
-- Pods/nanopb/pb_decode.c: the input stream `pb_istream_t`, `buf_read`, `pb_read`, `pb_readbyte`.
pub mod Reads
pub mod Safe
use get_together.Common.{
  ℕ, zero, suc, ◌+◌, ◌-◌, Bool, true, false, Option, none, some, List, [], ◌∷◌, length, take, drop,
  ltb, ◌==◌, if◌then◌else◌,
}
use get_together.Pb.{Message, end_of_stream, io_error, set_error}

-- What a callback gives for a private state and a count: its answer, the bytes that it stores, and
-- its new state.
abbrev pub Reader : Type 0
Reader = List ℕ → ℕ → Bool × List ℕ × List ℕ

-- The callback of a stream: `buf_read`, which pb_read recognises, or one of the user.
pub data Source : Type 0 where
  buf_read : Source
  user : Reader → Source

-- pb_istream_t. For a buffer the state is what lies between the pointer `state` and the end of
-- the memory that may be read.
pub record IStream : Type 0 where
  pub callback : Source
  pub state : List ℕ
  pub bytes_left : ℕ
  pub errmsg : Option Message

-- What a reading call leaves behind: on success what it stores, and the stream. `stuck` is no C
-- value: a read outside of the buffer, or fuel that has run out.
pub data Read {ℓ} (A : Type ℓ) : Type ℓ where
  ok : A → IStream → Read A
  fail : IStream → Read A
  stuck : Read A

-- `if (!call) return false; rest`
infixl 5 ◌>>=◌
abbrev pub ◌>>=◌ {ℓ κ} : {A : Type ℓ} {B : Type κ} → Read A → (A → IStream → Read B) → Read B
ok a s >>= k = k a s
fail s >>= k = fail s
stuck >>= k = stuck

-- PB_RETURN_ERROR(stream, msg)
unfoldable pub return_error {ℓ} : {A : Type ℓ} → IStream → Message → Read A
return_error s msg = fail (record s { errmsg = set_error s.errmsg msg })

unfoldable pub pb_istream_from_buffer : List ℕ → ℕ → IStream
pb_istream_from_buffer buf bufsize = record {
  callback = buf_read;
  state = buf;
  bytes_left = bufsize;
  errmsg = none;
}

-- `stream->callback(stream, buf, count)`, and the error of its caller when it fails.
unfoldable pub call_source : Source → IStream → ℕ → Read (List ℕ)
call_source buf_read s count =
    if ltb (length s.state) count
    then stuck
    else ok (take count s.state) (record s { state = drop count s.state })
call_source (user reader) s count =
    let (done, bytes, state) = reader s.state count in
    let s' : IStream = record s { state = state } in
    if done then ok bytes s' else return_error s' io_error

-- pb_read behind the skipping of input.
unfoldable pub read_bytes : IStream → ℕ → Read (List ℕ)
read_bytes s count =
    if ltb s.bytes_left count
    then return_error s end_of_stream
    else call_source s.callback s count >>= λ bytes s.
        ok bytes (record s { bytes_left = s.bytes_left - count })

-- "Skip input bytes": rounds of 16 bytes, then the rest.
unfoldable pub skip_bytes : ℕ → IStream → ℕ → Read (List ℕ)
skip_bytes zero s count = stuck
skip_bytes (suc fuel) s count = elim (ltb 16 count) [
  | true ↦ read_bytes s 16 >>= λ bytes s. skip_bytes fuel s (count - 16)
  | false ↦ read_bytes s count
]

-- pb_read(stream, buf, count); `stores` tells whether `buf` is other than NULL.
unfoldable pub pb_read : IStream → Bool → ℕ → Read (List ℕ)
pb_read s true count = read_bytes s count
pb_read s false count = elim s.callback [
  | buf_read ↦ read_bytes s count
  | user reader ↦ skip_bytes (suc count) s count
]

-- The byte that a call for one byte has stored.
abbrev pub head_or : List ℕ → ℕ
head_or [] = 0
head_or (b ∷ bs) = b

unfoldable pub pb_readbyte : IStream → Read ℕ
pb_readbyte s =
    if s.bytes_left == 0
    then return_error s end_of_stream
    else call_source s.callback s 1 >>= λ bytes s.
        ok (head_or bytes) (record s { bytes_left = s.bytes_left - 1 })
