-- ===== src/OStream.antt =====
-- Pods/nanopb/pb_encode.c: the output stream `pb_ostream_t`, `buf_write` and `pb_write`.
pub mod Emits
pub mod Uniform
use get_together.Common.{
  ℕ, ◌+◌, ◌%◌, ◌≡◌, Bool, true, false, Option, none, some, List, [], ◌∷◌, ◌++◌, take, ltb,
  if◌then◌else◌,
}
use get_together.Pb.{Message, stream_full, io_error, set_error, Outcome, returns, stuck, size_mod}

-- A stream callback: from the private state and the bytes to write, its answer and new state.
-- A user's callback is any such function.
abbrev pub Writer : Type 0
Writer = List ℕ → List ℕ → Bool × List ℕ

-- pb_ostream_t. `callback` is `none` for NULL, a sizing stream. For a buffer the state stands for
-- what lies between the start of the buffer and the pointer `state`.
pub record OStream : Type 0 where
  pub callback : Option Writer
  pub state : List ℕ
  pub max_size : ℕ
  pub bytes_written : ℕ
  pub errmsg : Option Message

-- Copies the bytes to the buffer and moves the pointer behind them.
abbrev pub buf_write : Writer
buf_write state buf = (true, state ++ buf)

unfoldable pub pb_ostream_from_buffer : ℕ → OStream
pb_ostream_from_buffer bufsize = record {
  callback = some buf_write;
  state = [];
  max_size = bufsize;
  bytes_written = 0;
  errmsg = none;
}

-- PB_OSTREAM_SIZING
abbrev pub pb_ostream_sizing : OStream
pb_ostream_sizing = record {
  callback = none;
  state = [];
  max_size = 0;
  bytes_written = 0;
  errmsg = none;
}

-- PB_RETURN_ERROR(stream, msg)
unfoldable pub return_error : OStream → Message → Outcome OStream
return_error s msg = returns false (record s { errmsg = set_error s.errmsg msg })

-- stream->bytes_written += count
abbrev pub count_bytes : OStream → ℕ → OStream
count_bytes s count = record s { bytes_written = (s.bytes_written + count) % size_mod }

-- The call of the stream's callback; `state` is what it leaves in the stream, also on failure.
unfoldable pub written : OStream → ℕ → Bool × List ℕ → Outcome OStream
written s count (ok, state) =
    let s' : OStream = record s { state = state } in
    if ok then returns true (count_bytes s' count) else return_error s' io_error

unfoldable pub write_to : Option Writer → OStream → List ℕ → ℕ → Outcome OStream
write_to none s buf count = returns true (count_bytes s count)
write_to (some write) s buf count =
    if ltb s.max_size ((s.bytes_written + count) % size_mod)
    then return_error s stream_full
    else written s count (write s.state (take count buf))

-- `buf` holds at least `count` bytes, or is anything where the stream only counts.
unfoldable pub pb_write : OStream → List ℕ → ℕ → Outcome OStream
pb_write s buf count = write_to s.callback s buf count
