-- ===== src/Encode/Submessage.antt =====
-- Pods/nanopb/pb_encode.c: pb_encode_submessage. The parameter `encode` is pb_encode on the message.
pub mod Uniform
use get_together.Common.{
  ℕ, ◌+◌, ◌%◌, Bool, true, false, Option, none, some, List, [], ltb, ◌==◌, if◌then◌else◌,
}
use get_together.Pb.{stream_full, submsg_size_changed, Outcome, returns, stuck, ◌>>=◌, size_mod}
use get_together.OStream.{Writer, OStream, pb_write, return_error, pb_ostream_sizing}
use get_together.Encode.{pb_encode_varint}

-- What is done after the message has been written to the substream: `status = pb_encode(...)`.
unfoldable pub finish_submessage : OStream → ℕ → Outcome OStream → Outcome OStream
finish_submessage s size stuck = stuck
finish_submessage s size (returns status substream) =
    let total : ℕ = (s.bytes_written + substream.bytes_written) % size_mod in
    let s' : OStream = record s {
      bytes_written = total;
      state = substream.state;
      errmsg = substream.errmsg;
    } in
    if substream.bytes_written == size
    then returns status s'
    else return_error s' submsg_size_changed

-- The substream, which takes `size` bytes at most.
abbrev pub substream_of : OStream → ℕ → OStream
substream_of s size = record s { max_size = size; bytes_written = 0; errmsg = none }

-- What is done after the size has been written; the first argument is the stream's callback.
unfoldable pub write_submessage :
    Option Writer → (OStream → Outcome OStream) → ℕ → OStream → Outcome OStream
write_submessage none encode size s = pb_write s [] size
write_submessage (some write) encode size s =
    if ltb s.max_size ((s.bytes_written + size) % size_mod)
    then return_error s stream_full
    else finish_submessage s size (encode (substream_of s size))

-- What is done after the size has been calculated by a run on a sizing stream.
unfoldable pub write_sized :
    (OStream → Outcome OStream) → OStream → Outcome OStream → Outcome OStream
write_sized encode s stuck = stuck
write_sized encode s (returns false substream) =
    returns false (record s { errmsg = substream.errmsg })
write_sized encode s (returns true substream) = do
  s ← pb_encode_varint s substream.bytes_written
  write_submessage s.callback encode substream.bytes_written s

unfoldable pub pb_encode_submessage : (OStream → Outcome OStream) → OStream → Outcome OStream
pb_encode_submessage encode s = write_sized encode s (encode pb_ostream_sizing)
