-- ===== src/Lib.antt =====
-- The C code of the application Get together: nanopb, the protocol buffers library that its
-- analytics client encodes and decodes messages with (Get together/Pods/nanopb), and the base64
-- functions of its web socket client (Get together/Pods/FirebaseDatabase/Firebase/Database/
-- third_party/SocketRocket/fbase64.c).
--
-- The parts and how they interact. A message is a C struct in memory, described by an array of
-- descriptors `pb_field_t`. The encoder walks over the array with the field iterator, reads each
-- field from memory, and writes its key and value to an output stream, which counts bytes, fills a
-- buffer, or calls the user. A submessage is encoded twice: on a sizing stream, for its length, and
-- then on a substream. The decoder sets the fields of a struct to their default values, reads keys
-- from an input stream, looks each up in the array of descriptors, and decodes the value into the
-- field, skips it, or gives it to an extension; submessages are decoded on substreams.
--
-- Common      shared names, Boolean tests on numbers, lists, ints, bits as arithmetic
-- Pb          pb.h: error messages, results of calls (Pb), field types and descriptors (Pb/Field)
-- Memory      what the C code reads from memory, a function from addresses to bytes
-- OStream     pb_encode.c, pb_encode.h: pb_ostream_t, buf_write, pb_write, pb_ostream_from_buffer;
--             OStream/Emits and OStream/Uniform say what an operation on a stream writes
-- Iter        pb_common.c: pb_field_iter_begin, pb_field_iter_next, pb_field_iter_find; the iterator
--             at each field (Iter/Nth, Iter/Required) and the search (Iter/Seek, Iter/Find)
-- Encode      pb_encode.c: pb_encode_varint to pb_encode_string (Encode), what an encoder is given
--             (Encode/Env), pb_encode_submessage (Encode/Submessage), pb_enc_* (Encode/Fields),
--             encode_array and pb_check_proto3_default_value (Encode/Array), encode_basic_field to
--             pb_get_encoded_size (Encode/Message)
-- IStream     pb_decode.c, pb_decode.h: pb_istream_t, buf_read, pb_read, pb_readbyte,
--             pb_istream_from_buffer
-- Decode      pb_decode.c: varints, keys, skipping, substreams, zigzag, fixed words (Decode), the
--             field decoders pb_dec_* but for submessages (Decode/Fields), what a decoder is given
--             (Decode/Env), default values (Decode/Defaults), read_raw_value, pb_dec_submessage and
--             the entries of arrays (Decode/Items), decode_static_field to decode_extension
--             (Decode/Field), find_extension_field to pb_decode_delimited (Decode/Message);
--             Decode/Contained says what lies in the struct of a message
-- Trip        pb_encode.c and pb_decode.c together, on flat messages (Trip/Shape): the values that
--             cross in bytes (Trip/Values, Trip/Runs), packed arrays (Trip/Arrays, Trip/Items,
--             Trip/Packed), fields without has_ (Trip/Implicit), one field as it is written
--             (Trip/Written, Trip/Visited), as it is read (Trip/Received) and both
--             (Trip/OneField), the loops over the fields (Trip/Rounds, Trip/Reading), submessages
--             (Trip/Messages, Trip/Nested), default values (Trip/Blank), whole and delimited
--             messages (Trip/Whole, Trip/Delimited)
-- Base64      fbase64.c: f_b64_ntop, f_b64_pton; Base64/Groups reads a group of characters
-- Examples    the theorems at concrete messages, streams and values
--
-- Each function of the C code has a definition of its name. A call that changes its stream gives a
-- result with the stream: `returns` with the C answer for the encoder, `ok` or `fail` for the
-- decoder; `stuck` is a run to which C gives no meaning, or that has used up its fuel.
--
-- The configuration is the one of the build: 64-bit size_t, PB_FIELD_32BIT (pb_size_t has 32 bits),
-- error messages, no PB_BUFFER_ONLY, no PB_ENABLE_MALLOC, a little-endian machine. Numbers wrap
-- around as written out with `%`; an int64_t is its residue modulo 2^64. The bytes that a buffer
-- stream has written stand for its pointer.
--
-- Fuel: pb_encode has the nesting of messages as `depth`, which also bounds a list of extensions; a
-- walk over descriptors has their number; the loop of a varint has 11 rounds, of which the guard on
-- `bitpos` lets at most 10 pass; skipping a varint, the rounds of a packed array and those of a
-- message have one round more than bytes_left, since each takes a byte, and so have the calls of a
-- callback on a substream. pb_decode has the nesting of messages as `depth`, like pb_encode.
--
-- Parameters: the functions of the user (stream callbacks, field callbacks, extension types) are
-- arguments, the first of the streams and the others of the records Env and DecodeEnv.
--
-- Not modelled: the allocation of memory and pb_release, which the configuration leaves out, what a
-- read callback stores before it fails, the macros that generated descriptors are written with; and
-- outside of the C code the C++ and Objective-C libraries, and the Swift application, which is user
-- interface and calls of services.
pub mod Common
pub mod Pb
pub mod Memory
pub mod OStream
pub mod Iter
pub mod Encode
pub mod IStream
pub mod Decode
pub mod Trip
pub mod Base64
pub mod Examples
