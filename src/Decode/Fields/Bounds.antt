-- ===== src/Decode/Fields/Bounds.antt =====
-- The decoders of bytes and strings write only into the field, and take a byte at least.
use get_together.Common.{
  ℕ, ◌+◌, ◌%◌, ◌≤◌, ◌<◌, ◌≢◌, refl, ◌∙◌, true, false, length-take, take, ltb, ltb→ge, ◌==◌, arith,
}
use get_together.Pb.{Message, u32_mod, pb_size_max}
use get_together.Pb.Field.{Field}
use get_together.Memory.{Memory}
use get_together.Encode.Array.{is_pointer}
use get_together.IStream.{IStream}
use get_together.IStream.Safe.{IsSafe, Kept-Took, Safe-pb_read}
use get_together.Decode.{pb_decode_varint32}
use get_together.Decode.Safe.{Safe-pb_decode_varint32}
use get_together.Decode.Took.{Took-pb_decode_varint32}
use get_together.Decode.Fields.{
  Decoded, decoded, lost, store, dec_error, read_into, pb_dec_bytes, terminate, pb_dec_string,
  pb_dec_fixed_length_bytes,
}
use get_together.Decode.Fields.Within.{
  Outside, Frame, Within, put-other, store-Outside, store_bytes-Outside, clear-Outside,
  Within-error, Within-decoded, Within-if, Within-read_then,
}
use get_together.Decode.Fields.Numbers.{Within-head}

module _ (k : ℕ) where
  Within-read_into :
      (left : ℕ) (mem mem' : Memory) (base n dest size : ℕ) (s : IStream)
      → IsSafe k s
      → s.bytes_left < left
      → Frame mem base n mem'
      → ((x : ℕ) → Outside base n x → Outside dest size x)
      → Within k left mem base n (read_into s mem' dest size)
  unfolding read_into
  Within-read_into left mem mem' base n dest size s h lt same inner =
      Within-read_then k left mem base n mem' s.bytes_left _ _ (omega arith)
        (Safe-pb_read true size k s h)
        (Kept-Took k s.bytes_left left _ lt (Safe-pb_read true size k s h)) same
        λ bytes s' safe lt'. Within-decoded k left mem base n _ true s' safe lt' λ x o.
          store_bytes-Outside mem' dest size x (take size bytes)
            (omega (arith, length-take size bytes)) (inner x o)
          ∙ same x o

  Within-unchanged :
      (left : ℕ) (mem : Memory) (dest n : ℕ) (msg : Message) (s : IStream)
      → IsSafe k s
      → s.bytes_left < left
      → Within k left mem dest n (dec_error mem s msg)
  Within-unchanged left mem dest n msg s h lt =
      Within-error k left mem dest n mem s msg h (omega arith) λ x o. refl

  -- pb_dec_bytes, on a stream over a buffer of bytes that holds bytes_left bytes and `k` more,
  -- whatever they are, ends, reads no byte outside of the buffer, leaves a stream whose buffer
  -- holds its bytes_left bytes, which are fewer than before if it returns true, and the `k`
  -- more, and changes no byte of memory outside of the data_size bytes of the field at `dest`.
  pub Within-pb_dec_bytes :
      (s : IStream) (mem : Memory) (field : Field) (dest : ℕ)
      → IsSafe k s
      → Within k s.bytes_left mem dest field.data_size (pb_dec_bytes s mem field dest)
  unfolding pb_dec_bytes
  Within-pb_dec_bytes s mem field dest h =
      Within-head k pb_decode_varint32 mem dest n _ Safe-pb_decode_varint32 Took-pb_decode_varint32
        s h
        λ size s' safe lt.
          Within-if k left mem dest n (ltb pb_size_max size) _ _
            (λ _. Within-unchanged left mem dest n _ s' safe lt)
            λ _.
              Within-if k left mem dest n (ltb (size + 4) size) _ _
                (λ _. Within-unchanged left mem dest n _ s' safe lt)
                λ _.
                  Within-if k left mem dest n (is_pointer field.atype) _ _
                    (λ _. Within-unchanged left mem dest n _ s' safe lt)
                    λ _.
                      Within-if k left mem dest n (ltb field.data_size (size + 4)) _ _
                        (λ _. Within-unchanged left mem dest n _ s' safe lt)
                        λ fits.
                          let room = ltb→ge field.data_size (size + 4) fits in
                          Within-read_into left mem (store mem dest 4 size) dest n (dest + 4) size
                            s' safe lt
                            (λ x o. store-Outside mem dest 4 size x (ground (arith, room)))
                            λ x o. ground (arith, room)
    where
      n : ℕ
      n = field.data_size

      left : ℕ
      left = s.bytes_left

  Within-terminate :
      (left : ℕ) (mem : Memory) (dest n a : ℕ) (d : Decoded)
      → ((x : ℕ) → Outside dest n x → x ≢ a)
      → Within k left mem dest n d
      → Within k left mem dest n (terminate a d)
  unfolding Within terminate
  Within-terminate left mem dest n a (decoded true mem' s) h (safe, lt, same) =
      (safe, lt, λ x o. put-other mem' a 0 x (h x o) ∙ same x o)
  Within-terminate left mem dest n a (decoded false mem' s) h (safe, le, same) =
      (safe, le, λ x o. put-other mem' a 0 x (h x o) ∙ same x o)
  Within-terminate left mem dest n a lost h l = l

  -- pb_dec_string, on a stream over a buffer of bytes that holds bytes_left bytes and `k` more,
  -- whatever they are, ends, reads no byte outside of the buffer, leaves a stream whose buffer
  -- holds its bytes_left bytes, which are fewer than before if it returns true, and the `k`
  -- more, and changes no byte of memory outside of the data_size bytes of the field at `dest`.
  pub Within-pb_dec_string :
      (s : IStream) (mem : Memory) (field : Field) (dest : ℕ)
      → IsSafe k s
      → Within k s.bytes_left mem dest field.data_size (pb_dec_string s mem field dest)
  unfolding pb_dec_string
  Within-pb_dec_string s mem field dest h =
      Within-head k pb_decode_varint32 mem dest n _ Safe-pb_decode_varint32 Took-pb_decode_varint32
        s h
        λ size s' safe lt.
          Within-if k left mem dest n (ltb ((size + 1) % u32_mod) size) _ _
            (λ _. Within-unchanged left mem dest n _ s' safe lt)
            λ whole.
              Within-if k left mem dest n (is_pointer field.atype) _ _
                (λ _. Within-unchanged left mem dest n _ s' safe lt)
                λ _.
                  Within-if k left mem dest n (ltb field.data_size ((size + 1) % u32_mod)) _ _
                    (λ _. Within-unchanged left mem dest n _ s' safe lt)
                    λ fits.
                      let room =
                        room_for size field.data_size (ltb→ge ((size + 1) % u32_mod) size whole)
                          (ltb→ge field.data_size ((size + 1) % u32_mod) fits) in
                      Within-terminate left mem dest n (dest + size) _
                        (λ x o e. ground (arith, room))
                        (Within-read_into left mem mem dest n dest size s' safe lt (λ x o. refl)
                          λ x o. ground (arith, room))
    where
      n : ℕ
      n = field.data_size

      left : ℕ
      left = s.bytes_left

      room_for :
          (size n : ℕ) → size ≤ (size + 1) % u32_mod → (size + 1) % u32_mod ≤ n → size + 1 ≤ n
      room_for size n h l = omega arith

  -- pb_dec_fixed_length_bytes, on a stream over a buffer of bytes that holds bytes_left bytes
  -- and `k` more, whatever they are, ends, reads no byte outside of the buffer, leaves a stream
  -- whose buffer holds its bytes_left bytes, which are fewer than before if it returns true,
  -- and the `k` more, and changes no byte of memory outside of the data_size bytes of the field
  -- at `dest`.
  pub Within-pb_dec_fixed_length_bytes :
      (s : IStream) (mem : Memory) (field : Field) (dest : ℕ)
      → IsSafe k s
      → Within k s.bytes_left mem dest field.data_size (pb_dec_fixed_length_bytes s mem field dest)
  unfolding pb_dec_fixed_length_bytes
  Within-pb_dec_fixed_length_bytes s mem field dest h =
      Within-head k pb_decode_varint32 mem dest n _ Safe-pb_decode_varint32 Took-pb_decode_varint32
        s h
        λ size s' safe lt.
          Within-if k left mem dest n (ltb pb_size_max size) _ _
            (λ _. Within-unchanged left mem dest n _ s' safe lt)
            λ _.
              Within-if k left mem dest n (size == 0) _ _
                (λ _. Within-decoded k left mem dest n _ true s' safe lt (clear-Outside mem dest n))
                λ _.
                  Within-if k left mem dest n (size == field.data_size) _ _
                    (λ _.
                      Within-read_into left mem mem dest n dest n s' safe lt (λ x o. refl) λ x o. o)
                    λ _. Within-unchanged left mem dest n _ s' safe lt
    where
      n : ℕ
      n = field.data_size

      left : ℕ
      left = s.bytes_left
