-- ===== src/Trip/Runs.antt =====
-- Runs of bytes from a memory through a length and the bytes to another memory.
use native.Mathlib.Nat.{mod-eq_of_lt}
use get_together.Common.{
  ℕ, ◌+◌, ◌≤◌, ◌<◌, ◌≡◌, refl, sym, ap, ◌∙◌, true, false, inl, List, ◌++◌, length, length-append,
  append_assoc, take-length, ltb, ◌==◌, arith,
}
use get_together.Pb.{u32_mod, u64_mod}
use get_together.Pb.Field.{Field, static}
use get_together.Memory.{
  Memory, IsMemory, load, load-lt, load_bytes, length-load_bytes, string_length, string_length-zero,
}
use get_together.OStream.Emits.{Emits}
use get_together.OStream.Uniform.{Emits-cong}
use get_together.IStream.{IStream, ok}
use get_together.IStream.Reads.{Holds, after, pb_read-buffer}
use get_together.Encode.{pb_encode_string}
use get_together.Encode.Varint.{varint_bytes, varint_bytes-shape}
use get_together.Encode.Wire.{string_bytes, Emits-pb_encode_string}
use get_together.Encode.Env.{Env}
use get_together.Encode.Fields.{pb_enc_bytes, pb_enc_string, pb_enc_fixed_length_bytes}
use get_together.Decode.{pb_decode_varint32}
use get_together.Decode.RoundTrip.{Holds-cong, pb_decode_varint32-varint_bytes}
use get_together.Decode.Fields.{
  decoded, put, terminate, store, store_bytes, read_then, read_into, pb_dec_bytes, pb_dec_string,
  pb_dec_fixed_length_bytes,
}
use get_together.Decode.Fields.Within.{Frame, put-other, store-Outside, store_bytes-Outside}
use get_together.Trip.Cells.{
  SameBytes, store-SameBytes, store_bytes-SameBytes, Frame-SameBytes, SameBytes-join, put-same,
}
use get_together.Trip.Values.{Carries}

read_into-buffer :
    (bs : List ℕ) (s : IStream) (mem : Memory) (q n : ℕ) (rest : List ℕ)
    → length bs ≡ n
    → Holds s (bs ++ rest)
    → n ≤ s.bytes_left
    → read_into s mem q n ≡ decoded true (store_bytes mem q bs) (after s n rest)
unfolding read_into read_then
read_into-buffer bs s mem q n rest same holds left =
    rw (← same) (rw (pb_read-buffer s bs rest holds (omega arith), take-length bs) refl)

-- Reading a length `n`, which is that of the bytes behind it.
module _ (bs : List ℕ) (n : ℕ) (same : length bs ≡ n) (small : n < u32_mod) (s : IStream)
    (rest : List ℕ) (holds : Holds s (string_bytes bs ++ rest))
    (left : length (string_bytes bs) ≤ s.bytes_left) where
  -- The stream behind the length.
  abbrev opened : IStream
  opened = after s (length (varint_bytes n)) (bs ++ rest)

  whole_length : length (varint_bytes n) + n ≡ length (string_bytes bs)
  unfolding string_bytes
  whole_length = omega (
    arith,
    same,
    length-append (varint_bytes (length bs)) bs,
    ap (λ (t : ℕ). length (varint_bytes t)) same,
  )

  length_read : pb_decode_varint32 s ≡ ok n opened
  unfolding string_bytes
  length_read =
      pb_decode_varint32-varint_bytes n small s (bs ++ rest)
        (Holds-cong s _ _
          (append_assoc (varint_bytes (length bs)) bs rest
            ∙ ap (λ (t : ℕ). varint_bytes t ++ (bs ++ rest)) same)
          holds)
        (omega (arith, whole_length))

  read_into-opened :
      (mem : Memory) (q : ℕ)
      → read_into opened mem q n
        ≡ decoded true (store_bytes mem q bs) (after s (length (string_bytes bs)) rest)
  read_into-opened mem q =
      read_into-buffer bs opened mem q n rest same
        (record { on_buffer = holds.on_buffer; holds = refl }) (omega (arith, whole_length))
      ∙ ap
          (λ (t : ℕ).
            decoded true (store_bytes mem q bs) (record s { state = rest; bytes_left = t }))
          (omega (arith, whole_length))

string_bytes-some : (bs : List ℕ) → length bs < u64_mod → 1 ≤ length (string_bytes bs)
unfolding string_bytes
string_bytes-some bs h =
    let (all, some_byte, ten) = varint_bytes-shape (length bs) h in
    omega (arith, some_byte, length-append (varint_bytes (length bs)) bs)

string_bytes-bounded :
    (bs : List ℕ) → length bs < u64_mod → length (string_bytes bs) ≤ 10 + length bs
unfolding string_bytes
string_bytes-bounded bs h =
    let (all, some_byte, ten) = varint_bytes-shape (length bs) h in
    omega (arith, ten, length-append (varint_bytes (length bs)) bs)

fits_size : (n : ℕ) → n < u32_mod → ltb 0xffff_ffff n ≡ false
fits_size n h = ground arith

not_less : (a b : ℕ) → b ≤ a → ltb a b ≡ false
not_less a b h = ground arith

not_zero : (n : ℕ) → 0 < n → (n == 0) ≡ false
not_zero n h = ground arith

self_eq : (n : ℕ) → (n == n) ≡ true
self_eq n = ground arith

module _ (e : Env) (cells : IsMemory e.mem) (field : Field) (p : ℕ) where
  Emits-load_bytes :
      (a n : ℕ)
      → n < u64_mod
      → Emits
          (λ s. pb_encode_string s (load_bytes e.mem a n) n)
          (string_bytes (load_bytes e.mem a n))
  Emits-load_bytes a n lt =
      let same : length (load_bytes e.mem a n) ≡ n = length-load_bytes e.mem a n in
      Emits-cong _ _ _ (λ s. ap (pb_encode_string s (load_bytes e.mem a n)) (sym same))
        (Emits-pb_encode_string (load_bytes e.mem a n) (omega (arith, same)))

  pub Carries-fixed_length_bytes :
      0 < field.data_size
      → field.data_size < u32_mod
      → Carries
          (λ s. pb_enc_fixed_length_bytes e s field p)
          (λ s mem q. pb_dec_fixed_length_bytes s mem field q)
          field.data_size
          (λ mem q. SameBytes e.mem p mem q field.data_size)
  unfolding pb_enc_fixed_length_bytes pb_dec_fixed_length_bytes read_then
  Carries-fixed_length_bytes some_byte few =
      let bs : List ℕ = load_bytes e.mem p field.data_size in
      let same : length bs ≡ field.data_size = length-load_bytes e.mem p field.data_size in
      record {
        bytes = string_bytes bs;
        some_byte = string_bytes-some bs (omega (arith, same));
        bounded = omega (arith, same, string_bytes-bounded bs (omega (arith, same)));
        emits = Emits-load_bytes p field.data_size (omega arith);
        reads = λ small s mem q rest holds left. (
          store_bytes mem q bs,
          rw
              (
                length_read bs field.data_size same few s rest holds left,
                fits_size field.data_size few,
                not_zero field.data_size some_byte,
                self_eq field.data_size,
              )
              (read_into-opened bs field.data_size same few s rest holds left mem q),
          λ x o. store_bytes-Outside mem q field.data_size x bs (omega (arith, same)) o,
          store_bytes-SameBytes e.mem field.data_size p q mem,
        );
      }

  -- pb_bytes_array_t, whose `size` fits in the field.
  pub Carries-bytes :
      (field.atype ≡ static)
      → 0 < p
      → load e.mem p 4 + 4 ≤ field.data_size
      → Carries
          (λ s. pb_enc_bytes e s field p)
          (λ s mem q. pb_dec_bytes s mem field q)
          field.data_size
          (λ mem q. SameBytes e.mem p mem q (4 + load e.mem p 4))
  unfolding pb_enc_bytes pb_dec_bytes read_then
  Carries-bytes kept somewhere fits =
      let n : ℕ = load e.mem p 4 in
      let bs : List ℕ = load_bytes e.mem (p + 4) n in
      let same : length bs ≡ n = length-load_bytes e.mem (p + 4) n in
      let few : n < u32_mod = omega (arith, load-lt e.mem p 4 cells) in
      record {
        bytes = string_bytes bs;
        some_byte = string_bytes-some bs (omega (arith, same));
        bounded = omega (arith, same, string_bytes-bounded bs (omega (arith, same)));
        emits =
            rw (kept, not_zero p somewhere, not_less field.data_size (n + 4) fits)
              (Emits-load_bytes (p + 4) n (omega arith));
        reads = λ small s mem q rest holds left. (
          store_bytes (store mem q 4 n) (q + 4) bs,
          rw
              (
                length_read bs n same few s rest holds left,
                fits_size n few,
                not_less (n + 4) n (omega arith),
                kept,
                not_less field.data_size (n + 4) fits,
              )
              (read_into-opened bs n same few s rest holds left (store mem q 4 n) (q + 4)),
          run_Frame mem q n bs same fits,
          SameBytes-join e.mem (store_bytes (store mem q 4 n) (q + 4) bs) p q 4 n
              (Frame-SameBytes e.mem (store mem q 4 n) _ p q 4 (q + 4) n
                (λ x o.
                  store_bytes-Outside (store mem q 4 n) (q + 4) n x bs (omega (arith, same)) o)
                (λ i lt. inl (omega arith)) (store-SameBytes e.mem cells 4 p q mem))
              (store_bytes-SameBytes e.mem n (p + 4) (q + 4) (store mem q 4 n)),
        );
      }
    where
      run_Frame :
          (mem : Memory) (q n : ℕ) (bs : List ℕ)
          → length bs ≡ n
          → n + 4 ≤ field.data_size
          → Frame mem q field.data_size (store_bytes (store mem q 4 n) (q + 4) bs)
      run_Frame mem q n bs same fits x o =
          store_bytes-Outside (store mem q 4 n) (q + 4) n x bs (omega (arith, same)) (ground arith)
          ∙ store-Outside mem q 4 n x (ground arith)

  -- A string that ends within the field.
  pub Carries-string :
      field.atype ≡ static
      → 0 < p
      → field.data_size < u32_mod
      → string_length e.mem p field.data_size < field.data_size
      → Carries
          (λ s. pb_enc_string e s field p)
          (λ s mem q. pb_dec_string s mem field q)
          field.data_size
          (λ mem q. SameBytes e.mem p mem q (string_length e.mem p field.data_size + 1))
  unfolding pb_enc_string pb_dec_string read_then terminate
  Carries-string kept somewhere narrow ends =
      let n : ℕ = string_length e.mem p field.data_size in
      let bs : List ℕ = load_bytes e.mem p n in
      let same : length bs ≡ n = length-load_bytes e.mem p n in
      record {
        bytes = string_bytes bs;
        some_byte = string_bytes-some bs (omega (arith, same));
        bounded = omega (arith, same, string_bytes-bounded bs (omega (arith, same)));
        emits = rw (kept, not_zero p somewhere) (Emits-load_bytes p n (omega arith));
        reads = λ small s mem q rest holds left.
            let few : n + 1 < u32_mod = omega arith in
            (
              put (store_bytes mem q bs) (q + n) 0,
              rw
                  (
                    length_read bs n same (omega arith) s rest holds left,
                    mod-eq_of_lt few,
                    not_less (n + 1) n (omega arith),
                    kept,
                    not_less field.data_size (n + 1) (omega arith),
                    read_into-opened bs n same (omega arith) s rest holds left mem q,
                  )
                  refl,
              λ x o.
                  put-other (store_bytes mem q bs) (q + n) 0 x (λ e. ground arith)
                  ∙ store_bytes-Outside mem q n x bs (omega (arith, same)) (ground arith),
              SameBytes-join e.mem (put (store_bytes mem q bs) (q + n) 0) p q n 1
                  (Frame-SameBytes e.mem (store_bytes mem q bs) _ p q n (q + n) 1
                    (λ x o. put-other (store_bytes mem q bs) (q + n) 0 x (λ e. ground arith))
                    (λ i lt. inl (omega arith)) (store_bytes-SameBytes e.mem n p q mem))
                  (λ i lt.
                    ap (put (store_bytes mem q bs) (q + n) 0) (at_once (q + n) i lt)
                    ∙ put-same (store_bytes mem q bs) (q + n) 0
                    ∙ sym (string_length-zero e.mem p field.data_size ends)
                    ∙ ap e.mem (sym (at_once (p + n) i lt))),
            );
      }
    where
      at_once : (x i : ℕ) → i < 1 → x + i ≡ x
      at_once x i lt = omega arith
