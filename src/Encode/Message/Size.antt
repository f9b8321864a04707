-- ===== src/Encode/Message/Size.antt =====
-- pb_get_encoded_size against pb_encode on a buffer.
use native.Mathlib.Nat.{zero-add, mod-eq_of_lt}
use get_together.Common.{
  ℕ, ◌%◌, ◌≤◌, ◌<◌, ◌≡◌, ◌⊎◌, inl, inr, refl, ap, ◌∙◌, true, false, none, some, List, length, arith,
}
use get_together.Pb.{returns, size_mod}
use get_together.Pb.Field.{Field}
use get_together.Memory.{IsMemory}
use get_together.OStream.{OStream, pb_ostream_sizing, pb_ostream_from_buffer}
use get_together.OStream.Emits.{Ends, Emits, Fails}
use get_together.OStream.Uniform.{emits, fails, Uniform-Ends}
use get_together.Encode.Env.{Env}
use get_together.Encode.Message.{pb_encode, size_result, pb_get_encoded_size}
use get_together.Encode.Message.Plain.{IsNested}
use get_together.Encode.Message.Uniform.{Uniform-pb_encode}

-- What pb_encode does with a buffer of any size when the message has the bytes `bs`.
abbrev pub FillsBuffers : Env → ℕ → List Field → ℕ → List ℕ → Type 0
FillsBuffers e depth fields src bs =
    ((max : ℕ)
      → max < size_mod
      → length bs ≤ max
      → pb_encode e depth fields src (pb_ostream_from_buffer max)
        ≡ returns true
            (record (pb_ostream_from_buffer max) { state = bs; bytes_written = length bs }))
    × ((max : ℕ)
        → max < length bs
        → (s : OStream) × (pb_encode e depth fields src (pb_ostream_from_buffer max)
            ≡ returns false s))

abbrev pub FailsAlways : Env → ℕ → List Field → ℕ → Type 0
FailsAlways e depth fields src =
    (s : OStream) → (s' : OStream) × (pb_encode e depth fields src s ≡ returns false s')

announced :
    (e : Env) (depth : ℕ) (fields : List Field) (src : ℕ) (bs : List ℕ)
    → Emits (λ s. pb_encode e depth fields src s) bs
    → pb_get_encoded_size e depth fields src ≡ some (true, some (length bs % size_mod))
unfolding pb_get_encoded_size size_result
announced e depth fields src bs h =
    ap size_result (h.sizing pb_ostream_sizing refl (omega arith))
    ∙ ap (λ (t : ℕ). some (true, some (t % size_mod))) (zero-add (length bs))

pub size_of-Emits :
    (e : Env) (depth : ℕ) (fields : List Field) (src : ℕ) (bs : List ℕ)
    → Emits (λ s. pb_encode e depth fields src s) bs
    → length bs < size_mod
    → (pb_get_encoded_size e depth fields src ≡ some (true, some (length bs)))
      × FillsBuffers e depth fields src bs
unfolding pb_ostream_from_buffer
size_of-Emits e depth fields src bs h few = (
  announced e depth fields src bs h ∙ ap (λ (t : ℕ). some (true, some t)) (mod-eq_of_lt few),
  (
    (λ max small le.
        h.fits (pb_ostream_from_buffer max) refl refl small (omega arith)
        ∙ ap
            (λ (t : ℕ).
              returns true (record (pb_ostream_from_buffer max) { state = bs; bytes_written = t }))
            (zero-add (length bs))),
    (λ max lt.
        h.full (pb_ostream_from_buffer max) refl refl (omega arith) (omega arith) (omega arith)),
  ),
)

size_of-Fails :
    (e : Env) (depth : ℕ) (fields : List Field) (src : ℕ)
    → Fails (λ s. pb_encode e depth fields src s)
    → (pb_get_encoded_size e depth fields src ≡ some (false, none))
unfolding pb_get_encoded_size size_result
size_of-Fails e depth fields src h = let (s', x) = h.at pb_ostream_sizing in ap size_result x

-- On a memory of bytes and descriptors of plain fields (static or pointer, no extension, counts
-- and which-fields placed in the struct, tags below 2^32, data sizes below 2^64) that are
-- nested less than `depth` deep, pb_encode ends and returns on every stream, whatever its
-- callback. Either pb_get_encoded_size returns true with a size below 2^64; or it returns
-- false, and pb_encode returns false on every stream.
pub pb_encode-Ends :
    (e : Env) (depth : ℕ) (fields : List Field) (src : ℕ)
    → IsMemory e.mem
    → IsNested e depth fields
    → Ends (λ s. pb_encode e depth fields src s)
      × (((n : ℕ) × (n < size_mod) × (pb_get_encoded_size e depth fields src ≡ some (true, some n)))
          ⊎ ((pb_get_encoded_size e depth fields src ≡ some (false, none))
              × FailsAlways e depth fields src))
pb_encode-Ends e depth fields src cells nested =
    let uniform = Uniform-pb_encode e depth fields src cells nested in
    (
      Uniform-Ends _ uniform,
      elim uniform [
        | emits bs h ↦ inl (length bs % size_mod, omega arith, announced e depth fields src bs h)
        | fails h ↦ inr (size_of-Fails e depth fields src h, h.at)
      ],
    )
