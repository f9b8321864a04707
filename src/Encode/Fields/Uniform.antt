-- ===== src/Encode/Fields/Uniform.antt =====
-- The encoders of a single value write fixed bytes, or fail.
use get_together.Common.{
  ℕ, ◌+◌, ◌*◌, ◌<◌, ◌≡◌, refl, Option, none, some, List, [], length, arith, case_option, ◌⊎◌, inl,
  inr, ◌==◌, if◌then◌else◌,
}
use get_together.Pb.{u64_mod, invalid_data_size, bytes_size_exceeded}
use get_together.Pb.Field.{Field, AType, static, pointer, callback, reserved}
use get_together.Memory.{
  Memory, IsMemory, load, load-lt, length-load_bytes, sign_extend, string_length, string_length-le,
}
use get_together.OStream.Emits.{Action, Emits}
use get_together.OStream.Uniform.{Uniform, emits, Uniform-error, Uniform-if}
use get_together.Encode.{pb_encode_string}
use get_together.Encode.Varint.{Emits-pb_encode_varint}
use get_together.Encode.Wire.{
  le_bytes, string_bytes, Emits-pb_encode_fixed32, Emits-pb_encode_fixed64, Emits-pb_encode_string,
  Emits-pb_encode_svarint,
}
use get_together.Encode.Env.{Env}
use get_together.Encode.Fields.{
  string_limit, load_int, pb_enc_varint, pb_enc_uvarint, pb_enc_svarint, pb_enc_fixed32,
  pb_enc_fixed64, pb_enc_bytes, pb_enc_string, pb_enc_fixed_length_bytes,
}

-- The integer types have 1, 2, 4 or 8 bytes.
load_int-size :
    (mem : Memory) (field : Field) (src v : ℕ)
    → load_int mem field src ≡ some v
    → (n : ℕ) × (field.data_size ≡ n)
      × (v ≡ load mem src n)
      × ((n ≡ 1) ⊎ ((n ≡ 2) ⊎ ((n ≡ 4) ⊎ (n ≡ 8))))
unfolding load_int
load_int-size mem field src v e = (field.data_size, refl, ground arith, ground arith)

pub sign_extend-lt :
    (mem : Memory) (src n : ℕ)
    → IsMemory mem
    → ((n ≡ 1) ⊎ ((n ≡ 2) ⊎ ((n ≡ 4) ⊎ (n ≡ 8))))
    → sign_extend (8 * n) (load mem src n) < u64_mod
unfolding sign_extend
sign_extend-lt mem src n h (inl e) = rw e (ground (arith, load-lt mem src 1 h))
sign_extend-lt mem src n h (inr (inl e)) = rw e (ground (arith, load-lt mem src 2 h))
sign_extend-lt mem src n h (inr (inr (inl e))) = rw e (ground (arith, load-lt mem src 4 h))
sign_extend-lt mem src n h (inr (inr (inr e))) = rw e (ground (arith, load-lt mem src 8 h))

load-lt_u64 :
    (mem : Memory) (src n : ℕ)
    → IsMemory mem
    → ((n ≡ 1) ⊎ ((n ≡ 2) ⊎ ((n ≡ 4) ⊎ (n ≡ 8))))
    → load mem src n < u64_mod
load-lt_u64 mem src n h (inl e) = rw e (omega (arith, load-lt mem src 1 h))
load-lt_u64 mem src n h (inr (inl e)) = rw e (omega (arith, load-lt mem src 2 h))
load-lt_u64 mem src n h (inr (inr (inl e))) = rw e (omega (arith, load-lt mem src 4 h))
load-lt_u64 mem src n h (inr (inr (inr e))) = rw e (omega (arith, load-lt mem src 8 h))

load_int-lt :
    (mem : Memory) (field : Field) (src v : ℕ)
    → IsMemory mem
    → load_int mem field src ≡ some v
    → v < u64_mod
load_int-lt mem field src v h x =
    let (n, _, value, size) = load_int-size mem field src v x in
    rw value (load-lt_u64 mem src n h size)

pub Uniform-option {ℓ} :
    {A : Type ℓ} (o : Option A) (act : Action) (f : A → Action)
    → (o ≡ none → Uniform act)
    → ((a : A) → o ≡ some a → Uniform (f a))
    → Uniform (λ s. case_option o (act s) (λ a. f a s))
Uniform-option none act f h k = h refl
Uniform-option (some a) act f h k = k a refl

pub Uniform-encode_string :
    (bs : List ℕ) (n : ℕ) → length bs ≡ n → n < u64_mod → Uniform (λ s. pb_encode_string s bs n)
Uniform-encode_string bs n e h =
    rw (← e) (emits (string_bytes bs) (Emits-pb_encode_string bs (rw e h)))

string_limit-lt :
    (field : Field) (a : AType)
    → field.atype ≡ a
    → field.data_size < u64_mod
    → string_limit field < u64_mod
string_limit-lt field static x h = rw x h
string_limit-lt field pointer x h = rw x (omega arith)
string_limit-lt field callback x h = rw x h
string_limit-lt field reserved x h = rw x h

read_length-lt :
    (mem : Memory) (field : Field) (src : ℕ)
    → field.data_size < u64_mod
    → (if src == 0 then 0 else string_length mem src (string_limit field)) < u64_mod
read_length-lt mem field src h =
    ground
      (arith, string_length-le mem src (string_limit field), string_limit-lt field field.atype refl)

module _ (e : Env) (bytes : IsMemory e.mem) (field : Field) (src : ℕ) where
  pub Uniform-pb_enc_varint : Uniform (λ s. pb_enc_varint e s field src)
  unfolding pb_enc_varint
  Uniform-pb_enc_varint =
      Uniform-option (load_int e.mem field src) _ _ (λ _. Uniform-error invalid_data_size)
        λ v x.
          let (n, k, value, size) = load_int-size e.mem field src v x in
          rw (k, value)
            (emits _ (
              Emits-pb_encode_varint (sign_extend (8 * n) (load e.mem src n))
                (sign_extend-lt e.mem src n bytes size)))

  pub Uniform-pb_enc_uvarint : Uniform (λ s. pb_enc_uvarint e s field src)
  unfolding pb_enc_uvarint
  Uniform-pb_enc_uvarint =
      Uniform-option (load_int e.mem field src) _ _ (λ _. Uniform-error invalid_data_size)
        λ v x. emits _ (Emits-pb_encode_varint v (load_int-lt e.mem field src v bytes x))

  pub Uniform-pb_enc_svarint : Uniform (λ s. pb_enc_svarint e s field src)
  unfolding pb_enc_svarint
  Uniform-pb_enc_svarint =
      Uniform-option (load_int e.mem field src) _ _ (λ _. Uniform-error invalid_data_size)
        λ v x. emits _ (Emits-pb_encode_svarint (sign_extend (8 * field.data_size) v))

  pub Emits-pb_enc_fixed32 :
      Emits (λ s. pb_enc_fixed32 e s field src) (le_bytes 4 (load e.mem src 4))
  unfolding pb_enc_fixed32
  Emits-pb_enc_fixed32 = Emits-pb_encode_fixed32 (load e.mem src 4)

  pub Emits-pb_enc_fixed64 :
      Emits (λ s. pb_enc_fixed64 e s field src) (le_bytes 8 (load e.mem src 8))
  unfolding pb_enc_fixed64
  Emits-pb_enc_fixed64 = Emits-pb_encode_fixed64 (load e.mem src 8)

  pub Uniform-pb_enc_bytes : Uniform (λ s. pb_enc_bytes e s field src)
  unfolding pb_enc_bytes
  Uniform-pb_enc_bytes =
      Uniform-if (src == 0) (λ s. pb_encode_string s [] 0) _
        (λ _. Uniform-encode_string [] 0 refl (omega arith))
        λ _.
          Uniform-if _ _ _ (λ _. Uniform-error bytes_size_exceeded)
            λ _.
              Uniform-encode_string _ _ (length-load_bytes e.mem (src + 4) (load e.mem src 4))
                (omega (arith, load-lt e.mem src 4 bytes))

  pub Uniform-pb_enc_string : field.data_size < u64_mod → Uniform (λ s. pb_enc_string e s field src)
  unfolding pb_enc_string
  Uniform-pb_enc_string h =
      Uniform-encode_string _ _ (length-load_bytes e.mem src _) (read_length-lt e.mem field src h)

  pub Uniform-pb_enc_fixed_length_bytes :
      field.data_size < u64_mod → Uniform (λ s. pb_enc_fixed_length_bytes e s field src)
  unfolding pb_enc_fixed_length_bytes
  Uniform-pb_enc_fixed_length_bytes h =
      Uniform-encode_string _ _ (length-load_bytes e.mem src field.data_size) h
