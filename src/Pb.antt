-- ===== src/Pb.antt =====
-- Pods/nanopb/pb.h: what the encoder and the decoder share: error messages, the outcome of a
-- function that returns `bool`, the field types, the field descriptor.
pub mod Field
use get_together.Common.{ℕ, ◌^◌, ◌≡◌, Bool, true, false, Option, none, some}

-- The literals that PB_RETURN_ERROR and PB_SET_ERROR are called with.
pub data Message : Type 0 where
  stream_full io_error array_max_size_exceeded missing_required_field invalid_field_type : Message
  callback_error submsg_size_changed invalid_data_size bytes_size_exceeded : Message
  invalid_field_descriptor end_of_stream varint_overflow invalid_wire_type : Message
  parent_stream_too_short array_overflow no_malloc_support callback_failed integer_too_large :
      Message
  bytes_overflow size_too_large string_overflow incorrect_fixed_length_bytes_size : Message

-- PB_SET_ERROR: the first message stays.
unfoldable pub set_error : Option Message → Message → Option Message
set_error none msg = some msg
set_error (some old) msg = some old

-- What a call that returns `bool` leaves behind: the value and the state that it has changed.
-- `stuck` is no C value: the fuel of the model ran out, or C gives the run no meaning.
pub data Outcome {ℓ} (S : Type ℓ) : Type ℓ where
  returns : Bool → S → Outcome S
  stuck : Outcome S

-- `if (!call) return false; rest`
infixl 5 ◌>>=◌
abbrev pub ◌>>=◌ {ℓ} : {S : Type ℓ} → Outcome S → (S → Outcome S) → Outcome S
returns true s >>= k = k s
returns false s >>= k = returns false s
stuck >>= k = stuck

-- size_t and uint64_t have 64 bits, uint32_t and pb_size_t (PB_FIELD_32BIT) have 32.
abbrev pub size_mod : ℕ
size_mod = 2 ^ 64

abbrev pub u64_mod : ℕ
u64_mod = 2 ^ 64

abbrev pub u32_mod : ℕ
u32_mod = 2 ^ 32

abbrev pub pb_size_max : ℕ
pb_size_max = 0xffff_ffff
