-- ===== src/Decode/Env.antt =====
-- What a run of the message decoder is given besides its stream, its memory and the message.
use get_together.Common.{ℕ, List}
use get_together.Pb.Field.{Field, WireType}
use get_together.Memory.{Memory}
use get_together.IStream.{IStream}
use get_together.Decode.Fields.{Decoded}

-- `fields_at` reads an array of descriptors, up to its PB_LAST_FIELD. The functions of the user
-- are known by their addresses: the `decode` of a callback takes the stream, the field and the
-- address of `arg`; that of an extension type takes the stream, the extension, a tag and a wire
-- type.
pub record DecodeEnv : Type 0 where
  pub fields_at : ℕ → List Field
  pub callback_decode : ℕ → IStream → Memory → Field → ℕ → Decoded
  pub extension_decode : ℕ → IStream → Memory → ℕ → ℕ → WireType → Decoded
