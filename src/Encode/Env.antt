-- ===== src/Encode/Env.antt =====
-- What a run of the encoder or the decoder is given besides its stream and message.
use get_together.Common.{ℕ, List}
use get_together.Pb.{Outcome}
use get_together.Pb.Field.{Field}
use get_together.OStream.{OStream}
use get_together.Memory.{Memory}

-- `fields_at` reads an array of descriptors, up to its PB_LAST_FIELD. The functions of the user
-- are known by their addresses: the `encode` of a callback takes the stream, the field and the
-- address of `arg`; that of an extension type takes the stream and the extension.
pub record Env : Type 0 where
  pub mem : Memory
  pub fields_at : ℕ → List Field
  pub callback_encode : ℕ → OStream → Field → ℕ → Outcome OStream
  pub extension_encode : ℕ → OStream → ℕ → Outcome OStream
