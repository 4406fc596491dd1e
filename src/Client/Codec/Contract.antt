-- ===== src/Client/Codec/Contract.antt =====
-- zenbedded_rcl/include/zenbedded_rcl/codecs.hpp: what the client asks of a codec, the operations
-- apart from the laws. An access outside a buffer is a fault, `none`.
use zephyr_zenoh_integration.Prelude.{ℕ, ◌-◌, ◌≤◌, ◌≡◌, Bool, true, ◌++◌, Option, some, length}
use zephyr_zenoh_integration.Prelude.Bytes.{Buffer, zeros}

-- A codec of an outgoing channel.
pub record StateCodec : Type 1 where
  pub Ctx : Type 0
  pub InitParams : Type 0
  pub Value : Type 0
  pub default_ctx : Ctx
  pub init : InitParams → Buffer → Option (Ctx × Buffer)
  pub payload_size : Ctx → ℕ
  pub write : Ctx → Value → Buffer → Option Buffer

-- A codec of an incoming channel; a `Value` is what the out parameter holds.
pub record CommandCodec : Type 1 where
  pub Ctx : Type 0
  pub InitParams : Type 0
  pub Value : Type 0
  pub default_ctx : Ctx
  pub init : InitParams → Buffer → Option (Ctx × Buffer)
  pub payload_size : Ctx → ℕ
  pub read : Ctx → Buffer → ℕ → Value → Option (Bool × Value)

-- What a channel of parameters `p` carries: messages with an encoding of one size. `init` writes the
-- blank one into a cleared buffer that is large enough, and `write` puts a value into the message
-- that stands there, whatever stands behind it.
pub record StateLaws (codec : StateCodec) (p : codec.InitParams) : Type 1 where
  pub Message : Type 0
  pub ctx : codec.Ctx
  pub encode : Message → Buffer
  pub IsShaped : Message → Type 0
  pub Suits : codec.Value → Type 0
  pub blank : Message
  pub update : codec.Value → Message → Message
  pub blank-IsShaped : IsShaped blank
  pub update-IsShaped :
      (v : codec.Value) (m : Message) → Suits v → IsShaped m → IsShaped (update v m)
  pub length-encode : (m : Message) → IsShaped m → length (encode m) ≡ codec.payload_size ctx
  pub init_blank :
      (size : ℕ)
      → codec.payload_size ctx ≤ size
      → codec.init p (zeros size)
        ≡ some (ctx, encode blank ++ zeros (size - codec.payload_size ctx))
  pub write_message :
      (v : codec.Value) (m : Message) (tail : Buffer)
      → Suits v
      → IsShaped m
      → codec.write ctx v (encode m ++ tail) ≡ some (encode (update v m) ++ tail)

-- Likewise for incoming messages: the context does not depend on what stands in the scratch buffer,
-- and `read` gives the message's value to a target with room.
pub record CommandLaws (codec : CommandCodec) (p : codec.InitParams) : Type 1 where
  pub Message : Type 0
  pub ctx : codec.Ctx
  pub encode : Message → Buffer
  pub IsShaped : Message → Type 0
  pub HasRoom : codec.Value → Type 0
  pub fill : Message → codec.Value → codec.Value
  pub length-encode : (m : Message) → IsShaped m → length (encode m) ≡ codec.payload_size ctx
  pub init_any :
      (scratch : Buffer)
      → codec.payload_size ctx ≤ length scratch
      → (left : Buffer) × (codec.init p scratch ≡ some (ctx, left))
  pub read_message :
      (m : Message) (out : codec.Value)
      → IsShaped m
      → HasRoom out
      → codec.read ctx (encode m) (codec.payload_size ctx) out ≡ some (true, fill m out)
