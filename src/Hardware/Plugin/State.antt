-- ===== src/Hardware/Plugin/State.antt =====
-- zenbedded_hardware_interface/include/zenbedded_hardware_interface/zenbedded_hardware.hpp: the
-- members of the plugin. zenoh, realtime_tools and the C++ casts are parameters.
use Prim.Native.String.{String}
use zephyr_zenoh_integration.Prelude.{
  ℕ, zero, suc, ◌-◌, ◌≡◌, Bool, List, [], ◌∷◌, ◌++◌, Option, none, some, ◌>>=◌, length, take,
  replicate,
}
use zephyr_zenoh_integration.Prelude.Bytes.{Buffer}
use zephyr_zenoh_integration.Hardware.Schema.Types.{InterfaceSchema}
use zephyr_zenoh_integration.Hardware.Schema.Fields.{Casts}
use zephyr_zenoh_integration.Hardware.Schema.Packing.{IsLaidOut}

-- `realtime_tools::RealtimeBuffer<std::vector<uint8_t>>` as one thread after another uses it: a read
-- gives the last value written and leaves it there.
pub record RealtimeBuffer : Type 1 where
  pub Cell : Type 0
  pub write_from_non_rt : Buffer → Cell → Cell
  pub read_from_rt : Cell → Option Buffer × Cell
  pub latest : Cell → Buffer
  pub latest-write_from_non_rt :
      (bytes : Buffer) (c : Cell) → latest (write_from_non_rt bytes c) ≡ bytes
  pub read_from_rt-latest : (c : Cell) → (read_from_rt c).0 ≡ some (latest c)
  pub latest-read_from_rt : (c : Cell) → latest (read_from_rt c).1 ≡ latest c

-- The doubles as bit patterns: the casts, the NaN that the plugin stores, and its test.
pub record Platform : Type 1 where
  pub casts : Casts
  pub buffers : RealtimeBuffer
  pub quiet_nan : ℕ
  pub is_nan : ℕ → Bool

pub data CallbackReturn : Type 0 where
  success error : CallbackReturn

-- A held pointer is `true`, a null pointer `false`.
pub record ZenbeddedHardware (platform : Platform) : Type 0 where
  pub session : Bool
  pub schema : InterfaceSchema
  pub state_buffer : platform.buffers.Cell
  pub command_buffer : Buffer
  pub state_sub : Bool
  pub command_pub : Bool
  pub hw_commands : List ℕ
  pub hw_states : List ℕ
  pub zenoh_endpoint : String
  pub zenoh_mode : String
  pub state_topic : String
  pub command_topic : String

-- `std::vector::resize(n, value)`.
abbrev pub resize {ℓ} : {A : Type ℓ} → ℕ → A → List A → List A
resize n value xs = take n xs ++ replicate (n - length xs) value

-- `xs[i] = value`, a fault out of range.
abbrev pub set_elem? {ℓ} : {A : Type ℓ} → ℕ → A → List A → Option (List A)
set_elem? i value [] = none
set_elem? zero value (x ∷ xs) = some (value ∷ xs)
set_elem? (suc i) value (x ∷ xs) = set_elem? i value xs >>= λ ys. some (x ∷ ys)

-- The sizes on which the control loop relies.
pub record IsReady (platform : Platform) (hw : ZenbeddedHardware platform) : Type 0 where
  pub laid_out : IsLaidOut hw.schema
  pub states : length hw.hw_states ≡ length hw.schema.state_flat_fields
  pub commands : length hw.hw_commands ≡ length hw.schema.command_flat_fields
  pub state_size : length (platform.buffers.latest hw.state_buffer) ≡ hw.schema.state_buffer_size
  pub command_size : length hw.command_buffer ≡ hw.schema.command_buffer_size
