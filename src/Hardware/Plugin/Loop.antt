-- ===== src/Hardware/Plugin/Loop.antt =====
-- zenbedded_hardware_interface/src/zenbedded_hardware.cpp: the subscriber's callback, read and write.
use zephyr_zenoh_integration.Prelude.{
  ℕ, zero, suc, ◌==◌, Bool, true, false, List, Option, none, some, ◌>>=◌, get_elem?, length,
  if◌then◌else◌,
}
use zephyr_zenoh_integration.Prelude.Bytes.{Buffer}
use zephyr_zenoh_integration.Hardware.Schema.Types.{InterfaceSchema}
use zephyr_zenoh_integration.Hardware.Schema.Fields.{read_state_field, write_command_field}
use zephyr_zenoh_integration.Hardware.Plugin.State.{Platform, ZenbeddedHardware, set_elem?}

module _ (platform : Platform) where
  -- The callback of the subscriber.
  unfoldable pub on_state : Buffer → ZenbeddedHardware platform → ZenbeddedHardware platform
  on_state bytes hw =
      if length bytes == hw.schema.state_buffer_size
      then record hw { state_buffer = platform.buffers.write_from_non_rt bytes hw.state_buffer }
      else hw

  -- `n` more rounds of the loop of `read`, from index `i`.
  unfoldable pub read_fields : InterfaceSchema → Buffer → ℕ → ℕ → List ℕ → Option (List ℕ)
  read_fields schema buffer i zero states = some states
  read_fields schema buffer i (suc n) states = do
    value ← read_state_field platform.casts schema buffer i
    written ← set_elem? i value states
    read_fields schema buffer (suc i) n written

  -- `if (buf && buf->size() == schema_.state_buffer_size())`
  unfoldable pub decode : InterfaceSchema → Option Buffer → List ℕ → Option (List ℕ)
  unfolding read_fields
  decode schema none states = some states
  decode schema (some buffer) states =
      if length buffer == schema.state_buffer_size
      then read_fields schema buffer 0 (length schema.state_flat_fields) states
      else some states

  unfoldable pub read : ZenbeddedHardware platform → Option (ZenbeddedHardware platform)
  unfolding decode
  read hw = do
    let (buffer, cell) = platform.buffers.read_from_rt hw.state_buffer
    states ← decode hw.schema buffer hw.hw_states
    some (record hw { state_buffer = cell; hw_states = states })

  -- `n` more rounds of the loop of `write`, from index `i`.
  unfoldable pub write_fields : InterfaceSchema → List ℕ → ℕ → ℕ → Buffer → Option Buffer
  write_fields schema commands i zero buffer = some buffer
  write_fields schema commands i (suc n) buffer = do
    value ← get_elem? commands i
    written ← write_command_field platform.casts schema buffer i value
    write_fields schema commands (suc i) n written

  -- The bytes that `command_pub_->put` gets, if it is called.
  unfoldable pub publish :
      Bool → ZenbeddedHardware platform → Option (ZenbeddedHardware platform × Option Buffer)
  unfolding write_fields
  publish false hw = some (hw, none)
  publish true hw = do
    buffer ←
        write_fields hw.schema hw.hw_commands 0 (length hw.schema.command_flat_fields)
          hw.command_buffer
    some (record hw { command_buffer = buffer }, some buffer)

  unfoldable pub write :
      ZenbeddedHardware platform → Option (ZenbeddedHardware platform × Option Buffer)
  unfolding publish
  write hw = publish hw.command_pub hw
