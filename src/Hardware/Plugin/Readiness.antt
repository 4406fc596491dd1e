-- ===== src/Hardware/Plugin/Readiness.antt =====
-- zenbedded_hardware_interface/src/zenbedded_hardware.cpp: what the plugin promises its manager.
use mathlib.Core.Path.{ap₂}
use zephyr_zenoh_integration.Prelude.{
  ℕ, ◌-◌, ◌≡◌, refl, ap, ◌∙◌, ◌==◌, inl, inr, Bool, true, false, List, Option, none, some, arith,
  get_elem?, length, take, replicate, bind_step, if◌then◌else◌, Bool-cases, ==_iff, length-append,
  length-take, length-replicate,
}
use zephyr_zenoh_integration.Prelude.Bytes.{Buffer}
use zephyr_zenoh_integration.Hardware.Schema.Types.{FlatField}
use zephyr_zenoh_integration.Hardware.Schema.Fields.{read_command_field}
use zephyr_zenoh_integration.Hardware.Plugin.State.{Platform, ZenbeddedHardware, resize, IsReady}
use zephyr_zenoh_integration.Hardware.Plugin.Loop.{on_state, decode, read, publish, write}
use zephyr_zenoh_integration.Hardware.Plugin.Cycle.{decoded, decode-decoded, write_fields-Writes}

length-resize : {A : Type 0} (n : ℕ) (x : A) (xs : List A) → length (resize n x xs) ≡ n
length-resize n x xs = omega (
  arith,
  length-append (take n xs) (replicate (n - length xs) x),
  length-take n xs,
  length-replicate (n - length xs) x,
)

module _ (platform : Platform) where
  pub on_state-IsReady :
      (bytes : Buffer) (hw : ZenbeddedHardware platform)
      → IsReady platform hw
      → IsReady platform (on_state platform bytes hw)
  unfolding on_state
  on_state-IsReady bytes hw ready =
      elim (Bool-cases (length bytes == hw.schema.state_buffer_size)) [
        | inl h ↦ rw h (record {
          laid_out = ready.laid_out;
          states = ready.states;
          commands = ready.commands;
          command_size = ready.command_size;
          state_size =
              ap length (platform.buffers.latest-write_from_non_rt bytes hw.state_buffer)
              ∙ (==_iff _ _).0 h;
        })
        | inr h ↦ rw h ready
      ]

  -- The payload that counts after the callback.
  abbrev pub kept : Buffer → ZenbeddedHardware platform → Buffer
  kept bytes hw =
      if length bytes == hw.schema.state_buffer_size
      then bytes
      else platform.buffers.latest hw.state_buffer

  latest-on_state :
      (bytes : Buffer) (hw : ZenbeddedHardware platform)
      → platform.buffers.latest (on_state platform bytes hw).state_buffer ≡ kept bytes hw
  unfolding on_state
  latest-on_state bytes hw = elim (Bool-cases (length bytes == hw.schema.state_buffer_size)) [
    | inl h ↦ rw h (platform.buffers.latest-write_from_non_rt bytes hw.state_buffer)
    | inr h ↦ rw h refl
  ]

  pub schema-on_state :
      (bytes : Buffer) (hw : ZenbeddedHardware platform)
      → (on_state platform bytes hw).schema ≡ hw.schema
  unfolding on_state
  schema-on_state bytes hw = elim (Bool-cases (length bytes == hw.schema.state_buffer_size)) [
    | inl h ↦ rw h refl
    | inr h ↦ rw h refl
  ]

  -- A ready plugin reads without a fault: its states become what the latest payload holds.
  abbrev pub after_read : ZenbeddedHardware platform → ZenbeddedHardware platform
  after_read hw = record hw {
    state_buffer = (platform.buffers.read_from_rt hw.state_buffer).1;
    hw_states = decoded platform hw.schema (platform.buffers.latest hw.state_buffer);
  }

  pub read-after_read :
      (hw : ZenbeddedHardware platform)
      → IsReady platform hw
      → read platform hw ≡ some (after_read hw)
  unfolding read
  read-after_read hw ready =
      bind_step _
        (ap (λ b. decode platform hw.schema b hw.hw_states)
            (platform.buffers.read_from_rt-latest hw.state_buffer)
          ∙ decode-decoded platform hw.schema ready.laid_out _ ready.state_size hw.hw_states
              ready.states)
        refl

  -- In a ready plugin, when the callback gets a payload and then `read` runs: no access is out of
  -- bounds, and each state becomes the cast value of its field in the payload if that has the
  -- schema's size, else (the payload is dropped) in the latest payload before it.
  pub on_state-read :
      (hw : ZenbeddedHardware platform)
      → IsReady platform hw
      → (bytes : Buffer)
      → (next : ZenbeddedHardware platform) × (read platform (on_state platform bytes hw)
          ≡ some next)
        × (next.hw_states ≡ decoded platform hw.schema (kept bytes hw))
  on_state-read hw ready bytes = (
    _,
    read-after_read _ (on_state-IsReady bytes hw ready),
    ap₂ (decoded platform) (schema-on_state bytes hw) (latest-on_state bytes hw),
  )

  -- What `put` gets: a buffer with every command.
  abbrev pub Puts : ZenbeddedHardware platform → Buffer → Type 0
  Puts hw buffer =
      (length buffer ≡ hw.schema.command_buffer_size)
      × ((j : ℕ) (f : FlatField) (v : ℕ)
          → get_elem? hw.schema.command_flat_fields j ≡ some f
          → get_elem? hw.hw_commands j ≡ some v
          → read_command_field platform.casts hw.schema buffer j
            ≡ some (platform.casts.to_double f.type (platform.casts.from_double f.type v)))

  publish-Puts :
      (hw : ZenbeddedHardware platform)
      → IsReady platform hw
      → (buffer : Buffer) × (publish platform true hw
          ≡ some (record hw { command_buffer = buffer }, some buffer))
        × Puts hw buffer
  unfolding publish
  publish-Puts hw ready =
      let (buffer, written, (size, below, above)) =
        write_fields-Writes platform hw.schema ready.laid_out hw.hw_commands ready.commands 0
          (length hw.schema.command_flat_fields) hw.command_buffer (omega arith)
          ready.command_size in
      (
        buffer,
        bind_step _ written refl,
        (size ∙ ready.command_size, λ j f v p q. above j f v (omega arith) p q),
      )

  -- What `write` puts, by whether there is a publisher.
  abbrev pub Outcome : Bool → ZenbeddedHardware platform → Option Buffer → Type 0
  Outcome false hw out = out ≡ none
  Outcome true hw out = (buffer : Buffer) × (out ≡ some buffer) × Puts hw buffer

  publish-Outcome :
      (has_publisher : Bool) (hw : ZenbeddedHardware platform)
      → IsReady platform hw
      → (next : ZenbeddedHardware platform) × (out : Option Buffer) × (publish platform
            has_publisher hw
          ≡ some (next, out))
        × Outcome has_publisher hw out
        × IsReady platform next
        × (next.schema ≡ hw.schema)
  unfolding publish
  publish-Outcome false hw ready = (hw, none, refl, refl, ready, refl)
  publish-Outcome true hw ready =
      let (buffer, e, (size, reads)) = publish-Puts hw ready in
      (
        _,
        _,
        e,
        (buffer, refl, (size, reads)),
        record {
          laid_out = ready.laid_out;
          states = ready.states;
          commands = ready.commands;
          state_size = ready.state_size;
          command_size = size;
        },
        refl,
      )

  -- In a ready plugin, `write` makes no access out of bounds. Without a publisher it puts nothing. With one it puts a buffer of the schema's command size from which
  -- `read_command_field` gives, for every command field, its command after the casts to the field's
  -- type and back. The plugin stays ready, with its schema.
  pub write-Outcome :
      (hw : ZenbeddedHardware platform)
      → IsReady platform hw
      → (next : ZenbeddedHardware platform) × (out : Option Buffer) × (write platform hw
          ≡ some (next, out))
        × Outcome hw.command_pub hw out
        × IsReady platform next
        × (next.schema ≡ hw.schema)
  unfolding write
  write-Outcome hw ready = publish-Outcome hw.command_pub hw ready
