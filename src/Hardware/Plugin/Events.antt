-- ===== src/Hardware/Plugin/Events.antt =====
-- zenbedded_hardware_interface/src/zenbedded_hardware.cpp: any sequence of the plugin's operations.
use zephyr_zenoh_integration.Prelude.{
  ℕ, zero, suc, ◌<◌, ◌≡◌, refl, sym, ap, ◌∙◌, subst, List, [], ◌∷◌, Option, some, ◌>>=◌, arith,
  length, bind_step,
}
use zephyr_zenoh_integration.Prelude.Bytes.{Buffer}
use zephyr_zenoh_integration.Hardware.Plugin.State.{Platform, ZenbeddedHardware, set_elem?, IsReady}
use zephyr_zenoh_integration.Hardware.Plugin.Lifecycle.{
  Opening, session_throws, subscriber_throws, publisher_throws, opened, on_activate, on_deactivate,
}
use zephyr_zenoh_integration.Hardware.Plugin.Loop.{on_state, read, write}
use zephyr_zenoh_integration.Hardware.Plugin.Cycle.{length-map}
use zephyr_zenoh_integration.Hardware.Plugin.Readiness.{
  on_state-IsReady, schema-on_state, read-after_read, write-Outcome,
}

-- What the manager, the subscriber and the controllers do: a controller stores into an entry of the
-- command vector through its handle.
pub data Event : Type 0 where
  activate : Opening → Event
  deactivate read_cycle write_cycle : Event
  receive : Buffer → Event
  command : ℕ → ℕ → Event

module _ (platform : Platform) where
  unfoldable pub run : Event → ZenbeddedHardware platform → Option (ZenbeddedHardware platform)
  unfolding on_activate on_deactivate on_state read write
  run (activate opening) hw = some (on_activate platform opening hw).1
  run deactivate hw = some (on_deactivate platform hw).1
  run read_cycle hw = read platform hw
  run write_cycle hw = write platform hw >>= λ r. some r.0
  run (receive bytes) hw = some (on_state platform bytes hw)
  run (command i value) hw =
      set_elem? i value hw.hw_commands >>= λ commands. some (record hw { hw_commands = commands })

  unfoldable pub run_all :
      List Event → ZenbeddedHardware platform → Option (ZenbeddedHardware platform)
  unfolding run
  run_all [] hw = some hw
  run_all (e ∷ es) hw = run e hw >>= run_all es

  -- A controller's handle points into the command vector.
  abbrev pub Within : ℕ → List Event → Type 0
  Within n [] = Unit {0}
  Within n (command i value ∷ es) = (i < n) × Within n es
  Within n (activate opening ∷ es) = Within n es
  Within n (deactivate ∷ es) = Within n es
  Within n (read_cycle ∷ es) = Within n es
  Within n (write_cycle ∷ es) = Within n es
  Within n (receive bytes ∷ es) = Within n es

  -- A run without a fault into a ready plugin with the same schema.
  abbrev pub Runs : Option (ZenbeddedHardware platform) → ZenbeddedHardware platform → Type 0
  Runs result hw =
      (next : ZenbeddedHardware platform) × (result ≡ some next)
      × IsReady platform next
      × (next.schema ≡ hw.schema)

  on_activate-Runs :
      (opening : Opening) (hw : ZenbeddedHardware platform)
      → IsReady platform hw
      → Runs (some (on_activate platform opening hw).1) hw
  unfolding on_activate
  on_activate-Runs session_throws hw ready = (_, refl, ready, refl)
  on_activate-Runs subscriber_throws hw ready = (
    _,
    refl,
    record {
      laid_out = ready.laid_out;
      states = ready.states;
      commands = ready.commands;
      state_size = ready.state_size;
      command_size = ready.command_size;
    },
    refl,
  )
  on_activate-Runs publisher_throws hw ready = (
    _,
    refl,
    record {
      laid_out = ready.laid_out;
      states = ready.states;
      commands = ready.commands;
      state_size = ready.state_size;
      command_size = ready.command_size;
    },
    refl,
  )
  on_activate-Runs opened hw ready = (
    _,
    refl,
    record {
      laid_out = ready.laid_out;
      states = length-map _ hw.hw_states ∙ ready.states;
      commands = length-map _ hw.hw_commands ∙ ready.commands;
      state_size = ready.state_size;
      command_size = ready.command_size;
    },
    refl,
  )

  set_elem?-within :
      (i value : ℕ) (xs : List ℕ)
      → i < length xs
      → (ys : List ℕ) × (set_elem? i value xs ≡ some ys) × (length ys ≡ length xs)
  set_elem?-within i value [] h = absurd (omega arith)
  set_elem?-within zero value (x ∷ xs) h = (_, refl, refl)
  set_elem?-within (suc i) value (x ∷ xs) h =
      let (ys, e, k) = set_elem?-within i value xs (omega arith) in
      (x ∷ ys, bind_step _ e refl, ap suc k)

  read-Runs : (hw : ZenbeddedHardware platform) → IsReady platform hw → Runs (read platform hw) hw
  read-Runs hw ready = (
    _,
    read-after_read platform hw ready,
    record {
      laid_out = ready.laid_out;
      states = length-map _ hw.schema.state_flat_fields;
      commands = ready.commands;
      state_size =
          ap length (platform.buffers.latest-read_from_rt hw.state_buffer) ∙ ready.state_size;
      command_size = ready.command_size;
    },
    refl,
  )

  command-Runs :
      (i value : ℕ) (hw : ZenbeddedHardware platform)
      → i < length hw.hw_commands
      → IsReady platform hw
      → Runs (run (command i value) hw) hw
  unfolding run
  command-Runs i value hw h ready =
      let (ys, e, k) = set_elem?-within i value hw.hw_commands h in
      (
        _,
        bind_step _ e refl,
        record {
          laid_out = ready.laid_out;
          states = ready.states;
          commands = k ∙ ready.commands;
          state_size = ready.state_size;
          command_size = ready.command_size;
        },
        refl,
      )

  run-Runs :
      (e : Event) (hw : ZenbeddedHardware platform)
      → IsReady platform hw
      → Within (length hw.schema.command_flat_fields) (e ∷ [])
      → Runs (run e hw) hw
  unfolding run on_deactivate
  run-Runs (activate opening) hw ready h = on_activate-Runs opening hw ready
  run-Runs deactivate hw ready h = (
    _,
    refl,
    record {
      laid_out = ready.laid_out;
      states = ready.states;
      commands = ready.commands;
      state_size = ready.state_size;
      command_size = ready.command_size;
    },
    refl,
  )
  run-Runs read_cycle hw ready h = read-Runs hw ready
  run-Runs write_cycle hw ready h =
      let (next, out, e, _, ready', same_schema) = write-Outcome platform hw ready in
      (next, bind_step _ e refl, ready', same_schema)
  run-Runs (receive bytes) hw ready h =
      (_, refl, on_state-IsReady platform bytes hw ready, schema-on_state platform bytes hw)
  run-Runs (command i value) hw ready h =
      command-Runs i value hw (omega (arith, h.0, ready.commands)) ready

  Within-head :
      (n : ℕ) (e : Event) (es : List Event) → Within n (e ∷ es) → Within n (e ∷ []) × Within n es
  Within-head n (activate opening) es h = (_, h)
  Within-head n deactivate es h = (_, h)
  Within-head n read_cycle es h = (_, h)
  Within-head n write_cycle es h = (_, h)
  Within-head n (receive bytes) es h = (_, h)
  Within-head n (command i value) es h = ((h.0, _), h.1)

  -- From a ready plugin, any sequence of activations (failing at any point), deactivations, payloads
  -- of any size, control cycles and commands through valid handles runs without an access out of
  -- bounds, and leaves the plugin ready with the same schema.
  pub run_all-Runs :
      (es : List Event) (hw : ZenbeddedHardware platform)
      → IsReady platform hw
      → Within (length hw.schema.command_flat_fields) es
      → Runs (run_all es hw) hw
  unfolding run_all
  run_all-Runs [] hw ready h = (hw, refl, ready, refl)
  run_all-Runs (e ∷ es) hw ready h =
      let (here, there) = Within-head _ e es h in
      let (next, step, ready', same_schema) = run-Runs e hw ready here in
      let (last, rest, ready'', still) =
        run_all-Runs es next ready'
          (subst (λ s. Within (length s.command_flat_fields) es) (sym same_schema) there) in
      (last, bind_step (run_all es) step rest, ready'', still ∙ same_schema)
