-- ===== src/Demos/Pendulum/Commands.antt =====
-- demos/inverted_pendulum: what a command on the wire makes the stepper do, in each program.
use zephyr_zenoh_integration.Prelude.{
  ℕ, ◌^◌, ◌<◌, ◌≡◌, refl, sym, ap, ◌∙◌, List, [], ◌∷◌, ◌++◌, some, arith, length, bind_step,
  append_assoc, append-nil,
}
use zephyr_zenoh_integration.Prelude.Bytes.{Buffer, le_bytes, length-le_bytes, le_value-le_bytes}
use zephyr_zenoh_integration.Prelude.Segments.{load-front}
use zephyr_zenoh_integration.Cdr.Reference.{cdr_joint_command, encapsulated}
use zephyr_zenoh_integration.Cdr.CommandInit.{joint_command_msg}
use zephyr_zenoh_integration.Client.Codec.Raw.{raw_state_laws, raw_command_laws}
use zephyr_zenoh_integration.Client.Lifecycle.{Config}
use zephyr_zenoh_integration.Client.Channels.{ZenbeddedClient}
use zephyr_zenoh_integration.Client.Delivery.{IsServing}
use zephyr_zenoh_integration.Demos.Pendulum.Double.{Double, IsIeee}
use zephyr_zenoh_integration.Demos.Pendulum.Motor.{set_stepper_angular_vel}
use zephyr_zenoh_integration.Demos.Pendulum.Cycle.{
  LoopState, Input, first_value, run_cycles, tier_1_firmware, tier_2_firmware,
}
use zephyr_zenoh_integration.Demos.Pendulum.Watching.{obeyed_for}
use zephyr_zenoh_integration.Demos.Pendulum.Watchdog.{AllQuiet, Brings, command-obeyed_for}
use zephyr_zenoh_integration.Demos.Pendulum.Program.{
  frame_id, joint_names, interface_name, tier_1_state_params, tier_1_cmd_params,
}
use zephyr_zenoh_integration.Demos.Pendulum.Tiers.{
  tier_1_state_laws, tier_1_command_laws, tier_1_suits, tier_2_suits,
}

first_value-front :
    (v : ℕ) (rest : Buffer) → v < 2 ^ 64 → first_value (some (le_bytes 8 v ++ rest)) ≡ some v
first_value-front v rest h =
    bind_step _ (load-front 8 (le_bytes 8 v) rest (sym (length-le_bytes 8 v)))
      (ap some (le_value-le_bytes 8 v h))

-- The two values of a JointCommand of the first program.
abbrev pub joint_command : (sec nanosec velocity second : ℕ) → Buffer
joint_command sec nanosec velocity second = encapsulated (
    cdr_joint_command
      (joint_command_msg frame_id joint_names interface_name sec nanosec (velocity ∷ second ∷ [])))

module _ (d : Double) (micro_step_res stepper_offset encoder_offset : ℕ) (config : Config)
    (ieee : IsIeee d) (i : Input) (inputs : List Input) (quiet : AllQuiet inputs)
    (none_late : i.late ≡ []) (s : LoopState) where
  tier_1-Brings :
      (sec nanosec velocity second : ℕ)
      → velocity < 2 ^ 64
      → i.early ≡ joint_command sec nanosec velocity second ∷ []
      → length i.memory ≡ 16
      → Brings d micro_step_res stepper_offset encoder_offset config tier_1_firmware
          tier_1_state_params tier_1_cmd_params tier_1_state_laws tier_1_command_laws tier_1_suits
          (record { sec = sec; nanosec = nanosec; values = velocity ∷ second ∷ [] })
          velocity
          i
  tier_1-Brings sec nanosec velocity second h early room = record {
    one_early = early;
    none_late = none_late;
    shaped = refl;
    room = record {
      sec_space = omega arith;
      nanosec_space = omega arith;
      values_space = omega (arith, room);
    };
    value =
        ap (λ b. first_value (some b))
          (append_assoc (le_bytes 8 velocity) (le_bytes 8 second ++ []) _)
        ∙ first_value-front velocity _ h;
  }

  -- The first program, for doubles that keep the two laws, in a round of its loop with a serving client
  -- whose commands have all been counted, in which one ROS 2 encoding of a JointCommand with the
  -- values `velocity` and `second` arrives: the stepper is given `velocity`, again in exactly the
  -- first 20 of the rounds without a command that follow, and is stopped in every later one. No
  -- access is out of bounds and the client still serves.
  pub tier_1_command-obeyed_for :
      (sec nanosec velocity second : ℕ) (c : ZenbeddedClient tier_1_firmware.S tier_1_firmware.C)
      → velocity < 2 ^ 64
      → i.early ≡ joint_command sec nanosec velocity second ∷ []
      → length i.memory ≡ 16
      → IsServing config tier_1_firmware.S tier_1_firmware.C tier_1_state_params tier_1_cmd_params
          tier_1_state_laws tier_1_command_laws c
      → s.last_command_count ≡ c.accepted
      → (s' : LoopState) × (c' : ZenbeddedClient tier_1_firmware.S tier_1_firmware.C) × (run_cycles
            d micro_step_res stepper_offset encoder_offset config tier_1_firmware
            (i ∷ inputs)
            s
            c
          ≡ some (
            s',
            c',
            set_stepper_angular_vel d micro_step_res i.accepts velocity
                ∷ obeyed_for d micro_step_res stepper_offset encoder_offset config tier_1_firmware
                    velocity 0 inputs,
          ))
        × IsServing config tier_1_firmware.S tier_1_firmware.C tier_1_state_params tier_1_cmd_params
            tier_1_state_laws tier_1_command_laws c'
  tier_1_command-obeyed_for sec nanosec velocity second c h early room serving same =
      command-obeyed_for d micro_step_res stepper_offset encoder_offset config tier_1_firmware
        tier_1_state_params tier_1_cmd_params tier_1_state_laws tier_1_command_laws tier_1_suits i
        inputs (record { sec = sec; nanosec = nanosec; values = velocity ∷ second ∷ [] }) velocity s
        c ieee (tier_1-Brings sec nanosec velocity second h early room) quiet serving same

  tier_2-Brings :
      (velocity : ℕ)
      → velocity < 2 ^ 64
      → i.early ≡ le_bytes 8 velocity ∷ []
      → length i.memory ≡ 8
      → Brings d micro_step_res stepper_offset encoder_offset config tier_2_firmware tt tt
          (raw_state_laws 16)
          (raw_command_laws 8)
          tier_2_suits
          (le_bytes 8 velocity)
          velocity
          i
  tier_2-Brings velocity h early room = record {
    one_early = early;
    none_late = none_late;
    shaped = length-le_bytes 8 velocity;
    room = room;
    value =
        ap (λ b. first_value (some b)) (sym (append-nil (le_bytes 8 velocity)))
        ∙ first_value-front velocity [] h;
  }

  -- The second program, for doubles that keep the two laws, in a round of its loop with a serving
  -- client whose commands have all been counted, in which the eight bytes of a velocity arrive: the
  -- stepper is given `velocity`, again in exactly the first 20 of the rounds without a command that
  -- follow, and is stopped in every later one. No access is out of bounds and the client still
  -- serves.
  pub tier_2_command-obeyed_for :
      (velocity : ℕ) (c : ZenbeddedClient tier_2_firmware.S tier_2_firmware.C)
      → velocity < 2 ^ 64
      → i.early ≡ le_bytes 8 velocity ∷ []
      → length i.memory ≡ 8
      → IsServing config tier_2_firmware.S tier_2_firmware.C tt tt
          (raw_state_laws 16)
          (raw_command_laws 8)
          c
      → s.last_command_count ≡ c.accepted
      → (s' : LoopState) × (c' : ZenbeddedClient tier_2_firmware.S tier_2_firmware.C) × (run_cycles
            d micro_step_res stepper_offset encoder_offset config tier_2_firmware
            (i ∷ inputs)
            s
            c
          ≡ some (
            s',
            c',
            set_stepper_angular_vel d micro_step_res i.accepts velocity
                ∷ obeyed_for d micro_step_res stepper_offset encoder_offset config tier_2_firmware
                    velocity 0 inputs,
          ))
        × IsServing config tier_2_firmware.S tier_2_firmware.C tt tt
            (raw_state_laws 16)
            (raw_command_laws 8)
            c'
  tier_2_command-obeyed_for velocity c h early room serving same =
      command-obeyed_for d micro_step_res stepper_offset encoder_offset config tier_2_firmware tt tt
        (raw_state_laws 16) (raw_command_laws 8) tier_2_suits i inputs (le_bytes 8 velocity)
        velocity s c ieee (tier_2-Brings velocity h early room) quiet serving same
