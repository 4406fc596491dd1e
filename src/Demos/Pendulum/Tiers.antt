-- ===== src/Demos/Pendulum/Tiers.antt =====
-- demos/inverted_pendulum: the two programs, each with its codecs and its limits.
use zephyr_zenoh_integration.Prelude.{
  ℕ, ◌≤◌, ◌<◌, ◌≡◌, refl, false, List, ◌++◌, arith, length, length-append,
}
use zephyr_zenoh_integration.Prelude.Bytes.{le_bytes, length-le_bytes}
use zephyr_zenoh_integration.Transport.State.{Transport}
use zephyr_zenoh_integration.Cdr.StateAccess.{IsSized}
use zephyr_zenoh_integration.Cdr.Init.{joint_state_ctx}
use zephyr_zenoh_integration.Cdr.CommandInit.{CommandFits, joint_command_ctx}
use zephyr_zenoh_integration.Cdr.Reference.{cdr_u32, cdr_string_seq, cdr_strings, cdr_string}
use zephyr_zenoh_integration.Client.Codec.Contract.{StateLaws, CommandLaws}
use zephyr_zenoh_integration.Client.Codec.Raw.{raw_state_laws, raw_command_laws}
use zephyr_zenoh_integration.Client.Codec.JointStates.{joint_state_codec, joint_state_laws}
use zephyr_zenoh_integration.Client.Codec.JointCommands.{joint_command_codec, joint_command_laws}
use zephyr_zenoh_integration.Client.Lifecycle.{Config}
use zephyr_zenoh_integration.Client.Channels.{ZenbeddedClient}
use zephyr_zenoh_integration.Demos.Pendulum.Double.{Double, IsIeee}
use zephyr_zenoh_integration.Demos.Pendulum.Cycle.{Input, tier_1_firmware, tier_2_firmware}
use zephyr_zenoh_integration.Demos.Pendulum.Watchdog.{AllQuiet}
use zephyr_zenoh_integration.Demos.Pendulum.Program.{
  Startup, frame_id, joint_names, interface_name, tier_1_state_params, tier_1_cmd_params,
  tier_1_main, tier_2_main,
}
use zephyr_zenoh_integration.Demos.Pendulum.Standstill.{IsPatient, StandsStill, main-StandsStill}

pub tier_1_fits : CommandFits frame_id joint_names interface_name
tier_1_fits = record {
  texts = record { frame = omega arith; names_fit = omega arith; count = omega arith };
  interface_fits = omega arith;
}

pub two_joints : 0 < length joint_names
two_joints = omega arith

abbrev pub tier_1_state_laws : StateLaws joint_state_codec tier_1_state_params
tier_1_state_laws = joint_state_laws frame_id joint_names tier_1_fits.texts two_joints

abbrev pub tier_1_command_laws : CommandLaws joint_command_codec tier_1_cmd_params
tier_1_command_laws = joint_command_laws frame_id joint_names interface_name tier_1_fits two_joints

pub tier_1_suits : (tv : ℕ × ℕ) (a b : ℕ) → IsSized 2 (tier_1_firmware.state_val tv a b)
tier_1_suits tv a b = record { positions_sized = refl; velocities_sized = tt; efforts_sized = tt }

-- The sizes of the two messages of the first program.
pub tier_1_sizes :
    ((joint_state_ctx frame_id joint_names).payload_size ≤ 200)
    × ((joint_command_ctx frame_id joint_names interface_name).payload_size ≤ 200)
unfolding cdr_u32 cdr_string_seq cdr_strings cdr_string
tier_1_sizes = (omega arith, omega arith)

pub tier_2_suits : (tv : ℕ × ℕ) (a b : ℕ) → length (le_bytes 8 a ++ le_bytes 8 b) ≡ 16
tier_2_suits tv a b =
    omega
      (arith, length-append (le_bytes 8 a) (le_bytes 8 b), length-le_bytes 8 a, length-le_bytes 8 b)

-- The first program, for doubles that keep the two laws, buffers of at least 200 bytes, a client that
-- is not initialised and networks that answer at least 200 ms apart for longer than the timeouts,
-- whatever they, the drivers and the transport answer: it makes no access out of bounds and does not
-- hang before its loop. It returns, or it is in its loop with a serving client, and as long as no
-- command arrives, each round has made the one call that stops the stepper.
pub tier_1_main-StandsStill :
    (d : Double) (micro_step_res : ℕ) (config : Config) (st : Startup) (inputs : List Input)
    (c : ZenbeddedClient tier_1_firmware.S tier_1_firmware.C) (t : Transport Unit) (ieee : IsIeee d)
    (quiet : AllQuiet inputs)
    → IsPatient st
    → c.base.initialized ≡ false
    → 200 ≤ config.max_state_buffer_size
    → 200 ≤ config.max_cmd_buffer_size
    → 200 ≤ length st.scratch
    → StandsStill d micro_step_res config tier_1_firmware tier_1_state_params tier_1_cmd_params
        tier_1_state_laws tier_1_command_laws tier_1_suits ieee inputs quiet
        (tier_1_main d micro_step_res config st inputs c t)
unfolding tier_1_main
tier_1_main-StandsStill d micro_step_res config st inputs c t ieee quiet patient unborn m n k =
    main-StandsStill d micro_step_res config tier_1_firmware tier_1_state_params tier_1_cmd_params
      tier_1_state_laws tier_1_command_laws tier_1_suits ieee inputs quiet st c t patient unborn
      (omega (arith, tier_1_sizes.0)) (omega (arith, tier_1_sizes.1))
      (omega (arith, tier_1_sizes.1))

-- The second program, for doubles that keep the two laws, buffers of at least 16 bytes for the state
-- and 8 for the command, a client that is not initialised and networks that answer at least 200 ms
-- apart for longer than the timeouts, whatever they, the drivers and the transport answer: it makes
-- no access out of bounds and does not hang before its loop. It returns, or it is in its loop with a
-- serving client, and as long as no command arrives, each round has made the one call that stops the
-- stepper.
pub tier_2_main-StandsStill :
    (d : Double) (micro_step_res : ℕ) (config : Config) (st : Startup) (inputs : List Input)
    (c : ZenbeddedClient tier_2_firmware.S tier_2_firmware.C) (t : Transport Unit) (ieee : IsIeee d)
    (quiet : AllQuiet inputs)
    → IsPatient st
    → c.base.initialized ≡ false
    → 16 ≤ config.max_state_buffer_size
    → 8 ≤ config.max_cmd_buffer_size
    → 8 ≤ length st.scratch
    → StandsStill d micro_step_res config tier_2_firmware tt tt
        (raw_state_laws 16)
        (raw_command_laws 8)
        tier_2_suits
        ieee
        inputs
        quiet
        (tier_2_main d micro_step_res config st inputs c t)
unfolding tier_2_main
tier_2_main-StandsStill d micro_step_res config st inputs c t ieee quiet patient unborn m n k =
    main-StandsStill d micro_step_res config tier_2_firmware tt tt (raw_state_laws 16)
      (raw_command_laws 8) tier_2_suits ieee inputs quiet st c t patient unborn m n k
