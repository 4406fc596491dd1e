-- ===== src/Demos/Pendulum/Program.antt =====
-- demos/inverted_pendulum: `main` of the two programs, from the checks of the devices to the loop.
use zephyr_zenoh_integration.Prelude.{
  ℕ, Bool, not, ◌&&◌, List, [], ◌∷◌, Option, none, some, ◌>>=◌, ◌==◌, if◌then◌else◌,
}
use zephyr_zenoh_integration.Prelude.Bytes.{Buffer}
use zephyr_zenoh_integration.Transport.State.{Transport}
use zephyr_zenoh_integration.Client.Codec.JointStates.{JointStateParams}
use zephyr_zenoh_integration.Client.Codec.JointCommands.{JointCommandParams}
use zephyr_zenoh_integration.Client.Lifecycle.{
  Config, Answers, Result, ok, enomem, eio, enodev, einval, failure,
}
use zephyr_zenoh_integration.Client.Channels.{ZenbeddedClient, init}
use zephyr_zenoh_integration.Demos.Pendulum.Double.{Double}
use zephyr_zenoh_integration.Demos.Pendulum.Motor.{
  MotorCall, microsteps_to_angle, get_encoder_angle_deg,
}
use zephyr_zenoh_integration.Demos.Pendulum.Wait.{
  WaitRound, Waited, connected, timed_out, waiting, wait,
}
use zephyr_zenoh_integration.Demos.Pendulum.Cycle.{
  Firmware, LoopState, Input, run_cycles, tier_1_firmware, tier_2_firmware,
}

abbrev pub wifi_connect_timeout : ℕ
wifi_connect_timeout = 15000

abbrev pub ipv4_acquire_timeout : ℕ
ipv4_acquire_timeout = 30000

-- What the program meets before its loop. A code of 0 is success; `scratch` is the memory of the
-- local buffer of `ZenbeddedClient::init`.
pub record Startup : Type 0 where
  pub stepper_driver_ready : Bool
  pub stepper_ctrl_ready : Bool
  pub encoder_driver_ready : Bool
  pub wifi_timer : ℕ
  pub wifi : List WaitRound
  pub ipv4_timer : ℕ
  pub ipv4 : List WaitRound
  pub answers : Answers
  pub scratch : Buffer
  pub enabled : ℕ
  pub position_read : ℕ
  pub position : ℕ
  pub fetched : Bool
  pub encoder : Option (ℕ × ℕ)

-- What `main` returns: 0, -1, the code of the client or of a driver, or -EIO.
pub data Exit : Type 0 where
  not_ready no_network no_encoder : Exit
  client_failed : Result → Exit
  driver_failed : ℕ → Exit

-- The program returns, waits for the network still, or is in its loop.
pub data Outcome (fw : Firmware) : Type 0 where
  exits : Exit → Outcome fw
  waits : Outcome fw
  runs : LoopState → ZenbeddedClient fw.S fw.C → List (List MotorCall) → Outcome fw

module _ (d : Double) (micro_step_res : ℕ) (config : Config) (fw : Firmware)
    (state_params : fw.S.InitParams) (cmd_params : fw.C.InitParams) where
  abbrev Client : Type 0
  Client = ZenbeddedClient fw.S fw.C

  abbrev pub first_state : ℕ → LoopState
  first_state accepted_command_count = record {
    stepper_angle = d.zero;
    encoder_angle = d.zero;
    stepper_angular_velocity = d.zero;
    last_command_count = accepted_command_count;
    cycles_since_command = 0;
  }

  -- By the angle of the encoder.
  unfoldable pub calibrated : Option ℕ → ℕ → List Input → Client → Option (Outcome fw)
  unfolding run_cycles
  calibrated none stepper_position inputs c = some (exits no_encoder)
  calibrated (some encoder_angle_offset) stepper_position inputs c = do
    (s, c', calls) ←
        run_cycles d micro_step_res (microsteps_to_angle d micro_step_res stepper_position)
          encoder_angle_offset config fw inputs (first_state c.accepted) c
    some (runs s c' calls)

  unfoldable pub enabled : Startup → List Input → Client → Option (Outcome fw)
  unfolding calibrated
  enabled st inputs c =
      if not (st.enabled == 0)
      then some (exits (driver_failed st.enabled))
      else if not (st.position_read == 0)
      then some (exits (driver_failed st.position_read))
      else calibrated (get_encoder_angle_deg d micro_step_res st.fetched st.encoder) st.position
          inputs c

  -- By what `init` reports.
  unfoldable pub initialized : Result → Startup → List Input → Client → Option (Outcome fw)
  unfolding enabled
  initialized ok st inputs c = enabled st inputs c
  initialized enomem st inputs c = some (exits (client_failed enomem))
  initialized eio st inputs c = some (exits (client_failed eio))
  initialized enodev st inputs c = some (exits (client_failed enodev))
  initialized einval st inputs c = some (exits (client_failed einval))
  initialized failure st inputs c = some (exits (client_failed failure))

  unfoldable pub after_ipv4 :
      Waited → Startup → List Input → Client → Transport Unit → Option (Outcome fw)
  unfolding initialized init
  after_ipv4 timed_out st inputs c t = some (exits no_network)
  after_ipv4 waiting st inputs c t = some waits
  after_ipv4 connected st inputs c t = do
    (result, c', t') ← init config fw.S fw.C st.answers 50 state_params cmd_params st.scratch c t
    initialized result st inputs c'

  unfoldable pub after_wifi :
      Waited → Startup → List Input → Client → Transport Unit → Option (Outcome fw)
  unfolding after_ipv4 wait
  after_wifi timed_out st inputs c t = some (exits no_network)
  after_wifi waiting st inputs c t = some waits
  after_wifi connected st inputs c t =
      after_ipv4 (wait ipv4_acquire_timeout st.ipv4_timer st.ipv4) st inputs c t

  unfoldable pub main : Startup → List Input → Client → Transport Unit → Option (Outcome fw)
  unfolding after_wifi wait
  main st inputs c t =
      if not (st.stepper_driver_ready && st.stepper_ctrl_ready)
      then some (exits not_ready)
      else if not st.encoder_driver_ready
      then some (exits not_ready)
      else after_wifi (wait wifi_connect_timeout st.wifi_timer st.wifi) st inputs c t

-- "base_link", "stepper_motor" and "magnetic_encoder", "velocity".
abbrev pub frame_id : Option (List ℕ)
frame_id = some (98 ∷ 97 ∷ 115 ∷ 101 ∷ 95 ∷ 108 ∷ 105 ∷ 110 ∷ 107 ∷ [])

abbrev pub joint_names : List (List ℕ)
joint_names =
    (115 ∷ 116 ∷ 101 ∷ 112 ∷ 112 ∷ 101 ∷ 114 ∷ 95 ∷ 109 ∷ 111 ∷ 116 ∷ 111 ∷ 114 ∷ [])
    ∷ (109 ∷ 97 ∷ 103 ∷ 110 ∷ 101 ∷ 116 ∷ 105 ∷ 99 ∷ 95 ∷ 101 ∷ 110 ∷ 99 ∷ 111 ∷ 100 ∷ 101 ∷ 114
        ∷ [])
    ∷ []

abbrev pub interface_name : Option (List ℕ)
interface_name = some (118 ∷ 101 ∷ 108 ∷ 111 ∷ 99 ∷ 105 ∷ 116 ∷ 121 ∷ [])

abbrev pub tier_1_state_params : JointStateParams
tier_1_state_params = record { frame_id = frame_id; joint_names = joint_names; num_joints = 2 }

abbrev pub tier_1_cmd_params : JointCommandParams
tier_1_cmd_params = record {
  frame_id = frame_id;
  joint_names = joint_names;
  num_joints = 2;
  interface_name = interface_name;
}

-- The time from the network that the first program sets shows in what the clock answers.
unfoldable pub tier_1_main :
    (d : Double)
    → ℕ
    → Config
    → Startup
    → List Input
    → ZenbeddedClient tier_1_firmware.S tier_1_firmware.C
    → Transport Unit
    → Option (Outcome tier_1_firmware)
unfolding main
tier_1_main d micro_step_res config st inputs c t =
    main d micro_step_res config tier_1_firmware tier_1_state_params tier_1_cmd_params st inputs c t

unfoldable pub tier_2_main :
    (d : Double)
    → ℕ
    → Config
    → Startup
    → List Input
    → ZenbeddedClient tier_2_firmware.S tier_2_firmware.C
    → Transport Unit
    → Option (Outcome tier_2_firmware)
unfolding main
tier_2_main d micro_step_res config st inputs c t =
    main d micro_step_res config tier_2_firmware tt tt st inputs c t
