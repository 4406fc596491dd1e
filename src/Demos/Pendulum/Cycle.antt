-- ===== src/Demos/Pendulum/Cycle.antt =====
-- demos/inverted_pendulum: one round of the loop of `main`, over the model of the client.
use zephyr_zenoh_integration.Prelude.{
  ℕ, ◌+◌, ◌%◌, ◌^◌, Bool, true, false, not, List, [], ◌∷◌, ◌++◌, Option, none, some, ◌>>=◌, ltb,
  ◌==◌, if◌then◌else◌,
}
use zephyr_zenoh_integration.Prelude.Bytes.{Buffer, zeros, load, le_bytes, le_value}
use zephyr_zenoh_integration.Client.Codec.Contract.{StateCodec, CommandCodec}
use zephyr_zenoh_integration.Client.Codec.Raw.{raw_state_codec, raw_command_codec}
use zephyr_zenoh_integration.Client.Codec.JointStates.{joint_state_codec}
use zephyr_zenoh_integration.Client.Codec.JointCommands.{joint_command_codec}
use zephyr_zenoh_integration.Client.Lifecycle.{Config}
use zephyr_zenoh_integration.Client.Channels.{
  ZenbeddedClient, write_state, read_command, on_transport_cmd_cb,
}
use zephyr_zenoh_integration.Demos.Pendulum.Double.{Double}
use zephyr_zenoh_integration.Demos.Pendulum.Motor.{
  MotorCall, microsteps_to_angle, get_encoder_angle_deg, set_stepper_angular_vel,
}

-- In what the loops of the two programs differ.
pub record Firmware : Type 1 where
  pub S : StateCodec
  pub C : CommandCodec
  -- The state of the two angles, at a time of CLOCK_REALTIME.
  pub state_val : ℕ × ℕ → ℕ → ℕ → S.Value
  -- The command variable, with what stands in its memory.
  pub cmd_val : Buffer → C.Value
  -- The velocity in it.
  pub velocity : C.Value → Option ℕ

-- `cmd[0]`
abbrev pub first_value : Option Buffer → Option ℕ
first_value none = none
first_value (some cmd) = do bytes ← load 0 8 cmd; some (le_value bytes)

abbrev pub tier_1_firmware : Firmware
tier_1_firmware = record {
  S = joint_state_codec;
  C = joint_command_codec;
  state_val = λ tv stepper_angle encoder_angle. record {
    stamp_sec = tv.0 % 2 ^ 32;
    stamp_nanosec = tv.1 % 2 ^ 32;
    positions = some (stepper_angle ∷ encoder_angle ∷ []);
    velocities = none;
    efforts = none;
  };
  cmd_val = λ cmd. record {
    stamp_sec = some (zeros 4);
    stamp_nanosec = some (zeros 4);
    values = some cmd;
  };
  velocity = λ cmd_val. first_value cmd_val.values;
}

-- The structs that the schema generates: two doubles, and one.
abbrev pub tier_2_firmware : Firmware
tier_2_firmware = record {
  S = raw_state_codec 16;
  C = raw_command_codec 8;
  state_val =
      λ tv stepper_angle encoder_angle. le_bytes 8 stepper_angle ++ le_bytes 8 encoder_angle;
  cmd_val = λ cmd. cmd;
  velocity = λ cmd_val. first_value (some cmd_val);
}

pub record LoopState : Type 0 where
  pub stepper_angle : ℕ
  pub encoder_angle : ℕ
  pub stepper_angular_velocity : ℕ
  pub last_command_count : ℕ
  pub cycles_since_command : ℕ

-- What one round meets: the answers of the drivers and the clock, the commands that arrive before the
-- count is read and between that and `read_command`, and the memory of the command variable.
pub record Input : Type 0 where
  pub position : Option ℕ
  pub fetched : Bool
  pub encoder : Option (ℕ × ℕ)
  pub tv : ℕ × ℕ
  pub early : List Buffer
  pub late : List Buffer
  pub memory : Buffer
  pub accepts : Bool

abbrev pub command_timeout_cycles : ℕ
command_timeout_cycles = 20

module _ (d : Double) (micro_step_res stepper_angle_offset encoder_angle_offset : ℕ)
    (config : Config) (fw : Firmware) where
  abbrev Client : Type 0
  Client = ZenbeddedClient fw.S fw.C

  abbrev pub stepper_read : Option ℕ → LoopState → LoopState
  stepper_read none s = s
  stepper_read (some position) s = record s {
    stepper_angle = d.minus (microsteps_to_angle d micro_step_res position) stepper_angle_offset;
  }

  abbrev pub encoder_read : Option ℕ → LoopState → LoopState
  encoder_read none s = s
  encoder_read (some angle) s = record s { encoder_angle = d.minus angle encoder_angle_offset }

  abbrev pub sense : Input → LoopState → LoopState
  sense i s =
      encoder_read (get_encoder_angle_deg d micro_step_res i.fetched i.encoder)
        (stepper_read i.position s)

  -- The callback of the client, once for each payload.
  unfoldable pub deliver : List Buffer → Client → Option Client
  unfolding on_transport_cmd_cb
  deliver [] c = some c
  deliver (payload ∷ payloads) c = do
    c' ← on_transport_cmd_cb config fw.S fw.C payload c
    deliver payloads c'

  -- By whether `read_command` has succeeded.
  abbrev pub obey : Bool → fw.C.Value → LoopState → Option LoopState
  obey false value s = some s
  obey true value s = do v ← fw.velocity value; some (record s { stepper_angular_velocity = v })

  -- A round without a new command.
  abbrev pub watchdog : LoopState → LoopState
  watchdog s =
      if ltb s.cycles_since_command command_timeout_cycles
      then record s { cycles_since_command = s.cycles_since_command + 1 }
      else if not (d.eq s.stepper_angular_velocity d.zero)
      then record s { stepper_angular_velocity = d.zero }
      else s

  -- By whether the count of commands has changed.
  unfoldable pub on_command : Bool → ℕ → Buffer → LoopState → Client → Option LoopState
  unfolding read_command
  on_command false command_count memory s c = some (watchdog s)
  on_command true command_count memory s c = do
    (got, value) ← read_command config fw.S fw.C (fw.cmd_val memory) c
    obey got value (record s { last_command_count = command_count; cycles_since_command = 0 })

  unfoldable pub cycle : Input → LoopState → Client → Option (LoopState × Client × List MotorCall)
  unfolding write_state deliver on_command set_stepper_angular_vel
  cycle i s c = do
    let s_1 = sense i s
    c_1 ← write_state config fw.S fw.C (fw.state_val i.tv s_1.stepper_angle s_1.encoder_angle) c
    c_2 ← deliver i.early c_1
    let command_count = c_2.accepted
    c_3 ← deliver i.late c_2
    s_2 ← on_command (not (command_count == s_1.last_command_count)) command_count i.memory s_1 c_3
    some (s_2, c_3, set_stepper_angular_vel d micro_step_res i.accepts s_2.stepper_angular_velocity)

  -- The rounds one after the other, with the calls of each.
  unfoldable pub run_cycles :
      List Input → LoopState → Client → Option (LoopState × Client × List (List MotorCall))
  unfolding cycle
  run_cycles [] s c = some (s, c, [])
  run_cycles (i ∷ inputs) s c = do
    (s', c', calls) ← cycle i s c
    (s'', c'', more) ← run_cycles inputs s' c'
    some (s'', c'', calls ∷ more)
