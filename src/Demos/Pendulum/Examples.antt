-- ===== src/Demos/Pendulum/Examples.antt =====
-- demos/inverted_pendulum: both programs on concrete answers, with whole numbers as doubles.
use zephyr_zenoh_integration.Prelude.{
  ℕ, zero, suc, ◌-◌, ◌*◌, ◌/◌, ◌≤◌, ◌≡◌, refl, ◌++◌, Bool, true, false, List, [], ◌∷◌, some, none,
  arith, length-replicate, replicate, ltb, ◌==◌,
}
use zephyr_zenoh_integration.Prelude.Bytes.{Buffer, zeros, le_bytes}
use zephyr_zenoh_integration.Client.Codec.Raw.{raw_state_laws, raw_command_laws}
use zephyr_zenoh_integration.Client.Channels.{ZenbeddedClient, cleared}
use zephyr_zenoh_integration.Client.Delivery.{IsServing}
use zephyr_zenoh_integration.Client.Examples.{config, fresh, transport, answers}
use zephyr_zenoh_integration.Demos.Pendulum.Double.{Double, IsIeee}
use zephyr_zenoh_integration.Demos.Pendulum.Motor.{set_stepper_angular_vel}
use zephyr_zenoh_integration.Demos.Pendulum.Motion.{
  StopsOrMoves, set_stepper_angular_vel-StopsOrMoves,
}
use zephyr_zenoh_integration.Demos.Pendulum.Wait.{WaitRound, wait, Ended, wait-Ended}
use zephyr_zenoh_integration.Demos.Pendulum.Refusals.{refused, refused-Advances, length-refused}
use zephyr_zenoh_integration.Demos.Pendulum.Cycle.{
  LoopState, Input, run_cycles, tier_1_firmware, tier_2_firmware,
}
use zephyr_zenoh_integration.Demos.Pendulum.Watching.{obeyed_for}
use zephyr_zenoh_integration.Demos.Pendulum.Watchdog.{AllQuiet}
use zephyr_zenoh_integration.Demos.Pendulum.Program.{
  Startup, tier_1_main, tier_2_main, tier_1_state_params, tier_1_cmd_params,
}
use zephyr_zenoh_integration.Demos.Pendulum.Standstill.{IsPatient, StandsStill}
use zephyr_zenoh_integration.Demos.Pendulum.Tiers.{
  tier_1_state_laws, tier_1_command_laws, tier_1_suits, tier_1_sizes, tier_2_suits,
  tier_1_main-StandsStill, tier_2_main-StandsStill,
}
use zephyr_zenoh_integration.Demos.Pendulum.Commands.{
  joint_command, tier_1_command-obeyed_for, tier_2_command-obeyed_for,
}

abbrev whole : Double
whole = record {
  zero = 0;
  pi = 3;
  isfinite = λ x. true;
  eq = λ x y. x == y;
  lt = ltb;
  fabs = λ x. x;
  times = λ x y. x * y;
  divide = λ x y. x / y;
  minus = λ x y. x - y;
  of_int32 = λ n. n;
  of_uint64 = λ n. n;
  to_uint64 = λ x. x;
  of_sensor_value = λ v. v.0;
}

whole-IsIeee : IsIeee whole
whole-IsIeee = record {
  zero-eq = refl;
  to_uint64-bounds = λ x low high _ _ _ e f. (above x low e, above high x f);
}
  where
    above : (x low : ℕ) → ltb x low ≡ false → low ≤ x
    above x low e = ground arith

set_stepper_angular_vel-StopsOrMoves_example :
    StopsOrMoves whole 16 true 5 (set_stepper_angular_vel whole 16 true 5)
set_stepper_angular_vel-StopsOrMoves_example =
    set_stepper_angular_vel-StopsOrMoves whole 16 true 5 whole-IsIeee

-- The clock wraps after the first round.
abbrev rounds : List WaitRound
rounds = (false, 4294967295) ∷ (false, 200) ∷ (false, 410) ∷ (false, 620) ∷ (true, 900) ∷ []

wait-Ended_example : Ended 700 4294967290 rounds (wait 700 4294967290 rounds)
wait-Ended_example =
    wait-Ended 700 4294967290 rounds
      (omega arith, (omega arith, (omega arith, (omega arith, (omega arith, tt))))) (omega arith)

abbrev startup : Startup
startup = record {
  stepper_driver_ready = true;
  stepper_ctrl_ready = true;
  encoder_driver_ready = true;
  wifi_timer = 0;
  wifi = (true, 0) ∷ refused 200 80;
  ipv4_timer = 0;
  ipv4 = (true, 0) ∷ refused 200 160;
  answers = answers true;
  scratch = zeros 256;
  enabled = 0;
  position_read = 0;
  position = 40;
  fetched = true;
  encoder = some (90, 0);
}

startup-IsPatient : IsPatient startup
startup-IsPatient = record {
  wifi_advances = (omega arith, refused-Advances 200 80 (omega arith));
  wifi_long = omega (arith, length-refused 200 80);
  ipv4_advances = (omega arith, refused-Advances 200 160 (omega arith));
  ipv4_long = omega (arith, length-refused 200 160);
}

abbrev input : List Buffer → Buffer → Input
input early memory = record {
  position = some 41;
  fetched = true;
  encoder = none;
  tv = (1700000000, 5);
  early = early;
  late = [];
  memory = memory;
  accepts = true;
}

abbrev quiet_inputs : List Input
quiet_inputs = replicate 22 (input [] [])

quiet : AllQuiet quiet_inputs
quiet = all_quiet 22
  where
    all_quiet : (n : ℕ) → AllQuiet (replicate n (input [] []))
    all_quiet zero = tt
    all_quiet (suc n) = (record { none_early = refl; none_late = refl }, all_quiet n)

abbrev tier_1_client : Bool → ZenbeddedClient tier_1_firmware.S tier_1_firmware.C
tier_1_client initialized = record {
  base = record fresh {
    initialized = initialized;
    state_payload_size = tier_1_state_laws.ctx.payload_size;
    cmd_payload_size = tier_1_command_laws.ctx.payload_size;
  };
  state = record (cleared 512) {
    content = λ i. tier_1_state_laws.encode tier_1_state_laws.blank ++ [];
  };
  command = cleared 256;
  accepted = 7;
  state_ctx = tier_1_state_laws.ctx;
  cmd_ctx = tier_1_command_laws.ctx;
}

tier_1_client-IsServing :
    IsServing config tier_1_firmware.S tier_1_firmware.C tier_1_state_params tier_1_cmd_params
      tier_1_state_laws tier_1_command_laws
      (tier_1_client true)
tier_1_client-IsServing = record {
  initialized = refl;
  state_ctx = refl;
  cmd_ctx = refl;
  state_size = refl;
  cmd_size = refl;
  state_slots = λ i. (tier_1_state_laws.blank, [], tier_1_state_laws.blank-IsShaped, refl);
  cmd_slots = λ i. omega (arith, tier_1_sizes.1, length-replicate {A = ℕ} 256 0);
}

abbrev tier_2_client : Bool → ZenbeddedClient tier_2_firmware.S tier_2_firmware.C
tier_2_client initialized = record {
  base = record fresh { initialized = initialized; state_payload_size = 16; cmd_payload_size = 8 };
  state = record (cleared 512) { content = λ i. zeros 16 ++ zeros 496 };
  command = cleared 256;
  accepted = 7;
  state_ctx = tt;
  cmd_ctx = tt;
}

tier_2_client-IsServing :
    IsServing config tier_2_firmware.S tier_2_firmware.C tt tt
      (raw_state_laws 16)
      (raw_command_laws 8)
      (tier_2_client true)
tier_2_client-IsServing = record {
  initialized = refl;
  state_ctx = refl;
  cmd_ctx = refl;
  state_size = refl;
  cmd_size = refl;
  state_slots = λ i. (zeros 16, zeros 496, length-replicate {A = ℕ} 16 0, refl);
  cmd_slots = λ i. omega (arith, length-replicate {A = ℕ} 256 0);
}

abbrev turning : LoopState
turning = record {
  stepper_angle = 1;
  encoder_angle = 2;
  stepper_angular_velocity = 3;
  last_command_count = 7;
  cycles_since_command = 20;
}

tier_1_main-StandsStill_example :
    StandsStill whole 16 config tier_1_firmware tier_1_state_params tier_1_cmd_params
      tier_1_state_laws tier_1_command_laws tier_1_suits whole-IsIeee quiet_inputs quiet
      (tier_1_main whole 16 config startup quiet_inputs (tier_1_client false) transport)
tier_1_main-StandsStill_example =
    tier_1_main-StandsStill whole 16 config startup quiet_inputs (tier_1_client false) transport
      whole-IsIeee quiet startup-IsPatient refl (omega arith) (omega arith)
      (omega (arith, length-replicate {A = ℕ} 256 0))

tier_2_main-StandsStill_example :
    StandsStill whole 16 config tier_2_firmware tt tt
      (raw_state_laws 16)
      (raw_command_laws 8)
      tier_2_suits
      whole-IsIeee
      quiet_inputs
      quiet
      (tier_2_main whole 16 config startup quiet_inputs (tier_2_client false) transport)
tier_2_main-StandsStill_example =
    tier_2_main-StandsStill whole 16 config startup quiet_inputs (tier_2_client false) transport
      whole-IsIeee quiet startup-IsPatient refl (omega arith) (omega arith)
      (omega (arith, length-replicate {A = ℕ} 256 0))

abbrev command_input : Input
command_input = input (joint_command 12 34 5 6 ∷ []) (zeros 16)

tier_1_command-obeyed_for_example :
    (s' : LoopState) × (c' : ZenbeddedClient tier_1_firmware.S tier_1_firmware.C) × (run_cycles
        whole 16 0 0 config tier_1_firmware
        (command_input ∷ quiet_inputs)
        turning
        (tier_1_client true)
      ≡ some (
        s',
        c',
        set_stepper_angular_vel whole 16 true 5
            ∷ obeyed_for whole 16 0 0 config tier_1_firmware 5 0 quiet_inputs,
      ))
    × IsServing config tier_1_firmware.S tier_1_firmware.C tier_1_state_params tier_1_cmd_params
        tier_1_state_laws tier_1_command_laws c'
tier_1_command-obeyed_for_example =
    tier_1_command-obeyed_for whole 16 0 0 config whole-IsIeee command_input quiet_inputs quiet refl
      turning 12 34 5 6 (tier_1_client true) (omega arith) refl (length-replicate {A = ℕ} 16 0)
      tier_1_client-IsServing refl

tier_2_command-obeyed_for_example :
    (s' : LoopState) × (c' : ZenbeddedClient tier_2_firmware.S tier_2_firmware.C) × (run_cycles
        whole 16 0 0 config tier_2_firmware
        (input (le_bytes 8 5 ∷ []) (zeros 8) ∷ quiet_inputs)
        turning
        (tier_2_client true)
      ≡ some (
        s',
        c',
        set_stepper_angular_vel whole 16 true 5
            ∷ obeyed_for whole 16 0 0 config tier_2_firmware 5 0 quiet_inputs,
      ))
    × IsServing config tier_2_firmware.S tier_2_firmware.C tt tt
        (raw_state_laws 16)
        (raw_command_laws 8)
        c'
tier_2_command-obeyed_for_example =
    tier_2_command-obeyed_for whole 16 0 0 config whole-IsIeee (input (le_bytes 8 5 ∷ []) (zeros 8))
      quiet_inputs quiet refl turning 5 (tier_2_client true) (omega arith) refl
      (length-replicate {A = ℕ} 8 0) tier_2_client-IsServing refl
