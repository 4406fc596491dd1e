-- ===== src/Demos/Host/Examples.antt =====
-- demos: the host packages with whole numbers as doubles; a negative number is zero.
use zephyr_zenoh_integration.Prelude.{
  ℕ, ◌+◌, ◌-◌, ◌*◌, ◌/◌, ◌≡◌, refl, true, false, List, [], ◌∷◌, some, arith, ltb, leb,
}
use zephyr_zenoh_integration.Demos.Host.Double.{HostDouble, IsIrreflexive}
use zephyr_zenoh_integration.Demos.Host.MockPendulum.{
  MockPendulumHardware, number, success, on_init,
}
use zephyr_zenoh_integration.Demos.Host.PendulumController.{
  InvertedPendulumController, state_interface_configuration,
}
use zephyr_zenoh_integration.Demos.Host.SineWave.{
  SineWaveController, on_activate, run_updates, waves, run_updates-waves,
}
use zephyr_zenoh_integration.Demos.Host.Simulation.{
  Event, activate, read_states, update_command, run, run_all, IsSimulated, HasBounds,
}
use zephyr_zenoh_integration.Demos.Host.Bounded.{
  on_init-IsSimulated, update-feedback, pd_law, default_names,
}

abbrev whole : HostDouble
whole = record {
  zero = 0;
  two = 2;
  pi = 3;
  lt = ltb;
  le = leb;
  negate = λ x. 0;
  plus = λ x y. x + y;
  minus = λ x y. x - y;
  times = λ x y. x * y;
  divide = λ x y. x / y;
  sin = λ x. x;
  cos = λ x. x;
  seconds_between = λ x y. x - y;
}

whole-IsIrreflexive : IsIrreflexive whole
whole-IsIrreflexive = record { lt-self = λ x. not_below x }
  where
    not_below : (x : ℕ) → ltb x x ≡ false
    not_below x = ground arith

abbrev controller : InvertedPendulumController
controller = record {
  motor_joint_state_name = "motor_joint/position";
  motor_joint_vel_name = "motor_joint/velocity";
  pendulum_joint_state_name = "pendulum_joint/position";
  pendulum_joint_vel_name = "pendulum_joint/velocity";
  motor_joint_command_name = "motor_joint/acceleration";
  balance_angle = 50;
  kp = 2;
  kd = 1;
  max_acceleration = 30;
}

controller-HasBounds : HasBounds whole controller
controller-HasBounds = record { ordered = refl; zero_above = refl; zero_below = refl }

abbrev fresh : MockPendulumHardware
fresh = record {
  hw_states = [];
  hw_commands = [];
  q1 = 1;
  q1_dot = 1;
  q2 = 1;
  q2_dot = 1;
  j1 = 1;
  j2 = 1;
  m2 = 1;
  l2 = 1;
  b1 = 1;
  b2 = 1;
  g = 1;
  initial_q2 = 1;
}

abbrev initialised : MockPendulumHardware
initialised = record {
  hw_states = 0 ∷ 0 ∷ 0 ∷ 0 ∷ [];
  hw_commands = 0 ∷ [];
  q1 = 1;
  q1_dot = 1;
  q2 = 1;
  q2_dot = 1;
  j1 = 7;
  j2 = 7;
  m2 = 7;
  l2 = 7;
  b1 = 7;
  b2 = 7;
  g = 7;
  initial_q2 = 7;
}

on_init-initialised : on_init whole true (λ name. number 7) fresh ≡ success initialised
unfolding on_init
on_init-initialised = refl

abbrev events : List Event
events =
    read_states 1
    ∷ update_command (λ i. true) true
    ∷ read_states 2
    ∷ update_command (λ i. false) false
    ∷ activate
    ∷ []

on_init-IsSimulated_example :
    (h : MockPendulumHardware) × (run_all whole controller (activate ∷ events) initialised ≡ some h)
    × IsSimulated whole controller h
on_init-IsSimulated_example =
    on_init-IsSimulated whole controller (λ name. number 7) fresh initialised events
      whole-IsIrreflexive controller-HasBounds refl refl on_init-initialised

abbrev swinging : MockPendulumHardware
swinging = record initialised {
  hw_states = 1 ∷ 2 ∷ 40 ∷ 5 ∷ [];
  hw_commands = 4 ∷ [];
  q1 = 1;
  q1_dot = 2;
  q2 = 40;
  q2_dot = 5;
}

swinging-IsSimulated : IsSimulated whole controller swinging
swinging-IsSimulated = record {
  command = 4;
  commands = refl;
  not_below = refl;
  not_above = refl;
  states = refl;
}

controller-names : state_interface_configuration controller ≡ default_names whole controller
unfolding state_interface_configuration
controller-names = refl

update-feedback_example :
    run whole controller (update_command (λ i. true) true) swinging
    ≡ some (record swinging { hw_commands = pd_law whole controller 40 5 ∷ [] })
update-feedback_example =
    update-feedback whole controller swinging swinging-IsSimulated controller-names

abbrev sine : SineWaveController
sine = record {
  component_name = "sine_wave";
  cmd_interface_name = "amplitude";
  amplitude = 5;
  frequency = 2;
  offset = 1;
  start_time_set = true;
  start_time = 3;
}

run_updates-waves_example :
    run_updates whole ((10, false) ∷ (11, true) ∷ []) (on_activate sine)
    ≡ waves whole sine 10 ((10, false) ∷ (11, true) ∷ [])
run_updates-waves_example = run_updates-waves whole 10 false ((11, true) ∷ []) sine
