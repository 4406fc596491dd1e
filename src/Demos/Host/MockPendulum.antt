-- ===== src/Demos/Host/MockPendulum.antt =====
-- demos/inverted_pendulum/inverted_pendulum_ros/src/mock_pendulum_hardware.cpp.
use Prim.Native.String.{String}
use zephyr_zenoh_integration.Prelude.{
  ℕ, Bool, true, false, List, [], ◌∷◌, ◌++◌, Option, none, some, ◌>>=◌, take, replicate,
}
use zephyr_zenoh_integration.Demos.Host.Double.{HostDouble}

pub record MockPendulumHardware : Type 0 where
  -- Position and velocity of the motor, then of the pendulum.
  pub hw_states : List ℕ
  -- The acceleration of the motor.
  pub hw_commands : List ℕ
  pub q1 : ℕ
  pub q1_dot : ℕ
  pub q2 : ℕ
  pub q2_dot : ℕ
  pub j1 : ℕ
  pub j2 : ℕ
  pub m2 : ℕ
  pub l2 : ℕ
  pub b1 : ℕ
  pub b2 : ℕ
  pub g : ℕ
  pub initial_q2 : ℕ

-- `std::stod(info_.hardware_parameters.at(name))`: a number, or the exception that it throws.
pub data Stod : Type 0 where
  number : ℕ → Stod
  out_of_range invalid_argument : Stod

-- What `on_init` does: return SUCCESS or ERROR, or throw.
pub data Initialised : Type 0 where
  success : MockPendulumHardware → Initialised
  error throws : Initialised

-- The next parameter; only `std::out_of_range` is caught.
abbrev pub with_parameter : Stod → (ℕ → Initialised) → Initialised
with_parameter (number x) f = f x
with_parameter out_of_range f = error
with_parameter invalid_argument f = throws

module _ (d : HostDouble) where
  -- `resize(n, 0.0)`
  abbrev pub resized : ℕ → List ℕ → List ℕ
  resized n xs = take n (xs ++ replicate n d.zero)

  -- `base`: whether SystemInterface::on_init succeeds; `fresh` is the object before.
  unfoldable pub on_init : Bool → (String → Stod) → MockPendulumHardware → Initialised
  on_init false parameter fresh = error
  on_init true parameter fresh = with_parameter (parameter "J1") λ j1.
      with_parameter (parameter "J2") λ j2. with_parameter (parameter "m2") λ m2.
        with_parameter (parameter "l2") λ l2. with_parameter (parameter "b1") λ b1.
          with_parameter (parameter "b2") λ b2. with_parameter (parameter "g") λ g.
            with_parameter (parameter "initial_q2") λ initial_q2. success (record fresh {
              hw_states = resized 4 fresh.hw_states;
              hw_commands = resized 1 fresh.hw_commands;
              j1 = j1;
              j2 = j2;
              m2 = m2;
              l2 = l2;
              b1 = b1;
              b2 = b2;
              g = g;
              initial_q2 = initial_q2;
            })

  -- The four elements of `hw_states_` are assigned.
  abbrev pub published_in : List ℕ → MockPendulumHardware → Option MockPendulumHardware
  published_in (a ∷ b ∷ c ∷ e ∷ rest) h =
      some (record h { hw_states = h.q1 ∷ h.q1_dot ∷ h.q2 ∷ h.q2_dot ∷ rest })
  published_in _ h = none

  -- `hw_commands_[0] = value`
  abbrev pub set_command : ℕ → List ℕ → Option (List ℕ)
  set_command value [] = none
  set_command value (x ∷ xs) = some (value ∷ xs)

  abbrev pub commanded : List ℕ → Option ℕ
  commanded [] = none
  commanded (x ∷ xs) = some x

  unfoldable pub on_activate : MockPendulumHardware → Option MockPendulumHardware
  on_activate h = do
    h_1 ←
        published_in h.hw_states
          (record h { q1 = d.zero; q1_dot = d.zero; q2 = h.initial_q2; q2_dot = d.zero })
    commands ← set_command d.zero h_1.hw_commands
    some (record h_1 { hw_commands = commands })

  -- `(-b2 * q2_dot - m2 * g * l2 * sinq2 - J2 * cosq2 * q1_ddot_cmd) / J2`
  abbrev pub pendulum_acceleration : ℕ → MockPendulumHardware → ℕ
  pendulum_acceleration q1_ddot_cmd h =
      d.divide
        (d.minus
          (d.minus (d.times (d.negate h.b2) h.q2_dot)
            (d.times (d.times (d.times h.m2 h.g) h.l2) (d.sin h.q2)))
          (d.times (d.times h.j2 (d.cos h.q2)) q1_ddot_cmd))
        h.j2

  -- Semi-implicit Euler: the positions move by the new velocities.
  abbrev pub integrated : ℕ → ℕ → MockPendulumHardware → MockPendulumHardware
  integrated q1_ddot_cmd dt h =
      let q1_dot = d.plus h.q1_dot (d.times q1_ddot_cmd dt) in
      let q2_dot = d.plus h.q2_dot (d.times (pendulum_acceleration q1_ddot_cmd h) dt) in
      record h {
        q1 = d.plus h.q1 (d.times q1_dot dt);
        q1_dot = q1_dot;
        q2 = d.plus h.q2 (d.times q2_dot dt);
        q2_dot = q2_dot;
      }

  -- By whether no time has passed.
  unfoldable pub read_in : Bool → ℕ → MockPendulumHardware → Option MockPendulumHardware
  read_in true dt h = some h
  read_in false dt h = do
    q1_ddot_cmd ← commanded h.hw_commands
    published_in h.hw_states (integrated q1_ddot_cmd dt h)

  unfoldable pub read : ℕ → MockPendulumHardware → Option MockPendulumHardware
  unfolding read_in
  read dt h = read_in (d.le dt d.zero) dt h

-- The names of the exported interfaces, with the values behind the pointers.
abbrev pub named : List String → List ℕ → List (String × ℕ)
named (n ∷ ns) (x ∷ xs) = (n, x) ∷ named ns xs
named _ _ = []

unfoldable pub export_state_interfaces : MockPendulumHardware → List (String × ℕ)
export_state_interfaces h =
    named
      ("motor_joint/position" ∷ "motor_joint/velocity" ∷ "pendulum_joint/position"
        ∷ "pendulum_joint/velocity" ∷ [])
      h.hw_states

unfoldable pub export_command_interfaces : MockPendulumHardware → List (String × ℕ)
export_command_interfaces h = named ("motor_joint/acceleration" ∷ []) h.hw_commands
