-- ===== src/Demos/Host/PendulumController.antt =====
-- demos/inverted_pendulum/inverted_pendulum_ros/src/inverted_pendulum_controller.cpp.
use Prim.Native.String.{String}
use zephyr_zenoh_integration.Prelude.{
  ℕ, Bool, true, false, List, [], ◌∷◌, Option, none, some, if◌then◌else◌,
}
use zephyr_zenoh_integration.Demos.Host.Double.{HostDouble}

pub record InvertedPendulumController : Type 0 where
  pub motor_joint_state_name : String
  pub motor_joint_vel_name : String
  pub pendulum_joint_state_name : String
  pub pendulum_joint_vel_name : String
  pub motor_joint_command_name : String
  pub balance_angle : ℕ
  pub kp : ℕ
  pub kd : ℕ
  pub max_acceleration : ℕ

-- The parameters of the node, of the two kinds that are asked for.
unfoldable pub on_configure : (String → String) → (String → ℕ) → InvertedPendulumController
on_configure as_string as_double = record {
  motor_joint_state_name = as_string "motor_joint_state_name";
  motor_joint_vel_name = as_string "motor_joint_vel_name";
  pendulum_joint_state_name = as_string "pendulum_joint_state_name";
  pendulum_joint_vel_name = as_string "pendulum_joint_vel_name";
  motor_joint_command_name = as_string "motor_joint_command_name";
  balance_angle = as_double "balance_angle";
  kp = as_double "kp";
  kd = as_double "kd";
  max_acceleration = as_double "max_acceleration";
}

unfoldable pub command_interface_configuration : InvertedPendulumController → List String
command_interface_configuration c = c.motor_joint_command_name ∷ []

unfoldable pub state_interface_configuration : InvertedPendulumController → List String
state_interface_configuration c =
    c.motor_joint_state_name ∷ c.motor_joint_vel_name ∷ c.pendulum_joint_state_name
    ∷ c.pendulum_joint_vel_name ∷ []

abbrev pub value_or : ℕ → Option ℕ → ℕ
value_or x none = x
value_or x (some y) = y

module _ (d : HostDouble) where
  -- `std::clamp`, which asks that `high` is not below `low`.
  abbrev pub clamp : ℕ → ℕ → ℕ → ℕ
  clamp v low high = if d.lt v low then low else if d.lt high v then high else v

  -- The command, from what `state_interfaces_[i].get_optional()` gives.
  unfoldable pub control : (ℕ → Option ℕ) → InvertedPendulumController → ℕ
  control get_optional c =
      let pendulum_pos = value_or d.zero (get_optional 2) in
      let pendulum_vel = value_or d.zero (get_optional 3) in
      let u =
        d.minus (d.times c.kp (d.minus c.balance_angle pendulum_pos)) (d.times c.kd pendulum_vel) in
      clamp u (d.negate c.max_acceleration) c.max_acceleration

  -- Whether `update` returns OK, and the value of the command interface if it is set; `set` tells
  -- whether `set_value` succeeds.
  unfoldable pub update : Bool → (ℕ → Option ℕ) → InvertedPendulumController → Bool × Option ℕ
  unfolding control
  update true get_optional c = (true, some (control get_optional c))
  update false get_optional c = (false, none)
