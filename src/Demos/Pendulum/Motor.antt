-- ===== src/Demos/Pendulum/Motor.antt =====
-- demos/inverted_pendulum: the functions on the stepper and the encoder. A call of a driver is a value
-- in a list, what it answers an argument.
use zephyr_zenoh_integration.Prelude.{
  ℕ, ◌*◌, ◌%◌, ◌^◌, ◌≡◌, refl, Bool, true, false, not, ◌||◌, List, [], ◌∷◌, Option, none, some,
  arith, if◌then◌else◌,
}
use zephyr_zenoh_integration.Demos.Pendulum.Double.{Double}

pub data Direction : Type 0 where
  positive negative : Direction

pub data MotorCall : Type 0 where
  stepper_ctrl_stop : MotorCall
  stepper_ctrl_set_microstep_interval : ℕ → MotorCall
  stepper_ctrl_run : Direction → MotorCall

abbrev pub min_microstep_interval_ns : ℕ
min_microstep_interval_ns = 20000

abbrev pub max_microstep_interval_ns : ℕ
max_microstep_interval_ns = 1000000000

-- `static_cast<int32_t>(motor_steps_per_rev * micro_step_res)`
abbrev pub micro_steps_per_rev : ℕ → ℕ
micro_steps_per_rev micro_step_res = (200 * micro_step_res) % 2 ^ 32

module _ (d : Double) (micro_step_res : ℕ) where
  abbrev pub microsteps_to_angle : ℕ → ℕ
  microsteps_to_angle microsteps =
      d.divide (d.times (d.times (d.of_uint64 2) d.pi) (d.of_int32 microsteps))
        (d.of_int32 (micro_steps_per_rev micro_step_res))

  abbrev pub interval_ns : ℕ → ℕ
  interval_ns rads_per_sec = d.divide (d.of_uint64 1000000000) (
      d.divide (d.times (d.fabs rads_per_sec) (d.of_int32 (micro_steps_per_rev micro_step_res)))
        (d.times (d.of_uint64 2) d.pi))

  abbrev pub direction : ℕ → Direction
  direction rads_per_sec = if d.lt d.zero rads_per_sec then positive else negative

  -- By what `stepper_ctrl_set_microstep_interval` answers.
  abbrev pub started : Bool → ℕ → List MotorCall
  started true rads_per_sec = stepper_ctrl_run (direction rads_per_sec) ∷ []
  started false rads_per_sec = []

  -- By whether the interval is outside the bounds.
  abbrev pub moved : Bool → Bool → ℕ → List MotorCall
  moved true accepts rads_per_sec = stepper_ctrl_stop ∷ []
  moved false accepts rads_per_sec =
      stepper_ctrl_set_microstep_interval (d.to_uint64 (interval_ns rads_per_sec))
      ∷ started accepts rads_per_sec

  abbrev pub out_of_range : ℕ → Bool
  out_of_range interval =
      not (d.isfinite interval)
      || (d.lt interval (d.of_uint64 min_microstep_interval_ns)
          || d.lt (d.of_uint64 max_microstep_interval_ns) interval)

  -- `!isfinite(rads_per_sec) || rads_per_sec == 0.0`
  abbrev pub stands_still : ℕ → Bool
  stands_still rads_per_sec = not (d.isfinite rads_per_sec) || d.eq rads_per_sec d.zero

  -- `accepts`: the driver takes the interval.
  unfoldable pub set_stepper_angular_vel : Bool → ℕ → List MotorCall
  set_stepper_angular_vel accepts rads_per_sec =
      if stands_still rads_per_sec
      then stepper_ctrl_stop ∷ []
      else moved (out_of_range (interval_ns rads_per_sec)) accepts rads_per_sec

  -- By whether the sample could be fetched; the answer of `sensor_channel_get`.
  abbrev pub get_encoder_angle_deg : Bool → Option (ℕ × ℕ) → Option ℕ
  get_encoder_angle_deg false val = none
  get_encoder_angle_deg true none = none
  get_encoder_angle_deg true (some val) =
      some (d.divide (d.times (d.of_sensor_value val) d.pi) (d.of_int32 180))

  -- A velocity that equals zero, of either sign, stops the stepper.
  pub set_stepper_angular_vel-zero :
      (accepts : Bool) (v : ℕ)
      → d.eq v d.zero ≡ true
      → set_stepper_angular_vel accepts v ≡ stepper_ctrl_stop ∷ []
  unfolding set_stepper_angular_vel
  set_stepper_angular_vel-zero accepts v e = rw (still _ _ e) refl
    where
      still : (a b : Bool) → b ≡ true → (not a || b) ≡ true
      still a b e = ground arith
