-- ===== src/Demos/Pendulum/Watching.antt =====
-- demos/inverted_pendulum: the velocity and the counter of one round, apart from the client.
use zephyr_zenoh_integration.Prelude.{
  ℕ, ◌+◌, ◌≤◌, ◌≡◌, refl, ap, ◌∙◌, ◌⊎◌, inl, inr, Bool, true, false, Bool-cases, not, List, [], ◌∷◌,
  Option, none, some, arith, ltb, if◌then◌else◌,
}
use zephyr_zenoh_integration.Client.Lifecycle.{Config}
use zephyr_zenoh_integration.Demos.Pendulum.Double.{Double, IsIeee}
use zephyr_zenoh_integration.Demos.Pendulum.Motor.{
  MotorCall, stepper_ctrl_stop, set_stepper_angular_vel, set_stepper_angular_vel-zero,
  get_encoder_angle_deg,
}
use zephyr_zenoh_integration.Demos.Pendulum.Cycle.{
  Firmware, LoopState, Input, stepper_read, encoder_read, sense, watchdog,
}

module _ (d : Double) (micro_step_res stepper_offset encoder_offset : ℕ) (config : Config)
    (fw : Firmware) where
  abbrev pub guard : LoopState → LoopState
  guard = watchdog d micro_step_res stepper_offset encoder_offset config fw

  abbrev pub sensed : Input → LoopState → LoopState
  sensed = sense d micro_step_res stepper_offset encoder_offset config fw

  -- The angles do not touch the rest of the state.
  pub record AgreesOn (s s' : LoopState) : Type 0 where
    pub velocity : s'.stepper_angular_velocity ≡ s.stepper_angular_velocity
    pub count : s'.last_command_count ≡ s.last_command_count
    pub cycles : s'.cycles_since_command ≡ s.cycles_since_command

  pub sense-AgreesOn : (i : Input) (s : LoopState) → AgreesOn s (sensed i s)
  sense-AgreesOn i s =
      by_encoder (get_encoder_angle_deg d micro_step_res i.fetched i.encoder) _
        (by_stepper i.position)
    where
      by_stepper :
          (p : Option ℕ)
          → AgreesOn s (stepper_read d micro_step_res stepper_offset encoder_offset config fw p s)
      by_stepper none = record { velocity = refl; count = refl; cycles = refl }
      by_stepper (some p) = record { velocity = refl; count = refl; cycles = refl }

      by_encoder :
          (a : Option ℕ) (s' : LoopState)
          → AgreesOn s s'
          → AgreesOn s (encoder_read d micro_step_res stepper_offset encoder_offset config fw a s')
      by_encoder none s' h = h
      by_encoder (some a) s' h = record {
        velocity = h.velocity;
        count = h.count;
        cycles = h.cycles;
      }

  -- `k` quiet rounds after the velocity `v` was set: it holds for 20 of them, and then is zero.
  abbrev pub Watching : ℕ → ℕ → LoopState → Type 0
  Watching v k s =
      (k ≤ 20) × ((s.cycles_since_command ≡ k) × (s.stepper_angular_velocity ≡ v))
      ⊎ (21 ≤ k) × ((20 ≤ s.cycles_since_command) × (d.eq s.stepper_angular_velocity d.zero ≡ true))

  -- The calls of quiet rounds from the `k`-th on.
  abbrev pub obeyed_for : ℕ → ℕ → List Input → List (List MotorCall)
  obeyed_for v k [] = []
  obeyed_for v k (i ∷ inputs) =
      (if ltb k 20
        then set_stepper_angular_vel d micro_step_res i.accepts v
        else stepper_ctrl_stop ∷ [])
      ∷ obeyed_for v (k + 1) inputs

  pub watchdog-Watching :
      (v k : ℕ) (s : LoopState) → IsIeee d → Watching v k s → Watching v (k + 1) (guard s)
  watchdog-Watching v k s ieee (inl (h, (e, f))) = by_count (Bool-cases (ltb k 20))
    where
      by_zero :
          ltb k 20 ≡ false
          → (b : Bool) → d.eq s.stepper_angular_velocity d.zero ≡ b
          → Watching v (k + 1) (if not b then record s { stepper_angular_velocity = d.zero } else s)
      by_zero low true z = inr (ground arith, (ground arith, z))
      by_zero low false z = inr (ground arith, (ground arith, ieee.zero-eq))

      by_count : (ltb k 20 ≡ true) ⊎ (ltb k 20 ≡ false) → Watching v (k + 1) (guard s)
      by_count (inl low) =
          rw (ap (λ n. ltb n 20) e ∙ low) (inl (ground arith, (omega (arith, e), f)))
      by_count (inr high) = rw (ap (λ n. ltb n 20) e ∙ high) (by_zero high _ refl)
  watchdog-Watching v k s ieee (inr (h, (e, f))) =
      rw (reached s.cycles_since_command e, f) (inr (omega arith, (e, f)))
    where
      reached : (n : ℕ) → 20 ≤ n → ltb n 20 ≡ false
      reached n h = ground arith

  pub Watching-calls :
      (v k : ℕ) (s : LoopState) (accepts : Bool)
      → Watching v (k + 1) s
      → set_stepper_angular_vel d micro_step_res accepts s.stepper_angular_velocity ≡ (
          if ltb k 20
          then set_stepper_angular_vel d micro_step_res accepts v
          else stepper_ctrl_stop ∷ [])
  Watching-calls v k s accepts (inl (h, (e, f))) =
      rw (below k h) (ap (set_stepper_angular_vel d micro_step_res accepts) f)
    where
      below : (k : ℕ) → k + 1 ≤ 20 → ltb k 20 ≡ true
      below k h = ground arith
  Watching-calls v k s accepts (inr (h, (e, f))) =
      rw (above k h)
        (set_stepper_angular_vel-zero d micro_step_res accepts s.stepper_angular_velocity f)
    where
      above : (k : ℕ) → 21 ≤ k + 1 → ltb k 20 ≡ false
      above k h = ground arith

  pub sensed-Watching :
      (v k : ℕ) (i : Input) (s : LoopState) → Watching v k s → Watching v k (sensed i s)
  sensed-Watching v k i s (inl (h, (e, f))) =
      let agrees = sense-AgreesOn i s in inl (h, (agrees.cycles ∙ e, agrees.velocity ∙ f))
  sensed-Watching v k i s (inr (h, (e, f))) =
      let agrees = sense-AgreesOn i s in
      inr (h, (omega (arith, agrees.cycles, e), ap (λ x. d.eq x d.zero) agrees.velocity ∙ f))

  pub watchdog-count : (s : LoopState) → (guard s).last_command_count ≡ s.last_command_count
  watchdog-count s =
      by_count (ltb s.cycles_since_command 20) (not (d.eq s.stepper_angular_velocity d.zero))
    where
      by_count :
          (b z : Bool)
          → (if b
              then record s { cycles_since_command = s.cycles_since_command + 1 }
              else if z
              then record s { stepper_angular_velocity = d.zero }
              else s).last_command_count
            ≡ s.last_command_count
      by_count true z = refl
      by_count false true = refl
      by_count false false = refl
