-- ===== src/Demos/Host/Bounded.antt =====
-- demos/inverted_pendulum/inverted_pendulum_ros: what holds in every run of the simulation.
use Prim.Native.String.{String}
use zephyr_zenoh_integration.Prelude.{
  ℕ, ◌≡◌, refl, sym, ap, ◌∙◌, true, List, [], ◌∷◌, some, bind_step, get_elem?, arith,
}
use zephyr_zenoh_integration.Demos.Host.Double.{HostDouble, IsIrreflexive}
use zephyr_zenoh_integration.Demos.Host.MockPendulum.{
  MockPendulumHardware, Stod, number, out_of_range, invalid_argument, Initialised, success, error,
  throws, with_parameter, resized, on_init, on_activate, published_in, set_command,
  export_state_interfaces, named,
}
use zephyr_zenoh_integration.Demos.Host.PendulumController.{
  InvertedPendulumController, state_interface_configuration, clamp, control, update, value_or,
}
use zephyr_zenoh_integration.Demos.Host.Simulation.{
  Event, activate, update_command, get_optional, find_value, run, run_all, IsSimulated, HasBounds,
  run-IsSimulated,
}

with_parameter-success :
    (s : Stod) (f : ℕ → Initialised) (h : MockPendulumHardware)
    → with_parameter s f ≡ success h
    → (x : ℕ) × (f x ≡ success h)
with_parameter-success (number x) f h e = (x, e)
with_parameter-success out_of_range f h e = absurd (grind arith)
with_parameter-success invalid_argument f h e = absurd (grind arith)

abbrev state_of : Initialised → MockPendulumHardware → MockPendulumHardware
state_of (success h) other = h
state_of error other = other
state_of throws other = other

module _ (d : HostDouble) (c : InvertedPendulumController) where
  -- What a successful `on_init` leaves in the two vectors.
  on_init-sizes :
      (parameter : String → Stod) (fresh h : MockPendulumHardware)
      → fresh.hw_states ≡ []
      → fresh.hw_commands ≡ []
      → on_init d true parameter fresh ≡ success h
      → (h.hw_states ≡ d.zero ∷ d.zero ∷ d.zero ∷ d.zero ∷ []) × (h.hw_commands ≡ d.zero ∷ [])
  unfolding on_init
  on_init-sizes parameter fresh h no_states no_commands e =
      let (j1, e_1) = with_parameter-success (parameter "J1") _ h e in
      let (j2, e_2) = with_parameter-success (parameter "J2") _ h e_1 in
      let (m2, e_3) = with_parameter-success (parameter "m2") _ h e_2 in
      let (l2, e_4) = with_parameter-success (parameter "l2") _ h e_3 in
      let (b1, e_5) = with_parameter-success (parameter "b1") _ h e_4 in
      let (b2, e_6) = with_parameter-success (parameter "b2") _ h e_5 in
      let (g, e_7) = with_parameter-success (parameter "g") _ h e_6 in
      let (q2, e_8) = with_parameter-success (parameter "initial_q2") _ h e_7 in
      (
        ap (λ i. (state_of i h).hw_states) (sym e_8) ∙ ap (resized d 4) no_states,
        ap (λ i. (state_of i h).hw_commands) (sym e_8) ∙ ap (resized d 1) no_commands,
      )

  run_all-IsSimulated :
      (es : List Event) (h : MockPendulumHardware)
      → IsIrreflexive d
      → HasBounds d c
      → IsSimulated d c h
      → (h' : MockPendulumHardware) × (run_all d c es h ≡ some h') × IsSimulated d c h'
  unfolding run_all
  run_all-IsSimulated [] h irreflexive bounds sim = (h, refl, sim)
  run_all-IsSimulated (e ∷ es) h irreflexive bounds sim =
      let (h_1, f, sim_1) = run-IsSimulated d c e h irreflexive bounds sim in
      let (h', g, sim') = run_all-IsSimulated es h_1 irreflexive bounds sim_1 in
      (h', bind_step _ f g, sim')

  activate-IsSimulated :
      (h : MockPendulumHardware)
      → HasBounds d c
      → h.hw_states ≡ d.zero ∷ d.zero ∷ d.zero ∷ d.zero ∷ []
      → h.hw_commands ≡ d.zero ∷ []
      → (h' : MockPendulumHardware) × (run d c activate h ≡ some h') × IsSimulated d c h'
  unfolding run on_activate
  activate-IsSimulated h bounds states commands = (
    _,
    bind_step _
        (ap
          (λ xs.
            published_in d xs
              (record h { q1 = d.zero; q1_dot = d.zero; q2 = h.initial_q2; q2_dot = d.zero }))
          states)
        (bind_step _ (ap (set_command d d.zero) commands) refl),
    record {
      command = d.zero;
      commands = refl;
      not_below = bounds.zero_above;
      not_above = bounds.zero_below;
      states = refl;
    },
  )

  -- For doubles of which none is below itself, and a `max_acceleration` whose bounds contain zero:
  -- after a successful `on_init` of a fresh object and an activation, any sequence of reads, updates
  -- and further activations, whether or not the values can be had and the command can be set, makes
  -- no access out of bounds. Then the commanded acceleration is neither below `-max_acceleration`
  -- nor above `max_acceleration`, whatever the dynamics gave, and the four state interfaces show the
  -- state of the dynamics.
  pub on_init-IsSimulated :
      (parameter : String → Stod) (fresh h : MockPendulumHardware) (es : List Event)
      → IsIrreflexive d
      → HasBounds d c
      → fresh.hw_states ≡ []
      → fresh.hw_commands ≡ []
      → on_init d true parameter fresh ≡ success h
      → (h' : MockPendulumHardware) × (run_all d c (activate ∷ es) h ≡ some h') × IsSimulated d c h'
  unfolding run_all
  on_init-IsSimulated parameter fresh h es irreflexive bounds no_states no_commands e =
      let (states, commands) = on_init-sizes parameter fresh h no_states no_commands e in
      let (h_1, f, sim) = activate-IsSimulated h bounds states commands in
      let (h', g, sim') = run_all-IsSimulated es h_1 irreflexive bounds sim in
      (h', bind_step _ f g, sim')

  abbrev pub default_names : List String
  default_names =
      "motor_joint/position" ∷ "motor_joint/velocity" ∷ "pendulum_joint/position"
      ∷ "pendulum_joint/velocity" ∷ []

  -- What `update` computes of a position and a velocity.
  abbrev pub pd_law : ℕ → ℕ → ℕ
  pd_law pendulum_pos pendulum_vel =
      clamp d
        (d.minus (d.times c.kp (d.minus c.balance_angle pendulum_pos)) (d.times c.kd pendulum_vel))
        (d.negate c.max_acceleration) c.max_acceleration

  feedback :
      (h : MockPendulumHardware)
      → IsSimulated d c h
      → state_interface_configuration c ≡ default_names
      → (get_optional d c (λ i. true) h 2 ≡ some h.q2)
        × (get_optional d c (λ i. true) h 3 ≡ some h.q2_dot)
  unfolding export_state_interfaces
  feedback h sim names = (
    bind_step _ (ap (λ ns. get_elem? ns 2) names)
        (ap (λ xs. find_value (named default_names xs) "pendulum_joint/position") sim.states),
    bind_step _ (ap (λ ns. get_elem? ns 3) names)
        (ap (λ xs. find_value (named default_names xs) "pendulum_joint/velocity") sim.states),
  )

  -- With the names that are the defaults of the controller, and all values to be had: in a simulated
  -- state, `update` sets the command to the clamped PD law of the pendulum's own position and
  -- velocity, as the exported interfaces show them.
  pub update-feedback :
      (h : MockPendulumHardware)
      → IsSimulated d c h
      → state_interface_configuration c ≡ default_names
      → run d c (update_command (λ i. true) true) h
        ≡ some (record h { hw_commands = pd_law h.q2 h.q2_dot ∷ [] })
  unfolding run update control
  update-feedback h sim names =
      let (position, velocity) = feedback h sim names in
      bind_step _ (ap (set_command d _) sim.commands) refl
      ∙ ap
          (λ o. some (record h {
            hw_commands =
                pd_law (value_or d.zero o) (value_or d.zero (get_optional d c (λ i. true) h 3))
                ∷ [];
          }))
          position
      ∙ ap (λ o. some (record h { hw_commands = pd_law h.q2 (value_or d.zero o) ∷ [] })) velocity
