-- ===== src/Demos/Host/Simulation.antt =====
-- demos/inverted_pendulum/inverted_pendulum_ros: the controller on the simulated hardware. What
-- ros2_control does between the two is an argument of each event.
use Prim.Native.String.{String}
use text.Mathlib.Text.{◌==◌ as str_eq}
use zephyr_zenoh_integration.Prelude.{
  ℕ, ◌≡◌, refl, sym, ap, subst, ◌⊎◌, inl, inr, Bool, Bool-cases, true, false, List, [], ◌∷◌, Option,
  none, some, ◌>>=◌, bind_step, get_elem?, if◌then◌else◌,
}
use zephyr_zenoh_integration.Demos.Host.Double.{HostDouble, IsIrreflexive}
use zephyr_zenoh_integration.Demos.Host.MockPendulum.{
  MockPendulumHardware, on_activate, published_in, set_command, commanded, integrated, read_in,
  read, export_state_interfaces,
}
use zephyr_zenoh_integration.Demos.Host.PendulumController.{
  InvertedPendulumController, state_interface_configuration, clamp, control, update,
}

-- The value of a claimed interface; `none` if there is none of the name.
abbrev pub find_value : List (String × ℕ) → String → Option ℕ
find_value [] name = none
find_value ((n, x) ∷ rest) name = if str_eq n name then some x else find_value rest name

-- The calls of the controller manager. `locked i` tells whether the value of state interface `i` can
-- be had, `settable` whether the command can be set.
pub data Event : Type 0 where
  activate : Event
  read_states : (dt : ℕ) → Event
  update_command : (locked : ℕ → Bool) → (settable : Bool) → Event

module _ (d : HostDouble) (c : InvertedPendulumController) where
  abbrev pub get_optional : (ℕ → Bool) → MockPendulumHardware → ℕ → Option ℕ
  get_optional locked h i =
      if locked i
      then (do
        name ← get_elem? (state_interface_configuration c) i
        find_value (export_state_interfaces h) name)
      else none

  -- By what `update` returns: the command is set, or stays.
  abbrev pub apply_command : Bool × Option ℕ → MockPendulumHardware → Option MockPendulumHardware
  apply_command (r, none) h = some h
  apply_command (r, some u) h = do
    commands ← set_command d u h.hw_commands
    some (record h { hw_commands = commands })

  unfoldable pub run : Event → MockPendulumHardware → Option MockPendulumHardware
  unfolding on_activate read update
  run activate h = on_activate d h
  run (read_states dt) h = read d dt h
  run (update_command locked settable) h =
      apply_command (update d settable (get_optional locked h) c) h

  unfoldable pub run_all : List Event → MockPendulumHardware → Option MockPendulumHardware
  unfolding run
  run_all [] h = some h
  run_all (e ∷ es) h = do h' ← run e h; run_all es h'

  -- The command is within the bounds, and the interfaces show the state of the dynamics.
  pub record IsSimulated (h : MockPendulumHardware) : Type 0 where
    pub command : ℕ
    pub commands : h.hw_commands ≡ command ∷ []
    pub not_below : d.lt command (d.negate c.max_acceleration) ≡ false
    pub not_above : d.lt c.max_acceleration command ≡ false
    pub states : h.hw_states ≡ h.q1 ∷ h.q1_dot ∷ h.q2 ∷ h.q2_dot ∷ []

  -- The bounds of the controller contain zero.
  pub record HasBounds : Type 0 where
    pub ordered : d.lt c.max_acceleration (d.negate c.max_acceleration) ≡ false
    pub zero_above : d.lt d.zero (d.negate c.max_acceleration) ≡ false
    pub zero_below : d.lt c.max_acceleration d.zero ≡ false

  clamp-within :
      (v low high : ℕ)
      → IsIrreflexive d
      → d.lt high low ≡ false
      → (d.lt (clamp d v low high) low ≡ false) × (d.lt high (clamp d v low high) ≡ false)
  clamp-within v low high irreflexive ordered =
      by_sides (Bool-cases (d.lt v low)) (Bool-cases (d.lt high v))
    where
      by_sides :
          (d.lt v low ≡ true) ⊎ (d.lt v low ≡ false)
          → (d.lt high v ≡ true) ⊎ (d.lt high v ≡ false)
          → (d.lt (clamp d v low high) low ≡ false) × (d.lt high (clamp d v low high) ≡ false)
      by_sides (inl e) f = rw e (irreflexive.lt-self low, ordered)
      by_sides (inr e) (inl f) = rw e (rw f (ordered, irreflexive.lt-self high))
      by_sides (inr e) (inr f) =
          subst (λ (x : ℕ). (d.lt x low ≡ false) × (d.lt high x ≡ false)) (sym (kept e f)) (e, f)
        where
          kept : d.lt v low ≡ false → d.lt high v ≡ false → clamp d v low high ≡ v
          kept e f = rw e (rw f refl)

  pub run-IsSimulated :
      (e : Event) (h : MockPendulumHardware)
      → IsIrreflexive d
      → HasBounds
      → IsSimulated h
      → (h' : MockPendulumHardware) × (run e h ≡ some h') × IsSimulated h'
  unfolding run on_activate read read_in update control
  run-IsSimulated activate h irreflexive bounds sim = (
    _,
    bind_step _
        (ap
          (λ xs.
            published_in d xs
              (record h { q1 = d.zero; q1_dot = d.zero; q2 = h.initial_q2; q2_dot = d.zero }))
          sim.states)
        (bind_step _ (ap (set_command d d.zero) sim.commands) refl),
    record {
      command = d.zero;
      commands = refl;
      not_below = bounds.zero_above;
      not_above = bounds.zero_below;
      states = refl;
    },
  )
  run-IsSimulated (read_states dt) h irreflexive bounds sim = by_time (d.le dt d.zero)
    where
      by_time :
          (b : Bool) → (h' : MockPendulumHardware) × (read_in d b dt h ≡ some h') × IsSimulated h'
      by_time true = (h, refl, sim)
      by_time false = (
        _,
        bind_step _ (ap (commanded d) sim.commands)
            (ap (λ xs. published_in d xs (integrated d sim.command dt h)) sim.states),
        record {
          command = sim.command;
          commands = sim.commands;
          not_below = sim.not_below;
          not_above = sim.not_above;
          states = refl;
        },
      )
  run-IsSimulated (update_command locked false) h irreflexive bounds sim = (h, refl, sim)
  run-IsSimulated (update_command locked true) h irreflexive bounds sim =
      let within = clamp-within _ _ _ irreflexive bounds.ordered in
      (
        _,
        bind_step _ (ap (set_command d (control d (get_optional locked h) c)) sim.commands) refl,
        record {
          command = control d (get_optional locked h) c;
          commands = refl;
          not_below = within.0;
          not_above = within.1;
          states = sim.states;
        },
      )
