-- ===== src/Demos/Host/SineWave.antt =====
-- demos/sine_wave/sine_wave_ros/src/sine_wave_controller.cpp.
use Prim.Native.String.{String, ◌++◌ as ◌<>◌}
use zephyr_zenoh_integration.Prelude.{
  ℕ, ◌≡◌, refl, ap, Bool, true, false, List, [], ◌∷◌, map, Option, none, some,
}
use zephyr_zenoh_integration.Demos.Host.Double.{HostDouble}

pub record SineWaveController : Type 0 where
  pub component_name : String
  pub cmd_interface_name : String
  pub amplitude : ℕ
  pub frequency : ℕ
  pub offset : ℕ
  pub start_time_set : Bool
  pub start_time : ℕ

unfoldable pub on_configure :
    (String → String) → (String → ℕ) → SineWaveController → SineWaveController
on_configure as_string as_double c = record c {
  component_name = as_string "component_name";
  cmd_interface_name = as_string "cmd_interface_name";
  amplitude = as_double "amplitude";
  frequency = as_double "frequency";
  offset = as_double "offset";
}

unfoldable pub command_interface_configuration : SineWaveController → List String
command_interface_configuration c = (c.component_name <> ("/" <> c.cmd_interface_name)) ∷ []

unfoldable pub on_activate : SineWaveController → SineWaveController
on_activate c = record c { start_time_set = false }

-- The phase starts with the first update.
abbrev pub with_start : Bool → ℕ → SineWaveController → SineWaveController
with_start true time c = c
with_start false time c = record c { start_time = time; start_time_set = true }

module _ (d : HostDouble) where
  -- `offset_ + amplitude_ * std::sin(2.0 * M_PI * frequency_ * t)`
  abbrev pub wave : SineWaveController → ℕ → ℕ
  wave c t =
      d.plus c.offset
        (d.times c.amplitude (d.sin (d.times (d.times (d.times d.two d.pi) c.frequency) t)))

  -- By whether the command can be set: whether `update` returns OK, and the value that is set.
  abbrev pub emit : Bool → ℕ → Bool × Option ℕ
  emit true value = (true, some value)
  emit false value = (false, none)

  unfoldable pub update : ℕ → Bool → SineWaveController → SineWaveController × (Bool × Option ℕ)
  update time settable c =
      let c' = with_start c.start_time_set time c in
      (c', emit settable (wave c' (d.seconds_between time c'.start_time)))

  -- Updates at these times, one after the other.
  unfoldable pub run_updates : List (ℕ × Bool) → SineWaveController → List (Bool × Option ℕ)
  unfolding update
  run_updates [] c = []
  run_updates ((time, settable) ∷ updates) c =
      let (c', result) = update time settable c in result ∷ run_updates updates c'

  -- What the updates give when the phase starts at `start`.
  abbrev pub waves : SineWaveController → ℕ → List (ℕ × Bool) → List (Bool × Option ℕ)
  waves c start updates = map (λ u. emit u.1 (wave c (d.seconds_between u.0 start))) updates

  started-waves :
      (updates : List (ℕ × Bool)) (c : SineWaveController) (start : ℕ)
      → run_updates updates (record c { start_time = start; start_time_set = true })
        ≡ waves c start updates
  unfolding run_updates update
  started-waves [] c start = refl
  started-waves ((time, settable) ∷ updates) c start =
      ap (◌∷◌ (emit settable (wave c (d.seconds_between time start))))
        (started-waves updates c start)

  -- After an activation, whatever the controller did before and whether or not each command can be
  -- set: every update gives the wave at the time since the first update, even if that one could not
  -- set its command.
  pub run_updates-waves :
      (time : ℕ) (settable : Bool) (updates : List (ℕ × Bool)) (c : SineWaveController)
      → run_updates ((time, settable) ∷ updates) (on_activate c)
        ≡ waves c time ((time, settable) ∷ updates)
  unfolding run_updates update on_activate
  run_updates-waves time settable updates c =
      ap (◌∷◌ (emit settable (wave c (d.seconds_between time time)))) (started-waves updates c time)
