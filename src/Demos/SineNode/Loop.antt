-- ===== src/Demos/SineNode/Loop.antt =====
-- demos/sine_wave/sine_wave_zephyr/src/main.cpp: the loop of `main`, over the model of the client. The
-- state and the command are structs of one double each.
use zephyr_zenoh_integration.Prelude.{
  ℕ, Bool, ◌||◌, List, [], ◌∷◌, Option, none, some, ◌>>=◌, if◌then◌else◌,
}
use zephyr_zenoh_integration.Prelude.Bytes.{Buffer, load, le_bytes, le_value}
use zephyr_zenoh_integration.Client.Codec.Raw.{raw_state_codec, raw_command_codec}
use zephyr_zenoh_integration.Client.Lifecycle.{Config}
use zephyr_zenoh_integration.Client.Channels.{
  ZenbeddedClient, write_state, read_command, on_transport_cmd_cb,
}

-- The operations on doubles, and the constants of the program: 2.0, 1.4, 1000.0 and 1e-6.
pub record SineDouble : Type 0 where
  pub two : ℕ
  pub pi : ℕ
  pub wave_frequency : ℕ
  pub thousand : ℕ
  pub threshold : ℕ
  pub at_least : ℕ → ℕ → Bool
  pub fabs : ℕ → ℕ
  pub times : ℕ → ℕ → ℕ
  pub divide : ℕ → ℕ → ℕ
  pub sin : ℕ → ℕ

abbrev pub SineClient : Type 0
SineClient = ZenbeddedClient (raw_state_codec 8) (raw_command_codec 8)

-- The variables that live longer than a round; `cmd` is cleared at first.
pub record SineState : Type 0 where
  pub wave_amp : ℕ
  pub cmd_recv : Bool
  pub cmd : Buffer

-- The command that arrives before the round, and the time since the start in milliseconds.
pub record SineInput : Type 0 where
  pub arrival : Option ℕ
  pub current_time_ms : ℕ

-- `cmd.sine_wave_amplitude`
abbrev pub amplitude : Buffer → Option ℕ
amplitude cmd = do bytes ← load 0 8 cmd; some (le_value bytes)

module _ (d : SineDouble) (config : Config) where
  abbrev pub deliver_one : Option ℕ → SineClient → Option SineClient
  deliver_one none c = some c
  deliver_one (some a) c =
      on_transport_cmd_cb config (raw_state_codec 8) (raw_command_codec 8) (le_bytes 8 a) c

  abbrev pub wave : ℕ → ℕ → ℕ
  wave wave_amp current_time_ms = d.times wave_amp (
      d.sin (
        d.divide (d.times (d.times (d.times d.two d.pi) current_time_ms) d.wave_frequency)
          d.thousand))

  -- The first amplitude that is not nearly zero counts, and each one after it.
  abbrev pub heard : ℕ → Buffer → SineState → SineState
  heard a cmd s =
      let cmd_recv = d.at_least (d.fabs a) d.threshold || s.cmd_recv in
      record {
        wave_amp = if cmd_recv then d.fabs a else s.wave_amp;
        cmd_recv = cmd_recv;
        cmd = cmd;
      }

  -- A round, with the position that it writes.
  unfoldable pub sine_cycle :
      SineInput → SineState → SineClient → Option (SineState × SineClient × ℕ)
  unfolding on_transport_cmd_cb read_command write_state
  sine_cycle i s c = do
    c_1 ← deliver_one i.arrival c
    (got, cmd) ← read_command config (raw_state_codec 8) (raw_command_codec 8) s.cmd c_1
    a ← amplitude cmd
    let s' = heard a cmd s
    let position = wave s'.wave_amp i.current_time_ms
    c_2 ← write_state config (raw_state_codec 8) (raw_command_codec 8) (le_bytes 8 position) c_1
    some (s', c_2, position)

  unfoldable pub run_sine :
      List SineInput → SineState → SineClient → Option (SineState × SineClient × List ℕ)
  unfolding sine_cycle
  run_sine [] s c = some (s, c, [])
  run_sine (i ∷ inputs) s c = do
    (s', c', position) ← sine_cycle i s c
    (s'', c'', positions) ← run_sine inputs s' c'
    some (s'', c'', position ∷ positions)
