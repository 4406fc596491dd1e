-- ===== src/Demos/SineNode/Program.antt =====
-- demos/sine_wave/sine_wave_zephyr/src/main.cpp: `main`, from the wait for the networks to the loop.
use zephyr_zenoh_integration.Prelude.{ℕ, Bool, true, false, List, [], ◌∷◌, Option, some, ◌>>=◌}
use zephyr_zenoh_integration.Prelude.Bytes.{Buffer, zeros}
use zephyr_zenoh_integration.Transport.State.{Transport}
use zephyr_zenoh_integration.Client.Codec.Raw.{raw_state_codec, raw_command_codec}
use zephyr_zenoh_integration.Client.Lifecycle.{
  Config, Answers, Result, ok, enomem, eio, enodev, einval, failure,
}
use zephyr_zenoh_integration.Client.Channels.{init}
use zephyr_zenoh_integration.Demos.Pendulum.Wait.{
  WaitRound, Waited, connected, timed_out, waiting, wait,
}
use zephyr_zenoh_integration.Demos.SineNode.Loop.{
  SineDouble, SineClient, SineState, SineInput, run_sine,
}

-- What the program meets before its loop; `addresses` tells in which rounds there is an address.
pub record NodeStartup : Type 0 where
  pub wifi_timer : ℕ
  pub wifi : List WaitRound
  pub addresses : List Bool
  pub answers : Answers
  pub scratch : Buffer

-- The program returns -1 or the code of the client, waits still, or is in its loop.
pub data NodeOutcome : Type 0 where
  no_network waits : NodeOutcome
  client_failed : Result → NodeOutcome
  runs : SineState → SineClient → List ℕ → NodeOutcome

-- The wait for an address has no timeout.
unfoldable pub wait_address : List Bool → Waited
wait_address [] = waiting
wait_address (true ∷ rest) = connected
wait_address (false ∷ rest) = wait_address rest

abbrev pub loop_freq : ℕ
loop_freq = 100

module _ (d : SineDouble) (wave_amp : ℕ) (config : Config) where
  abbrev pub first_state : SineState
  first_state = record { wave_amp = wave_amp; cmd_recv = false; cmd = zeros 8 }

  -- By what `init` reports.
  unfoldable pub started_node : Result → List SineInput → SineClient → Option NodeOutcome
  unfolding run_sine
  started_node ok inputs c = do
    (s, c', positions) ← run_sine d config inputs first_state c
    some (runs s c' positions)
  started_node enomem inputs c = some (client_failed enomem)
  started_node eio inputs c = some (client_failed eio)
  started_node enodev inputs c = some (client_failed enodev)
  started_node einval inputs c = some (client_failed einval)
  started_node failure inputs c = some (client_failed failure)

  unfoldable pub with_address :
      Waited → NodeStartup → List SineInput → SineClient → Transport Unit → Option NodeOutcome
  unfolding started_node init
  with_address timed_out st inputs c t = some no_network
  with_address waiting st inputs c t = some waits
  with_address connected st inputs c t = do
    (result, c', t') ←
        init config (raw_state_codec 8) (raw_command_codec 8) st.answers loop_freq tt tt st.scratch
          c t
    started_node result inputs c'

  unfoldable pub with_wifi :
      Waited → NodeStartup → List SineInput → SineClient → Transport Unit → Option NodeOutcome
  unfolding with_address wait_address
  with_wifi timed_out st inputs c t = some no_network
  with_wifi waiting st inputs c t = some waits
  with_wifi connected st inputs c t = with_address (wait_address st.addresses) st inputs c t

  unfoldable pub sine_main :
      NodeStartup → List SineInput → SineClient → Transport Unit → Option NodeOutcome
  unfolding with_wifi wait
  sine_main st inputs c t = with_wifi (wait 15000 st.wifi_timer st.wifi) st inputs c t
