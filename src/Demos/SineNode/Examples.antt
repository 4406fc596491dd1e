-- ===== src/Demos/SineNode/Examples.antt =====
-- demos/sine_wave/sine_wave_zephyr: three rounds, with whole numbers as doubles.
use zephyr_zenoh_integration.Prelude.{
  ℕ, ◌*◌, ◌/◌, ◌≡◌, refl, true, false, List, [], ◌∷◌, ◌++◌, none, some, arith, length-replicate,
  leb,
}
use zephyr_zenoh_integration.Prelude.Bytes.{zeros, load}
use zephyr_zenoh_integration.Client.Channels.{cleared, read_command, read_command_in}
use zephyr_zenoh_integration.Client.Examples.{config, fresh, transport, answers}
use zephyr_zenoh_integration.Demos.Pendulum.Refusals.{refused, refused-Advances, length-refused}
use zephyr_zenoh_integration.Demos.SineNode.Program.{NodeStartup, sine_main}
use zephyr_zenoh_integration.Demos.SineNode.Running.{HasNetwork, Waves, sine_main-Waves}
use zephyr_zenoh_integration.Demos.SineNode.Loop.{
  SineDouble, SineClient, SineState, SineInput, run_sine,
}
use zephyr_zenoh_integration.Demos.SineNode.Amplitude.{
  Serves, Reads, PublishesLast, AllDoubles, positions, run_sine-positions,
}

abbrev whole : SineDouble
whole = record {
  two = 2;
  pi = 3;
  wave_frequency = 1;
  thousand = 1000;
  threshold = 1;
  at_least = λ x y. leb y x;
  fabs = λ x. x;
  times = λ x y. x * y;
  divide = λ x y. x / y;
  sin = λ x. x;
}

abbrev client : SineClient
client = record {
  base = record fresh { initialized = true; state_payload_size = 8; cmd_payload_size = 8 };
  state = record (cleared 16) { content = λ i. zeros 8 ++ zeros 8 };
  command = record (cleared 16) { content = λ i. zeros 16 };
  accepted = 0;
  state_ctx = tt;
  cmd_ctx = tt;
}

client-Serves : Serves whole config client
client-Serves = record {
  initialized = refl;
  state_ctx = refl;
  cmd_ctx = refl;
  state_size = refl;
  cmd_size = refl;
  state_slots = λ i. (zeros 8, zeros 8, length-replicate {A = ℕ} 8 0, refl);
  cmd_slots = λ i. omega (arith, length-replicate {A = ℕ} 16 0);
}

-- The command buffer is cleared.
client-Reads : Reads whole config 0 client
unfolding read_command read_command_in load
client-Reads out h = refl

abbrev state : SineState
state = record { wave_amp = 5; cmd_recv = false; cmd = zeros 8 }

abbrev inputs : List SineInput
inputs =
    record { arrival = none; current_time_ms = 1000 }
    ∷ record { arrival = some 7; current_time_ms = 2000 }
    ∷ record { arrival = some 0; current_time_ms = 3000 }
    ∷ []

run_sine-positions_example :
    (s' : SineState) × (c' : SineClient) × (run_sine whole config inputs state client
      ≡ some (s', c', positions whole config 5 false 0 inputs))
    × Serves whole config c'
    × PublishesLast whole config (positions whole config 5 false 0 inputs) c'
run_sine-positions_example =
    run_sine-positions whole config inputs 0 state client client-Serves client-Reads (omega arith)
      (omega arith, (omega arith, (omega arith, tt))) (length-replicate {A = ℕ} 8 0)

-- The default at first, then the command, then nothing at all.
positions_test : positions whole config 5 false 0 inputs ≡ 30 ∷ 84 ∷ 0 ∷ []
positions_test = refl

abbrev startup : NodeStartup
startup = record {
  wifi_timer = 0;
  wifi = (true, 0) ∷ refused 200 80;
  addresses = false ∷ true ∷ [];
  answers = answers true;
  scratch = zeros 256;
}

startup-HasNetwork : HasNetwork startup
startup-HasNetwork = record {
  advances = (omega arith, refused-Advances 200 80 (omega arith));
  long = omega (arith, length-refused 200 80);
  round = 1;
  address = refl;
}

inputs-AllDoubles : AllDoubles inputs
inputs-AllDoubles = (omega arith, (omega arith, (omega arith, tt)))

abbrev unborn : SineClient
unborn = record client { base = fresh }

sine_main-Waves_example :
    Waves whole 5 config inputs inputs-AllDoubles
      (sine_main whole 5 config startup inputs unborn transport)
sine_main-Waves_example =
    sine_main-Waves whole 5 config inputs inputs-AllDoubles startup unborn transport
      startup-HasNetwork refl (omega arith) (omega arith)
      (omega (arith, length-replicate {A = ℕ} 256 0))
