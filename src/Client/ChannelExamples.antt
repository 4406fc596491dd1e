-- ===== src/Client/ChannelExamples.antt =====
-- zenbedded_rcl: a client of raw payloads.
use zephyr_zenoh_integration.Prelude.{
  ℕ, ◌≤◌, ◌≡◌, refl, Bool, true, false, List, [], ◌∷◌, some, arith, length-replicate,
}
use zephyr_zenoh_integration.Prelude.Bytes.{zeros}
use zephyr_zenoh_integration.Transport.State.{Transport, Call}
use zephyr_zenoh_integration.Client.Buffer.Slots.{slot_1}
use zephyr_zenoh_integration.Client.Codec.Raw.{
  raw_state_codec, raw_command_codec, raw_state_laws, raw_command_laws,
}
use zephyr_zenoh_integration.Client.Lifecycle.{Result, period_ms}
use zephyr_zenoh_integration.Client.Channels.{ZenbeddedClient, cleared, init}
use zephyr_zenoh_integration.Client.Delivery.{
  IsServing, IsPublished, IsDelivered, write_state-IsPublished, on_transport_cmd_cb-IsDelivered,
}
use zephyr_zenoh_integration.Client.ControlLoop.{Round, control_thread_fn}
use zephyr_zenoh_integration.Client.Pacing.{IsReady, IsPaced, control_thread_fn-IsPaced}
use zephyr_zenoh_integration.Client.Reception.{
  on_sample, on_samples, on_sample-IsDelivered, on_samples-large,
}
use zephyr_zenoh_integration.Client.Startup.{Started, init-Started}
use zephyr_zenoh_integration.Client.Examples.{config, fresh, transport, answers}

abbrev RawClient : Type 0
RawClient = ZenbeddedClient (raw_state_codec 2) (raw_command_codec 3)

-- A client of two-byte states and three-byte commands.
abbrev raw_client : RawClient
raw_client = record {
  base = record fresh { initialized = true; state_payload_size = 2; cmd_payload_size = 3 };
  state = record (cleared 4) { active = slot_1; content = λ i. 5 ∷ 6 ∷ 0 ∷ 0 ∷ [] };
  command = cleared 8;
  accepted = 4294967295;
  state_ctx = tt;
  cmd_ctx = tt;
}

raw_client-IsServing :
    IsServing config
      (raw_state_codec 2)
      (raw_command_codec 3)
      tt
      tt
      (raw_state_laws 2)
      (raw_command_laws 3)
      raw_client
raw_client-IsServing = record {
  initialized = refl;
  state_ctx = refl;
  cmd_ctx = refl;
  state_size = refl;
  cmd_size = refl;
  state_slots = λ i. (5 ∷ 6 ∷ [], 0 ∷ 0 ∷ [], refl, refl);
  cmd_slots = λ i. omega (arith, length-replicate {A = ℕ} 8 0);
}

write_state-IsPublished_example :
    (c : RawClient) × IsPublished config
      (raw_state_codec 2)
      (raw_command_codec 3)
      tt
      tt
      (raw_state_laws 2)
      (raw_command_laws 3)
      (7 ∷ 8 ∷ [])
      (5 ∷ 6 ∷ [])
      raw_client
      c
write_state-IsPublished_example =
    write_state-IsPublished config (raw_state_codec 2) (raw_command_codec 3) tt tt
      (raw_state_laws 2) (raw_command_laws 3) raw_client raw_client-IsServing (7 ∷ 8 ∷ [])
      (5 ∷ 6 ∷ []) (0 ∷ 0 ∷ []) refl refl refl

on_transport_cmd_cb-IsDelivered_example :
    (c : RawClient) × IsDelivered config
      (raw_state_codec 2)
      (raw_command_codec 3)
      tt
      tt
      (raw_state_laws 2)
      (raw_command_laws 3)
      (1 ∷ 2 ∷ 3 ∷ [])
      raw_client
      c
on_transport_cmd_cb-IsDelivered_example =
    on_transport_cmd_cb-IsDelivered config (raw_state_codec 2) (raw_command_codec 3) tt tt
      (raw_state_laws 2) (raw_command_laws 3) raw_client raw_client-IsServing (1 ∷ 2 ∷ 3 ∷ []) refl

abbrev unborn_client : RawClient
unborn_client = record raw_client { base = fresh }

init-Started_example :
    (result : Result) × (c : RawClient) × (t : Transport Unit) × (init config
        (raw_state_codec 2)
        (raw_command_codec 3)
        (answers true)
        100
        tt
        tt
        (zeros 256)
        unborn_client
        transport
      ≡ some (result, c, t))
    × Started config
        (raw_state_codec 2)
        (raw_command_codec 3)
        tt
        tt
        (raw_state_laws 2)
        (raw_command_laws 3)
        100
        result
        c
init-Started_example =
    init-Started config (raw_state_codec 2) (raw_command_codec 3) tt tt (raw_state_laws 2)
      (raw_command_laws 3) (answers true) 100 (zeros 256) unborn_client transport refl (omega arith)
      (omega arith) (omega (arith, length-replicate {A = ℕ} 256 0))

-- A round that is in time, one that is late, and the request to stop.
abbrev round : Bool → ℕ → Round config (raw_state_codec 2) (raw_command_codec 3)
round running now = record {
  running = running;
  client = record raw_client { base = record (raw_client.base) { publisher = some 3 } };
  tv = (1, 2);
  puts = true;
  now = now;
  resumed = 100;
}

round-IsReady :
    (running : Bool) (now : ℕ)
    → IsReady config (raw_state_codec 2) (raw_command_codec 3) 10 (round running now).client
round-IsReady running now = record { payload = omega arith; publisher = omega arith }

abbrev rounds : List (Round config (raw_state_codec 2) (raw_command_codec 3))
rounds = round true 5 ∷ round true 300 ∷ round false 310 ∷ []

control_thread_fn-IsPaced_example :
    (1 ≤ period_ms 50)
    × (period_ms 50 ≤ 1000)
    × (r : List ℕ × Transport Unit × List Call) × (control_thread_fn config
          (raw_state_codec 2)
          (raw_command_codec 3)
          50
          0
          rounds
          transport
        ≡ some r)
    × IsPaced config (raw_state_codec 2) (raw_command_codec 3) (period_ms 50) 2 r
control_thread_fn-IsPaced_example =
    control_thread_fn-IsPaced config (raw_state_codec 2) (raw_command_codec 3) 50 0 rounds transport
      (λ e. absurd (omega arith))
      (round-IsReady true 5, (round-IsReady true 300, (round-IsReady false 310, tt)))

on_sample-IsDelivered_example :
    (c : RawClient) × (on_sample config
        (raw_state_codec 2)
        (raw_command_codec 3)
        (1 ∷ 2 ∷ 3 ∷ [])
        raw_client
      ≡ some c)
    × IsDelivered config
        (raw_state_codec 2)
        (raw_command_codec 3)
        tt
        tt
        (raw_state_laws 2)
        (raw_command_laws 3)
        (1 ∷ 2 ∷ 3 ∷ [])
        raw_client
        c
on_sample-IsDelivered_example =
    on_sample-IsDelivered config (raw_state_codec 2) (raw_command_codec 3) tt tt (raw_state_laws 2)
      (raw_command_laws 3) (1 ∷ 2 ∷ 3 ∷ []) raw_client raw_client-IsServing refl (omega arith)
      (omega arith)

-- A command of 100 bytes, in tier 2.
abbrev large_client : RawClient
large_client = record raw_client { base = record (raw_client.base) { cmd_payload_size = 100 } }

on_samples-large_example :
    on_samples config
      (raw_state_codec 2)
      (raw_command_codec 3)
      (zeros 100 ∷ [] ∷ (5 ∷ []) ∷ [])
      large_client
    ≡ some large_client
on_samples-large_example =
    on_samples-large config (raw_state_codec 2) (raw_command_codec 3)
      (zeros 100 ∷ [] ∷ (5 ∷ []) ∷ []) large_client (omega arith)
