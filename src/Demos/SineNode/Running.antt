-- ===== src/Demos/SineNode/Running.antt =====
-- demos/sine_wave/sine_wave_zephyr/src/main.cpp: what `main` comes to.
use zephyr_zenoh_integration.Prelude.{
  ℕ, zero, suc, ◌-◌, ◌*◌, ◌≤◌, ◌<◌, ◌≡◌, refl, sym, ap, ◌∙◌, subst, ◌⊎◌, inl, inr, Bool, true,
  false, List, [], ◌∷◌, Option, some, bind_step, arith, length, length-replicate, get_elem?,
}
use zephyr_zenoh_integration.Prelude.Bytes.{zeros, load}
use zephyr_zenoh_integration.Prelude.Segments.{load-front}
use zephyr_zenoh_integration.Transport.State.{Transport}
use zephyr_zenoh_integration.Client.Buffer.Slots.{Slot}
use zephyr_zenoh_integration.Client.Codec.Raw.{
  raw_state_codec, raw_command_codec, raw_state_laws, raw_command_laws, raw_init_blank, raw_read,
  raw_read_message,
}
use zephyr_zenoh_integration.Client.Lifecycle.{
  Config, Result, ok, enomem, eio, enodev, einval, failure,
}
use zephyr_zenoh_integration.Client.Channels.{read_command, read_command_in}
use zephyr_zenoh_integration.Client.Startup.{Started, init-Started}
use zephyr_zenoh_integration.Demos.Pendulum.Wait.{
  Waited, connected, timed_out, waiting, Advances, Ended, wait-Ended,
}
use zephyr_zenoh_integration.Demos.SineNode.Loop.{SineDouble, SineClient, SineState, SineInput}
use zephyr_zenoh_integration.Demos.SineNode.Amplitude.{
  Serves, Reads, PublishesLast, AllDoubles, positions, run_sine-positions,
}
use zephyr_zenoh_integration.Demos.SineNode.Program.{
  NodeStartup, NodeOutcome, no_network, client_failed, runs, wait_address, first_state,
  started_node, with_address, with_wifi, sine_main,
}

-- The WiFi answers for long enough, at least 200 ms apart, and there is an address in some round.
pub record HasNetwork (st : NodeStartup) : Type 0 where
  pub advances : Advances st.wifi_timer 0 st.wifi
  pub long : 15200 < 200 * length st.wifi
  pub round : ℕ
  pub address : get_elem? st.addresses round ≡ some true

wait_address-connected :
    (addresses : List Bool) (round : ℕ)
    → get_elem? addresses round ≡ some true
    → wait_address addresses ≡ connected
unfolding wait_address
wait_address-connected [] round e = absurd (grind arith)
wait_address-connected (true ∷ rest) round e = refl
wait_address-connected (false ∷ rest) zero e = absurd (grind arith)
wait_address-connected (false ∷ rest) (suc round) e = wait_address-connected rest round e

module _ (d : SineDouble) (wave_amp : ℕ) (config : Config) (inputs : List SineInput)
    (doubles : AllDoubles inputs) where
  -- The program returns, or is in its loop with these positions, the last of which it publishes.
  abbrev pub Waves : Option NodeOutcome → Type 0
  Waves outcome =
      (outcome ≡ some no_network)
      ⊎ ((r : Result) × (outcome ≡ some (client_failed r)))
      ⊎ ((s : SineState) × (c : SineClient) × (outcome
            ≡ some (runs s c (positions d config wave_amp false 0 inputs)))
          × Serves d config c
          × PublishesLast d config (positions d config wave_amp false 0 inputs) c)

  -- A cleared command buffer reads as zero.
  cleared-Reads :
      (c : SineClient)
      → 8 ≤ config.max_cmd_buffer_size
      → Serves d config c
      → ((i : Slot) → c.command.content i ≡ zeros config.max_cmd_buffer_size)
      → Reads d config 0 c
  unfolding read_command read_command_in
  cleared-Reads c long serves zeroed out h =
      ap (λ b. read_command_in config (raw_state_codec 8) (raw_command_codec 8) b out c)
        serves.initialized
      ∙ bind_step _
          (ap (λ n. load 0 n (c.command.content c.command.active)) serves.cmd_size
            ∙ ap (load 0 8)
                (zeroed c.command.active ∙ raw_init_blank 8 config.max_cmd_buffer_size long)
            ∙ load-front 8 (zeros 8) (zeros (config.max_cmd_buffer_size - 8)) refl)
          (ap (λ n. raw_read 8 (zeros 8) n out) serves.cmd_size
            ∙ raw_read_message 8 (zeros 8) out refl)

  started_node-Waves :
      (result : Result) (c : SineClient)
      → 8 ≤ config.max_cmd_buffer_size
      → Started config
          (raw_state_codec 8)
          (raw_command_codec 8)
          tt
          tt
          (raw_state_laws 8)
          (raw_command_laws 8)
          100
          result
          c
      → Waves (started_node d wave_amp config result inputs c)
  unfolding started_node
  started_node-Waves ok c long (inl (r, serves, (size, held, zeroed))) =
      let (s', c', e, serves', last) =
        run_sine-positions d config inputs 0 (first_state d wave_amp config) c serves
          (cleared-Reads c long serves zeroed) (omega arith) doubles
          (length-replicate {A = ℕ} 8 0) in
      inr (inr (s', c', bind_step _ e refl, serves', last))
  started_node-Waves ok c long (inr (r, i)) = absurd (grind arith)
  started_node-Waves enomem c long started = inr (inl (_, refl))
  started_node-Waves eio c long started = inr (inl (_, refl))
  started_node-Waves enodev c long started = inr (inl (_, refl))
  started_node-Waves einval c long started = inr (inl (_, refl))
  started_node-Waves failure c long started = inr (inl (_, refl))

  module _ (st : NodeStartup) (c : SineClient) (t : Transport Unit) (network : HasNetwork st)
      (unborn : c.base.initialized ≡ false) (state_fits : 8 ≤ config.max_state_buffer_size)
      (cmd_fits : 8 ≤ config.max_cmd_buffer_size) (scratch_fits : 8 ≤ length st.scratch) where
    with_address-Waves : Waves (with_address d wave_amp config connected st inputs c t)
    unfolding with_address
    with_address-Waves =
        let (result, c', t', e, started) =
          init-Started config (raw_state_codec 8) (raw_command_codec 8) tt tt (raw_state_laws 8)
            (raw_command_laws 8) st.answers 100 st.scratch c t unborn state_fits cmd_fits
            scratch_fits in
        subst Waves (sym (bind_step _ e refl)) (started_node-Waves result c' cmd_fits started)

    with_wifi-Waves :
        (waited : Waited)
        → Ended 15000 st.wifi_timer st.wifi waited
        → Waves (with_wifi d wave_amp config waited st inputs c t)
    unfolding with_wifi
    with_wifi-Waves timed_out ended = inl refl
    with_wifi-Waves waiting (inl (e, granted)) = absurd (grind arith)
    with_wifi-Waves waiting (inr (e, late)) = absurd (grind arith)
    with_wifi-Waves connected ended =
        subst (λ w. Waves (with_address d wave_amp config w st inputs c t))
          (sym (wait_address-connected st.addresses network.round network.address))
          with_address-Waves

    -- If the WiFi answers at least 200 ms apart for longer than the timeout, there is an address in
    -- some round, the buffers have at least 8 bytes and the client is not initialised: whatever the
    -- networks and the transport answer, no access is out of bounds and the program does not hang
    -- before its loop. It returns, or it is in its loop with a serving client, and its positions
    -- are the wave of the default amplitude until the first command that is at least the threshold,
    -- and from then on of the absolute value of the latest command; after any number of rounds,
    -- `zenoh_publish_state` hands the transport the 8 bytes of the last of these positions.
    pub sine_main-Waves : Waves (sine_main d wave_amp config st inputs c t)
    unfolding sine_main
    sine_main-Waves =
        with_wifi-Waves _ (wait-Ended 15000 st.wifi_timer st.wifi network.advances network.long)
