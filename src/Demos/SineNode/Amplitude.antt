-- ===== src/Demos/SineNode/Amplitude.antt =====
-- demos/sine_wave/sine_wave_zephyr/src/main.cpp: which amplitude the wave has.
use zephyr_zenoh_integration.Prelude.{
  ℕ, ◌^◌, ◌<◌, ◌≡◌, refl, sym, ap, ◌∙◌, Bool, true, ◌||◌, List, [], ◌∷◌, Option, none, some, ◌>>=◌,
  bind_step, length, if◌then◌else◌,
}
use zephyr_zenoh_integration.Prelude.Bytes.{Buffer, le_bytes, length-le_bytes, le_value-le_bytes}
use zephyr_zenoh_integration.Prelude.Segments.{load_all}
use zephyr_zenoh_integration.Transport.State.{Transport}
use zephyr_zenoh_integration.Transport.Endpoints.{zenbedded_transport_publish}
use zephyr_zenoh_integration.Client.Buffer.Slots.{other}
use zephyr_zenoh_integration.Client.Codec.Raw.{
  raw_state_codec, raw_command_codec, raw_state_laws, raw_command_laws,
}
use zephyr_zenoh_integration.Client.Lifecycle.{Config}
use zephyr_zenoh_integration.Client.Channels.{read_command, zenoh_publish_state, published}
use zephyr_zenoh_integration.Client.Delivery.{
  IsServing, write_state-IsPublished, on_transport_cmd_cb-IsDelivered,
}
use zephyr_zenoh_integration.Demos.SineNode.Loop.{
  SineDouble, SineClient, SineState, SineInput, amplitude, deliver_one, wave, heard, sine_cycle,
  run_sine,
}

-- The amplitude that is known after a round.
abbrev pub latest : ℕ → Option ℕ → ℕ
latest a none = a
latest a (some b) = b

-- Patterns of 64 bits.
abbrev pub AllDoubles : List SineInput → Type 0
AllDoubles [] = Unit
AllDoubles (i ∷ inputs) = (latest 0 i.arrival < 2 ^ 64) × AllDoubles inputs

module _ (d : SineDouble) (config : Config) where
  abbrev pub Serves : SineClient → Type 0
  Serves =
      IsServing config (raw_state_codec 8) (raw_command_codec 8) tt tt (raw_state_laws 8)
        (raw_command_laws 8)

  -- `read_command` gives the amplitude `a`.
  abbrev pub Reads : ℕ → SineClient → Type 0
  Reads a c =
      (out : Buffer)
      → length out ≡ 8
      → read_command config (raw_state_codec 8) (raw_command_codec 8) out c
        ≡ some (true, le_bytes 8 a)

  -- What the control thread sends next are the bytes of `position`.
  abbrev pub Publishes : ℕ → SineClient → Type 0
  Publishes position c =
      (tv : ℕ × ℕ) (puts : Bool) (t : Transport Unit)
      → zenoh_publish_state config (raw_state_codec 8) (raw_command_codec 8) tv puts c t ≡ (
          zenbedded_transport_publish config.tier config.printer Unit c.base.publisher
            (le_bytes 8 position) tv puts t
          >>= λ r. some (published config (raw_state_codec 8) (raw_command_codec 8) r))

  -- The same of the last of some positions, if there is one.
  abbrev pub PublishesLast : List ℕ → SineClient → Type 0
  PublishesLast [] c = Unit
  PublishesLast (x ∷ []) c = Publishes x c
  PublishesLast (x ∷ y ∷ ys) c = PublishesLast (y ∷ ys) c

  -- The positions, from the amplitude before, whether one has counted, and the one known.
  abbrev pub positions : ℕ → Bool → ℕ → List SineInput → List ℕ
  positions wave_amp counts a [] = []
  positions wave_amp counts a (i ∷ inputs) =
      let b = latest a i.arrival in
      let counts' = d.at_least (d.fabs b) d.threshold || counts in
      let wave_amp' = if counts' then d.fabs b else wave_amp in
      wave d config wave_amp' i.current_time_ms ∷ positions wave_amp' counts' b inputs

  arrived :
      (arrival : Option ℕ) (a : ℕ) (c : SineClient)
      → Serves c
      → Reads a c
      → (c' : SineClient) × (deliver_one d config arrival c ≡ some c')
        × Serves c'
        × Reads (latest a arrival) c'
  arrived none a c serves reads = (c, refl, serves, reads)
  arrived (some b) a c serves reads =
      let (c', delivered) =
        on_transport_cmd_cb-IsDelivered config (raw_state_codec 8) (raw_command_codec 8) tt tt
          (raw_state_laws 8) (raw_command_laws 8) c serves (le_bytes 8 b) (length-le_bytes 8 b) in
      (c', delivered.received, delivered.serving, delivered.read)

  amplitude-le_bytes : (a : ℕ) → a < 2 ^ 64 → amplitude (le_bytes 8 a) ≡ some a
  amplitude-le_bytes a h =
      bind_step _ (load_all 8 (le_bytes 8 a) (sym (length-le_bytes 8 a)))
        (ap some (le_value-le_bytes 8 a h))

  known-small :
      (a : ℕ) (arrival : Option ℕ)
      → a < 2 ^ 64
      → latest 0 arrival < 2 ^ 64
      → latest a arrival < 2 ^ 64
  known-small a none h k = h
  known-small a (some b) h k = k

  one_cycle :
      (i : SineInput) (a : ℕ) (s : SineState) (c : SineClient)
      → Serves c
      → Reads a c
      → length s.cmd ≡ 8
      → latest a i.arrival < 2 ^ 64
      → (c' : SineClient) × (sine_cycle d config i s c
          ≡ some (
            heard d config (latest a i.arrival) (le_bytes 8 (latest a i.arrival)) s,
            c',
            wave d config
                (heard d config (latest a i.arrival) (le_bytes 8 (latest a i.arrival)) s).wave_amp
                i.current_time_ms,
          ))
        × Serves c'
        × Reads (latest a i.arrival) c'
        × Publishes
            (wave d config
              (heard d config (latest a i.arrival) (le_bytes 8 (latest a i.arrival)) s).wave_amp
              i.current_time_ms)
            c'
  unfolding sine_cycle
  one_cycle i a s c serves reads room small =
      let (c_1, e, serves_1, reads_1) = arrived i.arrival a c serves reads in
      let (m, tail, shaped, held) = serves_1.state_slots (other c_1.state.active) in
      let position =
        wave d config
          (heard d config (latest a i.arrival) (le_bytes 8 (latest a i.arrival)) s).wave_amp
          i.current_time_ms in
      let (c_2, p) =
        write_state-IsPublished config (raw_state_codec 8) (raw_command_codec 8) tt tt
          (raw_state_laws 8) (raw_command_laws 8) c_1 serves_1 (le_bytes 8 position) m tail
          (length-le_bytes 8 position) shaped held in
      (
        c_2,
        bind_step _ e (
            bind_step _ (reads_1 s.cmd room) (
              bind_step _ (amplitude-le_bytes (latest a i.arrival) small)
                (bind_step _ p.written refl))),
        p.serving,
        λ out h. p.read_kept out ∙ reads_1 out h,
        p.sent,
      )

  -- In a serving client that reads the amplitude `a`: whatever amplitudes arrive and times pass, no
  -- access is out of bounds, and the positions are those of waves whose amplitude stays as it was
  -- until the first command that is at least the threshold, and from then on is the absolute value
  -- of the latest command, small ones included. `zenoh_publish_state` then hands the transport the
  -- 8 bytes of the last of these positions, so that every round has written its own.
  pub run_sine-positions :
      (inputs : List SineInput) (a : ℕ) (s : SineState) (c : SineClient)
      → Serves c
      → Reads a c
      → a < 2 ^ 64
      → AllDoubles inputs
      → length s.cmd ≡ 8
      → (s' : SineState) × (c' : SineClient) × (run_sine d config inputs s c
          ≡ some (s', c', positions s.wave_amp s.cmd_recv a inputs))
        × Serves c'
        × PublishesLast (positions s.wave_amp s.cmd_recv a inputs) c'
  unfolding run_sine
  run_sine-positions [] a s c serves reads small doubles room = (s, c, refl, serves, tt)
  run_sine-positions (i ∷ []) a s c serves reads small (first, doubles) room =
      let (c_1, e, serves_1, reads_1, last) =
        one_cycle i a s c serves reads room (known-small a i.arrival small first) in
      (_, c_1, bind_step _ e refl, serves_1, last)
  run_sine-positions (i ∷ j ∷ inputs) a s c serves reads small (first, doubles) room =
      let small_1 = known-small a i.arrival small first in
      let (c_1, e, serves_1, reads_1, last_1) = one_cycle i a s c serves reads room small_1 in
      let (s', c', f, serves', last) =
        run_sine-positions (j ∷ inputs) (latest a i.arrival) _ c_1 serves_1 reads_1 small_1 doubles
          (length-le_bytes 8 (latest a i.arrival)) in
      (s', c', bind_step _ e (bind_step _ f refl), serves', last)
