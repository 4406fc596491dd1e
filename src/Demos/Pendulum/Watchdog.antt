-- ===== src/Demos/Pendulum/Watchdog.antt =====
-- demos/inverted_pendulum: how long the stepper obeys a command.
use zephyr_zenoh_integration.Prelude.{
  ℕ, ◌+◌, ◌%◌, ◌^◌, ◌≡◌, refl, sym, ap, ◌∙◌, inl, true, false, not, List, [], ◌∷◌, some, arith,
  bind_step, ◌==◌,
}
use zephyr_zenoh_integration.Client.Buffer.Slots.{other}
use zephyr_zenoh_integration.Client.Codec.Contract.{StateLaws, CommandLaws}
use zephyr_zenoh_integration.Client.Lifecycle.{Config}
use zephyr_zenoh_integration.Client.Channels.{ZenbeddedClient, write_state}
use zephyr_zenoh_integration.Client.Delivery.{
  IsServing, write_state-IsPublished, on_transport_cmd_cb-IsDelivered,
}
use zephyr_zenoh_integration.Demos.Pendulum.Double.{Double, IsIeee}
use zephyr_zenoh_integration.Demos.Pendulum.Motor.{set_stepper_angular_vel}
use zephyr_zenoh_integration.Demos.Pendulum.Watching.{
  guard, sensed, sense-AgreesOn, Watching, obeyed_for, watchdog-Watching, Watching-calls,
  sensed-Watching, watchdog-count,
}
use zephyr_zenoh_integration.Demos.Pendulum.Cycle.{
  Firmware, LoopState, Input, deliver, on_command, cycle, run_cycles,
}

-- No command arrives in the round.
pub record IsQuiet (i : Input) : Type 0 where
  pub none_early : i.early ≡ []
  pub none_late : i.late ≡ []

abbrev pub AllQuiet : List Input → Type 0
AllQuiet [] = Unit
AllQuiet (i ∷ inputs) = IsQuiet i × AllQuiet inputs

module _ (d : Double) (micro_step_res stepper_offset encoder_offset : ℕ) (config : Config)
    (fw : Firmware) (state_params : fw.S.InitParams) (cmd_params : fw.C.InitParams)
    (laws : StateLaws fw.S state_params) (cmd_laws : CommandLaws fw.C cmd_params)
    (suits : (tv : ℕ × ℕ) (a b : ℕ) → laws.Suits (fw.state_val tv a b)) where
  abbrev Client : Type 0
  Client = ZenbeddedClient fw.S fw.C

  abbrev guarded : LoopState → LoopState
  guarded = guard d micro_step_res stepper_offset encoder_offset config fw

  abbrev sense_of : Input → LoopState → LoopState
  sense_of = sensed d micro_step_res stepper_offset encoder_offset config fw

  abbrev pub Serving : Client → Type 0
  Serving = IsServing config fw.S fw.C state_params cmd_params laws cmd_laws

  -- The state of the two angles is written in every round.
  written :
      (v : fw.S.Value) (c : Client)
      → laws.Suits v
      → Serving c
      → (c' : Client) × (write_state config fw.S fw.C v c ≡ some c')
        × Serving c'
        × (c'.accepted ≡ c.accepted)
  written v c fits serving =
      let (m, tail, shaped, e) = serving.state_slots (other c.state.active) in
      let (c', p) =
        write_state-IsPublished config fw.S fw.C state_params cmd_params laws cmd_laws c serving v m
          tail fits shaped e in
      (c', p.written, p.serving, p.accepted_kept)

  -- What a round without a command does.
  quiet_cycle :
      (i : Input) (s : LoopState) (c : Client)
      → IsQuiet i
      → Serving c
      → s.last_command_count ≡ c.accepted
      → (c' : Client) × (cycle d micro_step_res stepper_offset encoder_offset config fw i s c
          ≡ some (
            guarded (sense_of i s),
            c',
            set_stepper_angular_vel d micro_step_res i.accepts
                (guarded (sense_of i s)).stepper_angular_velocity,
          ))
        × Serving c'
        × (c'.accepted ≡ c.accepted)
  unfolding cycle deliver on_command
  quiet_cycle i s c quiet serving same =
      let agrees = sense-AgreesOn d micro_step_res stepper_offset encoder_offset config fw i s in
      let (c', w, serving', kept) = written _ c (suits i.tv _ _) serving in
      (
        c',
        bind_step _ w (
            bind_step _
              (ap (λ ps. deliver d micro_step_res stepper_offset encoder_offset config fw ps c')
                quiet.none_early)
              (bind_step _
                (ap (λ ps. deliver d micro_step_res stepper_offset encoder_offset config fw ps c')
                  quiet.none_late)
                (bind_step _
                  (ap
                    (λ b.
                      on_command d micro_step_res stepper_offset encoder_offset config fw b
                        c'.accepted i.memory (sense_of i s) c')
                    (unchanged _ _ (kept ∙ sym same ∙ sym agrees.count)))
                  refl))),
        serving',
        kept,
      )
    where
      unchanged : (a b : ℕ) → a ≡ b → not (a == b) ≡ false
      unchanged a b e = ground arith

  pub quiet_cycles :
      (v k : ℕ) (inputs : List Input) (s : LoopState) (c : Client)
      → IsIeee d
      → AllQuiet inputs
      → Serving c
      → s.last_command_count ≡ c.accepted
      → Watching d micro_step_res stepper_offset encoder_offset config fw v k s
      → (s' : LoopState) × (c' : Client) × (run_cycles d micro_step_res stepper_offset
            encoder_offset config fw inputs s c
          ≡ some (
            s',
            c',
            obeyed_for d micro_step_res stepper_offset encoder_offset config fw v k inputs,
          ))
        × Serving c'
  unfolding run_cycles
  quiet_cycles v k [] s c ieee quiet serving same watching = (s, c, refl, serving)
  quiet_cycles v k (i ∷ inputs) s c ieee (quiet, all_quiet) serving same watching =
      let (c_1, e, serving_1, kept) = quiet_cycle i s c quiet serving same in
      let watching_1 =
        watchdog-Watching d micro_step_res stepper_offset encoder_offset config fw v k
          (sense_of i s) ieee
          (sensed-Watching d micro_step_res stepper_offset encoder_offset config fw v k i s
            watching) in
      let agrees = sense-AgreesOn d micro_step_res stepper_offset encoder_offset config fw i s in
      let (s', c', f, serving') =
        quiet_cycles v (k + 1) inputs _ c_1 ieee all_quiet serving_1
          (watchdog-count d micro_step_res stepper_offset encoder_offset config fw (sense_of i s)
            ∙ agrees.count
            ∙ same
            ∙ sym kept)
          watching_1 in
      (
        s',
        c',
        bind_step _ e (
            bind_step _ f (
              ap
                (λ calls. some (
                  s',
                  c',
                  calls
                      ∷ obeyed_for d micro_step_res stepper_offset encoder_offset config fw v
                          (k + 1) inputs,
                ))
                (Watching-calls d micro_step_res stepper_offset encoder_offset config fw v k
                  (guarded (sense_of i s)) i.accepts watching_1))),
        serving',
      )

  -- One command arrives in the round, before its count is read, and finds a variable with room for
  -- its value.
  pub record Brings (m : cmd_laws.Message) (v : ℕ) (i : Input) : Type 0 where
    pub one_early : i.early ≡ cmd_laws.encode m ∷ []
    pub none_late : i.late ≡ []
    pub shaped : cmd_laws.IsShaped m
    pub room : cmd_laws.HasRoom (fw.cmd_val i.memory)
    pub value : fw.velocity (cmd_laws.fill m (fw.cmd_val i.memory)) ≡ some v

  command_cycle :
      (i : Input) (m : cmd_laws.Message) (v : ℕ) (s : LoopState) (c : Client)
      → Brings m v i
      → Serving c
      → s.last_command_count ≡ c.accepted
      → (s' : LoopState) × (c' : Client) × (cycle d micro_step_res stepper_offset encoder_offset
            config fw i s c
          ≡ some (s', c', set_stepper_angular_vel d micro_step_res i.accepts v))
        × Serving c'
        × (s'.last_command_count ≡ c'.accepted)
        × Watching d micro_step_res stepper_offset encoder_offset config fw v 0 s'
  unfolding cycle deliver on_command
  command_cycle i m v s c brings serving same =
      let agrees = sense-AgreesOn d micro_step_res stepper_offset encoder_offset config fw i s in
      let (c_1, w, serving_1, kept) = written _ c (suits i.tv _ _) serving in
      let (c_2, arrival) =
        on_transport_cmd_cb-IsDelivered config fw.S fw.C state_params cmd_params laws cmd_laws c_1
          serving_1 m brings.shaped in
      (
        _,
        c_2,
        bind_step _ w (
            bind_step _
              (ap (λ ps. deliver d micro_step_res stepper_offset encoder_offset config fw ps c_1)
                  brings.one_early
                ∙ bind_step _ arrival.received refl)
              (bind_step _
                (ap (λ ps. deliver d micro_step_res stepper_offset encoder_offset config fw ps c_2)
                  brings.none_late)
                (bind_step _
                  (ap
                      (λ b.
                        on_command d micro_step_res stepper_offset encoder_offset config fw b
                          c_2.accepted i.memory (sense_of i s) c_2)
                      (changed c_2.accepted _ c_1.accepted arrival.counted
                        (agrees.count ∙ same ∙ sym kept))
                    ∙ bind_step _ (arrival.read (fw.cmd_val i.memory) brings.room)
                        (bind_step _ brings.value refl))
                  refl))),
        arrival.serving,
        refl,
        inl (omega arith, (refl, refl)),
      )
    where
      changed :
          (count last before : ℕ)
          → count ≡ (before + 1) % 2 ^ 32
          → last ≡ before
          → not (count == last) ≡ true
      changed count last before e f = ground arith

  -- For doubles that keep the two laws, in a serving client whose commands have all been counted:
  -- in a round in which one command of velocity `v` arrives, the stepper is given `v`, and in the
  -- quiet rounds after it, it is given `v` again in exactly the first 20, and stopped in every later
  -- one. No access is out of bounds and the client still serves.
  pub command-obeyed_for :
      (i : Input) (inputs : List Input) (m : cmd_laws.Message) (v : ℕ) (s : LoopState) (c : Client)
      → IsIeee d
      → Brings m v i
      → AllQuiet inputs
      → Serving c
      → s.last_command_count ≡ c.accepted
      → (s' : LoopState) × (c' : Client) × (run_cycles d micro_step_res stepper_offset
            encoder_offset config fw
            (i ∷ inputs)
            s
            c
          ≡ some (
            s',
            c',
            set_stepper_angular_vel d micro_step_res i.accepts v
                ∷ obeyed_for d micro_step_res stepper_offset encoder_offset config fw v 0 inputs,
          ))
        × Serving c'
  unfolding run_cycles
  command-obeyed_for i inputs m v s c ieee brings quiet serving same =
      let (s_1, c_1, e, serving_1, same_1, watching) =
        command_cycle i m v s c brings serving same in
      let (s', c', f, serving') =
        quiet_cycles v 0 inputs s_1 c_1 ieee quiet serving_1 same_1 watching in
      (s', c', bind_step _ e (bind_step _ f refl), serving')
