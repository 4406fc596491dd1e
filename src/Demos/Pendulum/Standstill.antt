-- ===== src/Demos/Pendulum/Standstill.antt =====
-- demos/inverted_pendulum: `main` does not hang before its loop, and the stepper stands still until a
-- command arrives.
use zephyr_zenoh_integration.Prelude.{
  ℕ, ◌+◌, ◌*◌, ◌≤◌, ◌<◌, ◌≡◌, refl, sym, ap, subst, ◌⊎◌, inl, inr, Bool, true, false, not, ◌&&◌,
  List, [], ◌∷◌, map, Option, none, some, arith, bind_step, length, ltb, ◌==◌, if◌then◌else◌,
}
use zephyr_zenoh_integration.Transport.State.{Transport}
use zephyr_zenoh_integration.Client.Codec.Contract.{StateLaws, CommandLaws}
use zephyr_zenoh_integration.Client.Lifecycle.{
  Config, Result, ok, enomem, eio, enodev, einval, failure,
}
use zephyr_zenoh_integration.Client.Channels.{ZenbeddedClient}
use zephyr_zenoh_integration.Client.Delivery.{IsServing}
use zephyr_zenoh_integration.Client.Startup.{Started, init-Started}
use zephyr_zenoh_integration.Demos.Pendulum.Double.{Double, IsIeee}
use zephyr_zenoh_integration.Demos.Pendulum.Motor.{
  MotorCall, stepper_ctrl_stop, set_stepper_angular_vel-zero, microsteps_to_angle,
  get_encoder_angle_deg,
}
use zephyr_zenoh_integration.Demos.Pendulum.Wait.{
  Waited, connected, timed_out, waiting, wait, Advances, Ended, wait-Ended,
}
use zephyr_zenoh_integration.Demos.Pendulum.Cycle.{Firmware, LoopState, Input}
use zephyr_zenoh_integration.Demos.Pendulum.Watching.{obeyed_for}
use zephyr_zenoh_integration.Demos.Pendulum.Watchdog.{AllQuiet, quiet_cycles}
use zephyr_zenoh_integration.Demos.Pendulum.Program.{
  Startup, Exit, Outcome, exits, runs, not_ready, no_encoder, driver_failed, first_state,
  calibrated, enabled, initialized, after_ipv4, after_wifi, main, wifi_connect_timeout,
  ipv4_acquire_timeout,
}

-- The networks answer for long enough, at least 200 ms apart.
pub record IsPatient (st : Startup) : Type 0 where
  pub wifi_advances : Advances st.wifi_timer 0 st.wifi
  pub wifi_long : wifi_connect_timeout + 200 < 200 * length st.wifi
  pub ipv4_advances : Advances st.ipv4_timer 0 st.ipv4
  pub ipv4_long : ipv4_acquire_timeout + 200 < 200 * length st.ipv4

module _ (d : Double) (micro_step_res : ℕ) (config : Config) (fw : Firmware)
    (state_params : fw.S.InitParams) (cmd_params : fw.C.InitParams)
    (laws : StateLaws fw.S state_params) (cmd_laws : CommandLaws fw.C cmd_params)
    (suits : (tv : ℕ × ℕ) (a b : ℕ) → laws.Suits (fw.state_val tv a b)) (ieee : IsIeee d)
    (inputs : List Input) (quiet : AllQuiet inputs) where
  abbrev Client : Type 0
  Client = ZenbeddedClient fw.S fw.C

  abbrev pub Serves : Client → Type 0
  Serves = IsServing config fw.S fw.C state_params cmd_params laws cmd_laws

  abbrev pub only_stops : List (List MotorCall)
  only_stops = map (λ i. stepper_ctrl_stop ∷ []) inputs

  -- The program returns, or has stopped the stepper in every round.
  abbrev pub StandsStill : Option (Outcome fw) → Type 0
  StandsStill outcome =
      ((e : Exit) × (outcome ≡ some (exits e)))
      ⊎ ((s : LoopState) × (c : Client) × (outcome ≡ some (runs s c only_stops)) × Serves c)

  obeyed_for-zero :
      (a b v k : ℕ) (is : List Input)
      → d.eq v d.zero ≡ true
      → obeyed_for d micro_step_res a b config fw v k is ≡ map (λ i. stepper_ctrl_stop ∷ []) is
  obeyed_for-zero a b v k [] e = refl
  obeyed_for-zero a b v k (i ∷ is) e =
      rw (set_stepper_angular_vel-zero d micro_step_res i.accepts v e)
        (rw (obeyed_for-zero a b v (k + 1) is e) (either (ltb k 20)))
    where
      either :
          (z : Bool)
          → ((if z then stepper_ctrl_stop ∷ [] else stepper_ctrl_stop ∷ [])
              ∷ map (λ i. stepper_ctrl_stop ∷ []) is)
            ≡ ((stepper_ctrl_stop ∷ []) ∷ map (λ i. stepper_ctrl_stop ∷ []) is)
      either true = refl
      either false = refl

  calibrated-StandsStill :
      (angle : Option ℕ) (position : ℕ) (c : Client)
      → Serves c
      → StandsStill
          (calibrated d micro_step_res config fw state_params cmd_params angle position inputs c)
  unfolding calibrated
  calibrated-StandsStill none position c serves = inl (no_encoder, refl)
  calibrated-StandsStill (some offset) position c serves =
      let zero_offset = microsteps_to_angle d micro_step_res position in
      let (s', c', e, serves') =
        quiet_cycles d micro_step_res zero_offset offset config fw state_params cmd_params laws
          cmd_laws suits d.zero 0 inputs
          (first_state d micro_step_res config fw state_params cmd_params c.accepted) c ieee quiet
          serves refl (inl (omega arith, (refl, refl))) in
      inr (
        s',
        c',
        bind_step _ e (
            ap (λ calls. some (runs s' c' calls))
              (obeyed_for-zero zero_offset offset d.zero 0 inputs ieee.zero-eq)),
        serves',
      )

  enabled-StandsStill :
      (st : Startup) (c : Client)
      → Serves c
      → StandsStill (enabled d micro_step_res config fw state_params cmd_params st inputs c)
  unfolding enabled
  enabled-StandsStill st c serves = by_codes (not (st.enabled == 0)) (not (st.position_read == 0))
    where
      by_codes :
          (a b : Bool)
          → StandsStill (
              if a
              then some (exits (driver_failed st.enabled))
              else if b
              then some (exits (driver_failed st.position_read))
              else calibrated d micro_step_res config fw state_params cmd_params
                  (get_encoder_angle_deg d micro_step_res st.fetched st.encoder)
                  st.position
                  inputs
                  c)
      by_codes true b = inl (_, refl)
      by_codes false true = inl (_, refl)
      by_codes false false = calibrated-StandsStill _ st.position c serves

  initialized-StandsStill :
      (result : Result) (st : Startup) (c : Client)
      → Started config fw.S fw.C state_params cmd_params laws cmd_laws 50 result c
      → StandsStill
          (initialized d micro_step_res config fw state_params cmd_params result st inputs c)
  unfolding initialized
  initialized-StandsStill ok st c (inl (r, serves, blank)) = enabled-StandsStill st c serves
  initialized-StandsStill ok st c (inr (r, i)) = absurd (grind arith)
  initialized-StandsStill enomem st c started = inl (_, refl)
  initialized-StandsStill eio st c started = inl (_, refl)
  initialized-StandsStill enodev st c started = inl (_, refl)
  initialized-StandsStill einval st c started = inl (_, refl)
  initialized-StandsStill failure st c started = inl (_, refl)

  module _ (st : Startup) (c : Client) (t : Transport Unit) (patient : IsPatient st)
      (unborn : c.base.initialized ≡ false)
      (state_fits : fw.S.payload_size laws.ctx ≤ config.max_state_buffer_size)
      (cmd_fits : fw.C.payload_size cmd_laws.ctx ≤ config.max_cmd_buffer_size)
      (scratch_fits : fw.C.payload_size cmd_laws.ctx ≤ length st.scratch) where
    after_ipv4-StandsStill :
        (waited : Waited)
        → Ended ipv4_acquire_timeout st.ipv4_timer st.ipv4 waited
        → StandsStill
            (after_ipv4 d micro_step_res config fw state_params cmd_params waited st inputs c t)
    unfolding after_ipv4
    after_ipv4-StandsStill timed_out ended = inl (_, refl)
    after_ipv4-StandsStill waiting (inl (e, granted)) = absurd (grind arith)
    after_ipv4-StandsStill waiting (inr (e, late)) = absurd (grind arith)
    after_ipv4-StandsStill connected ended =
        let (result, c', t', e, started) =
          init-Started config fw.S fw.C state_params cmd_params laws cmd_laws st.answers 50
            st.scratch c t unborn state_fits cmd_fits scratch_fits in
        subst StandsStill (sym (bind_step _ e refl)) (initialized-StandsStill result st c' started)

    after_wifi-StandsStill :
        (waited : Waited)
        → Ended wifi_connect_timeout st.wifi_timer st.wifi waited
        → StandsStill
            (after_wifi d micro_step_res config fw state_params cmd_params waited st inputs c t)
    unfolding after_wifi
    after_wifi-StandsStill timed_out ended = inl (_, refl)
    after_wifi-StandsStill waiting (inl (e, granted)) = absurd (grind arith)
    after_wifi-StandsStill waiting (inr (e, late)) = absurd (grind arith)
    after_wifi-StandsStill connected ended = after_ipv4-StandsStill _ (
        wait-Ended ipv4_acquire_timeout st.ipv4_timer st.ipv4 patient.ipv4_advances
          patient.ipv4_long)

    pub main-StandsStill :
        StandsStill (main d micro_step_res config fw state_params cmd_params st inputs c t)
    unfolding main
    main-StandsStill =
        by_devices (not (st.stepper_driver_ready && st.stepper_ctrl_ready))
          (not st.encoder_driver_ready)
      where
        by_devices :
            (a b : Bool)
            → StandsStill (
                if a
                then some (exits not_ready)
                else if b
                then some (exits not_ready)
                else after_wifi d micro_step_res config fw state_params cmd_params
                    (wait wifi_connect_timeout st.wifi_timer st.wifi)
                    st
                    inputs
                    c
                    t)
        by_devices true b = inl (_, refl)
        by_devices false true = inl (_, refl)
        by_devices false false = after_wifi-StandsStill _ (
            wait-Ended wifi_connect_timeout st.wifi_timer st.wifi patient.wifi_advances
              patient.wifi_long)
