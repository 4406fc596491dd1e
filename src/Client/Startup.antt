-- ===== src/Client/Startup.antt =====
-- zenbedded_rcl/include/zenbedded_rcl/zenbedded_client.hpp: what `init` leaves behind.
use zephyr_zenoh_integration.Prelude.{
  ℕ, ◌≤◌, ◌≡◌, refl, ap, ◌∙◌, true, false, some, arith, bind_step, ◌++◌, length, length-replicate,
  ◌⊎◌, inl, inr,
}
use zephyr_zenoh_integration.Prelude.Bytes.{Buffer, zeros}
use zephyr_zenoh_integration.Transport.State.{Transport}
use zephyr_zenoh_integration.Client.Buffer.Slots.{Slot, slot_0, slot_1, put}
use zephyr_zenoh_integration.Client.Codec.Contract.{
  StateCodec, CommandCodec, StateLaws, CommandLaws,
}
use zephyr_zenoh_integration.Client.Lifecycle.{Config, Answers, Result, eio}
use zephyr_zenoh_integration.Client.Channels.{ZenbeddedClient, init, init_client, reset_buffers}
use zephyr_zenoh_integration.Client.Outcome.{HasSizes, HasThread, init_base-HasSizes}
use zephyr_zenoh_integration.Client.Delivery.{IsServing}

module _ (config : Config) (S : StateCodec) (C : CommandCodec) (state_params : S.InitParams)
    (cmd_params : C.InitParams) (laws : StateLaws S state_params)
    (cmd_laws : CommandLaws C cmd_params) where
  abbrev Client : Type 0
  Client = ZenbeddedClient S C

  abbrev pub Serving : Client → Type 0
  Serving = IsServing config S C state_params cmd_params laws cmd_laws

  -- Both state slots hold the blank message, before zeros, and the command slots are cleared.
  abbrev pub IsBlank : Client → Type 0
  IsBlank c =
      (size : ℕ) × ((i : Slot) → c.state.content i ≡ laws.encode laws.blank ++ zeros size)
      × ((i : Slot) → c.command.content i ≡ zeros config.max_cmd_buffer_size)

  -- What `init` reports and leaves.
  abbrev pub Started : ℕ → Result → Client → Type 0
  Started control_freq result c =
      HasThread control_freq result c.base × Serving c × IsBlank c
      ⊎ (result ≡ eio) × (c.base.initialized ≡ false)

  outcome-Started :
      (control_freq : ℕ) (result : Result) (c : Client) (size : ℕ)
      → HasSizes
          (S.payload_size laws.ctx)
          (C.payload_size cmd_laws.ctx)
          control_freq
          (result, c.base)
      → C.payload_size cmd_laws.ctx ≤ config.max_cmd_buffer_size
      → c.state_ctx ≡ laws.ctx
      → c.cmd_ctx ≡ cmd_laws.ctx
      → ((i : Slot) → c.state.content i ≡ laws.encode laws.blank ++ zeros size)
      → ((i : Slot) → c.command.content i ≡ zeros config.max_cmd_buffer_size)
      → Started control_freq result c
  outcome-Started control_freq result c size sizes fits e f held zeroed = by_outcome sizes.outcome
    where
      room : (i : Slot) → c.base.cmd_payload_size ≤ length (c.command.content i)
      room i = omega (
        arith,
        sizes.cmd_size,
        ap length (zeroed i),
        length-replicate {A = ℕ} config.max_cmd_buffer_size 0,
        fits,
      )

      by_outcome :
          (c.base.initialized ≡ true) × HasThread control_freq result c.base
            ⊎ (c.base.initialized ≡ false) × (result ≡ eio)
          → Started control_freq result c
      by_outcome (inr (i, r)) = inr (r, i)
      by_outcome (inl (i, r)) = inl (r, served i, (size, held, zeroed))
        where
          served : c.base.initialized ≡ true → Serving c
          served i = record {
            initialized = i;
            state_ctx = e;
            cmd_ctx = f;
            state_size = sizes.state_size;
            cmd_size = sizes.cmd_size;
            state_slots = λ i. (laws.blank, zeros size, laws.blank-IsShaped, held i);
            cmd_slots = room;
          }

  both_slots : {A : Type 0} (f : Slot → A) (a : A) (i : Slot) → put (put f slot_0 a) slot_1 a i ≡ a
  both_slots f a slot_0 = refl
  both_slots f a slot_1 = refl

  -- Whatever the transport answers: on a client that is not initialised, with payloads that fit both
  -- buffers and a scratch buffer with room for the command, `init` makes no access out of bounds. It
  -- leaves a serving client whose state slots hold the blank message and whose command slots are
  -- cleared, and reports 0 at a frequency that is not zero, with the control thread started and
  -- running at it, and -EINVAL at a frequency of zero; or it reports -EIO and leaves a client that is
  -- not initialised.
  pub init-Started :
      (answers : Answers) (control_freq : ℕ) (scratch : Buffer) (c : Client) (t : Transport Unit)
      → c.base.initialized ≡ false
      → S.payload_size laws.ctx ≤ config.max_state_buffer_size
      → C.payload_size cmd_laws.ctx ≤ config.max_cmd_buffer_size
      → C.payload_size cmd_laws.ctx ≤ length scratch
      → (result : Result) × (c' : Client) × (t' : Transport Unit) × (init config S C answers
            control_freq state_params cmd_params scratch c t
          ≡ some (result, c', t'))
        × Started control_freq result c'
  unfolding init init_client reset_buffers
  init-Started answers control_freq scratch c t i m n k =
      let (left, scratched) = cmd_laws.init_any scratch k in
      let templated = laws.init_blank config.max_state_buffer_size m in
      let sizes = init_base-HasSizes config _ _ answers control_freq c.base t i m n in
      (
        _,
        _,
        _,
        ap (λ b. init_client config S C b answers control_freq state_params cmd_params scratch c t)
              i
            ∙ bind_step _ templated (bind_step _ templated (bind_step _ scratched refl)),
        outcome-Started control_freq _ _ _ sizes n refl refl
            (both_slots (reset_buffers config S C c).state.content _) (λ j. refl),
      )
