-- ===== src/Client/Delivery.antt =====
-- zenbedded_rcl/include/zenbedded_rcl/zenbedded_client.hpp: what is written is published, and what is
-- received is read, over any two codecs that meet their contracts.
use zephyr_zenoh_integration.Prelude.{
  ℕ, ◌+◌, ◌≤◌, ◌≡◌, ◌≢◌, refl, sym, ap, ◌∙◌, Bool, true, false, some, ◌>>=◌, arith, bind_step, ◌++◌,
  length, length-append, if◌then◌else◌, ◌==◌,
}
use zephyr_zenoh_integration.Prelude.Bytes.{Buffer, store, load, store-fits}
use zephyr_zenoh_integration.Prelude.Segments.{load-front}
use zephyr_zenoh_integration.Transport.State.{Transport}
use zephyr_zenoh_integration.Transport.Endpoints.{zenbedded_transport_publish}
use zephyr_zenoh_integration.Client.Buffer.Slots.{put_same, put_all, Slot, other, atomic_inc}
use zephyr_zenoh_integration.Client.Codec.Contract.{
  StateCodec, CommandCodec, StateLaws, CommandLaws,
}
use zephyr_zenoh_integration.Client.Lifecycle.{Config}
use zephyr_zenoh_integration.Client.Channels.{
  DoubleBuffer, ZenbeddedClient, commit, write_state, write_state_in, zenoh_publish_state,
  publish_active, published, on_transport_cmd_cb, write_command_to_buffer, read_command,
  read_command_in,
}

module _ (config : Config) (S : StateCodec) (C : CommandCodec) (state_params : S.InitParams)
    (cmd_params : C.InitParams) (laws : StateLaws S state_params)
    (cmd_laws : CommandLaws C cmd_params) where
  abbrev Client : Type 0
  Client = ZenbeddedClient S C

  -- A slot of the state holds a message, and anything behind it.
  abbrev pub HoldsMessage : Buffer → Type 0
  HoldsMessage bytes =
      (m : laws.Message) × (tail : Buffer) × laws.IsShaped m × (bytes ≡ laws.encode m ++ tail)

  -- A client that serves both channels.
  pub record IsServing (c : Client) : Type 0 where
    pub initialized : c.base.initialized ≡ true
    pub state_ctx : c.state_ctx ≡ laws.ctx
    pub cmd_ctx : c.cmd_ctx ≡ cmd_laws.ctx
    pub state_size : c.base.state_payload_size ≡ S.payload_size laws.ctx
    pub cmd_size : c.base.cmd_payload_size ≡ C.payload_size cmd_laws.ctx
    pub state_slots : (i : Slot) → HoldsMessage (c.state.content i)
    pub cmd_slots : (i : Slot) → c.base.cmd_payload_size ≤ length (c.command.content i)

  -- What a write and then a publication leave behind.
  pub record IsPublished (v : S.Value) (m : laws.Message) (c c' : Client) : Type 0 where
    pub written : write_state config S C v c ≡ some c'
    pub serving : IsServing c'
    pub command_kept : c'.command ≡ c.command
    pub accepted_kept : c'.accepted ≡ c.accepted
    pub read_kept : (out : C.Value) → read_command config S C out c' ≡ read_command config S C out c
    pub sent :
        (tv : ℕ × ℕ) (puts : Bool) (t : Transport Unit)
        → zenoh_publish_state config S C tv puts c' t ≡ (
            zenbedded_transport_publish config.tier config.printer Unit c'.base.publisher
              (laws.encode (laws.update v m))
              tv
              puts
              t
            >>= λ r. some (published config S C r))

  -- Writing a state does not touch what is read.
  read_in_kept :
      (b : Bool) (out : C.Value) (c : Client) (d : DoubleBuffer)
      → read_command_in config S C b out (record c { state = d })
        ≡ read_command_in config S C b out c
  unfolding read_command_in
  read_in_kept false out c d = refl
  read_in_kept true out c d = refl

  module _ (c : Client) (serving : IsServing c) where
    written_slot :
        (v : S.Value) (m : laws.Message) (tail : Buffer)
        → laws.Suits v
        → laws.IsShaped m
        → c.state.content (other c.state.active) ≡ laws.encode m ++ tail
        → write_state config S C v c
          ≡ some (record c {
            state = commit (other c.state.active) (laws.encode (laws.update v m) ++ tail) c.state;
          })
    unfolding write_state write_state_in
    written_slot v m tail suits shaped e =
        ap (λ b. write_state_in config S C b v c) serving.initialized
        ∙ bind_step _
            (ap (λ ctx. S.write ctx v (c.state.content (other c.state.active))) serving.state_ctx
              ∙ ap (S.write laws.ctx v) e
              ∙ laws.write_message v m tail suits shaped)
            refl

    -- In a serving client, for a value that suits the state codec: if message `m` stands in the idle
    -- slot, `write_state` makes no access out of bounds and leaves a serving client with the same
    -- commands, and `zenoh_publish_state` then hands the transport exactly the encoding of `m` updated
    -- by the value, and nothing of what stands behind the message.
    pub write_state-IsPublished :
        (v : S.Value) (m : laws.Message) (tail : Buffer)
        → laws.Suits v
        → laws.IsShaped m
        → c.state.content (other c.state.active) ≡ laws.encode m ++ tail
        → (c' : Client) × IsPublished v m c c'
    unfolding zenoh_publish_state publish_active read_command
    write_state-IsPublished v m tail suits shaped e =
        let shaped' = laws.update-IsShaped v m suits shaped in
        let bytes : Buffer = laws.encode (laws.update v m) ++ tail in
        let c' : Client = record c { state = commit (other c.state.active) bytes c.state } in
        (
          c',
          record {
            written = written_slot v m tail suits shaped e;
            serving = record {
              initialized = serving.initialized;
              state_ctx = serving.state_ctx;
              cmd_ctx = serving.cmd_ctx;
              state_size = serving.state_size;
              cmd_size = serving.cmd_size;
              state_slots =
                  put_all HoldsMessage c.state.content (other c.state.active) bytes
                    (laws.update v m, tail, shaped', refl) serving.state_slots;
              cmd_slots = serving.cmd_slots;
            };
            command_kept = refl;
            accepted_kept = refl;
            read_kept = λ out. read_in_kept c.base.initialized out c _;
            sent = λ tv puts t.
                ap (λ b. publish_active config S C b tv puts c' t) serving.initialized
                ∙ bind_step _
                    (ap (load 0 c.base.state_payload_size) (put_same c.state.content _ bytes)
                      ∙ load-front c.base.state_payload_size (laws.encode (laws.update v m)) tail
                          (serving.state_size ∙ sym (laws.length-encode (laws.update v m) shaped')))
                    refl;
          },
        )

  -- What the arrival of a message leaves behind.
  pub record IsDelivered (m : cmd_laws.Message) (c c' : Client) : Type 0 where
    pub received : on_transport_cmd_cb config S C (cmd_laws.encode m) c ≡ some c'
    pub serving : IsServing c'
    pub counted : c'.accepted ≡ atomic_inc c.accepted
    pub state_kept : c'.state ≡ c.state
    pub read :
        (out : C.Value)
        → cmd_laws.HasRoom out
        → read_command config S C out c' ≡ some (true, cmd_laws.fill m out)
    pub others_dropped :
        (payload : Buffer)
        → length payload ≢ C.payload_size cmd_laws.ctx
        → on_transport_cmd_cb config S C payload c' ≡ some c'

  module _ (c : Client) (serving : IsServing c) where
    received_slot :
        (m : cmd_laws.Message)
        → cmd_laws.IsShaped m
        → (tail : Buffer) × (store 0
              (cmd_laws.encode m)
              (c.command.content (other c.command.active))
            ≡ some (cmd_laws.encode m ++ tail))
    received_slot m shaped = (
      _,
      store-fits 0 (cmd_laws.encode m) (c.command.content (other c.command.active)) (
          fits_in (cmd_laws.length-encode m shaped) serving.cmd_size
            (serving.cmd_slots (other c.command.active))),
    )
      where
        fits_in : {l p s n : ℕ} → l ≡ p → s ≡ p → s ≤ n → 0 + l ≤ n
        fits_in e f h = omega arith

    -- In a serving client, for a message that suits the command codec: the callback of the subscriber
    -- makes no access out of bounds, counts one more command and leaves a serving client with the same
    -- state; `read_command` into a target with room then succeeds and gives the message's value; and
    -- a payload of another size changes nothing.
    pub on_transport_cmd_cb-IsDelivered :
        (m : cmd_laws.Message) → cmd_laws.IsShaped m → (c' : Client) × IsDelivered m c c'
    unfolding on_transport_cmd_cb write_command_to_buffer read_command read_command_in
    on_transport_cmd_cb-IsDelivered m shaped =
        let (tail, stored) = received_slot m shaped in
        let bytes : Buffer = cmd_laws.encode m ++ tail in
        let i = other c.command.active in
        let c' : Client = record c {
          command = commit i bytes c.command;
          accepted = atomic_inc c.accepted;
        } in
        (
          c',
          record {
            received =
                ap
                  (λ (b : Bool).
                    if b then write_command_to_buffer config S C (cmd_laws.encode m) c else some c)
                  (same_size (cmd_laws.length-encode m shaped) serving.cmd_size)
                ∙ bind_step _ stored refl;
            serving = record {
              initialized = serving.initialized;
              state_ctx = serving.state_ctx;
              cmd_ctx = serving.cmd_ctx;
              state_size = serving.state_size;
              cmd_size = serving.cmd_size;
              state_slots = serving.state_slots;
              cmd_slots =
                  put_all (λ b. c.base.cmd_payload_size ≤ length b) c.command.content i bytes
                    (long_enough (cmd_laws.encode m) tail (cmd_laws.length-encode m shaped)
                      serving.cmd_size)
                    serving.cmd_slots;
            };
            counted = refl;
            state_kept = refl;
            read = λ out room.
                ap (λ b. read_command_in config S C b out c') serving.initialized
                ∙ bind_step _
                    (ap (load 0 c.base.cmd_payload_size) (put_same c.command.content _ bytes)
                      ∙ load-front c.base.cmd_payload_size (cmd_laws.encode m) tail
                          (serving.cmd_size ∙ sym (cmd_laws.length-encode m shaped)))
                    (ap (λ ctx. C.read ctx (cmd_laws.encode m) c.base.cmd_payload_size out)
                        serving.cmd_ctx
                      ∙ ap (λ n. C.read cmd_laws.ctx (cmd_laws.encode m) n out) serving.cmd_size
                      ∙ cmd_laws.read_message m out shaped room);
            others_dropped = λ payload differs.
                ap
                  (λ (b : Bool).
                    if b then write_command_to_buffer config S C payload c' else some c')
                  (other_size (λ e. differs (e ∙ serving.cmd_size)));
          },
        )
      where
        same_size : {l p s : ℕ} → l ≡ p → s ≡ p → (l == s) ≡ true
        same_size e f = ground arith

        other_size : {l s : ℕ} → l ≢ s → (l == s) ≡ false
        other_size h = ground arith

        long_enough :
            {p s : ℕ} (encoded tail : Buffer)
            → length encoded ≡ p
            → s ≡ p
            → s ≤ length (encoded ++ tail)
        long_enough {p} {s} encoded tail e f = omega (arith, length-append encoded tail)
