-- ===== src/Client/Reception.antt =====
-- zenbedded_transport/src/zenoh_transport.c and zenbedded_rcl/src/zenbedded_client.cpp: the way of a
-- sample from zenoh to the command buffer.
use zephyr_zenoh_integration.Prelude.{
  ℕ, ◌≤◌, ◌<◌, ◌≡◌, refl, ap, ◌∙◌, ◌⊎◌, inl, inr, Bool, Bool-cases, true, false, ◌||◌, List, [],
  ◌∷◌, Option, none, some, ◌>>=◌, bind_step, arith, length, ltb, ◌==◌, if◌then◌else◌,
}
use zephyr_zenoh_integration.Prelude.Bytes.{Buffer}
use zephyr_zenoh_integration.Transport.Endpoints.{internal_sub_handler, rx_bound}
use zephyr_zenoh_integration.Client.Codec.Contract.{
  StateCodec, CommandCodec, StateLaws, CommandLaws,
}
use zephyr_zenoh_integration.Client.Lifecycle.{Config}
use zephyr_zenoh_integration.Client.Channels.{
  ZenbeddedClient, on_transport_cmd_cb, write_command_to_buffer,
}
use zephyr_zenoh_integration.Client.Delivery.{
  IsServing, IsDelivered, on_transport_cmd_cb-IsDelivered,
}

module _ (config : Config) (S : StateCodec) (C : CommandCodec) where
  abbrev Client : Type 0
  Client = ZenbeddedClient S C

  -- The user's callback is called or not.
  abbrev pub handed_on : Option (Unit {0} × Buffer) → Client → Option Client
  handed_on none c = some c
  handed_on (some (callback, payload)) c = on_transport_cmd_cb config S C payload c

  -- A sample arrives at the subscriber of the client.
  unfoldable pub on_sample : Buffer → Client → Option Client
  unfolding on_transport_cmd_cb internal_sub_handler
  on_sample payload c =
      handed_on (internal_sub_handler config.tier config.printer (Unit {0}) (some tt) payload) c

  -- Samples one after the other.
  unfoldable pub on_samples : List Buffer → Client → Option Client
  unfolding on_sample
  on_samples [] c = some c
  on_samples (payload ∷ payloads) c = do c' ← on_sample payload c; on_samples payloads c'

  -- The longest payload that the handler hands on.
  abbrev pub bound : ℕ
  bound = rx_bound config.tier config.printer (Unit {0}) config.tier

  handler-cases :
      (payload : Buffer)
      → (internal_sub_handler config.tier config.printer (Unit {0}) (some tt) payload ≡ none)
          × ((length payload ≡ 0) ⊎ (bound < length payload))
        ⊎ (internal_sub_handler config.tier config.printer (Unit {0}) (some tt) payload
            ≡ some (tt, payload))
          × (length payload ≤ bound)
  unfolding internal_sub_handler
  handler-cases payload = by_size (Bool-cases ((length payload == 0) || ltb bound (length payload)))
    where
      outside : (n most : ℕ) → ((n == 0) || ltb most n) ≡ true → (n ≡ 0) ⊎ (most < n)
      outside n most e = ground arith

      inside : (n most : ℕ) → ((n == 0) || ltb most n) ≡ false → n ≤ most
      inside n most e = ground arith

      by_size :
          (((length payload == 0) || ltb bound (length payload)) ≡ true)
            ⊎ (((length payload == 0) || ltb bound (length payload)) ≡ false)
          → (internal_sub_handler config.tier config.printer (Unit {0}) (some tt) payload ≡ none)
              × ((length payload ≡ 0) ⊎ (bound < length payload))
            ⊎ (internal_sub_handler config.tier config.printer (Unit {0}) (some tt) payload
                ≡ some (tt, payload))
              × (length payload ≤ bound)
      by_size (inl e) = inl (rw e refl, outside _ _ e)
      by_size (inr e) = inr (rw e refl, inside _ _ e)

  large-dropped :
      (payload : Buffer) (c : Client)
      → bound < c.base.cmd_payload_size
      → on_sample payload c ≡ some c
  unfolding on_sample on_transport_cmd_cb
  large-dropped payload c large = by_case (handler-cases payload)
    where
      other_size : (n most size : ℕ) → n ≤ most → most < size → (n == size) ≡ false
      other_size n most size h k = ground arith

      by_case :
          (internal_sub_handler config.tier config.printer (Unit {0}) (some tt) payload ≡ none)
              × ((length payload ≡ 0) ⊎ (bound < length payload))
            ⊎ (internal_sub_handler config.tier config.printer (Unit {0}) (some tt) payload
                ≡ some (tt, payload))
              × (length payload ≤ bound)
          → handed_on
              (internal_sub_handler config.tier config.printer (Unit {0}) (some tt) payload)
              c
            ≡ some c
      by_case (inl (e, size)) = ap (λ o. handed_on o c) e
      by_case (inr (e, size)) =
          ap (λ o. handed_on o c) e
          ∙ ap (λ (b : Bool). if b then write_command_to_buffer config S C payload c else some c)
              (other_size _ _ _ size large)

  -- A client whose commands are longer than the handler's buffer (1024 bytes in tier 1, 64 in tier 2)
  -- never receives one: whatever samples arrive, it stays as it is.
  pub on_samples-large :
      (payloads : List Buffer) (c : Client)
      → bound < c.base.cmd_payload_size
      → on_samples payloads c ≡ some c
  unfolding on_samples
  on_samples-large [] c large = refl
  on_samples-large (payload ∷ payloads) c large =
      bind_step _ (large-dropped payload c large) (on_samples-large payloads c large)

  module _ (state_params : S.InitParams) (cmd_params : C.InitParams)
      (laws : StateLaws S state_params) (cmd_laws : CommandLaws C cmd_params) where
    -- In a serving client, a message of the command codec that arrives as a sample, that is not empty
    -- and that is at most as long as the handler's buffer (1024 bytes in tier 1, 64 in tier 2) gets
    -- through: it is counted, the client still serves, and `read_command` then gives its value.
    pub on_sample-IsDelivered :
        (m : cmd_laws.Message) (c : Client)
        → IsServing config S C state_params cmd_params laws cmd_laws c
        → cmd_laws.IsShaped m
        → 0 < C.payload_size cmd_laws.ctx
        → C.payload_size cmd_laws.ctx ≤ bound
        → (c' : Client) × (on_sample (cmd_laws.encode m) c ≡ some c')
          × IsDelivered config S C state_params cmd_params laws cmd_laws m c c'
    unfolding on_sample
    on_sample-IsDelivered m c serving shaped some_byte fits =
        let (c', delivered) =
          on_transport_cmd_cb-IsDelivered config S C state_params cmd_params laws cmd_laws c serving
            m shaped in
        (
          c',
          handed (cmd_laws.length-encode m shaped) (handler-cases (cmd_laws.encode m))
              ∙ delivered.received,
          delivered,
        )
      where
        never : (n p most : ℕ) → n ≡ p → 0 < p → p ≤ most → (n ≡ 0) ⊎ (most < n) → n < n
        never n p most e h k c = absurd (ground arith)

        handed :
            length (cmd_laws.encode m) ≡ C.payload_size cmd_laws.ctx
            → (internal_sub_handler config.tier config.printer
                    (Unit {0})
                    (some tt)
                    (cmd_laws.encode m)
                  ≡ none)
                × ((length (cmd_laws.encode m) ≡ 0) ⊎ (bound < length (cmd_laws.encode m)))
              ⊎ (internal_sub_handler config.tier config.printer
                    (Unit {0})
                    (some tt)
                    (cmd_laws.encode m)
                  ≡ some (tt, cmd_laws.encode m))
                × (length (cmd_laws.encode m) ≤ bound)
            → handed_on
                (internal_sub_handler config.tier config.printer
                  (Unit {0})
                  (some tt)
                  (cmd_laws.encode m))
                c
              ≡ on_transport_cmd_cb config S C (cmd_laws.encode m) c
        handed size (inl (e, out)) = absurd (omega (arith, never _ _ _ size some_byte fits out))
        handed size (inr (e, inside)) = ap (λ o. handed_on o c) e
