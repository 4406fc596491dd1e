-- ===== src/Client/JointClient.antt =====
-- zenbedded_rcl/include/zenbedded_rcl/zenbedded_client.hpp and codecs.hpp: a client of the two joint
-- codecs, from `init` to the bytes on the wire.
use zephyr_zenoh_integration.Prelude.{
  ℕ, ◌≤◌, ◌<◌, ◌≡◌, ◌⊎◌, inl, inr, Bool, false, List, Option, some, ◌>>=◌, length,
}
use zephyr_zenoh_integration.Prelude.Bytes.{Buffer}
use zephyr_zenoh_integration.Transport.State.{Transport}
use zephyr_zenoh_integration.Transport.Endpoints.{zenbedded_transport_publish}
use zephyr_zenoh_integration.Cdr.JointState.{JointStateValue}
use zephyr_zenoh_integration.Cdr.Reference.{cdr_joint_state, encapsulated}
use zephyr_zenoh_integration.Cdr.Init.{joint_state_ctx}
use zephyr_zenoh_integration.Cdr.CommandInit.{CommandFits, joint_command_ctx}
use zephyr_zenoh_integration.Cdr.StateAccess.{IsSized}
use zephyr_zenoh_integration.Cdr.Conformance.{described}
use zephyr_zenoh_integration.Client.Buffer.Slots.{other}
use zephyr_zenoh_integration.Client.Codec.JointStates.{
  joint_state_codec, joint_state_laws, params, blank_state, blank_state-IsComplete,
}
use zephyr_zenoh_integration.Client.Codec.JointCommands.{
  joint_command_codec, joint_command_laws, command_params,
}
use zephyr_zenoh_integration.Client.Lifecycle.{Config, Answers, Result, eio}
use zephyr_zenoh_integration.Client.Channels.{
  ZenbeddedClient, init, write_state, zenoh_publish_state, published,
}
use zephyr_zenoh_integration.Client.Delivery.{write_state-IsPublished}
use zephyr_zenoh_integration.Client.Startup.{Started, init-Started}

module _ (config : Config) (frame_id : Option (List ℕ)) (names : List (List ℕ))
    (interface_name : Option (List ℕ)) (fits : CommandFits frame_id names interface_name)
    (some_joint : 0 < length names) where
  abbrev JointClient : Type 0
  JointClient = ZenbeddedClient joint_state_codec joint_command_codec

  -- The first state that `c` publishes is the ROS 2 encoding of `v`.
  abbrev pub PublishesFirst : JointStateValue → JointClient → Type 0
  PublishesFirst v c =
      (c' : JointClient) × (write_state config joint_state_codec joint_command_codec v c ≡ some c')
      × ((tv : ℕ × ℕ) (puts : Bool) (t : Transport Unit)
          → zenoh_publish_state config joint_state_codec joint_command_codec tv puts c' t ≡ (
              zenbedded_transport_publish config.tier config.printer Unit c'.base.publisher
                (encapsulated (cdr_joint_state (described frame_id names v))) tv puts t
              >>= λ r. some (published config joint_state_codec joint_command_codec r)))

  publishes_first :
      (v : JointStateValue) (control_freq : ℕ) (result : Result) (c : JointClient)
      → IsSized (length names) v
      → Started config joint_state_codec joint_command_codec
          (params frame_id names fits.texts some_joint)
          (command_params frame_id names interface_name fits some_joint)
          (joint_state_laws frame_id names fits.texts some_joint)
          (joint_command_laws frame_id names interface_name fits some_joint)
          control_freq
          result
          c
      → (result ≡ eio) × (c.base.initialized ≡ false) ⊎ PublishesFirst v c
  publishes_first v control_freq result c sized (inr failed) = inl failed
  publishes_first v control_freq result c sized (inl (r, serving, (size, held, zeroed))) =
      let (c', both) =
        write_state-IsPublished config joint_state_codec joint_command_codec _ _ _ _ c serving v
          (blank_state frame_id names fits.texts some_joint) _ sized
          (blank_state-IsComplete frame_id names fits.texts some_joint)
          (held (other c.state.active)) in
      inr (c', both.written, both.sent)

  -- Whatever the transport answers: for a frame, names and an interface name that the length words can
  -- count, at least one joint, a client that is not initialised, messages that fit both buffers and the
  -- scratch buffer, and a value with one element for each joint in every array that is not null: `init`
  -- makes no access out of bounds and reports -EIO without initialising the client, or `write_state`
  -- of the value makes no access out of bounds and `zenoh_publish_state` then hands the transport
  -- exactly the ROS 2 encoding of the JointState that the arguments describe (an array that is null
  -- counts as zeros).
  pub init-PublishesFirst :
      (answers : Answers) (control_freq : ℕ) (scratch : Buffer) (c : JointClient)
      (t : Transport Unit) (v : JointStateValue)
      → c.base.initialized ≡ false
      → (joint_state_ctx frame_id names).payload_size ≤ config.max_state_buffer_size
      → (joint_command_ctx frame_id names interface_name).payload_size ≤ config.max_cmd_buffer_size
      → (joint_command_ctx frame_id names interface_name).payload_size ≤ length scratch
      → IsSized (length names) v
      → (result : Result) × (c' : JointClient) × (t' : Transport Unit) × (init config
            joint_state_codec joint_command_codec answers control_freq
            (params frame_id names fits.texts some_joint)
            (command_params frame_id names interface_name fits some_joint)
            scratch
            c
            t
          ≡ some (result, c', t'))
        × ((result ≡ eio) × (c'.base.initialized ≡ false) ⊎ PublishesFirst v c')
  init-PublishesFirst answers control_freq scratch c t v i m n k sized =
      let (result, c', t', e, started) =
        init-Started config joint_state_codec joint_command_codec _ _
          (joint_state_laws frame_id names fits.texts some_joint)
          (joint_command_laws frame_id names interface_name fits some_joint) answers control_freq
          scratch c t i m n k in
      (result, c', t', e, publishes_first v control_freq result c' sized started)
