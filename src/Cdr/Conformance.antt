-- ===== src/Cdr/Conformance.antt =====
-- zenbedded_transport/src/serialization.c: `init` and `serialize` together, against the encoding.
use mathlib.Core.Path.{ap₂}
use zephyr_zenoh_integration.Prelude.{
  ℕ, ◌+◌, ◌-◌, ◌≤◌, ◌<◌, ◌≡◌, List, ◌++◌, Option, some, ◌>>=◌, arith, length, replicate,
  length-replicate, bind_step,
}
use zephyr_zenoh_integration.Prelude.Bytes.{Buffer, zeros}
use zephyr_zenoh_integration.Cdr.JointState.{
  JointStateValue, zcdr_init_joint_state, zcdr_serialize_joint_state,
}
use zephyr_zenoh_integration.Cdr.Reference.{JointStateMsg, cdr_joint_state, encapsulated}
use zephyr_zenoh_integration.Cdr.Init.{Fits, joint_state_ctx}
use zephyr_zenoh_integration.Cdr.StateSegments.{joint_state_msg, blank}
use zephyr_zenoh_integration.Cdr.Access.{or_old, or_old-length}
use zephyr_zenoh_integration.Cdr.StateAccess.{IsSized, init-blank, serialize-held}
use zephyr_zenoh_integration.Cdr.StateRead.{payload-size}

-- A client's calls: the template once, then a message; with the size that is sent.
pub init_and_serialize :
    Option (List ℕ) → List (List ℕ) → JointStateValue → Buffer → Option (ℕ × Buffer)
init_and_serialize frame_id names value out_buffer = do
  (ctx, template) ← zcdr_init_joint_state frame_id names (length names) out_buffer
  written ← zcdr_serialize_joint_state ctx value template
  some (ctx.payload_size, written)

module _ (frame_id : Option (List ℕ)) (names : List (List ℕ)) (value : JointStateValue) where
  abbrev no_values : List ℕ
  no_values = replicate (length names) 0

  -- The message that the arguments describe: an array that is a null pointer counts as zeros.
  abbrev pub described : JointStateMsg
  described =
      joint_state_msg frame_id names value.stamp_sec value.stamp_nanosec
        (or_old value.positions no_values) (or_old value.velocities no_values)
        (or_old value.efforts no_values)

module _ (frame_id : Option (List ℕ)) (names : List (List ℕ)) (fits : Fits frame_id names)
    (some_joint : 0 < length names) (value : JointStateValue) (sized : IsSized (length names) value)
    (room : ℕ) where
  described_size :
      (joint_state_ctx frame_id names).payload_size
      ≡ length (encapsulated (cdr_joint_state (described frame_id names value)))
  described_size =
      payload-size frame_id names fits some_joint value.stamp_sec value.stamp_nanosec
        (or_old value.positions (no_values frame_id names value))
        (or_old value.velocities (no_values frame_id names value))
        (or_old value.efforts (no_values frame_id names value))
        (or_old-length value.positions (no_values frame_id names value) _ sized.positions_sized
          (length-replicate _ 0))
        (or_old-length value.velocities (no_values frame_id names value) _ sized.velocities_sized
          (length-replicate _ 0))
        (or_old-length value.efforts (no_values frame_id names value) _ sized.efforts_sized
          (length-replicate _ 0))

  same_size :
      length (cdr_joint_state (blank frame_id names))
      ≡ length (cdr_joint_state (described frame_id names value))
  same_size = omega (
    arith,
    payload-size frame_id names fits some_joint 0 0 (no_values frame_id names value)
        (no_values frame_id names value) (no_values frame_id names value) (length-replicate _ 0)
        (length-replicate _ 0) (length-replicate _ 0),
    described_size,
  )

  -- For a frame and names that the length words can count, at least one joint, arrays of one value
  -- for each joint and a cleared buffer with room for the message: `zcdr_init_joint_state` and then
  -- `zcdr_serialize_joint_state` succeed, write exactly the ROS 2 encoding of the message that the
  -- arguments describe (an array that is a null pointer counts as zeros), leave the bytes behind it
  -- zero, and the context's `payload_size` is the size of the encoding.
  pub joint_state-encodes :
      length (cdr_joint_state (described frame_id names value)) ≤ room
      → init_and_serialize frame_id names value (zeros (4 + room))
        ≡ some (
          length (encapsulated (cdr_joint_state (described frame_id names value))),
          encapsulated (cdr_joint_state (described frame_id names value))
              ++ zeros (room - length (cdr_joint_state (described frame_id names value))),
        )
  unfolding init_and_serialize
  joint_state-encodes h =
      bind_step _ (init-blank frame_id names fits some_joint room (omega (arith, same_size))) (
        bind_step _
          (serialize-held frame_id names fits some_joint 0 0 (no_values frame_id names value)
            (no_values frame_id names value) (no_values frame_id names value) (length-replicate _ 0)
            (length-replicate _ 0) (length-replicate _ 0)
            (zeros (room - length (cdr_joint_state (blank frame_id names)))) value sized)
          (ap₂ result described_size same_size))
    where
      result : ℕ → ℕ → Option (ℕ × Buffer)
      result size written = some (
        size,
        encapsulated (cdr_joint_state (described frame_id names value)) ++ zeros (room - written),
      )
