-- ===== src/Cdr/CommandConformance.antt =====
-- zenbedded_transport/src/serialization.c: the three JointCommand functions together, against the
-- encoding.
use mathlib.Core.Path.{ap₂}
use zephyr_zenoh_integration.Prelude.{
  ℕ, ◌+◌, ◌-◌, ◌≤◌, ◌<◌, ◌≡◌, List, ◌++◌, Option, some, ◌>>=◌, arith, length, replicate,
  length-replicate, bind_step,
}
use zephyr_zenoh_integration.Prelude.Bytes.{Buffer, zeros}
use zephyr_zenoh_integration.Cdr.JointCommand.{
  zcdr_init_joint_command, zcdr_serialize_joint_command,
}
use zephyr_zenoh_integration.Cdr.Reference.{JointCommandMsg, cdr_joint_command, encapsulated}
use zephyr_zenoh_integration.Cdr.Access.{or_old, or_old-length, Replaces}
use zephyr_zenoh_integration.Cdr.CommandInit.{
  CommandFits, joint_command_msg, joint_command_ctx, blank_command,
}
use zephyr_zenoh_integration.Cdr.CommandAccess.{
  init_command-blank, serialize_command-held, command_payload-size,
}

-- The template once, then a message; with the size that is sent.
unfoldable pub init_and_serialize_command :
    Option (List ℕ)
    → List (List ℕ)
    → Option (List ℕ)
    → ℕ
    → ℕ
    → Option (List ℕ)
    → Buffer
    → Option (ℕ × Buffer)
init_and_serialize_command frame_id names interface_name sec nanosec values out_buffer = do
  (ctx, template) ← zcdr_init_joint_command frame_id names (length names) interface_name out_buffer
  written ← zcdr_serialize_joint_command ctx sec nanosec values template
  some (ctx.payload_size, written)

-- The message that the arguments describe: an array that is a null pointer counts as zeros.
abbrev pub described_command :
    Option (List ℕ) → List (List ℕ) → Option (List ℕ) → ℕ → ℕ → Option (List ℕ) → JointCommandMsg
described_command frame_id names interface_name sec nanosec values =
    joint_command_msg frame_id names interface_name sec nanosec
      (or_old values (replicate (length names) 0))

module _ (frame_id : Option (List ℕ)) (names : List (List ℕ)) (interface_name : Option (List ℕ))
    (fits : CommandFits frame_id names interface_name) (some_joint : 0 < length names)
    (sec nanosec : ℕ) (values : Option (List ℕ)) (sized : Replaces values (length names))
    (room : ℕ) where
  abbrev message : Buffer
  message = cdr_joint_command (described_command frame_id names interface_name sec nanosec values)

  described_size :
      (joint_command_ctx frame_id names interface_name).payload_size ≡ length (encapsulated message)
  described_size =
      command_payload-size frame_id names interface_name fits some_joint sec nanosec
        (or_old values (replicate (length names) 0))
        (or_old-length values (replicate (length names) 0) _ sized (length-replicate _ 0))

  same_size :
      length (cdr_joint_command (blank_command frame_id names interface_name)) ≡ length message
  same_size = omega (
    arith,
    command_payload-size frame_id names interface_name fits some_joint 0 0
        (replicate (length names) 0) (length-replicate _ 0),
    described_size,
  )

  -- For a frame, names and an interface name that the length words can count, at least one joint, one
  -- value for each joint or a null pointer, and a cleared buffer with room for the message:
  -- `zcdr_init_joint_command` and then `zcdr_serialize_joint_command` succeed, write exactly the ROS 2
  -- encoding of the JointCommand that the arguments describe (a null pointer counts as zeros), leave
  -- the bytes behind it zero, and the context's `payload_size` is the size of the encoding.
  pub joint_command-encodes :
      length message ≤ room
      → init_and_serialize_command frame_id names interface_name sec nanosec values
          (zeros (4 + room))
        ≡ some
            (length (encapsulated message), encapsulated message ++ zeros (room - length message))
  unfolding init_and_serialize_command
  joint_command-encodes h =
      bind_step _
        (init_command-blank frame_id names interface_name fits some_joint room
          (omega (arith, same_size)))
        (bind_step _
          (serialize_command-held frame_id names interface_name fits some_joint 0 0
            (replicate (length names) 0) (length-replicate _ 0)
            (zeros
              (room - length (cdr_joint_command (blank_command frame_id names interface_name))))
            sec nanosec values sized)
          (ap₂ result described_size same_size))
    where
      result : ℕ → ℕ → Option (ℕ × Buffer)
      result size written = some (size, encapsulated message ++ zeros (room - written))
