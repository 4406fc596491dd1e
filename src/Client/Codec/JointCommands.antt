-- ===== src/Client/Codec/JointCommands.antt =====
-- zenbedded_rcl/include/zenbedded_rcl/codecs.hpp: `JointCommandCodec` over the CDR functions.
use zephyr_zenoh_integration.Prelude.{
  ℕ, ◌+◌, ◌-◌, ◌≤◌, ◌<◌, ◌≡◌, sym, ap, ◌∙◌, Bool, true, false, List, [], Option, some, arith,
  length, ltb, if◌then◌else◌, append-nil, length-replicate, replicate,
}
use zephyr_zenoh_integration.Prelude.Bytes.{Buffer}
use zephyr_zenoh_integration.Cdr.JointCommand.{
  JointCommandCtx, JointCommandTarget, zcdr_init_joint_command, zcdr_deserialize_joint_command,
}
use zephyr_zenoh_integration.Cdr.Reference.{cdr_joint_command, encapsulated}
use zephyr_zenoh_integration.Cdr.CommandInit.{
  CommandFits, joint_command_msg, joint_command_ctx, blank_command,
}
use zephyr_zenoh_integration.Cdr.CommandAccess.{
  HasCommandSpace, filled_command, deserialize_command-held, command_payload-size,
}
use zephyr_zenoh_integration.Cdr.Scratch.{init_command-scratch}
use zephyr_zenoh_integration.Client.Codec.Contract.{CommandCodec, CommandLaws}

pub record JointCommandParams : Type 0 where
  pub frame_id : Option (List ℕ)
  pub joint_names : List (List ℕ)
  pub num_joints : ℕ
  pub interface_name : Option (List ℕ)

abbrev pub joint_command_codec : CommandCodec
joint_command_codec = record {
  Ctx = JointCommandCtx;
  InitParams = JointCommandParams;
  Value = JointCommandTarget;
  default_ctx = record {
    num_joints = 0;
    offset_timestamp = 0;
    offset_values = 0;
    payload_size = 0;
  };
  init =
      λ p buf. zcdr_init_joint_command p.frame_id p.joint_names p.num_joints p.interface_name buf;
  payload_size = λ ctx. ctx.payload_size;
  read = λ ctx buf size out. zcdr_deserialize_joint_command ctx buf size out;
}

-- The stamp and the values of a JointCommand.
pub record CommandContent : Type 0 where
  pub sec : ℕ
  pub nanosec : ℕ
  pub values : List ℕ

module _ (frame_id : Option (List ℕ)) (names : List (List ℕ)) (interface_name : Option (List ℕ))
    (fits : CommandFits frame_id names interface_name) (some_joint : 0 < length names) where
  abbrev pub command_params : JointCommandParams
  command_params = record {
    frame_id = frame_id;
    joint_names = names;
    num_joints = length names;
    interface_name = interface_name;
  }

  abbrev pub encode_command : CommandContent → Buffer
  encode_command m =
      encapsulated (
        cdr_joint_command
          (joint_command_msg frame_id names interface_name m.sec m.nanosec m.values))

  abbrev pub fill_command : CommandContent → JointCommandTarget → JointCommandTarget
  fill_command m = filled_command m.sec m.nanosec m.values

  abbrev ctx : JointCommandCtx
  ctx = joint_command_ctx frame_id names interface_name

  pub command-size :
      (m : CommandContent)
      → length m.values ≡ length names
      → ctx.payload_size ≡ length (encode_command m)
  command-size m h =
      command_payload-size frame_id names interface_name fits some_joint m.sec m.nanosec m.values h

  pub init-any :
      (scratch : Buffer)
      → ctx.payload_size ≤ length scratch
      → (left : Buffer) × (zcdr_init_joint_command frame_id names
            (length names)
            interface_name
            scratch
          ≡ some (ctx, left))
  init-any scratch h =
      init_command-scratch frame_id names interface_name fits some_joint scratch
        (length scratch - 4) (omega (arith, exact)) (omega (arith, exact))
    where
      exact :
          ctx.payload_size
          ≡ 4 + length (cdr_joint_command (blank_command frame_id names interface_name))
      exact = omega (
        arith,
        command_payload-size frame_id names interface_name fits some_joint 0 0
            (replicate (length names) 0) (length-replicate _ 0),
      )

  pub deserialize-message :
      (m : CommandContent) (out : JointCommandTarget)
      → length m.values ≡ length names
      → HasCommandSpace (length names) out
      → zcdr_deserialize_joint_command ctx (encode_command m) ctx.payload_size out
        ≡ some (true, fill_command m out)
  deserialize-message m out h space =
      ap (λ b. zcdr_deserialize_joint_command ctx b ctx.payload_size out)
        (sym (append-nil (encode_command m)))
      ∙ deserialize_command-held frame_id names interface_name fits some_joint m.sec m.nanosec
          m.values h [] out space ctx.payload_size
      ∙ ap (λ (short : Bool). some (if short then (false, out) else (true, fill_command m out)))
          (enough (length (encode_command m)) ctx.payload_size (command-size m h))
    where
      enough : (size given : ℕ) → given ≡ size → ltb given size ≡ false
      enough size given e = ground arith

  -- `JointCommandCodec` meets the contract with the ROS 2 encoding.
  abbrev pub joint_command_laws : CommandLaws joint_command_codec command_params
  joint_command_laws = record {
    Message = CommandContent;
    ctx = ctx;
    encode = encode_command;
    IsShaped = λ m. length m.values ≡ length names;
    HasRoom = HasCommandSpace (length names);
    fill = fill_command;
    length-encode = λ m h. sym (command-size m h);
    init_any = init-any;
    read_message = deserialize-message;
  }
