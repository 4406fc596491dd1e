-- ===== src/Client/Codec/JointStates.antt =====
-- zenbedded_rcl/include/zenbedded_rcl/codecs.hpp: `JointStateCodec` over the CDR functions.
use zephyr_zenoh_integration.Prelude.{
  ℕ, ◌+◌, ◌-◌, ◌≤◌, ◌<◌, ◌≡◌, sym, ap, ◌∙◌, List, ◌++◌, Option, some, arith, length,
  length-replicate, replicate,
}
use zephyr_zenoh_integration.Prelude.Bytes.{Buffer, zeros}
use zephyr_zenoh_integration.Cdr.JointState.{
  JointStateCtx, JointStateValue, zcdr_init_joint_state, zcdr_serialize_joint_state,
}
use zephyr_zenoh_integration.Cdr.Reference.{cdr_joint_state, encapsulated}
use zephyr_zenoh_integration.Cdr.Init.{Fits, joint_state_ctx}
use zephyr_zenoh_integration.Cdr.StateSegments.{joint_state_msg, blank}
use zephyr_zenoh_integration.Cdr.Access.{or_old, or_old-length}
use zephyr_zenoh_integration.Cdr.StateAccess.{IsSized, init-blank, serialize-held}
use zephyr_zenoh_integration.Cdr.StateRead.{payload-size}
use zephyr_zenoh_integration.Client.Codec.Contract.{StateCodec, StateLaws}

pub record JointStateParams : Type 0 where
  pub frame_id : Option (List ℕ)
  pub joint_names : List (List ℕ)
  pub num_joints : ℕ

abbrev pub joint_state_codec : StateCodec
joint_state_codec = record {
  Ctx = JointStateCtx;
  InitParams = JointStateParams;
  Value = JointStateValue;
  default_ctx = record {
    num_joints = 0;
    offset_timestamp = 0;
    offset_position = 0;
    offset_velocity = 0;
    offset_effort = 0;
    payload_size = 0;
  };
  init = λ p buf. zcdr_init_joint_state p.frame_id p.joint_names p.num_joints buf;
  payload_size = λ ctx. ctx.payload_size;
  write = λ ctx v buf. zcdr_serialize_joint_state ctx v buf;
}

-- The stamp and the three arrays of a JointState.
pub record StateContent : Type 0 where
  pub sec : ℕ
  pub nanosec : ℕ
  pub position : List ℕ
  pub velocity : List ℕ
  pub effort : List ℕ

pub record IsComplete (n : ℕ) (m : StateContent) : Type 0 where
  pub position_size : length m.position ≡ n
  pub velocity_size : length m.velocity ≡ n
  pub effort_size : length m.effort ≡ n

module _ (frame_id : Option (List ℕ)) (names : List (List ℕ)) (fits : Fits frame_id names)
    (some_joint : 0 < length names) where
  abbrev pub params : JointStateParams
  params = record { frame_id = frame_id; joint_names = names; num_joints = length names }

  abbrev pub encode_state : StateContent → Buffer
  encode_state m = encapsulated (
      cdr_joint_state
        (joint_state_msg frame_id names m.sec m.nanosec m.position m.velocity m.effort))

  abbrev pub blank_state : StateContent
  blank_state = record {
    sec = 0;
    nanosec = 0;
    position = replicate (length names) 0;
    velocity = replicate (length names) 0;
    effort = replicate (length names) 0;
  }

  -- A null pointer keeps the array of the message that stands in the buffer.
  abbrev pub update_state : JointStateValue → StateContent → StateContent
  update_state v m = record {
    sec = v.stamp_sec;
    nanosec = v.stamp_nanosec;
    position = or_old v.positions m.position;
    velocity = or_old v.velocities m.velocity;
    effort = or_old v.efforts m.effort;
  }

  pub blank_state-IsComplete : IsComplete (length names) blank_state
  blank_state-IsComplete = record {
    position_size = length-replicate _ 0;
    velocity_size = length-replicate _ 0;
    effort_size = length-replicate _ 0;
  }

  pub update_state-IsComplete :
      (v : JointStateValue) (m : StateContent)
      → IsSized (length names) v
      → IsComplete (length names) m
      → IsComplete (length names) (update_state v m)
  update_state-IsComplete v m sized h = record {
    position_size = or_old-length v.positions m.position _ sized.positions_sized h.position_size;
    velocity_size = or_old-length v.velocities m.velocity _ sized.velocities_sized h.velocity_size;
    effort_size = or_old-length v.efforts m.effort _ sized.efforts_sized h.effort_size;
  }

  pub state-size :
      (m : StateContent)
      → IsComplete (length names) m
      → (joint_state_ctx frame_id names).payload_size ≡ length (encode_state m)
  state-size m h =
      payload-size frame_id names fits some_joint m.sec m.nanosec m.position m.velocity m.effort
        h.position_size h.velocity_size h.effort_size

  pub init-blank_state :
      (size : ℕ)
      → (joint_state_ctx frame_id names).payload_size ≤ size
      → zcdr_init_joint_state frame_id names (length names) (zeros size)
        ≡ some (
          joint_state_ctx frame_id names,
          encode_state blank_state ++ zeros (size - (joint_state_ctx frame_id names).payload_size),
        )
  init-blank_state size h =
      ap (λ (k : ℕ). zcdr_init_joint_state frame_id names (length names) (zeros k)) {x = size}
        {y = 4 + (size - 4)} (omega (arith, exact))
      ∙ init-blank frame_id names fits some_joint (size - 4) (omega (arith, exact))
      ∙ ap (λ (k : ℕ). some (joint_state_ctx frame_id names, encode_state blank_state ++ zeros k))
          (omega (arith, exact))
    where
      exact :
          (joint_state_ctx frame_id names).payload_size
          ≡ 4 + length (cdr_joint_state (blank frame_id names))
      exact = omega (arith, state-size blank_state blank_state-IsComplete)

  pub serialize-message :
      (v : JointStateValue) (m : StateContent) (tail : Buffer)
      → IsSized (length names) v
      → IsComplete (length names) m
      → zcdr_serialize_joint_state (joint_state_ctx frame_id names) v (encode_state m ++ tail)
        ≡ some (encode_state (update_state v m) ++ tail)
  serialize-message v m tail sized h =
      serialize-held frame_id names fits some_joint m.sec m.nanosec m.position m.velocity m.effort
        h.position_size h.velocity_size h.effort_size tail v sized

  -- `JointStateCodec` meets the contract with the ROS 2 encoding.
  abbrev pub joint_state_laws : StateLaws joint_state_codec params
  joint_state_laws = record {
    Message = StateContent;
    ctx = joint_state_ctx frame_id names;
    encode = encode_state;
    IsShaped = IsComplete (length names);
    Suits = IsSized (length names);
    blank = blank_state;
    update = update_state;
    blank-IsShaped = blank_state-IsComplete;
    update-IsShaped = update_state-IsComplete;
    length-encode = λ m h. sym (state-size m h);
    init_blank = init-blank_state;
    write_message = serialize-message;
  }
