-- ===== src/Cdr/JointState.antt =====
-- zenbedded_transport/src/serialization.c: the three functions on `zcdr_joint_state_ctx_t`.
use zephyr_zenoh_integration.Prelude.{
  ℕ, ◌+◌, Bool, true, false, List, Option, some, ◌>>=◌, ltb, if◌then◌else◌,
}
use zephyr_zenoh_integration.Prelude.Bytes.{Buffer, le_bytes, store}
use zephyr_zenoh_integration.Cdr.Cursor.{
  start, align, skip, put_u32, put_header, put_optional_text, put_names, array_bytes, reserve,
  store_doubles, fetch,
}

pub record JointStateCtx : Type 0 where
  pub num_joints : ℕ
  pub offset_timestamp : ℕ
  pub offset_position : ℕ
  pub offset_velocity : ℕ
  pub offset_effort : ℕ
  pub payload_size : ℕ

unfoldable pub zcdr_init_joint_state :
    Option (List ℕ) → List (List ℕ) → ℕ → Buffer → Option (JointStateCtx × Buffer)
zcdr_init_joint_state frame_id joint_names num_joints out_buffer = do
  stamp ← put_header (start out_buffer)
  framed ← put_optional_text frame_id (skip 8 stamp)
  counted ← put_u32 num_joints (align 4 framed)
  named ← put_names num_joints joint_names counted
  (position, o1) ← reserve num_joints named
  (velocity, o2) ← reserve num_joints o1
  (effort, o3) ← reserve num_joints o2
  let ctx : JointStateCtx = record {
    num_joints = num_joints;
    offset_timestamp = stamp.cursor;
    offset_position = position;
    offset_velocity = velocity;
    offset_effort = effort;
    payload_size = o3.cursor;
  }
  some (ctx, o3.buffer)

-- The arguments that `serialize` copies, `none` for a null pointer.
pub record JointStateValue : Type 0 where
  pub stamp_sec : ℕ
  pub stamp_nanosec : ℕ
  pub positions : Option (List ℕ)
  pub velocities : Option (List ℕ)
  pub efforts : Option (List ℕ)

unfoldable pub zcdr_serialize_joint_state : JointStateCtx → JointStateValue → Buffer → Option Buffer
zcdr_serialize_joint_state ctx v out_buffer = do
  b1 ← store ctx.offset_timestamp (le_bytes 4 v.stamp_sec) out_buffer
  b2 ← store (ctx.offset_timestamp + 4) (le_bytes 4 v.stamp_nanosec) b1
  b3 ← store_doubles ctx.offset_position (array_bytes ctx.num_joints) v.positions b2
  b4 ← store_doubles ctx.offset_velocity (array_bytes ctx.num_joints) v.velocities b3
  store_doubles ctx.offset_effort (array_bytes ctx.num_joints) v.efforts b4

-- What the five out pointers point to, `none` for a null pointer.
pub record JointStateTarget : Type 0 where
  pub stamp_sec : Option Buffer
  pub stamp_nanosec : Option Buffer
  pub positions : Option Buffer
  pub velocities : Option Buffer
  pub efforts : Option Buffer

unfoldable pub zcdr_deserialize_joint_state :
    JointStateCtx → Buffer → ℕ → JointStateTarget → Option (Bool × JointStateTarget)
zcdr_deserialize_joint_state ctx in_buffer buffer_size out =
    if ltb buffer_size ctx.payload_size then some (false, out) else do
      sec ← fetch ctx.offset_timestamp 4 in_buffer out.stamp_sec
      nanosec ← fetch (ctx.offset_timestamp + 4) 4 in_buffer out.stamp_nanosec
      positions ← fetch ctx.offset_position (array_bytes ctx.num_joints) in_buffer out.positions
      velocities ← fetch ctx.offset_velocity (array_bytes ctx.num_joints) in_buffer out.velocities
      efforts ← fetch ctx.offset_effort (array_bytes ctx.num_joints) in_buffer out.efforts
      let target : JointStateTarget = record {
        stamp_sec = sec;
        stamp_nanosec = nanosec;
        positions = positions;
        velocities = velocities;
        efforts = efforts;
      }
      some (true, target)
