-- ===== src/Cdr/JointCommand.antt =====
-- zenbedded_transport/src/serialization.c: the three functions on `zcdr_joint_command_ctx_t`.
use zephyr_zenoh_integration.Prelude.{
  ℕ, ◌+◌, Bool, true, false, List, Option, some, ◌>>=◌, ltb, if◌then◌else◌,
}
use zephyr_zenoh_integration.Prelude.Bytes.{Buffer, le_bytes, store}
use zephyr_zenoh_integration.Cdr.Cursor.{
  start, align, skip, put_u32, put_header, put_optional_text, put_names, array_bytes, reserve,
  store_doubles, fetch,
}

pub record JointCommandCtx : Type 0 where
  pub num_joints : ℕ
  pub offset_timestamp : ℕ
  pub offset_values : ℕ
  pub payload_size : ℕ

unfoldable pub zcdr_init_joint_command :
    Option (List ℕ)
    → List (List ℕ)
    → ℕ
    → Option (List ℕ)
    → Buffer
    → Option (JointCommandCtx × Buffer)
zcdr_init_joint_command frame_id joint_names num_joints interface_name out_buffer = do
  stamp ← put_header (start out_buffer)
  framed ← put_optional_text frame_id (skip 8 stamp)
  counted ← put_u32 num_joints (align 4 framed)
  named ← put_names num_joints joint_names counted
  interfaced ← put_optional_text interface_name (align 4 named)
  (values, o1) ← reserve num_joints interfaced
  let ctx : JointCommandCtx = record {
    num_joints = num_joints;
    offset_timestamp = stamp.cursor;
    offset_values = values;
    payload_size = o1.cursor;
  }
  some (ctx, o1.buffer)

unfoldable pub zcdr_serialize_joint_command :
    JointCommandCtx → ℕ → ℕ → Option (List ℕ) → Buffer → Option Buffer
zcdr_serialize_joint_command ctx stamp_sec stamp_nanosec values out_buffer = do
  b1 ← store ctx.offset_timestamp (le_bytes 4 stamp_sec) out_buffer
  b2 ← store (ctx.offset_timestamp + 4) (le_bytes 4 stamp_nanosec) b1
  store_doubles ctx.offset_values (array_bytes ctx.num_joints) values b2

-- What the three out pointers point to, `none` for a null pointer.
pub record JointCommandTarget : Type 0 where
  pub stamp_sec : Option Buffer
  pub stamp_nanosec : Option Buffer
  pub values : Option Buffer

unfoldable pub zcdr_deserialize_joint_command :
    JointCommandCtx → Buffer → ℕ → JointCommandTarget → Option (Bool × JointCommandTarget)
zcdr_deserialize_joint_command ctx in_buffer buffer_size out =
    if ltb buffer_size ctx.payload_size then some (false, out) else do
      sec ← fetch ctx.offset_timestamp 4 in_buffer out.stamp_sec
      nanosec ← fetch (ctx.offset_timestamp + 4) 4 in_buffer out.stamp_nanosec
      values ← fetch ctx.offset_values (array_bytes ctx.num_joints) in_buffer out.values
      let target : JointCommandTarget = record {
        stamp_sec = sec;
        stamp_nanosec = nanosec;
        values = values;
      }
      some (true, target)
