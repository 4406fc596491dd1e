-- ===== src/Cdr/Reference.antt =====
-- The CDR encoding that the two messages have in ROS 2, described on its own: a body that grows by
-- appending, each member aligned to its size counted from the start of the body.
use zephyr_zenoh_integration.Prelude.{ℕ, ◌+◌, ◌-◌, ◌%◌, List, [], ◌∷◌, ◌++◌, length}
use zephyr_zenoh_integration.Prelude.Bytes.{Buffer, zeros, le_bytes}

abbrev pub pad : ℕ → Buffer → Buffer
pad size body = body ++ zeros ((size - length body % size) % size)

unfoldable pub cdr_u32 : ℕ → Buffer → Buffer
cdr_u32 v body = pad 4 body ++ le_bytes 4 v

unfoldable pub cdr_string : List ℕ → Buffer → Buffer
cdr_string s body = cdr_u32 (length s + 1) body ++ (s ++ 0 ∷ [])

unfoldable pub cdr_strings : List (List ℕ) → Buffer → Buffer
cdr_strings [] body = body
cdr_strings (s ∷ ss) body = cdr_strings ss (cdr_string s body)

unfoldable pub cdr_double : ℕ → Buffer → Buffer
cdr_double x body = pad 8 body ++ le_bytes 8 x

unfoldable pub cdr_doubles : List ℕ → Buffer → Buffer
cdr_doubles [] body = body
cdr_doubles (x ∷ xs) body = cdr_doubles xs (cdr_double x body)

unfoldable pub cdr_double_seq : List ℕ → Buffer → Buffer
cdr_double_seq xs body = cdr_doubles xs (cdr_u32 (length xs) body)

unfoldable pub cdr_string_seq : List (List ℕ) → Buffer → Buffer
cdr_string_seq ss body = cdr_strings ss (cdr_u32 (length ss) body)

-- std_msgs/msg/Header: seconds, nanoseconds and the frame.
pub record Header : Type 0 where
  pub sec : ℕ
  pub nanosec : ℕ
  pub frame_id : List ℕ

unfoldable pub cdr_header : Header → Buffer → Buffer
cdr_header h body = cdr_string h.frame_id (cdr_u32 h.nanosec (cdr_u32 h.sec body))

-- sensor_msgs/msg/JointState.
pub record JointStateMsg : Type 0 where
  pub header : Header
  pub name : List (List ℕ)
  pub position : List ℕ
  pub velocity : List ℕ
  pub effort : List ℕ

unfoldable pub cdr_joint_state : JointStateMsg → Buffer
cdr_joint_state m = cdr_double_seq m.effort (
    cdr_double_seq m.velocity
      (cdr_double_seq m.position (cdr_string_seq m.name (cdr_header m.header []))))

-- control_msgs/msg/JointCommand.
pub record JointCommandMsg : Type 0 where
  pub header : Header
  pub joint_names : List (List ℕ)
  pub interface_name : List ℕ
  pub values : List ℕ

unfoldable pub cdr_joint_command : JointCommandMsg → Buffer
cdr_joint_command m =
    cdr_double_seq m.values
      (cdr_string m.interface_name (cdr_string_seq m.joint_names (cdr_header m.header [])))

-- The encapsulation header of a little-endian message stands before the body.
abbrev pub encapsulated : Buffer → Buffer
encapsulated body = (0 ∷ 1 ∷ 0 ∷ 0 ∷ []) ++ body
