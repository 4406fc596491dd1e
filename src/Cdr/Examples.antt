-- ===== src/Cdr/Examples.antt =====
-- Two joints, as in the conformance test of zenbedded_transport_tests: tests and witnesses.
use zephyr_zenoh_integration.Prelude.{
  ℕ, ◌+◌, ◌-◌, ◌≤◌, ◌≡◌, refl, true, false, List, [], ◌∷◌, ◌++◌, Option, none, some, arith, length,
  ltb, if◌then◌else◌,
}
use zephyr_zenoh_integration.Prelude.Bytes.{Buffer, zeros, store}
use zephyr_zenoh_integration.Cdr.Cursor.{
  put_header, put_optional_text, put_text, put_names, put_u32, put, reserve,
}
use zephyr_zenoh_integration.Cdr.JointState.{
  JointStateValue, JointStateTarget, zcdr_init_joint_state, zcdr_serialize_joint_state,
  zcdr_deserialize_joint_state,
}
use zephyr_zenoh_integration.Cdr.Reference.{
  JointStateMsg, cdr_joint_state, cdr_header, cdr_string_seq, cdr_strings, cdr_string, cdr_u32,
  cdr_double_seq, cdr_doubles, cdr_double, encapsulated,
}
use zephyr_zenoh_integration.Cdr.Init.{Fits, joint_state_ctx}
use zephyr_zenoh_integration.Cdr.StateSegments.{joint_state_msg}
use zephyr_zenoh_integration.Cdr.StateAccess.{IsSized, serialize-held}
use zephyr_zenoh_integration.Cdr.StateRead.{HasSpace, filled, deserialize-held}
use zephyr_zenoh_integration.Cdr.Conformance.{init_and_serialize, described, joint_state-encodes}

-- "base", "arm", "axis".
abbrev base : Option (List ℕ)
base = some (98 ∷ 97 ∷ 115 ∷ 101 ∷ [])

abbrev names : List (List ℕ)
names = (97 ∷ 114 ∷ 109 ∷ []) ∷ (97 ∷ 120 ∷ 105 ∷ 115 ∷ []) ∷ []

names_fit : Fits base names
names_fit = record { frame = omega arith; names_fit = omega arith; count = omega arith }

abbrev value : JointStateValue
value = record {
  stamp_sec = 12;
  stamp_nanosec = 34;
  positions = some (0x3ff4000000000000 ∷ 0xc004000000000000 ∷ []);
  velocities = none;
  efforts = some (1 ∷ 2 ∷ []);
}

value-IsSized : IsSized 2 value
value-IsSized = record {
  positions_sized = omega arith;
  velocities_sized = tt;
  efforts_sized = omega arith;
}

abbrev message : JointStateMsg
message = described base names value

message_fits : length (cdr_joint_state message) ≤ 160
unfolding cdr_joint_state cdr_header cdr_string_seq cdr_strings cdr_string cdr_u32 cdr_double_seq
    cdr_doubles cdr_double
message_fits = omega arith

joint_state-encodes_example :
    init_and_serialize base names value (zeros (4 + 160))
    ≡ some (
      length (encapsulated (cdr_joint_state message)),
      encapsulated (cdr_joint_state message) ++ zeros (160 - length (cdr_joint_state message)),
    )
joint_state-encodes_example =
    joint_state-encodes base names names_fit (omega arith) value value-IsSized 160 message_fits

-- The message of the test, with velocities 7 and 8 already in the buffer.
abbrev sent : Buffer
sent =
    encapsulated
      (cdr_joint_state (joint_state_msg base names 1 2 (3 ∷ 4 ∷ []) (7 ∷ 8 ∷ []) (5 ∷ 6 ∷ [])))

serialize-held_example :
    zcdr_serialize_joint_state (joint_state_ctx base names) value (sent ++ 9 ∷ [])
    ≡ some (
        encapsulated (
          cdr_joint_state (
            joint_state_msg base names 12 34
              (0x3ff4000000000000 ∷ 0xc004000000000000 ∷ [])
              (7 ∷ 8 ∷ [])
              (1 ∷ 2 ∷ [])))
        ++ 9 ∷ [])
serialize-held_example =
    serialize-held base names names_fit (omega arith) 1 2 (3 ∷ 4 ∷ []) (7 ∷ 8 ∷ []) (5 ∷ 6 ∷ [])
      refl refl refl (9 ∷ []) value value-IsSized

abbrev target : JointStateTarget
target = record {
  stamp_sec = some (zeros 4);
  stamp_nanosec = none;
  positions = some (zeros 24);
  velocities = none;
  efforts = some (zeros 16);
}

target_space : HasSpace 2 target
target_space = record {
  sec_space = omega arith;
  nanosec_space = tt;
  positions_space = omega arith;
  velocities_space = tt;
  efforts_space = omega arith;
}

deserialize-held_example :
    zcdr_deserialize_joint_state (joint_state_ctx base names) (sent ++ 9 ∷ []) 300 target
    ≡ some (
        if ltb 300 (length sent)
        then (false, target)
        else (true, filled 1 2 (3 ∷ 4 ∷ []) (7 ∷ 8 ∷ []) (5 ∷ 6 ∷ []) target))
deserialize-held_example =
    deserialize-held base names names_fit (omega arith) 1 2 (3 ∷ 4 ∷ []) (7 ∷ 8 ∷ []) (5 ∷ 6 ∷ [])
      refl refl refl (9 ∷ []) target target_space 300

-- A frame that does not fit the buffer is written past its end, before any size is compared.
init-overruns : zcdr_init_joint_state base names 2 (zeros 30) ≡ none
unfolding zcdr_init_joint_state put_header put_optional_text put_text put_names put_u32 put reserve
    store
init-overruns = refl
