-- ===== src/Cdr/CommandExamples.antt =====
-- A JointCommand for two joints, as in the conformance test of zenbedded_transport_tests.
use zephyr_zenoh_integration.Prelude.{
  ℕ, ◌+◌, ◌-◌, ◌≤◌, ◌≡◌, refl, true, false, List, [], ◌∷◌, ◌++◌, Option, none, some, arith, length,
  ltb, if◌then◌else◌,
}
use zephyr_zenoh_integration.Prelude.Bytes.{Buffer, zeros}
use zephyr_zenoh_integration.Cdr.JointCommand.{JointCommandTarget, zcdr_deserialize_joint_command}
use zephyr_zenoh_integration.Cdr.Reference.{
  cdr_joint_command, cdr_header, cdr_string_seq, cdr_strings, cdr_string, cdr_u32, cdr_double_seq,
  cdr_doubles, cdr_double, encapsulated,
}
use zephyr_zenoh_integration.Cdr.CommandInit.{CommandFits, joint_command_ctx}
use zephyr_zenoh_integration.Cdr.CommandAccess.{
  HasCommandSpace, filled_command, deserialize_command-held,
}
use zephyr_zenoh_integration.Cdr.CommandConformance.{
  init_and_serialize_command, described_command, joint_command-encodes,
}

-- "base", "arm", "axis", "effort".
abbrev base : Option (List ℕ)
base = some (98 ∷ 97 ∷ 115 ∷ 101 ∷ [])

abbrev names : List (List ℕ)
names = (97 ∷ 114 ∷ 109 ∷ []) ∷ (97 ∷ 120 ∷ 105 ∷ 115 ∷ []) ∷ []

abbrev interface : Option (List ℕ)
interface = some (101 ∷ 102 ∷ 102 ∷ 111 ∷ 114 ∷ 116 ∷ [])

all_fit : CommandFits base names interface
all_fit = record {
  texts = record { frame = omega arith; names_fit = omega arith; count = omega arith };
  interface_fits = omega arith;
}

message_fits :
    length (cdr_joint_command (described_command base names interface 12 34 (some (5 ∷ 6 ∷ []))))
    ≤ 120
unfolding cdr_joint_command cdr_header cdr_string_seq cdr_strings cdr_string cdr_u32 cdr_double_seq
    cdr_doubles cdr_double
message_fits = omega arith

abbrev sent : Buffer
sent = cdr_joint_command (described_command base names interface 12 34 (some (5 ∷ 6 ∷ [])))

joint_command-encodes_example :
    init_and_serialize_command base names interface 12 34 (some (5 ∷ 6 ∷ [])) (zeros (4 + 120))
    ≡ some (length (encapsulated sent), encapsulated sent ++ zeros (120 - length sent))
joint_command-encodes_example =
    joint_command-encodes base names interface all_fit (omega arith) 12 34 (some (5 ∷ 6 ∷ [])) refl
      120 message_fits

abbrev target : JointCommandTarget
target = record { stamp_sec = some (zeros 4); stamp_nanosec = none; values = some (zeros 16) }

target_space : HasCommandSpace 2 target
target_space = record { sec_space = omega arith; nanosec_space = tt; values_space = omega arith }

deserialize_command-held_example :
    zcdr_deserialize_joint_command
      (joint_command_ctx base names interface)
      (encapsulated sent ++ 9 ∷ [])
      300
      target
    ≡ some (
        if ltb 300 (length (encapsulated sent))
        then (false, target)
        else (true, filled_command 12 34 (5 ∷ 6 ∷ []) target))
deserialize_command-held_example =
    deserialize_command-held base names interface all_fit (omega arith) 12 34 (5 ∷ 6 ∷ []) refl
      (9 ∷ []) target target_space 300
