-- ===== src/Client/JointExamples.antt =====
-- zenbedded_rcl: a client of two joints, from its initialisation to its first state.
use zephyr_zenoh_integration.Prelude.{
  ℕ, ◌≤◌, ◌≡◌, refl, ◌⊎◌, true, false, List, [], ◌∷◌, Option, none, some, arith, length-replicate,
}
use zephyr_zenoh_integration.Prelude.Bytes.{zeros}
use zephyr_zenoh_integration.Transport.State.{Transport}
use zephyr_zenoh_integration.Cdr.JointState.{JointStateValue}
use zephyr_zenoh_integration.Cdr.Reference.{cdr_u32, cdr_string_seq, cdr_strings, cdr_string}
use zephyr_zenoh_integration.Cdr.CommandInit.{CommandFits, joint_command_ctx}
use zephyr_zenoh_integration.Cdr.Init.{joint_state_ctx}
use zephyr_zenoh_integration.Cdr.StateAccess.{IsSized}
use zephyr_zenoh_integration.Client.Codec.JointStates.{joint_state_codec, params}
use zephyr_zenoh_integration.Client.Codec.JointCommands.{joint_command_codec, command_params}
use zephyr_zenoh_integration.Client.Lifecycle.{Result, eio}
use zephyr_zenoh_integration.Client.Channels.{ZenbeddedClient, cleared, init}
use zephyr_zenoh_integration.Client.JointClient.{PublishesFirst, init-PublishesFirst}
use zephyr_zenoh_integration.Client.Examples.{config, fresh, transport, answers}

-- "base", "arm", "axis", "effort".
abbrev base : Option (List ℕ)
base = some (98 ∷ 97 ∷ 115 ∷ 101 ∷ [])

abbrev names : List (List ℕ)
names = (97 ∷ 114 ∷ 109 ∷ []) ∷ (97 ∷ 120 ∷ 105 ∷ 115 ∷ []) ∷ []

abbrev interface : Option (List ℕ)
interface = some (101 ∷ 102 ∷ 102 ∷ 111 ∷ 114 ∷ 116 ∷ [])

all_fit : CommandFits base names interface
all_fit = record {
  texts = record { frame = omega arith; names_fit = omega arith; count = omega arith };
  interface_fits = omega arith;
}

abbrev value : JointStateValue
value = record {
  stamp_sec = 12;
  stamp_nanosec = 34;
  positions = some (5 ∷ 6 ∷ []);
  velocities = none;
  efforts = some (7 ∷ 8 ∷ []);
}

value-IsSized : IsSized 2 value
value-IsSized = record { positions_sized = refl; velocities_sized = tt; efforts_sized = refl }

abbrev joint_client : ZenbeddedClient joint_state_codec joint_command_codec
joint_client = record {
  base = fresh;
  state = cleared 512;
  command = cleared 256;
  accepted = 0;
  state_ctx = joint_state_codec.default_ctx;
  cmd_ctx = joint_command_codec.default_ctx;
}

sizes_fit :
    ((joint_state_ctx base names).payload_size ≤ 512)
    × ((joint_command_ctx base names interface).payload_size ≤ 256)
unfolding cdr_u32 cdr_string_seq cdr_strings cdr_string
sizes_fit = (omega arith, omega arith)

init-PublishesFirst_example :
    (result : Result) × (c : ZenbeddedClient joint_state_codec joint_command_codec) × (t : Transport
      Unit)
    × (init config joint_state_codec joint_command_codec
          (answers true)
          100
          (params base names all_fit.texts (omega arith))
          (command_params base names interface all_fit (omega arith))
          (zeros 256)
          joint_client
          transport
        ≡ some (result, c, t))
    × ((result ≡ eio) × (c.base.initialized ≡ false)
        ⊎ PublishesFirst config base names interface all_fit (omega arith) value c)
init-PublishesFirst_example =
    init-PublishesFirst config base names interface all_fit (omega arith) (answers true) 100
      (zeros 256) joint_client transport value refl sizes_fit.0 sizes_fit.1
      (omega (arith, sizes_fit.1, length-replicate {A = ℕ} 256 0)) value-IsSized
