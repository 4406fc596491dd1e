-- ===== src/Transport/Ledger.antt =====
-- zenbedded_transport/include/zenbedded_transport/rihs_ledger.h: the type hashes.
use Prim.Native.String.{String}
use text.Mathlib.Text.{◌==◌ as str_eq}
use zephyr_zenoh_integration.Prelude.{List, [], ◌∷◌, if◌then◌else◌}

pub record RihsMapping : Type 0 where
  pub type_name : String
  pub rihs_hash : String

abbrev pub rihs_ledger : List RihsMapping
rihs_ledger =
    record {
      type_name = "sensor_msgs::msg::dds_::JointState_";
      rihs_hash = "RIHS01_a13ee3a330e346c9d87b5aa18d24e11690752bd33a0350f11c5882bc9179260e";
    }
    ∷ record {
      type_name = "control_msgs::msg::dds_::JointCommand_";
      rihs_hash = "RIHS01_6080a1df9d28b6badffa5efb27d4ba4ae657c4f6dd2b519b178a32db12405985";
    }
    ∷ record {
      type_name = "sensor_msgs::msg::dds_::Imu_";
      rihs_hash = "RIHS01_7d9a00ff131080897a5ec7e26e315954b8eae3353c3f995c55faf71574000b5b";
    }
    ∷ []

-- The loop of `zenbedded_get_rihs_hash`.
unfoldable pub find_hash : List RihsMapping → String → String
find_hash [] type_name = "UNKNOWN_HASH"
find_hash (m ∷ ms) type_name =
    if str_eq m.type_name type_name then m.rihs_hash else find_hash ms type_name

unfoldable pub zenbedded_get_rihs_hash : String → String
unfolding find_hash
zenbedded_get_rihs_hash = find_hash rihs_ledger
