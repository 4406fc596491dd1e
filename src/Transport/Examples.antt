-- ===== src/Transport/Examples.antt =====
-- zenbedded_transport: a session with a publisher and a subscriber, in TIER_1.
use zephyr_zenoh_integration.Prelude.{
  ℕ, ◌≡◌, refl, arith, true, false, List, [], ◌∷◌, Option, none, some, replicate,
}
use zephyr_zenoh_integration.Prelude.Int.{pos}
use zephyr_zenoh_integration.Transport.Pool.{PoolSlot, set_body, claim}
use zephyr_zenoh_integration.Transport.State.{tier_1, Printer, PubBody, Call, Transport}
use zephyr_zenoh_integration.Transport.World.{replay_all}
use zephyr_zenoh_integration.Transport.Session.{
  zenbedded_transport_init, destroy_from, zenbedded_transport_destroy,
}
use zephyr_zenoh_integration.Transport.Endpoints.{
  zenbedded_transport_declare_publisher, zenbedded_transport_publish,
  zenbedded_transport_declare_subscriber,
}
use zephyr_zenoh_integration.Transport.Sequence.{
  Publication, publish_all, results, numbered, publish_all-numbered,
}
use zephyr_zenoh_integration.Transport.Ownership.{world_of}
use zephyr_zenoh_integration.Transport.Refinement.{
  Operation, init, destroy, open_publisher, open_subscriber, publish, perform, perform_all,
  perform_all-replay,
}

abbrev printer : Printer
printer = record { decimal = λ n. "0"; id = λ zid. "00" }

-- The static pools.
abbrev start : Transport ℕ
start = record {
  is_initialized = false;
  current_domain_id = 0;
  current_node_name = "";
  pub_pool = replicate 10 (
      set_body false (record {
        topic_keyexpr = "";
        attachment = record {
          sequence_number = pos 0;
          timestamp_ns = pos 0;
          gid_length = 0;
          gid = [];
        };
        lv_keyexpr = "";
      }));
  sub_pool =
      replicate 10
        (set_body false (record { user_cb = none; topic_keyexpr = ""; lv_keyexpr = "" }));
}

abbrev operations : List (Operation ℕ)
operations =
    init true true 0 "node" "client" (some "10.0.0.1:7447") true []
    ∷ open_publisher "/state" "sensor_msgs::msg::dds_::JointState_" true [] []
    ∷ open_publisher "/other" "sensor_msgs::msg::dds_::Imu_" false [] []
    ∷ open_subscriber "/command" "control_msgs::msg::dds_::JointCommand_" (some 1) true []
    ∷ publish (some 0) (1 ∷ 2 ∷ []) (1, 5) true
    ∷ destroy
    ∷ []

abbrev or_start : Option (Transport ℕ × List Call) → Transport ℕ × List Call
or_start none = (start, [])
or_start (some r) = r

abbrev outcome : Transport ℕ × List Call
outcome = or_start (perform_all tier_1 printer ℕ operations start)

operations-run : perform_all tier_1 printer ℕ operations start ≡ some (outcome.0, outcome.1)
unfolding perform_all perform zenbedded_transport_init zenbedded_transport_declare_publisher
    zenbedded_transport_declare_subscriber zenbedded_transport_publish zenbedded_transport_destroy
    destroy_from claim
operations-run = refl

perform_all-replay_example : replay_all outcome.1 (world_of start) ≡ some (world_of outcome.0)
perform_all-replay_example =
    perform_all-replay tier_1 printer ℕ operations start outcome.0 outcome.1 operations-run

-- A publisher in use, as a declaration leaves it.
abbrev used_slot : PoolSlot PubBody
used_slot = record {
  in_use = true;
  body = record {
    topic_keyexpr = "state";
    attachment = record {
      sequence_number = pos 7;
      timestamp_ns = pos 0;
      gid_length = 16;
      gid = replicate 16 5;
    };
    lv_keyexpr = "";
  };
}

abbrev publications : List Publication
publications =
    record { payload = 1 ∷ 2 ∷ []; tv = (1, 5); puts = true }
    ∷ record { payload = 3 ∷ []; tv = (2, 6); puts = false }
    ∷ []

publish_all-numbered_example :
    (t : Transport ℕ) × (publish_all printer ℕ
        (some 0)
        publications
        (record start { pub_pool = used_slot ∷ []; is_initialized = true })
      ≡ some
          (results printer ℕ publications, t, numbered 0 used_slot.body.attachment 8 publications))
publish_all-numbered_example =
    publish_all-numbered printer ℕ 0 7 publications used_slot
      (record start { pub_pool = used_slot ∷ []; is_initialized = true }) refl refl refl
      (omega arith) (omega arith, (omega arith, tt))
