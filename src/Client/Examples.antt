-- ===== src/Client/Examples.antt =====
-- zenbedded_rcl: a client that fails to subscribe at first, and then starts.
use zephyr_zenoh_integration.Prelude.{Bool, true, false, List, [], ◌∷◌, none, some, replicate}
use zephyr_zenoh_integration.Prelude.Int.{pos}
use zephyr_zenoh_integration.Transport.Pool.{set_body}
use zephyr_zenoh_integration.Transport.State.{tier_2, Transport}
use zephyr_zenoh_integration.Client.Lifecycle.{
  Config, Answers, ClientBase, ClientOperation, initialize, start, stop, destroy_all, run_client,
}
use zephyr_zenoh_integration.Client.Soundness.{IsSound, run_client-IsSound}

abbrev pub config : Config
config = record {
  tier = tier_2;
  printer = record { decimal = λ n. "0"; id = λ zid. "00" };
  reliable = true;
  client = true;
  domain_id = 0;
  node_name = "node";
  zenoh_mode = "client";
  zenoh_ip_port = some "10.0.0.1:7447";
  pub_topic = "/state";
  sub_topic = "/command";
  state_type = "";
  cmd_type = "";
  max_state_buffer_size = 512;
  max_cmd_buffer_size = 256;
}

abbrev pub fresh : ClientBase
fresh = record {
  initialized = false;
  state_payload_size = 0;
  cmd_payload_size = 0;
  publisher = none;
  subscriber = none;
  control_freq = 0;
  control_thread_running = false;
  control_thread_started = false;
}

abbrev pub transport : Transport Unit
transport = record {
  is_initialized = false;
  current_domain_id = 0;
  current_node_name = "";
  pub_pool = replicate 10 (
      set_body false (record {
        topic_keyexpr = "";
        attachment = record {
          sequence_number = pos 0;
          timestamp_ns = pos 0;
          gid_length = 0;
          gid = [];
        };
        lv_keyexpr = "";
      }));
  sub_pool =
      replicate 10
        (set_body false (record { user_cb = none; topic_keyexpr = ""; lv_keyexpr = "" }));
}

abbrev pub answers : Bool → Answers
answers subscribes = record {
  opens = true;
  declares_publisher = true;
  declares_subscriber = subscribes;
  zid = [];
  gid = [];
}

abbrev operations : List ClientOperation
operations =
    initialize (answers true) 100 600 8
    ∷ initialize (answers false) 100 16 8
    ∷ initialize (answers true) 100 16 8
    ∷ start 0
    ∷ start 50
    ∷ stop
    ∷ destroy_all
    ∷ initialize (answers true) 100 16 8
    ∷ []

fresh-IsSound : IsSound config fresh
fresh-IsSound = record { connected = _; threaded = _ }

run_client-IsSound_example : IsSound config (run_client config operations fresh transport).0
run_client-IsSound_example = run_client-IsSound config operations fresh transport fresh-IsSound
