-- ===== src/Transport/Endpoints.antt =====
-- zenbedded_transport/src/zenoh_transport.c: declaring publishers and subscribers, publishing, and the
-- handler of a sample. What zenoh-pico, the clock and the random source answer are arguments.
use Prim.Native.String.{String}
use zephyr_zenoh_integration.Prelude.{
  ℕ, ◌+◌, ◌*◌, ◌%◌, ◌^◌, Bool, true, false, ◌||◌, List, [], ◌∷◌, Option, none, some, ◌==◌, ltb,
  get_elem?, length, if◌then◌else◌,
}
use zephyr_zenoh_integration.Prelude.Int.{pos, int64_bits, to_int64}
use zephyr_zenoh_integration.Prelude.Bytes.{Buffer}
use zephyr_zenoh_integration.Transport.Pool.{PoolSlot, set_body, claim, update}
use zephyr_zenoh_integration.Transport.State.{
  Tier, tier_1, tier_2, Printer, Attachment, PubBody, SubBody, Call, declare_publisher,
  declare_subscriber, declare_pub_token, declare_sub_token, put, Transport, clean, topic_key,
  liveliness_key, only_tier_1,
}

module _ (tier : Tier) (printer : Printer) (Callback : Type 0) where
  -- What follows the search for a slot, with the key of the topic.
  abbrev pub declare_publisher_in :
      Option (ℕ × List (PoolSlot PubBody))
      → String
      → String
      → Bool
      → Buffer
      → Buffer
      → Transport Callback
      → Option ℕ × Transport Callback × List Call
  declare_publisher_in none topic type_name declares zid gid t = (none, t, [])
  declare_publisher_in (some (i, pool)) topic type_name false zid gid t =
      let k = topic_key printer tier t.current_domain_id topic type_name in
      (
        none,
        record t {
          pub_pool = update i (λ s. set_body false (record (s.body) { topic_keyexpr = k })) pool;
        },
        declare_publisher i k false ∷ [],
      )
  declare_publisher_in (some (i, pool)) topic type_name true zid gid t =
      let k = topic_key printer tier t.current_domain_id topic type_name in
      let token =
        liveliness_key printer t.current_domain_id zid "MP" t.current_node_name topic type_name in
      (
        some i,
        record t {
          pub_pool = update i (λ s. set_body s.in_use (declared tier k token gid s.body)) pool;
        },
        declare_publisher i k true ∷ only_tier_1 tier (declare_pub_token i token) [],
      )
    where
      declared : Tier → String → String → Buffer → PubBody → PubBody
      declared tier_1 k token gid b = record {
        topic_keyexpr = k;
        attachment = record (b.attachment) { sequence_number = pos 0; gid_length = 16; gid = gid };
        lv_keyexpr = token;
      }
      declared tier_2 k token gid b = record b { topic_keyexpr = k }

  abbrev pub declare_publisher_from :
      Bool
      → String
      → String
      → Bool
      → Buffer
      → Buffer
      → Transport Callback
      → Option ℕ × Transport Callback × List Call
  declare_publisher_from false topic_name type_name declares zid gid t = (none, t, [])
  declare_publisher_from true topic_name type_name declares zid gid t =
      declare_publisher_in (claim t.pub_pool) (clean topic_name) type_name declares zid gid t

  -- The result is the slot of the pointer, `none` for a null pointer.
  unfoldable pub zenbedded_transport_declare_publisher :
      String
      → String
      → Bool
      → Buffer
      → Buffer
      → Transport Callback
      → Option ℕ × Transport Callback × List Call
  zenbedded_transport_declare_publisher topic_name type_name declares zid gid t =
      declare_publisher_from t.is_initialized topic_name type_name declares zid gid t

  -- `tv` and `puts` are the answers of the clock and of `z_publisher_put`; a pointer out of the pool is
  -- a fault. The first result is true for 0 and false for -1. Past 2 ^ 63 the `int64_t` arithmetic wraps.
  abbrev pub put_from :
      Tier
      → ℕ
      → PoolSlot PubBody
      → Buffer
      → ℕ × ℕ
      → Bool
      → Transport Callback
      → Bool × Transport Callback × List Call
  put_from tier_1 i s payload (tv_sec, tv_nsec) puts t =
      let a : Attachment = record (s.body.attachment) {
        sequence_number = to_int64 ((int64_bits s.body.attachment.sequence_number + 1) % 2 ^ 64);
        timestamp_ns = to_int64 ((tv_sec * 1000000000 + tv_nsec) % 2 ^ 64);
      } in
      (
        puts,
        record t {
          pub_pool =
              update i (λ s. set_body s.in_use (record (s.body) { attachment = a })) t.pub_pool;
        },
        put i payload (some a) ∷ [],
      )
  put_from tier_2 i s payload tv puts t = (puts, t, put i payload none ∷ [])

  abbrev pub publish_in :
      Option (PoolSlot PubBody)
      → ℕ
      → Buffer
      → ℕ × ℕ
      → Bool
      → Transport Callback
      → Option (Bool × Transport Callback × List Call)
  publish_in none i payload tv puts t = none
  publish_in (some s) i payload tv puts t =
      some (if s.in_use then put_from tier i s payload tv puts t else (false, t, []))

  unfoldable pub zenbedded_transport_publish :
      Option ℕ
      → Buffer
      → ℕ × ℕ
      → Bool
      → Transport Callback
      → Option (Bool × Transport Callback × List Call)
  zenbedded_transport_publish none payload tv puts t = some (false, t, [])
  zenbedded_transport_publish (some i) payload tv puts t =
      publish_in (get_elem? t.pub_pool i) i payload tv puts t

  abbrev pub declare_subscriber_in :
      Option (ℕ × List (PoolSlot (SubBody Callback)))
      → String
      → String
      → Option Callback
      → Bool
      → Buffer
      → Transport Callback
      → Option ℕ × Transport Callback × List Call
  declare_subscriber_in none topic type_name callback declares zid t = (none, t, [])
  declare_subscriber_in (some (i, pool)) topic type_name callback false zid t =
      let k = topic_key printer tier t.current_domain_id topic type_name in
      (
        none,
        record t {
          sub_pool =
              update i
                (λ s. set_body false (record (s.body) { user_cb = callback; topic_keyexpr = k }))
                pool;
        },
        declare_subscriber i k false ∷ [],
      )
  declare_subscriber_in (some (i, pool)) topic type_name callback true zid t =
      let k = topic_key printer tier t.current_domain_id topic type_name in
      let token =
        liveliness_key printer t.current_domain_id zid "MS" t.current_node_name topic type_name in
      (
        some i,
        record t {
          sub_pool =
              update i
                (λ s. set_body s.in_use (
                  with_token tier token
                    (record (s.body) { user_cb = callback; topic_keyexpr = k })))
                pool;
        },
        declare_subscriber i k true ∷ only_tier_1 tier (declare_sub_token i token) [],
      )
    where
      with_token : Tier → String → SubBody Callback → SubBody Callback
      with_token tier_1 token b = record b { lv_keyexpr = token }
      with_token tier_2 token b = b

  abbrev pub declare_subscriber_from :
      Bool
      → String
      → String
      → Option Callback
      → Bool
      → Buffer
      → Transport Callback
      → Option ℕ × Transport Callback × List Call
  declare_subscriber_from false topic_name type_name callback declares zid t = (none, t, [])
  declare_subscriber_from true topic_name type_name callback declares zid t =
      declare_subscriber_in (claim t.sub_pool) (clean topic_name) type_name callback declares zid t

  unfoldable pub zenbedded_transport_declare_subscriber :
      String
      → String
      → Option Callback
      → Bool
      → Buffer
      → Transport Callback
      → Option ℕ × Transport Callback × List Call
  zenbedded_transport_declare_subscriber topic_name type_name callback declares zid t =
      declare_subscriber_from t.is_initialized topic_name type_name callback declares zid t

  -- `sizeof(rx_buf)` or T2_MAX_BUFFER_BOUND.
  abbrev pub rx_bound : Tier → ℕ
  rx_bound tier_1 = 1024
  rx_bound tier_2 = 64

  -- What the user's callback is called with, if it is called.
  unfoldable pub internal_sub_handler : Option Callback → Buffer → Option (Callback × Buffer)
  internal_sub_handler none payload = none
  internal_sub_handler (some callback) payload =
      if (length payload == 0) || ltb (rx_bound tier) (length payload)
      then none
      else some (callback, payload)
