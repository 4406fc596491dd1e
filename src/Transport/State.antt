-- ===== src/Transport/State.antt =====
-- zenbedded_transport/src/zenoh_transport.c: its state, the calls that it makes into
-- zenoh-pico, and the key expressions.
use Prim.Native.String.{String, slice, len, ◌++◌ as ◌<>◌}
use text.Mathlib.Text.{◌==◌ as str_eq}
use zephyr_zenoh_integration.Prelude.{
  ℕ, Bool, List, [], ◌∷◌, Option, none, some, ◌==◌, if◌then◌else◌,
}
use zephyr_zenoh_integration.Prelude.Int.{ℤ}
use zephyr_zenoh_integration.Prelude.Bytes.{Buffer}
use zephyr_zenoh_integration.Transport.Ledger.{zenbedded_get_rihs_hash}
use zephyr_zenoh_integration.Transport.Pool.{PoolSlot}

-- `CONFIG_ZENBEDDED_TIER_1` or `CONFIG_ZENBEDDED_TIER_2`.
pub data Tier : Type 0 where
  tier_1 tier_2 : Tier

-- `%u` and the zenoh id in `%02x`, as snprintf prints them.
pub record Printer : Type 0 where
  pub decimal : ℕ → String
  pub id : Buffer → String

-- `rmw_zenoh_attachment_t`, with two fields of type int64_t.
pub record Attachment : Type 0 where
  pub sequence_number : ℤ
  pub timestamp_ns : ℤ
  pub gid_length : ℕ
  pub gid : Buffer

pub record PubBody : Type 0 where
  pub topic_keyexpr : String
  pub attachment : Attachment
  pub lv_keyexpr : String

-- A callback and its data are opaque to the transport.
pub record SubBody (Callback : Type 0) : Type 0 where
  pub user_cb : Option Callback
  pub topic_keyexpr : String
  pub lv_keyexpr : String

-- The calls into zenoh-pico that have an effect; a declaration carries its result, and the slots are
-- those of the pools.
pub data Call : Type 0 where
  z_open : (mode : String) → (connect : Bool) → (locator : Option String) → Bool → Call
  start_tasks stop_tasks z_close : Call
  declare_node_token : String → Call
  undeclare_node_token : Call
  declare_publisher declare_subscriber : ℕ → String → Bool → Call
  undeclare_publisher undeclare_subscriber : ℕ → Call
  declare_pub_token declare_sub_token : ℕ → String → Call
  undeclare_pub_token undeclare_sub_token : ℕ → Call
  put : ℕ → Buffer → Option Attachment → Call

pub record Transport (Callback : Type 0) : Type 0 where
  pub is_initialized : Bool
  pub current_domain_id : ℕ
  pub current_node_name : String
  pub pub_pool : List (PoolSlot PubBody)
  pub sub_pool : List (PoolSlot (SubBody Callback))

-- `snprintf` into a buffer of KEYEXPR_MAX_LEN bytes.
abbrev pub key : String → String
key s = slice s 0 511

-- `(topic_name[0] == '/') ? topic_name + 1 : topic_name`.
abbrev pub clean : String → String
clean topic_name =
    if str_eq (slice topic_name 0 1) "/" then slice topic_name 1 (len topic_name) else topic_name

module _ (printer : Printer) where
  abbrev pub topic_key : Tier → ℕ → String → String → String
  topic_key tier_1 domain topic type_name = key (
      printer.decimal domain
      <> ("/" <> (topic <> ("/" <> (type_name <> ("/" <> zenbedded_get_rihs_hash type_name))))))
  topic_key tier_2 domain topic type_name = key topic

  -- `entity` is `MP` or `MS`.
  abbrev pub liveliness_key : ℕ → Buffer → String → String → String → String → String
  liveliness_key domain zid entity node topic type_name = key (
      "@ros2_lv/"
      <> (printer.decimal domain
          <> ("/"
              <> (printer.id zid
                  <> ("/0/10/"
                      <> (entity
                          <> ("/%/%/"
                              <> (node
                                  <> ("/%"
                                      <> (topic
                                          <> ("/"
                                              <> (type_name
                                                  <> ("/"
                                                      <> (zenbedded_get_rihs_hash type_name
                                                          <> "/::,7:,:,:,,"))))))))))))))

  abbrev pub node_key : ℕ → Buffer → String → String
  node_key domain zid node = key (
      "@ros2_lv/"
      <> (printer.decimal domain <> ("/" <> (printer.id zid <> ("/0/0/NN/%/%/" <> node)))))

-- `locator && strlen(locator) > 0`, with the transport of CONFIG_ZENBEDDED_QOS_RELIABLE.
abbrev pub full_locator : Bool → Option String → Option String
full_locator reliable none = none
full_locator reliable (some locator) =
    if len locator == 0
    then none
    else some (slice ((if reliable then "tcp/" else "udp/") <> locator) 0 127)

-- What only TIER_1 does.
abbrev pub node_token : Tier → Call → List Call
node_token tier_1 c = c ∷ []
node_token tier_2 c = []

abbrev pub only_tier_1 : Tier → Call → List Call → List Call
only_tier_1 tier_1 c cs = c ∷ cs
only_tier_1 tier_2 c cs = cs
