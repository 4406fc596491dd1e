-- ===== src/Client/Lifecycle.antt =====
-- zenbedded_rcl/src/zenbedded_client.cpp: the life cycle of the client over the transport, and its
-- control thread. The limits and names of the configuration are a parameter, the answers of zenoh
-- arguments.
use Prim.Native.String.{String}
use zephyr_zenoh_integration.Prelude.{
  ℕ, ◌+◌, ◌-◌, ◌/◌, ◌%◌, ◌^◌, Bool, true, false, List, [], ◌∷◌, Option, none, some, ltb, leb, ◌==◌,
  if◌then◌else◌,
}
use zephyr_zenoh_integration.Prelude.Bytes.{Buffer}
use zephyr_zenoh_integration.Transport.State.{Tier, Printer, Transport}
use zephyr_zenoh_integration.Transport.Session.{
  zenbedded_transport_init, zenbedded_transport_destroy,
}
use zephyr_zenoh_integration.Transport.Endpoints.{
  zenbedded_transport_declare_publisher, zenbedded_transport_declare_subscriber,
}

-- The CONFIG_ZENBEDDED values.
pub record Config : Type 0 where
  pub tier : Tier
  pub printer : Printer
  pub reliable : Bool
  pub client : Bool
  pub domain_id : ℕ
  pub node_name : String
  pub zenoh_mode : String
  pub zenoh_ip_port : Option String
  pub pub_topic : String
  pub sub_topic : String
  pub state_type : String
  pub cmd_type : String
  pub max_state_buffer_size : ℕ
  pub max_cmd_buffer_size : ℕ

-- What zenoh and the random source answer to one initialisation.
pub record Answers : Type 0 where
  pub opens : Bool
  pub declares_publisher : Bool
  pub declares_subscriber : Bool
  pub zid : Buffer
  pub gid : Buffer

-- 0, the negated error numbers, and -1.
pub data Result : Type 0 where
  ok enomem eio enodev einval : Result
  failure : Result

-- `ZenbeddedClientBase` but its buffers. A pointer of the transport is the index of its slot.
pub record ClientBase : Type 0 where
  pub initialized : Bool
  pub state_payload_size : ℕ
  pub cmd_payload_size : ℕ
  pub publisher : Option ℕ
  pub subscriber : Option ℕ
  pub control_freq : ℕ
  pub control_thread_running : Bool
  pub control_thread_started : Bool

-- By whether the thread has been started.
abbrev pub stop_in : Bool → ClientBase → ClientBase
stop_in false c = c
stop_in true c = record c {
  control_thread_running = false;
  control_thread_started = false;
  control_freq = 0;
}

unfoldable pub stop_thread : ClientBase → ClientBase
stop_thread c = stop_in c.control_thread_started c

-- A running thread is stopped first.
abbrev pub run_thread : Bool → ℕ → ClientBase → ClientBase
run_thread started control_freq c = record (stop_in started c) {
  control_freq = control_freq;
  control_thread_running = true;
  control_thread_started = true;
}

-- By whether the client is initialised, and whether the frequency is zero.
abbrev pub start_in : Bool → Bool → ℕ → ClientBase → Result × ClientBase
start_in false at_zero control_freq c = (enodev, c)
start_in true true control_freq c = (einval, c)
start_in true false control_freq c = (ok, run_thread c.control_thread_started control_freq c)

unfoldable pub start_thread : ℕ → ClientBase → Result × ClientBase
start_thread control_freq c = start_in c.initialized (control_freq == 0) control_freq c

-- `MAX(1000 / control_freq_, 1)`, and the time to sleep in one round.
unfoldable pub period_ms : ℕ → ℕ
period_ms control_freq = let p = 1000 / control_freq in if ltb p 1 then 1 else p

unfoldable pub sleep_ms : ℕ → ℕ → ℕ → ℕ
sleep_ms period now prev =
    let diff = (now + 2 ^ 32 - prev) % 2 ^ 32 in if leb period diff then 1 else period - diff

-- The calls of the client's user that change its life cycle.
pub data ClientOperation : Type 0 where
  initialize : Answers → (control_freq state_payload_size cmd_payload_size : ℕ) → ClientOperation
  start : (control_freq : ℕ) → ClientOperation
  stop destroy_all : ClientOperation

module _ (config : Config) where
  abbrev pub Node : Type 0
  Node = ClientBase × Transport Unit

  -- `sub_ == nullptr` or not.
  unfoldable pub after_subscriber : Option ℕ → ℕ → ClientBase → Result × ClientBase
  unfolding start_thread
  after_subscriber none control_freq c = (eio, record c { subscriber = none })
  after_subscriber (some s) control_freq c =
      start_thread control_freq
        (record c { subscriber = some s; initialized = true; control_freq = control_freq })

  -- `pub_ == nullptr` or not.
  unfoldable pub after_publisher :
      Option ℕ → Answers → ℕ → ClientBase → Transport Unit → (Result × ClientBase) × Transport Unit
  unfolding after_subscriber zenbedded_transport_declare_subscriber
  after_publisher none answers control_freq c t = ((eio, record c { publisher = none }), t)
  after_publisher (some p) answers control_freq c t =
      let (s, t', calls) =
        zenbedded_transport_declare_subscriber config.tier config.printer Unit config.sub_topic
          config.cmd_type (some _) answers.declares_subscriber answers.zid t in
      (after_subscriber s control_freq (record c { publisher = some p }), t')

  unfoldable pub after_init :
      Bool → Answers → ℕ → ClientBase → Transport Unit → (Result × ClientBase) × Transport Unit
  unfolding after_publisher zenbedded_transport_declare_publisher
  after_init false answers control_freq c t = ((eio, c), t)
  after_init true answers control_freq c t =
      let (p, t', calls) =
        zenbedded_transport_declare_publisher config.tier config.printer Unit config.pub_topic
          config.state_type answers.declares_publisher answers.zid answers.gid t in
      after_publisher p answers control_freq c t'

  -- By the three guards: already initialised, the state too large, the command too large.
  unfoldable pub init_in :
      Bool
      → Bool
      → Bool
      → Answers
      → ℕ
      → ℕ
      → ℕ
      → ClientBase
      → Transport Unit
      → (Result × ClientBase) × Transport Unit
  unfolding after_init zenbedded_transport_init
  init_in true large_state large_cmd answers control_freq state_size cmd_size c t = ((ok, c), t)
  init_in false true large_cmd answers control_freq state_size cmd_size c t =
      ((enomem, record c { state_payload_size = state_size }), t)
  init_in false false true answers control_freq state_size cmd_size c t =
      ((enomem, record c { state_payload_size = state_size; cmd_payload_size = cmd_size }), t)
  init_in false false false answers control_freq state_size cmd_size c t =
      let (opened, t', calls) =
        zenbedded_transport_init config.tier config.printer Unit config.reliable config.client
          config.domain_id config.node_name config.zenoh_mode config.zenoh_ip_port answers.opens
          answers.zid t in
      after_init opened answers control_freq
        (record c { state_payload_size = state_size; cmd_payload_size = cmd_size }) t'

  unfoldable pub init_base :
      Answers → ℕ → ℕ → ℕ → ClientBase → Transport Unit → (Result × ClientBase) × Transport Unit
  unfolding init_in
  init_base answers control_freq state_payload_size cmd_payload_size c t =
      init_in c.initialized (ltb config.max_state_buffer_size state_payload_size)
        (ltb config.max_cmd_buffer_size cmd_payload_size) answers control_freq state_payload_size
        cmd_payload_size c t

  unfoldable pub destroy_in : Bool → ClientBase → Transport Unit → ClientBase × Transport Unit
  unfolding stop_thread zenbedded_transport_destroy
  destroy_in false c t = (c, t)
  destroy_in true c t = (
    record (stop_thread c) { publisher = none; subscriber = none; initialized = false },
    (zenbedded_transport_destroy config.tier config.printer Unit t).0,
  )

  unfoldable pub destroy : ClientBase → Transport Unit → ClientBase × Transport Unit
  unfolding destroy_in
  destroy c t = destroy_in c.initialized c t

  unfoldable pub run_client :
      List ClientOperation → ClientBase → Transport Unit → ClientBase × Transport Unit
  unfolding init_base start_thread stop_thread destroy
  run_client [] c t = (c, t)
  run_client (initialize answers control_freq m n ∷ os) c t =
      let r = init_base answers control_freq m n c t in run_client os r.0.1 r.1
  run_client (start control_freq ∷ os) c t = run_client os (start_thread control_freq c).1 t
  run_client (stop ∷ os) c t = run_client os (stop_thread c) t
  run_client (destroy_all ∷ os) c t = let r = destroy c t in run_client os r.0 r.1
