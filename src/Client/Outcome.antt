-- ===== src/Client/Outcome.antt =====
-- zenbedded_rcl/src/zenbedded_client.cpp: what `init_base` reports and leaves when both payloads fit.
use zephyr_zenoh_integration.Prelude.{
  ℕ, ◌≤◌, ◌≡◌, ◌≢◌, refl, Bool, true, false, Option, none, some, arith, ◌==◌, ◌⊎◌, inl, inr,
}
use zephyr_zenoh_integration.Transport.State.{Transport}
use zephyr_zenoh_integration.Transport.Session.{zenbedded_transport_init}
use zephyr_zenoh_integration.Transport.Endpoints.{
  zenbedded_transport_declare_publisher, zenbedded_transport_declare_subscriber,
}
use zephyr_zenoh_integration.Client.Lifecycle.{
  Config, Answers, Result, ok, einval, eio, ClientBase, init_base, init_in, after_init,
  after_publisher, after_subscriber, start_thread, start_in, run_thread,
}

-- What `start_thread` reports of an initialised client, and the thread that it leaves.
abbrev pub HasThread : ℕ → Result → ClientBase → Type 0
HasThread control_freq result c =
    (control_freq ≢ 0)
      × (result ≡ ok)
      × (c.control_thread_started ≡ true)
      × (c.control_thread_running ≡ true)
      × (c.control_freq ≡ control_freq)
    ⊎ (control_freq ≡ 0) × (result ≡ einval)

-- What an initialisation that reaches the transport leaves of the base: its two sizes, and whether
-- it came through. With a frequency of zero the client is initialised and has no thread.
pub record HasSizes (m n control_freq : ℕ) (r : Result × ClientBase) : Type 0 where
  pub state_size : r.1.state_payload_size ≡ m
  pub cmd_size : r.1.cmd_payload_size ≡ n
  pub outcome :
      (r.1.initialized ≡ true) × HasThread control_freq r.0 r.1
      ⊎ (r.1.initialized ≡ false) × (r.0 ≡ eio)

module _ (config : Config) (m n : ℕ) where
  run_thread-HasSizes :
      (started : Bool) (control_freq : ℕ) (c : ClientBase)
      → control_freq ≢ 0
      → c.initialized ≡ true
      → c.state_payload_size ≡ m
      → c.cmd_payload_size ≡ n
      → HasSizes m n control_freq (ok, run_thread started control_freq c)
  run_thread-HasSizes true control_freq c z i e f = record {
    state_size = e;
    cmd_size = f;
    outcome = inl (i, inl (z, refl, refl, refl, refl));
  }
  run_thread-HasSizes false control_freq c z i e f = record {
    state_size = e;
    cmd_size = f;
    outcome = inl (i, inl (z, refl, refl, refl, refl));
  }

  start_in-HasSizes :
      (b z : Bool) (control_freq : ℕ) (c : ClientBase)
      → b ≡ true
      → (control_freq == 0) ≡ z
      → c.initialized ≡ true
      → c.state_payload_size ≡ m
      → c.cmd_payload_size ≡ n
      → HasSizes m n control_freq (start_in b z control_freq c)
  start_in-HasSizes false z control_freq c b at i e f = absurd (grind arith)
  start_in-HasSizes true true control_freq c b at i e f = record {
    state_size = e;
    cmd_size = f;
    outcome = inl (i, inr (ground arith, refl));
  }
  start_in-HasSizes true false control_freq c b at i e f =
      run_thread-HasSizes c.control_thread_started control_freq c (λ q. absurd (ground arith)) i e f

  start_thread-HasSizes :
      (control_freq : ℕ) (c : ClientBase)
      → c.initialized ≡ true
      → c.state_payload_size ≡ m
      → c.cmd_payload_size ≡ n
      → HasSizes m n control_freq (start_thread control_freq c)
  unfolding start_thread
  start_thread-HasSizes control_freq c i e f =
      start_in-HasSizes c.initialized (control_freq == 0) control_freq c i refl i e f

  after_subscriber-HasSizes :
      (s : Option ℕ) (control_freq : ℕ) (c : ClientBase)
      → c.initialized ≡ false
      → c.state_payload_size ≡ m
      → c.cmd_payload_size ≡ n
      → HasSizes m n control_freq (after_subscriber config s control_freq c)
  unfolding after_subscriber
  after_subscriber-HasSizes none control_freq c i e f = record {
    state_size = e;
    cmd_size = f;
    outcome = inr (i, refl);
  }
  after_subscriber-HasSizes (some s) control_freq c i e f =
      start_thread-HasSizes control_freq _ refl e f

  after_publisher-HasSizes :
      (p : Option ℕ) (answers : Answers) (control_freq : ℕ) (c : ClientBase) (t : Transport Unit)
      → c.initialized ≡ false
      → c.state_payload_size ≡ m
      → c.cmd_payload_size ≡ n
      → HasSizes m n control_freq (after_publisher config p answers control_freq c t).0
  unfolding after_publisher
  after_publisher-HasSizes none answers control_freq c t i e f = record {
    state_size = e;
    cmd_size = f;
    outcome = inr (i, refl);
  }
  after_publisher-HasSizes (some p) answers control_freq c t i e f =
      let (s, t', calls) =
        zenbedded_transport_declare_subscriber config.tier config.printer Unit config.sub_topic
          config.cmd_type (some _) answers.declares_subscriber answers.zid t in
      after_subscriber-HasSizes s control_freq (record c { publisher = some p }) i e f

  after_init-HasSizes :
      (opened : Bool) (answers : Answers) (control_freq : ℕ) (c : ClientBase) (t : Transport Unit)
      → c.initialized ≡ false
      → c.state_payload_size ≡ m
      → c.cmd_payload_size ≡ n
      → HasSizes m n control_freq (after_init config opened answers control_freq c t).0
  unfolding after_init
  after_init-HasSizes false answers control_freq c t i e f = record {
    state_size = e;
    cmd_size = f;
    outcome = inr (i, refl);
  }
  after_init-HasSizes true answers control_freq c t i e f =
      let (p, t', calls) =
        zenbedded_transport_declare_publisher config.tier config.printer Unit config.pub_topic
          config.state_type answers.declares_publisher answers.zid answers.gid t in
      after_publisher-HasSizes p answers control_freq c t' i e f

  init_in-HasSizes :
      (b large_state large_cmd : Bool) (answers : Answers) (control_freq : ℕ) (c : ClientBase)
      (t : Transport Unit)
      → b ≡ false
      → large_state ≡ false
      → large_cmd ≡ false
      → c.initialized ≡ false
      → HasSizes m n control_freq
          (init_in config b large_state large_cmd answers control_freq m n c t).0
  unfolding init_in
  init_in-HasSizes true large_state large_cmd answers control_freq c t p q r i =
      absurd (grind arith)
  init_in-HasSizes false true large_cmd answers control_freq c t p q r i = absurd (grind arith)
  init_in-HasSizes false false true answers control_freq c t p q r i = absurd (grind arith)
  init_in-HasSizes false false false answers control_freq c t p q r i =
      let (opened, t', calls) =
        zenbedded_transport_init config.tier config.printer Unit config.reliable config.client
          config.domain_id config.node_name config.zenoh_mode config.zenoh_ip_port answers.opens
          answers.zid t in
      after_init-HasSizes opened answers control_freq
        (record c { state_payload_size = m; cmd_payload_size = n }) t' i refl refl

  pub init_base-HasSizes :
      (answers : Answers) (control_freq : ℕ) (c : ClientBase) (t : Transport Unit)
      → c.initialized ≡ false
      → m ≤ config.max_state_buffer_size
      → n ≤ config.max_cmd_buffer_size
      → HasSizes m n control_freq (init_base config answers control_freq m n c t).0
  unfolding init_base
  init_base-HasSizes answers control_freq c t i h k =
      init_in-HasSizes c.initialized _ _ answers control_freq c t i (ground arith) (ground arith) i
