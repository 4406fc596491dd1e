-- ===== src/Client/Soundness.antt =====
-- zenbedded_rcl/src/zenbedded_client.cpp: what the life cycle keeps of the client.
use zephyr_zenoh_integration.Prelude.{
  ℕ, ◌≤◌, ◌≡◌, ◌≢◌, refl, Bool, true, false, List, [], ◌∷◌, Option, none, some, arith, ltb, ◌==◌,
}
use zephyr_zenoh_integration.Transport.State.{Transport}
use zephyr_zenoh_integration.Transport.Session.{zenbedded_transport_init}
use zephyr_zenoh_integration.Transport.Endpoints.{
  zenbedded_transport_declare_publisher, zenbedded_transport_declare_subscriber,
}
use zephyr_zenoh_integration.Client.Lifecycle.{
  Config, Answers, ClientBase, stop_in, stop_thread, run_thread, start_in, start_thread,
  after_subscriber, after_publisher, after_init, init_in, init_base, destroy_in, destroy,
  ClientOperation, initialize, start, stop, destroy_all, run_client,
}

module _ (config : Config) where
  -- An initialised client has both pointers, and payloads that fit its buffers.
  abbrev pub Connected : Bool → ℕ → ℕ → Option ℕ → Option ℕ → Type 0
  Connected false state_size cmd_size publisher subscriber = Unit
  Connected true state_size cmd_size publisher subscriber =
      (state_size ≤ config.max_state_buffer_size)
      × (cmd_size ≤ config.max_cmd_buffer_size)
      × ((p : ℕ) × (publisher ≡ some p))
      × ((s : ℕ) × (subscriber ≡ some s))

  -- A started thread runs at a frequency that is not zero, in an initialised client.
  abbrev pub Threaded : Bool → Bool → Bool → ℕ → Type 0
  Threaded false initialized running control_freq = Unit
  Threaded true initialized running control_freq =
      (initialized ≡ true) × (running ≡ true) × (control_freq ≢ 0)

  pub record IsSound (c : ClientBase) : Type 0 where
    pub connected :
        Connected c.initialized c.state_payload_size c.cmd_payload_size c.publisher c.subscriber
    pub threaded :
        Threaded c.control_thread_started c.initialized c.control_thread_running c.control_freq

  run_thread-IsSound :
      (started : Bool) (control_freq : ℕ) (c : ClientBase)
      → c.initialized ≡ true
      → control_freq ≢ 0
      → Connected c.initialized c.state_payload_size c.cmd_payload_size c.publisher c.subscriber
      → IsSound (run_thread started control_freq c)
  run_thread-IsSound false control_freq c i z h = record { connected = h; threaded = (i, refl, z) }
  run_thread-IsSound true control_freq c i z h = record { connected = h; threaded = (i, refl, z) }

  start_in-IsSound :
      (b z : Bool) (control_freq : ℕ) (c : ClientBase)
      → c.initialized ≡ b
      → (control_freq == 0) ≡ z
      → IsSound c
      → IsSound (start_in b z control_freq c).1
  start_in-IsSound false z control_freq c i e h = h
  start_in-IsSound true true control_freq c i e h = h
  start_in-IsSound true false control_freq c i e h =
      run_thread-IsSound c.control_thread_started control_freq c i (λ q. absurd (ground arith))
        h.connected

  start_thread-IsSound :
      (control_freq : ℕ) (c : ClientBase) → IsSound c → IsSound (start_thread control_freq c).1
  unfolding start_thread
  start_thread-IsSound control_freq c h =
      start_in-IsSound c.initialized (control_freq == 0) control_freq c refl refl h

  stop_in-IsSound : (b : Bool) (c : ClientBase) → IsSound c → IsSound (stop_in b c)
  stop_in-IsSound false c h = h
  stop_in-IsSound true c h = record { connected = h.connected; threaded = _ }

  Connected-false : (b : Bool) (m n : ℕ) (p s : Option ℕ) → b ≡ false → Connected b m n p s
  Connected-false false m n p s e = _
  Connected-false true m n p s e = absurd (grind arith)

  Threaded-stopped :
      (b i r : Bool) (f : ℕ)
      → i ≡ false
      → Threaded b i r f
      → (i' r' : Bool) (f' : ℕ) → Threaded b i' r' f'
  Threaded-stopped false i r f e h i' r' f' = _
  Threaded-stopped true i r f e h i' r' f' = let both = h.0 in absurd (grind arith)

  after_subscriber-IsSound :
      (s : Option ℕ) (p control_freq : ℕ) (c : ClientBase)
      → c.initialized ≡ false
      → c.publisher ≡ some p
      → c.state_payload_size ≤ config.max_state_buffer_size
      → c.cmd_payload_size ≤ config.max_cmd_buffer_size
      → IsSound c
      → IsSound (after_subscriber config s control_freq c).1
  unfolding after_subscriber
  after_subscriber-IsSound none p control_freq c i q m n h = record {
    connected = Connected-false c.initialized _ _ _ _ i;
    threaded = h.threaded;
  }
  after_subscriber-IsSound (some s) p control_freq c i q m n h =
      start_thread-IsSound control_freq
        (record c { subscriber = some s; initialized = true; control_freq = control_freq })
        (record {
          connected = (m, n, (p, q), (s, refl));
          threaded =
              Threaded-stopped c.control_thread_started c.initialized c.control_thread_running
                c.control_freq i h.threaded _ _ _;
        })

  after_publisher-IsSound :
      (p : Option ℕ) (answers : Answers) (control_freq : ℕ) (c : ClientBase) (t : Transport Unit)
      → c.initialized ≡ false
      → c.state_payload_size ≤ config.max_state_buffer_size
      → c.cmd_payload_size ≤ config.max_cmd_buffer_size
      → IsSound c
      → IsSound (after_publisher config p answers control_freq c t).0.1
  unfolding after_publisher
  after_publisher-IsSound none answers control_freq c t i m n h = record {
    connected = Connected-false c.initialized _ _ _ _ i;
    threaded = h.threaded;
  }
  after_publisher-IsSound (some p) answers control_freq c t i m n h =
      let (s, t', calls) =
        zenbedded_transport_declare_subscriber config.tier config.printer Unit config.sub_topic
          config.cmd_type (some _) answers.declares_subscriber answers.zid t in
      after_subscriber-IsSound s p control_freq (record c { publisher = some p }) i refl m n
        (record { connected = Connected-false c.initialized _ _ _ _ i; threaded = h.threaded })

  after_init-IsSound :
      (opened : Bool) (answers : Answers) (control_freq : ℕ) (c : ClientBase) (t : Transport Unit)
      → c.initialized ≡ false
      → c.state_payload_size ≤ config.max_state_buffer_size
      → c.cmd_payload_size ≤ config.max_cmd_buffer_size
      → IsSound c
      → IsSound (after_init config opened answers control_freq c t).0.1
  unfolding after_init
  after_init-IsSound false answers control_freq c t i m n h = h
  after_init-IsSound true answers control_freq c t i m n h =
      let (p, t', calls) =
        zenbedded_transport_declare_publisher config.tier config.printer Unit config.pub_topic
          config.state_type answers.declares_publisher answers.zid answers.gid t in
      after_publisher-IsSound p answers control_freq c t' i m n h

  init_in-IsSound :
      (b large_state large_cmd : Bool) (answers : Answers) (control_freq state_size cmd_size : ℕ)
      (c : ClientBase) (t : Transport Unit)
      → c.initialized ≡ b
      → ltb config.max_state_buffer_size state_size ≡ large_state
      → ltb config.max_cmd_buffer_size cmd_size ≡ large_cmd
      → IsSound c
      → IsSound
          (init_in config b large_state large_cmd answers control_freq state_size cmd_size c t).0.1
  unfolding init_in
  init_in-IsSound true large_state large_cmd answers control_freq m n c t i p q h = h
  init_in-IsSound false true large_cmd answers control_freq m n c t i p q h = record {
    connected = Connected-false c.initialized _ _ _ _ i;
    threaded = h.threaded;
  }
  init_in-IsSound false false true answers control_freq m n c t i p q h = record {
    connected = Connected-false c.initialized _ _ _ _ i;
    threaded = h.threaded;
  }
  init_in-IsSound false false false answers control_freq m n c t i p q h =
      let (opened, t', calls) =
        zenbedded_transport_init config.tier config.printer Unit config.reliable config.client
          config.domain_id config.node_name config.zenoh_mode config.zenoh_ip_port answers.opens
          answers.zid t in
      after_init-IsSound opened answers control_freq
        (record c { state_payload_size = m; cmd_payload_size = n }) t' i (ground arith)
        (ground arith)
        (record { connected = Connected-false c.initialized _ _ _ _ i; threaded = h.threaded })

  destroy_in-IsSound :
      (b started : Bool) (c : ClientBase) (t : Transport Unit)
      → c.control_thread_started ≡ started
      → IsSound c
      → IsSound (destroy_in config b c t).0
  unfolding destroy_in stop_thread
  destroy_in-IsSound false started c t e h = h
  destroy_in-IsSound true false c t e h = rw e (record { connected = _; threaded = _ })
  destroy_in-IsSound true true c t e h = rw e (record { connected = _; threaded = _ })

  -- Whatever the transport answers: any sequence of initialisations, thread starts and stops and
  -- destructions, at any sizes and frequencies, keeps the client sound. If it is initialised, its
  -- payload sizes fit the buffers and its publisher and subscriber are not null; if its control thread
  -- has been started, it is initialised, the thread runs, and its frequency is not zero.
  pub run_client-IsSound :
      (os : List ClientOperation) (c : ClientBase) (t : Transport Unit)
      → IsSound c
      → IsSound (run_client config os c t).0
  unfolding run_client init_base destroy stop_thread
  run_client-IsSound [] c t h = h
  run_client-IsSound (initialize answers control_freq m n ∷ os) c t h =
      let ((result, c'), t') = init_base config answers control_freq m n c t in
      run_client-IsSound os c' t'
        (init_in-IsSound c.initialized _ _ answers control_freq m n c t refl refl refl h)
  run_client-IsSound (start control_freq ∷ os) c t h =
      run_client-IsSound os _ t (start_thread-IsSound control_freq c h)
  run_client-IsSound (stop ∷ os) c t h =
      run_client-IsSound os _ t (stop_in-IsSound c.control_thread_started c h)
  run_client-IsSound (destroy_all ∷ os) c t h =
      let (c', t') = destroy config c t in
      run_client-IsSound os c' t'
        (destroy_in-IsSound c.initialized c.control_thread_started c t refl h)
