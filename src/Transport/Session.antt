-- ===== src/Transport/Session.antt =====
-- zenbedded_transport/src/zenoh_transport.c: zenbedded_transport_init and _destroy. What zenoh-pico
-- answers is an argument; the calls that the code makes are values.
use Prim.Native.String.{String, slice}
use zephyr_zenoh_integration.Prelude.{ℕ, suc, Bool, true, false, List, [], ◌∷◌, ◌++◌, Option}
use zephyr_zenoh_integration.Prelude.Bytes.{Buffer}
use zephyr_zenoh_integration.Transport.Pool.{PoolSlot, set_body}
use zephyr_zenoh_integration.Transport.State.{
  Tier, Printer, Call, z_open, start_tasks, stop_tasks, z_close, declare_node_token,
  undeclare_node_token, undeclare_publisher, undeclare_subscriber, undeclare_pub_token,
  undeclare_sub_token, Transport, node_key, full_locator, node_token, only_tier_1,
}

module _ (tier : Tier) (printer : Printer) (Callback : Type 0) where
  -- What follows `z_open`, by whether it succeeded. `strncpy` keeps 63 bytes of the name.
  abbrev pub after_open :
      Bool
      → Buffer
      → String
      → Bool
      → Option String
      → Transport Callback
      → Bool × Transport Callback × List Call
  after_open false zid mode client locator t = (false, t, z_open mode client locator false ∷ [])
  after_open true zid mode client locator t = (
    true,
    record t { is_initialized = true },
    z_open mode client locator true
        ∷ start_tasks
        ∷ node_token tier
            (declare_node_token (node_key printer t.current_domain_id zid t.current_node_name)),
  )

  -- `opens` and `zid` are the answers of zenoh; the first result is true for 0 and false for -1.
  abbrev pub init_from :
      Bool
      → ℕ
      → String
      → String
      → Bool
      → Option String
      → Bool
      → Buffer
      → Transport Callback
      → Bool × Transport Callback × List Call
  init_from true domain_id node_name mode client locator opens zid t = (true, t, [])
  init_from false domain_id node_name mode client locator opens zid t =
      after_open opens zid mode client locator
        (record t { current_domain_id = domain_id; current_node_name = slice node_name 0 63 })

  unfoldable pub zenbedded_transport_init :
      (reliable client : Bool)
      → ℕ
      → String
      → String
      → Option String
      → Bool
      → Buffer
      → Transport Callback
      → Bool × Transport Callback × List Call
  zenbedded_transport_init reliable client domain_id node_name mode locator opens zid t =
      init_from t.is_initialized domain_id node_name mode client (full_locator reliable locator)
        opens zid t

  abbrev pub release_slot :
      {A : Type 0}
      → Bool
      → Call
      → Call
      → PoolSlot A
      → List Call × List (PoolSlot A)
      → List Call × List (PoolSlot A)
  release_slot true undeclare_token undeclare s (calls, rest) =
      (only_tier_1 tier undeclare_token (undeclare ∷ calls), set_body false s.body ∷ rest)
  release_slot false undeclare_token undeclare s (calls, rest) = (calls, s ∷ rest)

  -- The two loops of `zenbedded_transport_destroy` from slot `i`.
  unfoldable pub release :
      {A : Type 0} → (ℕ → Call) → (ℕ → Call) → ℕ → List (PoolSlot A) → List Call × List (PoolSlot A)
  release undeclare_token undeclare i [] = ([], [])
  release undeclare_token undeclare i (s ∷ ss) =
      release_slot s.in_use (undeclare_token i) (undeclare i) s
        (release undeclare_token undeclare (suc i) ss)

  unfoldable pub destroy_from : Bool → Transport Callback → Transport Callback × List Call
  unfolding release
  destroy_from false t = (t, [])
  destroy_from true t =
      let (pub_calls, pubs) = release undeclare_pub_token undeclare_publisher 0 t.pub_pool in
      let (sub_calls, subs) = release undeclare_sub_token undeclare_subscriber 0 t.sub_pool in
      (
        record t { pub_pool = pubs; sub_pool = subs; is_initialized = false },
        pub_calls
            ++ (sub_calls ++ (node_token tier undeclare_node_token ++ stop_tasks ∷ z_close ∷ [])),
      )

  unfoldable pub zenbedded_transport_destroy : Transport Callback → Transport Callback × List Call
  unfolding destroy_from
  zenbedded_transport_destroy t = destroy_from t.is_initialized t
