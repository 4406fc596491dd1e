-- ===== src/Transport/Ownership.antt =====
-- zenbedded_transport/src/zenoh_transport.c: each function keeps the flags of the pools
-- at the zenoh objects that live.
use Prim.Native.String.{String}
use mathlib.Core.Path.{ap₂}
use zephyr_zenoh_integration.Prelude.{
  ℕ, ◌≡◌, refl, sym, ap, ◌∙◌, Bool, true, false, List, [], ◌∷◌, ◌++◌, Option, none, some, ◌>>=◌,
  bind_step,
}
use zephyr_zenoh_integration.Prelude.Bytes.{Buffer}
use zephyr_zenoh_integration.Transport.Pool.{PoolSlot, flags}
use zephyr_zenoh_integration.Transport.World.{
  World, all_off, replay, replay_all, replay_all-append, Found, flags-update, publishers,
  subscribers, putting, release-replay, release-off,
}
use zephyr_zenoh_integration.Transport.State.{
  Tier, tier_1, tier_2, Printer, PubBody, SubBody, Call, stop_tasks, z_close, undeclare_node_token,
  undeclare_publisher, undeclare_subscriber, undeclare_pub_token, undeclare_sub_token, Transport,
  node_token, only_tier_1,
}
use zephyr_zenoh_integration.Transport.Session.{init_from, release, destroy_from}
use zephyr_zenoh_integration.Transport.Endpoints.{declare_publisher_in, declare_subscriber_in}

-- The zenoh objects that the state of the transport stands for.
abbrev pub world_of : {Callback : Type 0} → Transport Callback → World
world_of t = record { session = t.is_initialized; pubs = flags t.pub_pool; subs = flags t.sub_pool }

module _ (tier : Tier) (printer : Printer) (Callback : Type 0) where
  abbrev pub at : Bool → Transport Callback → World
  at session t = record { session = session; pubs = flags t.pub_pool; subs = flags t.sub_pool }

  -- The calls take the objects of a state with the given session to those of another state.
  abbrev pub Tracks : Bool → Transport Callback → Transport Callback → List Call → Type 0
  Tracks b t next calls = replay_all calls (at b t) ≡ some (world_of next)

  abbrev pub OfTriple :
      {A : Type 0} → Bool → Transport Callback → A × Transport Callback × List Call → Type 0
  OfTriple b t (answer, next, calls) = Tracks b t next calls

  abbrev pub OfPair : Bool → Transport Callback → Transport Callback × List Call → Type 0
  OfPair b t (next, calls) = Tracks b t next calls

  pub unchanged :
      (b : Bool) (t : Transport Callback) → t.is_initialized ≡ b → some (at b t) ≡ some (world_of t)
  unchanged b t e = ap (λ b. some (at b t)) (sym e)

  node_token-idle :
      (t : Tier) (c : Call) (w : World) (cs : List Call)
      → replay c w ≡ some w
      → replay_all (node_token t c ++ cs) w ≡ replay_all cs w
  node_token-idle tier_1 c w cs e = ap (λ m. m >>= replay_all cs) e
  node_token-idle tier_2 c w cs e = refl

  node_token-only :
      (t : Tier) (c : Call) (w : World)
      → replay c w ≡ some w
      → replay_all (node_token t c) w ≡ some w
  node_token-only tier_1 c w e = ap (λ m. m >>= replay_all []) e
  node_token-only tier_2 c w e = refl

  pub init-Tracks :
      (b opens : Bool) (domain_id : ℕ) (node_name mode : String) (client : Bool)
      (locator : Option String) (zid : Buffer) (t : Transport Callback)
      → t.is_initialized ≡ b
      → OfTriple b t
          (init_from tier printer Callback b domain_id node_name mode client locator opens zid t)
  init-Tracks true opens domain_id node_name mode client locator zid t e = unchanged true t e
  init-Tracks false false domain_id node_name mode client locator zid t e = unchanged false t e
  init-Tracks false true domain_id node_name mode client locator zid t e =
      node_token-only tier _ (at true t) refl

  -- The end of `destroy`: once everything is off, the session is closed.
  close-replay :
      (pubs subs : List Bool)
      → all_off pubs ≡ true
      → all_off subs ≡ true
      → replay_all
          (node_token tier undeclare_node_token ++ stop_tasks ∷ z_close ∷ [])
          (record { session = true; pubs = pubs; subs = subs })
        ≡ some (record { session = false; pubs = pubs; subs = subs })
  close-replay pubs subs p s =
      node_token-idle tier undeclare_node_token
        (record { session = true; pubs = pubs; subs = subs }) (stop_tasks ∷ z_close ∷ []) refl
      ∙ rw (p, s) refl

  pub destroy-Tracks :
      (b : Bool) (t : Transport Callback)
      → t.is_initialized ≡ b
      → OfPair b t (destroy_from tier printer Callback b t)
  unfolding destroy_from
  destroy-Tracks false t e = unchanged false t e
  destroy-Tracks true t e =
      let with_pubs : List Bool → World =
        λ bs. record { session = true; pubs = bs; subs = flags t.sub_pool } in
      let (pub_calls, pubs) =
        release tier printer Callback undeclare_pub_token undeclare_publisher 0 t.pub_pool in
      let with_subs : List Bool → World =
        λ bs. record { session = true; pubs = flags pubs; subs = bs } in
      let (sub_calls, subs) =
        release tier printer Callback undeclare_sub_token undeclare_subscriber 0 t.sub_pool in
      let last = node_token tier undeclare_node_token ++ stop_tasks ∷ z_close ∷ [] in
      replay_all-append pub_calls (sub_calls ++ last) (at true t) (
        release-replay undeclare_pub_token undeclare_publisher with_pubs
          (λ i bs h. ap (λ m. putting m (with_pubs bs)) h)
          (λ i bs cs h. ap (publishers (with_pubs bs)) h) tier printer Callback [] t.pub_pool 0
          refl)
      ∙ replay_all-append sub_calls last (with_subs (flags t.sub_pool)) (
          release-replay undeclare_sub_token undeclare_subscriber with_subs
            (λ i bs h. ap (λ m. putting m (with_subs bs)) h)
            (λ i bs cs h. ap (subscribers (with_subs bs)) h) tier printer Callback [] t.sub_pool 0
            refl)
      ∙ close-replay (flags pubs) (flags subs)
          (release-off undeclare_pub_token undeclare_publisher with_pubs
            (λ i bs h. ap (λ m. putting m (with_pubs bs)) h)
            (λ i bs cs h. ap (publishers (with_pubs bs)) h) tier printer Callback t.pub_pool 0)
          (release-off undeclare_sub_token undeclare_subscriber with_subs
            (λ i bs h. ap (λ m. putting m (with_subs bs)) h)
            (λ i bs cs h. ap (subscribers (with_subs bs)) h) tier printer Callback t.sub_pool 0)

  token_after :
      (t : Tier) (c : Call) (w : World)
      → replay c w ≡ some w
      → replay_all (only_tier_1 t c []) w ≡ some w
  token_after tier_1 c w e = ap (λ m. m >>= replay_all []) e
  token_after tier_2 c w e = refl

  pub declare_publisher_in-Tracks :
      (r : Option (ℕ × List (PoolSlot PubBody))) (topic type_name : String) (declares : Bool)
      (zid gid : Buffer) (t : Transport Callback)
      → t.is_initialized ≡ true
      → Found t.pub_pool r
      → OfTriple true t
          (declare_publisher_in tier printer Callback r topic type_name declares zid gid t)
  declare_publisher_in-Tracks none topic type_name declares zid gid t e h = unchanged true t e
  declare_publisher_in-Tracks (some (i, pool)) topic type_name false zid gid t e h =
      unchanged true t e
      ∙ ap (λ bs. some (record { session = t.is_initialized; pubs = bs; subs = flags t.sub_pool }))
          (sym (h.2 _ (λ s. refl)))
  declare_publisher_in-Tracks (some (i, pool)) topic type_name true zid gid t e h =
      bind_step _ (ap (publishers (at true t)) h.0) (
        token_after tier _ (record { session = true; pubs = flags pool; subs = flags t.sub_pool })
          (ap
            (λ m. putting m (record { session = true; pubs = flags pool; subs = flags t.sub_pool }))
            h.1))
      ∙ ap₂ (λ b bs. some (record { session = b; pubs = bs; subs = flags t.sub_pool })) (sym e)
          (sym (flags-update i _ pool (λ s. refl)))

  pub declare_subscriber_in-Tracks :
      (r : Option (ℕ × List (PoolSlot (SubBody Callback)))) (topic type_name : String)
      (callback : Option Callback) (declares : Bool) (zid : Buffer) (t : Transport Callback)
      → t.is_initialized ≡ true
      → Found t.sub_pool r
      → OfTriple true t
          (declare_subscriber_in tier printer Callback r topic type_name callback declares zid t)
  declare_subscriber_in-Tracks none topic type_name callback declares zid t e h = unchanged true t e
  declare_subscriber_in-Tracks (some (i, pool)) topic type_name callback false zid t e h =
      unchanged true t e
      ∙ ap (λ bs. some (record { session = t.is_initialized; pubs = flags t.pub_pool; subs = bs }))
          (sym (h.2 _ (λ s. refl)))
  declare_subscriber_in-Tracks (some (i, pool)) topic type_name callback true zid t e h =
      bind_step _ (ap (subscribers (at true t)) h.0) (
        token_after tier _ (record { session = true; pubs = flags t.pub_pool; subs = flags pool })
          (ap
            (λ m. putting m (record { session = true; pubs = flags t.pub_pool; subs = flags pool }))
            h.1))
      ∙ ap₂ (λ b bs. some (record { session = b; pubs = flags t.pub_pool; subs = bs })) (sym e)
          (sym (flags-update i _ pool (λ s. refl)))
