-- ===== src/Transport/Refinement.antt =====
-- zenbedded_transport/src/zenoh_transport.c: any sequence of operations keeps the flags of
-- the pools at the zenoh objects that live.
use Prim.Native.String.{String}
use mathlib.Core.Option.{some-injective}
use zephyr_zenoh_integration.Prelude.{
  ℕ, zero, suc, ◌≡◌, refl, sym, ap, ◌∙◌, subst, Bool, true, false, List, [], ◌∷◌, ◌++◌, Option,
  none, some, ◌>>=◌, arith, get_elem?, if◌then◌else◌,
}
use zephyr_zenoh_integration.Prelude.Bytes.{Buffer}
use zephyr_zenoh_integration.Transport.Pool.{PoolSlot, claim, flags}
use zephyr_zenoh_integration.Transport.World.{
  replay_all, replay_all-append, claim-Found, flags-update, putting,
}
use zephyr_zenoh_integration.Transport.State.{
  Tier, tier_1, tier_2, Printer, PubBody, Call, Transport, full_locator, clean,
}
use zephyr_zenoh_integration.Transport.Session.{
  zenbedded_transport_init, zenbedded_transport_destroy,
}
use zephyr_zenoh_integration.Transport.Endpoints.{
  declare_publisher_from, zenbedded_transport_declare_publisher, put_from, publish_in,
  zenbedded_transport_publish, declare_subscriber_from, zenbedded_transport_declare_subscriber,
}
use zephyr_zenoh_integration.Transport.Ownership.{
  world_of, OfTriple, unchanged, init-Tracks, destroy-Tracks, declare_publisher_in-Tracks,
  declare_subscriber_in-Tracks,
}

-- The operations, each with what zenoh, the clock and the random source answer.
pub data Operation (Callback : Type 0) : Type 0 where
  init :
      (reliable client : Bool)
      → ℕ
      → String
      → String
      → Option String
      → Bool
      → Buffer
      → Operation Callback
  destroy : Operation Callback
  open_publisher : String → String → Bool → Buffer → Buffer → Operation Callback
  open_subscriber : String → String → Option Callback → Bool → Buffer → Operation Callback
  publish : Option ℕ → Buffer → ℕ × ℕ → Bool → Operation Callback

module _ (tier : Tier) (printer : Printer) (Callback : Type 0) where
  unfoldable pub perform :
      Operation Callback → Transport Callback → Option (Transport Callback × List Call)
  unfolding zenbedded_transport_init zenbedded_transport_destroy
      zenbedded_transport_declare_publisher zenbedded_transport_declare_subscriber
      zenbedded_transport_publish
  perform (init reliable client domain_id node_name mode locator opens zid) t =
      let r =
        zenbedded_transport_init tier printer Callback reliable client domain_id node_name mode
          locator opens zid t in
      some (r.1, r.2)
  perform destroy t = some (zenbedded_transport_destroy tier printer Callback t)
  perform (open_publisher topic_name type_name declares zid gid) t =
      let r =
        zenbedded_transport_declare_publisher tier printer Callback topic_name type_name declares
          zid gid t in
      some (r.1, r.2)
  perform (open_subscriber topic_name type_name callback declares zid) t =
      let r =
        zenbedded_transport_declare_subscriber tier printer Callback topic_name type_name callback
          declares zid t in
      some (r.1, r.2)
  perform (publish pointer payload tv puts) t =
      zenbedded_transport_publish tier printer Callback pointer payload tv puts t >>= λ r.
      some (r.1, r.2)

  unfoldable pub perform_all :
      List (Operation Callback) → Transport Callback → Option (Transport Callback × List Call)
  unfolding perform
  perform_all [] t = some (t, [])
  perform_all (o ∷ os) t = do
    (next, calls) ← perform o t
    (last, more) ← perform_all os next
    some (last, calls ++ more)

  abbrev Follows : Transport Callback → Transport Callback × List Call → Type 0
  Follows t r = replay_all r.1 (world_of t) ≡ some (world_of r.0)

  open_publisher-Tracks :
      (b : Bool) (topic_name type_name : String) (declares : Bool) (zid gid : Buffer)
      (t : Transport Callback)
      → t.is_initialized ≡ b
      → OfTriple tier printer Callback b t
          (declare_publisher_from tier printer Callback b topic_name type_name declares zid gid t)
  open_publisher-Tracks false topic_name type_name declares zid gid t e =
      unchanged tier printer Callback false t e
  open_publisher-Tracks true topic_name type_name declares zid gid t e =
      declare_publisher_in-Tracks tier printer Callback (claim t.pub_pool) (clean topic_name)
        type_name declares zid gid t e (claim-Found t.pub_pool)

  open_subscriber-Tracks :
      (b : Bool) (topic_name type_name : String) (callback : Option Callback) (declares : Bool)
      (zid : Buffer) (t : Transport Callback)
      → t.is_initialized ≡ b
      → OfTriple tier printer Callback b t (
          declare_subscriber_from tier printer Callback b topic_name type_name callback declares zid
            t)
  open_subscriber-Tracks false topic_name type_name callback declares zid t e =
      unchanged tier printer Callback false t e
  open_subscriber-Tracks true topic_name type_name callback declares zid t e =
      declare_subscriber_in-Tracks tier printer Callback (claim t.sub_pool) (clean topic_name)
        type_name callback declares zid t e (claim-Found t.sub_pool)

  flag_at :
      {A : Type 0} (ss : List (PoolSlot A)) (i : ℕ) (s : PoolSlot A)
      → get_elem? ss i ≡ some s
      → get_elem? (flags ss) i ≡ some s.in_use
  flag_at [] i s h = absurd (grind arith)
  flag_at (x ∷ ss) zero s h = ap (λ x. some x.in_use) (some-injective _ _ h)
  flag_at (x ∷ ss) (suc i) s h = flag_at ss i s h

  put_from-Tracks :
      (k : Tier) (i : ℕ) (s : PoolSlot PubBody) (payload : Buffer) (tv : ℕ × ℕ) (puts : Bool)
      (t : Transport Callback)
      → get_elem? (flags t.pub_pool) i ≡ some true
      → (let r = put_from tier printer Callback k i s payload tv puts t in Follows t (r.1, r.2))
  put_from-Tracks tier_1 i s payload (tv_sec, tv_nsec) puts t h =
      ap (λ m. putting m (world_of t) >>= replay_all []) h
      ∙ ap (λ bs. some (record { session = t.is_initialized; pubs = bs; subs = flags t.sub_pool }))
          (sym (flags-update i _ t.pub_pool (λ s. refl)))
  put_from-Tracks tier_2 i s payload tv puts t h =
      ap (λ m. putting m (world_of t) >>= replay_all []) h

  put_guarded-Tracks :
      (b : Bool) (i : ℕ) (s : PoolSlot PubBody) (payload : Buffer) (tv : ℕ × ℕ) (puts : Bool)
      (t : Transport Callback)
      → get_elem? (flags t.pub_pool) i ≡ some b
      → (let r =
            if b
            then put_from tier printer Callback tier i s payload tv puts t
            else (false, t, []) in
          Follows t (r.1, r.2))
  put_guarded-Tracks true i s payload tv puts t h = put_from-Tracks tier i s payload tv puts t h
  put_guarded-Tracks false i s payload tv puts t h = refl

  publish_in-Follows :
      (m : Option (PoolSlot PubBody)) (i : ℕ) (payload : Buffer) (tv : ℕ × ℕ) (puts : Bool)
      (t : Transport Callback) (r : Transport Callback × List Call)
      → get_elem? t.pub_pool i ≡ m
      → (publish_in tier printer Callback m i payload tv puts t >>= λ r. some (r.1, r.2)) ≡ some r
      → Follows t r
  publish_in-Follows none i payload tv puts t r e h = absurd (grind arith)
  publish_in-Follows (some s) i payload tv puts t r e h =
      subst (Follows t) (some-injective _ _ h)
        (put_guarded-Tracks s.in_use i s payload tv puts t (flag_at t.pub_pool i s e))

  perform-Follows :
      (o : Operation Callback) (t : Transport Callback) (r : Transport Callback × List Call)
      → perform o t ≡ some r
      → Follows t r
  unfolding perform zenbedded_transport_init zenbedded_transport_destroy
      zenbedded_transport_declare_publisher zenbedded_transport_declare_subscriber
      zenbedded_transport_publish
  perform-Follows (init reliable client domain_id node_name mode locator opens zid) t r h =
      subst (Follows t) (some-injective _ _ h) (
        init-Tracks tier printer Callback t.is_initialized opens domain_id node_name mode client
          (full_locator reliable locator) zid t refl)
  perform-Follows destroy t r h =
      subst (Follows t) (some-injective _ _ h)
        (destroy-Tracks tier printer Callback t.is_initialized t refl)
  perform-Follows (open_publisher topic_name type_name declares zid gid) t r h =
      subst (Follows t) (some-injective _ _ h)
        (open_publisher-Tracks t.is_initialized topic_name type_name declares zid gid t refl)
  perform-Follows (open_subscriber topic_name type_name callback declares zid) t r h =
      subst (Follows t) (some-injective _ _ h)
        (open_subscriber-Tracks t.is_initialized topic_name type_name callback declares zid t refl)
  perform-Follows (publish none payload tv puts) t r h =
      subst (Follows t) (some-injective _ _ h) refl
  perform-Follows (publish (some i) payload tv puts) t r h =
      publish_in-Follows (get_elem? t.pub_pool i) i payload tv puts t r refl h

  -- A chain of two computations that has a result.
  bind-eq-some :
      {A B : Type 0} (m : Option A) (f : A → Option B) (b : B)
      → (m >>= f) ≡ some b
      → (a : A) × (m ≡ some a) × (f a ≡ some b)
  bind-eq-some none f b h = absurd (grind arith)
  bind-eq-some (some a) f b h = (a, refl, h)

  -- For any sequence of initialisations, destructions, declarations and publications, whatever zenoh
  -- answers to each, in which every published pointer is null or points into the pool, from any state:
  -- the calls into zenoh-pico take the living objects (the session, one publisher or subscriber for
  -- each slot in use) of the first state to those of the last. So no call leaks an object, undeclares
  -- or uses a dead one or declares without a session, and the session is closed only when every
  -- publisher and subscriber has been undeclared.
  pub perform_all-replay :
      (os : List (Operation Callback)) (t last : Transport Callback) (calls : List Call)
      → perform_all os t ≡ some (last, calls)
      → replay_all calls (world_of t) ≡ some (world_of last)
  unfolding perform_all
  perform_all-replay [] t last calls h =
      let e = some-injective _ _ h in
      ap (λ (r : Transport Callback × List Call). replay_all r.1 (world_of t)) (sym e)
      ∙ ap (λ (r : Transport Callback × List Call). some (world_of r.0)) e
  perform_all-replay (o ∷ os) t last calls h =
      let ((next, cs), first, more) = bind-eq-some (perform o t) _ _ h in
      let ((end, ds), second, result) = bind-eq-some (perform_all os next) _ _ more in
      let e = some-injective _ _ result in
      ap (λ (r : Transport Callback × List Call). replay_all r.1 (world_of t)) (sym e)
      ∙ replay_all-append cs ds (world_of t) (perform-Follows o t (next, cs) first)
      ∙ perform_all-replay os next end ds second
      ∙ ap (λ (r : Transport Callback × List Call). some (world_of r.0)) e
