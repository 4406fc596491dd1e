-- ===== src/Transport/World.antt =====
-- zenbedded_transport/src/zenoh_transport.c: what a call does to the zenoh objects, and the
-- loops over the pools.
use mathlib.Core.Option.{some-injective}
use zephyr_zenoh_integration.Prelude.{
  ℕ, zero, suc, ◌≡◌, refl, sym, ap, ◌∙◌, Bool, true, false, ◌&&◌, not, List, [], ◌∷◌, ◌++◌, Option,
  none, some, ◌>>=◌, arith, length, get_elem?, bind_step, append_assoc, length-append,
}
use zephyr_zenoh_integration.Transport.Pool.{PoolSlot, claim, claim_slot, update, flags}
use zephyr_zenoh_integration.Transport.State.{
  Tier, tier_1, tier_2, Printer, Call, z_open, start_tasks, stop_tasks, z_close, declare_node_token,
  undeclare_node_token, declare_publisher, declare_subscriber, undeclare_publisher,
  undeclare_subscriber, declare_pub_token, declare_sub_token, undeclare_pub_token,
  undeclare_sub_token, put, only_tier_1,
}
use zephyr_zenoh_integration.Transport.Session.{release, release_slot}

-- The zenoh objects: the session, and for each slot whether its publisher or subscriber lives.
pub record World : Type 0 where
  pub session : Bool
  pub pubs : List Bool
  pub subs : List Bool

-- Turns on what is off, or off what is on; `none` on anything else.
abbrev pub switch : ℕ → Bool → List Bool → Option (List Bool)
switch i from [] = none
switch zero true (true ∷ bs) = some (false ∷ bs)
switch zero false (false ∷ bs) = some (true ∷ bs)
switch zero true (false ∷ bs) = none
switch zero false (true ∷ bs) = none
switch (suc i) from (b ∷ bs) = switch i from bs >>= λ bs. some (b ∷ bs)

abbrev pub all_off : List Bool → Bool
all_off [] = true
all_off (b ∷ bs) = not b && all_off bs

abbrev pub allow : Bool → World → Option World
allow true w = some w
allow false w = none

abbrev pub opening : Bool → World → Option World
opening false w = some w
opening true w = allow (not w.session) (record w { session = true })

abbrev pub publishers : World → Option (List Bool) → Option World
publishers w bs = bs >>= λ bs. some (record w { pubs = bs })

abbrev pub subscribers : World → Option (List Bool) → Option World
subscribers w bs = bs >>= λ bs. some (record w { subs = bs })

abbrev pub putting : Option Bool → World → Option World
putting none w = none
putting (some live) w = allow live w

-- What a call does to the objects; `none` if it leaks one, undeclares or uses a dead one, declares
-- without a session, or closes the session over a living one.
abbrev pub replay : Call → World → Option World
replay (z_open mode client locator ok) w = opening ok w
replay start_tasks w = allow w.session w
replay stop_tasks w = allow w.session w
replay z_close w =
    allow (w.session && (all_off w.pubs && all_off w.subs)) (record w { session = false })
replay (declare_node_token k) w = allow w.session w
replay undeclare_node_token w = allow w.session w
replay (declare_publisher i k false) w = allow w.session w
replay (declare_publisher i k true) w =
    allow w.session w >>= λ w. publishers w (switch i false w.pubs)
replay (declare_subscriber i k false) w = allow w.session w
replay (declare_subscriber i k true) w =
    allow w.session w >>= λ w. subscribers w (switch i false w.subs)
replay (undeclare_publisher i) w = publishers w (switch i true w.pubs)
replay (undeclare_subscriber i) w = subscribers w (switch i true w.subs)
replay (declare_pub_token i k) w = putting (get_elem? w.pubs i) w
replay (declare_sub_token i k) w = putting (get_elem? w.subs i) w
replay (undeclare_pub_token i) w = putting (get_elem? w.pubs i) w
replay (undeclare_sub_token i) w = putting (get_elem? w.subs i) w
replay (put i payload attachment) w = putting (get_elem? w.pubs i) w

abbrev pub replay_all : List Call → World → Option World
replay_all [] w = some w
replay_all (c ∷ cs) w = replay c w >>= replay_all cs

pub replay_all-append :
    (cs ds : List Call) (w : World) {v : World}
    → replay_all cs w ≡ some v
    → replay_all (cs ++ ds) w ≡ replay_all ds v
replay_all-append [] ds w e = ap (replay_all ds) (some-injective _ _ e)
replay_all-append (c ∷ cs) ds w {v} e = through (replay c w) e (λ u. replay_all-append cs ds u)
  where
    through :
        (m : Option World)
        → (m >>= replay_all cs) ≡ some v
        → ((u : World) → replay_all cs u ≡ some v → replay_all (cs ++ ds) u ≡ replay_all ds v)
        → (m >>= replay_all (cs ++ ds)) ≡ replay_all ds v
    through none e k = absurd (grind arith)
    through (some u) e k = k u e

module _ {A : Type 0} where
  -- What a search has found: a free slot, now marked, and the others as they were.
  abbrev pub Found : List (PoolSlot A) → Option (ℕ × List (PoolSlot A)) → Type 0
  Found ss none = Unit {0}
  Found ss (some (i, rest)) =
      (switch i false (flags ss) ≡ some (flags rest))
      × (get_elem? (flags rest) i ≡ some true)
      × ((f : PoolSlot A → PoolSlot A)
          → ((s : PoolSlot A) → (f s).in_use ≡ false)
          → flags (update i f rest) ≡ flags ss)

  claim_slot-Found :
      (b : Bool) (s : PoolSlot A) (ss : List (PoolSlot A)) (r : Option (ℕ × List (PoolSlot A)))
      → s.in_use ≡ b
      → Found ss r
      → Found (s ∷ ss) (claim_slot b s ss r)
  claim_slot-Found false s ss r e h =
      (rw e refl, refl, λ f off. ap (λ b. b ∷ flags ss) (off _ ∙ sym e))
  claim_slot-Found true s ss none e h = h
  claim_slot-Found true s ss (some (i, rest)) e h =
      (bind_step _ h.0 refl, h.1, λ f off. ap (◌∷◌ s.in_use) (h.2 f off))

  pub claim-Found : (ss : List (PoolSlot A)) → Found ss (claim ss)
  unfolding claim
  claim-Found [] = _
  claim-Found (s ∷ ss) = claim_slot-Found s.in_use s ss (claim ss) refl (claim-Found ss)

  -- A write to a slot that keeps its flag.
  pub flags-update :
      (i : ℕ) (f : PoolSlot A → PoolSlot A) (ss : List (PoolSlot A))
      → ((s : PoolSlot A) → (f s).in_use ≡ s.in_use)
      → flags (update i f ss) ≡ flags ss
  flags-update i f [] h = refl
  flags-update zero f (s ∷ ss) h = ap (λ b. b ∷ flags ss) (h s)
  flags-update (suc i) f (s ∷ ss) h = ap (◌∷◌ s.in_use) (flags-update i f ss h)

-- Turning off the slot behind a list.
switch-append :
    (bs cs : List Bool) → switch (length bs) true (bs ++ true ∷ cs) ≡ some (bs ++ false ∷ cs)
switch-append [] cs = refl
switch-append (b ∷ bs) cs = bind_step _ (switch-append bs cs) refl

get_elem?-append :
    (bs : List Bool) (b : Bool) (cs : List Bool) → get_elem? (bs ++ b ∷ cs) (length bs) ≡ some b
get_elem?-append [] b cs = refl
get_elem?-append (a ∷ bs) b cs = get_elem?-append bs b cs

module _ (undeclare_token undeclare : ℕ → Call) (put_in : List Bool → World)
    (token_lem : (i : ℕ) (bs : List Bool)
      → get_elem? bs i ≡ some true
      → replay (undeclare_token i) (put_in bs) ≡ some (put_in bs))
    (undeclare_lem : (i : ℕ) (bs cs : List Bool)
      → switch i true bs ≡ some cs
      → replay (undeclare i) (put_in bs) ≡ some (put_in cs))
    (tier : Tier) (printer : Printer) (Callback : Type 0) where
  with_token :
      (t : Tier) (i : ℕ) (bs : List Bool) (cs : List Call) {w : World}
      → get_elem? bs i ≡ some true
      → replay_all cs (put_in bs) ≡ some w
      → replay_all (only_tier_1 t (undeclare_token i) cs) (put_in bs) ≡ some w
  with_token tier_1 i bs cs h e = bind_step (replay_all cs) (token_lem i bs h) e
  with_token tier_2 i bs cs h e = e

  module _ {A : Type 0} where
    abbrev slot_result :
        Bool → ℕ → PoolSlot A → List Call × List (PoolSlot A) → List Call × List (PoolSlot A)
    slot_result b i s r = release_slot tier printer Callback b (undeclare_token i) (undeclare i) s r

    release_slot-replay :
        (b : Bool) (done : List Bool) (s : PoolSlot A) (now : List Bool)
        (r : List Call × List (PoolSlot A))
        → s.in_use ≡ b
        → ((c : Bool)
            → replay_all r.0 (put_in (done ++ c ∷ now)) ≡ some (put_in (done ++ c ∷ flags r.1)))
        → replay_all (slot_result b (length done) s r).0 (put_in (done ++ b ∷ now))
          ≡ some (put_in (done ++ flags (slot_result b (length done) s r).1))
    release_slot-replay true done s now (calls, rest) e h =
        with_token tier (length done) (done ++ true ∷ now) _ (get_elem?-append done true now) (
          bind_step (replay_all calls) (undeclare_lem (length done) _ _ (switch-append done now))
            (h false))
    release_slot-replay false done s now (calls, rest) e h =
        h false ∙ ap (λ c. some (put_in (done ++ c ∷ flags rest))) (sym e)

    -- The loop of `destroy` undeclares the objects of the slots in use, and no other.
    pub release-replay :
        (done : List Bool) (ss : List (PoolSlot A)) (i : ℕ)
        → i ≡ length done
        → replay_all
            (release tier printer Callback undeclare_token undeclare i ss).0
            (put_in (done ++ flags ss))
          ≡ some (
              put_in
                (done ++ flags (release tier printer Callback undeclare_token undeclare i ss).1))
    unfolding release
    release-replay done [] i e = refl
    release-replay done (s ∷ ss) i e = rw e (
        release_slot-replay s.in_use done s (flags ss)
          (release tier printer Callback undeclare_token undeclare (suc (length done)) ss) refl
          (λ c.
            ap
              (λ bs.
                replay_all
                  (release tier printer Callback undeclare_token undeclare (suc (length done)) ss).0
                  (put_in bs))
              (sym (append_assoc done (c ∷ []) (flags ss)))
            ∙ release-replay (done ++ c ∷ []) ss (suc (length done))
                (omega (arith, length-append done (c ∷ [])))
            ∙ ap (λ bs. some (put_in bs)) (append_assoc done (c ∷ []) _)))

    release_slot-off :
        (b : Bool) (i : ℕ) (s : PoolSlot A) (r : List Call × List (PoolSlot A))
        → s.in_use ≡ b
        → all_off (flags r.1) ≡ true
        → all_off (flags (slot_result b i s r).1) ≡ true
    release_slot-off true i s (calls, rest) e h = h
    release_slot-off false i s (calls, rest) e h = rw e h

    pub release-off :
        (ss : List (PoolSlot A)) (i : ℕ)
        → all_off (flags (release tier printer Callback undeclare_token undeclare i ss).1) ≡ true
    unfolding release
    release-off [] i = refl
    release-off (s ∷ ss) i = release_slot-off s.in_use i s _ refl (release-off ss (suc i))
