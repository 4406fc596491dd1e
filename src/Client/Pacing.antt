-- ===== src/Client/Pacing.antt =====
-- zenbedded_rcl/src/zenbedded_client.cpp: the rhythm of the control thread.
use zephyr_zenoh_integration.Prelude.{
  ℕ, suc, ◌+◌, ◌-◌, ◌%◌, ◌^◌, ◌≤◌, ◌≡◌, ◌≢◌, ◌⊎◌, inl, inr, refl, sym, ap, ◌∙◌, subst, Bool, true,
  false, Bool-cases, List, [], ◌∷◌, ◌++◌, some, ◌>>=◌, arith, bind_step, length, length-append, leb,
  if◌then◌else◌,
}
use zephyr_zenoh_integration.Prelude.Bytes.{load-fits}
use zephyr_zenoh_integration.Transport.State.{Transport, Call}
use zephyr_zenoh_integration.Client.Codec.Contract.{StateCodec, CommandCodec}
use zephyr_zenoh_integration.Client.Lifecycle.{Config, Result, enodev, period_ms, sleep_ms}
use zephyr_zenoh_integration.Client.Channels.{
  ZenbeddedClient, zenoh_publish_state, publish_active, published,
}
use zephyr_zenoh_integration.Transport.Kept.{InPool, Kept, publish-Kept}
use zephyr_zenoh_integration.Client.ControlLoop.{Round, control_rounds, control_thread_fn}

abbrev pub AllBetween : ℕ → ℕ → List ℕ → Type 0
AllBetween low high [] = Unit
AllBetween low high (x ∷ xs) = (low ≤ x) × (x ≤ high) × AllBetween low high xs

between_of :
    (period now prev : ℕ)
    → 1 ≤ period
    → (1 ≤ sleep_ms period now prev) × (sleep_ms period now prev ≤ period)
unfolding sleep_ms
between_of period now prev h = by_late _ (Bool-cases (leb period ((now + 2 ^ 32 - prev) % 2 ^ 32)))
  where
    by_late :
        (diff : ℕ)
        → (leb period diff ≡ true) ⊎ (leb period diff ≡ false)
        → (1 ≤ (if leb period diff then 1 else period - diff))
          × ((if leb period diff then 1 else period - diff) ≤ period)
    by_late diff (inl e) = rw e (omega arith, omega arith)
    by_late diff (inr e) = rw e (ground arith, omega arith)

period-between : (f : ℕ) → f ≢ 0 → (1 ≤ period_ms f) × (period_ms f ≤ 1000)
unfolding period_ms
period-between f h = (ground arith, ground arith)

module _ (config : Config) (S : StateCodec) (C : CommandCodec) where
  abbrev Client : Type 0
  Client = ZenbeddedClient S C

  -- A client that the thread can publish from: its active slot holds a payload.
  pub record IsReady (n : ℕ) (c : Client) : Type 0 where
    pub payload : c.base.state_payload_size ≤ length (c.state.content c.state.active)
    pub publisher : InPool n c.base.publisher

  abbrev pub AllReady : ℕ → List (Round config S C) → Type 0
  AllReady n [] = Unit
  AllReady n (r ∷ rs) = IsReady n r.client × AllReady n rs

  -- The rounds before the thread is told to stop.
  abbrev pub rounds_run : List (Round config S C) → ℕ
  rounds_run [] = 0
  rounds_run (r ∷ rs) = if r.running then suc (rounds_run rs) else 0

  published-Kept :
      (n : ℕ) (r : Bool × Transport Unit × List Call) → Kept n r → Kept n (published config S C r)
  published-Kept n (true, t', calls) k = record { pool = k.pool; calls = k.calls }
  published-Kept n (false, t', calls) k = record { pool = k.pool; calls = k.calls }

  zenoh_publish_state-Kept :
      (tv : ℕ × ℕ) (puts : Bool) (c : Client) (t : Transport Unit)
      → IsReady (length t.pub_pool) c
      → (r : Result × Transport Unit × List Call) × (zenoh_publish_state config S C tv puts c t
          ≡ some r)
        × Kept (length t.pub_pool) r
  unfolding zenoh_publish_state publish_active
  zenoh_publish_state-Kept tv puts c t ready = by_init c.base.initialized
    where
      by_init :
          (b : Bool)
          → (r : Result × Transport Unit × List Call) × (publish_active config S C b tv puts c t
              ≡ some r)
            × Kept (length t.pub_pool) r
      by_init false = ((enodev, t, []), refl, record { pool = refl; calls = omega arith })
      by_init true =
          let (r, e, k) =
            publish-Kept config.tier config.printer c.base.publisher _ tv puts t ready.publisher in
          (
            published config S C r,
            bind_step _
                (load-fits 0 c.base.state_payload_size (c.state.content c.state.active)
                  (omega (arith, ready.payload)))
                (bind_step _ e refl),
            published-Kept _ r k,
          )

  -- What `count` rounds of the loop do at this period.
  pub record IsPaced (period count : ℕ) (r : List ℕ × Transport Unit × List Call) : Type 0 where
    pub sleeps : AllBetween 1 period r.0
    pub one_each : length r.0 ≡ count
    pub calls : length r.2 ≤ count

  joined-IsPaced :
      (period count sleep : ℕ) (first more : List Call) (sleeps : List ℕ) (t : Transport Unit)
      → 1 ≤ sleep
      → sleep ≤ period
      → length first ≤ 1
      → IsPaced period count (sleeps, t, more)
      → IsPaced period (suc count) (sleep ∷ sleeps, t, first ++ more)
  joined-IsPaced period count sleep first more sleeps t low high one paced = record {
    sleeps = (low, high, paced.sleeps);
    one_each = ap suc paced.one_each;
    calls = omega (arith, length-append first more, one, paced.calls);
  }

  control_rounds-IsPaced :
      (period prev n : ℕ) (rounds : List (Round config S C)) (t : Transport Unit)
      → 1 ≤ period
      → length t.pub_pool ≡ n
      → AllReady n rounds
      → (r : List ℕ × Transport Unit × List Call) × (control_rounds config S C period prev rounds t
          ≡ some r)
        × IsPaced period (rounds_run rounds) r
  unfolding control_rounds
  control_rounds-IsPaced period prev n [] t h k ready =
      (_, refl, record { sleeps = tt; one_each = refl; calls = omega arith })
  control_rounds-IsPaced period prev n (r ∷ rs) t h k (ready, rest) =
      by_running r.running (λ t' e. control_rounds-IsPaced period r.resumed n rs t' h e rest)
    where
      by_running :
          (b : Bool)
          → ((t' : Transport Unit)
              → length t'.pub_pool ≡ n
              → (r' : List ℕ × Transport Unit × List Call) × (control_rounds config S C period
                    r.resumed rs t'
                  ≡ some r')
                × IsPaced period (rounds_run rs) r')
          → (all : List ℕ × Transport Unit × List Call) × ((if b
                then (do
                  (ret, t', calls) ← zenoh_publish_state config S C r.tv r.puts r.client t
                  (sleeps, t'', more) ← control_rounds config S C period r.resumed rs t'
                  some (sleep_ms period r.now prev ∷ sleeps, t'', calls ++ more))
                else some ([], t, []))
              ≡ some all)
            × IsPaced period (if b then suc (rounds_run rs) else 0) all
      by_running false later =
          (_, refl, record { sleeps = tt; one_each = refl; calls = omega arith })
      by_running true later =
          let ((ret, t', calls), e, kept) =
            zenoh_publish_state-Kept r.tv r.puts r.client t
              (subst (λ (m : ℕ). IsReady m r.client) (sym k) ready) in
          let ((sleeps, t'', more), f, paced) = later t' (kept.pool ∙ k) in
          let between = between_of period r.now prev h in
          (
            _,
            bind_step _ e (bind_step _ f refl),
            joined-IsPaced period (rounds_run rs) _ calls more sleeps t'' between.0 between.1
                kept.calls paced,
          )

  -- At a frequency that is not zero, for any answers of the clocks and of zenoh, and whatever the
  -- other threads do to the client between the rounds, as long as its active slot holds a payload and
  -- its publisher is null or in the pool: the control thread makes no access out of bounds, and in
  -- each round until it is told to stop it makes at most one call of zenoh and sleeps once, for at
  -- least one millisecond and at most its period, which is at least 1 and at most 1000.
  pub control_thread_fn-IsPaced :
      (control_freq prev_time : ℕ) (rounds : List (Round config S C)) (t : Transport Unit)
      → control_freq ≢ 0
      → AllReady (length t.pub_pool) rounds
      → (1 ≤ period_ms control_freq)
        × (period_ms control_freq ≤ 1000)
        × (r : List ℕ × Transport Unit × List Call) × (control_thread_fn config S C control_freq
              prev_time rounds t
            ≡ some r)
        × IsPaced (period_ms control_freq) (rounds_run rounds) r
  unfolding control_thread_fn
  control_thread_fn-IsPaced control_freq prev_time rounds t h ready =
      let (low, high) = period-between control_freq h in
      let (r, e, paced) =
        control_rounds-IsPaced (period_ms control_freq) prev_time _ rounds t low refl ready in
      (low, high, r, e, paced)
