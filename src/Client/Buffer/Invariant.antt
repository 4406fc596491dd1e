-- ===== src/Client/Buffer/Invariant.antt =====
-- zenbedded_rcl/src/zenbedded_client.cpp: what holds of a double buffer in every interleaving.
use zephyr_zenoh_integration.Prelude.{
  ℕ, ◌+◌, ◌^◌, ◌≤◌, ◌<◌, ◌≡◌, refl, sym, ◌∙◌, subst, ◌⊎◌, inl, inr, Bool, true, false, arith, u32,
}
use zephyr_zenoh_integration.Client.Buffer.Slots.{Slot, other, same, Content}
use zephyr_zenoh_integration.Client.Buffer.Steps.{
  Writer, resting, storing, stored, versioned, switched, Ghost, Mark, Reader, away, chosen, copying,
  copied, unmoved, finished, System, initial,
}

-- The slot is being written, and the write is not committed.
abbrev pub is_busy : Writer → Slot → Bool
is_busy (storing i stores) j = same i j
is_busy (stored i) j = same i j
is_busy _ j = false

-- The writer works on the slot that is not active; a write that is switched to is not yet counted.
abbrev pub Aside : Writer → Slot → Ghost → Type 0
Aside (storing i stores) active g = i ≡ other active
Aside (stored i) active g = i ≡ other active
Aside (versioned i) active g = (i ≡ other active) × (g.number i ≡ g.latest + 1)
Aside switched active g = g.counted < g.latest
Aside resting active g = Unit {0}

-- The first `k` bytes of the copy are those of a write.
abbrev pub Agrees : ℕ → Content → Content → Type 0
Agrees k m n = (j : ℕ) → j < k → m j ≡ n j

-- What the reader knows while it copies from slot `i`.
pub record Honest (w : Writer) (g : Ghost) (i : Slot) (r : Mark) (k : ℕ) (m : Content)
    : Type 0 where
  pub fresh : r.since ≤ r.number
  pub seen : r.commits ≤ g.commits i
  pub held : g.commits i ≡ r.commits → g.number i ≡ r.number
  pub same_bytes : g.commits i ≡ r.commits → (is_busy w i ≡ true) ⊎ Agrees k m (g.history r.number)

pub record Settled (g : Ghost) (i : Slot) (r : Mark) (k : ℕ) (m : Content) : Type 0 where
  pub fresh : r.since ≤ r.number
  pub seen : r.commits ≤ g.commits i
  pub past : g.commits i ≡ r.commits → r.number ≤ g.latest
  pub same_bytes : g.commits i ≡ r.commits → Agrees k m (g.history r.number)

abbrev pub Truthful : ℕ → Writer → Ghost → Reader → Type 0
Truthful size w g away = Unit {0}
Truthful size w g (chosen i since) = (since ≤ g.latest) × (since ≤ g.number i)
Truthful size w g (copying i ver r k m) = (ver ≡ u32 r.commits) × Honest w g i r k m
Truthful size w g (copied i ver r m) = (ver ≡ u32 r.commits) × Honest w g i r size m
Truthful size w g (unmoved i ver r m) = (ver ≡ u32 r.commits) × Settled g i r size m
Truthful size w g (finished success r laps m) =
    success ≡ true
    → laps < 2 ^ 32
    → (r.since ≤ r.number) × (r.number ≤ g.latest) × Agrees size m (g.history r.number)

pub record Inv (size : ℕ) (s : System) : Type 0 where
  pub newest : s.ghost.number s.memory.active ≡ s.ghost.latest
  pub aside : Aside s.writer s.memory.active s.ghost
  pub kept :
      (i : Slot)
      → is_busy s.writer i ≡ false
      → (k : ℕ) → s.memory.content i k ≡ s.ghost.history (s.ghost.number i) k
  pub wrapped : (i : Slot) → s.memory.version i ≡ u32 (s.ghost.commits i)
  pub counts : (s.memory.accepted ≡ u32 s.ghost.counted) × (s.ghost.counted ≤ s.ghost.latest)
  pub truthful : Truthful size s.writer s.ghost s.reader

-- What a step of the writer does to all that the reader may rely on.
pub record Evolves (w : Writer) (g : Ghost) (w' : Writer) (g' : Ghost) : Type 0 where
  pub latest_le : g.latest ≤ g'.latest
  pub past : (n k : ℕ) → n ≤ g.latest → g'.history n k ≡ g.history n k
  pub commits_le : (i : Slot) → g.commits i ≤ g'.commits i
  pub number_le : (i : Slot) → (g.number i ≤ g'.number i) ⊎ (g.latest ≤ g'.number i)
  pub number_same : (i : Slot) → g'.commits i ≡ g.commits i → g'.number i ≡ g.number i
  pub busy_same : (i : Slot) → g'.commits i ≡ g.commits i → is_busy w i ≡ true → is_busy w' i ≡ true
  pub history_same :
      (i : Slot)
      → g'.commits i ≡ g.commits i
      → (k : ℕ) → g'.history (g.number i) k ≡ g.history (g.number i) k

module _ {w w' : Writer} {g g' : Ghost} (ev : Evolves w g w' g') where
  open ev use {latest_le, past, commits_le, number_le, number_same, busy_same, history_same}

  Honest-Evolves :
      (i : Slot) (r : Mark) (k : ℕ) (m : Content) → Honest w g i r k m → Honest w' g' i r k m
  Honest-Evolves i r k m h = record {
    fresh = h.fresh;
    seen = omega (arith, h.seen, commits_le i);
    held = λ e. number_same i (steady e) ∙ h.held (before e);
    same_bytes = λ e. bytes e (h.same_bytes (before e));
  }
    where
      before : g'.commits i ≡ r.commits → g.commits i ≡ r.commits
      before e = omega (arith, h.seen, commits_le i)

      steady : g'.commits i ≡ r.commits → g'.commits i ≡ g.commits i
      steady e = omega (arith, h.seen, commits_le i)

      bytes :
          g'.commits i ≡ r.commits
          → (is_busy w i ≡ true) ⊎ Agrees k m (g.history r.number)
          → (is_busy w' i ≡ true) ⊎ Agrees k m (g'.history r.number)
      bytes e (inl b) = inl (busy_same i (steady e) b)
      bytes e (inr a) = inr λ j lt.
          a j lt
          ∙ sym (
              subst (λ (n : ℕ). g'.history n j ≡ g.history n j) (h.held (before e))
                (history_same i (steady e) j))

  Settled-Evolves :
      (i : Slot) (r : Mark) (k : ℕ) (m : Content) → Settled g i r k m → Settled g' i r k m
  Settled-Evolves i r k m h = record {
    fresh = h.fresh;
    seen = omega (arith, h.seen, commits_le i);
    past = λ e. omega (arith, h.past (before e), latest_le);
    same_bytes = λ e j lt. h.same_bytes (before e) j lt ∙ sym (past r.number j (h.past (before e)));
  }
    where
      before : g'.commits i ≡ r.commits → g.commits i ≡ r.commits
      before e = omega (arith, h.seen, commits_le i)

  pub Truthful-Evolves : (size : ℕ) (r : Reader) → Truthful size w g r → Truthful size w' g' r
  Truthful-Evolves size away t = tt
  Truthful-Evolves size (chosen i since) t =
      (omega (arith, t.0, latest_le), kept_since (number_le i))
    where
      kept_since : (g.number i ≤ g'.number i) ⊎ (g.latest ≤ g'.number i) → since ≤ g'.number i
      kept_since (inl a) = omega (arith, t.1)
      kept_since (inr a) = omega (arith, t.0)
  Truthful-Evolves size (copying i ver r k m) t = (t.0, Honest-Evolves i r k m t.1)
  Truthful-Evolves size (copied i ver r m) t = (t.0, Honest-Evolves i r size m t.1)
  Truthful-Evolves size (unmoved i ver r m) t = (t.0, Settled-Evolves i r size m t.1)
  Truthful-Evolves size (finished success r laps m) t =
      λ e l. let (a, b, c) = t e l in (a, omega arith, λ j lt. c j lt ∙ sym (past r.number j b))

pub Inv-initial : (size : ℕ) (template : Content) → Inv size (initial template)
Inv-initial size template = record {
  newest = refl;
  aside = tt;
  kept = λ i h k. refl;
  wrapped = λ i. refl;
  counts = (refl, omega arith);
  truthful = tt;
}
