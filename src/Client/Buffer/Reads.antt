-- ===== src/Client/Buffer/Reads.antt =====
-- zenbedded_rcl/src/zenbedded_client.cpp: a step of the reader keeps the invariant.
use zephyr_zenoh_integration.Prelude.{
  ℕ, ◌+◌, ◌-◌, ◌^◌, ◌≤◌, ◌<◌, ◌≡◌, refl, subst, ◌⊎◌, inl, inr, Bool, true, false, arith, u32,
}
use zephyr_zenoh_integration.Client.Buffer.Slots.{Slot, Content, write_byte}
use zephyr_zenoh_integration.Client.Buffer.Steps.{
  Writer, resting, storing, stored, versioned, switched, Ghost, Mark, Reader, away, chosen, copying,
  copied, unmoved, finished, System,
}
use zephyr_zenoh_integration.Client.Buffer.Invariant.{
  is_busy, Aside, Agrees, Honest, Settled, Truthful, Inv,
}

not_both : (b : Bool) → b ≡ true → b ≡ false → ⊥
not_both b p q = cc

-- The active slot is not being written.
pub idle_active : (i : Slot) (w : Writer) (g : Ghost) → Aside w i g → is_busy w i ≡ false
idle_active i resting g a = refl
idle_active i (storing j stores) g a = ground arith
idle_active i (stored j) g a = ground arith
idle_active i (versioned j) g a = refl
idle_active i switched g a = refl

module _ {size : ℕ} {s : System} (v : Inv size s) where
  truth_of : (r : Reader) → s.reader ≡ r → Truthful size s.writer s.ghost r
  truth_of r e = subst (Truthful size s.writer s.ghost) e v.truthful

  -- Only the reader moves.
  with_reader : (r : Reader) → Truthful size s.writer s.ghost r → Inv size (record s { reader = r })
  with_reader r t = record {
    newest = v.newest;
    aside = v.aside;
    kept = v.kept;
    wrapped = v.wrapped;
    counts = v.counts;
    truthful = t;
  }

  pub choose-Inv : Inv size (record s { reader = chosen s.memory.active s.ghost.latest })
  choose-Inv = with_reader _ (omega arith, omega (arith, v.newest))

  pub version-Inv :
      (i : Slot) (since : ℕ)
      → s.reader ≡ chosen i since
      → Inv size (record s {
        reader =
            copying i
              (s.memory.version i)
              (record { since = since; commits = s.ghost.commits i; number = s.ghost.number i })
              0
              (λ k. 0);
      })
  version-Inv i since e = with_reader _ (
    v.wrapped i,
    record {
      fresh = (truth_of (chosen i since) e).1;
      seen = omega arith;
      held = λ h. refl;
      same_bytes = λ h. inr (λ j lt. absurd (omega arith));
    },
  )

  module _ (i : Slot) (ver : ℕ) (g : Mark) (m : Content) where
    -- A byte that is read from a slot at rest is the byte of the write in it.
    copied_byte :
        (k : ℕ)
        → Honest s.writer s.ghost i g k m
        → Honest s.writer s.ghost i g (k + 1) (write_byte m k (s.memory.content i k))
    copied_byte k h = record {
      fresh = h.fresh;
      seen = h.seen;
      held = h.held;
      same_bytes = λ e. more e (busy_or_not (is_busy s.writer i)) (h.same_bytes e);
    }
      where
        busy_or_not : (b : Bool) → (b ≡ true) ⊎ (b ≡ false)
        busy_or_not true = inl refl
        busy_or_not false = inr refl

        more :
            s.ghost.commits i ≡ g.commits
            → (is_busy s.writer i ≡ true) ⊎ (is_busy s.writer i ≡ false)
            → (is_busy s.writer i ≡ true) ⊎ Agrees k m (s.ghost.history g.number)
            → (is_busy s.writer i ≡ true)
              ⊎ Agrees (k + 1) (write_byte m k (s.memory.content i k)) (s.ghost.history g.number)
        more e (inl b) old = inl b
        more e (inr b) (inl c) = inl c
        more e (inr b) (inr a) = inr λ j lt. ground (arith, a j, v.kept i b k, h.held e)

    pub copy-Inv :
        (k : ℕ)
        → s.reader ≡ copying i ver g k m
        → k < size
        → Inv size
            (record s { reader = copying i ver g (k + 1) (write_byte m k (s.memory.content i k)) })
    copy-Inv k e lt =
        with_reader _ ((truth_of _ e).0, copied_byte k (truth_of (copying i ver g k m) e).1)

    pub copy_end-Inv :
        (k : ℕ)
        → s.reader ≡ copying i ver g k m
        → k ≡ size
        → Inv size (record s { reader = copied i ver g m })
    copy_end-Inv k e h = with_reader _ (
      (truth_of _ e).0,
      subst (λ (n : ℕ). Honest s.writer s.ghost i g n m) h (truth_of (copying i ver g k m) e).1,
    )

    pub still-Inv :
        s.reader ≡ copied i ver g m
        → s.memory.active ≡ i
        → Inv size (record s { reader = unmoved i ver g m })
    still-Inv e at = with_reader _ ((truth_of _ e).0, settled (truth_of (copied i ver g m) e).1)
      where
        newest_here : s.ghost.number i ≡ s.ghost.latest
        newest_here = subst (λ x. s.ghost.number x ≡ s.ghost.latest) at v.newest

        at_rest : is_busy s.writer i ≡ false
        at_rest = idle_active i s.writer s.ghost (subst (λ x. Aside s.writer x s.ghost) at v.aside)

        clean :
            (is_busy s.writer i ≡ true) ⊎ Agrees size m (s.ghost.history g.number)
            → Agrees size m (s.ghost.history g.number)
        clean (inl b) = absurd (not_both (is_busy s.writer i) b at_rest)
        clean (inr a) = a

        settled : Honest s.writer s.ghost i g size m → Settled s.ghost i g size m
        settled h = record {
          fresh = h.fresh;
          seen = h.seen;
          past = λ c. omega (arith, newest_here, h.held c);
          same_bytes = λ c. clean (h.same_bytes c);
        }

    pub refused-Inv : Inv size (record s { reader = finished false g 0 m })
    refused-Inv = with_reader _ (λ e. cc)

    pub unchanged-Inv :
        s.reader ≡ unmoved i ver g m
        → s.memory.version i ≡ ver
        → Inv size (record s { reader = finished true g (s.ghost.commits i - g.commits) m })
    unchanged-Inv e h = with_reader _ λ ok l. accepted l
      where
        t : (ver ≡ u32 g.commits) × Settled s.ghost i g size m
        t = truth_of (unmoved i ver g m) e

        accepted :
            s.ghost.commits i - g.commits < 2 ^ 32
            → (g.since ≤ g.number)
              × (g.number ≤ s.ghost.latest)
              × Agrees size m (s.ghost.history g.number)
        accepted l =
            let c : s.ghost.commits i ≡ g.commits = omega (arith, t.0, t.1.seen, v.wrapped i, h) in
            (t.1.fresh, t.1.past c, t.1.same_bytes c)

  pub leave-Inv : Inv size (record s { reader = away })
  leave-Inv = with_reader away tt
