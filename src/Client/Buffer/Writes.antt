-- ===== src/Client/Buffer/Writes.antt =====
-- zenbedded_rcl/src/zenbedded_client.cpp: a step of the writer keeps the invariant.
use zephyr_zenoh_integration.Prelude.{
  ℕ, ◌+◌, ◌≡◌, refl, ap, ◌∙◌, subst, inl, true, false, List, [], ◌∷◌, arith,
}
use zephyr_zenoh_integration.Client.Buffer.Slots.{
  Slot, slot_0, slot_1, other, put, write_byte, atomic_inc,
}
use zephyr_zenoh_integration.Client.Buffer.Steps.{
  Writer, resting, storing, stored, versioned, switched, Ghost, record_write, System,
}
use zephyr_zenoh_integration.Client.Buffer.Invariant.{
  is_busy, Aside, Truthful, Inv, Evolves, Truthful-Evolves,
}

-- Nothing that a reader relies on changes but the writer's place.
Evolves-quiet :
    (w w' : Writer) (g : Ghost)
    → ((i : Slot) → is_busy w i ≡ true → is_busy w' i ≡ true)
    → Evolves w g w' g
Evolves-quiet w w' g busy = record {
  latest_le = omega arith;
  past = λ n k h. refl;
  commits_le = λ i. omega arith;
  number_le = λ i. inl (omega arith);
  number_same = λ i e. refl;
  busy_same = λ i e. busy i;
  history_same = λ i e k. refl;
}

module _ {size : ℕ} {s : System} (v : Inv size s) where
  -- The truth about the reader, with the writer's place written out.
  Truthful-writer : (w : Writer) → s.writer ≡ w → Truthful size w s.ghost s.reader
  Truthful-writer w e = subst (λ x. Truthful size x s.ghost s.reader) e v.truthful

  Aside-writer : (w : Writer) → s.writer ≡ w → Aside w s.memory.active s.ghost
  Aside-writer w e = subst (λ x. Aside x s.memory.active s.ghost) e v.aside

  kept_at :
      (w : Writer)
      → s.writer ≡ w
      → (i : Slot) → is_busy w i ≡ false
      → (k : ℕ) → s.memory.content i k ≡ s.ghost.history (s.ghost.number i) k
  kept_at w e i h = v.kept i (ap (λ x. is_busy x i) e ∙ h)

  pub begin-Inv :
      (stores : List (ℕ × ℕ))
      → s.writer ≡ resting
      → Inv size (record s { writer = storing (other s.memory.active) stores })
  begin-Inv stores e = record {
    newest = v.newest;
    aside = refl;
    kept = λ i h. kept_at resting e i refl;
    wrapped = v.wrapped;
    counts = v.counts;
    truthful =
        Truthful-Evolves (Evolves-quiet resting _ s.ghost (λ i h. cc)) size s.reader
          (Truthful-writer resting e);
  }

  pub store-Inv :
      (i : Slot) (at b : ℕ) (stores : List (ℕ × ℕ))
      → s.writer ≡ storing i ((at, b) ∷ stores)
      → Inv size (record s {
        memory = record (s.memory) {
          content = put s.memory.content i (write_byte (s.memory.content i) at b);
        };
        writer = storing i stores;
      })
  store-Inv i at b stores e = record {
    newest = v.newest;
    aside = Aside-writer (storing i ((at, b) ∷ stores)) e;
    kept = λ j h k. ground (arith, kept_at (storing i ((at, b) ∷ stores)) e j h k);
    wrapped = v.wrapped;
    counts = v.counts;
    truthful =
        Truthful-Evolves
          (Evolves-quiet (storing i ((at, b) ∷ stores)) (storing i stores) s.ghost (λ j h. h)) size
          s.reader (Truthful-writer _ e);
  }

  pub fence-Inv : (i : Slot) → s.writer ≡ storing i [] → Inv size (record s { writer = stored i })
  fence-Inv i e = record {
    newest = v.newest;
    aside = Aside-writer (storing i []) e;
    kept = kept_at (storing i []) e;
    wrapped = v.wrapped;
    counts = v.counts;
    truthful =
        Truthful-Evolves (Evolves-quiet (storing i []) (stored i) s.ghost (λ j h. h)) size s.reader
          (Truthful-writer _ e);
  }

  abbrev pub committed : (i : Slot) → Ghost
  committed i = record (s.ghost) {
    commits = put s.ghost.commits i (s.ghost.commits i + 1);
    number = put s.ghost.number i (s.ghost.latest + 1);
    history = record_write s.ghost.history (s.ghost.latest + 1) (s.memory.content i);
  }

  Evolves-commit :
      (i : Slot)
      → i ≡ other s.memory.active
      → Evolves (stored i) s.ghost (versioned i) (committed i)
  Evolves-commit i e = record {
    latest_le = omega arith;
    past = λ n k h. ground arith;
    commits_le = λ j. ground arith;
    number_le = λ j. ground arith;
    number_same = λ j h. ground arith;
    busy_same = λ j h b. ground arith;
    history_same = λ j h k. ground (arith, v.newest);
  }

  kept_committed :
      (i : Slot)
      → s.writer ≡ stored i
      → (j : Slot) → is_busy (versioned i) j ≡ false
      → (k : ℕ) → s.memory.content j k ≡ (committed i).history ((committed i).number j) k
  kept_committed slot_0 e slot_0 h k = ground arith
  kept_committed slot_1 e slot_1 h k = ground arith
  kept_committed slot_0 e slot_1 h k =
      ground
        (arith, kept_at (stored slot_0) e slot_1 refl k, v.newest, Aside-writer (stored slot_0) e)
  kept_committed slot_1 e slot_0 h k =
      ground
        (arith, kept_at (stored slot_1) e slot_0 refl k, v.newest, Aside-writer (stored slot_1) e)

  pub commit-Inv :
      (i : Slot)
      → s.writer ≡ stored i
      → Inv size (record s {
        memory = record (s.memory) {
          version = put s.memory.version i (atomic_inc (s.memory.version i));
        };
        ghost = committed i;
        writer = versioned i;
      })
  commit-Inv i e = record {
    newest = ground (arith, v.newest, Aside-writer (stored i) e);
    aside = (Aside-writer (stored i) e, ground arith);
    kept = kept_committed i e;
    wrapped = λ j. ground (arith, v.wrapped i, v.wrapped j);
    counts = v.counts;
    truthful =
        Truthful-Evolves (Evolves-commit i (Aside-writer (stored i) e)) size s.reader
          (Truthful-writer _ e);
  }

  pub switch-Inv :
      (i : Slot)
      → s.writer ≡ versioned i
      → Inv size (record s {
        memory = record (s.memory) { active = i };
        ghost = record (s.ghost) { latest = s.ghost.latest + 1 };
        writer = switched;
      })
  switch-Inv i e = record {
    newest = (Aside-writer (versioned i) e).1;
    aside = omega (arith, v.counts.1);
    kept = λ j h. kept_at (versioned i) e j refl;
    wrapped = v.wrapped;
    counts = (v.counts.0, omega (arith, v.counts.1));
    truthful = Truthful-Evolves evolves size s.reader (Truthful-writer _ e);
  }
    where
      evolves :
          Evolves (versioned i) s.ghost switched (record (s.ghost) { latest = s.ghost.latest + 1 })
      evolves = record {
        latest_le = omega arith;
        past = λ n k h. refl;
        commits_le = λ j. omega arith;
        number_le = λ j. inl (omega arith);
        number_same = λ j h. refl;
        busy_same = λ j h b. b;
        history_same = λ j h k. refl;
      }

  pub count-Inv :
      s.writer ≡ switched
      → Inv size (record s {
        memory = record (s.memory) { accepted = atomic_inc s.memory.accepted };
        ghost = record (s.ghost) { counted = s.ghost.counted + 1 };
        writer = resting;
      })
  count-Inv e = record {
    newest = v.newest;
    aside = tt;
    kept = λ j h. kept_at switched e j refl;
    wrapped = v.wrapped;
    counts = (omega (arith, v.counts.0), omega (arith, Aside-writer switched e));
    truthful = Truthful-Evolves (quietly e) size s.reader (Truthful-writer _ e);
  }
    where
      quietly :
          s.writer ≡ switched
          → Evolves switched s.ghost resting (record (s.ghost) { counted = s.ghost.counted + 1 })
      quietly h = record {
        latest_le = omega arith;
        past = λ n k p. refl;
        commits_le = λ j. omega arith;
        number_le = λ j. inl (omega arith);
        number_same = λ j p. refl;
        busy_same = λ j p b. b;
        history_same = λ j p k. refl;
      }

  pub rest-Inv : s.writer ≡ switched → Inv size (record s { writer = resting })
  rest-Inv e = record {
    newest = v.newest;
    aside = tt;
    kept = λ j h. kept_at switched e j refl;
    wrapped = v.wrapped;
    counts = v.counts;
    truthful =
        Truthful-Evolves (Evolves-quiet switched resting s.ghost (λ j b. b)) size s.reader
          (Truthful-writer _ e);
  }
