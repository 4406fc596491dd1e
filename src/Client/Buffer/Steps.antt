-- ===== src/Client/Buffer/Steps.antt =====
-- zenbedded_rcl/src/zenbedded_client.cpp: the writer (`write_command_to_buffer`,
-- `write_state_to_buffer`, or `prepare_state_write_slot`, the codec and `commit_state_write_slot`)
-- and the reader (`read_command_from_buffer`, `read_state_from_buffer`), a shared access at a time.
-- The accesses take effect in one order, which is what the fences of the source are there for.
use zephyr_zenoh_integration.Prelude.{
  ℕ, ◌+◌, ◌-◌, ◌<◌, ◌≡◌, ◌≢◌, Bool, true, false, List, [], ◌∷◌, ◌==◌, if◌then◌else◌,
}
use zephyr_zenoh_integration.Client.Buffer.Slots.{
  Slot, other, put, Content, write_byte, Shared, atomic_inc, reset,
}

-- Where the writer stands: `stores` are the bytes that it still has to write, as offset and value.
pub data Writer : Type 0 where
  resting : Writer
  storing : (i : Slot) (stores : List (ℕ × ℕ)) → Writer
  stored : (i : Slot) → Writer  -- before the version
  versioned : (i : Slot) → Writer  -- before the index
  switched : Writer  -- before the count of accepted commands

-- What has happened, kept for the proofs only: no step reads it. `commits` are the versions without
-- the wrap, `latest` is the number of times that the index was switched, `number` says which of these
-- writes a slot holds, `history` has the contents of each, and `counted` is the count of accepted
-- commands without the wrap.
pub record Ghost : Type 0 where
  pub commits : Slot → ℕ
  pub latest : ℕ
  pub number : Slot → ℕ
  pub history : ℕ → Content
  pub counted : ℕ

abbrev pub record_write : (ℕ → Content) → ℕ → Content → ℕ → Content
record_write h n m k = if n == k then m else h k

-- Kept by the reader for the proofs: the latest write when it read the index, and the commits to its
-- slot and the number of the write in it when it read the version.
pub record Mark : Type 0 where
  pub since : ℕ
  pub commits : ℕ
  pub number : ℕ

-- Where the reader stands, with `read_idx`, `ver_before` and the bytes copied so far. `laps` are the
-- commits to its slot between the two looks at the version, for the proofs.
pub data Reader : Type 0 where
  away : Reader
  chosen : (i : Slot) (since : ℕ) → Reader
  copying : (i : Slot) (ver : ℕ) (g : Mark) (k : ℕ) (m : Content) → Reader
  copied : (i : Slot) (ver : ℕ) (g : Mark) (m : Content) → Reader
  unmoved : (i : Slot) (ver : ℕ) (g : Mark) (m : Content) → Reader
  finished : (success : Bool) (g : Mark) (laps : ℕ) (m : Content) → Reader

pub record System : Type 0 where
  pub memory : Shared
  pub ghost : Ghost
  pub writer : Writer
  pub reader : Reader

-- `size` is the number of bytes that the reader copies.
pub data Step (size : ℕ) (s : System) : System → Type 0 where
  -- `atomic_get(&active_idx) ^ 1`, then whatever stores the write makes.
  begin :
      (stores : List (ℕ × ℕ))
      → s.writer ≡ resting
      → Step size s (record s { writer = storing (other s.memory.active) stores })
  store :
      {i : Slot} {at b : ℕ} {stores : List (ℕ × ℕ)}
      → s.writer ≡ storing i ((at, b) ∷ stores)
      → Step size s (record s {
        memory = record (s.memory) {
          content = put s.memory.content i (write_byte (s.memory.content i) at b);
        };
        writer = storing i stores;
      })
  fence : {i : Slot} → s.writer ≡ storing i [] → Step size s (record s { writer = stored i })
  -- `atomic_inc(&version[write_idx])`
  commit :
      {i : Slot}
      → s.writer ≡ stored i
      → Step size s (record s {
        memory = record (s.memory) {
          version = put s.memory.version i (atomic_inc (s.memory.version i));
        };
        ghost = record (s.ghost) {
          commits = put s.ghost.commits i (s.ghost.commits i + 1);
          number = put s.ghost.number i (s.ghost.latest + 1);
          history = record_write s.ghost.history (s.ghost.latest + 1) (s.memory.content i);
        };
        writer = versioned i;
      })
  -- `atomic_set(&active_idx, write_idx)`
  switch :
      {i : Slot}
      → s.writer ≡ versioned i
      → Step size s (record s {
        memory = record (s.memory) { active = i };
        ghost = record (s.ghost) { latest = s.ghost.latest + 1 };
        writer = switched;
      })
  -- `atomic_inc(&cmd_accepted_count_)`
  count :
      s.writer ≡ switched
      → Step size s (record s {
        memory = record (s.memory) { accepted = atomic_inc s.memory.accepted };
        ghost = record (s.ghost) { counted = s.ghost.counted + 1 };
        writer = resting;
      })
  -- A write of a state ends here.
  rest : s.writer ≡ switched → Step size s (record s { writer = resting })
  -- `read_idx = atomic_get(&active_idx)`
  choose :
      s.reader ≡ away → Step size s (record s { reader = chosen s.memory.active s.ghost.latest })
  -- `ver_before = atomic_get(&version[read_idx])`
  version :
      {i : Slot} {since : ℕ}
      → s.reader ≡ chosen i since
      → Step size s (record s {
        reader =
            copying i
              (s.memory.version i)
              (record { since = since; commits = s.ghost.commits i; number = s.ghost.number i })
              0
              (λ k. 0);
      })
  copy :
      {i : Slot} {ver k : ℕ} {g : Mark} {m : Content}
      → s.reader ≡ copying i ver g k m
      → k < size
      → Step size s
          (record s { reader = copying i ver g (k + 1) (write_byte m k (s.memory.content i k)) })
  copy_end :
      {i : Slot} {ver k : ℕ} {g : Mark} {m : Content}
      → s.reader ≡ copying i ver g k m
      → k ≡ size
      → Step size s (record s { reader = copied i ver g m })
  -- `atomic_get(&active_idx) != read_idx`
  moved :
      {i : Slot} {ver : ℕ} {g : Mark} {m : Content}
      → s.reader ≡ copied i ver g m
      → s.memory.active ≢ i
      → Step size s (record s { reader = finished false g 0 m })
  still :
      {i : Slot} {ver : ℕ} {g : Mark} {m : Content}
      → s.reader ≡ copied i ver g m
      → s.memory.active ≡ i
      → Step size s (record s { reader = unmoved i ver g m })
  -- `atomic_get(&version[read_idx]) != ver_before`
  changed :
      {i : Slot} {ver : ℕ} {g : Mark} {m : Content}
      → s.reader ≡ unmoved i ver g m
      → s.memory.version i ≢ ver
      → Step size s (record s { reader = finished false g 0 m })
  unchanged :
      {i : Slot} {ver : ℕ} {g : Mark} {m : Content}
      → s.reader ≡ unmoved i ver g m
      → s.memory.version i ≡ ver
      → Step size s (record s { reader = finished true g (s.ghost.commits i - g.commits) m })
  -- The caller has used the result, or tries again.
  leave :
      {success : Bool} {g : Mark} {laps : ℕ} {m : Content}
      → s.reader ≡ finished success g laps m
      → Step size s (record s { reader = away })

-- After `reset_buffers` and, for the states, the template in both slots; nobody reads or writes.
abbrev pub initial : Content → System
initial template = record {
  memory = record reset { content = λ i. template };
  ghost = record {
    commits = λ i. 0;
    latest = 0;
    number = λ i. 0;
    history = λ n. template;
    counted = 0;
  };
  writer = resting;
  reader = away;
}

pub data Reach (size : ℕ) (template : Content) : System → Type 0 where
  start : Reach size template (initial template)
  later : {s t : System} → Reach size template s → Step size s t → Reach size template t
