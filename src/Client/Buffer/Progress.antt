-- ===== src/Client/Buffer/Progress.antt =====
-- zenbedded_rcl/src/zenbedded_client.cpp: a read that the writer does not disturb succeeds. So the
-- loops `while (!read_state_from_buffer(..)) {}` and `while (!read_command_from_buffer(..)) {}` end
-- as soon as one pass is left alone.
use zephyr_zenoh_integration.Prelude.{ℕ, zero, suc, ◌+◌, ◌-◌, ◌≡◌, refl, true, arith}
use zephyr_zenoh_integration.Client.Buffer.Slots.{Slot, Content, write_byte}
use zephyr_zenoh_integration.Client.Buffer.Steps.{
  Mark, away, copying, copied, finished, System, Step, choose, version, copy, copy_end, still,
  unchanged,
}
use zephyr_zenoh_integration.Client.Buffer.Invariant.{Agrees}

-- One step after another.
pub data Steps (size : ℕ) : System → System → Type 0 where
  done : {s : System} → Steps size s s
  next : {s t u : System} → Step size s t → Steps size t u → Steps size s u

-- The copy after `d` more bytes from place `k` on.
copy_bytes : Content → ℕ → ℕ → Content → Content
copy_bytes from k zero m = m
copy_bytes from k (suc d) m = copy_bytes from (k + 1) d (write_byte m k (from k))

copy_bytes-Agrees :
    (from : Content) (k d : ℕ) (m : Content)
    → Agrees k m from
    → Agrees (k + d) (copy_bytes from k d m) from
unfolding copy_bytes
copy_bytes-Agrees from k zero m h j lt = h j (omega arith)
copy_bytes-Agrees from k (suc d) m h j lt =
    copy_bytes-Agrees from (k + 1) d (write_byte m k (from k)) (λ a l. ground (arith, h a)) j
      (omega arith)

module _ (size : ℕ) (s : System) (t : System) where
  copy_all :
      (i : Slot) (ver : ℕ) (g : Mark) (k d : ℕ) (m : Content)
      → k + d ≡ size
      → Steps size (record s { reader = copied i ver g (copy_bytes (s.memory.content i) k d m) }) t
      → Steps size (record s { reader = copying i ver g k m }) t
  unfolding copy_bytes
  copy_all i ver g k zero m h rest = next (copy_end refl (omega arith)) rest
  copy_all i ver g k (suc d) m h rest =
      next (copy refl (omega arith))
        (copy_all i ver g (k + 1) d (write_byte m k (s.memory.content i k)) (omega arith) rest)

-- From any state whose reader is away, steps of the reader alone lead to a read that succeeds, with
-- no commits in between; memory and writer stay as they are, and the `size` bytes returned are those
-- of the active slot.
pub read_alone :
    (size : ℕ) (s : System)
    → s.reader ≡ away
    → (g : Mark) × (laps : ℕ) × (m : Content) × Steps size s
        (record s { reader = finished true g laps m })
      × (laps ≡ 0)
      × Agrees size m (s.memory.content s.memory.active)
read_alone size s e = (
  mark,
  s.ghost.commits i - s.ghost.commits i,
  m,
  next (choose e) (
      next (version refl) (
        copy_all size s _ i (s.memory.version i) mark 0 size (λ k. 0) (omega arith)
          (next (still refl refl) (next (unchanged refl refl) done)))),
  omega arith,
  λ j lt.
      copy_bytes-Agrees (s.memory.content i) 0 size (λ k. 0) (λ a l. absurd (omega arith)) j
        (omega arith),
)
  where
    i : Slot
    i = s.memory.active

    mark : Mark
    mark = record { since = s.ghost.latest; commits = s.ghost.commits i; number = s.ghost.number i }

    m : Content
    m = copy_bytes (s.memory.content i) 0 size (λ k. 0)
