-- ===== src/Client/Buffer/Safety.antt =====
-- zenbedded_rcl/src/zenbedded_client.cpp: what a read that succeeds returns, in every interleaving
-- with the writer.
use zephyr_zenoh_integration.Prelude.{ℕ, ◌^◌, ◌≤◌, ◌<◌, ◌≡◌, refl, ap, ◌∙◌, true, subst, u32}
use zephyr_zenoh_integration.Client.Buffer.Slots.{Content}
use zephyr_zenoh_integration.Client.Buffer.Steps.{
  Mark, finished, System, Step, begin, store, fence, commit, switch, count, rest, choose, version,
  copy, copy_end, moved, still, changed, unchanged, leave, Reach, start, later,
}
use zephyr_zenoh_integration.Client.Buffer.Invariant.{Agrees, Truthful, Inv, Inv-initial}
use zephyr_zenoh_integration.Client.Buffer.Writes.{
  begin-Inv, store-Inv, fence-Inv, commit-Inv, switch-Inv, count-Inv, rest-Inv,
}
use zephyr_zenoh_integration.Client.Buffer.Reads.{
  choose-Inv, version-Inv, copy-Inv, copy_end-Inv, still-Inv, refused-Inv, unchanged-Inv, leave-Inv,
  idle_active,
}

pub Step-Inv : {size : ℕ} {s t : System} → Step size s t → Inv size s → Inv size t
Step-Inv (begin stores e) v = begin-Inv v stores e
Step-Inv (store e) v = store-Inv v _ _ _ _ e
Step-Inv (fence e) v = fence-Inv v _ e
Step-Inv (commit e) v = commit-Inv v _ e
Step-Inv (switch e) v = switch-Inv v _ e
Step-Inv (count e) v = count-Inv v e
Step-Inv (rest e) v = rest-Inv v e
Step-Inv (choose e) v = choose-Inv v
Step-Inv (version e) v = version-Inv v _ _ e
Step-Inv (copy e h) v = copy-Inv v _ _ _ _ _ e h
Step-Inv (copy_end e h) v = copy_end-Inv v _ _ _ _ _ e h
Step-Inv (moved {i} {ver} {g} {m} e h) v = refused-Inv v i ver g m
Step-Inv (still e h) v = still-Inv v _ _ _ _ e h
Step-Inv (changed {i} {ver} {g} {m} e h) v = refused-Inv v i ver g m
Step-Inv (unchanged e h) v = unchanged-Inv v _ _ _ _ e h
Step-Inv (leave e) v = leave-Inv v

pub Reach-Inv : {size : ℕ} {template : Content} {s : System} → Reach size template s → Inv size s
Reach-Inv {size} {template} start = Inv-initial size template
Reach-Inv (later r st) = Step-Inv st (Reach-Inv r)

-- In every state that interleaved steps of one writer and one reader reach after `reset_buffers`: if
-- the read has just succeeded, and fewer than 2 ^ 32 writes were committed to its slot between its
-- two looks at the version, then the `size` bytes it returns are those of one write, all of them, a
-- write that was already switched to, and no older than the latest one when the read began (write 0
-- stands for the template).
pub read_untorn :
    {size : ℕ} {template : Content} {s : System} {g : Mark} {laps : ℕ} {m : Content}
    → Reach size template s
    → s.reader ≡ finished true g laps m
    → laps < 2 ^ 32
    → (g.since ≤ g.number) × (g.number ≤ s.ghost.latest) × Agrees size m (s.ghost.history g.number)
read_untorn {size} {s} r e l =
    subst (Truthful size s.writer s.ghost) e (Reach-Inv r).truthful refl l

-- In every reachable state the count of accepted commands is, modulo 2 ^ 32, a number of writes that
-- have all been switched to, and the active slot holds the latest write, whole.
pub accepted_visible :
    {size : ℕ} {template : Content} {s : System}
    → Reach size template s
    → (s.memory.accepted ≡ u32 s.ghost.counted)
      × (s.ghost.counted ≤ s.ghost.latest)
      × ((k : ℕ) → s.memory.content s.memory.active k ≡ s.ghost.history s.ghost.latest k)
accepted_visible {s} r = (
  counts.0,
  counts.1,
  λ k.
      kept s.memory.active (idle_active s.memory.active s.writer s.ghost aside) k
      ∙ ap (λ (n : ℕ). s.ghost.history n k) newest,
)
  where
    open (Reach-Inv r) use {counts, aside, kept, newest}
