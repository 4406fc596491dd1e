-- ===== src/Client/Buffer/Examples.antt =====
-- A write of two bytes and a read of them, interleaved: witnesses.
use zephyr_zenoh_integration.Prelude.{
  ℕ, ◌≤◌, ◌≡◌, refl, true, [], ◌∷◌, arith, u32, ◌==◌, if◌then◌else◌,
}
use zephyr_zenoh_integration.Client.Buffer.Slots.{slot_1, Content}
use zephyr_zenoh_integration.Client.Buffer.Steps.{
  Mark, finished, System, begin, store, fence, commit, switch, count, choose, version, copy,
  copy_end, still, unchanged, Reach, start, later,
}
use zephyr_zenoh_integration.Client.Buffer.Invariant.{Agrees}
use zephyr_zenoh_integration.Client.Buffer.Safety.{read_untorn, accepted_visible}
use zephyr_zenoh_integration.Client.Buffer.Progress.{Steps, read_alone}

abbrev cleared : Content
cleared k = 0

-- 5 and 6 are written while the reader has already chosen slot 0; it reads again, and gets them.
record Run : Type 0 where
  last : System
  reach : Reach 2 cleared last

abbrev written : Run
written = record {
  last = _;
  reach =
      later
        (later
          (later
            (later
              (later (later (later start (begin ((0, 5) ∷ (1, 6) ∷ []) refl)) (store refl))
                (store refl))
              (fence refl))
            (commit refl))
          (switch refl))
        (count refl);
}

abbrev read_back : Run
read_back = record {
  last = _;
  reach =
      later
        (later
          (later
            (later
              (later (later (later written.reach (choose refl)) (version refl))
                (copy refl (omega arith)))
              (copy refl (omega arith)))
            (copy_end refl refl))
          (still refl refl))
        (unchanged refl refl);
}

abbrev mark : Mark
mark = record { since = 1; commits = 1; number = 1 }

read_untorn_example :
    (1 ≤ 1)
    × (1 ≤ read_back.last.ghost.latest)
    × Agrees 2 (λ k. if 1 == k then 6 else if 0 == k then 5 else 0) (read_back.last.ghost.history 1)
read_untorn_example = read_untorn {g = mark} {laps = 0} read_back.reach refl (omega arith)

accepted_visible_example :
    (written.last.memory.accepted ≡ u32 1)
    × (1 ≤ written.last.ghost.latest)
    × ((k : ℕ) → written.last.memory.content slot_1 k ≡ written.last.ghost.history 1 k)
accepted_visible_example = accepted_visible written.reach

read_alone_example :
    (g : Mark) × (laps : ℕ) × (m : Content) × Steps 2 written.last
      (record (written.last) { reader = finished true g laps m })
    × (laps ≡ 0)
    × Agrees 2 m (written.last.memory.content slot_1)
read_alone_example = read_alone 2 written.last refl
