-- ===== src/Demos/Pendulum/Wait.antt =====
-- demos/inverted_pendulum: the two loops at the start of `main` that wait for the network.
use zephyr_zenoh_integration.Prelude.{
  ℕ, ◌+◌, ◌-◌, ◌*◌, ◌%◌, ◌^◌, ◌≤◌, ◌<◌, ◌≡◌, refl, ◌⊎◌, inl, inr, Bool, true, false, Bool-cases,
  List, [], ◌∷◌, some, suc, arith, length, get_elem?, ltb, if◌then◌else◌,
}

pub data Waited : Type 0 where
  connected timed_out waiting : Waited

-- One round: whether the request is granted, and `k_uptime_get_32()` after it.
abbrev pub WaitRound : Type 0
WaitRound = Bool × ℕ

abbrev pub elapsed : ℕ → ℕ → ℕ
elapsed timer now = (now + 2 ^ 32 - timer) % 2 ^ 32

-- The rounds that are given may end before the loop does: then it is still `waiting`.
unfoldable pub wait : ℕ → ℕ → List WaitRound → Waited
wait timeout timer [] = waiting
wait timeout timer ((granted, now) ∷ rounds) =
    let rest = wait timeout timer rounds in
    if granted then connected else if ltb timeout (elapsed timer now) then timed_out else rest

-- `k_sleep(K_MSEC(200))` takes at least 200 ms: so late is each round, from the first at `start`.
abbrev pub Advances : ℕ → ℕ → List WaitRound → Type 0
Advances timer start [] = Unit
Advances timer start ((granted, now) ∷ rounds) =
    (start ≤ elapsed timer now) × Advances timer (start + 200) rounds

-- Why a wait ended.
pub record IsGranted (rounds : List WaitRound) : Type 0 where
  pub index : ℕ
  pub now : ℕ
  pub round : get_elem? rounds index ≡ some (true, now)

pub record IsLate (timeout timer : ℕ) (rounds : List WaitRound) : Type 0 where
  pub index : ℕ
  pub now : ℕ
  pub round : get_elem? rounds index ≡ some (false, now)
  pub late : timeout < elapsed timer now

abbrev pub Ended : ℕ → ℕ → List WaitRound → Waited → Type 0
Ended timeout timer rounds result =
    (result ≡ connected) × IsGranted rounds ⊎ (result ≡ timed_out) × IsLate timeout timer rounds

Ended-later :
    (timeout timer : ℕ) (r : WaitRound) (rounds : List WaitRound) (result : Waited)
    → Ended timeout timer rounds result
    → Ended timeout timer (r ∷ rounds) result
Ended-later timeout timer r rounds result (inl (e, g)) =
    inl (e, record { index = suc g.index; now = g.now; round = g.round })
Ended-later timeout timer r rounds result (inr (e, l)) =
    inr (e, record { index = suc l.index; now = l.now; round = l.round; late = l.late })

wait-Ended_from :
    (timeout timer start : ℕ) (rounds : List WaitRound)
    → Advances timer start rounds
    → start ≤ timeout + 200
    → timeout + 200 < start + 200 * length rounds
    → Ended timeout timer rounds (wait timeout timer rounds)
unfolding wait
wait-Ended_from timeout timer start [] h early long = absurd (omega arith)
wait-Ended_from timeout timer start ((true, now) ∷ rounds) h early long =
    inl (refl, record { index = 0; now = now; round = refl })
wait-Ended_from timeout timer start ((false, now) ∷ rounds) (since, h) early long =
    by_late (Bool-cases (ltb timeout (elapsed timer now))) (λ e.
      wait-Ended_from timeout timer (start + 200) rounds h (still_early _ since e) (omega arith))
  where
    still_early : (now : ℕ) → start ≤ now → ltb timeout now ≡ false → start + 200 ≤ timeout + 200
    still_early now h e = ground arith

    by_late :
        (ltb timeout (elapsed timer now) ≡ true) ⊎ (ltb timeout (elapsed timer now) ≡ false)
        → ((ltb timeout (elapsed timer now) ≡ false)
            → Ended timeout timer rounds (wait timeout timer rounds))
        → Ended timeout timer
            ((false, now) ∷ rounds)
            (if ltb timeout (elapsed timer now) then timed_out else wait timeout timer rounds)
    by_late (inl e) later =
        rw e (inr (refl, record { index = 0; now = now; round = refl; late = above _ e }))
      where
        above : (now : ℕ) → ltb timeout now ≡ true → timeout < now
        above now e = ground arith
    by_late (inr e) later = rw e (Ended-later timeout timer (false, now) rounds _ (later e))

-- If each round comes at least 200 ms after the one before, and 200 ms for each of them are more than
-- the timeout and one round: the loop ends, connected because of a request that was granted, or timed
-- out because of one that was refused after the timeout.
pub wait-Ended :
    (timeout timer : ℕ) (rounds : List WaitRound)
    → Advances timer 0 rounds
    → timeout + 200 < 200 * length rounds
    → Ended timeout timer rounds (wait timeout timer rounds)
wait-Ended timeout timer rounds h long =
    wait-Ended_from timeout timer 0 rounds h (omega arith) (omega arith)
