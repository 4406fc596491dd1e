-- ===== src/Demos/Pendulum/Refusals.antt =====
-- demos: a network that refuses, for the examples.
use zephyr_zenoh_integration.Prelude.{
  ℕ, zero, suc, ◌+◌, ◌*◌, ◌≤◌, ◌≡◌, refl, ap, false, List, [], ◌∷◌, arith, length,
}
use zephyr_zenoh_integration.Demos.Pendulum.Wait.{WaitRound, Advances}

-- Requests that are refused every 200 ms.
abbrev pub refused : ℕ → ℕ → List WaitRound
refused start zero = []
refused start (suc n) = (false, start) ∷ refused (start + 200) n

pub refused-Advances : (start n : ℕ) → start + 200 * n ≤ 40000 → Advances 0 start (refused start n)
refused-Advances start zero h = tt
refused-Advances start (suc n) h = (omega arith, refused-Advances (start + 200) n (omega arith))

pub length-refused : (start n : ℕ) → length (refused start n) ≡ n
length-refused start zero = refl
length-refused start (suc n) = ap suc (length-refused (start + 200) n)
