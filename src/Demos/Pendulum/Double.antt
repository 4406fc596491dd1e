-- ===== src/Demos/Pendulum/Double.antt =====
-- demos/inverted_pendulum: what the programs do with doubles. A double is its 64-bit pattern; the
-- operations are those of the C++ implementation.
use zephyr_zenoh_integration.Prelude.{ℕ, ◌^◌, ◌≤◌, ◌<◌, ◌≡◌, Bool, true, false}

pub record Double : Type 0 where
  pub zero : ℕ
  pub pi : ℕ
  pub isfinite : ℕ → Bool
  pub eq : ℕ → ℕ → Bool
  pub lt : ℕ → ℕ → Bool
  pub fabs : ℕ → ℕ
  pub times : ℕ → ℕ → ℕ
  pub divide : ℕ → ℕ → ℕ
  pub minus : ℕ → ℕ → ℕ
  pub of_int32 : ℕ → ℕ
  pub of_uint64 : ℕ → ℕ
  pub to_uint64 : ℕ → ℕ
  -- `sensor_value_to_double` on the two integers of a `sensor_value`.
  pub of_sensor_value : ℕ × ℕ → ℕ

-- Zero equals itself, and the cast of a finite double to an unsigned integer truncates: it keeps the
-- bounds that are whole numbers below 2 ^ 53, which are doubles.
pub record IsIeee (d : Double) : Type 0 where
  pub zero-eq : d.eq d.zero d.zero ≡ true
  pub to_uint64-bounds :
      (x low high : ℕ)
      → low < 2 ^ 53
      → high < 2 ^ 53
      → d.isfinite x ≡ true
      → d.lt x (d.of_uint64 low) ≡ false
      → d.lt (d.of_uint64 high) x ≡ false
      → (low ≤ d.to_uint64 x) × (d.to_uint64 x ≤ high)
