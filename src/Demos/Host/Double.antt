-- ===== src/Demos/Host/Double.antt =====
-- demos: what the host packages do with doubles and times. A double is its 64-bit pattern, a time what
-- rclcpp::Time holds; the operations are those of the C++ implementation.
use zephyr_zenoh_integration.Prelude.{ℕ, ◌≡◌, Bool, false}

pub record HostDouble : Type 0 where
  pub zero : ℕ
  pub two : ℕ
  pub pi : ℕ
  pub lt : ℕ → ℕ → Bool
  pub le : ℕ → ℕ → Bool
  pub negate : ℕ → ℕ
  pub plus : ℕ → ℕ → ℕ
  pub minus : ℕ → ℕ → ℕ
  pub times : ℕ → ℕ → ℕ
  pub divide : ℕ → ℕ → ℕ
  pub sin : ℕ → ℕ
  pub cos : ℕ → ℕ
  -- `(time - start_time).seconds()`
  pub seconds_between : ℕ → ℕ → ℕ

-- Nothing is below itself, NaN included.
pub record IsIrreflexive (d : HostDouble) : Type 0 where
  pub lt-self : (x : ℕ) → d.lt x x ≡ false
