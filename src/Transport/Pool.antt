-- ===== src/Transport/Pool.antt =====
-- zenbedded_transport/src/zenoh_transport.c: the pools of publishers and subscribers.
use zephyr_zenoh_integration.Prelude.{
  ℕ, zero, suc, Bool, true, false, List, [], ◌∷◌, Option, none, some, map,
}

-- `struct zenbedded_pub_s` and `struct zenbedded_sub_s`: the flag and the other members.
pub record PoolSlot (A : Type 0) : Type 0 where
  pub in_use : Bool
  pub body : A

module _ {A : Type 0} where
  abbrev pub set_body : Bool → A → PoolSlot A
  set_body in_use body = record { in_use = in_use; body = body }

  -- The next slots of a search, behind one that is in use.
  abbrev pub behind : PoolSlot A → Option (ℕ × List (PoolSlot A)) → Option (ℕ × List (PoolSlot A))
  behind s none = none
  behind s (some (i, ss)) = some (suc i, s ∷ ss)

  abbrev pub claim_slot :
      Bool
      → PoolSlot A
      → List (PoolSlot A)
      → Option (ℕ × List (PoolSlot A))
      → Option (ℕ × List (PoolSlot A))
  claim_slot true s ss rest = behind s rest
  claim_slot false s ss rest = some (0, set_body true s.body ∷ ss)

  -- The loop that takes the first free slot and marks it; its index, or `none` if all are in use.
  unfoldable pub claim : List (PoolSlot A) → Option (ℕ × List (PoolSlot A))
  claim [] = none
  claim (s ∷ ss) = claim_slot s.in_use s ss (claim ss)

  -- Writes a slot; a pointer of the caller always points into its pool.
  abbrev pub update : ℕ → (PoolSlot A → PoolSlot A) → List (PoolSlot A) → List (PoolSlot A)
  update i f [] = []
  update zero f (s ∷ ss) = f s ∷ ss
  update (suc i) f (s ∷ ss) = s ∷ update i f ss

  abbrev pub flags : List (PoolSlot A) → List Bool
  flags = map (λ s. s.in_use)
