-- ===== src/Transport/Kept.antt =====
-- zenbedded_transport/src/zenoh_transport.c: what a publication keeps.
use zephyr_zenoh_integration.Prelude.{
  ℕ, suc, zero, ◌≤◌, ◌<◌, ◌≡◌, refl, ap, Bool, true, false, List, [], ◌∷◌, Option, none, some,
  arith, length, if◌then◌else◌, get_elem?,
}
use zephyr_zenoh_integration.Prelude.Bytes.{Buffer}
use zephyr_zenoh_integration.Transport.Pool.{PoolSlot, update}
use zephyr_zenoh_integration.Transport.State.{
  Tier, tier_1, tier_2, Printer, PubBody, Transport, Call,
}
use zephyr_zenoh_integration.Transport.Endpoints.{zenbedded_transport_publish, publish_in, put_from}

-- A pointer to a publisher is null or points into a pool of `n`.
abbrev pub InPool : ℕ → Option ℕ → Type 0
InPool n none = Unit
InPool n (some i) = i < n

-- What a publication keeps of the pool, with the number of its calls.
pub record Kept {A : Type 0} (n : ℕ) (r : A × Transport Unit × List Call) : Type 0 where
  pub pool : length r.1.pub_pool ≡ n
  pub calls : length r.2 ≤ 1

length-update :
    {A : Type 0} (i : ℕ) (f : PoolSlot A → PoolSlot A) (ss : List (PoolSlot A))
    → length (update i f ss) ≡ length ss
length-update i f [] = refl
length-update zero f (s ∷ ss) = refl
length-update (suc i) f (s ∷ ss) = ap suc (length-update i f ss)

get_elem-in_range :
    {A : Type 0} (xs : List A) (i : ℕ) → i < length xs → (x : A) × (get_elem? xs i ≡ some x)
get_elem-in_range [] i h = absurd (omega arith)
get_elem-in_range (x ∷ xs) zero h = (x, refl)
get_elem-in_range (x ∷ xs) (suc i) h = get_elem-in_range xs i (omega arith)

module _ (tier : Tier) (printer : Printer) where
  put_from-Kept :
      (v : Tier) (i : ℕ) (s : PoolSlot PubBody) (payload : Buffer) (tv : ℕ × ℕ) (puts : Bool)
      (t : Transport Unit)
      → Kept (length t.pub_pool) (put_from tier printer Unit v i s payload tv puts t)
  put_from-Kept tier_1 i s payload tv puts t = record {
    pool = length-update i _ t.pub_pool;
    calls = omega arith;
  }
  put_from-Kept tier_2 i s payload tv puts t = record { pool = refl; calls = omega arith }

  pub publish-Kept :
      (p : Option ℕ) (payload : Buffer) (tv : ℕ × ℕ) (puts : Bool) (t : Transport Unit)
      → InPool (length t.pub_pool) p
      → (r : Bool × Transport Unit × List Call) × (zenbedded_transport_publish tier printer Unit p
            payload tv puts t
          ≡ some r)
        × Kept (length t.pub_pool) r
  unfolding zenbedded_transport_publish
  publish-Kept none payload tv puts t h =
      ((false, t, []), refl, record { pool = refl; calls = omega arith })
  publish-Kept (some i) payload tv puts t h =
      let (s, e) = get_elem-in_range t.pub_pool i h in
      (_, ap (λ o. publish_in tier printer Unit o i payload tv puts t) e, by_use s s.in_use)
    where
      by_use :
          (s : PoolSlot PubBody) (b : Bool)
          → Kept
              (length t.pub_pool)
              (if b then put_from tier printer Unit tier i s payload tv puts t else (false, t, []))
      by_use s true = put_from-Kept tier i s payload tv puts t
      by_use s false = record { pool = refl; calls = omega arith }
