-- ===== src/Prelude/Int.antt =====
-- Signed integers over the native numbers, and `int64_t` in two's complement.
use zephyr_zenoh_integration.Prelude.{
  ℕ, suc, ◌-◌, ◌%◌, ◌^◌, ◌<◌, ◌≡◌, refl, Bool, true, ap, ◌∙◌, if◌then◌else◌, arith, ltb,
}

-- `negsuc n` is -(n + 1).
pub data ℤ : Type 0 where
  pos : ℕ → ℤ
  negsuc : ℕ → ℤ

-- The 64 bits of an `int64_t`, as a number, and the `int64_t` of such a number.
abbrev pub int64_bits : ℤ → ℕ
int64_bits (pos n) = n
int64_bits (negsuc n) = 2 ^ 64 - suc n

unfoldable pub to_int64 : ℕ → ℤ
to_int64 w = if ltb w (2 ^ 63) then pos w else negsuc (2 ^ 64 - suc w)

-- Below 2 ^ 63 an `int64_t` is the number itself.
pub to_int64-small : (n : ℕ) → n < 2 ^ 63 → to_int64 (n % 2 ^ 64) ≡ pos n
unfolding to_int64
to_int64-small n h = ap to_int64 (kept n h) ∙ below (ltb n (2 ^ 63)) (ground arith)
  where
    kept : (n : ℕ) → n < 2 ^ 63 → n % 2 ^ 64 ≡ n
    kept n h = omega arith

    below : (b : Bool) → b ≡ true → (if b then pos n else negsuc (2 ^ 64 - suc n)) ≡ pos n
    below b e = rw e refl
