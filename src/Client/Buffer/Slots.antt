-- ===== src/Client/Buffer/Slots.antt =====
-- zenbedded_rcl/src/zenbedded_client.cpp: the members of one double buffer.
use zephyr_zenoh_integration.Prelude.{
  ℕ, ◌+◌, ◌≡◌, refl, Bool, true, false, ◌==◌, if◌then◌else◌, u32,
}

-- The index of a slot, 0 or 1.
pub data Slot : Type 0 where
  slot_0 slot_1 : Slot

-- `index ^ 1`
abbrev pub other : Slot → Slot
other slot_0 = slot_1
other slot_1 = slot_0

abbrev pub same : Slot → Slot → Bool
same slot_0 slot_0 = true
same slot_1 slot_1 = true
same slot_0 slot_1 = false
same slot_1 slot_0 = false

-- An array of two with one element replaced.
abbrev pub put {ℓ} : {A : Type ℓ} → (Slot → A) → Slot → A → Slot → A
put f slot_0 a slot_0 = a
put f slot_0 a slot_1 = f slot_1
put f slot_1 a slot_0 = f slot_0
put f slot_1 a slot_1 = a

-- The bytes of a slot, by offset, and one byte written.
abbrev pub Content : Type 0
Content = ℕ → ℕ

abbrev pub write_byte : Content → ℕ → ℕ → Content
write_byte m at b k = if at == k then b else m k

-- `state_buffer_`, `state_buffer_version_`, `state_buffer_active_idx_`, or the same of the commands,
-- with `cmd_accepted_count_`. An `atomic_t` wraps at 32 bits.
pub record Shared : Type 0 where
  pub content : Slot → Content
  pub version : Slot → ℕ
  pub active : Slot
  pub accepted : ℕ

-- `reset_buffers` on one of the two buffers; the contents are cleared.
abbrev pub reset : Shared
reset = record { content = λ i k. 0; version = λ i. 0; active = slot_0; accepted = 0 }

-- `atomic_inc`
abbrev pub atomic_inc : ℕ → ℕ
atomic_inc n = u32 (n + 1)

pub put_same : {A : Type 0} (f : Slot → A) (i : Slot) (a : A) → put f i a i ≡ a
put_same f slot_0 a = refl
put_same f slot_1 a = refl

pub put_all :
    {A : Type 0} (P : A → Type 0) (f : Slot → A) (i : Slot) (a : A)
    → P a
    → ((j : Slot) → P (f j))
    → (j : Slot) → P (put f i a j)
put_all P f slot_0 a h k slot_0 = h
put_all P f slot_0 a h k slot_1 = k slot_1
put_all P f slot_1 a h k slot_0 = k slot_0
put_all P f slot_1 a h k slot_1 = h
