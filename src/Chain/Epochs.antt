-- ===== src/Chain/Epochs.antt =====
-- The arithmetic of slots and epochs.
use beacon_kit.Chain.{ChainSpec, slot_to_epoch, ℕ, active_fork_version_for_slot}
use beacon_kit.Prelude.{◌≤◌, arith, ◌/◌, zero, suc}
use native.Mathlib.Nat.{div-le_self, div-zero, le-div_iff_mul-le, div-mul-le_self, le_trans}

pub slot_to_epoch_le : (cs : ChainSpec) (slot : ℕ) → slot_to_epoch cs slot ≤ slot
unfolding slot_to_epoch
slot_to_epoch_le cs slot = div-le_self slot cs.slots_per_epoch

div_mono : (a b n : ℕ) → a ≤ b → a / n ≤ b / n
div_mono a b zero h = rw (div-zero a, div-zero b) (omega arith)
div_mono a b (suc n) h =
    (le-div_iff_mul-le (omega arith)).1 (le_trans (div-mul-le_self a (suc n)) h)

-- The active fork never goes back as slots pass.
fork_version_mono :
    (cs : ChainSpec) (s t : ℕ)
    → s ≤ t
    → active_fork_version_for_slot cs s ≤ active_fork_version_for_slot cs t
unfolding active_fork_version_for_slot
fork_version_mono cs s t h = ground (arith, div_mono s t cs.slots_per_epoch)
