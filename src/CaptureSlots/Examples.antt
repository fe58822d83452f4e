-- ===== src/CaptureSlots/Examples.antt =====
-- A pool of one slot that is acquired and given back.
use tempa.Base.{◌≡◌, refl, [], ◌∷◌}
use tempa.Base.Value.{str_ℕ}
use tempa.CaptureSlots.{slot_for_index, slots_from, new_pool, try_acquire}
use tempa.CaptureSlots.Leases.{Leased, Reach, start, next, acquire, IsWhole, Reach-IsWhole}

abbrev taken : Leased
taken = record { pool = record { size = 1; free = [] }; out = slot_for_index 0 ∷ [] }

taken-Reach : Reach 1 taken
unfolding try_acquire new_pool slots_from
taken-Reach = next start (acquire (slot_for_index 0) refl)

Reach-IsWhole_example : IsWhole 1 taken
Reach-IsWhole_example = Reach-IsWhole taken-Reach

names_of_slot : (slot_for_index 1).display ≡ ":100"
unfolding slot_for_index str_ℕ
names_of_slot = refl
