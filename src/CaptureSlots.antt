-- ===== src/CaptureSlots.antt =====
-- The pool of capture slots: meet/capture_slots.py of src/tempa.
mod Examples
pub mod Leases
use Prim.Native.String.{◌++◌ as append}
use Prim.Native.Nat.{max}
use tempa.Base.{
  ℕ, zero, suc, ◌+◌, String, Bool, Option, none, some, List, [], ◌∷◌, ◌++◌, leb, length,
  if◌then◌else◌,
}
use tempa.Base.Value.{str_ℕ}

pub record CaptureSlot : Type 0 where
  pub index : ℕ
  pub display : String
  pub pulse_sink : String
  pub pulse_monitor : String

-- Indices are natural numbers, so that the test for a negative one has nothing to refuse.
unfoldable pub slot_for_index : ℕ → CaptureSlot
slot_for_index index = record {
  index = index;
  display = append ":" (str_ℕ (99 + index));
  pulse_sink = append "meet_sink_" (str_ℕ index);
  pulse_monitor = append (append "meet_sink_" (str_ℕ index)) ".monitor";
}

-- `free` is the queue of free slots, its next one first; its `maxsize` is `size`.
pub record CaptureSlotPool : Type 0 where
  pub size : ℕ
  pub free : List CaptureSlot

-- The slots of `k` rounds of the loop in `__init__`, from the index `i` on.
unfoldable pub slots_from : ℕ → ℕ → List CaptureSlot
slots_from i zero = []
slots_from i (suc k) = slot_for_index i ∷ slots_from (suc i) k

unfoldable pub new_pool : ℕ → CaptureSlotPool
new_pool size = record { size = max 1 size; free = slots_from 0 (max 1 size) }

unfoldable pub available : CaptureSlotPool → ℕ
available p = length p.free

-- `try_acquire`; `acquire` is the same where a slot is free, and waits otherwise.
unfoldable pub take_slot : List CaptureSlot → CaptureSlotPool → Option CaptureSlot × CaptureSlotPool
take_slot [] p = (none, p)
take_slot (slot ∷ slots) p = (some slot, record p { free = slots })

unfoldable pub try_acquire : CaptureSlotPool → Option CaptureSlot × CaptureSlotPool
unfolding take_slot
try_acquire p = take_slot p.free p

-- `release`; `none` is the QueueFull that `put_nowait` raises.
unfoldable pub release : CaptureSlot → CaptureSlotPool → Option CaptureSlotPool
release slot p =
    if leb p.size (length p.free) then none else some (record p { free = p.free ++ slot ∷ [] })
