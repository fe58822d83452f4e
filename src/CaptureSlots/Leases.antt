-- ===== src/CaptureSlots/Leases.antt =====
-- The pool against the slots that are out: the two together stay the same.
use Prim.Native.Nat.{max}
use mathlib.Core.List.Perm
use mathlib.Core.List.{Perm, append-nil, append_assoc, perm_middle}
use tempa.Base.{
  ℕ, zero, suc, ◌+◌, ◌≡◌, ◌≢◌, refl, ap, subst, Option, none, some, List, [], ◌∷◌, ◌++◌, arith,
  length, length-append,
}
use tempa.CaptureSlots.{
  CaptureSlot, CaptureSlotPool, slots_from, new_pool, take_slot, try_acquire, release,
}

-- The pool and the slots that were acquired and not released, the latest first.
pub record Leased : Type 0 where
  pub pool : CaptureSlotPool
  pub out : List CaptureSlot

-- What a holder of slots can do. `give_back` releases a slot that stands in `out`.
pub data Step : Leased → Leased → Type 0 where
  acquire :
      {p q : CaptureSlotPool} {out : List CaptureSlot} (slot : CaptureSlot)
      → try_acquire p ≡ (some slot, q)
      → Step (record { pool = p; out = out }) (record { pool = q; out = slot ∷ out })
  give_back :
      {p q : CaptureSlotPool} (before after : List CaptureSlot) (slot : CaptureSlot)
      → release slot p ≡ some q
      → Step
          (record { pool = p; out = before ++ slot ∷ after })
          (record { pool = q; out = before ++ after })

pub data Reach (n : ℕ) : Leased → Type 0 where
  start : Reach n (record { pool = new_pool n; out = [] })
  next : {s t : Leased} → Reach n s → Step s t → Reach n t

-- The free slots and those that are out are the slots that the pool was made with.
pub record IsWhole (n : ℕ) (s : Leased) : Type 0 where
  pub sized : s.pool.size ≡ max 1 n
  pub counted : length s.pool.free + length s.out ≡ max 1 n
  pub whole : Perm (s.pool.free ++ s.out) (slots_from 0 (max 1 n))

take_slot_cases :
    (free : List CaptureSlot) (p q : CaptureSlotPool) (slot : CaptureSlot)
    → take_slot free p ≡ (some slot, q)
    → (rest : List CaptureSlot) × (free ≡ slot ∷ rest) × (q ≡ record p { free = rest })
unfolding take_slot
take_slot_cases [] p q slot h = cc (ap (λ (t : Option CaptureSlot × CaptureSlotPool). t.0) h)
take_slot_cases (x ∷ xs) p q slot h = (xs, ground arith, ground arith)

release_cases :
    (p q : CaptureSlotPool) (slot : CaptureSlot)
    → release slot p ≡ some q
    → q ≡ record p { free = p.free ++ slot ∷ [] }
unfolding release
release_cases p q slot h = ground arith

Step-IsWhole : {n : ℕ} {s t : Leased} → Step s t → IsWhole n s → IsWhole n t
unfolding take_slot try_acquire
Step-IsWhole {n} (acquire {p} {q} {out} slot h) w =
    let (rest, free, after) = take_slot_cases p.free p q slot h in
    rw after (record {
      sized = w.sized;
      counted = omega (arith, w.counted, ap length free);
      whole =
          Perm.trans (perm_middle rest out)
            (subst (λ l. Perm (l ++ out) (slots_from 0 (max 1 n))) free w.whole);
    })
Step-IsWhole {n} (give_back {p} {q} before after slot h) w = rw (release_cases p q slot h) (record {
  sized = w.sized;
  counted = omega (
    arith,
    w.counted,
    length-append before after,
    length-append before (slot ∷ after),
    length-append p.free (slot ∷ []),
  );
  whole =
      rw append_assoc
        (Perm.trans (Perm.append_left p.free (Perm.symm (perm_middle before after))) w.whole);
})

length-slots_from : (i k : ℕ) → length (slots_from i k) ≡ k
unfolding slots_from
length-slots_from i zero = refl
length-slots_from i (suc k) = ap suc (length-slots_from (suc i) k)

-- However slots are acquired and given back, the free slots and those that are out are together the
-- slots that the pool was made with, each as often.
pub Reach-IsWhole : {n : ℕ} {s : Leased} → Reach n s → IsWhole n s
unfolding new_pool
Reach-IsWhole {n} start = record {
  sized = refl;
  counted = omega (arith, length-slots_from 0 (max 1 n));
  whole = rw append-nil (Perm.refl (slots_from 0 (max 1 n)));
}
Reach-IsWhole (next r st) = Step-IsWhole st (Reach-IsWhole r)

-- Giving back a slot that is out never raises QueueFull.
pub release-ne-none :
    {n : ℕ} {s : Leased} (before after : List CaptureSlot) (slot : CaptureSlot)
    → Reach n s
    → s.out ≡ before ++ slot ∷ after
    → release slot s.pool ≢ none
unfolding release
release-ne-none before after slot r e =
    let w = Reach-IsWhole r in
    ground (arith, w.sized, w.counted, ap length e, length-append before (slot ∷ after))
