-- ===== src/Dedupe/Marks.antt =====
-- What marking keys does to the memory, the bound and the file of the store of seen keys.
use tempa.Base.{
  ◌-◌, ◌≤◌, String, true, false, ◌&&◌, ◌≡◌, refl, Option, none, some, List, [], ◌∷◌, ◌++◌, leb,
  contains, length, length-append, length-drop, drop, arith, inl, inr, Bool-cases,
}
use tempa.Dedupe.{
  Store, max_keys, deque_append, add, load, loaded, is_nil, evict, remember, mark_seen,
}

-- The length of the deque that the store keeps.
abbrev pub IsBounded : Store → Type 0
IsBounded s = length s.order ≤ max_keys

length-deque_append :
    (order : List String) (key : String)
    → length order ≤ max_keys
    → length (deque_append max_keys order key) ≤ max_keys
unfolding deque_append
length-deque_append order key h = elim (Bool-cases (leb max_keys (length order))) [
  | inl full ↦ rw full (omega (arith, length-append (drop 1 order) (key ∷ []), length-drop 1 order))
  | inr room ↦ rw room (ground (arith, length-append order (key ∷ []), room))
]

-- The loop that takes the oldest keys out of the set does nothing where the deque is within bounds.
evict_within :
    (order seen : List String) → length order ≤ max_keys → evict order seen ≡ (order, seen)
unfolding evict
evict_within [] seen h = refl
evict_within (k ∷ order) seen h = ground (arith, h)

remember_lem :
    (key : String) (s : Store)
    → IsBounded s
    → remember key s ≡ record {
      seen = add s.seen key;
      order = deque_append max_keys s.order key;
      file = some (deque_append max_keys s.order key);
    }
unfolding remember
remember_lem key s h = rw (
    evict_within (deque_append max_keys s.order key) (add s.seen key)
      (length-deque_append s.order key h))

load-IsBounded : (s : Store) → IsBounded s → IsBounded (load s)
unfolding load
load-IsBounded s h = go s.file
  where
    go : (f : Option (List String)) → IsBounded (load (record s { file = f }))
    go none = h
    go (some ids) = omega (arith, length-drop (length ids - max_keys) ids)

loaded-IsBounded : (s : Store) → IsBounded s → IsBounded (loaded s)
unfolding loaded
loaded-IsBounded s h = elim (Bool-cases (is_nil s.order && is_nil s.seen)) [
  | inl empty ↦ rw empty (load-IsBounded s h)
  | inr full ↦ rw full h
]

-- Marking a key keeps the deque within its bound, in memory and in the file.
pub mark_seen-IsBounded : (key : String) (s : Store) → IsBounded s → IsBounded (mark_seen key s).1
unfolding mark_seen
mark_seen-IsBounded key s h = elim (Bool-cases (contains (loaded s).seen key)) [
  | inl old ↦ rw old (loaded-IsBounded s h)
  | inr new ↦
      rw (new, remember_lem key (loaded s) (loaded-IsBounded s h))
        (length-deque_append (loaded s).order key (loaded-IsBounded s h))
]

-- The store after several keys were marked, one after the other.
abbrev pub mark_all : List String → Store → Store
mark_all [] s = s
mark_all (key ∷ keys) s = mark_all keys (mark_seen key s).1

module _ (key old : String) (rest : List String) (s : Store) (full : s.order ≡ old ∷ rest)
    (size : length s.order ≡ max_keys) (kept : contains s.seen old ≡ true)
    (new : contains s.seen key ≡ false) (once : contains rest old ≡ false) where
  after : List String
  after = rest ++ key ∷ []
