-- ===== src/Dedupe.antt =====
-- The store of WhatsApp message keys that were seen: channels/whatsapp/dedupe.py of src/tempa. A
-- deque is a list with its oldest item first, a set a list that gains no second copy of an item.
mod Examples
pub mod Marks
use tempa.Base.{
  ℕ, suc, ◌-◌, String, Bool, true, false, ◌&&◌, not, Option, none, some, List, [], ◌∷◌, ◌++◌, ltb,
  leb, ◌==◌, contains, length, drop, if◌then◌else◌,
}

-- `maxlen` of `_order`, and the bound of the loop in `mark_seen`
abbrev pub max_keys : ℕ
max_keys = 5000

-- The globals `_seen` and `_order`, and the ids in dedupe.json: `none` where the file is missing or
-- holds no list of ids.
pub record Store : Type 0 where
  pub seen : List String
  pub order : List String
  pub file : Option (List String)

-- `deque(maxlen=cap).append`: a full deque drops its oldest item first.
unfoldable pub deque_append : ℕ → List String → String → List String
deque_append cap order key =
    if leb cap (length order) then drop 1 order ++ key ∷ [] else order ++ key ∷ []

unfoldable pub add : List String → String → List String
add s key = if contains s key then s else key ∷ s

unfoldable pub discard : List String → String → List String
discard [] key = []
discard (k ∷ s) key = let rest = discard s key in if k == key then rest else k ∷ rest

unfoldable pub set_of : List String → List String
unfolding add
set_of [] = []
set_of (k ∷ ks) = add (set_of ks) k

-- `ids[-5000:]`
abbrev pub last_keys : List String → List String
last_keys ids = drop (length ids - max_keys) ids

unfoldable pub load : Store → Store
load s = elim s.file [
  | none ↦ s
  | some ids ↦ record { seen = set_of (last_keys ids); order = last_keys ids; file = some ids }
]

abbrev pub is_nil : List String → Bool
is_nil [] = true
is_nil (k ∷ ks) = false

-- The store is read from its file while nothing is in memory.
unfoldable pub loaded : Store → Store
loaded s = if is_nil s.order && is_nil s.seen then load s else s

-- `while len(_order) > 5000`
unfoldable pub evict : List String → List String → List String × List String
evict [] seen = ([], seen)
evict (old ∷ order) seen =
    let rest = evict order (discard seen old) in
    if ltb max_keys (length (old ∷ order)) then rest else (old ∷ order, seen)

unfoldable pub is_seen : String → Store → Bool × Store
is_seen key s = let s' = loaded s in (contains s'.seen key, s')

-- The new key is remembered, and the file is written.
unfoldable pub remember : String → Store → Store
remember key s =
    let (order, seen) = evict (deque_append max_keys s.order key) (add s.seen key) in
    record { seen = seen; order = order; file = some order }

unfoldable pub mark_seen : String → Store → Bool × Store
mark_seen key s =
    let s' = loaded s in if contains s'.seen key then (false, s') else (true, remember key s')

-- A fresh process, after `bootstrap`.
unfoldable pub restart : Store → Store
restart s = load (record { seen = []; order = []; file = s.file })
