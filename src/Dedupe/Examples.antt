-- ===== src/Dedupe/Examples.antt =====
-- Runs of the store of seen keys.
use tempa.Base.{ℕ, zero, suc, none, some, List, [], ◌∷◌, String}
use tempa.Dedupe.{Store}

abbrev stored_one : Store
stored_one = record { seen = []; order = []; file = some ("k" ∷ []) }

-- `n` copies of one key stand in for so many other keys.
copies : ℕ → List String
copies zero = []
copies (suc n) = "b" ∷ copies n

abbrev full_store : Store
full_store = record { seen = "a" ∷ "b" ∷ []; order = "a" ∷ copies 4999; file = none }
