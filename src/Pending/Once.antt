-- ===== src/Pending/Once.antt =====
-- The approval store under any order of requests, the two halves of an execution apart.
use tempa.Base.{
  ℕ, ◌+◌, ◌≤◌, String, true, ◌≡◌, refl, sym, subst, Option, none, List, [], ◌∷◌, arith, eq_iff,
  ◌==◌, if◌then◌else◌, inl, inr, Bool-cases, ◌⊎◌,
}
use tempa.Base.Value.{Row}
use tempa.Pending.{
  Store, Status, Proposal, get_pending_action, list_pending_actions, update_pending_payload,
  reject_pending_action,
}
use tempa.Pending.Title.{create_pending_action}
use tempa.Pending.Call.{Outcome}
use tempa.Pending.Execute.{Begun, early, started, begin_execution, finish_execution}
use tempa.Pending.Lifecycle.{
  stored, is_settled, get_settled, list_settled, create_settled, update_settled, reject_settled,
  finish_settled, begin_settled,
}
use tempa.Pending.Begun.{began_before, began_after}

-- A request to the store, or a half of an execution.
pub data Event : Type 0 where
  create : Option ℕ → String → Proposal → ℕ → Event
  list : Option Status → ℕ → Event
  look_up : String → ℕ → Event
  update : String → Row → ℕ → Event
  reject : String → ℕ → Event
  begin : String → ℕ → Event
  finish : String → ℕ → (ran captured : Outcome Row) → Event

-- The stored file, and the identifiers whose executor was started, the latest first.
pub record World : Type 0 where
  pub store : Store
  pub runs : List String

abbrev noted : String → Begun → List String → List String
noted id (early r) runs = runs
noted id (started a) runs = id ∷ runs

unfoldable pub step : Event → World → World
step (create ttl id p now) w = record w { store = (create_pending_action ttl id p now w.store).1 }
step (list s now) w = record w { store = (list_pending_actions s now w.store).1 }
step (look_up id now) w = record w { store = (get_pending_action id now w.store).1 }
step (update id payload now) w = record w {
  store = (update_pending_payload id payload now w.store).1;
}
step (reject id now) w = record w { store = (reject_pending_action id now w.store).1 }
step (begin id now) w =
    let (begun, store') = begin_execution id now w.store in
    record { store = store'; runs = noted id begun w.runs }
step (finish id now ran captured) w = record w {
  store = (finish_execution id now ran captured w.store).1;
}

unfoldable pub run : List Event → World → World
run [] w = w
run (e ∷ es) w = run es (step e w)

-- `uuid4` gives an identifier that is not in the store.
abbrev pub IsFresh : Event → World → Type 0
IsFresh (create ttl id p now) w = stored w.store id ≡ none
IsFresh _ w = Unit

abbrev pub AreFresh : List Event → World → Type 0
AreFresh [] w = Unit
AreFresh (e ∷ es) w = IsFresh e w × AreFresh es (step e w)

abbrev pub occurrences : String → List String → ℕ
occurrences id [] = 0
occurrences id (j ∷ js) = (if j == id then 1 else 0) + occurrences id js

-- Either the executor never started for `id`, or it started once and `id` is settled.
abbrev IsOnce : String → World → Type 0
IsOnce id w =
    (occurrences id w.runs ≡ 0)
    ⊎ ((occurrences id w.runs ≡ 1) × (is_settled (stored w.store id) ≡ true))

keep-IsOnce :
    (id : String) (w : World) (after : Store)
    → (is_settled (stored w.store id) ≡ true → is_settled (stored after id) ≡ true)
    → IsOnce id w
    → IsOnce id (record w { store = after })
keep-IsOnce id w after keep (inl never) = inl never
keep-IsOnce id w after keep (inr (once, settled)) = inr (once, keep settled)

begin-IsOnce :
    (id j : String) (now : ℕ) (w : World) (b : Begun)
    → (begin_execution j now w.store).0 ≡ b
    → IsOnce id w
    → IsOnce id (record { store = (begin_execution j now w.store).1; runs = noted j b w.runs })
begin-IsOnce id j now w (early r) e h =
    keep-IsOnce id w (begin_execution j now w.store).1
      (λ settled. begin_settled id now w.store settled j) h
begin-IsOnce id j now w (started a) e (inl never) = elim (Bool-cases (j == id)) [
  | inl same ↦ inr (
    ground arith,
    subst (λ k. is_settled (stored (begin_execution j now w.store).1 k) ≡ true)
        ((eq_iff j id).0 same) (began_after j now w.store e),
  )
  | inr other ↦ inl (ground arith)
]
begin-IsOnce id j now w (started a) e (inr (once, settled)) = elim (Bool-cases (j == id)) [
  | inl same ↦ cc (
    began_before j now w.store e,
    subst (λ k. is_settled (stored w.store k) ≡ true) (sym ((eq_iff j id).0 same)) settled,
  )
  | inr other ↦ inr (ground arith, begin_settled id now w.store settled j)
]

step-IsOnce :
    (id : String) (e : Event) (w : World) → IsFresh e w → IsOnce id w → IsOnce id (step e w)
unfolding step
step-IsOnce id (create ttl j p now) w fresh h =
    keep-IsOnce id w (create_pending_action ttl j p now w.store).1
      (λ settled. create_settled id now w.store settled ttl j p fresh) h
step-IsOnce id (list s now) w _ h =
    keep-IsOnce id w (list_pending_actions s now w.store).1
      (λ settled. list_settled id now w.store settled s) h
step-IsOnce id (look_up j now) w _ h =
    keep-IsOnce id w (get_pending_action j now w.store).1
      (λ settled. get_settled id now w.store settled j) h
step-IsOnce id (update j payload now) w _ h =
    keep-IsOnce id w (update_pending_payload j payload now w.store).1
      (λ settled. update_settled id now w.store settled j payload) h
step-IsOnce id (reject j now) w _ h =
    keep-IsOnce id w (reject_pending_action j now w.store).1
      (λ settled. reject_settled id now w.store settled j) h
step-IsOnce id (begin j now) w _ h =
    begin-IsOnce id j now w (begin_execution j now w.store).0 refl h
step-IsOnce id (finish j now ran captured) w _ h =
    keep-IsOnce id w (finish_execution j now ran captured w.store).1
      (λ settled. finish_settled id now w.store settled j ran captured) h

run-IsOnce :
    (id : String) (es : List Event) (w : World) → AreFresh es w → IsOnce id w → IsOnce id (run es w)
unfolding run
run-IsOnce id [] w fresh h = h
run-IsOnce id (e ∷ es) w fresh h =
    run-IsOnce id es (step e w) fresh.1 (step-IsOnce id e w fresh.0 h)

-- Whatever requests and halves of executions reach the store, in whatever order, the executor of
-- an action starts at most once, provided that each created action gets an identifier that is not
-- in the store.
pub runs-le-one :
    (id : String) (es : List Event) (store : Store)
    → AreFresh es (record { store = store; runs = [] })
    → occurrences id (run es (record { store = store; runs = [] })).runs ≤ 1
runs-le-one id es store fresh =
    elim (run-IsOnce id es (record { store = store; runs = [] }) fresh (inl refl)) [
      | inl never ↦ omega (arith, never)
      | inr (once, settled) ↦ omega (arith, once)
    ]
