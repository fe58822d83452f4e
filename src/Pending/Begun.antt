-- ===== src/Pending/Begun.antt =====
-- What the first half of an execution found, and what it wrote.
use mathlib.Core.Option
use tempa.Base.{ℕ, String, true, false, ◌≡◌, refl, ◌∙◌, subst, Option, none, some, arith}
use tempa.Base.Dict.{get-put_self}
use tempa.Base.Value.{Row}
use tempa.Pending.{
  Action, Store, Status, approved, expire, read_all, get_pending_action, mark_action, mark_found,
  or_old,
}
use tempa.Pending.Execute.{started, admit, begin_execution}
use tempa.Pending.Lifecycle.{stored, is_settled, get-expire_stale, mark_self_settled}

admit_pending :
    (o : Option Action) {a : Action} → admit o ≡ started a → (o ≡ some a) × (is_settled o ≡ false)
unfolding admit
admit_pending none h = cc
admit_pending (some b) h = ground arith

unsettled_before :
    (now : ℕ) (o : Option Action)
    → is_settled (Option.map (expire now) o) ≡ false
    → is_settled o ≡ false
unfolding expire
unsettled_before now none h = refl
unsettled_before now (some a) h = ground arith

found_stored :
    (id : String) (now : ℕ) (store : Store)
    → stored (get_pending_action id now store).1 id ≡ (get_pending_action id now store).0
unfolding get_pending_action
found_stored id now store = refl

found_map :
    (id : String) (now : ℕ) (store : Store)
    → (get_pending_action id now store).0 ≡ Option.map (expire now) (stored store id)
unfolding get_pending_action
found_map id now store = get-expire_stale now store id

pub mark_self :
    (id : String) (s : Status) (r : Row) (now : ℕ) (store : Store) (a : Action)
    → stored store id ≡ some a
    → stored (mark_action id s (some r) now store).1 id
      ≡ some (record a { status = s; updated_at = now; result = some r })
unfolding mark_action
mark_self id s r now store a there = rw (there, mark_found) (get-put_self (read_all store) id _)

pub mark_there :
    (id : String) (s : Status) (r : Option Row) (now : ℕ) (store : Store) (a : Action)
    → stored store id ≡ some a
    → stored (mark_action id s r now store).1 id
      ≡ some (record a { status = s; updated_at = now; result = or_old r a.result })
unfolding mark_action
mark_there id s r now store a there = rw (there, mark_found) (get-put_self (read_all store) id _)

module _ (id : String) (now : ℕ) (store : Store) {a : Action}
    (began : (begin_execution id now store).0 ≡ started a) where
  began_admit : admit (get_pending_action id now store).0 ≡ started a
  unfolding begin_execution
  began_admit = began

  began_found : (get_pending_action id now store).0 ≡ some a
  began_found = (admit_pending _ began_admit).0

  -- An execution starts only for an action that was pending, and leaves it settled.
  pub began_before : is_settled (stored store id) ≡ false
  began_before =
      unsettled_before now (stored store id)
        (subst (λ o. is_settled o ≡ false) (found_map id now store) (admit_pending _ began_admit).1)

  pub began_after : is_settled (stored (begin_execution id now store).1 id) ≡ true
  unfolding begin_execution
  began_after = rw began_admit (
      mark_self_settled id approved none now (get_pending_action id now store).1 a refl
        (found_stored id now store ∙ began_found))

  pub began_there :
      stored (begin_execution id now store).1 id
      ≡ some (record a { status = approved; updated_at = now })
  unfolding begin_execution
  began_there = rw began_admit (
      mark_there id approved none now (get_pending_action id now store).1 a
        (found_stored id now store ∙ began_found))
