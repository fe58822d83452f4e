-- ===== src/Pending/Lifecycle.antt =====
-- What the operations of the approval store do to the status of each action.
use tempa.Base.{
  ℕ, String, Bool, true, false, not, ◌≡◌, ◌≢◌, refl, Option, none, some, arith, eq_iff, inl, inr,
  Bool-cases,
}
use mathlib.Core.Option
use tempa.Base.Dict
use tempa.Base.Dict.{Dict, get-put, get-put_self, get-map_values}
use tempa.Base.Value.{Row}
use tempa.Pending.{
  Action, Store, Status, pending, approved, rejected, failed, executed, Proposal, same_status,
  expire, expire_stale, read_all, list_pending_actions, get_pending_action, update_pending_payload,
  update_found, reject_pending_action, reject_found, mark_action, mark_found, or_old,
}
use tempa.Pending.Title.{is_known, create_pending_action}
use tempa.Pending.Call.{Outcome, returned, raised}
use tempa.Pending.Execute.{
  Begun, early, started, admit, begun_store, begin_execution, finish_execution,
}

-- The action that is stored under an identifier.
abbrev pub stored : Store → String → Option Action
stored store id = Dict.get (read_all store) id

-- It is there, and no longer waits for the owner.
abbrev pub is_settled : Option Action → Bool
is_settled none = false
is_settled (some a) = not (same_status a.status pending)

pub get-expire_stale :
    (now : ℕ) (store : Store) (j : String)
    → Dict.get (expire_stale now (read_all store)) j ≡ Option.map (expire now) (stored store j)
unfolding expire_stale
get-expire_stale now store j = get-map_values (expire now) (read_all store) j

expire_settled :
    (now : ℕ) (o : Option Action)
    → is_settled o ≡ true
    → is_settled (Option.map (expire now) o) ≡ true
unfolding expire
expire_settled now none h = h
expire_settled now (some a) h = ground arith

expire_stale_settled :
    (now : ℕ) (store : Store) (j : String)
    → is_settled (stored store j) ≡ true
    → is_settled (Dict.get (expire_stale now (read_all store)) j) ≡ true
expire_stale_settled now store j h = rw get-expire_stale (expire_settled now (stored store j) h)

module _ (j : String) (now : ℕ) (store : Store) (h : is_settled (stored store j) ≡ true) where
  pub get_settled : (id : String) → is_settled (stored (get_pending_action id now store).1 j) ≡ true
  unfolding get_pending_action
  get_settled id = expire_stale_settled now store j h

  pub list_settled :
      (s : Option Status) → is_settled (stored (list_pending_actions s now store).1 j) ≡ true
  unfolding list_pending_actions
  list_settled s = expire_stale_settled now store j h

  put_settled :
      (id : String) (b : Action) (d : Dict Action)
      → is_settled (Dict.get d j) ≡ true
      → id ≢ j
      → is_settled (Dict.get (Dict.put d id b) j) ≡ true
  put_settled id b d kept other = ground (arith, get-put d id j b, eq_iff id j)

  pub create_settled :
      (ttl : Option ℕ) (id : String) (p : Proposal)
      → stored store id ≡ none
      → is_settled (stored (create_pending_action ttl id p now store).1 j) ≡ true
  unfolding create_pending_action
  create_settled ttl id p fresh = elim (Bool-cases (is_known p.kind)) [
    | inl known ↦ rw known (
        put_settled id _ (expire_stale now (read_all store)) (expire_stale_settled now store j h)
          (λ same. cc fresh))
    | inr unknown ↦ rw unknown h
  ]

  update_found_settled :
      (id : String) (payload : Row) (o : Option Action)
      → o ≡ stored store id
      → is_settled (stored (update_found id payload now store o).1 j) ≡ true
  unfolding update_found
  update_found_settled id payload none e = h
  update_found_settled id payload (some a) e = ground (
    arith,
    get-put (read_all store) id j (record a { payload = payload; updated_at = now }),
    eq_iff id j,
  )

  pub update_settled :
      (id : String) (payload : Row)
      → is_settled (stored (update_pending_payload id payload now store).1 j) ≡ true
  unfolding update_pending_payload
  update_settled id payload = update_found_settled id payload (stored store id) refl

  reject_found_settled :
      (id : String) (o : Option Action)
      → o ≡ stored store id
      → is_settled (stored (reject_found id now store o).1 j) ≡ true
  unfolding reject_found
  reject_found_settled id none e = h
  reject_found_settled id (some a) e = ground (
    arith,
    get-put (read_all store) id j (record a { status = rejected; updated_at = now }),
    eq_iff id j,
  )

  pub reject_settled :
      (id : String) → is_settled (stored (reject_pending_action id now store).1 j) ≡ true
  unfolding reject_pending_action
  reject_settled id = reject_found_settled id (stored store id) refl

  mark_found_settled :
      (id : String) (s : Status) (result : Option Row) (o : Option Action)
      → same_status s pending ≡ false
      → o ≡ stored store id
      → is_settled (stored (mark_found id s result now store o).1 j) ≡ true
  unfolding mark_found
  mark_found_settled id s result none other e = h
  mark_found_settled id s result (some a) other e = ground (
    arith,
    get-put (read_all store) id j
        (record a { status = s; updated_at = now; result = or_old result a.result }),
    eq_iff id j,
  )

  pub mark_settled :
      (id : String) (s : Status) (result : Option Row)
      → same_status s pending ≡ false
      → is_settled (stored (mark_action id s result now store).1 j) ≡ true
  unfolding mark_action
  mark_settled id s result other = mark_found_settled id s result (stored store id) other refl

-- Marking an action that is there settles it.
pub mark_self_settled :
    (id : String) (s : Status) (result : Option Row) (now : ℕ) (store : Store) (a : Action)
    → same_status s pending ≡ false
    → stored store id ≡ some a
    → is_settled (stored (mark_action id s result now store).1 id) ≡ true
unfolding mark_action
mark_self_settled id s result now store a other there =
    rw (there, mark_found)
      (rw
        (get-put_self (read_all store) id
          (record a { status = s; updated_at = now; result = or_old result a.result }))
        (ground arith))

module _ (j : String) (now : ℕ) (store : Store) (h : is_settled (stored store j) ≡ true) where
  pub finish_settled :
      (id : String) (ran captured : Outcome Row)
      → is_settled (stored (finish_execution id now ran captured store).1 j) ≡ true
  unfolding finish_execution
  finish_settled id (raised e) captured = mark_settled j now store h id failed _ refl
  finish_settled id (returned r) (returned c) = mark_settled j now store h id executed _ refl
  finish_settled id (returned r) (raised e) =
      mark_settled j now _ (mark_settled j now store h id executed _ refl) id failed _ refl

  pub begin_settled : (id : String) → is_settled (stored (begin_execution id now store).1 j) ≡ true
  unfolding begin_execution
  begin_settled id = go (admit (get_pending_action id now store).0)
    where
      after : is_settled (stored (get_pending_action id now store).1 j) ≡ true
      after = get_settled j now store h id

      go :
          (b : Begun)
          → is_settled (stored (begun_store id now b (get_pending_action id now store).1) j) ≡ true
      go (early r) = after
      go (started a) = mark_settled j now _ after id approved none refl
