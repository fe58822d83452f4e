-- ===== src/Pending/Approval.antt =====
-- What an owner's approval leads to: expiry, the executor's input, and the reply against the store.
use mathlib.Core.Option
use tempa.Base.{
  ℕ, ◌+◌, ◌*◌, String, Bool, true, false, not, ◌&&◌, ◌≡◌, refl, ap, Option, none, some, [], ◌∷◌,
  arith, if◌then◌else◌, inl, inr, Bool-cases, leb, All,
}
use tempa.Base.Dict
use tempa.Base.Dict.{Dict, get-put, get-put_self}
use tempa.Base.Value.{Row}
use tempa.Base.Sort.{IsDescending, sort_desc-IsDescending, All-sort_desc}
use tempa.Pending.{
  Action, Store, pending, executed, failed, expired, same_status, is_stale, expire, expire_stale,
  read_all, Proposal, get_pending_action, new_action, ttl_seconds, mark_action, of_status,
  list_pending_actions,
}
use tempa.Pending.Title.{default_title, is_known, create_pending_action}
use tempa.Pending.Call.{Outcome, returned, raised, Outside}
use tempa.Pending.Executor.{run_executor}
use tempa.Pending.Execute.{
  Begun, Reply, done, broken, idempotent, early, started, admit, begin_execution, finish_execution,
  continue_execution, error_result, capture, execute_pending_action,
}
use tempa.Pending.Lifecycle.{stored, get-expire_stale}
use tempa.Pending.Begun.{mark_self, began_there}

-- An action that was created is found again: pending up to its time to live, expired from then on.
pub status-get-create :
    (ttl : Option ℕ) (id : String) (p : Proposal) (now later : ℕ) (store : Store)
    → is_known p.kind ≡ true
    → Option.map
        (λ (a : Action). a.status)
        (get_pending_action id later (create_pending_action ttl id p now store).1).0
      ≡ some (if leb (now + ttl_seconds ttl * 1_000_000) later then expired else pending)
unfolding get_pending_action create_pending_action expire
status-get-create ttl id p now later store known = rw known (
    rw (get-expire_stale later) (
      rw
        (get-put_self (expire_stale now (read_all store)) id
          (new_action ttl now id (default_title p.kind p.payload) p))
        (ground arith)))

-- The action waits for the owner at the time `now`.
abbrev pub is_startable : ℕ → Option Action → Bool
is_startable now none = false
is_startable now (some a) = same_status a.status pending && not (is_stale now a)

abbrev starts : Begun → Bool
starts (early r) = false
starts (started a) = true

admit_unstartable :
    (now : ℕ) (o : Option Action)
    → is_startable now o ≡ false
    → starts (admit (Option.map (expire now) o)) ≡ false
unfolding admit expire
admit_unstartable now none h = refl
admit_unstartable now (some a) h = ground arith

admit_startable :
    (now : ℕ) (a : Action)
    → is_startable now (some a) ≡ true
    → admit (Option.map (expire now) (some a)) ≡ started a
unfolding admit expire
admit_startable now a h = ground arith

admit_executed :
    (now : ℕ) (b : Action) (r : Row)
    → b.status ≡ executed
    → b.result ≡ some r
    → admit (Option.map (expire now) (some b)) ≡ early (idempotent (some r))
unfolding admit expire
admit_executed now b r run held = ground arith

begin-admit :
    (id : String) (now : ℕ) (store : Store)
    → (begin_execution id now store).0 ≡ admit (Option.map (expire now) (stored store id))
unfolding begin_execution get_pending_action
begin-admit id now store = ap admit (get-expire_stale now store id)

module _ {W : Type 0} (o : Outside W) (id : String) where
  idle :
      (later : ℕ) (b : Begun) (store : Store) (w : W)
      → starts b ≡ false
      → (continue_execution o id later b store w).2 ≡ w
  unfolding continue_execution
  idle later (early r) store w h = refl
  idle later (started a) store w h = cc

  -- An execution that finds no action, or one that is settled or past its expiry, calls nothing:
  -- what lies outside the store is as before.
  pub execute_unapproved :
      (now later : ℕ) (store : Store) (w : W)
      → is_startable now (stored store id) ≡ false
      → (execute_pending_action o id now later store w).2 ≡ w
  unfolding execute_pending_action
  execute_unapproved now later store w h =
      idle later (begin_execution id now store).0 (begin_execution id now store).1 w
        (rw begin-admit (admit_unstartable now (stored store id) h))

  -- The reply of an execution agrees with what the store holds afterwards.
  abbrev pub Agrees : Reply → Option Action → Type 0
  Agrees (done r) (some b) = (b.status ≡ executed) × (b.result ≡ some r)
  Agrees (broken e) (some b) = (b.status ≡ failed) × (b.result ≡ some (error_result e))
  Agrees _ _ = ⊥

  Agrees-done :
      (reply : Reply) (found : Option Action) {r : Row}
      → Agrees reply found
      → reply ≡ done r
      → (b : Action) × (found ≡ some b) × (b.status ≡ executed) × (b.result ≡ some r)
  Agrees-done (done q) (some b) h e = (b, refl, h.0, ground arith)
  Agrees-done (done q) none h e = absurd h
  Agrees-done (broken q) (some b) h e = cc
  Agrees-done reply found h e = absurd h

  finish-Agrees :
      (later : ℕ) (ran captured : Outcome Row) (store : Store) (a : Action)
      → stored store id ≡ some a
      → Agrees
          (finish_execution id later ran captured store).0
          (stored (finish_execution id later ran captured store).1 id)
  unfolding finish_execution
  finish-Agrees later (raised e) captured store a there =
      rw (mark_self id failed (error_result e) later store a there) (refl, refl)
  finish-Agrees later (returned r) (returned c) store a there =
      rw (mark_self id executed r later store a there) (refl, refl)
  finish-Agrees later (returned r) (raised e) store a there =
      rw
        (mark_self id failed (error_result e) later (mark_action id executed (some r) later store).1
          _ (mark_self id executed r later store a there))
        (refl, refl)

  begun :
      (now : ℕ) (store : Store) (a : Action)
      → stored store id ≡ some a
      → is_startable now (some a) ≡ true
      → (begin_execution id now store).0 ≡ started a
  begun now store a there ok = rw (begin-admit, there) (admit_startable now a ok)

  -- An execution of an action that waits for the owner hands the stored payload to the executor, and
  -- its reply agrees with what the store then holds.
  pub execute_approved :
      (now later : ℕ) (store : Store) (a : Action) (w : W)
      → stored store id ≡ some a
      → is_startable now (some a) ≡ true
      → ((execute_pending_action o id now later store w).2
          ≡ (let (ran, w') = run_executor o a.kind a.payload w in (capture o a ran w').1))
        × Agrees
            (execute_pending_action o id now later store w).0
            (stored (execute_pending_action o id now later store w).1 id)
  unfolding execute_pending_action continue_execution
  execute_approved now later store a w there ok = rw (begun now store a there ok) (
    refl,
    finish-Agrees later _ _ (begin_execution id now store).1 _
        (began_there id now store (begun now store a there ok)),
  )

  replies_again :
      (again after : ℕ) (store : Store) (b : Action) (w : W) (r : Row)
      → stored store id ≡ some b
      → b.status ≡ executed
      → b.result ≡ some r
      → ((execute_pending_action o id again after store w).0 ≡ idempotent (some r))
        × ((execute_pending_action o id again after store w).2 ≡ w)
  unfolding execute_pending_action continue_execution
  replies_again again after store b w r there run held = rw (begun_again) (refl, refl)
    where
      begun_again : (begin_execution id again store).0 ≡ early (idempotent (some r))
      begun_again = rw (begin-admit, there) (admit_executed again b r run held)

  -- Once an execution has replied with a result, the next one replies with that result again, and
  -- calls nothing.
  pub execute_twice :
      (now later again after : ℕ) (store : Store) (a : Action) (w : W) (r : Row)
      → stored store id ≡ some a
      → is_startable now (some a) ≡ true
      → (execute_pending_action o id now later store w).0 ≡ done r
      → (let (reply, store', w') = execute_pending_action o id now later store w in
          let (reply', store'', w'') = execute_pending_action o id again after store' w' in
          (reply' ≡ idempotent (some r)) × (w'' ≡ w'))
  execute_twice now later again after store a w r there ok replied =
      let (b, held, run, result) =
        Agrees-done _ _ (execute_approved now later store a w there ok).1 replied in
      replies_again again after (execute_pending_action o id now later store w).1 b
        (execute_pending_action o id now later store w).2 r held run result

expire_startable :
    (now : ℕ) (a : Action)
    → same_status (expire now a).status pending ≡ true
    → is_startable now (some (expire now a)) ≡ true
unfolding expire
expire_startable now a h = ground arith

current :
    (now : ℕ) (d : Dict Action)
    → All
        (λ a. is_startable now (some a) ≡ true)
        (of_status (some pending) (Dict.values (Dict.map_values (expire now) d)))
unfolding Dict.map_values
current now [] = tt
current now ((k, a) ∷ d) = elim (Bool-cases (same_status (expire now a).status pending)) [
  | inl waits ↦ rw waits (expire_startable now a waits, current now d)
  | inr settled ↦ rw settled (current now d)
]

-- A listing falls in the time of creation, and what it shows as pending is not past its expiry.
pub list_pending_current :
    (now : ℕ) (store : Store)
    → IsDescending (λ a. a.created_at) (list_pending_actions (some pending) now store).0
      × All
          (λ a. is_startable now (some a) ≡ true)
          (list_pending_actions (some pending) now store).0
unfolding list_pending_actions
list_pending_current now store = (
  sort_desc-IsDescending (λ a. a.created_at) _,
  All-sort_desc (λ a. a.created_at) (λ a. is_startable now (some a) ≡ true) _
      (current now (read_all store)),
)
