-- ===== src/EventBus.antt =====
-- The events of the agents: core/events.py of src/tempa. The bus lives on one event loop. No call
-- gives up its turn between taking the lock and letting it go, and a put to a queue without a bound
-- never waits, so that each call is one step.
mod Examples
pub mod Listening
use tempa.Base.{
  ℕ, zero, suc, Bool, true, false, List, [], ◌∷◌, ◌-◌, eqb, if◌then◌else◌, length, drop, snoc,
}

-- A queue is known by a number, in the order in which the queues were made; `queues` holds what was
-- put in each of them.
pub record EventBus (E : Type 0) : Type 0 where
  pub subscribers : List ℕ
  pub queues : ℕ → List E
  pub made : ℕ
  pub history : List E

abbrev history_limit : ℕ
history_limit = 200

-- `self._subscribers.remove(queue)`, where it is there
unfoldable pub remove : ℕ → List ℕ → List ℕ
remove queue [] = []
remove queue (s ∷ subscribers) =
    let rest = remove queue subscribers in if eqb s queue then subscribers else s ∷ rest

module _ {E : Type 0} where
  abbrev pub new_bus : EventBus E
  new_bus = record { subscribers = []; queues = λ q. []; made = 0; history = [] }

  -- `self._history.append(payload)` on a deque with a bound: the oldest events are dropped.
  unfoldable pub append_history : E → List E → List E
  append_history e history =
      let longer = snoc history e in drop (length longer - history_limit) longer

  -- The new queue, and the bus with it.
  unfoldable pub subscribe : EventBus E → ℕ × EventBus E
  subscribe bus =
      (bus.made, record bus { subscribers = snoc bus.subscribers bus.made; made = suc bus.made })

  unfoldable pub unsubscribe : ℕ → EventBus E → EventBus E
  unsubscribe queue bus = record bus { subscribers = remove queue bus.subscribers }

  -- `await queue.put(payload)`
  abbrev pub put : ℕ → E → (ℕ → List E) → ℕ → List E
  put queue e queues q = if eqb queue q then snoc (queues q) e else queues q

  unfoldable pub put_all : List ℕ → E → (ℕ → List E) → ℕ → List E
  put_all [] e queues = queues
  put_all (queue ∷ subscribers) e queues = put_all subscribers e (put queue e queues)

  unfoldable pub publish : E → EventBus E → EventBus E
  publish e bus = record bus {
    history = append_history e bus.history;
    queues = put_all bus.subscribers e bus.queues;
  }

  -- `list(self._history)[-limit:]`, where a limit of 0 takes everything
  unfoldable pub recent_events : (limit : ℕ) → EventBus E → List E
  recent_events zero bus = bus.history
  recent_events (suc n) bus = drop (length bus.history - suc n) bus.history
