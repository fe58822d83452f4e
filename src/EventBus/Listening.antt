-- ===== src/EventBus/Listening.antt =====
-- What a subscriber of core/events.py hears.
use mathlib.Core.List.{append-nil, append_assoc}
use tempa.Base.{
  ℕ, suc, true, false, List, [], ◌∷◌, ◌++◌, ◌≡◌, ◌<◌, ◌≤◌, ◌≢◌, refl, sym, ap, ◌∙◌, subst, arith,
  inl, inr, eqb, if◌then◌else◌, snoc, Bool-cases,
}
use tempa.EventBus.{EventBus, subscribe, unsubscribe, publish, new_bus, remove, put, put_all}

-- How often a queue is subscribed.
abbrev count : ℕ → List ℕ → ℕ
count queue [] = 0
count queue (s ∷ subscribers) =
    if eqb s queue then suc (count queue subscribers) else count queue subscribers

count-snoc :
    (queue s : ℕ) (subscribers : List ℕ)
    → eqb s queue ≡ false
    → count queue (snoc subscribers s) ≡ count queue subscribers
count-snoc queue s [] h = rw h refl
count-snoc queue s (x ∷ subscribers) h =
    let rest = count-snoc queue s subscribers h in ap (λ n. if eqb x queue then suc n else n) rest

count-snoc_self :
    (queue : ℕ) (subscribers : List ℕ)
    → count queue subscribers ≡ 0
    → count queue (snoc subscribers queue) ≡ 1
count-snoc_self queue [] h = ground arith
count-snoc_self queue (x ∷ subscribers) h =
    let rest = count-snoc_self queue subscribers in ground arith

count-remove_other :
    (queue q : ℕ) (subscribers : List ℕ)
    → eqb q queue ≡ false
    → count queue (remove q subscribers) ≡ count queue subscribers
unfolding remove
count-remove_other queue q [] h = refl
count-remove_other queue q (x ∷ subscribers) h =
    let rest = count-remove_other queue q subscribers h in ground arith

count-remove :
    (queue : ℕ) (subscribers : List ℕ) (n : ℕ)
    → count queue subscribers ≡ suc n
    → count queue (remove queue subscribers) ≡ n
unfolding remove
count-remove queue [] n h = absurd cc
count-remove queue (x ∷ subscribers) n h =
    let rest = count-remove queue subscribers n in ground arith

count-remove_none :
    (queue q : ℕ) (subscribers : List ℕ)
    → count queue subscribers ≡ 0
    → count queue (remove q subscribers) ≡ 0
unfolding remove
count-remove_none queue q [] h = refl
count-remove_none queue q (x ∷ subscribers) h =
    let rest = count-remove_none queue q subscribers in ground arith

counted_none :
    (x : ℕ) (subscribers : List ℕ) (queue : ℕ)
    → eqb x queue ≡ true
    → count queue (x ∷ subscribers) ≢ 0
counted_none x subscribers queue same h =
    let h' =
      subst (λ b. (if b then suc (count queue subscribers) else count queue subscribers) ≡ 0) same
        h in
    absurd cc

-- A call on the bus.
pub data Call (E : Type 0) : Type 0 where
  join : Call E
  leave : ℕ → Call E
  send : E → Call E

module _ {E : Type 0} where
  abbrev pub run : Call E → EventBus E → EventBus E
  run join bus = (subscribe bus).1
  run (leave queue) bus = unsubscribe queue bus
  run (send e) bus = publish e bus

  abbrev pub run_all : List (Call E) → EventBus E → EventBus E
  run_all [] bus = bus
  run_all (c ∷ calls) bus = run_all calls (run c bus)

  -- The events that are sent before the queue leaves, in order.
  abbrev pub heard : ℕ → List (Call E) → List E
  heard queue [] = []
  heard queue (join ∷ calls) = heard queue calls
  heard queue (leave q ∷ calls) = if eqb q queue then [] else heard queue calls
  heard queue (send e ∷ calls) = e ∷ heard queue calls

  put_all_silent :
      (subscribers : List ℕ) (e : E) (queues : ℕ → List E) (queue : ℕ)
      → count queue subscribers ≡ 0
      → put_all subscribers e queues queue ≡ queues queue
  unfolding put_all
  put_all_silent [] e queues queue h = refl
  put_all_silent (x ∷ subscribers) e queues queue h = elim (Bool-cases (eqb x queue)) [
    | inl same ↦ absurd (counted_none x subscribers queue same h)
    | inr apart ↦
        put_all_silent subscribers e (put x e queues) queue (ground (arith, h, apart))
        ∙ rw apart refl
  ]

  put_all_once :
      (subscribers : List ℕ) (e : E) (queues : ℕ → List E) (queue : ℕ)
      → count queue subscribers ≡ 1
      → put_all subscribers e queues queue ≡ snoc (queues queue) e
  unfolding put_all
  put_all_once [] e queues queue h = absurd cc
  put_all_once (x ∷ subscribers) e queues queue h = elim (Bool-cases (eqb x queue)) [
    | inl same ↦
        put_all_silent subscribers e (put x e queues) queue (ground (arith, h, same)) ∙ rw same refl
    | inr apart ↦
        put_all_once subscribers e (put x e queues) queue (ground (arith, h, apart)) ∙ rw apart refl
  ]

  -- A queue that is not subscribed hears nothing more.
  deaf :
      (calls : List (Call E)) (bus : EventBus E) (queue : ℕ)
      → queue < bus.made
      → count queue bus.subscribers ≡ 0
      → (run_all calls bus).queues queue ≡ bus.queues queue
  unfolding subscribe unsubscribe publish
  deaf [] bus queue old gone = refl
  deaf (join ∷ calls) bus queue old gone =
      deaf calls (subscribe bus).1 queue (omega (arith, old))
        (count-snoc queue bus.made bus.subscribers (ground (arith, old)) ∙ gone)
  deaf (leave q ∷ calls) bus queue old gone =
      deaf calls (unsubscribe q bus) queue old (count-remove_none queue q bus.subscribers gone)
  deaf (send e ∷ calls) bus queue old gone =
      deaf calls (publish e bus) queue old gone
      ∙ put_all_silent bus.subscribers e bus.queues queue gone

  listens :
      (calls : List (Call E)) (bus : EventBus E) (queue : ℕ)
      → queue < bus.made
      → count queue bus.subscribers ≡ 1
      → (run_all calls bus).queues queue ≡ bus.queues queue ++ heard queue calls
  unfolding subscribe unsubscribe publish
  listens [] bus queue old once = sym (append-nil (bus.queues queue))
  listens (join ∷ calls) bus queue old once =
      listens calls (subscribe bus).1 queue (omega (arith, old))
        (count-snoc queue bus.made bus.subscribers (ground (arith, old)) ∙ once)
  listens (leave q ∷ calls) bus queue old once = elim (Bool-cases (eqb q queue)) [
    | inl same ↦
        let e : q ≡ queue = ground (arith, same) in
        rw same (
          deaf calls (unsubscribe q bus) queue old (
            subst (λ r. count queue (remove r bus.subscribers) ≡ 0) (sym e)
              (count-remove queue bus.subscribers 0 once))
          ∙ sym (append-nil (bus.queues queue)))
    | inr apart ↦ rw apart (
        listens calls (unsubscribe q bus) queue old
          (count-remove_other queue q bus.subscribers apart ∙ once))
  ]
  listens (send e ∷ calls) bus queue old once =
      listens calls (publish e bus) queue old once
      ∙ ap (λ xs. xs ++ heard queue calls) (put_all_once bus.subscribers e bus.queues queue once)
      ∙ append_assoc (bus.queues queue) (e ∷ []) (heard queue calls)

  -- A queue that was not made is not subscribed, and nothing was put in it.
  abbrev IsSound : EventBus E → Type 0
  IsSound bus =
      (queue : ℕ) → bus.made ≤ queue → (count queue bus.subscribers ≡ 0) × (bus.queues queue ≡ [])

  run-IsSound : (c : Call E) (bus : EventBus E) → IsSound bus → IsSound (run c bus)
  unfolding subscribe unsubscribe publish
  run-IsSound join bus h queue new =
      let (absent, empty) = h queue (omega (arith, new)) in
      (count-snoc queue bus.made bus.subscribers (ground (arith, new)) ∙ absent, empty)
  run-IsSound (leave q) bus h queue new =
      let (absent, empty) = h queue new in (count-remove_none queue q bus.subscribers absent, empty)
  run-IsSound (send e) bus h queue new =
      let (absent, empty) = h queue new in
      (absent, put_all_silent bus.subscribers e bus.queues queue absent ∙ empty)

  run_all-IsSound :
      (calls : List (Call E)) (bus : EventBus E) → IsSound bus → IsSound (run_all calls bus)
  run_all-IsSound [] bus h = h
  run_all-IsSound (c ∷ calls) bus h = run_all-IsSound calls (run c bus) (run-IsSound c bus h)

  -- Whatever happened on the bus before, and whoever else joins or leaves: a queue gets the events
  -- that are published after it was subscribed and before it is unsubscribed, each once and in order,
  -- and no others.
  pub queues-subscribe :
      (before calls : List (Call E))
      → (run_all calls (subscribe (run_all before new_bus)).1).queues
          (subscribe (run_all before new_bus)).0
        ≡ heard (subscribe (run_all before new_bus)).0 calls
  unfolding subscribe
  queues-subscribe before calls =
      let bus : EventBus E = run_all before new_bus in
      let (absent, empty) =
        run_all-IsSound before new_bus (λ queue new. (refl, refl)) bus.made (omega arith) in
      listens calls (subscribe bus).1 bus.made (omega arith)
        (count-snoc_self bus.made bus.subscribers absent)
      ∙ ap (λ xs. xs ++ heard bus.made calls) empty
