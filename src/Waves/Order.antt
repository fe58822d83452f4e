-- ===== src/Waves/Order.antt =====
-- What the waves are: every subtask once, and each wave ready when it starts.
use mathlib.Core.List.{Perm, perm_middle}
use mathlib.Core.List.Perm
use tempa.Base.{
  ℕ, zero, suc, Bool, true, false, not, List, [], ◌∷◌, ◌++◌, ◌≡◌, ◌≤◌, ◌+◌, ◌⊎◌, refl, sym, arith,
  inl, inr, Bool-cases, All, All-map, All-self, All-select, ap, ◌∙◌, length, select,
}
use tempa.Waves.{
  Task, Done, is_ready, add_wave, next_wave, force, waves_from, with_ids, compute_execution_waves,
}

abbrev pub concat : List (List Task) → List Task
concat [] = []
concat (wave ∷ waves) = wave ++ concat waves

abbrev rest_of : (Task → Bool) → List Task → List Task
rest_of p xs = select (λ t. not (p t)) xs

select-perm : (p : Task → Bool) (xs : List Task) → Perm (select p xs ++ rest_of p xs) xs
select-perm p [] = Perm.refl []
select-perm p (x ∷ xs) = elim (Bool-cases (p x)) [
  | inl kept ↦ rw kept (Perm.cons x (select-perm p xs))
  | inr dropped ↦
      rw dropped
        (Perm.trans (perm_middle (select p xs) (rest_of p xs)) (Perm.cons x (select-perm p xs)))
]

length-select :
    (p : Task → Bool) (xs : List Task) → length (select p xs) + length (rest_of p xs) ≡ length xs
length-select p [] = omega arith
length-select p (x ∷ xs) = elim (Bool-cases (p x)) [
  | inl kept ↦ rw kept (omega (arith, length-select p xs))
  | inr dropped ↦ rw dropped (omega (arith, length-select p xs))
]

append_nil-perm : (xs : List Task) → Perm (xs ++ []) xs
append_nil-perm [] = Perm.refl []
append_nil-perm (x ∷ xs) = Perm.cons x (append_nil-perm xs)

force-perm :
    (wave rest : List Task) → Perm ((force wave rest).0 ++ (force wave rest).1) (wave ++ rest)
force-perm [] rest = append_nil-perm rest
force-perm (t ∷ wave) rest = Perm.refl (t ∷ wave ++ rest)

next_wave-perm :
    (done : Done) (xs : List Task) → Perm ((next_wave done xs).0 ++ (next_wave done xs).1) xs
unfolding next_wave
next_wave-perm done xs =
    Perm.trans (force-perm (select (is_ready done) xs) (rest_of (is_ready done) xs))
      (select-perm (is_ready done) xs)

force-length :
    (n : ℕ) (wave rest : List Task)
    → length wave + length rest ≡ suc n
    → length (force wave rest).1 ≤ n
force-length n [] rest h = omega (arith, h)
force-length n (t ∷ wave) rest h = omega (arith, h)

next_wave-length :
    (done : Done) (t : Task) (xs : List Task) → length (next_wave done (t ∷ xs)).1 ≤ length xs
unfolding next_wave
next_wave-length done t xs =
    force-length (length xs) (select (is_ready done) (t ∷ xs)) (rest_of (is_ready done) (t ∷ xs))
      (length-select (is_ready done) (t ∷ xs))

-- With as much fuel as tasks remain, the waves have each of them, as often.
waves_from-perm :
    (fuel : ℕ) (done : Done) (xs : List Task)
    → length xs ≤ fuel
    → Perm (concat (waves_from fuel done xs)) xs
unfolding waves_from
waves_from-perm zero done [] h = Perm.refl []
waves_from-perm zero done (t ∷ xs) h = elim h [ ]
waves_from-perm (suc fuel) done [] h = Perm.refl []
waves_from-perm (suc fuel) done (t ∷ xs) h =
    let (wave, rest) = next_wave done (t ∷ xs) in
    Perm.trans
      (Perm.append (Perm.refl wave) (
        waves_from-perm fuel (add_wave done wave) rest
          (omega (arith, h, next_wave-length done t xs))))
      (next_wave-perm done (t ∷ xs))

-- A wave is of ready tasks, or it has no ready task and nothing is left after it.
abbrev pub IsFair {ℓ} : {A : Type ℓ} → Done → List Task → List A → Type ℓ
IsFair done wave rest =
    All (λ t. is_ready done t ≡ true) wave ⊎ (All (λ t. is_ready done t ≡ false) wave × (rest ≡ []))

-- Each wave is such a wave once those in front of it are done.
abbrev pub IsOrdered : Done → List (List Task) → Type 0
IsOrdered done [] = Unit
IsOrdered done (wave ∷ waves) = IsFair done wave waves × IsOrdered (add_wave done wave) waves

not-true : (b : Bool) → not b ≡ true → b ≡ false
not-true false h = refl
not-true true h = sym h

All-select_self : (p : Task → Bool) (xs : List Task) → All (λ t. p t ≡ true) (select p xs)
All-select_self p xs = All-select (λ t. p t ≡ true) p xs (All-map (λ t m e. e) xs (All-self xs))

All-rest_of : (p : Task → Bool) (xs : List Task) → All (λ t. p t ≡ false) (rest_of p xs)
All-rest_of p xs =
    All-select (λ t. p t ≡ false) (λ t. not (p t)) xs
      (All-map (λ t m e. not-true (p t) e) xs (All-self xs))

force-IsFair :
    (done : Done) (wave rest : List Task)
    → All (λ t. is_ready done t ≡ true) wave
    → All (λ t. is_ready done t ≡ false) rest
    → IsFair done (force wave rest).0 (force wave rest).1
force-IsFair done [] rest ready unready = inr (unready, refl)
force-IsFair done (t ∷ wave) rest ready unready = inl ready

next_wave-IsFair :
    (done : Done) (xs : List Task) → IsFair done (next_wave done xs).0 (next_wave done xs).1
unfolding next_wave
next_wave-IsFair done xs =
    force-IsFair done (select (is_ready done) xs) (rest_of (is_ready done) xs)
      (All-select_self (is_ready done) xs) (All-rest_of (is_ready done) xs)

waves_nil : (fuel : ℕ) (done : Done) → waves_from fuel done [] ≡ []
unfolding waves_from
waves_nil zero done = refl
waves_nil (suc fuel) done = refl

waves_from-IsOrdered :
    (fuel : ℕ) (done : Done) (xs : List Task) → IsOrdered done (waves_from fuel done xs)
unfolding waves_from
waves_from-IsOrdered zero done xs = tt
waves_from-IsOrdered (suc fuel) done [] = tt
waves_from-IsOrdered (suc fuel) done (t ∷ xs) =
    let (wave, rest) = next_wave done (t ∷ xs) in
    (
      elim (next_wave-IsFair done (t ∷ xs)) [
        | inl ready ↦ inl ready
        | inr (unready, last) ↦ inr (
          unready,
          ap (waves_from fuel (add_wave done wave)) last ∙ waves_nil fuel (add_wave done wave),
        )
      ],
      waves_from-IsOrdered fuel (add_wave done wave) rest,
    )

length-with_ids : (index : ℕ) (tasks : List Task) → length (with_ids index tasks) ≡ length tasks
unfolding with_ids
length-with_ids index [] = refl
length-with_ids index (t ∷ tasks) = ap suc (length-with_ids (suc index) tasks)

-- The waves hold each subtask once, with the identifier that it was given, and every wave is of
-- subtasks whose dependencies are done, or it is the last one and none of its subtasks was ready.
pub compute_execution_waves_lem :
    (subtasks : List Task)
    → Perm (concat (compute_execution_waves subtasks)) (with_ids 0 subtasks)
      × IsOrdered (record { agents = []; ids = [] }) (compute_execution_waves subtasks)
unfolding compute_execution_waves
compute_execution_waves_lem subtasks = (
  waves_from-perm (length subtasks) (record { agents = []; ids = [] }) (with_ids 0 subtasks)
      (omega (arith, length-with_ids 0 subtasks)),
  waves_from-IsOrdered (length subtasks) (record { agents = []; ids = [] }) (with_ids 0 subtasks),
)
