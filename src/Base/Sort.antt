-- ===== src/Base/Sort.antt =====
-- Python's stable `list.sort(key=…, reverse=True)`, for a key in the numbers.
use Prim.Native.Nat.{ℕ, suc, ◌≤◌}
use mathlib.Core.List.{List, [], ◌∷◌, Perm}
use mathlib.Core.List.Perm
use mathlib.Core.Bool.{true, false}
use mathlib.Core.Path.{◌≡◌, refl, ap, subst}
use mathlib.Core.Logic.{inl, inr}
use native.Mathlib.Omega.{arith}
use tempa.Base.Lists.{All, length}
use tempa.Base.Tests.{leb, if◌then◌else◌, Bool-cases}

module _ {ℓ} {A : Type ℓ} (key : A → ℕ) where
  -- `x` stood before all of the list, and stays before what has its key.
  insert_desc : A → List A → List A
  insert_desc x [] = x ∷ []
  insert_desc x (y ∷ ys) =
      let rest = insert_desc x ys in if leb (key y) (key x) then x ∷ y ∷ ys else y ∷ rest

  unfoldable pub sort_desc : List A → List A
  unfolding insert_desc
  sort_desc [] = []
  sort_desc (x ∷ xs) = insert_desc x (sort_desc xs)

  -- Each key is at least the keys that follow.
  abbrev pub IsBelow : ℕ → List A → Type 0
  IsBelow n [] = Unit
  IsBelow n (x ∷ xs) = (key x ≤ n) × IsBelow n xs

  abbrev pub IsDescending : List A → Type 0
  IsDescending [] = Unit
  IsDescending (x ∷ xs) = IsBelow (key x) xs × IsDescending xs

  IsBelow-mono : (m n : ℕ) (xs : List A) → m ≤ n → IsBelow m xs → IsBelow n xs
  IsBelow-mono m n [] le h = tt
  IsBelow-mono m n (x ∷ xs) le h = (omega arith, IsBelow-mono m n xs le h.1)

  IsBelow-insert_desc :
      (n : ℕ) (x : A) (xs : List A) → key x ≤ n → IsBelow n xs → IsBelow n (insert_desc x xs)
  unfolding insert_desc
  IsBelow-insert_desc n x [] le h = (le, tt)
  IsBelow-insert_desc n x (y ∷ ys) le h = elim (Bool-cases (leb (key y) (key x))) [
    | inl first ↦ rw first (le, (h.0, h.1))
    | inr later ↦ rw later (h.0, IsBelow-insert_desc n x ys le h.1)
  ]

  IsDescending-insert_desc :
      (x : A) (xs : List A) → IsDescending xs → IsDescending (insert_desc x xs)
  unfolding insert_desc
  IsDescending-insert_desc x [] h = (tt, tt)
  IsDescending-insert_desc x (y ∷ ys) h = elim (Bool-cases (leb (key y) (key x))) [
    | inl first ↦
        rw first ((ground arith, IsBelow-mono (key y) (key x) ys (ground arith) h.0), (h.0, h.1))
    | inr later ↦
        rw later
          (IsBelow-insert_desc (key y) x ys (ground arith) h.0, IsDescending-insert_desc x ys h.1)
  ]

  -- The sorted list falls in its keys.
  pub sort_desc-IsDescending : (xs : List A) → IsDescending (sort_desc xs)
  unfolding sort_desc
  sort_desc-IsDescending [] = tt
  sort_desc-IsDescending (x ∷ xs) =
      IsDescending-insert_desc x (sort_desc xs) (sort_desc-IsDescending xs)

  insert_desc-perm : (x : A) (xs : List A) → Perm (insert_desc x xs) (x ∷ xs)
  unfolding insert_desc
  insert_desc-perm x [] = Perm.refl (x ∷ [])
  insert_desc-perm x (y ∷ ys) = elim (Bool-cases (leb (key y) (key x))) [
    | inl first ↦ rw first (Perm.refl (x ∷ y ∷ ys))
    | inr later ↦ rw later (Perm.trans (Perm.cons y (insert_desc-perm x ys)) (Perm.swap x y ys))
  ]

  -- It has the same items, each as often.
  pub sort_desc-perm : (xs : List A) → Perm (sort_desc xs) xs
  unfolding sort_desc
  sort_desc-perm [] = Perm.refl []
  sort_desc-perm (x ∷ xs) =
      Perm.trans (insert_desc-perm x (sort_desc xs)) (Perm.cons x (sort_desc-perm xs))

  All-insert_desc {κ} :
      (P : A → Type κ) (x : A) (xs : List A) → P x → All P xs → All P (insert_desc x xs)
  unfolding insert_desc
  All-insert_desc P x [] p h = (p, tt)
  All-insert_desc P x (y ∷ ys) p h = elim (Bool-cases (leb (key y) (key x))) [
    | inl first ↦ rw first (p, (h.0, h.1))
    | inr later ↦ rw later (h.0, All-insert_desc P x ys p h.1)
  ]

  pub All-sort_desc {κ} : (P : A → Type κ) (xs : List A) → All P xs → All P (sort_desc xs)
  unfolding sort_desc
  All-sort_desc P [] h = tt
  All-sort_desc P (x ∷ xs) h = All-insert_desc P x (sort_desc xs) h.0 (All-sort_desc P xs h.1)

  insert_first :
      (x y : A) (ys : List A) → leb (key y) (key x) ≡ true → insert_desc x (y ∷ ys) ≡ x ∷ y ∷ ys
  unfolding insert_desc
  insert_first x y ys h = rw h

  insert_later :
      (x y : A) (ys : List A)
      → leb (key y) (key x) ≡ false
      → insert_desc x (y ∷ ys) ≡ y ∷ insert_desc x ys
  unfolding insert_desc
  insert_later x y ys h = rw h

  All-uninsert {κ} :
      (P : A → Type κ) (x : A) (xs : List A) → All P (insert_desc x xs) → P x × All P xs
  unfolding insert_desc
  All-uninsert P x [] h = (h.0, tt)
  All-uninsert P x (y ∷ ys) h = elim (Bool-cases (leb (key y) (key x))) [
    | inl first ↦ let t = subst (All P) (insert_first x y ys first) h in t
    | inr later ↦
        let t = subst (All P) (insert_later x y ys later) h in
        let u = All-uninsert P x ys t.1 in (u.0, (t.0, u.1))
  ]

  -- What holds of the sorted items holds of the items.
  pub All-unsort {κ} : (P : A → Type κ) (xs : List A) → All P (sort_desc xs) → All P xs
  unfolding sort_desc
  All-unsort P [] h = tt
  All-unsort P (x ∷ xs) h = let t = All-uninsert P x (sort_desc xs) h in (t.0, All-unsort P xs t.1)

  length-insert_desc : (x : A) (xs : List A) → length (insert_desc x xs) ≡ suc (length xs)
  unfolding insert_desc
  length-insert_desc x [] = refl
  length-insert_desc x (y ∷ ys) = elim (Bool-cases (leb (key y) (key x))) [
    | inl first ↦ rw first
    | inr later ↦ rw later (ap suc (length-insert_desc x ys))
  ]

  pub length-sort_desc : (xs : List A) → length (sort_desc xs) ≡ length xs
  unfolding sort_desc
  length-sort_desc [] = refl
  length-sort_desc (x ∷ xs) = rw length-insert_desc (ap suc (length-sort_desc xs))
