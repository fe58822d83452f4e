-- ===== src/CursorJobs/Participants/Clean.antt =====
-- Lists of participants without blanks, outer space or repeats, and how merging treats them.
use mathlib.Core.List.{append-nil, append_assoc}
use tempa.Base.{
  String, true, false, ◌||◌, ◌≡◌, refl, sym, ◌∙◌, List, [], ◌∷◌, ◌++◌, arith, eq_iff, ◌==◌, eq_refl,
  inl, inr, Bool-cases, All, contains, contains-append,
}
use tempa.Base.Text.{strip, strip_idem}
use tempa.CursorJobs.Participants.{merge_from, same_ids, with_id}

abbrev pub IsSolid : String → Type 0
IsSolid u = (strip u ≡ u) × ((u == "") ≡ false)

abbrev pub NoRepeat : List String → Type 0
NoRepeat [] = Unit
NoRepeat (x ∷ xs) = (contains xs x ≡ false) × NoRepeat xs

pub record IsClean (xs : List String) : Type 0 where
  pub solid : All IsSolid xs
  pub distinct : NoRepeat xs

All-snoc {ℓ} :
    {A : Type ℓ} (P : A → Type 0) (xs : List A) (x : A) → All P xs → P x → All P (xs ++ x ∷ [])
All-snoc P [] x h p = (p, tt)
All-snoc P (y ∷ ys) x h p = (h.0, All-snoc P ys x h.1 p)

NoRepeat-snoc :
    (xs : List String) (x : String) → NoRepeat xs → contains xs x ≡ false → NoRepeat (xs ++ x ∷ [])
NoRepeat-snoc [] x h new = (refl, tt)
NoRepeat-snoc (y ∷ ys) x h new = (
  rw contains-append (ground (arith, h.0, new, eq_iff x y, eq_iff y x)),
  NoRepeat-snoc ys x h.1 (ground (arith, new)),
)

IsClean-snoc :
    (xs : List String) (x : String)
    → IsClean xs
    → IsSolid x
    → contains xs x ≡ false
    → IsClean (xs ++ x ∷ [])
IsClean-snoc xs x h s new = record {
  solid = All-snoc IsSolid xs x h.solid s;
  distinct = NoRepeat-snoc xs x h.distinct new;
}

-- Merging keeps a list clean, whatever is merged in.
pub IsClean-merge_from : (acc xs : List String) → IsClean acc → IsClean (merge_from acc xs)
unfolding merge_from
IsClean-merge_from acc [] h = h
IsClean-merge_from acc (raw ∷ raws) h =
    elim (Bool-cases (strip raw == "" || contains acc (strip raw))) [
      | inl old ↦ rw old (IsClean-merge_from acc raws h)
      | inr new ↦ rw new (
          IsClean-merge_from (acc ++ strip raw ∷ []) raws (
            IsClean-snoc acc (strip raw) h (strip_idem raw, ground (arith, new))
              (ground (arith, new))))
    ]

pub merge_from-append :
    (acc xs ys : List String) → merge_from acc (xs ++ ys) ≡ merge_from (merge_from acc xs) ys
unfolding merge_from
merge_from-append acc [] ys = refl
merge_from-append acc (x ∷ xs) ys = merge_from-append (with_id acc (strip x)) xs ys

-- What is already there, or blank, adds nothing.
pub merge_absorbed :
    (acc xs : List String)
    → All (λ u. (strip u == "" || contains acc (strip u)) ≡ true) xs
    → merge_from acc xs ≡ acc
unfolding merge_from
merge_absorbed acc [] h = refl
merge_absorbed acc (x ∷ xs) h = rw h.0 (merge_absorbed acc xs h.1)

-- The members of `xs` are not in `acc`.
abbrev AreNew : List String → List String → Type 0
AreNew acc xs = All (λ x. contains acc x ≡ false) xs

AreNew-snoc :
    (acc : List String) (x : String) (xs : List String)
    → contains xs x ≡ false
    → AreNew acc xs
    → AreNew (acc ++ x ∷ []) xs
AreNew-snoc acc x [] other h = tt
AreNew-snoc acc x (y ∷ ys) other h = (
  rw contains-append (ground (arith, h.0, other, eq_iff x y, eq_iff y x)),
  AreNew-snoc acc x ys (ground (arith, other)) h.1,
)

-- A clean list of new members is appended as it stands.
pub merge_clean :
    (acc xs : List String) → IsClean xs → AreNew acc xs → merge_from acc xs ≡ acc ++ xs
unfolding merge_from
merge_clean acc [] h new = sym (append-nil acc)
merge_clean acc (x ∷ xs) h new =
    rw (h.solid.0.0, h.solid.0.1, new.0)
      (merge_clean (acc ++ x ∷ []) xs (record { solid = h.solid.1; distinct = h.distinct.1 })
          (AreNew-snoc acc x xs h.distinct.0 new.1)
        ∙ append_assoc acc (x ∷ []) xs)

pub same_ids_refl : (xs : List String) → same_ids xs xs ≡ true
unfolding same_ids
same_ids_refl [] = refl
same_ids_refl (x ∷ xs) = rw (eq_refl x) (same_ids_refl xs)
