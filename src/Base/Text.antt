-- ===== src/Base/Text.antt =====
-- Python's `str.strip` on native texts.
use Prim.Native.Nat.{ℕ, zero, suc, ◌+◌}
use Prim.Native.Char.{Char, code}
use Prim.Native.String.{String, [], ◌∷◌}
use mathlib.Core.Path.{◌≡◌, refl, ap, ◌∙◌}
use mathlib.Core.Logic.{inl, inr}
use mathlib.Core.Bool.{Bool, true, false, not, ◌&&◌, ◌||◌}
use text.Mathlib.Text.{◌==◌}
use tempa.Base.Tests.{leb, eqb, if◌then◌else◌, Bool-cases}

-- The code points for which `str.isspace` holds.
unfoldable pub is_space : Char → Bool
is_space ch =
    let c = code ch in
    (leb 9 c && leb c 13)
    || (leb 28 c && leb c 32)
    || eqb c 0x85
    || eqb c 0xa0
    || eqb c 0x1680
    || (leb 0x2000 c && leb c 0x200a)
    || eqb c 0x2028
    || eqb c 0x2029
    || eqb c 0x202f
    || eqb c 0x205f
    || eqb c 0x3000

-- `s.lower() == t`, for a text `t` of lower-case ASCII letters.
unfoldable pub equal_lower : String → String → Bool
equal_lower [] [] = true
equal_lower [] (d ∷ t) = false
equal_lower (c ∷ s) [] = false
equal_lower (c ∷ s) (d ∷ t) =
    eqb (if leb b'A' (code c) && leb (code c) b'Z' then code c + 32 else code c) (code d)
    && equal_lower s t

-- ASCII digits, one other than 0 among them or `seen` before them.
unfoldable pub is_positive : (seen : Bool) → String → Bool
is_positive seen [] = seen
is_positive seen (c ∷ s) =
    leb b'0' (code c) && leb (code c) b'9' && is_positive (seen || not (eqb (code c) b'0')) s

-- `s.startswith(t)`
unfoldable pub starts_with : String → String → Bool
starts_with s [] = true
starts_with [] (d ∷ t) = false
starts_with (c ∷ s) (d ∷ t) = eqb (code c) (code d) && starts_with s t

-- `s.endswith(t)`
unfoldable pub ends_with : String → String → Bool
ends_with [] t = [] == t
ends_with (c ∷ s) t = let rest = ends_with s t in (c ∷ s) == t || rest

-- `t in s`
unfoldable pub includes : String → String → Bool
includes [] t = starts_with [] t
includes (c ∷ s) t = let rest = includes s t in starts_with (c ∷ s) t || rest

-- `s[:n]`
unfoldable pub prefix : ℕ → String → String
prefix zero s = []
prefix (suc n) [] = []
prefix (suc n) (c ∷ s) = c ∷ prefix n s

-- The characters of `s` that pass a test.
unfoldable pub keep : (Char → Bool) → String → String
keep p [] = []
keep p (c ∷ s) = let rest = keep p s in if p c then c ∷ rest else rest

lstrip : String → String
lstrip [] = []
lstrip (c ∷ s) = let rest = lstrip s in if is_space c then rest else c ∷ s

-- `c` before an already stripped rest.
rcons : Char → String → String
rcons c [] = if is_space c then [] else c ∷ []
rcons c (d ∷ s) = c ∷ d ∷ s

pub rstrip : String → String
rstrip [] = []
rstrip (c ∷ s) = rcons c (rstrip s)

unfoldable pub strip : String → String
unfolding lstrip rstrip rcons is_space
strip s = rstrip (lstrip s)

rstrip-rcons : (c : Char) (s : String) → rstrip s ≡ s → rstrip (rcons c s) ≡ rcons c s
unfolding rstrip rcons
rstrip-rcons c [] h = elim (Bool-cases (is_space c)) [
  | inl blank ↦ rw blank
  | inr solid ↦ simp solid
]
rstrip-rcons c (d ∷ s) h = rw h

rstrip_idem : (s : String) → rstrip (rstrip s) ≡ rstrip s
unfolding rstrip
rstrip_idem [] = refl
rstrip_idem (c ∷ s) = rstrip-rcons c (rstrip s) (rstrip_idem s)

rcons_solid : (c : Char) (s : String) → is_space c ≡ false → rcons c s ≡ c ∷ s
unfolding rcons
rcons_solid c [] h = rw h
rcons_solid c (d ∷ s) h = refl

lstrip-rstrip : (s : String) → lstrip (rstrip (lstrip s)) ≡ rstrip (lstrip s)
unfolding lstrip rstrip
lstrip-rstrip [] = refl
lstrip-rstrip (c ∷ s) = elim (Bool-cases (is_space c)) [
  | inl blank ↦ rw blank (lstrip-rstrip s)
  | inr solid ↦ rw (solid, rcons_solid c (rstrip s) solid, solid)
]

-- Stripping twice is stripping once.
pub strip_idem : (s : String) → strip (strip s) ≡ strip s
strip_idem s = unfold strip in rw lstrip-rstrip (rstrip_idem (lstrip s))

module _ (p : Char → Bool) (blind : (c : Char) → is_space c ≡ true → p c ≡ false) where
  keep-lstrip : (s : String) → keep p (lstrip s) ≡ keep p s
  unfolding lstrip keep
  keep-lstrip [] = refl
  keep-lstrip (c ∷ s) = elim (Bool-cases (is_space c)) [
    | inl space ↦ rw (space, blind c space) (keep-lstrip s)
    | inr solid ↦ rw solid refl
  ]

  keep-rcons : (c : Char) (s : String) → keep p (rcons c s) ≡ keep p (c ∷ s)
  unfolding rcons keep
  keep-rcons c [] = elim (Bool-cases (is_space c)) [
    | inl space ↦ rw (space, blind c space) refl
    | inr solid ↦ rw solid refl
  ]
  keep-rcons c (d ∷ s) = refl

  keep-rstrip : (s : String) → keep p (rstrip s) ≡ keep p s
  unfolding rstrip keep
  keep-rstrip [] = refl
  keep-rstrip (c ∷ s) =
      keep-rcons c (rstrip s) ∙ ap (λ rest. if p c then c ∷ rest else rest) (keep-rstrip s)

  -- A test that no space passes keeps of a stripped text what it keeps of the text.
  pub keep-strip : (s : String) → keep p (strip s) ≡ keep p s
  unfolding strip
  keep-strip s = keep-rstrip (lstrip s) ∙ keep-lstrip s
