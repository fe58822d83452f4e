-- ===== src/Numbers/Phone.antt =====
-- `normalize_phone` of channels/whatsapp/numbers.py, and that it is idempotent.
use Prim.Native.Char.{Char, code}
use tempa.Base.{
  ℕ, String, Bool, true, false, ◌&&◌, ◌||◌, List, [], ◌∷◌, any, all, ◌==◌, ◌≡◌, ◌+◌, refl, ap, ◌∙◌,
  arith, inl, inr, if◌then◌else◌, leb, ltb, eqb, Bool-cases,
}
use tempa.Base.Text.{strip, is_space, keep, keep-strip}

-- Where the blocks of ten decimal digits start in Unicode.
abbrev digit_blocks : List ℕ
digit_blocks =
    0x30 ∷ 0x660 ∷ 0x6f0 ∷ 0x7c0 ∷ 0x966 ∷ 0x9e6 ∷ 0xa66 ∷ 0xae6 ∷ 0xb66 ∷ 0xbe6 ∷ 0xc66 ∷ 0xce6
    ∷ 0xd66 ∷ 0xde6 ∷ 0xe50 ∷ 0xed0 ∷ 0xf20 ∷ 0x1040 ∷ 0x1090 ∷ 0x17e0 ∷ 0x1810 ∷ 0x1946 ∷ 0x19d0
    ∷ 0x1a80 ∷ 0x1a90 ∷ 0x1b50 ∷ 0x1bb0 ∷ 0x1c40 ∷ 0x1c50 ∷ 0xa620 ∷ 0xa8d0 ∷ 0xa900 ∷ 0xa9d0
    ∷ 0xa9f0 ∷ 0xaa50 ∷ 0xabf0 ∷ 0xff10 ∷ 0x104a0 ∷ 0x10d30 ∷ 0x11066 ∷ 0x110f0 ∷ 0x11136 ∷ 0x111d0
    ∷ 0x112f0 ∷ 0x11450 ∷ 0x114d0 ∷ 0x11650 ∷ 0x116c0 ∷ 0x11730 ∷ 0x118e0 ∷ 0x11950 ∷ 0x11c50
    ∷ 0x11d50 ∷ 0x11da0 ∷ 0x16a60 ∷ 0x16ac0 ∷ 0x16b50 ∷ 0x1d7ce ∷ 0x1d7d8 ∷ 0x1d7e2 ∷ 0x1d7ec
    ∷ 0x1d7f6 ∷ 0x1e140 ∷ 0x1e2f0 ∷ 0x1e950 ∷ 0x1fbf0 ∷ []

abbrev in_block : ℕ → ℕ → Bool
in_block c start = leb start c && ltb c (start + 10)

-- The characters of `\d`
unfoldable pub is_digit : Char → Bool
is_digit ch = let c = code ch in any (in_block c) digit_blocks

-- `_DIGITS_RE.sub("", s)`
abbrev pub digits_of : String → String
digits_of s = keep is_digit s

-- A number in the national form gets the country's code.
unfoldable pub international : String → String
international String.[] = ""
international (String.◌∷◌ c s) =
    if eqb (code c) b'0' then String.◌∷◌ "9" (String.◌∷◌ "2" s) else String.◌∷◌ c s

unfoldable pub normalize_phone : String → String
unfolding international
normalize_phone number = international (digits_of (strip number))

unfoldable pub phones_match : String → String → Bool
phones_match a b = if a == "" || b == "" then false else normalize_phone a == normalize_phone b

-- Numbers between `a` and `b` lie in no block.
abbrev is_clear : (a b : ℕ) → List ℕ → Bool
is_clear a b starts = all (λ start. leb (start + 10) a || ltb b start) starts

clear :
    (a b c : ℕ) (starts : List ℕ)
    → (leb a c && leb c b) ≡ true
    → is_clear a b starts ≡ true
    → any (in_block c) starts ≡ false
clear a b c [] h apart = refl
clear a b c (start ∷ starts) h apart =
    let later = clear a b c starts h (ground arith) in ground arith

-- The ranges of the spaces.
abbrev spaces : List (ℕ × ℕ)
spaces =
    (9, 13)
    ∷ (28, 32)
    ∷ (0x85, 0x85)
    ∷ (0xa0, 0xa0)
    ∷ (0x1680, 0x1680)
    ∷ (0x2000, 0x200a)
    ∷ (0x2028, 0x2028)
    ∷ (0x2029, 0x2029)
    ∷ (0x202f, 0x202f)
    ∷ (0x205f, 0x205f)
    ∷ (0x3000, 0x3000)
    ∷ []

within : ℕ → List (ℕ × ℕ) → Bool
within c [] = false
within c ((a, b) ∷ ranges) = (leb a c && leb c b) || within c ranges

within-any :
    (c : ℕ) (starts : List ℕ) (ranges : List (ℕ × ℕ))
    → within c ranges ≡ true
    → all (λ r. is_clear r.0 r.1 starts) ranges ≡ true
    → any (in_block c) starts ≡ false
unfolding within
within-any c starts [] h apart = absurd cc
within-any c starts ((a, b) ∷ ranges) h apart = elim (Bool-cases (leb a c && leb c b)) [
  | inl inside ↦ clear a b c starts inside (ground arith)
  | inr outside ↦ within-any c starts ranges (ground arith) (ground arith)
]

is_space-within : (c : Char) → is_space c ≡ true → within (code c) spaces ≡ true
unfolding is_space within
is_space-within c h = ground arith

is_digit-is_space : (c : Char) → is_space c ≡ true → is_digit c ≡ false
unfolding is_digit
is_digit-is_space c h = within-any (code c) digit_blocks spaces (is_space-within c h) refl

abbrev all_digits : String → Bool
all_digits String.[] = true
all_digits (String.◌∷◌ c s) = is_digit c && all_digits s

all_digits-keep : (s : String) → all_digits (digits_of s) ≡ true
unfolding keep
all_digits-keep String.[] = refl
all_digits-keep (String.◌∷◌ c s) =
    let rest = all_digits-keep s in
    elim (Bool-cases (is_digit c)) [
      | inl digit ↦ rw (digit, digit) rest
      | inr other ↦ rw other rest
    ]

keep_digits : (s : String) → all_digits s ≡ true → digits_of s ≡ s
unfolding keep
keep_digits String.[] h = refl
keep_digits (String.◌∷◌ c s) h =
    let rest = keep_digits s (ground arith) in
    let digit : is_digit c ≡ true = ground arith in rw (digit, rest)

pub digits_of_idem : (s : String) → digits_of (digits_of s) ≡ digits_of s
digits_of_idem s = keep_digits (digits_of s) (all_digits-keep s)

tail_digits : (c : Char) (s : String) → all_digits (String.◌∷◌ c s) ≡ true → all_digits s ≡ true
tail_digits c s h = ground arith

code_digits : (s : String) → all_digits (String.◌∷◌ "9" (String.◌∷◌ "2" s)) ≡ all_digits s
unfolding is_digit
code_digits s = refl

all_digits-international : (s : String) → all_digits s ≡ true → all_digits (international s) ≡ true
unfolding international
all_digits-international String.[] h = refl
all_digits-international (String.◌∷◌ c s) h = elim (Bool-cases (eqb (code c) b'0')) [
  | inl zero ↦ rw zero (code_digits s ∙ tail_digits c s h)
  | inr other ↦ rw other h
]

international_idem : (s : String) → international (international s) ≡ international s
unfolding international
international_idem String.[] = refl
international_idem (String.◌∷◌ c s) = elim (Bool-cases (eqb (code c) b'0')) [
  | inl zero ↦ rw zero refl
  | inr other ↦ rw (other, other) refl
]

-- Normalising a number that was normalised changes nothing, whatever text it was.
pub normalize_phone_idem :
    (number : String) → normalize_phone (normalize_phone number) ≡ normalize_phone number
unfolding normalize_phone
normalize_phone_idem number =
    let d = digits_of (strip number) in
    ap international (
      keep-strip is_digit is_digit-is_space (international d)
      ∙ keep_digits (international d) (all_digits-international d (all_digits-keep (strip number))))
    ∙ international_idem d
