-- ===== src/Base/Match.antt =====
-- Searches that do not mind the case, as `verify_step` of orchestrator/step_verify.py and
-- `is_meeting_bot` of meet/bot_participants.py make them with `in` and with regular expressions.
use Prim.Native.Char.{Char, code}
use tempa.Base.{
  ℕ, String, Bool, true, false, not, ◌&&◌, ◌||◌, Option, none, some, List, any, if◌then◌else◌, eqb,
  leb, ◌+◌,
}

-- `c.lower()`, as far as a search for ASCII letters sees it; 0x212a is the Kelvin sign.
lower_char : Char → ℕ
lower_char c =
    if leb b'A' (code c) && leb (code c) b'Z'
    then code c + 32
    else if eqb (code c) 0x212a
    then b'k'
    else code c

-- The case folding of `re.I`: both dotted and dotless letters match an i, and a long s an s.
fold_char : Char → ℕ
unfolding lower_char
fold_char c =
    if eqb (code c) 0x130 || eqb (code c) 0x131
    then b'i'
    else if eqb (code c) 0x17f
    then b's'
    else lower_char c

-- What follows `t` in `s`, where `s` starts with `t` under a folding; `t` is in lower case.
after_prefix : (Char → ℕ) → String → String → Option String
after_prefix fold s String.[] = some s
after_prefix fold String.[] (String.◌∷◌ d t) = none
after_prefix fold (String.◌∷◌ c s) (String.◌∷◌ d t) =
    let rest = after_prefix fold s t in if eqb (fold c) (code d) then rest else none

abbrev is_some : Option String → Bool
is_some none = false
is_some (some s) = true

-- `t in s.lower()`
unfoldable pub includes_lower : String → String → Bool
unfolding after_prefix lower_char
includes_lower String.[] t = is_some (after_prefix lower_char "" t)
includes_lower (String.◌∷◌ c s) t =
    let rest = includes_lower s t in is_some (after_prefix lower_char (String.◌∷◌ c s) t) || rest

-- `t` stands further on in the same line.
unfoldable pub line_includes : String → String → Bool
unfolding after_prefix fold_char
line_includes String.[] t = is_some (after_prefix fold_char "" t)
line_includes (String.◌∷◌ c s) t =
    let rest = line_includes s t in
    is_some (after_prefix fold_char (String.◌∷◌ c s) t) || (not (eqb (code c) b'\n') && rest)

abbrev pub then_one_of : List String → Option String → Bool
unfolding line_includes
then_one_of ends none = false
then_one_of ends (some s) = any (line_includes s) ends

-- The pattern `head.*(?:end|...)` matches somewhere.
unfoldable pub pattern_found : String → List String → String → Bool
unfolding after_prefix fold_char
pattern_found head ends String.[] = false
pattern_found head ends (String.◌∷◌ c s) =
    let rest = pattern_found head ends s in
    then_one_of ends (after_prefix fold_char (String.◌∷◌ c s) head) || rest

-- The text `t` matches somewhere under `re.I`.
unfoldable pub includes_fold : String → String → Bool
unfolding after_prefix fold_char
includes_fold String.[] t = is_some (after_prefix fold_char "" t)
includes_fold (String.◌∷◌ c s) t =
    let rest = includes_fold s t in is_some (after_prefix fold_char (String.◌∷◌ c s) t) || rest
