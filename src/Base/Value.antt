-- ===== src/Base/Value.antt =====
-- The JSON values that the stores keep in their rows, and what the code asks of them.
use Prim.Native.Nat.{ℕ, zero, suc, ◌/◌, ◌%◌}
use Prim.Native.String.{String, ◌++◌}
use mathlib.Core.Bool.{Bool, true, false, not}
use mathlib.Core.List.{List, [], ◌∷◌}
use mathlib.Core.Option.{Option, none, some}
use package.text.Mathlib.Text.{◌==◌}
use tempa.Base.Tests.{if◌then◌else◌, ltb, eqb}
use tempa.Base.Dict.{Dict}

-- `time t` is a text in ISO form, as the instant that it denotes, in microseconds; `doc` is an
-- object or a fraction, by its text.
pub data Value : Type 0 where
  null : Value
  flag : Bool → Value
  num : ℕ → Value
  text : String → Value
  time : ℕ → Value
  texts : List String → Value
  doc : String → Value

-- A JSON object of a store.
abbrev pub Row : Type 0
Row = Dict Value

-- `bool(v)`
abbrev pub truthy : Value → Bool
truthy null = false
truthy (flag b) = b
truthy (num n) = ltb 0 n
truthy (text s) = not (s == "")
truthy (time t) = true
truthy (texts []) = false
truthy (texts (x ∷ xs)) = true
truthy (doc s) = not (s == "{}")

digit : ℕ → String
digit d =
    if eqb d 0
    then "0"
    else if eqb d 1
    then "1"
    else if eqb d 2
    then "2"
    else if eqb d 3
    then "3"
    else if eqb d 4
    then "4"
    else if eqb d 5
    then "5"
    else if eqb d 6
    then "6"
    else if eqb d 7
    then "7"
    else if eqb d 8
    then "8"
    else "9"

-- The fuel is the number itself: each round divides it by ten.
decimal : ℕ → ℕ → String
unfolding digit
decimal zero n = digit n
decimal (suc fuel) n =
    let rest = decimal fuel (n / 10) in if ltb n 10 then digit n else rest ++ digit (n % 10)

-- `str(n)` of a number
unfoldable pub str_ℕ : ℕ → String
unfolding decimal
str_ℕ n = decimal n n

joined : List String → String
joined [] = ""
joined (x ∷ []) = "'" ++ x ++ "'"
joined (x ∷ y ∷ xs) = "'" ++ x ++ "', " ++ joined (y ∷ xs)

-- `str(v)`. The text of an instant is written in microseconds.
unfoldable pub str : Value → String
unfolding str_ℕ joined
str null = "None"
str (flag true) = "True"
str (flag false) = "False"
str (num n) = str_ℕ n
str (text s) = s
str (time t) = "@" ++ str_ℕ t
str (texts xs) = "[" ++ joined xs ++ "]"
str (doc s) = s

-- `str(v or "")`, for a value that may be missing
unfoldable pub str_or : Option Value → String
unfolding str
str_or none = ""
str_or (some v) = if truthy v then str v else ""

-- `v == s`, for a value that may be missing
abbrev pub is_text : Option Value → String → Bool
is_text (some (text s)) t = s == t
is_text _ t = false

-- `row.get(a) or row.get(b)`
abbrev pub first_truthy : Option Value → Option Value → Option Value
first_truthy none b = b
first_truthy (some v) b = if truthy v then some v else b

-- `datetime.fromisoformat(v)`, where it raises nothing
abbrev pub instant : Option Value → Option ℕ
instant (some (time t)) = some t
instant _ = none
