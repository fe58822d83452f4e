-- ===== src/Disk/Lines.antt =====
-- The lines that a row becomes in a queue file, which the job stores write by `json.dumps` with
-- `ensure_ascii=False` and read back by `splitlines`, which also breaks a line at three characters
-- that `json.dumps` leaves as they are.
use Prim.Native.Char.{Char, code}
use tempa.Base.{
  ℕ, zero, suc, ◌+◌, String, Bool, true, false, not, ◌&&◌, ◌||◌, List, [], ◌∷◌, leb, eqb,
}
use tempa.Base.Text.{is_space}
use tempa.Base.Value.{Value, Row, null, flag, num, text, time, texts, doc}
use tempa.Disk.{Line, row, malformed}

-- The next line, the line separator and the paragraph separator. The control characters below the
-- space, at which `splitlines` breaks as well, are escaped.
abbrev pub is_break : Char → Bool
is_break ch = let c = code ch in eqb c 0x85 || eqb c 0x2028 || eqb c 0x2029

-- A control character is escaped, so that its line is not blank.
abbrev is_solid : Char → Bool
is_solid c = not (is_space c) || not (leb 32 (code c))

abbrev one_more : Bool → ℕ → ℕ
one_more true n = suc n
one_more false n = n

-- The lines that are not blank and end within a text; `solid` is set where the line so far is not
-- blank.
unfoldable pub ended_lines : (solid : Bool) → String → ℕ
ended_lines solid String.[] = 0
ended_lines solid (String.◌∷◌ c s) =
    let rest = ended_lines (not (is_break c) && (solid || is_solid c)) s in
    one_more (is_break c && solid) rest

-- A text stands in quotes, and an instant has none of the three characters.
unfoldable pub value_breaks : Value → ℕ
value_breaks null = 0
value_breaks (flag b) = 0
value_breaks (num n) = 0
value_breaks (text s) = ended_lines true s
value_breaks (time t) = 0
value_breaks (texts []) = 0
value_breaks (texts (x ∷ xs)) = ended_lines true x + value_breaks (texts xs)
value_breaks (doc s) = ended_lines true s

unfoldable pub row_breaks : Row → ℕ
row_breaks [] = 0
row_breaks ((k, v) ∷ r) = ended_lines true k + value_breaks v + row_breaks r

abbrev pub pieces : ℕ → List Line
pieces zero = []
pieces (suc n) = malformed ∷ pieces n

abbrev pub lines_from : Row → ℕ → List Line
lines_from r zero = row r ∷ []
lines_from r (suc n) = malformed ∷ malformed ∷ pieces n

-- The row itself, where nothing breaks it. Else its first piece ends within a text and does not
-- parse; the others count as pieces that do not parse as well.
unfoldable pub written_lines : Row → List Line
written_lines r = lines_from r (row_breaks r)
