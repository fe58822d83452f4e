-- ===== src/Goals/Moves.antt =====
-- A card stands on the board once after it was moved.
use mathlib.Core.List.{append-nil}
use tempa.Base.{
  String, true, Option, none, some, List, [], ◌∷◌, ◌++◌, ◌≡◌, refl, sym, ◌∙◌, ap, inl, inr,
  Bool-cases, select,
}
use tempa.Goals.{
  Card, Board, KanbanColumn, backlog, doing, done, Files, list_kanban, has_id, find_card,
  keep_cards, without_card, append_card, found_card, move_found, move_kanban_card,
}

-- The cards of a board with an identifier, in the order of the columns.
abbrev pub with_id : String → Board → List Card
with_id id b =
    select (has_id id) b.backlog_cards
    ++ select (has_id id) b.doing_cards
    ++ select (has_id id) b.done_cards

select-keep_cards :
    (id : String) (cards : List Card) → select (has_id id) (keep_cards id cards) ≡ []
select-keep_cards id [] = refl
select-keep_cards id (card ∷ cards) = elim (Bool-cases (has_id id card)) [
  | inl gone ↦ rw gone (select-keep_cards id cards)
  | inr kept ↦ rw (kept, kept) (select-keep_cards id cards)
]

select-append :
    (id : String) (xs ys : List Card)
    → select (has_id id) (xs ++ ys) ≡ select (has_id id) xs ++ select (has_id id) ys
select-append id [] ys = refl
select-append id (x ∷ xs) ys = elim (Bool-cases (has_id id x)) [
  | inl yes' ↦ rw yes' (ap (λ zs. x ∷ zs) (select-append id xs ys))
  | inr no' ↦ rw no' (select-append id xs ys)
]

moved_once :
    (id : String) (column : KanbanColumn) (card : Card) (b : Board)
    → has_id id card ≡ true
    → with_id id (append_card column card (without_card id b)) ≡ card ∷ []
moved_once id backlog card b h =
    rw (select-append, select-keep_cards, select-keep_cards, select-keep_cards, h)
moved_once id doing card b h =
    rw (select-append, select-keep_cards, select-keep_cards, select-keep_cards, h)
moved_once id done card b h =
    rw (select-append, select-keep_cards, select-keep_cards, select-keep_cards, h)

abbrev HasId : String → Option Card → Type 0
HasId id none = Unit
HasId id (some card) = has_id id card ≡ true

find_card-HasId :
    (id : String) (cards : List Card) (found : Option Card)
    → HasId id found
    → HasId id (find_card id cards found)
unfolding find_card
find_card-HasId id [] found h = h
find_card-HasId id (card ∷ cards) found h = elim (Bool-cases (has_id id card)) [
  | inl here ↦ rw here (find_card-HasId id cards (some card) here)
  | inr other ↦ rw other (find_card-HasId id cards found h)
]

found_card-HasId : (id : String) (b : Board) → HasId id (found_card id b)
unfolding found_card
found_card-HasId id b =
    find_card-HasId id b.done_cards (find_card id b.doing_cards (find_card id b.backlog_cards none))
      (find_card-HasId id b.doing_cards (find_card id b.backlog_cards none)
        (find_card-HasId id b.backlog_cards none tt))

-- The last card of a list, or `found` where it is empty.
abbrev pub last_or : Option Card → List Card → Option Card
last_or found [] = found
last_or found (card ∷ cards) = last_or (some card) cards

last_or-append :
    (found : Option Card) (xs ys : List Card)
    → last_or found (xs ++ ys) ≡ last_or (last_or found xs) ys
last_or-append found [] ys = refl
last_or-append found (x ∷ xs) ys = last_or-append (some x) xs ys

last_or-some : (card : Card) (cards : List Card) → ¬ (last_or (some card) cards ≡ none)
last_or-some card [] h = cc h
last_or-some card (x ∷ cards) h = last_or-some x cards h

last_or-none : (cards : List Card) → last_or none cards ≡ none → cards ≡ []
last_or-none [] h = refl
last_or-none (card ∷ cards) h = absurd (last_or-some card cards h)

find_card-select :
    (id : String) (cards : List Card) (found : Option Card)
    → find_card id cards found ≡ last_or found (select (has_id id) cards)
unfolding find_card
find_card-select id [] found = refl
find_card-select id (card ∷ cards) found = elim (Bool-cases (has_id id card)) [
  | inl here ↦ rw here (find_card-select id cards (some card))
  | inr other ↦ rw other (find_card-select id cards found)
]

found_card-with_id : (id : String) (b : Board) → found_card id b ≡ last_or none (with_id id b)
unfolding found_card
found_card-with_id id b =
    rw (find_card-select, find_card-select, find_card-select, last_or-append, last_or-append) refl

-- The cards of a column.
abbrev pub cards_in : KanbanColumn → Board → List Card
cards_in backlog b = b.backlog_cards
cards_in doing b = b.doing_cards
cards_in done b = b.done_cards

-- What a move to `column` puts at the end of the column `other`.
abbrev pub arrivals : (column other : KanbanColumn) → Card → List Card
arrivals backlog backlog card = card ∷ []
arrivals doing doing card = card ∷ []
arrivals done done card = card ∷ []
arrivals _ _ card = []

cards_in-append_card :
    (column other : KanbanColumn) (card : Card) (b : Board)
    → cards_in other (append_card column card b) ≡ cards_in other b ++ arrivals column other card
cards_in-append_card backlog backlog card b = refl
cards_in-append_card backlog doing card b = sym (append-nil b.doing_cards)
cards_in-append_card backlog done card b = sym (append-nil b.done_cards)
cards_in-append_card doing backlog card b = sym (append-nil b.backlog_cards)
cards_in-append_card doing doing card b = refl
cards_in-append_card doing done card b = sym (append-nil b.done_cards)
cards_in-append_card done backlog card b = sym (append-nil b.backlog_cards)
cards_in-append_card done doing card b = sym (append-nil b.doing_cards)
cards_in-append_card done done card b = refl

cards_in-without_card :
    (id : String) (other : KanbanColumn) (b : Board)
    → cards_in other (without_card id b) ≡ keep_cards id (cards_in other b)
cards_in-without_card id backlog b = refl
cards_in-without_card id doing b = refl
cards_in-without_card id done b = refl

-- Nothing changed where no card has the identifier. Else the card is the last that had it and is the
-- only one that has it then, `column` got it at its end, and the column `other` keeps the cards with
-- other identifiers.
abbrev pub Moved : String → (column other : KanbanColumn) → Files → Option Card × Files → Type 0
Moved id column other f (none, f') = (with_id id (list_kanban f) ≡ []) × (f' ≡ f)
Moved id column other f (some card, f') =
    (last_or none (with_id id (list_kanban f)) ≡ some card)
    × (with_id id (list_kanban f') ≡ card ∷ [])
    × (cards_in other (list_kanban f')
        ≡ keep_cards id (cards_in other (list_kanban f)) ++ arrivals column other card)

move_found-Moved :
    (id : String) (column other : KanbanColumn) (f : Files) (found : Option Card)
    → HasId id found
    → last_or none (with_id id (list_kanban f)) ≡ found
    → Moved id column other f (move_found id column f found)
unfolding move_found
move_found-Moved id column other f none h e = (last_or-none (with_id id (list_kanban f)) e, refl)
move_found-Moved id column other f (some card) h e = (
  e,
  moved_once id column card (list_kanban f) h,
  cards_in-append_card column other card (without_card id (list_kanban f))
      ∙ ap (λ cards. cards ++ arrivals column other card)
          (cards_in-without_card id other (list_kanban f)),
)

-- A move finds no card only where none on the board has the identifier, and changes nothing then.
-- Any other move returns the last card with the identifier, which stands at the end of the column it
-- was moved to and nowhere else, and every column keeps its cards with other identifiers in order.
pub move_kanban_card-Moved :
    (id : String) (column other : KanbanColumn) (f : Files)
    → Moved id column other f (move_kanban_card id column f)
unfolding move_kanban_card
move_kanban_card-Moved id column other f =
    move_found-Moved id column other f (found_card id (list_kanban f))
      (found_card-HasId id (list_kanban f)) (sym (found_card-with_id id (list_kanban f)))
