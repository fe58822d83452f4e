-- ===== src/Goals.antt =====
-- Standing goals and their kanban board: hermes/goals.py of src/tempa. The two files hold records as
-- the functions write them, and none where a file is missing or does not parse; the time stamps of
-- the files themselves, which nothing reads, are left out.
mod Examples
pub mod Moves
use tempa.Base.{
  ℕ, String, Bool, true, false, not, Option, none, some, List, [], ◌∷◌, ◌++◌, ◌==◌, if◌then◌else◌,
  select,
}
use tempa.Base.Text.{strip}

pub record Goal : Type 0 where
  pub id : String
  pub title : String
  pub prompt : String
  pub notes : String
  pub status : String
  pub created_at : ℕ
  pub updated_at : ℕ
  pub last_tick_at : Option ℕ

pub data KanbanColumn : Type 0 where
  backlog : KanbanColumn
  doing : KanbanColumn
  done : KanbanColumn

pub record Card : Type 0 where
  pub id : String
  pub title : String
  pub goal_id : Option String
  pub created_at : ℕ

pub record Board : Type 0 where
  pub backlog_cards : List Card
  pub doing_cards : List Card
  pub done_cards : List Card

pub record Files : Type 0 where
  pub goals : Option (List Goal)
  pub kanban : Option Board

abbrev goals_of : Option (List Goal) → List Goal
goals_of none = []
goals_of (some goals) = goals

unfoldable pub list_goals : Option String → Files → List Goal
list_goals none f = goals_of f.goals
list_goals (some status) f =
    if status == ""
    then goals_of f.goals
    else select (λ (g : Goal). g.status == status) (goals_of f.goals)

abbrev board_of : Option Board → Board
board_of none = record { backlog_cards = []; doing_cards = []; done_cards = [] }
board_of (some board) = board

abbrev pub list_kanban : Files → Board
list_kanban f = board_of f.kanban

-- `board.setdefault(column, []).append(card)`
abbrev pub append_card : KanbanColumn → Card → Board → Board
append_card backlog card b = record b { backlog_cards = b.backlog_cards ++ card ∷ [] }
append_card doing card b = record b { doing_cards = b.doing_cards ++ card ∷ [] }
append_card done card b = record b { done_cards = b.done_cards ++ card ∷ [] }

unfoldable pub add_kanban_card :
    (id title : String) → KanbanColumn → Option String → ℕ → Files → Card × Files
add_kanban_card id title column goal_id now f =
    let card : Card = record {
      id = id;
      title = strip title;
      goal_id = goal_id;
      created_at = now;
    } in
    (card, record f { kanban = some (append_card column card (list_kanban f)) })

abbrev pub has_id : String → Card → Bool
has_id id card = card.id == id

-- The last of the cards with the identifier, or `found`.
unfoldable pub find_card : String → List Card → Option Card → Option Card
find_card id [] found = found
find_card id (card ∷ cards) found =
    let here = find_card id cards (some card) in
    let later = find_card id cards found in if has_id id card then here else later

abbrev pub keep_cards : String → List Card → List Card
keep_cards id cards = select (λ card. not (has_id id card)) cards

abbrev pub without_card : String → Board → Board
without_card id b = record {
  backlog_cards = keep_cards id b.backlog_cards;
  doing_cards = keep_cards id b.doing_cards;
  done_cards = keep_cards id b.done_cards;
}

unfoldable pub found_card : String → Board → Option Card
found_card id b =
    find_card id b.done_cards (find_card id b.doing_cards (find_card id b.backlog_cards none))

unfoldable pub move_found : String → KanbanColumn → Files → Option Card → Option Card × Files
move_found id column f none = (none, f)
move_found id column f (some card) = (
  some card,
  record f { kanban = some (append_card column card (without_card id (list_kanban f))) },
)

unfoldable pub move_kanban_card : String → KanbanColumn → Files → Option Card × Files
move_kanban_card id column f = move_found id column f (found_card id (list_kanban f))

abbrev is_of : String → Option String → Bool
is_of goal_id none = false
is_of goal_id (some id) = id == goal_id

-- The first card of the goal.
abbrev first_of : String → List Card → Option Card
first_of goal_id [] = none
first_of goal_id (card ∷ cards) =
    let rest = first_of goal_id cards in if is_of goal_id card.goal_id then some card else rest

abbrev move_first : KanbanColumn → Files → Option Card → Files
move_first column f none = f
move_first column f (some card) = (move_kanban_card card.id column f).1

unfoldable pub move_kanban_by_goal : String → KanbanColumn → Files → Files
move_kanban_by_goal goal_id column f =
    let b = list_kanban f in
    move_first column f (first_of goal_id (b.backlog_cards ++ b.doing_cards ++ b.done_cards))

unfoldable pub new_goal : (id title prompt notes : String) → ℕ → Goal
new_goal id title prompt notes now = record {
  id = id;
  title = title;
  prompt = strip (if prompt == "" then title else prompt);
  notes = notes;
  status = "open";
  created_at = now;
  updated_at = now;
  last_tick_at = none;
}

-- `none` is the ValueError of an empty title. The identifiers are those that `uuid4` gave.
unfoldable pub create_goal :
    (id card_id title prompt notes : String) → ℕ → Files → Option (Goal × Files)
create_goal id card_id title prompt notes now f =
    let goal = new_goal id (strip title) prompt notes now in
    if strip title == ""
    then none
    else some (
      goal,
      (add_kanban_card card_id goal.title doing (some id) now
          (record f { goals = some (goals_of f.goals ++ goal ∷ []) })).1,
    )

-- The keyword arguments of `update_goal`.
pub record Fields : Type 0 where
  pub title : Option String
  pub prompt : Option String
  pub notes : Option String
  pub status : Option String
  pub tick : Bool

abbrev or_old : Option String → String → String
or_old none old = old
or_old (some new) old = new

unfoldable pub updated_goal : Fields → ℕ → Goal → Goal
updated_goal u now g = record g {
  title = or_old u.title g.title;
  prompt = or_old u.prompt g.prompt;
  notes = or_old u.notes g.notes;
  status = or_old u.status g.status;
  updated_at = now;
  last_tick_at = if u.tick then some now else g.last_tick_at;
}

-- The first goal with the identifier after its update, and all goals then.
unfoldable pub update_first : String → Fields → ℕ → List Goal → Option (Goal × List Goal)
update_first goal_id u now [] = none
update_first goal_id u now (g ∷ goals) =
    let rest = update_first goal_id u now goals in
    if g.id == goal_id
    then some (updated_goal u now g, updated_goal u now g ∷ goals)
    else elim rest [ none ↦ none | some (found, goals') ↦ some (found, g ∷ goals') ]

unfoldable pub write_goal : String → Files → Option (Goal × List Goal) → Option Goal × Files
write_goal goal_id f none = (none, f)
write_goal goal_id f (some (g, goals)) =
    let f' : Files = record f { goals = some goals } in
    (some g, (if g.status == "done" then move_kanban_by_goal goal_id done f' else f'))

unfoldable pub update_goal : String → Fields → ℕ → Files → Option Goal × Files
update_goal goal_id u now f = write_goal goal_id f (update_first goal_id u now (goals_of f.goals))
