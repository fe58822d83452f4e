-- ===== src/Goals/Examples.antt =====
-- A board with a card that stands in two columns.
use tempa.Base.{none, some, [], ◌∷◌}
use tempa.Goals.{Card, Files, doing, done, move_kanban_card}
use tempa.Goals.Moves.{Moved, move_kanban_card-Moved}

abbrev card : Card
card = record { id = "c"; title = "Move house"; goal_id = some "g"; created_at = 10 }

abbrev files : Files
files = record {
  goals = none;
  kanban = some (record { backlog_cards = card ∷ []; doing_cards = card ∷ []; done_cards = [] });
}

move_kanban_card-Moved_example : Moved "c" done doing files (move_kanban_card "c" done files)
move_kanban_card-Moved_example = move_kanban_card-Moved "c" done doing files
