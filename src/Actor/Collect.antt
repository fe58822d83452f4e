-- ===== src/Actor/Collect.antt =====
-- The pending actions in the results of specialists: `collect_pending_from_results` of
-- agents/graph.py and what it calls, and `_collect_pending_actions`.
use tempa.Base.{
  String, Bool, true, false, ◌&&◌, ◌||◌, Option, none, some, List, [], ◌∷◌, ◌++◌, ◌==◌, contains,
  if◌then◌else◌,
}
use tempa.Base.Dict
use tempa.Base.Dict.{Dict}
use tempa.Base.Text.{includes, prefix}
use tempa.Base.Value.{Value, Row, truthy, str, str_or, is_text, first_truthy, text}
use tempa.Pending.Title.{needs_owner_pause}

-- An item of the coordinator's list of pending actions.
pub record Preview : Type 0 where
  pub action_id : String
  pub kind : String
  pub preview : String

-- `_pending_preview`
abbrev pub pending_preview : (action_id action_type preview : String) → Preview
pending_preview action_id action_type preview = record {
  action_id = action_id;
  kind = action_type;
  preview = prefix 500 preview;
}

-- The dictionary that an item is.
abbrev pub row_of : Preview → Row
row_of p = ("id", text p.action_id) ∷ ("type", text p.kind) ∷ ("preview", text p.preview) ∷ []

abbrev pub has : Option Value → Bool
has none = false
has (some v) = true

abbrev pub is_true : Option Value → Bool
is_true none = false
is_true (some v) = truthy v

-- `str(payload.get("to", ""))`
abbrev pub shown : Option Value → String
unfolding str
shown none = ""
shown (some v) = str v

unfoldable pub pending_type_from_payload : Row → String
pending_type_from_payload payload =
    let tool = Dict.get payload "tool" in
    if has (Dict.get payload "subject") || includes (shown (Dict.get payload "to")) "@"
    then "email_send"
    else if is_text tool "write_file"
    then "pc_write"
    else if is_text tool "create_directory"
    then "pc_mkdir"
    else if is_text tool "delete_path"
    then "pc_delete"
    else if is_text tool "prepare_file_transfer"
    then "file_transfer"
    else if is_true (Dict.get payload "path") && is_text (Dict.get payload "status") "pending"
    then "pc_write"
    else if is_true (Dict.get payload "number")
    then "whatsapp_send"
    else if is_true (Dict.get payload "channel") && has (Dict.get payload "text")
    then "slack_send"
    else "whatsapp_send"

-- `str(preview or body or message or "")`
unfoldable pub preview_of : Row → String
unfolding str_or
preview_of payload = str_or (
    first_truthy (Dict.get payload "preview")
      (first_truthy (Dict.get payload "body") (Dict.get payload "message")))

-- The items with the identifiers that were seen.
pub record Seen : Type 0 where
  pub items : List Preview
  pub ids : List String

abbrev pub add_item : Preview → Seen → Seen
add_item p s =
    if contains s.ids p.action_id
    then s
    else record { items = s.items ++ p ∷ []; ids = p.action_id ∷ s.ids }

-- The body of the loop, for a result that is an object.
unfoldable pub collect_payload : Row → Seen → Seen
collect_payload payload s =
    let action_id = Dict.get payload "pending_action_id" in
    if is_text (Dict.get payload "status") "pending" && is_true action_id
    then add_item
        (pending_preview (shown action_id) (pending_type_from_payload payload) (preview_of payload))
        s
    else s

abbrev pub collect_parsed : Option Row → Seen → Seen
collect_parsed none s = s
collect_parsed (some payload) s = collect_payload payload s

unfoldable pub collect_from : (String → Option Row) → List String → Seen → Seen
collect_from parse [] s = s
collect_from parse (raw ∷ results) s = collect_from parse results (collect_parsed (parse raw) s)

-- `parse` is `json.loads`, where it gives an object.
unfoldable pub collect_pending_from_results :
    (parse : String → Option Row) → Dict String → List Preview
collect_pending_from_results parse results =
    (collect_from parse (Dict.values results) (record { items = []; ids = [] })).items

-- `{p["id"] for p in pending_actions if p.get("id")}`
abbrev pub ids_of : List Preview → List String
ids_of [] = []
ids_of (p ∷ items) =
    let rest = ids_of items in if p.action_id == "" then rest else p.action_id ∷ rest

unfoldable pub add_all : List Preview → Seen → Seen
add_all [] s = s
add_all (p ∷ items) s = add_all items (add_item p s)

-- The new items after the old, each identifier once; `_collect_pending_actions` does it for the
-- items of the results.
unfoldable pub add_new : (old new : List Preview) → List Preview
unfolding add_all
add_new old new = (add_all new (record { items = old; ids = ids_of old })).items

abbrev rows : List Preview → List (Option Row)
rows [] = []
rows (p ∷ items) = some (row_of p) ∷ rows items

-- `needs_pause` of orchestrator/actor_loop.py
unfoldable pub needs_pause : List Preview → Bool
unfolding needs_owner_pause
needs_pause items = needs_owner_pause (rows items)
