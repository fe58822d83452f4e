-- ===== src/Pending/Title.antt =====
-- `_default_title`, `create_pending_action` and `needs_owner_pause` of core/pending_actions.py.
use Prim.Native.String.{◌++◌}
use package.text.Mathlib.Text.{starts_with}
use tempa.Base.{
  ℕ, zero, suc, String, Bool, true, false, ◌||◌, Option, none, some, List, [], ◌∷◌, ◌==◌, contains,
  ◌≡◌, refl, if◌then◌else◌,
}
use tempa.Base.Text.{equal_lower}
use tempa.Base.Dict
use tempa.Base.Value.{Value, Row, truthy, str, str_or, text}
use tempa.Pending.{
  Action, Store, Proposal, action_types, pause_on_pending, read_all, write_all, expire_stale,
  new_action,
}

-- `payload.get(key, default)`
abbrev pub or_default : Option Value → Value → Value
or_default none d = d
or_default (some v) d = v

-- The text of `payload.get(key, default)` in an f-string.
shown : Row → String → String → String
unfolding str
shown payload key d = str (or_default (Dict.get payload key) (text d))

abbrev pub truthy_field : Row → String → Bool
truthy_field payload key = elim (Dict.get payload key) [ none ↦ false | some v ↦ truthy v ]

-- `s.replace("pc_", "")`: `skip` counts the characters of a match that are still to be dropped.
without_pc : ℕ → String → String
without_pc skip String.[] = ""
without_pc (suc skip) (String.◌∷◌ c s) = without_pc skip s
without_pc zero (String.◌∷◌ c s) =
    let dropped = without_pc 2 s in
    let kept = without_pc 0 s in
    if starts_with (String.◌∷◌ c s) "pc_" then dropped else String.◌∷◌ c kept

unfoldable pub default_title : String → Row → String
unfolding shown without_pc
default_title kind payload =
    if kind == "email_send"
    then "Email to " ++ shown payload "to" "unknown"
    else if kind == "whatsapp_send"
    then "WhatsApp to " ++ shown payload "number" "unknown"
    else if kind == "slack_send"
    then "Slack message to " ++ shown payload "channel" "unknown"
    else if kind == "file_transfer"
    then "Transfer "
      ++ str (
          or_default (Dict.get payload "filename")
            (or_default (Dict.get payload "path") (text "file")))
    else if starts_with kind "pc_"
    then "PC " ++ without_pc 0 kind ++ ": " ++ shown payload "path" ""
    else if kind == "plan_preview"
    then "Review coordinator execution plan"
    else if kind == "qa_autofix"
    then "QA fix: "
      ++ str (
          or_default (Dict.get payload "title")
            (or_default (Dict.get payload "file") (text "patch")))
    else if kind == "qa_repo_scan"
    then (let repo = shown payload "repo" "unknown" in
        if truthy_field payload "pr_number"
        then "QA scan PR #" ++ shown payload "pr_number" "" ++ " on " ++ repo
        else if truthy_field payload "branch"
        then "QA scan " ++ repo ++ " @ " ++ shown payload "branch" ""
        else "QA scan " ++ repo)
    else if kind == "varys_ticket"
    then "Varys work ticket: "
      ++ str (
          or_default (Dict.get payload "title")
            (or_default (Dict.get payload "ticket_id") (text "ticket")))
    else if kind == "jira_create_issue"
    then "Create Jira issue"
      ++ (if truthy (or_default (Dict.get payload "project") (text ""))
          then " in " ++ shown payload "project" ""
          else "")
      ++ ": "
      ++ shown payload "summary" ""
    else if kind == "jira_comment"
    then "Comment on Jira " ++ shown payload "issue_key" "issue"
    else if kind == "jira_transition"
    then "Transition Jira "
      ++ shown payload "issue_key" "issue"
      ++ " → "
      ++ shown payload "transition" ""
    else kind

-- `action_type in ACTION_TYPES`
unfoldable pub is_known : String → Bool
is_known kind = contains action_types kind

-- `create_pending_action`, with the identifier that `uuid4` gave; `none` is the ValueError.
unfoldable pub create_pending_action :
    (ttl : Option ℕ) (id : String) → Proposal → ℕ → Store → Option Action × Store
create_pending_action ttl id p now store =
    if is_known p.kind
    then (let a : Action = new_action ttl now id (default_title p.kind p.payload) p in
        (some a, write_all (Dict.put (expire_stale now (read_all store)) id a)))
    else (none, store)

-- An item of a list of pending actions as the coordinator carries it: `none` is no dict.
pauses : Option Row → Bool
unfolding equal_lower
pauses none = false
pauses (some item) =
    let risk = str_or (Dict.get item "risk_level") in
    contains pause_on_pending (str_or (Dict.get item "type"))
    || equal_lower risk "high"
    || equal_lower risk "critical"

unfoldable pub needs_owner_pause : List (Option Row) → Bool
unfolding pauses
needs_owner_pause [] = false
needs_owner_pause (item ∷ items) =
    let rest = needs_owner_pause items in if pauses item then true else rest

title_pc : default_title "pc_write" (("path", text "/tmp/a") ∷ []) ≡ "PC write: /tmp/a"
unfolding default_title Dict.get
title_pc = refl
