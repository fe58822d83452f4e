-- ===== src/Pending.antt =====
-- The owner-approval store: core/pending_actions.py of src/tempa. Each function takes the stored
-- file, `none` where it is missing or unreadable, and the time of its call where it reads the clock.
mod Examples
pub mod Title
pub mod Call
pub mod Executor
pub mod Execute
pub mod Lifecycle
pub mod Begun
pub mod Once
pub mod Approval
use tempa.Base.{
  ℕ, ◌+◌, ◌*◌, String, Bool, true, false, ◌&&◌, Option, none, some, List, [], ◌∷◌, leb, contains,
  select, ◌==◌, if◌then◌else◌,
}
use tempa.Base.Dict
use tempa.Base.Dict.{Dict}
use tempa.Base.Value.{Row}
use tempa.Base.Sort.{sort_desc}

-- `PendingActionStatus`
pub data Status : Type 0 where
  pending approved rejected expired failed executed : Status

abbrev pub same_status : Status → Status → Bool
same_status pending pending = true
same_status approved approved = true
same_status rejected rejected = true
same_status expired expired = true
same_status failed failed = true
same_status executed executed = true
same_status _ _ = false

-- The record that `create_pending_action` writes. `expires_at` is `none` where it is missing or is
-- no time: the expiry passes both over. `created_at` and `updated_at` are microseconds.
pub record Action : Type 0 where
  pub id : String
  pub kind : String
  pub payload : Row
  pub status : Status
  pub created_at : ℕ
  pub updated_at : ℕ
  pub expires_at : Option ℕ
  pub source_channel : String
  pub risk_level : String
  pub title : String
  pub result : Option Row

abbrev pub Store : Type 0
Store = Option (Dict Action)

abbrev pub action_types : List String
action_types =
    "email_send" ∷ "whatsapp_send" ∷ "slack_send" ∷ "pc_write" ∷ "pc_delete" ∷ "pc_mkdir"
    ∷ "file_transfer" ∷ "plan_preview" ∷ "qa_autofix" ∷ "qa_repo_scan" ∷ "varys_ticket"
    ∷ "jira_create_issue" ∷ "jira_comment" ∷ "jira_transition" ∷ []

abbrev pub pause_on_pending : List String
pause_on_pending =
    "email_send" ∷ "whatsapp_send" ∷ "slack_send" ∷ "pc_write" ∷ "pc_delete" ∷ "pc_mkdir"
    ∷ "file_transfer" ∷ "qa_autofix" ∷ "jira_create_issue" ∷ "jira_transition" ∷ []

-- `pending_action_ttl_seconds` of permissions.yaml, and its default where the file gives none.
abbrev pub ttl_seconds : Option ℕ → ℕ
ttl_seconds none = 3600
ttl_seconds (some n) = n

abbrev pub read_all : Store → Dict Action
read_all none = []
read_all (some actions) = actions

abbrev pub write_all : Dict Action → Store
write_all actions = some actions

abbrev pub is_stale : ℕ → Action → Bool
is_stale now a = elim a.expires_at [
  | none ↦ false
  | some e ↦ same_status a.status pending && leb e now
]

unfoldable pub expire : ℕ → Action → Action
expire now a = if is_stale now a then record a { status = expired; updated_at = now } else a

pub expire_stale : ℕ → Dict Action → Dict Action
unfolding expire
expire_stale now actions = Dict.map_values (expire now) actions

-- What the caller of `create_pending_action` gives; `title` may be empty.
pub record Proposal : Type 0 where
  pub kind : String
  pub payload : Row
  pub source_channel : String
  pub risk_level : String
  pub title : String

-- The new record; `fallback` is `_default_title` of the kind and the payload.
abbrev pub new_action : (ttl : Option ℕ) (now : ℕ) (id fallback : String) → Proposal → Action
new_action ttl now id fallback p = record {
  id = id;
  kind = p.kind;
  payload = p.payload;
  status = pending;
  created_at = now;
  updated_at = now;
  expires_at = some (now + ttl_seconds ttl * 1_000_000);
  source_channel = p.source_channel;
  risk_level = p.risk_level;
  title = (if p.title == "" then fallback else p.title);
  result = none;
}

abbrev pub of_status : Option Status → List Action → List Action
of_status none items = items
of_status (some s) items = select (λ a. same_status a.status s) items

-- `list_pending_actions`: the stored file is written back with what has expired.
unfoldable pub list_pending_actions : Option Status → ℕ → Store → List Action × Store
unfolding expire_stale
list_pending_actions status now store =
    let actions = expire_stale now (read_all store) in
    let items = Dict.values actions in
    (sort_desc (λ a. a.created_at) (of_status status items), write_all actions)

unfoldable pub get_pending_action : String → ℕ → Store → Option Action × Store
unfolding expire_stale
get_pending_action id now store =
    let actions = expire_stale now (read_all store) in (Dict.get actions id, write_all actions)

unfoldable pub update_found : String → Row → ℕ → Store → Option Action → Option Action × Store
update_found id payload now store none = (none, store)
update_found id payload now store (some a) =
    if same_status a.status pending
    then (let b : Action = record a { payload = payload; updated_at = now } in
        (some b, write_all (Dict.put (read_all store) id b)))
    else (none, store)

unfoldable pub update_pending_payload : String → Row → ℕ → Store → Option Action × Store
unfolding update_found
update_pending_payload id payload now store =
    update_found id payload now store (Dict.get (read_all store) id)

unfoldable pub reject_found : String → ℕ → Store → Option Action → Option Action × Store
reject_found id now store none = (none, store)
reject_found id now store (some a) =
    if same_status a.status pending
    then (let b : Action = record a { status = rejected; updated_at = now } in
        (some b, write_all (Dict.put (read_all store) id b)))
    else (some a, store)

unfoldable pub reject_pending_action : String → ℕ → Store → Option Action × Store
unfolding reject_found
reject_pending_action id now store = reject_found id now store (Dict.get (read_all store) id)

abbrev pub or_old : Option Row → Option Row → Option Row
or_old none old = old
or_old (some r) old = some r

unfoldable pub mark_found :
    String → Status → Option Row → ℕ → Store → Option Action → Option Action × Store
mark_found id status result now store none = (none, store)
mark_found id status result now store (some a) =
    let b : Action = record a {
      status = status;
      updated_at = now;
      result = or_old result a.result;
    } in
    (some b, write_all (Dict.put (read_all store) id b))

-- `_mark_action`
unfoldable pub mark_action : String → Status → Option Row → ℕ → Store → Option Action × Store
unfolding mark_found
mark_action id status result now store =
    mark_found id status result now store (Dict.get (read_all store) id)
