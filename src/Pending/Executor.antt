-- ===== src/Pending/Executor.antt =====
-- `_run_executor` of core/pending_actions.py.
use Prim.Native.Char.{code}
use tempa.Base.{
  ℕ, ◌+◌, ◌-◌, ◌*◌, String, Bool, true, ◌&&◌, ◌||◌, not, Option, none, some, List, [], ◌∷◌, leb,
  ◌==◌, if◌then◌else◌,
}
use tempa.Base.Text.{strip}
use tempa.Base.Dict
use tempa.Base.Value.{Value, Row, truthy, str_or, null, flag, num, text}
use tempa.Pending.Title.{or_default, truthy_field}
use tempa.Pending.Call.{
  returned, raised, send_gmail_message, record_gmail_action, send_whatsapp_media,
  send_whatsapp_message, send_slack_message, write_file, create_directory, delete_path,
  activate_transfer, run_coordinator, apply_autofix, update_finding, add_repo, approve_varys_ticket,
  create_issue, add_comment, transition_issue, Outside, Effect, pure, throw, ◌>>=◌, ◌>>◌,
}

-- `payload.get(key, default)`, `payload.get(key) or None` and `str(payload.get(key) or default)`
abbrev field : Row → String → String → Value
field payload key d = or_default (Dict.get payload key) (text d)

abbrev field_or_null : Row → String → Value
field_or_null payload key = elim (Dict.get payload key) [
  | none ↦ null
  | some v ↦ if truthy v then v else null
]

string : Row → String → String
unfolding str_or
string payload key = str_or (Dict.get payload key)

string_or : Row → String → String → String
unfolding string
string_or payload key d = if truthy_field payload key then string payload key else d

-- `int(v)`, for a number or a text of ASCII digits.
digits : ℕ → String → Option ℕ
digits n String.[] = some n
digits n (String.◌∷◌ c s) =
    let rest = digits (n * 10 + (code c - 48)) s in
    if leb 48 (code c) && leb (code c) 57 then rest else none

abbrev int_error : String
int_error = "invalid literal for int()"

to_int : {W : Type 0} → Value → Effect W ℕ
unfolding digits
to_int (num n) w = (returned n, w)
to_int (flag true) w = (returned 1, w)
to_int (text s) w = elim (digits 0 (strip s)) [
  | none ↦ (raised int_error, w)
  | some n ↦ if strip s == "" then (raised int_error, w) else (returned n, w)
]
to_int _ w = (raised int_error, w)

-- `int(payload["pr_number"]) if payload.get("pr_number") else None`
pull_request : {W : Type 0} → Row → Effect W (Option ℕ)
unfolding to_int
pull_request payload w = elim (Dict.get payload "pr_number") [
  | none ↦ (returned none, w)
  | some v ↦ if truthy v then (to_int v >>= λ n. pure (some n)) w else (returned none, w)
]

abbrev scan_keys : List String
scan_keys =
    "requested_by" ∷ "source_channel" ∷ "request_message" ∷ "slack_channel_id" ∷ "slack_thread_ts"
    ∷ "whatsapp_number" ∷ []

-- `{k: payload[k] for k in … if payload.get(k)}`
truthy_entries : Row → List String → Row
truthy_entries payload [] = []
truthy_entries payload (k ∷ ks) =
    let rest = truthy_entries payload ks in
    elim (Dict.get payload k) [ none ↦ rest | some v ↦ if truthy v then (k, v) ∷ rest else rest ]

module _ {W : Type 0} (o : Outside W) where
  abbrev when : Bool → Effect W Row → Effect W Row
  when b m = if b then m else pure []

  autofix : Row → Effect W Row
  unfolding string
  autofix payload = do
    token ← o.github_token (string payload "repo")
    result ← o.perform (apply_autofix (Dict.put payload "token" (text token)))
    when (not (string payload "finding_id" == ""))
        (o.perform (update_finding (string payload "finding_id") (Dict.get result "pr_url")))
    pure result

  repo_scan : Row → Effect W Row
  unfolding string string_or pull_request truthy_entries
  repo_scan payload = do
    when (truthy_field payload "add_to_allowlist")
        (o.perform (add_repo (string payload "repo") (string_or payload "source_channel" "chat")))
    pr_number ← pull_request payload
    job_id ←
        o.enqueue_target_scan (string payload "repo") (Dict.get payload "branch") pr_number
          (truthy_entries payload scan_keys)
    pure (
        ("status", text "queued")
        ∷ ("job_id", text job_id)
        ∷ ("repo", text (string payload "repo"))
        ∷ [])

  unfoldable pub run_executor : String → Row → Effect W Row
  unfolding string string_or autofix repo_scan
  run_executor kind payload =
      if kind == "email_send"
      then (do
        result ← o.perform (
            send_gmail_message (field payload "to" "") (field payload "subject" "")
              (field payload "body" "") (field_or_null payload "body_html") (field payload "cc" "")
              (field payload "bcc" ""))
        o.perform (record_gmail_action result)
        pure result)
      else if kind == "whatsapp_send"
      then (if truthy_field payload "media_path"
          then o.perform (
              send_whatsapp_media (field payload "number" "") (field payload "media_path" "")
                (field payload "text" "") (field payload "mediatype" "document"))
          else o.perform
              (send_whatsapp_message (field payload "number" "") (field payload "text" "")))
      else if kind == "slack_send"
      then o.perform (
          send_slack_message (field payload "channel" "") (field payload "text" "")
            (string payload "thread_ts"))
      else if kind == "pc_write"
      then o.perform (write_file (field payload "path" "") (field payload "content" ""))
      else if kind == "pc_mkdir"
      then o.perform (create_directory (field payload "path" ""))
      else if kind == "pc_delete"
      then o.perform (delete_path (field payload "path" ""))
      else if kind == "file_transfer"
      then o.perform (activate_transfer (field payload "path" ""))
      else if kind == "plan_preview"
      then o.perform
          (run_coordinator (field payload "user_message" "") (field_or_null payload "context"))
      else if kind == "qa_autofix"
      then autofix payload
      else if kind == "qa_repo_scan"
      then repo_scan payload
      else if kind == "varys_ticket"
      then (if string payload "ticket_id" == ""
          then throw "varys_ticket missing ticket_id"
          else o.perform (approve_varys_ticket (string payload "ticket_id")))
      else if kind == "jira_create_issue"
      then o.perform (
          create_issue (string payload "project") (string payload "summary")
            (string payload "description") (string_or payload "issue_type" "Task")
            (string payload "assignee_account_id") (string payload "priority"))
      else if kind == "jira_comment"
      then (if string payload "issue_key" == ""
          then throw "jira_comment missing issue_key"
          else o.perform (add_comment (string payload "issue_key") (string payload "body")))
      else if kind == "jira_transition"
      then (if string payload "issue_key" == "" || string payload "transition" == ""
          then throw "jira_transition missing issue_key or transition"
          else o.perform
              (transition_issue (string payload "issue_key") (string payload "transition")))
      else throw "No executor for action type"
