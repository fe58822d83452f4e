-- ===== src/Pending/Call.antt =====
-- What `_run_executor` of core/pending_actions.py calls in other modules is the parameter `Outside`:
-- it gets a call and the state `W` of everything out there, and returns or raises.
use tempa.Base.{ℕ, String, Option}
use tempa.Base.Value.{Value, Row}

pub data Outcome {ℓ} (A : Type ℓ) : Type ℓ where
  returned : A → Outcome A
  raised : String → Outcome A

-- The calls of other modules that return a dict, with their arguments in order. The context of
-- `run_coordinator` is passed with `plan_approved` added to it.
pub data Call : Type 0 where
  send_gmail_message : (to subject body html_body cc bcc : Value) → Call
  record_gmail_action : Row → Call
  send_whatsapp_media : (number path caption mediatype : Value) → Call
  send_whatsapp_message : (number text : Value) → Call
  send_slack_message : (channel text : Value) (thread_ts : String) → Call
  write_file : (path content : Value) → Call
  create_directory : (path : Value) → Call
  delete_path : (path : Value) → Call
  activate_transfer : (path : Value) → Call
  run_coordinator : (user_message context : Value) → Call
  apply_autofix : Row → Call
  update_finding : String → Option Value → Call
  add_repo : (repo source : String) → Call
  approve_varys_ticket : String → Call
  create_issue : (project summary description issue_type assignee priority : String) → Call
  add_comment : (issue body : String) → Call
  transition_issue : (issue transition : String) → Call
  capture_from_approval : String → Row → Call

pub record Outside (W : Type 0) : Type 0 where
  pub perform : Call → W → Outcome Row × W
  pub github_token : String → W → Outcome String × W
  pub enqueue_target_scan : (repo : String) → Option Value → Option ℕ → Row → W → Outcome String × W

abbrev pub Effect : Type 0 → Type 0 → Type 0
Effect W A = W → Outcome A × W

infixl 5 ◌>>=◌ ◌>>◌
abbrev pub and_then : {W A B : Type 0} → Outcome A → (A → Effect W B) → Effect W B
and_then (returned a) f = f a
and_then (raised e) f = λ w. (raised e, w)

abbrev pub ◌>>=◌ : {W A B : Type 0} → Effect W A → (A → Effect W B) → Effect W B
◌>>=◌ m f w = let (r, w') = m w in and_then r f w'

abbrev pub ◌>>◌ : {W A B : Type 0} → Effect W A → Effect W B → Effect W B
m >> k = m >>= λ _. k

abbrev pub pure : {W A : Type 0} → A → Effect W A
pure a w = (returned a, w)

abbrev pub throw : {W A : Type 0} → String → Effect W A
throw e w = (raised e, w)
