-- ===== src/ChatSessions.antt =====
-- The chats of the dashboard: core/chat_sessions.py of src/tempa. Each chat has a file of its own, and
-- an index lists them. Records are kept as the functions write them.
mod Examples
pub mod Calls
pub mod Index
use Prim.Native.Char.{Char}
use Prim.Native.String.{◌++◌}
use tempa.Base.{
  ℕ, zero, suc, String, Bool, true, false, not, ◌&&◌, ◌||◌, Option, none, some, List, [], ◌∷◌, ◌==◌,
  ◌-◌, leb, if◌then◌else◌, length, drop, select, snoc,
}
use tempa.Base.Dict
use tempa.Base.Dict.{Dict}
use tempa.Base.Sort.{sort_desc}
use tempa.Base.Text.{is_space, prefix, rstrip}

pub data Role : Type 0 where
  user : Role
  assistant : Role

-- A message; an object that it only carries is kept as its text, and an empty list stands for a
-- field that is left out.
pub record Message : Type 0 where
  pub message_id : String
  pub role : Role
  pub content : String
  pub sources : List String
  pub created_at : ℕ
  pub is_paused : Bool
  pub steps : List String
  pub activity : List String
  pub pending_actions : List String
  pub artifacts : List String
  pub planned_steps : List String

pub record Session : Type 0 where
  pub session_id : String
  pub title : String
  pub created_at : ℕ
  pub updated_at : ℕ
  pub messages : List Message

-- An entry of the index.
pub record Entry : Type 0 where
  pub session_id : String
  pub title : String
  pub created_at : ℕ
  pub updated_at : ℕ

-- The files: `sessions` by their names, without those that do not parse, and `index` none where it is
-- missing or no list.
pub record Disk : Type 0 where
  pub sessions : Dict Session
  pub index : Option (List Entry)

-- `_read_index_unlocked`
abbrev pub read_index : Disk → List Entry
read_index d = elim d.index [ none ↦ [] | some entries ↦ entries ]

-- `_read_session_unlocked`, which is `get_session` too
unfoldable pub read_session : String → Disk → Option Session
read_session session_id d = Dict.get d.sessions session_id

-- `_write_session_unlocked` and then `_write_index_unlocked`
abbrev pub write : Session → List Entry → Disk → Disk
write s entries d = record { sessions = Dict.put d.sessions s.session_id s; index = some entries }

-- `" ".join(text.split())`: `started` after a word, and `gap` after spaces.
join_words : (started gap : Bool) → String → String
join_words started gap String.[] = ""
join_words started gap (String.◌∷◌ c s) =
    let space = is_space c in
    let rest = join_words (started || not space) space s in
    if space
    then rest
    else if started && gap
    then String.◌∷◌ " " (String.◌∷◌ c rest)
    else String.◌∷◌ c rest

count : String → ℕ
count String.[] = 0
count (String.◌∷◌ c s) = suc (count s)

unfoldable pub truncate_title : (text : String) (limit : ℕ) → String
unfolding join_words count
truncate_title text limit =
    let cleaned = join_words false false text in
    if leb (count cleaned) limit
    then (if cleaned == "" then "New chat" else cleaned)
    else rstrip (prefix (limit - 1) cleaned) ++ "…"

unfoldable pub list_sessions : Disk → List Entry
list_sessions d = sort_desc (λ e. e.updated_at) (read_index d)

abbrev pub header_of : Session → Entry
header_of s = record {
  session_id = s.session_id;
  title = s.title;
  created_at = s.created_at;
  updated_at = s.updated_at;
}

-- The session that `create_session` makes, with the identifier of `uuid4`.
abbrev pub new_session : (session_id title : String) (now : ℕ) → Session
new_session session_id title now = record {
  session_id = session_id;
  title = if title == "" then "New chat" else title;
  created_at = now;
  updated_at = now;
  messages = [];
}

unfoldable pub create_session : (session_id title : String) (now : ℕ) → Disk → Session × Disk
create_session session_id title now d =
    let s = new_session session_id title now in (s, write s (snoc (read_index d) (header_of s)) d)

-- The first entry with the identifier gets the title and the time.
unfoldable pub update_entry : (session_id title : String) (now : ℕ) → List Entry → List Entry
update_entry session_id title now [] = []
update_entry session_id title now (e ∷ entries) =
    let rest = update_entry session_id title now entries in
    if e.session_id == session_id
    then record e { title = title; updated_at = now } ∷ entries
    else e ∷ rest

abbrev pub save : (session_id : String) → Session → Disk → Disk
save session_id s d = write s (update_entry session_id s.title s.updated_at (read_index d)) d

abbrev pub retitled : String → ℕ → Session → Session
retitled title now s = record s { title = title; updated_at = now }

abbrev update_found :
    (session_id title : String) (now : ℕ) → Disk → Option Session → Option Session × Disk
update_found session_id title now d none = (none, d)
update_found session_id title now d (some s) =
    (some (retitled title now s), save session_id (retitled title now s) d)

unfoldable pub update_title : (session_id title : String) (now : ℕ) → Disk → Option Session × Disk
update_title session_id title now d =
    update_found session_id title now d (read_session session_id d)

-- `xs[-50:]`
abbrev last_50 : List String → List String
last_50 xs = drop (length xs - 50) xs

-- A message as it is stored.
abbrev pub stored : ℕ → Message → Message
stored now m = record m { created_at = now; steps = last_50 m.steps; activity = last_50 m.activity }

abbrev is_user : Role → Bool
is_user user = true
is_user assistant = false

abbrev pub appended : ℕ → Message → Session → Session
appended now m s = record s {
  messages = snoc s.messages (stored now m);
  updated_at = now;
  title =
      if is_user m.role && (s.title == "" || s.title == "New chat")
      then truncate_title m.content 60
      else s.title;
}

abbrev append_found :
    (session_id : String) → Message → ℕ → Disk → Option Session → Option Message × Disk
append_found session_id m now d none = (none, d)
append_found session_id m now d (some s) =
    (some (stored now m), save session_id (appended now m s) d)

unfoldable pub append_message : (session_id : String) → Message → ℕ → Disk → Option Message × Disk
append_message session_id m now d = append_found session_id m now d (read_session session_id d)

abbrev delete_found : (session_id : String) → Disk → Option Session → Bool × Disk
delete_found session_id d none = (false, d)
delete_found session_id d (some s) = (
  true,
  record {
    sessions = Dict.pop d.sessions session_id;
    index = some (select (λ e. not (e.session_id == session_id)) (read_index d));
  },
)

unfoldable pub delete_session : (session_id : String) → Disk → Bool × Disk
delete_session session_id d = delete_found session_id d (read_session session_id d)

-- With the identifier and the time that a new session gets; an empty identifier stands for None.
abbrev found_or_new : (new_id : String) (now : ℕ) → Disk → Option Session → Session × Disk
found_or_new new_id now d none = create_session new_id "" now d
found_or_new new_id now d (some s) = (s, d)

unfoldable pub ensure_session : (session_id new_id : String) (now : ℕ) → Disk → Session × Disk
ensure_session session_id new_id now d =
    found_or_new new_id now d (if session_id == "" then none else read_session session_id d)

unfoldable pub session_count : Disk → ℕ
session_count d = length (read_index d)
