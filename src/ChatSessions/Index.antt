-- ===== src/ChatSessions/Index.antt =====
-- That the index of core/chat_sessions.py lists the sessions that are stored.
use mathlib.Core.Option
use tempa.Base.{
  ℕ, String, Bool, true, false, not, Option, none, some, List, [], ◌∷◌, ◌==◌, ◌≡◌, refl, sym, ap,
  ◌∙◌, subst, arith, inl, inr, if◌then◌else◌, Bool-cases, Option-cases, eq_iff, select, snoc,
  if_same,
}
use tempa.Base.Dict
use tempa.Base.Dict.{Dict, get-put, get-pop, get-nil}
use tempa.ChatSessions.{
  Disk, Session, Entry, Message, header_of, read_index, read_session, new_session, create_session,
  update_entry, update_title, append_message, delete_session, save, retitled, appended,
}

-- The first entry of an identifier.
abbrev pub find_entry : List Entry → String → Option Entry
find_entry [] session_id = none
find_entry (e ∷ entries) session_id =
    if e.session_id == session_id then some e else find_entry entries session_id

-- The index shows of each identifier what is stored of its session, and nothing where none is stored.
abbrev pub IsIndexed : Disk → Type 0
IsIndexed d =
    (session_id : String)
    → find_entry (read_index d) session_id ≡ Option.map header_of (read_session session_id d)

abbrev or_else : Option Entry → Option Entry → Option Entry
or_else none b = b
or_else (some a) b = some a

find_entry-snoc :
    (entries : List Entry) (e : Entry) (j : String)
    → find_entry (snoc entries e) j
      ≡ or_else (find_entry entries j) (if e.session_id == j then some e else none)
find_entry-snoc [] e j = refl
find_entry-snoc (x ∷ entries) e j = elim (Bool-cases (x.session_id == j)) [
  | inl same ↦ rw same refl
  | inr apart ↦ rw apart (find_entry-snoc entries e j)
]

abbrev retitle : String → ℕ → Entry → Entry
retitle title now e = record e { title = title; updated_at = now }

find_entry-update_entry :
    (id title : String) (now : ℕ) (entries : List Entry) (j : String)
    → find_entry (update_entry id title now entries) j ≡ (
        if id == j
        then Option.map (retitle title now) (find_entry entries j)
        else find_entry entries j)
unfolding update_entry
find_entry-update_entry id title now [] j = sym (if_same (id == j) none)
find_entry-update_entry id title now (x ∷ entries) j =
    let rest = find_entry-update_entry id title now entries j in
    elim (Bool-cases (x.session_id == id)) [
      | inl mine ↦
          let e = ap (λ a. a == j) ((eq_iff x.session_id id).0 mine) in
          elim (Bool-cases (x.session_id == j)) [
            | inl asked ↦ rw (mine, asked, sym e ∙ asked) refl
            | inr other ↦ rw (mine, other, sym e ∙ other) refl
          ]
      | inr apart ↦ elim (Bool-cases (x.session_id == j)) [
        | inl asked ↦
            let e : (id == j) ≡ false =
              ground (arith, eq_iff x.session_id id, eq_iff x.session_id j, eq_iff id j) in
            rw (apart, asked, e) refl
        | inr other ↦ rw (apart, other) rest
      ]
    ]

find_entry-select :
    (id : String) (entries : List Entry) (j : String)
    → find_entry (select (λ e. not (e.session_id == id)) entries) j
      ≡ (if id == j then none else find_entry entries j)
find_entry-select id [] j = sym (if_same (id == j) none)
find_entry-select id (x ∷ entries) j =
    let rest = find_entry-select id entries j in
    ground (arith, eq_iff x.session_id id, eq_iff x.session_id j, eq_iff id j)

abbrev Named : String → Option Entry → Type 0
Named id none = Unit
Named id (some e) = e.session_id ≡ id

find_entry-Named : (entries : List Entry) (id : String) → Named id (find_entry entries id)
find_entry-Named [] id = tt
find_entry-Named (x ∷ entries) id = elim (Bool-cases (x.session_id == id)) [
  | inl same ↦ rw same ((eq_iff x.session_id id).0 same)
  | inr apart ↦ rw apart (find_entry-Named entries id)
]

-- The identifier of a stored session is that of its file.
stored_id :
    (d : Disk) (id : String) (s : Session)
    → IsIndexed d
    → read_session id d ≡ some s
    → s.session_id ≡ id
stored_id d id s h found =
    subst (Named id) (h id ∙ ap (Option.map header_of) found) (find_entry-Named (read_index d) id)

-- Both sides of an identifier's test, each by what it is then.
by_test :
    {A : Type 0} (b : Bool) (x y z : A)
    → (b ≡ true → x ≡ z)
    → (b ≡ false → y ≡ z)
    → (if b then x else y) ≡ z
by_test true x y z f g = f refl
by_test false x y z f g = g refl

found_self :
    (d : Disk) (id j : String) (found : Option Session)
    → IsIndexed d
    → read_session id d ≡ found
    → (id == j) ≡ true
    → find_entry (read_index d) j ≡ Option.map header_of found
found_self d id j found h e same =
    subst (λ i. find_entry (read_index d) i ≡ Option.map header_of found) ((eq_iff id j).0 same)
      (h id ∙ ap (Option.map header_of) e)

save-IsIndexed :
    (d : Disk) (id : String) (s s' : Session)
    → IsIndexed d
    → read_session id d ≡ some s
    → header_of s' ≡ retitle s'.title s'.updated_at (header_of s)
    → IsIndexed (save id s' d)
unfolding read_session
save-IsIndexed d id s s' h found kept j =
    let named : s'.session_id ≡ id = ap (λ e. e.session_id) kept ∙ stored_id d id s h found in
    let stored =
      get-put d.sessions s'.session_id j s'
      ∙ ap (λ i. if i == j then some s' else Dict.get d.sessions j) named in
    let choose = λ (b : Bool). if b then some s' else Dict.get d.sessions j in
    find_entry-update_entry id s'.title s'.updated_at (read_index d) j
    ∙ by_test (id == j) _ _ _
        (λ same.
          ap (Option.map (retitle s'.title s'.updated_at)) (found_self d id j (some s) h found same)
          ∙ ap some (sym kept)
          ∙ sym (ap (Option.map header_of) (stored ∙ ap choose same)))
        (λ apart. h j ∙ sym (ap (Option.map header_of) (stored ∙ ap choose apart)))

or_else-none : (o : Option Entry) → or_else o none ≡ o
or_else-none none = refl
or_else-none (some e) = refl

-- A new identifier: no file has it.
pub create_session-IsIndexed :
    (id title : String) (now : ℕ) (d : Disk)
    → read_session id d ≡ none
    → IsIndexed d
    → IsIndexed (create_session id title now d).1
unfolding create_session read_session
create_session-IsIndexed id title now d fresh h j =
    let s = new_session id title now in
    let choose = λ (b : Bool). if b then some s else Dict.get d.sessions j in
    let shown = λ (b : Bool).
      or_else (find_entry (read_index d) j) (if b then some (header_of s) else none) in
    let stored = get-put d.sessions id j s in
    find_entry-snoc (read_index d) (header_of s) j ∙ elim (Bool-cases (id == j)) [
      | inl same ↦
          ap shown same
          ∙ ap (λ o. or_else o (some (header_of s))) (found_self d id j none h fresh same)
          ∙ sym (ap (Option.map header_of) (stored ∙ ap choose same))
      | inr apart ↦
          ap shown apart
          ∙ or_else-none (find_entry (read_index d) j)
          ∙ h j
          ∙ sym (ap (Option.map header_of) (stored ∙ ap choose apart))
    ]

pub delete_session-IsIndexed :
    (id : String) (d : Disk) → IsIndexed d → IsIndexed (delete_session id d).1
unfolding delete_session read_session
delete_session-IsIndexed id d h = elim (Option-cases (Dict.get d.sessions id)) [
  | inl missing ↦ rw missing h
  | inr (s, found) ↦ rw found (λ (j : String).
      find_entry-select id (read_index d) j
      ∙ by_test (id == j) none (find_entry (read_index d) j) _
          (λ same. sym (
            ap (Option.map header_of)
              (get-pop d.sessions id j ∙ ap (λ b. if b then none else Dict.get d.sessions j) same)))
          (λ apart.
            h j
            ∙ sym (
                ap (Option.map header_of) (
                  get-pop d.sessions id j
                  ∙ ap (λ b. if b then none else Dict.get d.sessions j) apart))))
]

pub update_title-IsIndexed :
    (id title : String) (now : ℕ) (d : Disk)
    → IsIndexed d
    → IsIndexed (update_title id title now d).1
unfolding update_title
update_title-IsIndexed id title now d h = elim (Option-cases (read_session id d)) [
  | inl missing ↦ rw missing h
  | inr (s, found) ↦ rw found (save-IsIndexed d id s (retitled title now s) h found refl)
]

pub append_message-IsIndexed :
    (id : String) (m : Message) (now : ℕ) (d : Disk)
    → IsIndexed d
    → IsIndexed (append_message id m now d).1
unfolding append_message
append_message-IsIndexed id m now d h = elim (Option-cases (read_session id d)) [
  | inl missing ↦ rw missing h
  | inr (s, found) ↦ rw found (save-IsIndexed d id s (appended now m s) h found refl)
]
