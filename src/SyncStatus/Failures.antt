-- ===== src/SyncStatus/Failures.antt =====
-- What a channel's failures leave of its last success.
use tempa.Base.{
  ℕ, String, true, false, Option, none, some, List, [], ◌∷◌, ◌==◌, ◌≡◌, refl, ◌∙◌, inl, inr,
  Bool-cases, if◌then◌else◌, All,
}
use tempa.Base.Dict
use tempa.Base.Dict.{Dict, get-put, get-put_self}
use tempa.Base.Value.{Row, Value, truthy, text, time}
use tempa.SyncStatus.{
  Store, Attempt, put_details, synced_row, record_sync, get_sync_status, value_or,
}

-- Attempts at the channel, each with its time.
unfoldable pub record_all : String → List (Attempt × ℕ) → Store → Store
record_all channel [] store = store
record_all channel ((a, now) ∷ attempts) store =
    record_all channel attempts (record_sync channel a now store)

abbrev pub AllFailed : List (Attempt × ℕ) → Type 0
AllFailed = All (λ (a : Attempt × ℕ). (a.0.status == "ok") ≡ false)

get-put_details :
    (details : Option Value) (r : Row)
    → Dict.get (put_details details r) "last_sync_at" ≡ Dict.get r "last_sync_at"
get-put_details none r = refl
get-put_details (some v) r = elim (Bool-cases (truthy v)) [
  | inl given ↦ rw (given, get-put)
  | inr empty ↦ rw empty
]

last-synced_row :
    (a : Attempt) (now : ℕ) (r : Row)
    → Dict.get (synced_row a now r) "last_sync_at"
      ≡ some (if a.status == "ok" then time now else value_or (Dict.get r "last_sync_at") (text ""))
unfolding synced_row
last-synced_row a now r = rw (get-put_details, get-put, get-put, get-put, get-put_self)

last-record_sync :
    (channel : String) (a : Attempt) (now : ℕ) (store : Store)
    → Dict.get (get_sync_status channel (record_sync channel a now store)) "last_sync_at"
      ≡ some (
          if a.status == "ok"
          then time now
          else value_or (Dict.get (get_sync_status channel store) "last_sync_at") (text ""))
unfolding get_sync_status record_sync
last-record_sync channel a now store = rw get-put_self (last-synced_row a now _)

last-record_all :
    (channel : String) (failures : List (Attempt × ℕ)) (store : Store) (v : Value)
    → AllFailed failures
    → Dict.get (get_sync_status channel store) "last_sync_at" ≡ some v
    → Dict.get (get_sync_status channel (record_all channel failures store)) "last_sync_at" ≡ some v
unfolding record_all
last-record_all channel [] store v failed h = h
last-record_all channel ((a, now) ∷ failures) store v failed h =
    last-record_all channel failures (record_sync channel a now store) v failed.1
      (last-record_sync channel a now store ∙ rw (failed.0, h))

-- After a successful attempt and any failed ones, a channel's last success is the time of that
-- attempt.
pub last_success :
    (channel : String) (a : Attempt) (now : ℕ) (failures : List (Attempt × ℕ)) (store : Store)
    → (a.status == "ok") ≡ true
    → AllFailed failures
    → Dict.get
        (get_sync_status channel (record_all channel failures (record_sync channel a now store)))
        "last_sync_at"
      ≡ some (time now)
last_success channel a now failures store ok failed =
    last-record_all channel failures (record_sync channel a now store) (time now) failed
      (last-record_sync channel a now store ∙ rw ok)
