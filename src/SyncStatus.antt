-- ===== src/SyncStatus.antt =====
-- When each channel was last synchronised: core/sync_status.py of src/tempa. Every call loads the
-- file first, so that the state is the file: none where it is missing or no JSON object.
mod Examples
pub mod Failures
use tempa.Base.{
  ℕ, String, Bool, true, false, Option, none, some, List, [], ◌∷◌, ◌==◌, if◌then◌else◌,
}
use tempa.Base.Dict
use tempa.Base.Dict.{Dict}
use tempa.Base.Value.{Row, Value, truthy, text, time}

abbrev pub Store : Type 0
Store = Option (Dict Row)

-- `_load`
abbrev pub load : Store → Dict Row
load none = []
load (some rows) = rows

abbrev or_empty : Option Row → Row
or_empty none = []
or_empty (some r) = r

abbrev pub value_or : Option Value → Value → Value
value_or none v = v
value_or (some w) v = w

-- The arguments of `record_sync`.
pub record Attempt : Type 0 where
  pub status : String
  pub error : String
  pub details : Option Value

abbrev pub put_details : Option Value → Row → Row
put_details none r = r
put_details (some v) r = if truthy v then Dict.put r "details" v else r

unfoldable pub synced_row : Attempt → ℕ → Row → Row
synced_row a now r = put_details a.details (
    Dict.put
      (Dict.put
        (Dict.put
          (Dict.put r "last_sync_at"
            (if a.status == "ok" then time now else value_or (Dict.get r "last_sync_at") (text "")))
          "last_attempt_at" (time now))
        "sync_status" (text a.status))
      "last_sync_error" (text (if a.status == "ok" then "" else a.error)))

unfoldable pub record_sync : String → Attempt → ℕ → Store → Store
unfolding synced_row
record_sync channel a now store =
    some
      (Dict.put (load store) channel (synced_row a now (or_empty (Dict.get (load store) channel))))

unfoldable pub get_sync_status : String → Store → Row
get_sync_status channel store = or_empty (Dict.get (load store) channel)

abbrev pub all_sync_status : Store → Dict Row
all_sync_status store = load store
