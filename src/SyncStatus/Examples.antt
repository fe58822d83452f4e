-- ===== src/SyncStatus/Examples.antt =====
-- A channel that is synchronised once and then fails twice.
use tempa.Base.{ℕ, none, some, List, [], ◌∷◌, ◌≡◌, refl}
use tempa.Base.Dict
use tempa.Base.Value.{time, doc}
use tempa.SyncStatus.{Attempt, record_sync, get_sync_status}
use tempa.SyncStatus.Failures.{record_all, last_success}

abbrev success : Attempt
success = record { status = "ok"; error = ""; details = some (doc "{\"messages\": 3}") }

abbrev failures : List (Attempt × ℕ)
failures =
    (record { status = "error"; error = "timeout"; details = none }, 60)
    ∷ (record { status = "error"; error = "refused"; details = none }, 70)
    ∷ []

last_success_example :
    Dict.get
      (get_sync_status "gmail" (record_all "gmail" failures (record_sync "gmail" success 50 none)))
      "last_sync_at"
    ≡ some (time 50)
last_success_example = last_success "gmail" success 50 failures none refl (refl, (refl, tt))
