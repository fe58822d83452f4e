-- ===== src/CursorJobs/Participants.antt =====
-- `_merge_participant_ids` and `add_thread_participants` of channels/slack/cursor_jobs.py.
pub mod Clean
pub mod Idempotent
use tempa.Base.{
  ℕ, zero, suc, ◌+◌, ◌≤◌, String, Bool, true, false, not, ◌&&◌, ◌||◌, ◌≡◌, refl, sym, ◌∙◌, subst,
  ap, Option, none, some, List, [], ◌∷◌, ◌++◌, arith, eq_iff, ◌==◌, eq_refl, if◌then◌else◌, inl,
  inr, Bool-cases, ◌⊎◌, All, length, contains, select, contains-append,
}
use tempa.Base.Text.{strip, strip_idem}
use tempa.Base.Dict
use tempa.Base.Dict.{Dict, dict_laws, get-put}
use tempa.Base.Value.{Row, str_or, text, time, texts}
use tempa.Disk.{Disk, read_statuses, write_statuses}
use tempa.CursorJobs.{stripped, ids_of, lead, in_thread}

-- One round of the loop of `_merge_participant_ids`, `ordered` being also the set `seen`.
abbrev pub with_id : List String → String → List String
with_id ordered uid = if uid == "" || contains ordered uid then ordered else ordered ++ uid ∷ []

unfoldable pub merge_from : List String → List String → List String
merge_from ordered [] = ordered
merge_from ordered (raw ∷ raws) = merge_from (with_id ordered (strip raw)) raws

unfoldable pub merge_participant_ids : List String → List String → List String
unfolding merge_from
merge_participant_ids existing extra = merge_from [] (existing ++ extra)

abbrev pub starter_of : Row → String
starter_of r = strip (str_or (Dict.get r "user_id"))

unfoldable pub starter_first : String → List String → List String
starter_first starter merged =
    if not (starter == "") && contains merged starter then lead starter merged else merged

unfoldable pub same_ids : List String → List String → Bool
same_ids [] [] = true
same_ids (x ∷ xs) (y ∷ ys) = x == y && same_ids xs ys
same_ids _ _ = false

-- What one job of the thread becomes, and whether it changed.
unfoldable pub joined_row : ℕ → List String → Row → Row × Bool
joined_row now incoming r =
    let old = ids_of (Dict.get r "participant_ids") in
    let merged = starter_first (starter_of r) (merge_participant_ids old incoming) in
    if same_ids merged old
    then (r, false)
    else (Dict.put (Dict.put r "participant_ids" (texts merged)) "updated_at" (time now), true)

unfoldable pub join_rows : ℕ → (ch ts : String) → List String → Dict Row → Dict Row × ℕ
join_rows now ch ts incoming [] = ([], 0)
join_rows now ch ts incoming ((k, r) ∷ rows) =
    let (rows', n) = join_rows now ch ts incoming rows in
    if in_thread ch ts r
    then (let (r', changed) = joined_row now incoming r in
        ((k, r') ∷ rows', (if changed then suc n else n)))
    else ((k, r) ∷ rows', n)

abbrev pub is_nil : List String → Bool
is_nil [] = true
is_nil (u ∷ us) = false

-- The statuses are written only if some row changed.
abbrev pub write_changed : ℕ → Dict Row → Disk → Disk
write_changed zero rows d = d
write_changed (suc n) rows d = write_statuses rows d

-- The number of jobs updated, and the disk. `user_ids` is the list of identifiers given.
unfoldable pub add_thread_participants :
    (channel_id thread_ts : String) → List String → ℕ → Disk → ℕ × Disk
add_thread_participants channel_id thread_ts user_ids now d =
    let ch = strip channel_id in
    let ts = strip thread_ts in
    let incoming = stripped user_ids in
    let joined = join_rows now ch ts incoming (read_statuses d) in
    if ch == "" || ts == "" || is_nil incoming
    then (0, d)
    else (joined.1, write_changed joined.1 joined.0 d)
