-- ===== src/Collections/Statuses.antt =====
-- The statuses in the history of a collection's versions.
use stock_harvesting_backend.Prelude.{
  ℕ, suc, ◌+◌, List, [], ◌∷◌, Option, none, some, Bool, true, false, leb, ltb, filter, map, All,
  ◌≡◌, ◌≤◌, ◌<◌, refl, sym, ap, subst, ◌∙◌, arith, Bool-cases, inl, inr,
}
use stock_harvesting_backend.Collections.Versions.{
  VersionRow, VersionStatus, current, superseded, scheduled, find_current, shifted, status_at,
  statuses_from, list_collection_versions, select_from, select_applicable_version,
}
use stock_harvesting_backend.Collections.Applicable.{Descending, select_from-keeps}

abbrev pub is_current : VersionRow × VersionStatus → Bool
is_current (row, current) = true
is_current (row, superseded) = false
is_current (row, scheduled) = false

abbrev pub is_scheduled : VersionStatus → Bool
is_scheduled current = false
is_scheduled superseded = false
is_scheduled scheduled = true

abbrev pub to_list : Option VersionRow → List VersionRow
to_list none = []
to_list (some v) = v ∷ []

-- The rows that are listed as current.
abbrev pub current_rows : List (VersionRow × VersionStatus) → List VersionRow
current_rows listed = map (λ r. r.0) (filter is_current listed)

-- A row is scheduled exactly if it is after today.
abbrev pub SaysScheduled : ℕ → VersionRow × VersionStatus → Type 0
SaysScheduled today (row, status) = is_scheduled status ≡ ltb today row.effective_from

-- An index that the search found, counted from another one.
abbrev plus : ℕ → Option ℕ → Option ℕ
plus k none = none
plus k (some i) = some (k + i)

plus-shifted : (k : ℕ) (o : Option ℕ) → plus k (shifted o) ≡ plus (suc k) o
plus-shifted k none = refl
plus-shifted k (some i) = ap (λ x. some x) (ground arith)

-- Rows behind the current one are superseded.
behind :
    (today current_index index : ℕ) (rows : List VersionRow)
    → current_index < index
    → All (λ w. w.effective_from ≤ today) rows
    → All (SaysScheduled today) (statuses_from (some current_index) index rows)
      × (current_rows (statuses_from (some current_index) index rows) ≡ [])
unfolding statuses_from
behind today c k [] lt past = (tt, refl)
behind today c k (row ∷ rows) lt (here, rest) =
    let (says, nobody) = behind today c (suc k) rows (ground arith) rest in
    let later : status_at (some c) k ≡ superseded = ground arith in
    rw later ((ground arith, says), nobody)

past-rows :
    (today bound : ℕ) (rows : List VersionRow)
    → bound ≤ today
    → All (λ w. w.effective_from ≤ bound) rows
    → All (λ w. w.effective_from ≤ today) rows
past-rows today bound [] h all = tt
past-rows today bound (row ∷ rows) h (here, rest) =
    (ground arith, past-rows today bound rows h rest)

status-before : (k : ℕ) (o : Option ℕ) → status_at (plus (suc k) o) k ≡ scheduled
status-before k none = refl
status-before k (some i) = ground arith

-- The listing from an index on, where the current index is counted from there.
unfoldable Listed : ℕ → Option ℕ → ℕ → List VersionRow → Type 0
Listed today current_index k rows =
    All (SaysScheduled today) (statuses_from current_index k rows)
    × (current_rows (statuses_from current_index k rows) ≡ to_list (select_from none rows today))

Listed-now :
    (today k : ℕ) (row : VersionRow) (rows : List VersionRow)
    → leb row.effective_from today ≡ true
    → All (λ w. w.effective_from ≤ row.effective_from) rows
    → Listed today (some k) k (row ∷ rows)
unfolding Listed statuses_from select_from
Listed-now today k row rows now below =
    let past = past-rows today row.effective_from rows (ground arith) below in
    let (says, nobody) = behind today k (suc k) rows (ground arith) past in
    let here : status_at (some k) k ≡ current = ground arith in
    let early : ltb today row.effective_from ≡ false = ground arith in
    rw here (
      rw early (
        (refl, says),
        ap (λ r. row ∷ r) nobody ∙ sym (ap to_list (select_from-keeps row rows today below)),
      ))

Listed-later :
    (today k : ℕ) (current_index : Option ℕ) (row : VersionRow) (rows : List VersionRow)
    → leb row.effective_from today ≡ false
    → status_at current_index k ≡ scheduled
    → Listed today current_index (suc k) rows
    → Listed today current_index k (row ∷ rows)
unfolding Listed statuses_from select_from
Listed-later today k current_index row rows later before (says, same) =
    let late : ltb today row.effective_from ≡ true = ground arith in
    rw before (rw late ((refl, says), same))

listed :
    (today k : ℕ) (current_index : Option ℕ) (rows : List VersionRow)
    → Descending rows
    → current_index ≡ plus k (find_current today rows)
    → Listed today current_index k rows
unfolding find_current Listed statuses_from select_from
listed today k current_index [] h e = (tt, refl)
listed today k current_index (row ∷ rows) (below, rest) e =
    elim (Bool-cases (leb row.effective_from today)) [
      | inl now ↦
          let found : plus k (find_current today (row ∷ rows)) ≡ some k =
            rw now (ap (λ x. some x) (ground arith)) in
          subst (λ c. Listed today c k (row ∷ rows)) (sym (e ∙ found))
            (Listed-now today k row rows now below)
      | inr later ↦
          let found : plus k (find_current today (row ∷ rows))
              ≡ plus (suc k) (find_current today rows) =
            rw later (plus-shifted k (find_current today rows)) in
          let before =
            ap (λ c. status_at c k) (e ∙ found) ∙ status-before k (find_current today rows) in
          Listed-later today k current_index row rows later before
            (listed today (suc k) current_index rows rest (e ∙ found))
    ]

plus-zero : (o : Option ℕ) → o ≡ plus 0 o
plus-zero none = refl
plus-zero (some i) = ap (λ x. some x) (ground arith)

-- In the history, listed the newest first, a version is scheduled exactly if it is after today, and the versions
-- listed as current are the one that applies today, or none.
pub list_collection_versions_lem :
    (today : ℕ) (newest_first : List VersionRow)
    → Descending newest_first
    → All (SaysScheduled today) (list_collection_versions today newest_first)
      × (current_rows (list_collection_versions today newest_first)
          ≡ to_list (select_applicable_version newest_first today))
unfolding list_collection_versions select_applicable_version Listed
list_collection_versions_lem today newest_first h =
    listed today 0 (find_current today newest_first) newest_first h
      (plus-zero (find_current today newest_first))
