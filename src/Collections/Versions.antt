-- ===== src/Collections/Versions.antt =====
-- src/modules/market-collections/market-collection-versions.service.ts. The ISO dates, which the source compares
-- as texts, are their day numbers, which have the same order. The members of a version are read by a function.
use stock_harvesting_backend.Prelude.{
  ℕ, suc, String, List, [], ◌∷◌, Option, none, some, Bool, true, leb, ltb, ◌==◌, filter,
  if◌then◌else◌,
}

pub record VersionRow : Type 0 where
  pub id : String
  pub effective_from : ℕ

-- `!best || version.effectiveFrom > best.effectiveFrom`
abbrev pub improves : Option VersionRow → VersionRow → Bool
improves none version = true
improves (some best) version = ltb best.effective_from version.effective_from

unfoldable pub select_from : Option VersionRow → List VersionRow → ℕ → Option VersionRow
select_from best [] as_of_date = best
select_from best (version ∷ versions) as_of_date =
    if ltb as_of_date version.effective_from
    then select_from best versions as_of_date
    else select_from (if improves best version then some version else best) versions as_of_date

unfoldable pub select_applicable_version : List VersionRow → ℕ → Option VersionRow
unfolding select_from
select_applicable_version versions as_of_date = select_from none versions as_of_date

abbrev pub first? : List VersionRow → Option VersionRow
first? [] = none
first? (v ∷ versions) = some v

-- The query of `getCollectionMembershipAt` on the collection's rows, which `orderBy(desc(effectiveFrom))` delivers
-- the newest first.
unfoldable pub query_version : List VersionRow → ℕ → Option VersionRow
query_version newest_first as_of_date =
    first? (filter (λ v. leb v.effective_from as_of_date) newest_first)

pub data VersionStatus : Type 0 where
  current superseded scheduled : VersionStatus

-- `rows.findIndex((row) => row.effectiveFrom <= todayIso)`, none for -1
abbrev pub shifted : Option ℕ → Option ℕ
shifted none = none
shifted (some i) = some (suc i)

unfoldable pub find_current : ℕ → List VersionRow → Option ℕ
find_current today [] = none
find_current today (row ∷ rows) =
    if leb row.effective_from today then some 0 else shifted (find_current today rows)

abbrev pub status_at : Option ℕ → ℕ → VersionStatus
status_at none index = scheduled
status_at (some current_index) index =
    if ltb index current_index
    then scheduled
    else if index == current_index
    then current
    else superseded

-- The map over the rows with their indices.
unfoldable pub statuses_from : Option ℕ → ℕ → List VersionRow → List (VersionRow × VersionStatus)
statuses_from current_index index [] = []
statuses_from current_index index (row ∷ rows) =
    (row, status_at current_index index) ∷ statuses_from current_index (suc index) rows

unfoldable pub list_collection_versions : ℕ → List VersionRow → List (VersionRow × VersionStatus)
unfolding find_current statuses_from
list_collection_versions today newest_first =
    statuses_from (find_current today newest_first) 0 newest_first
