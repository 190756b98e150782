-- ===== src/Collections/Applicable.antt =====
-- The version that applies at a date.
use stock_harvesting_backend.Prelude.{
  ℕ, List, [], ◌∷◌, Option, none, some, true, false, leb, ltb, get_elem?, suc, zero, Option-cases,
  if◌then◌else◌, All, ◌≡◌, ◌≤◌, ◌<◌, ◌⊎◌, refl, ap, arith, Bool-cases, inl, inr,
}
use stock_harvesting_backend.Collections.Versions.{
  VersionRow, improves, select_from, select_applicable_version, query_version,
}

-- A version that was the best so far is no later than the answer.
abbrev AtMost : Option VersionRow → VersionRow → Type 0
AtMost none v = Unit
AtMost (some best) v = best.effective_from ≤ v.effective_from

-- A version is after the date, or no later than the answer.
abbrev Beaten : ℕ → VersionRow → VersionRow → Type 0
Beaten as_of_date v w = (as_of_date < w.effective_from) ⊎ (w.effective_from ≤ v.effective_from)

abbrev better : Option VersionRow → VersionRow → Option VersionRow
better best version = if improves best version then some version else best

AtMost-better :
    (best : Option VersionRow) (version v : VersionRow)
    → AtMost (better best version) v
    → AtMost best v × (version.effective_from ≤ v.effective_from)
AtMost-better none version v h = (tt, h)
AtMost-better (some best) version v h = ground arith

select_from-bound :
    (best : Option VersionRow) (versions : List VersionRow) (as_of_date : ℕ) (v : VersionRow)
    → select_from best versions as_of_date ≡ some v
    → AtMost best v × All (Beaten as_of_date v) versions
unfolding select_from
select_from-bound none [] as_of_date v h = (tt, tt)
select_from-bound (some best) [] as_of_date v h = (ground arith, tt)
select_from-bound best (version ∷ versions) as_of_date v h =
    elim (Bool-cases (ltb as_of_date version.effective_from)) [
      | inl late ↦
          let rest : select_from best versions as_of_date ≡ some v = ground arith in
          let (bound, all) = select_from-bound best versions as_of_date v rest in
          (bound, (inl (ground arith), all))
      | inr early ↦
          let rest : select_from (better best version) versions as_of_date ≡ some v =
            ground arith in
          let (bound, all) = select_from-bound (better best version) versions as_of_date v rest in
          let (old, new) = AtMost-better best version v bound in (old, (inr new, all))
    ]

-- The answer is a version of the list that is not after the date, or the best so far.
abbrev Among : ℕ → List VersionRow → VersionRow → Type 0
Among as_of_date versions v =
    (i : ℕ) × (get_elem? versions i ≡ some v) × (v.effective_from ≤ as_of_date)

Among-more :
    (as_of_date : ℕ) (version : VersionRow) (versions : List VersionRow) (v : VersionRow)
    → Among as_of_date versions v
    → Among as_of_date (version ∷ versions) v
Among-more as_of_date version versions v (i, e, le) = (suc i, e, le)

select_from-Among :
    (best : Option VersionRow) (versions : List VersionRow) (as_of_date : ℕ) (v : VersionRow)
    → select_from best versions as_of_date ≡ some v
    → (best ≡ some v) ⊎ Among as_of_date versions v
unfolding select_from
select_from-Among best [] as_of_date v h = inl h
select_from-Among best (version ∷ versions) as_of_date v h =
    elim (Bool-cases (ltb as_of_date version.effective_from)) [
      | inl late ↦
          let rest : select_from best versions as_of_date ≡ some v = ground arith in
          elim (select_from-Among best versions as_of_date v rest) [
            | inl same ↦ inl same
            | inr there ↦ inr (Among-more as_of_date version versions v there)
          ]
      | inr early ↦
          let rest : select_from (better best version) versions as_of_date ≡ some v =
            ground arith in
          elim (select_from-Among (better best version) versions as_of_date v rest) [
            | inl same ↦ elim (Bool-cases (improves best version)) [
              | inl new ↦
                  let here : version ≡ v = ground arith in
                  inr (zero, ap (λ x. some x) here, ground arith)
              | inr old ↦ inl (ground arith)
            ]
            | inr there ↦ inr (Among-more as_of_date version versions v there)
          ]
    ]

select_from-none :
    (best : Option VersionRow) (versions : List VersionRow) (as_of_date : ℕ)
    → select_from best versions as_of_date ≡ none
    → (best ≡ none) × All (λ w. as_of_date < w.effective_from) versions
unfolding select_from
select_from-none best [] as_of_date h = (h, tt)
select_from-none best (version ∷ versions) as_of_date h =
    elim (Bool-cases (ltb as_of_date version.effective_from)) [
      | inl late ↦
          let rest : select_from best versions as_of_date ≡ none = ground arith in
          let (nothing, all) = select_from-none best versions as_of_date rest in
          (nothing, (ground arith, all))
      | inr early ↦
          let rest : select_from (better best version) versions as_of_date ≡ none = ground arith in
          let (nothing, all) = select_from-none (better best version) versions as_of_date rest in
          ground arith
    ]

-- What it is for a version, or for none, to be the one that applies at a date.
abbrev pub IsApplicable : List VersionRow → ℕ → Option VersionRow → Type 0
IsApplicable versions as_of_date none = All (λ w. as_of_date < w.effective_from) versions
IsApplicable versions as_of_date (some v) =
    Among as_of_date versions v × All (Beaten as_of_date v) versions

-- The version that is selected is one of the list, not after the date, and no other that is not after the date is
-- later; none is selected exactly if all versions are after the date.
pub select_applicable_version-IsApplicable :
    (versions : List VersionRow) (as_of_date : ℕ)
    → IsApplicable versions as_of_date (select_applicable_version versions as_of_date)
unfolding select_applicable_version
select_applicable_version-IsApplicable versions as_of_date =
    elim (Option-cases (select_from none versions as_of_date)) [
      | inl nothing ↦ rw nothing (select_from-none none versions as_of_date nothing).1
      | inr (v, found) ↦
          let all = (select_from-bound none versions as_of_date v found).1 in
          elim (select_from-Among none versions as_of_date v found) [
            | inl impossible ↦ cc
            | inr there ↦ rw found (there, all)
          ]
    ]

-- The newest first, as the queries order them.
abbrev pub Descending : List VersionRow → Type 0
Descending [] = Unit
Descending (v ∷ versions) =
    All (λ w. w.effective_from ≤ v.effective_from) versions × Descending versions

pub select_from-keeps :
    (v : VersionRow) (versions : List VersionRow) (as_of_date : ℕ)
    → All (λ w. w.effective_from ≤ v.effective_from) versions
    → select_from (some v) versions as_of_date ≡ some v
unfolding select_from
select_from-keeps v [] as_of_date below = refl
select_from-keeps v (w ∷ versions) as_of_date (here, rest) =
    let ih = select_from-keeps v versions as_of_date rest in
    let kept : improves (some v) w ≡ false = ground arith in rw kept (ground arith)

-- Looking a date up by the query and selecting it from the whole list agree.
pub select_applicable_version-query :
    (newest_first : List VersionRow) (as_of_date : ℕ)
    → Descending newest_first
    → select_applicable_version newest_first as_of_date ≡ query_version newest_first as_of_date
unfolding select_applicable_version select_from query_version
select_applicable_version-query [] as_of_date h = refl
select_applicable_version-query (v ∷ versions) as_of_date (here, rest) =
    elim (Bool-cases (ltb as_of_date v.effective_from)) [
      | inl late ↦
          let after : leb v.effective_from as_of_date ≡ false = ground arith in
          let ih = select_applicable_version-query versions as_of_date rest in rw late (rw after ih)
      | inr early ↦
          let yes : leb v.effective_from as_of_date ≡ true = ground arith in
          rw early (rw yes (select_from-keeps v versions as_of_date here))
    ]
