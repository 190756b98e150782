-- ===== src/Scanner/Segments.antt =====
-- The partition of a weekly series at its missing weeks.
use mathlib.Core.List.{append_assoc}
use stock_harvesting_backend.Prelude.{
  ℕ, ◌≡◌, refl, inl, inr, Bool, true, false, String, List, [], ◌∷◌, ◌++◌, some, get_last?,
  get_elem?, All, Bool-cases, ap, ◌∙◌,
}
use stock_harvesting_backend.Calendar.{
  Formatter, get_week_ending_friday, resolve_latest_completed_week_ending,
}
use stock_harvesting_backend.Scanner.Rule.{ScannerWeeklyCandle}
use stock_harvesting_backend.Scanner.Safety.{
  is_gap, partition_from, partition_on_fully_missing_weeks, last_segment, is_fresh,
  classify_scanner_weekly_series,
}

abbrev Row : Type 0
Row = ScannerWeeklyCandle

-- A week is missing between two rows.
abbrev pub gap_between : Row → Row → Bool
gap_between a b = is_gap (get_week_ending_friday a.time) (get_week_ending_friday b.time)

abbrev pub HasNoGap : List Row → Type 0
HasNoGap [] = Unit
HasNoGap (a ∷ []) = Unit
HasNoGap (a ∷ b ∷ rows) = (gap_between a b ≡ false) × HasNoGap (b ∷ rows)

abbrev pub concat : List (List Row) → List Row
concat [] = []
concat (segment ∷ segments) = segment ++ concat segments

-- Each segment ends and the next begins with rows that a missing week parts.
pub data AreParted : List (List Row) → Type 0 where
  none_left : AreParted []
  one : (segment : List Row) → AreParted (segment ∷ [])
  parted :
      {s t : List Row} {rest : List (List Row)} (a b : Row)
      → get_last? s ≡ some a
      → get_elem? t 0 ≡ some b
      → gap_between a b ≡ true
      → AreParted (t ∷ rest)
      → AreParted (s ∷ t ∷ rest)

concat-partition_from :
    (previous : Row) (current rows : List Row)
    → concat (partition_from previous current rows) ≡ current ++ rows
unfolding partition_from
concat-partition_from previous current [] = refl
concat-partition_from previous current (row ∷ rows) = elim (Bool-cases (gap_between previous row)) [
  | inl gap ↦ rw gap (ap (λ r. current ++ r) (concat-partition_from row (row ∷ []) rows))
  | inr joined ↦
      rw joined (
        concat-partition_from row (current ++ row ∷ []) rows ∙ append_assoc current (row ∷ []) rows)
]

HasNoGap-append :
    (current : List Row) (previous row : Row)
    → HasNoGap current
    → get_last? current ≡ some previous
    → gap_between previous row ≡ false
    → HasNoGap (current ++ row ∷ [])
HasNoGap-append [] previous row h last joined = tt
HasNoGap-append (a ∷ []) previous row h last joined =
    let same : a ≡ previous = cc in (rw same joined, tt)
HasNoGap-append (a ∷ b ∷ rows) previous row h last joined =
    (h.0, HasNoGap-append (b ∷ rows) previous row h.1 last joined)

get_last?-concat : (current : List Row) (row : Row) → get_last? (current ++ row ∷ []) ≡ some row
get_last?-concat [] row = refl
get_last?-concat (a ∷ []) row = refl
get_last?-concat (a ∷ b ∷ rows) row = get_last?-concat (b ∷ rows) row

partition_from-HasNoGap :
    (previous : Row) (current rows : List Row)
    → HasNoGap current
    → get_last? current ≡ some previous
    → All HasNoGap (partition_from previous current rows)
unfolding partition_from
partition_from-HasNoGap previous current [] h last = (h, tt)
partition_from-HasNoGap previous current (row ∷ rows) h last =
    elim (Bool-cases (gap_between previous row)) [
      | inl gap ↦ rw gap (h, partition_from-HasNoGap row (row ∷ []) rows tt refl)
      | inr joined ↦ rw joined (
          partition_from-HasNoGap row (current ++ row ∷ []) rows
            (HasNoGap-append current previous row h last joined) (get_last?-concat current row))
    ]

-- The partition begins with a segment that begins as the current one does.
partition_from-head :
    (previous first : Row) (current rows : List Row)
    → (s : List Row) × (segments : List (List Row)) × (partition_from previous
          (first ∷ current)
          rows
        ≡ s ∷ segments)
      × (get_elem? s 0 ≡ some first)
unfolding partition_from
partition_from-head previous first current [] = (first ∷ current, [], refl, refl)
partition_from-head previous first current (row ∷ rows) =
    elim (Bool-cases (gap_between previous row)) [
      | inl gap ↦ (first ∷ current, partition_from row (row ∷ []) rows, rw gap refl, refl)
      | inr joined ↦ rw joined (partition_from-head row first (current ++ row ∷ []) rows)
    ]

partition_from-AreParted :
    (previous : Row) (current rows : List Row)
    → get_last? current ≡ some previous
    → AreParted (partition_from previous current rows)
unfolding partition_from
partition_from-AreParted previous current [] last = one current
partition_from-AreParted previous current (row ∷ rows) last =
    elim (Bool-cases (gap_between previous row)) [
      | inl gap ↦ rw gap (
          let (s, segments, e, head) = partition_from-head row row [] rows in
          let later = partition_from-AreParted row (row ∷ []) rows refl in
          rw e (parted previous row last head gap (rw e at later)))
      | inr joined ↦
          rw joined
            (partition_from-AreParted row (current ++ row ∷ []) rows (get_last?-concat current row))
    ]

get_last?-last_segment :
    (previous : Row) (current rows : List Row)
    → get_last? current ≡ some previous
    → get_last? (last_segment (get_last? (partition_from previous current rows)))
      ≡ get_last? (previous ∷ rows)
unfolding partition_from
get_last?-last_segment previous current [] last = last
get_last?-last_segment previous current (row ∷ rows) last =
    elim (Bool-cases (gap_between previous row)) [
      | inl gap ↦ rw gap (
          let (s, segments, e, head) = partition_from-head row row [] rows in
          let later = get_last?-last_segment row (row ∷ []) rows refl in rw e (rw e at later))
      | inr joined ↦
          rw joined
            (get_last?-last_segment row (current ++ row ∷ []) rows (get_last?-concat current row))
    ]

-- The segments of a series are its rows in order, none lost and none repeated; no week is missing inside
-- a segment, and one is missing between each segment and the next.
pub partition_on_fully_missing_weeks_lem :
    (rows : List Row)
    → let segments = partition_on_fully_missing_weeks rows in
      (concat segments ≡ rows) × All HasNoGap segments × AreParted segments
unfolding partition_on_fully_missing_weeks
partition_on_fully_missing_weeks_lem [] = (refl, tt, none_left)
partition_on_fully_missing_weeks_lem (row ∷ rows) = (
  concat-partition_from row (row ∷ []) rows,
  partition_from-HasNoGap row (row ∷ []) rows tt refl,
  partition_from-AreParted row (row ∷ []) rows refl,
)

-- The latest week is fresh exactly if the series' last row belongs to the latest completed week or a
-- later one; the latest segment ends with that row.
pub classify_scanner_weekly_series_lem :
    (fmt : Formatter) (at : ℕ) (rows : List Row) (exchange : String)
    → let c = classify_scanner_weekly_series fmt at rows exchange in
      (get_last? c.latest_segment ≡ get_last? rows)
      × (c.is_latest_week_fresh
          ≡ is_fresh (resolve_latest_completed_week_ending fmt exchange at) (get_last? rows))
unfolding classify_scanner_weekly_series
classify_scanner_weekly_series_lem fmt at [] exchange = (refl, refl)
classify_scanner_weekly_series_lem fmt at (row ∷ rows) exchange =
    let last = get_last?-last_segment row (row ∷ []) rows refl in (last, ap (is_fresh _) last)
