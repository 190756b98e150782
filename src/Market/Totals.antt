-- ===== src/Market/Totals.antt =====
-- What aggregation keeps of the candles.
use stock_harvesting_backend.Prelude.{
  ℕ, ◌+◌, ◌≤◌, String, List, [], ◌∷◌, ◌++◌, leb, max, min, str_eq, map, All, All-append, ◌≡◌, ◌∙◌,
  refl, ap, arith, Bool-cases, inl, inr,
}
use stock_harvesting_backend.Market.Candles.{Candle}
use stock_harvesting_backend.Market.Aggregation.{
  insert_by_time, sort_by_time, Group, add_to_group, group_candles, highest, lowest, total_volume,
  last_close, candle_of, aggregate, at_week_start, aggregate_weekly_candles,
}

-- Low at most, and high at least, open and close.
abbrev pub IsConsistentCandle : Candle → Type 0
IsConsistentCandle c =
    (c.low ≤ c.open_price) × (c.low ≤ c.close) × (c.open_price ≤ c.high) × (c.close ≤ c.high)

volume-insert_by_time :
    (c : Candle) (cs : List Candle)
    → total_volume (insert_by_time c cs) ≡ c.volume + total_volume cs
volume-insert_by_time c [] = refl
volume-insert_by_time c (d ∷ ds) = ground (arith, volume-insert_by_time c ds)

volume-sort_by_time : (cs : List Candle) → total_volume (sort_by_time cs) ≡ total_volume cs
volume-sort_by_time [] = refl
volume-sort_by_time (c ∷ cs) =
    omega (arith, volume-insert_by_time c (sort_by_time cs), volume-sort_by_time cs)

abbrev to_candle : Group → Candle
to_candle g = candle_of g.first g.others

volume-append : (cs ds : List Candle) → total_volume (cs ++ ds) ≡ total_volume cs + total_volume ds
volume-append [] ds = omega arith
volume-append (c ∷ cs) ds = omega (arith, volume-append cs ds)

volume-add_to_group :
    (key : String) (c : Candle) (groups : List Group)
    → total_volume (map to_candle (add_to_group key c groups))
      ≡ total_volume (map to_candle groups) + c.volume
volume-add_to_group key c [] = omega arith
volume-add_to_group key c (g ∷ groups) =
    let ih = volume-add_to_group key c groups in
    elim (Bool-cases (str_eq g.key key)) [
      | inl on ↦ rw on (omega (arith, volume-append g.others (c ∷ [])))
      | inr off ↦ rw off (omega (arith, ih))
    ]

volume-group_candles :
    (key_for_date : ℕ → String) (groups : List Group) (cs : List Candle)
    → total_volume (map to_candle (group_candles key_for_date groups cs))
      ≡ total_volume (map to_candle groups) + total_volume cs
volume-group_candles key_for_date groups [] = omega arith
volume-group_candles key_for_date groups (c ∷ cs) =
    let key = key_for_date c.time in
    omega (
      arith,
      volume-group_candles key_for_date (add_to_group key c groups) cs,
      volume-add_to_group key c groups,
    )

-- Bounds that hold of a price and of the candles hold of what follows it.
bounds-candle_of :
    (l h x : ℕ) (cs : List Candle)
    → All IsConsistentCandle cs
    → l ≤ x
    → x ≤ h
    → (lowest l cs ≤ l)
      × (h ≤ highest h cs)
      × (lowest l cs ≤ last_close x cs)
      × (last_close x cs ≤ highest h cs)
bounds-candle_of l h x [] every low high = ground arith
bounds-candle_of l h x (c ∷ cs) every low high =
    let (c_low, c_close, c_open, c_high) = every.0 in
    let ih =
      bounds-candle_of (min l c.low) (max h c.high) c.close cs every.1 (omega (arith, c_close))
        (omega (arith, c_high)) in
    (omega (arith, ih.0), omega (arith, ih.1), ih.2, ih.3)

candle_of-IsConsistentCandle :
    (first : Candle) (others : List Candle)
    → All IsConsistentCandle (first ∷ others)
    → IsConsistentCandle (candle_of first others)
candle_of-IsConsistentCandle first others every =
    let (low, close, open_high, high) = every.0 in
    let opened =
      bounds-candle_of first.low first.high first.open_price others every.1 low open_high in
    let closed = bounds-candle_of first.low first.high first.close others every.1 close high in
    (omega (arith, opened, low), closed.2, omega (arith, opened, open_high), closed.3)

abbrev HasConsistent : Group → Type 0
HasConsistent g = All IsConsistentCandle (g.first ∷ g.others)

add_to_group-HasConsistent :
    (key : String) (c : Candle) (groups : List Group)
    → IsConsistentCandle c
    → All HasConsistent groups
    → All HasConsistent (add_to_group key c groups)
add_to_group-HasConsistent key c [] good every = ((good, tt), tt)
add_to_group-HasConsistent key c (g ∷ groups) good every = elim (Bool-cases (str_eq g.key key)) [
  | inl on ↦
      let joined = All-append IsConsistentCandle g.others (c ∷ []) every.0.1 (good, tt) in
      rw on ((every.0.0, joined), every.1)
  | inr off ↦ rw off (every.0, add_to_group-HasConsistent key c groups good every.1)
]

group_candles-HasConsistent :
    (key_for_date : ℕ → String) (groups : List Group) (cs : List Candle)
    → All HasConsistent groups
    → All IsConsistentCandle cs
    → All HasConsistent (group_candles key_for_date groups cs)
group_candles-HasConsistent key_for_date groups [] every good = every
group_candles-HasConsistent key_for_date groups (c ∷ cs) every good =
    let key = key_for_date c.time in
    group_candles-HasConsistent key_for_date (add_to_group key c groups) cs
      (add_to_group-HasConsistent key c groups good.0 every) good.1

consistent-insert_by_time :
    (c : Candle) (cs : List Candle)
    → IsConsistentCandle c
    → All IsConsistentCandle cs
    → All IsConsistentCandle (insert_by_time c cs)
consistent-insert_by_time c [] good every = (good, tt)
consistent-insert_by_time c (d ∷ ds) good every = elim (Bool-cases (leb c.time d.time)) [
  | inl on ↦ rw on (good, every)
  | inr off ↦ rw off (every.0, consistent-insert_by_time c ds good every.1)
]

consistent-sort_by_time :
    (cs : List Candle) → All IsConsistentCandle cs → All IsConsistentCandle (sort_by_time cs)
consistent-sort_by_time [] every = tt
consistent-sort_by_time (c ∷ cs) every =
    consistent-insert_by_time c (sort_by_time cs) every.0 (consistent-sort_by_time cs every.1)

weekly-IsConsistentCandle :
    (groups : List Group)
    → All HasConsistent groups
    → All IsConsistentCandle (map at_week_start (map to_candle groups))
weekly-IsConsistentCandle [] every = tt
weekly-IsConsistentCandle (g ∷ groups) every = (
  candle_of-IsConsistentCandle g.first g.others every.0,
  weekly-IsConsistentCandle groups every.1,
)

volume-at_week_start : (cs : List Candle) → total_volume (map at_week_start cs) ≡ total_volume cs
volume-at_week_start [] = refl
volume-at_week_start (c ∷ cs) = ap (λ v. c.volume + v) (volume-at_week_start cs)

-- The weekly candles of daily ones whose lows and highs bound their opens and closes do the same, and no volume is
-- lost or counted twice, whatever the order of the daily candles.
pub aggregate_weekly_candles_lem :
    (get_week_key : ℕ → String) (candles : List Candle)
    → All IsConsistentCandle candles
    → let weekly = aggregate_weekly_candles get_week_key candles in
      (total_volume weekly ≡ total_volume candles) × All IsConsistentCandle weekly
unfolding aggregate_weekly_candles aggregate
aggregate_weekly_candles_lem get_week_key candles every =
    let sorted = sort_by_time candles in
    let groups = group_candles get_week_key [] sorted in
    (
      volume-at_week_start (map to_candle groups)
          ∙ volume-group_candles get_week_key [] sorted
          ∙ omega (arith, volume-sort_by_time candles),
      weekly-IsConsistentCandle groups (
          group_candles-HasConsistent get_week_key [] sorted tt
            (consistent-sort_by_time candles every)),
    )
