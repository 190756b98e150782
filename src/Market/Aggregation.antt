-- ===== src/Market/Aggregation.antt =====
-- src/modules/market-data/candle-aggregation.ts and market-data.intraday-aggregation.ts. The key of a week or a month
-- is an argument, as it is of the code's `aggregate`.
use stock_harvesting_backend.Prelude.{
  ℕ, ◌+◌, ◌-◌, ◌*◌, ◌/◌, ◌%◌, String, List, [], ◌∷◌, ◌++◌, Option, none, some, Bool, ◌&&◌, ◌==◌,
  leb, ltb, min, max, str_eq, map, if◌then◌else◌,
}
use stock_harvesting_backend.Calendar.Weeks.{get_iso_week_range}
use stock_harvesting_backend.Market.Candles.{Candle}

-- A stable sort by time.
abbrev pub insert_by_time : Candle → List Candle → List Candle
insert_by_time c [] = c ∷ []
insert_by_time c (d ∷ ds) = if leb c.time d.time then c ∷ d ∷ ds else d ∷ insert_by_time c ds

abbrev pub sort_by_time : List Candle → List Candle
sort_by_time [] = []
sort_by_time (c ∷ cs) = insert_by_time c (sort_by_time cs)

-- A group, its key and its candles: the first one and those that follow.
pub record Group : Type 0 where
  pub key : String
  pub first : Candle
  pub others : List Candle

-- `groups.set(key, [...(groups.get(key) ?? []), candle])`
abbrev pub add_to_group : String → Candle → List Group → List Group
add_to_group key candle [] = record { key = key; first = candle; others = [] } ∷ []
add_to_group key candle (g ∷ groups) =
    if str_eq g.key key
    then record g { others = g.others ++ candle ∷ [] } ∷ groups
    else g ∷ add_to_group key candle groups

abbrev pub group_candles : (ℕ → String) → List Group → List Candle → List Group
group_candles key_for_date groups [] = groups
group_candles key_for_date groups (c ∷ cs) =
    group_candles key_for_date (add_to_group (key_for_date c.time) c groups) cs

abbrev pub highest : ℕ → List Candle → ℕ
highest h [] = h
highest h (c ∷ cs) = highest (max h c.high) cs

abbrev pub lowest : ℕ → List Candle → ℕ
lowest l [] = l
lowest l (c ∷ cs) = lowest (min l c.low) cs

abbrev pub total_volume : List Candle → ℕ
total_volume [] = 0
total_volume (c ∷ cs) = c.volume + total_volume cs

abbrev pub last_close : ℕ → List Candle → ℕ
last_close x [] = x
last_close x (c ∷ cs) = last_close c.close cs

-- The candle of a group.
abbrev pub candle_of : Candle → List Candle → Candle
candle_of first others = record {
  time = first.time;
  open_price = first.open_price;
  high = highest first.high others;
  low = lowest first.low others;
  close = last_close first.close others;
  volume = first.volume + total_volume others;
}

unfoldable pub aggregate : (ℕ → String) → List Candle → List Candle
aggregate key_for_date candles =
    map (λ g. candle_of g.first g.others) (group_candles key_for_date [] (sort_by_time candles))

abbrev pub at_week_start : Candle → Candle
at_week_start c = record c { time = (get_iso_week_range c.time).start }

-- The key of a week is `getWeekKey`.
unfoldable pub aggregate_weekly_candles : (ℕ → String) → List Candle → List Candle
unfolding aggregate
aggregate_weekly_candles get_week_key candles = map at_week_start (aggregate get_week_key candles)

unfoldable pub aggregate_monthly_candles : (ℕ → String) → List Candle → List Candle
unfolding aggregate
aggregate_monthly_candles get_month_key candles = aggregate get_month_key candles

-- A bar of fifteen minutes; its time is an instant in milliseconds, none where the text is no time.
pub record Bar : Type 0 where
  pub timestamp : Option ℕ
  pub open_price : ℕ
  pub high : ℕ
  pub low : ℕ
  pub close : ℕ
  pub volume : ℕ
  pub is_finite : Bool

abbrev pub bse_session_start_utc_minutes : ℕ
bse_session_start_utc_minutes = 3 * 60 + 45

abbrev pub bse_session_bar_count : ℕ
bse_session_bar_count = 25

abbrev pub bse_bar_minutes : ℕ
bse_bar_minutes = 15

abbrev pub day_ms : ℕ
day_ms = 24 * 60 * 60 * 1000

abbrev pub minutes_of : ℕ → ℕ
minutes_of timestamp = timestamp % day_ms / (60 * 1000)

abbrev pub is_slot : ℕ → Bool
is_slot minutes =
    leb bse_session_start_utc_minutes minutes
    && (((minutes - bse_session_start_utc_minutes) % bse_bar_minutes == 0)
        && ltb ((minutes - bse_session_start_utc_minutes) / bse_bar_minutes) bse_session_bar_count)

-- The slot of a bar of the date, if it has one.
abbrev pub slot_at : ℕ → Bool → Option ℕ → Option ℕ
slot_at date finite none = none
slot_at date finite (some timestamp) =
    if (timestamp / day_ms == date) && (is_slot (minutes_of timestamp) && finite)
    then some ((minutes_of timestamp - bse_session_start_utc_minutes) / bse_bar_minutes)
    else none

abbrev pub slot_of : ℕ → Bar → Option ℕ
slot_of date bar = slot_at date bar.is_finite bar.timestamp

abbrev pub bar_candle : ℕ → Bar → Candle
bar_candle date bar = record {
  time = date;
  open_price = bar.open_price;
  high = bar.high;
  low = bar.low;
  close = bar.close;
  volume = bar.volume;
}

-- `bySlot.set(slot, bar)`
abbrev pub set_slot : ℕ → Candle → List (ℕ × Candle) → List (ℕ × Candle)
set_slot slot c [] = (slot, c) ∷ []
set_slot slot c ((s, d) ∷ by_slot) =
    if s == slot then (slot, c) ∷ by_slot else (s, d) ∷ set_slot slot c by_slot

abbrev pub put_bar : Option ℕ → Candle → List (ℕ × Candle) → List (ℕ × Candle)
put_bar none c by_slot = by_slot
put_bar (some slot) c by_slot = set_slot slot c by_slot

abbrev pub slots_from : ℕ → List (ℕ × Candle) → List Bar → List (ℕ × Candle)
slots_from date by_slot [] = by_slot
slots_from date by_slot (bar ∷ bars) =
    slots_from date (put_bar (slot_of date bar) (bar_candle date bar) by_slot) bars

abbrev pub insert_by_slot : ℕ × Candle → List (ℕ × Candle) → List (ℕ × Candle)
insert_by_slot (slot, c) [] = (slot, c) ∷ []
insert_by_slot (slot, c) ((s, d) ∷ entries) =
    if leb slot s then (slot, c) ∷ (s, d) ∷ entries else (s, d) ∷ insert_by_slot (slot, c) entries

abbrev pub sort_by_slot : List (ℕ × Candle) → List (ℕ × Candle)
sort_by_slot [] = []
sort_by_slot (e ∷ entries) = insert_by_slot e (sort_by_slot entries)

-- The candle of the bars in the order of their slots.
abbrev pub candle_of_bars : List (ℕ × Candle) → Option Candle
candle_of_bars [] = none
candle_of_bars ((slot, c) ∷ entries) = some (candle_of c (map (λ e. e.1) entries))

unfoldable pub aggregate_bse_intraday_candles : List Bar → ℕ → Bool → Option Candle
aggregate_bse_intraday_candles bars date require_complete =
    candle_of_bars (sort_by_slot (slots_from date [] bars))
