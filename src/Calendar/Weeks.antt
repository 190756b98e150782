-- ===== src/Calendar/Weeks.antt =====
-- The week arithmetic of src/modules/market-data/trading-calendar.ts.
use stock_harvesting_backend.Prelude.{
  ℕ, ◌+◌, ◌-◌, ◌%◌, ◌≤◌, ◌<◌, ◌≡◌, Bool, true, ◌↔◌, arith, leb, ◌==◌, if◌then◌else◌,
}
use stock_harvesting_backend.Prelude.Int.{ℤ, pos, negsuc, shift}

-- `getUTCDay`: Sunday is 0, and day 0 is a Saturday.
abbrev pub get_utc_day : ℕ → ℕ
get_utc_day d = (d + 6) % 7

unfoldable pub shift_date_string : ℕ → ℤ → ℕ
shift_date_string d days = shift d days

-- `date.getUTCDay() || 7`
abbrev pub iso_day : ℕ → ℕ
iso_day d = if get_utc_day d == 0 then 7 else get_utc_day d

pub record WeekRange : Type 0 where
  pub start : ℕ
  pub end : ℕ

unfoldable pub get_iso_week_range : ℕ → WeekRange
get_iso_week_range d =
    let monday = d - (iso_day d - 1) in record { start = monday; end = monday + 6 }

unfoldable pub get_week_ending_friday : ℕ → ℕ
unfolding get_iso_week_range shift_date_string
get_week_ending_friday d = shift_date_string (get_iso_week_range d).start (pos 4)

unfoldable pub resolve_completed_week_ending_from_trading_day : ℕ → ℕ
unfolding get_week_ending_friday
resolve_completed_week_ending_from_trading_day latest =
    let current_week_friday = get_week_ending_friday latest in
    if leb current_week_friday latest
    then current_week_friday
    else shift_date_string current_week_friday (negsuc 6)

unfoldable pub is_consecutive_iso_week : ℕ → ℕ → Bool
unfolding get_iso_week_range shift_date_string
is_consecutive_iso_week later earlier =
    let later_monday = (get_iso_week_range later).start in
    let earlier_monday = (get_iso_week_range earlier).start in
    earlier_monday == shift_date_string later_monday (negsuc 6)

-- The range of a date's ISO week starts on a Monday, ends on the Sunday six days later, contains the
-- date, and is the only such range: two dates have the same range exactly if one lies in the other's.
-- The date is in week 1 or later.
pub get_iso_week_range_lem :
    (d e : ℕ)
    → 7 ≤ d
    → 7 ≤ e
    → let w = get_iso_week_range d in
      (get_utc_day w.start ≡ 1)
      × (get_utc_day w.end ≡ 0)
      × (w.start ≤ d)
      × (d ≤ w.end)
      × (((w.start ≤ e) × (e ≤ w.end)) ↔ (get_iso_week_range e ≡ w))
unfolding get_iso_week_range
get_iso_week_range_lem d e h k = ground arith

-- The label of a date's week is the only Friday from the Monday to the Sunday of that week.
pub get_week_ending_friday_lem :
    (d f : ℕ)
    → 7 ≤ d
    → let w = get_iso_week_range d in
      ((w.start ≤ f) × (f ≤ w.end) × (get_utc_day f ≡ 5)) ↔ (f ≡ get_week_ending_friday d)
unfolding get_week_ending_friday
get_week_ending_friday_lem d f h = ground arith

-- The completed week of a trading day is the last Friday on or before that day.
pub resolve_completed_week_ending_latest :
    (d f : ℕ)
    → 14 ≤ d
    → get_utc_day f ≡ 5
    → f ≤ d
    → let r = resolve_completed_week_ending_from_trading_day d in
      (get_utc_day r ≡ 5) × (r ≤ d) × (f ≤ r)
unfolding resolve_completed_week_ending_from_trading_day
resolve_completed_week_ending_latest d f h k l = ground arith

-- Two dates are in consecutive weeks exactly if the labels of their weeks are seven days apart.
pub is_consecutive_iso_week_iff :
    (later earlier : ℕ)
    → 14 ≤ later
    → 7 ≤ earlier
    → (is_consecutive_iso_week later earlier ≡ true)
      ↔ (get_week_ending_friday later ≡ get_week_ending_friday earlier + 7)
unfolding is_consecutive_iso_week get_week_ending_friday
is_consecutive_iso_week_iff later earlier h k = ground arith

-- A Friday is reached exactly if the completed week of the day has reached it.
pub friday-le-resolve_iff :
    (week d : ℕ)
    → 7 ≤ week
    → 7 ≤ d
    → (get_week_ending_friday week ≤ d)
      ↔ (get_week_ending_friday week ≤ resolve_completed_week_ending_from_trading_day d)
unfolding resolve_completed_week_ending_from_trading_day
friday-le-resolve_iff week d h k = ground arith

pub get_week_ending_friday-weekday : (d : ℕ) → 7 ≤ d → get_utc_day (get_week_ending_friday d) ≡ 5
unfolding get_week_ending_friday
get_week_ending_friday-weekday d h = ground arith

-- The label of an earlier week lies before each day of a later one.
pub get_week_ending_friday-before :
    (d e : ℕ)
    → 7 ≤ d
    → get_week_ending_friday d < get_week_ending_friday e
    → (get_week_ending_friday d + 3 ≤ e) × (d < e)
unfolding get_week_ending_friday
get_week_ending_friday-before d e h lt = ground arith
