-- ===== src/Calendar/Days.antt =====
-- The trading days of src/modules/market-data/trading-calendar.ts.
use text.Mathlib.Text.{starts_with}
use stock_harvesting_backend.Prelude.{
  ℕ, zero, suc, ◌+◌, ◌%◌, ◌≤◌, ◌≡◌, Bool, leb, ltb, ◌==◌, if◌then◌else◌, ◌&&◌, ◌||◌, String, Option,
  none, some, List, [], ◌∷◌, any,
}
use stock_harvesting_backend.Prelude.Int.{negsuc}
use stock_harvesting_backend.Calendar.Weeks.{
  get_utc_day, shift_date_string, get_week_ending_friday,
  resolve_completed_week_ending_from_trading_day,
}

abbrev pub india_exchange_prefixes : List String
india_exchange_prefixes = "NSE" ∷ "BSE" ∷ []

unfoldable pub is_india_exchange : String → Bool
is_india_exchange exchange = any (λ prefix. starts_with exchange prefix) india_exchange_prefixes

abbrev pub get_exchange_time_zone : String → String
get_exchange_time_zone exchange =
    if is_india_exchange exchange then "Asia/Kolkata" else "America/New_York"

pub record MarketClose : Type 0 where
  pub hour : ℕ
  pub minute : ℕ

abbrev pub get_exchange_market_close : String → MarketClose
get_exchange_market_close exchange =
    if is_india_exchange exchange
    then record { hour = 15; minute = 30 }
    else record { hour = 16; minute = 0 }

-- The parts of a local date and time; the weekday as its number, 0 for "Sun".
pub record LocalParts : Type 0 where
  pub date : ℕ
  pub weekday : ℕ
  pub hour : ℕ
  pub minute : ℕ

-- What `Intl.DateTimeFormat` answers for a time zone and an instant.
abbrev pub Formatter : Type 0
Formatter = String → ℕ → LocalParts

-- The weekday belongs to the date, and the date is not one of the first two weeks.
abbrev pub IsFormatter : Formatter → Type 0
IsFormatter fmt =
    (zone : String) (at : ℕ)
    → ((fmt zone at).weekday ≡ get_utc_day (fmt zone at).date) × (14 ≤ (fmt zone at).date)

unfoldable pub get_exchange_local_parts : Formatter → String → ℕ → LocalParts
get_exchange_local_parts fmt exchange at =
    let parts = fmt (get_exchange_time_zone exchange) at in
    record parts { hour = if parts.hour == 24 then 0 else parts.hour }

abbrev pub is_weekend : ℕ → Bool
is_weekend weekday = weekday == 0 || weekday == 6

unfoldable pub get_exchange_today_if_trading_day : Formatter → String → ℕ → Option ℕ
unfolding get_exchange_local_parts
get_exchange_today_if_trading_day fmt exchange at =
    let local = get_exchange_local_parts fmt exchange at in
    if is_weekend local.weekday then none else some local.date

unfoldable pub is_after_close : String → LocalParts → Bool
is_after_close exchange local =
    let market_close = get_exchange_market_close exchange in
    ltb market_close.hour local.hour
    || (local.hour == market_close.hour && leb market_close.minute local.minute)

-- The loop over the candidate's date and weekday; seven rounds are enough, as every week has a weekday.
unfoldable pub skip_weekend : ℕ → ℕ → ℕ → ℕ
unfolding shift_date_string
skip_weekend zero date weekday = date
skip_weekend (suc fuel) date weekday =
    let earlier = skip_weekend fuel (shift_date_string date (negsuc 0)) ((weekday + 6) % 7) in
    if is_weekend weekday then earlier else date

unfoldable pub latest_day : String → LocalParts → ℕ
unfolding shift_date_string
latest_day exchange local =
    if is_after_close exchange local
    then skip_weekend 7 local.date local.weekday
    else skip_weekend 7 (shift_date_string local.date (negsuc 0)) ((local.weekday + 6) % 7)

unfoldable pub get_latest_expected_trading_day : Formatter → String → ℕ → ℕ
unfolding latest_day
get_latest_expected_trading_day fmt exchange at =
    latest_day exchange (get_exchange_local_parts fmt exchange at)

-- The loop `while ([0, 6].includes(getUTCDay(candidate)))`, with the same bound.
unfoldable pub previous_trading_day : ℕ → ℕ → ℕ
unfolding shift_date_string
previous_trading_day zero candidate = candidate
previous_trading_day (suc fuel) candidate =
    let earlier = previous_trading_day fuel (shift_date_string candidate (negsuc 0)) in
    if is_weekend (get_utc_day candidate) then earlier else candidate

-- The rounds of the outer loop after the first date; `last` is the last date pushed.
unfoldable pub earlier_days : ℕ → ℕ → List ℕ
unfolding shift_date_string
earlier_days zero last = []
earlier_days (suc rounds) last =
    let candidate = previous_trading_day 7 (shift_date_string last (negsuc 0)) in
    candidate ∷ earlier_days rounds candidate

unfoldable pub get_recent_expected_trading_days : Formatter → String → ℕ → ℕ → List ℕ
unfolding earlier_days
get_recent_expected_trading_days fmt exchange at zero = []
get_recent_expected_trading_days fmt exchange at (suc rounds) =
    let first = get_latest_expected_trading_day fmt exchange at in first ∷ earlier_days rounds first

unfoldable pub is_completed_trading_week : Formatter → String → ℕ → ℕ → Bool
is_completed_trading_week fmt exchange at week_candle_time =
    let latest_completed_day = get_latest_expected_trading_day fmt exchange at in
    leb (get_week_ending_friday week_candle_time) latest_completed_day

unfoldable pub resolve_latest_completed_week_ending : Formatter → String → ℕ → ℕ
resolve_latest_completed_week_ending fmt exchange at =
    resolve_completed_week_ending_from_trading_day (get_latest_expected_trading_day fmt exchange at)
