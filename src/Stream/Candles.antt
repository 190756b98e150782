-- ===== src/Stream/Candles.antt =====
-- src/modules/market-stream/market-stream-candles.ts. A parsed time is the day's number and its milliseconds; a
-- time that does not parse is none. The first day of a month is the calendar's, an argument. The map of the module
-- is a list of its entries, where a candle carries its own key.
use stock_harvesting_backend.Prelude.{
  ℕ, ◌+◌, ◌-◌, min, max, String, List, [], ◌∷◌, Option, none, some, Bool, true, false, ◌&&◌, str_eq,
  ◌==◌, find, if◌then◌else◌,
}
use stock_harvesting_backend.Calendar.Weeks.{get_utc_day}

pub data Timeframe : Type 0 where
  day week month : Timeframe

abbrev pub timeframe_eq : Timeframe → Timeframe → Bool
timeframe_eq day day = true
timeframe_eq week week = true
timeframe_eq month month = true
timeframe_eq _ _ = false

pub record Instant : Type 0 where
  pub date : ℕ
  pub stamp : ℕ

pub record CandleKey : Type 0 where
  pub exchange : String
  pub symbol : String
  pub timeframe : Timeframe
  pub time : ℕ

pub record CandleState : Type 0 where
  pub key : CandleKey
  pub open_price : ℕ
  pub high : ℕ
  pub low : ℕ
  pub close : ℕ
  pub volume : Option ℕ
  pub last_updated_at : ℕ

-- Equality of the texts that `stateKey` builds.
abbrev pub key_eq : CandleKey → CandleKey → Bool
key_eq a b =
    str_eq a.exchange b.exchange
    && (str_eq a.symbol b.symbol && (timeframe_eq a.timeframe b.timeframe && (a.time == b.time)))

abbrev pub Store : Type 0
Store = List CandleState

abbrev pub get_candle : CandleKey → Store → Option CandleState
get_candle key candles = find (λ c. key_eq key c.key) candles

-- `candles.set(key, next)`: an entry that is there is replaced in its place.
abbrev pub set_candle : CandleKey → CandleState → Store → Store
set_candle key next [] = next ∷ []
set_candle key next (c ∷ candles) =
    if key_eq key c.key then next ∷ candles else c ∷ set_candle key next candles

pub record Tick : Type 0 where
  pub exchange : String
  pub symbol : String
  pub price : ℕ
  pub volume : Option ℕ
  pub time : Option Instant

-- `weekKey`
unfoldable pub week_key : ℕ → ℕ
week_key date = if get_utc_day date == 0 then date - 6 else date + 1 - get_utc_day date

-- `a ?? b`
abbrev pub coalesce : Option ℕ → Option ℕ → Option ℕ
coalesce none b = b
coalesce (some a) b = some a

abbrev pub tick_key : Tick → Timeframe → ℕ → CandleKey
tick_key tick timeframe time = record {
  exchange = tick.exchange;
  symbol = tick.symbol;
  timeframe = timeframe;
  time = time;
}

-- The candle after a tick, from the one that is there.
abbrev pub next_candle : CandleKey → Tick → ℕ → Option CandleState → CandleState
next_candle key tick stamp none = record {
  key = key;
  open_price = tick.price;
  high = tick.price;
  low = tick.price;
  close = tick.price;
  volume = tick.volume;
  last_updated_at = stamp;
}
next_candle key tick stamp (some existing) = record existing {
  high = max existing.high tick.price;
  low = min existing.low tick.price;
  close = tick.price;
  volume = coalesce tick.volume existing.volume;
  last_updated_at = stamp;
}

module _ (month_start : ℕ → ℕ) where
  unfoldable pub candle_time : Timeframe → ℕ → ℕ
  unfolding week_key
  candle_time day date = date
  candle_time week date = week_key date
  candle_time month date = month_start date

  -- One turn of the map over the timeframes.
  unfoldable pub apply_timeframe : Timeframe → Tick → Instant → Store → CandleState × Store
  unfolding candle_time
  apply_timeframe timeframe tick at candles =
      let key = tick_key tick timeframe (candle_time timeframe at.date) in
      let next = next_candle key tick at.stamp (get_candle key candles) in
      (next, set_candle key next candles)

  unfoldable pub apply_at : Tick → Instant → Store → List CandleState × Store
  unfolding apply_timeframe
  apply_at tick at candles =
      let (by_day, s1) = apply_timeframe day tick at candles in
      let (by_week, s2) = apply_timeframe week tick at s1 in
      let (by_month, s3) = apply_timeframe month tick at s2 in
      (by_day ∷ by_week ∷ by_month ∷ [], s3)

  unfoldable pub apply_tick_to_candles : Tick → Store → List CandleState × Store
  unfolding apply_at
  apply_tick_to_candles tick candles = elim tick.time [
    | none ↦ ([], candles)
    | some at ↦ apply_at tick at candles
  ]

pub record DailyCandle : Type 0 where
  pub exchange : String
  pub symbol : String
  pub time : Option Instant
  pub open_price : ℕ
  pub high : ℕ
  pub low : ℕ
  pub close : ℕ
  pub volume : Option ℕ

abbrev pub daily_state : DailyCandle → Instant → CandleState
daily_state input at = record {
  key = record {
    exchange = input.exchange;
    symbol = input.symbol;
    timeframe = day;
    time = at.date;
  };
  open_price = input.open_price;
  high = input.high;
  low = input.low;
  close = input.close;
  volume = input.volume;
  last_updated_at = at.stamp;
}

unfoldable pub apply_provider_daily_candle : DailyCandle → Store → Option CandleState × Store
apply_provider_daily_candle input candles = elim input.time [
  | none ↦ (none, candles)
  | some at ↦ (
    some (daily_state input at),
    set_candle (daily_state input at).key (daily_state input at) candles,
  )
]

unfoldable pub read_current_day_candle : String → String → ℕ → Store → Option CandleState
read_current_day_candle exchange symbol date candles =
    get_candle (record { exchange = exchange; symbol = symbol; timeframe = day; time = date })
      candles

-- `exchange && candle.exchange !== exchange`
abbrev pub is_counted : Option String → CandleState → Bool
is_counted none c = timeframe_eq c.key.timeframe day
is_counted (some exchange) c = timeframe_eq c.key.timeframe day && str_eq c.key.exchange exchange

unfoldable pub count_current_day_candles_in_memory : Option String → Store → ℕ
count_current_day_candles_in_memory exchange [] = 0
count_current_day_candles_in_memory exchange (c ∷ candles) =
    let rest = count_current_day_candles_in_memory exchange candles in
    if is_counted exchange c then rest + 1 else rest
