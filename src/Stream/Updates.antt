-- ===== src/Stream/Updates.antt =====
-- What the ticks make of the candles.
use stock_harvesting_backend.Prelude.{
  ℕ, List, [], ◌∷◌, some, true, false, if◌then◌else◌, All, ◌≡◌, ◌≤◌, refl, sym, ap, ◌∙◌, arith,
  Bool-cases, Option-cases, inl, inr,
}
use text.Mathlib.TextPositions.{eq_refl}
use stock_harvesting_backend.Calendar.Weeks.{get_iso_week_range}
use stock_harvesting_backend.Stream.Candles.{
  Timeframe, day, week, month, timeframe_eq, Instant, CandleKey, CandleState, key_eq, Store,
  get_candle, set_candle, Tick, week_key, tick_key, next_candle, candle_time, apply_timeframe,
  apply_at, apply_tick_to_candles, DailyCandle, daily_state, apply_provider_daily_candle,
  read_current_day_candle,
}

-- The week of a live candle starts on the day on which the ISO week of the trading calendar starts.
pub week_key-get_iso_week_range : (date : ℕ) → week_key date ≡ (get_iso_week_range date).start
unfolding week_key get_iso_week_range
week_key-get_iso_week_range date = ground arith

-- The low is the least of the four prices, and the high the greatest.
abbrev pub IsConsistent : CandleState → Type 0
IsConsistent c =
    (c.low ≤ c.open_price) × (c.low ≤ c.close) × (c.open_price ≤ c.high) × (c.close ≤ c.high)

next_candle-IsConsistent :
    (key : CandleKey) (tick : Tick) (stamp : ℕ) (candles : Store)
    → All IsConsistent candles
    → IsConsistent (next_candle key tick stamp (get_candle key candles))
next_candle-IsConsistent key tick stamp [] h =
    (ground arith, ground arith, ground arith, ground arith)
next_candle-IsConsistent key tick stamp (c ∷ candles) (here, rest) =
    let ih = next_candle-IsConsistent key tick stamp candles rest in
    elim (Bool-cases (key_eq key c.key)) [
      | inl on ↦ rw on (ground arith, ground arith, ground arith, ground arith)
      | inr off ↦ rw off ih
    ]

set_candle-All :
    (key : CandleKey) (next : CandleState) (candles : Store)
    → IsConsistent next
    → All IsConsistent candles
    → All IsConsistent (set_candle key next candles)
set_candle-All key next [] ok h = (ok, tt)
set_candle-All key next (c ∷ candles) ok (here, rest) =
    let ih = set_candle-All key next candles ok rest in
    elim (Bool-cases (key_eq key c.key)) [ inl on ↦ rw on (ok, rest) | inr off ↦ rw off (here, ih) ]

timeframe_eq_refl : (t : Timeframe) → timeframe_eq t t ≡ true
timeframe_eq_refl day = refl
timeframe_eq_refl week = refl
timeframe_eq_refl month = refl

key_eq_refl : (key : CandleKey) → key_eq key key ≡ true
key_eq_refl key =
    let e = eq_refl key.exchange in
    let s = eq_refl key.symbol in let t = timeframe_eq_refl key.timeframe in ground arith

-- What was set is what is read.
get-set :
    (key : CandleKey) (next : CandleState) (candles : Store)
    → key_eq key next.key ≡ true
    → get_candle key (set_candle key next candles) ≡ some next
get-set key next [] own = rw own refl
get-set key next (c ∷ candles) own = elim (Bool-cases (key_eq key c.key)) [
  | inl on ↦ rw on (rw own refl)
  | inr off ↦ rw off (rw off (get-set key next candles own))
]

-- The next candle has the key that it was computed for.
next_candle-key :
    (key : CandleKey) (tick : Tick) (stamp : ℕ) (candles : Store)
    → key_eq key (next_candle key tick stamp (get_candle key candles)).key ≡ true
next_candle-key key tick stamp [] = key_eq_refl key
next_candle-key key tick stamp (c ∷ candles) = elim (Bool-cases (key_eq key c.key)) [
  | inl on ↦ rw on on
  | inr off ↦ rw off (next_candle-key key tick stamp candles)
]

timeframe_eq_sound : (a b : Timeframe) → timeframe_eq a b ≡ true → a ≡ b
timeframe_eq_sound day day h = refl
timeframe_eq_sound day week h = cc
timeframe_eq_sound day month h = cc
timeframe_eq_sound week day h = cc
timeframe_eq_sound week week h = refl
timeframe_eq_sound week month h = cc
timeframe_eq_sound month day h = cc
timeframe_eq_sound month week h = cc
timeframe_eq_sound month month h = refl

key_eq-timeframe :
    (a b : CandleKey) → timeframe_eq a.timeframe b.timeframe ≡ false → key_eq a b ≡ false
key_eq-timeframe a b h = ground arith

key_eq-same_timeframe : (a b : CandleKey) → key_eq a b ≡ true → a.timeframe ≡ b.timeframe
key_eq-same_timeframe a b h =
    let same : timeframe_eq a.timeframe b.timeframe ≡ true = ground arith in
    timeframe_eq_sound a.timeframe b.timeframe same

elsewhere :
    (key other : CandleKey) (c : CandleState)
    → key_eq other c.key ≡ true
    → timeframe_eq key.timeframe other.timeframe ≡ false
    → key_eq key c.key ≡ false
elsewhere key other c own differs =
    key_eq-timeframe key c.key
      (sym (ap (timeframe_eq key.timeframe) (key_eq-same_timeframe other c.key own)) ∙ differs)

-- Setting a candle of another timeframe does not change what is read.
get-set_other :
    (key other : CandleKey) (next : CandleState) (candles : Store)
    → key_eq other next.key ≡ true
    → timeframe_eq key.timeframe other.timeframe ≡ false
    → get_candle key (set_candle other next candles) ≡ get_candle key candles
get-set_other key other next [] own differs = rw (elsewhere key other next own differs) refl
get-set_other key other next (c ∷ candles) own differs = elim (Bool-cases (key_eq other c.key)) [
  | inl on ↦
      rw on (rw (elsewhere key other next own differs) (rw (elsewhere key other c on differs) refl))
  | inr off ↦
      let ih = get-set_other key other next candles own differs in
      rw off (ap (λ r. if key_eq key c.key then some c else r) ih)
]

-- A feed: ticks, and the daily candles of the provider.
pub data FeedItem : Type 0 where
  tick_item : Tick → FeedItem
  daily_item : DailyCandle → FeedItem

-- A daily candle of the provider whose prices are in order.
abbrev pub InOrder : FeedItem → Type 0
InOrder (tick_item t) = Unit
InOrder (daily_item d) =
    (d.low ≤ d.open_price) × (d.low ≤ d.close) × (d.open_price ≤ d.high) × (d.close ≤ d.high)

module _ (month_start : ℕ → ℕ) where
  abbrev pub apply_item : FeedItem → Store → Store
  apply_item (tick_item t) candles = (apply_tick_to_candles month_start t candles).1
  apply_item (daily_item d) candles = (apply_provider_daily_candle d candles).1

  abbrev pub apply_feed : List FeedItem → Store → Store
  apply_feed [] candles = candles
  apply_feed (i ∷ items) candles = apply_feed items (apply_item i candles)

  apply_timeframe-All :
      (timeframe : Timeframe) (tick : Tick) (at : Instant) (candles : Store)
      → All IsConsistent candles
      → All IsConsistent (apply_timeframe month_start timeframe tick at candles).1
  unfolding apply_timeframe
  apply_timeframe-All timeframe tick at candles h =
      let key = tick_key tick timeframe (candle_time month_start timeframe at.date) in
      set_candle-All key (next_candle key tick at.stamp (get_candle key candles)) candles
        (next_candle-IsConsistent key tick at.stamp candles h) h

  apply_at-All :
      (tick : Tick) (at : Instant) (candles : Store)
      → All IsConsistent candles
      → All IsConsistent (apply_at month_start tick at candles).1
  unfolding apply_at
  apply_at-All tick at candles h =
      let s1 = (apply_timeframe month_start day tick at candles).1 in
      let s2 = (apply_timeframe month_start week tick at s1).1 in
      apply_timeframe-All month tick at s2
        (apply_timeframe-All week tick at s1 (apply_timeframe-All day tick at candles h))

  apply_item-All :
      (i : FeedItem) (candles : Store)
      → InOrder i
      → All IsConsistent candles
      → All IsConsistent (apply_item i candles)
  unfolding apply_tick_to_candles apply_provider_daily_candle
  apply_item-All (tick_item t) candles ordered h = elim (Option-cases t.time) [
    | inl bad ↦ rw bad h
    | inr (at, parsed) ↦ rw parsed (apply_at-All t at candles h)
  ]
  apply_item-All (daily_item d) candles ordered h = elim (Option-cases d.time) [
    | inl bad ↦ rw bad h
    | inr (at, parsed) ↦
        rw parsed (set_candle-All (daily_state d at).key (daily_state d at) candles ordered h)
  ]

  -- Whatever ticks and whatever ordered daily candles arrive, in every candle the low is at most the open and the
  -- close, and the high at least both.
  pub apply_feed-IsConsistent :
      (items : List FeedItem) (candles : Store)
      → All InOrder items
      → All IsConsistent candles
      → All IsConsistent (apply_feed items candles)
  apply_feed-IsConsistent [] candles ordered h = h
  apply_feed-IsConsistent (i ∷ items) candles (now, rest) h =
      apply_feed-IsConsistent items (apply_item i candles) rest (apply_item-All i candles now h)

  -- After a tick with a time, the candle of its day is the one before it with the price taken in, although the
  -- candles of its week and month change too.
  pub apply_tick_to_candles-read_current_day_candle :
      (tick : Tick) (at : Instant) (candles : Store)
      → tick.time ≡ some at
      → read_current_day_candle tick.exchange tick.symbol at.date
          (apply_tick_to_candles month_start tick candles).1
        ≡ some (
            next_candle
              (tick_key tick day at.date)
              tick
              at.stamp
              (read_current_day_candle tick.exchange tick.symbol at.date candles))
  unfolding apply_tick_to_candles apply_at apply_timeframe candle_time read_current_day_candle
  apply_tick_to_candles-read_current_day_candle tick at candles parsed =
      let key = tick_key tick day at.date in
      let by_day = next_candle key tick at.stamp (get_candle key candles) in
      let s1 = set_candle key by_day candles in
      let week_of = tick_key tick week (week_key at.date) in
      let by_week = next_candle week_of tick at.stamp (get_candle week_of s1) in
      let s2 = set_candle week_of by_week s1 in
      let month_of = tick_key tick month (month_start at.date) in
      let by_month = next_candle month_of tick at.stamp (get_candle month_of s2) in
      let kept : get_candle key (set_candle month_of by_month s2) ≡ some by_day =
        get-set_other key month_of by_month s2 (next_candle-key month_of tick at.stamp s2) refl
        ∙ (get-set_other key week_of by_week s1 (next_candle-key week_of tick at.stamp s1) refl
            ∙ get-set key by_day candles (next_candle-key key tick at.stamp candles)) in
      rw (parsed, apply_tick_to_candles) kept
