-- ===== src/Calendar/Latest.antt =====
-- What the latest and the recent trading days are.
use stock_harvesting_backend.Prelude.{
  subst, leb→le, le→leb, Bool-cases, inl, inr, ℕ, zero, suc, ◌+◌, ◌*◌, ◌-◌, ◌%◌, ◌≤◌, ◌<◌, ◌≡◌,
  refl, true, false, ◌↔◌, arith, if◌then◌else◌, String, List, [], ◌∷◌, length,
}
use stock_harvesting_backend.Calendar.Weeks.{
  friday-le-resolve_iff, get_week_ending_friday-before, get_week_ending_friday-weekday, get_utc_day,
  get_week_ending_friday,
}
use stock_harvesting_backend.Calendar.Days.{
  Formatter, IsFormatter, get_exchange_time_zone, previous_trading_day, earlier_days, LocalParts,
  is_weekend, is_after_close, skip_weekend, latest_day, get_exchange_local_parts,
  get_latest_expected_trading_day, get_recent_expected_trading_days, is_completed_trading_week,
  resolve_latest_completed_week_ending,
}

-- A trading day: neither a Saturday nor a Sunday.
abbrev pub IsTradingDay : ℕ → Type 0
IsTradingDay d = is_weekend (get_utc_day d) ≡ false

-- `r` is the latest trading day up to `d`.
pub record IsLatest (d r : ℕ) : Type 0 where
  pub trading : IsTradingDay r
  pub until : r ≤ d
  pub last : (e : ℕ) → IsTradingDay e → e ≤ d → e ≤ r

skip_weekend-IsLatest : (d : ℕ) → 7 ≤ d → IsLatest d (skip_weekend 7 d (get_utc_day d))
unfolding skip_weekend
skip_weekend-IsLatest d h = record {
  trading = ground arith;
  until = ground arith;
  last = λ e t k. ground arith;
}

weekday-back :
    (p : LocalParts)
    → p.weekday ≡ get_utc_day p.date
    → 14 ≤ p.date
    → (p.weekday + 6) % 7 ≡ get_utc_day (p.date - 1)
weekday-back p w h = omega arith

latest_day-IsLatest :
    (exchange : String) (p : LocalParts)
    → p.weekday ≡ get_utc_day p.date
    → 14 ≤ p.date
    → IsLatest (if is_after_close exchange p then p.date else p.date - 1) (latest_day exchange p)
unfolding latest_day
latest_day-IsLatest exchange p w h = elim (Bool-cases (is_after_close exchange p)) [
  | inl closed ↦ rw (closed, w) (skip_weekend-IsLatest p.date (omega arith))
  | inr open_yet ↦
      rw (open_yet, weekday-back p w h) (skip_weekend-IsLatest (p.date - 1) (omega arith))
]

-- The latest expected trading day is the last weekday whose market close has passed at the given
-- instant: the local date counts only after the close, and no later weekday does.
pub get_latest_expected_trading_day-IsLatest :
    (fmt : Formatter)
    → IsFormatter fmt
    → (exchange : String) (at : ℕ)
    → let p = get_exchange_local_parts fmt exchange at in
      IsLatest
        (if is_after_close exchange p then p.date else p.date - 1)
        (get_latest_expected_trading_day fmt exchange at)
unfolding get_latest_expected_trading_day get_exchange_local_parts
get_latest_expected_trading_day-IsLatest fmt ok exchange at =
    let (w, h) = ok (get_exchange_time_zone exchange) at in
    latest_day-IsLatest exchange (get_exchange_local_parts fmt exchange at) w h

previous_trading_day-IsLatest : (d : ℕ) → 7 ≤ d → IsLatest d (previous_trading_day 7 d)
unfolding previous_trading_day
previous_trading_day-IsLatest d h = record {
  trading = ground arith;
  until = ground arith;
  last = λ e t k. ground arith;
}

-- From `last` back, each entry is the trading day just before the one above it.
abbrev pub AreConsecutive : ℕ → List ℕ → Type 0
AreConsecutive last [] = Unit
AreConsecutive last (d ∷ ds) = IsLatest (last - 1) d × AreConsecutive d ds

previous_trading_day-close : (d : ℕ) → 7 ≤ d → d ≤ previous_trading_day 7 d + 2
unfolding previous_trading_day
previous_trading_day-close d h = ground arith

earlier_days-AreConsecutive :
    (n last : ℕ) → 14 + 3 * n ≤ last → AreConsecutive last (earlier_days n last)
unfolding earlier_days
earlier_days-AreConsecutive zero last h = tt
earlier_days-AreConsecutive (suc n) last h = (
  previous_trading_day-IsLatest (last - 1) (omega arith),
  earlier_days-AreConsecutive n (previous_trading_day 7 (last - 1))
      (omega (arith, previous_trading_day-close (last - 1) (omega arith))),
)

length-earlier_days : (n last : ℕ) → length (earlier_days n last) ≡ n
unfolding earlier_days
length-earlier_days zero last = refl
length-earlier_days (suc n) last = omega (arith, length-earlier_days n _)

-- The last date whose market close has passed, by the parts of the instant.
abbrev pub last_closed_date : String → LocalParts → ℕ
last_closed_date exchange p = if is_after_close exchange p then p.date else p.date - 1

sub-add_one : (d : ℕ) → d ≡ d + 1 - 1
sub-add_one d = omega arith

skip_weekend-near : (d : ℕ) → d ≤ skip_weekend 7 d (get_utc_day d) + 2
unfolding skip_weekend
skip_weekend-near d = ground arith

latest_day-near :
    (exchange : String) (p : LocalParts)
    → p.weekday ≡ get_utc_day p.date
    → 14 ≤ p.date
    → p.date ≤ latest_day exchange p + 3
unfolding latest_day
latest_day-near exchange p w h = elim (Bool-cases (is_after_close exchange p)) [
  | inl closed ↦ rw (closed, w) (omega (arith, skip_weekend-near p.date))
  | inr open_yet ↦ rw (open_yet, weekday-back p w h) (omega (arith, skip_weekend-near (p.date - 1)))
]

date-ge :
    (fmt : Formatter)
    → IsFormatter fmt
    → (exchange : String) (at : ℕ) → 14 ≤ (get_exchange_local_parts fmt exchange at).date
unfolding get_exchange_local_parts
date-ge fmt ok exchange at = (ok (get_exchange_time_zone exchange) at).1

-- The latest trading day is at most three days before the local date.
latest-near :
    (fmt : Formatter)
    → IsFormatter fmt
    → (exchange : String) (at : ℕ)
    → (get_exchange_local_parts fmt exchange at).date
      ≤ get_latest_expected_trading_day fmt exchange at + 3
unfolding get_latest_expected_trading_day get_exchange_local_parts
latest-near fmt ok exchange at =
    latest_day-near exchange (get_exchange_local_parts fmt exchange at)
      (ok (get_exchange_time_zone exchange) at).0 (ok (get_exchange_time_zone exchange) at).1

-- The recent trading days are `count` many; the first is the last weekday whose market has closed,
-- and each later one is the weekday just before its predecessor, with none left out. The date is at
-- least 20 + 3 * count days after 0000-01-01.
pub get_recent_expected_trading_days_lem :
    (fmt : Formatter)
    → IsFormatter fmt
    → (exchange : String) (at count : ℕ)
    → 20 + 3 * count ≤ (get_exchange_local_parts fmt exchange at).date
    → let p = get_exchange_local_parts fmt exchange at in
      let days = get_recent_expected_trading_days fmt exchange at count in
      (length days ≡ count) × AreConsecutive (last_closed_date exchange p + 1) days
unfolding get_recent_expected_trading_days
get_recent_expected_trading_days_lem fmt ok exchange at zero h = (refl, tt)
get_recent_expected_trading_days_lem fmt ok exchange at (suc n) h =
    let first = get_latest_expected_trading_day fmt exchange at in
    let latest = get_latest_expected_trading_day-IsLatest fmt ok exchange at in
    let p = get_exchange_local_parts fmt exchange at in
    let near = latest-near fmt ok exchange at in
    (
      omega (arith, length-earlier_days n first),
      (
        subst (λ d. IsLatest d first) (sub-add_one (last_closed_date exchange p)) latest,
        earlier_days-AreConsecutive n first (omega (arith, near)),
      ),
    )

-- A week counts as completed exactly if its label is no later than the latest completed label: the
-- two rules for completed weeks agree.
pub is_completed_trading_week_iff :
    (fmt : Formatter)
    → IsFormatter fmt
    → (exchange : String) (at week_candle_time : ℕ) → 7 ≤ week_candle_time
    → (is_completed_trading_week fmt exchange at week_candle_time ≡ true) ↔ (
        get_week_ending_friday week_candle_time
        ≤ resolve_latest_completed_week_ending fmt exchange at)
unfolding is_completed_trading_week resolve_latest_completed_week_ending
is_completed_trading_week_iff fmt ok exchange at week h =
    let day = get_latest_expected_trading_day fmt exchange at in
    let reached =
      friday-le-resolve_iff week day h
        (omega (arith, latest-near fmt ok exchange at, date-ge fmt ok exchange at)) in
    (λ e. reached.0 (leb→le _ _ e), λ le. le→leb _ _ (reached.1 le))

-- The week before a later week that has begun is completed.
pub completed_before :
    (fmt : Formatter)
    → IsFormatter fmt
    → (exchange : String) (at week later : ℕ) → 7 ≤ week
    → get_week_ending_friday week < get_week_ending_friday later
    → later ≤ (get_exchange_local_parts fmt exchange at).date
    → is_completed_trading_week fmt exchange at week ≡ true
unfolding is_completed_trading_week
completed_before fmt ok exchange at week later h lt le =
    let latest = get_latest_expected_trading_day-IsLatest fmt ok exchange at in
    let p = get_exchange_local_parts fmt exchange at in
    let closed : get_week_ending_friday week ≤ last_closed_date exchange p =
      ground (arith, get_week_ending_friday-before week later h lt) in
    le→leb _ _ (
      latest.last (get_week_ending_friday week)
        (let friday = get_week_ending_friday-weekday week h in rw friday refl) closed)
