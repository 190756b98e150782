-- ===== src/Scanner/Closes.antt =====
-- Which daily closes of an instrument the scanner reads, and in which order.
use stock_harvesting_backend.Prelude.{
  ℕ, String, List, [], ◌∷◌, Option, none, some, Bool, true, false, ◌&&◌, ◌==◌, leb, str_eq, suc,
  filter, map, length, All, ◌≡◌, ◌∙◌, ◌≤◌, refl, ap, arith, Bool-cases, inl, inr,
}
use stock_harvesting_backend.Market.Candles.{Candle, CandleRow, is_of, day}
use stock_harvesting_backend.Market.Aggregation.{insert_by_time, sort_by_time}
use stock_harvesting_backend.Scanner.Candles.{
  ScannerDailyClose, is_not_before, is_not_after, read_scanner_daily_closes,
}

-- A date is inside the bounds that are given.
abbrev pub is_within : Option ℕ → Option ℕ → ℕ → Bool
is_within none none t = true
is_within none (some to) t = leb t to
is_within (some from) none t = leb from t
is_within (some from) (some to) t = leb from t && leb t to

-- A stored candle of a day with a close, of an instrument and inside the bounds.
abbrev pub is_read : String → Option ℕ → Option ℕ → ℕ → ℕ → CandleRow → Bool
is_read id from to time close r =
    (r.candle.time == time && r.candle.close == close)
    && (is_within from to r.candle.time && (str_eq r.timeframe "1D" && str_eq r.instrument_id id))

abbrev pub AreAscending : List ScannerDailyClose → Type 0
AreAscending [] = Unit
AreAscending (a ∷ rows) = All (λ b. a.time ≤ b.time) rows × AreAscending rows

abbrev close_of : Candle → ScannerDailyClose
close_of c = record { time = c.time; close = c.close }

insert-All :
    (t : ℕ) (c : Candle) (cs : List Candle)
    → t ≤ c.time
    → All (λ b. t ≤ b.time) (map close_of cs)
    → All (λ b. t ≤ b.time) (map close_of (insert_by_time c cs))
insert-All t c [] first every = (first, tt)
insert-All t c (d ∷ ds) first (next, every) = elim (Bool-cases (leb c.time d.time)) [
  | inl before ↦ rw before (first, (next, every))
  | inr after ↦ rw after (next, insert-All t c ds first every)
]

later_rows :
    (t u : ℕ) (rows : List ScannerDailyClose)
    → t ≤ u
    → All (λ b. u ≤ b.time) rows
    → All (λ b. t ≤ b.time) rows
later_rows t u [] less every = tt
later_rows t u (b ∷ rows) less (first, every) =
    (omega (arith, less, first), later_rows t u rows less every)

insert-AreAscending :
    (c : Candle) (cs : List Candle)
    → AreAscending (map close_of cs)
    → AreAscending (map close_of (insert_by_time c cs))
insert-AreAscending c [] sorted = (tt, tt)
insert-AreAscending c (d ∷ ds) (first, sorted) = elim (Bool-cases (leb c.time d.time)) [
  | inl before ↦
      let less : c.time ≤ d.time = ground arith in
      rw before ((less, later_rows c.time d.time (map close_of ds) less first), (first, sorted))
  | inr after ↦
      let less : d.time ≤ c.time = ground arith in
      rw after (insert-All d.time c ds less first, insert-AreAscending c ds sorted)
]

sort-AreAscending : (cs : List Candle) → AreAscending (map close_of (sort_by_time cs))
sort-AreAscending [] = tt
sort-AreAscending (c ∷ cs) = insert-AreAscending c (sort_by_time cs) (sort-AreAscending cs)

-- Sorting neither loses nor adds a close.
insert-count :
    (p : ScannerDailyClose → Bool) (c : Candle) (cs : List Candle)
    → length (filter p (map close_of (insert_by_time c cs)))
      ≡ length (filter p (map close_of (c ∷ cs)))
insert-count p c [] = refl
insert-count p c (d ∷ ds) =
    let ih = insert-count p c ds in
    elim (Bool-cases (leb c.time d.time)) [
      | inl before ↦ rw before refl
      | inr after ↦ elim (Bool-cases (p (close_of d))) [
        | inl on ↦ elim (Bool-cases (p (close_of c))) [
          | inl too ↦ rw (after, on) (rw too (ap suc (ih ∙ rw too refl)))
          | inr off ↦ rw (after, on) (rw off (ap suc (ih ∙ rw off refl)))
        ]
        | inr off ↦ rw (after, off) ih
      ]
    ]

sort-count :
    (p : ScannerDailyClose → Bool) (cs : List Candle)
    → length (filter p (map close_of (sort_by_time cs))) ≡ length (filter p (map close_of cs))
sort-count p [] = refl
sort-count p (c ∷ cs) =
    let ih = sort-count p cs in
    insert-count p c (sort_by_time cs)
    ∙ elim (Bool-cases (p (close_of c))) [ inl on ↦ rw on (ap suc ih) | inr off ↦ rw off ih ]

abbrev is_close : ℕ → ℕ → ScannerDailyClose → Bool
is_close time close d = d.time == time && d.close == close

same_bounds :
    (from to : Option ℕ) (t : ℕ) → (is_not_before from t && is_not_after to t) ≡ is_within from to t
same_bounds none none t = refl
same_bounds none (some to) t = refl
same_bounds (some from) none t = ground arith
same_bounds (some from) (some to) t = refl

-- A count after a selection and a change, row by row.
count_selected :
    (p : ScannerDailyClose → Bool) (f : CandleRow → Candle) (q s : CandleRow → Bool)
    (rows : List CandleRow)
    → ((r : CandleRow) → (q r && p (close_of (f r))) ≡ s r)
    → length (filter p (map close_of (map f (filter q rows)))) ≡ length (filter s rows)
count_selected p f q s [] same = refl
count_selected p f q s (r ∷ rows) same =
    let ih = count_selected p f q s rows same in
    let its = same r in
    elim (Bool-cases (q r)) [
      | inr left ↦ let skipped : s r ≡ false = ground (arith, its, left) in rw (left, skipped) ih
      | inl taken ↦ elim (Bool-cases (p (close_of (f r)))) [
        | inl hit ↦
            let counted : s r ≡ true = ground (arith, its, taken, hit) in
            rw (taken, counted) (rw hit (ap suc ih))
        | inr miss ↦
            let skipped : s r ≡ false = ground (arith, its, taken, miss) in
            rw (taken, skipped) (rw miss ih)
      ]
    ]

-- The closes that the scanner reads are in ascending time, and each time and close is among them as often as the
-- instrument has a stored daily candle with them inside the bounds.
pub read_scanner_daily_closes_lem :
    (id : String) (from to : Option ℕ) (time close : ℕ) (rows : List CandleRow)
    → let read = read_scanner_daily_closes id from to rows in
      AreAscending read
      × (length (filter (λ d. d.time == time && d.close == close) read)
          ≡ length (filter (is_read id from to time close) rows))
unfolding read_scanner_daily_closes
read_scanner_daily_closes_lem id from to time close rows =
    let taken : CandleRow → Bool =
      λ r. is_of id day r && (is_not_before from r.candle.time && is_not_after to r.candle.time) in
    let found : List Candle = map (λ r. r.candle) (filter taken rows) in
    (
      sort-AreAscending found,
      sort-count (is_close time close) found
          ∙ count_selected (is_close time close) (λ r. r.candle) taken
              (is_read id from to time close) rows
              (λ r. rw (same_bounds from to r.candle.time) (ground arith)),
    )
