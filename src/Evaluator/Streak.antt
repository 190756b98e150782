-- ===== src/Evaluator/Streak.antt =====
-- The walk back over a trailing streak, and the trimming of an unfinished week.
use stock_harvesting_backend.Prelude.{
  ℕ, zero, suc, ◌-◌, ◌≤◌, ◌<◌, ◌≡◌, refl, ◌⊎◌, ◌↔◌, inl, inr, List, [], ◌∷◌, Option, none, some,
  false≢true, sym, ◌∙◌, le_refl, Bool, true, false, length, get_last?, filter, arith, Bool-cases,
  ap, String, subst,
}
use stock_harvesting_backend.Calendar.{
  Formatter, IsFormatter, get_exchange_local_parts, is_completed_trading_week,
  get_week_ending_friday,
}
use stock_harvesting_backend.Calendar.Weeks.{get_week_ending_friday-before}
use stock_harvesting_backend.Calendar.Latest.{completed_before}
use stock_harvesting_backend.Evaluator.Series.{
  WeeklyStrongSeriesPoint, walk_back, passes_at, find_current_streak_entry_index, exclude_last,
  exclude_incomplete_trading_week,
}

-- `i` begins the unbroken run that ends at `n`.
pub record IsEntry (passed : ℕ → Bool) (n i : ℕ) : Type 0 where
  pub until : i ≤ n
  pub run : (j : ℕ) → i ≤ j → j ≤ n → passed j ≡ true
  pub first : (i ≡ 0) ⊎ (passed (i - 1) ≡ false)

pub walk_back-IsEntry :
    (passed : ℕ → Bool) (n : ℕ) → passed n ≡ true → IsEntry passed n (walk_back passed n)
unfolding walk_back
walk_back-IsEntry passed zero h = record {
  until = omega arith;
  run = λ j a b. let e : j ≡ 0 = omega arith in rw e h;
  first = inl refl;
}
walk_back-IsEntry passed (suc n) h = elim (Bool-cases (passed n)) [
  | inl on ↦
      let ih = walk_back-IsEntry passed n on in
      rw on (record {
        until = omega (arith, ih.until);
        run = λ j a b. run_suc passed n _ h ih j a b;
        first = ih.first;
      })
  | inr stop ↦ rw stop (record {
    until = omega arith;
    run = λ j a b. let e : j ≡ suc n = omega arith in rw e h;
    first = inr (let e : suc n - 1 ≡ n = omega arith in rw e stop);
  })
]
  where
    run_suc :
        (passed : ℕ → Bool) (n i : ℕ)
        → passed (suc n) ≡ true
        → IsEntry passed n i
        → (j : ℕ) → i ≤ j
        → j ≤ suc n
        → passed j ≡ true
    run_suc passed n i h ih j a b = ground (arith, ih.run j)

pub IsEntry-unique :
    (passed : ℕ → Bool) (n i j : ℕ) → IsEntry passed n i → IsEntry passed n j → i ≡ j
IsEntry-unique passed n i j p q =
    ground (arith, p.run (j - 1), q.run (i - 1), p.until, q.until, p.first, q.first)

passes_at-nonempty :
    (series : List WeeklyStrongSeriesPoint) (k : ℕ) → passes_at series k ≡ true → 0 < length series
passes_at-nonempty [] k h = cc
passes_at-nonempty (p ∷ ps) k h = omega arith

-- The entry is found exactly where the trailing unbroken run of passing points begins, and none is
-- found if the last point does not pass or there is no point.
pub find_current_streak_entry_index_iff :
    (series : List WeeklyStrongSeriesPoint) (i : ℕ)
    → (find_current_streak_entry_index series ≡ some i)
      ↔ ((0 < length series) × IsEntry (passes_at series) (length series - 1) i)
unfolding find_current_streak_entry_index
find_current_streak_entry_index_iff series i =
    let last = length series - 1 in
    let passed = passes_at series in
    elim (Bool-cases (passed last)) [
      | inl on ↦
          let found = walk_back-IsEntry passed last on in
          rw on (
            (λ e.
                let same : walk_back passed last ≡ i = cc in
                (passes_at-nonempty series last on, subst (IsEntry passed last) same found)),
            (λ h. ap some (IsEntry-unique passed last _ i found h.1)),
          )
      | inr off ↦
          rw off (
            (λ e. cc),
            (λ h. absurd (false≢true (sym off ∙ h.1.run last h.1.until (le_refl last)))),
          )
    ]

-- A list whose elements before the last all satisfy the test.
abbrev BeforeLast {ℓ κ} : {A : Type ℓ} → (A → Type κ) → List A → Type κ
BeforeLast P [] = Unit
BeforeLast P (x ∷ []) = Unit
BeforeLast P (x ∷ y ∷ ys) = P x × BeforeLast P (y ∷ ys)

exclude_last-cons {ℓ} :
    {A : Type ℓ} (completed : ℕ → Bool) (time : A → ℕ) (x y : A) (ys : List A) (last : Option A)
    → exclude_last completed time (x ∷ y ∷ ys) last ≡ x ∷ exclude_last completed time (y ∷ ys) last
exclude_last-cons completed time x y ys none = refl
exclude_last-cons completed time x y ys (some l) = elim (Bool-cases (completed (time l))) [
  | inl on ↦ rw on
  | inr off ↦ rw off
]

filter-exclude_last {ℓ} :
    {A : Type ℓ} (completed : ℕ → Bool) (time : A → ℕ) (rows : List A)
    → BeforeLast (λ r. completed (time r) ≡ true) rows
    → exclude_last completed time rows (get_last? rows) ≡ filter (λ r. completed (time r)) rows
filter-exclude_last completed time [] h = refl
filter-exclude_last completed time (x ∷ []) h = refl
filter-exclude_last completed time (x ∷ y ∷ ys) h = rw (h.0) (
    exclude_last-cons completed time x y ys (get_last? (y ∷ ys))
    ∙ ap (λ rest. x ∷ rest) (filter-exclude_last completed time (y ∷ ys) h.1))

-- Weekly rows in ascending weeks, none after the local date.
abbrev pub AreWeeks {ℓ} : {A : Type ℓ} → (A → ℕ) → ℕ → List A → Type 0
AreWeeks time date [] = Unit
AreWeeks time date (x ∷ []) = time x ≤ date
AreWeeks time date (x ∷ y ∷ ys) =
    (7 ≤ time x)
    × (get_week_ending_friday (time x) < get_week_ending_friday (time y))
    × AreWeeks time date (y ∷ ys)

last_date-le :
    {A : Type 0} (time : A → ℕ) (date : ℕ) (x : A) (xs : List A)
    → AreWeeks time date (x ∷ xs)
    → time x ≤ date
last_date-le time date x [] h = h
last_date-le time date x (y ∷ ys) h = omega (
  arith,
  get_week_ending_friday-before (time x) (time y) h.0 h.1,
  last_date-le time date y ys h.2,
)

weeks_completed :
    {A : Type 0} (time : A → ℕ) (fmt : Formatter)
    → IsFormatter fmt
    → (exchange : String) (at : ℕ) (rows : List A)
    → AreWeeks time (get_exchange_local_parts fmt exchange at).date rows
    → BeforeLast (λ r. is_completed_trading_week fmt exchange at (time r) ≡ true) rows
weeks_completed time fmt ok exchange at [] h = tt
weeks_completed time fmt ok exchange at (x ∷ []) h = tt
weeks_completed time fmt ok exchange at (x ∷ y ∷ ys) h = (
  completed_before fmt ok exchange at (time x) (time y) h.0 h.1 (last_date-le time _ y ys h.2),
  weeks_completed time fmt ok exchange at (y ∷ ys) h.2,
)

-- Of weekly rows in ascending weeks, none after the local date, exactly the completed weeks are kept.
pub exclude_incomplete_trading_week-filter :
    {A : Type 0} (time : A → ℕ) (fmt : Formatter)
    → IsFormatter fmt
    → (exchange : String) (at : ℕ) (rows : List A)
    → AreWeeks time (get_exchange_local_parts fmt exchange at).date rows
    → exclude_incomplete_trading_week time fmt at rows exchange
      ≡ filter (λ r. is_completed_trading_week fmt exchange at (time r)) rows
unfolding exclude_incomplete_trading_week
exclude_incomplete_trading_week-filter time fmt ok exchange at rows h =
    filter-exclude_last (is_completed_trading_week fmt exchange at) time rows
      (weeks_completed time fmt ok exchange at rows h)
