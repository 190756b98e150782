-- ===== src/Market/Weekdays.antt =====
-- The loop over the weekdays after a stored date: it ends, and finds each of them and no other day.
use stock_harvesting_backend.Prelude.{
  ℕ, zero, suc, ◌+◌, ◌-◌, ◌≤◌, ◌<◌, List, [], ◌∷◌, Bool, true, false, not, ◌==◌, ◌&&◌, leb, ltb,
  any, if◌then◌else◌, ◌≡◌, ◌∙◌, sym, subst, refl, arith, Bool-cases, inl, inr,
}
use stock_harvesting_backend.Calendar.Weeks.{get_utc_day}
use stock_harvesting_backend.Calendar.Days.{is_weekend}
use stock_harvesting_backend.Market.Plan.{weekdays_from, get_completed_weekdays_after}

-- Two amounts of fuel that reach the last date give the same days: the loop ends by its own test.
weekdays_from-enough :
    (fuel more date last : ℕ)
    → suc last ≤ date + fuel
    → suc last ≤ date + more
    → weekdays_from fuel date last ≡ weekdays_from more date last
unfolding weekdays_from
weekdays_from-enough zero zero date last enough other = refl
weekdays_from-enough zero (suc more) date last enough other =
    let past : leb date last ≡ false = ground arith in rw past refl
weekdays_from-enough (suc fuel) zero date last enough other =
    let past : leb date last ≡ false = ground arith in rw past refl
weekdays_from-enough (suc fuel) (suc more) date last enough other =
    let ih =
      weekdays_from-enough fuel more (suc date) last (omega (arith, enough))
        (omega (arith, other)) in
    rw ih refl

outside :
    (date last d : ℕ) (free : Bool) → last < date → false ≡ (leb date d && leb d last && not free)
outside date last d free past = ground arith

-- The first day of the loop is found where it is a weekday, and not later.
first_day :
    (rest : List ℕ) (date last d : ℕ)
    → date ≡ d
    → leb date last ≡ true
    → any (λ x. x == d) rest ≡ false
    → any
        (λ x. x == d)
        (if leb date last then if is_weekend (get_utc_day date) then rest else date ∷ rest else [])
      ≡ (leb date d && leb d last && not (is_weekend (get_utc_day d)))
first_day rest date last d equal within absent =
    subst
      (λ e.
        any (λ x. x == d)
          (if leb date last
            then if is_weekend (get_utc_day date) then rest else date ∷ rest
            else [])
        ≡ (leb date e && leb e last && not (is_weekend (get_utc_day e))))
      equal
      (let now : (date == d) ≡ true = ground arith in
        let here : leb date date ≡ true = ground arith in
        elim (Bool-cases (is_weekend (get_utc_day date))) [
          | inl free ↦ rw within (rw free (rw here absent))
          | inr work ↦ rw within (rw work (rw here (rw now refl)))
        ])

-- A date is among the days exactly if it is a weekday from the first to the last one.
weekdays_from-any :
    (fuel date last d : ℕ)
    → suc last ≤ date + fuel
    → any (λ x. x == d) (weekdays_from fuel date last)
      ≡ (leb date d && leb d last && not (is_weekend (get_utc_day d)))
unfolding weekdays_from
weekdays_from-any zero date last d enough = ground arith
weekdays_from-any (suc fuel) date last d enough =
    let ih = weekdays_from-any fuel (suc date) last d (omega (arith, enough)) in
    elim (Bool-cases (leb date last)) [
      | inr past ↦ rw past (outside date last d (is_weekend (get_utc_day d)) (ground arith))
      | inl within ↦ elim (Bool-cases (date == d)) [
        | inl same ↦
            let equal : date ≡ d = ground arith in
            first_day (weekdays_from fuel (suc date) last) date last d equal within
              (ih ∙ rw (sym equal) (ground arith))
        | inr other ↦
            let later : leb (suc date) d ≡ leb date d = ground arith in
            elim (Bool-cases (is_weekend (get_utc_day date))) [
              | inl free ↦ rw within (rw free (ih ∙ rw later refl))
              | inr work ↦ rw within (rw work (rw other (ih ∙ rw later refl)))
            ]
      ]
    ]

-- The weekdays that a repair asks for are those after the stored date up to the expected one, and the loop that finds
-- them ends: fuel for one turn for each day in between is enough, and more changes nothing.
pub get_completed_weekdays_after_lem :
    (from to d more : ℕ)
    → to - from ≤ more
    → (get_completed_weekdays_after from to ≡ weekdays_from more (suc from) to)
      × (any (λ x. x == d) (get_completed_weekdays_after from to)
          ≡ (ltb from d && leb d to && not (is_weekend (get_utc_day d))))
unfolding get_completed_weekdays_after
get_completed_weekdays_after_lem from to d more enough =
    let after : leb (suc from) d ≡ ltb from d = ground arith in
    (
      weekdays_from-enough (to - from) more (suc from) to (omega arith) (omega (arith, enough)),
      weekdays_from-any (to - from) (suc from) to d (omega arith) ∙ rw after refl,
    )
