-- ===== src/Alerts/Evaluation.antt =====
-- What an evaluation leaves of the alerts and whom it tells.
use stock_harvesting_backend.Prelude.{
  ℕ, String, List, [], ◌∷◌, Bool, true, false, ◌&&◌, ◌||◌, str_eq, filter, any, All, ◌≡◌, refl, sym,
  ap, ◌∙◌, subst, arith, Bool-cases, inl, inr,
}
use text.Mathlib.TextPositions.{eq_refl}
use stock_harvesting_backend.Database.Tables.{update_where}
use stock_harvesting_backend.Alerts.Service.{
  PriceAlert, is_open, is_for_quote, trigger, is_price_alert_triggered, evaluate_rows,
  evaluate_price_alerts_for_quote,
}

-- An alert that a price triggers.
abbrev pub is_triggered : ℕ → PriceAlert → Bool
is_triggered price a = is_price_alert_triggered a.status a.condition a.target_price price

-- The alerts that a quote would trigger.
abbrev pub is_due : String → String → ℕ → PriceAlert → Bool
is_due exchange symbol price a = is_for_quote exchange symbol a && is_triggered price a

-- The row that was read and that the price triggers.
abbrev names : ℕ → String → PriceAlert → Bool
names price id row = is_triggered price row && str_eq id row.id

-- Every due alert of the table is among the rows that are still to come.
abbrev Covered : String → String → ℕ → List PriceAlert → List PriceAlert → Type 0
Covered exchange symbol price rows alerts =
    All (λ a. is_due exchange symbol price a ≡ true → any (names price a.id) rows ≡ true) alerts

-- Rows of which none is triggered change nothing.
evaluate_rows-quiet :
    (now price : ℕ) (rows alerts : List PriceAlert)
    → any (is_triggered price) rows ≡ false
    → evaluate_rows now price rows alerts ≡ ([], alerts)
unfolding evaluate_rows
evaluate_rows-quiet now price [] alerts quiet = refl
evaluate_rows-quiet now price (row ∷ rows) alerts quiet =
    let no : is_triggered price row ≡ false = ground arith in
    let rest : any (is_triggered price) rows ≡ false = ground arith in
    let ih = evaluate_rows-quiet now price rows alerts rest in rw no ih

-- The row that was handled is no longer due, and those with another identifier are still covered.
Covered-update :
    (exchange symbol : String) (now price : ℕ) (row : PriceAlert) (rows alerts : List PriceAlert)
    → Covered exchange symbol price (row ∷ rows) alerts
    → Covered exchange symbol price rows (update_where (is_open row.id) (trigger now) alerts)
Covered-update exchange symbol now price row rows [] covered = tt
Covered-update exchange symbol now price row rows (a ∷ alerts) (here, rest) =
    let ih = Covered-update exchange symbol now price row rows alerts rest in
    elim (Bool-cases (is_open row.id a)) [
      | inl on ↦ rw on ((λ due. ground arith), ih)
      | inr off ↦ rw off ((λ due. let any_row = here due in ground arith), ih)
    ]

-- A row that changes nothing covers no due alert.
Covered-skip :
    (exchange symbol : String) (price : ℕ) (row : PriceAlert) (rows alerts : List PriceAlert)
    → is_triggered price row && any (is_open row.id) alerts ≡ false
    → Covered exchange symbol price (row ∷ rows) alerts
    → Covered exchange symbol price rows alerts
Covered-skip exchange symbol price row rows [] idle covered = tt
Covered-skip exchange symbol price row rows (a ∷ alerts) idle (here, rest) =
    let still : is_triggered price row && any (is_open row.id) alerts ≡ false = ground arith in
    (
      (λ due. let any_row = here due in ground arith),
      Covered-skip exchange symbol price row rows alerts still rest,
    )

Covered-more :
    (exchange symbol : String) (price : ℕ) (row : PriceAlert) (rows alerts : List PriceAlert)
    → Covered exchange symbol price rows alerts
    → Covered exchange symbol price (row ∷ rows) alerts
Covered-more exchange symbol price row rows [] covered = tt
Covered-more exchange symbol price row rows (a ∷ alerts) (here, rest) = (
  (λ due. let any_row = here due in ground arith),
  Covered-more exchange symbol price row rows alerts rest,
)

-- The rows that a quote reads cover the due alerts.
Covered-read :
    (exchange symbol : String) (price : ℕ) (alerts : List PriceAlert)
    → Covered exchange symbol price (filter (is_for_quote exchange symbol) alerts) alerts
Covered-read exchange symbol price [] = tt
Covered-read exchange symbol price (a ∷ alerts) =
    let ih = Covered-read exchange symbol price alerts in
    let own = eq_refl a.id in
    let read = filter (is_for_quote exchange symbol) alerts in
    elim (Bool-cases (is_for_quote exchange symbol a)) [
      | inl on ↦
          let kept : filter (is_for_quote exchange symbol) (a ∷ alerts) ≡ a ∷ read = rw on refl in
          let covered : Covered exchange symbol price (a ∷ read) (a ∷ alerts) =
            ((λ due. ground arith), Covered-more exchange symbol price a read alerts ih) in
          subst (λ rows. Covered exchange symbol price rows (a ∷ alerts)) (sym kept) covered
      | inr off ↦
          let left : filter (is_for_quote exchange symbol) (a ∷ alerts) ≡ read = rw off refl in
          let covered : Covered exchange symbol price read (a ∷ alerts) =
            ((λ due. ground arith), ih) in
          subst (λ rows. Covered exchange symbol price rows (a ∷ alerts)) (sym left) covered
    ]

Covered-none :
    (exchange symbol : String) (price : ℕ) (alerts : List PriceAlert)
    → Covered exchange symbol price [] alerts
    → any (is_due exchange symbol price) alerts ≡ false
Covered-none exchange symbol price [] covered = refl
Covered-none exchange symbol price (a ∷ alerts) (here, rest) =
    let ih = Covered-none exchange symbol price alerts rest in
    elim (Bool-cases (is_due exchange symbol price a)) [
      | inl due ↦ let no = here due in cc
      | inr off ↦ rw off ih
    ]

evaluate_rows-none_due :
    (exchange symbol : String) (now price : ℕ) (rows alerts : List PriceAlert)
    → Covered exchange symbol price rows alerts
    → any (is_due exchange symbol price) (evaluate_rows now price rows alerts).1 ≡ false
unfolding evaluate_rows
evaluate_rows-none_due exchange symbol now price [] alerts covered =
    Covered-none exchange symbol price alerts covered
evaluate_rows-none_due exchange symbol now price (row ∷ rows) alerts covered =
    elim (Bool-cases (is_triggered price row)) [
      | inr calm ↦
          let idle : is_triggered price row && any (is_open row.id) alerts ≡ false = rw calm refl in
          let ih =
            evaluate_rows-none_due exchange symbol now price rows alerts
              (Covered-skip exchange symbol price row rows alerts idle covered) in
          rw calm ih
      | inl hit ↦ elim (Bool-cases (any (is_open row.id) alerts)) [
        | inr gone ↦
            let idle : is_triggered price row && any (is_open row.id) alerts ≡ false =
              rw (hit, gone) refl in
            let ih =
              evaluate_rows-none_due exchange symbol now price rows alerts
                (Covered-skip exchange symbol price row rows alerts idle covered) in
            rw hit (rw gone ih)
        | inl there ↦
            let ih =
              evaluate_rows-none_due exchange symbol now price rows
                (update_where (is_open row.id) (trigger now) alerts)
                (Covered-update exchange symbol now price row rows alerts covered) in
            rw hit (rw there ih)
      ]
    ]

any-filter :
    (exchange symbol : String) (price : ℕ) (alerts : List PriceAlert)
    → any (is_triggered price) (filter (is_for_quote exchange symbol) alerts)
      ≡ any (is_due exchange symbol price) alerts
any-filter exchange symbol price [] = refl
any-filter exchange symbol price (a ∷ alerts) = elim (Bool-cases (is_for_quote exchange symbol a)) [
  | inl on ↦ rw on (ap (λ r. is_triggered price a || r) (any-filter exchange symbol price alerts))
  | inr off ↦ rw off (any-filter exchange symbol price alerts)
]

-- After a quote no active alert of its symbol is left whose condition the price meets.
pub evaluate_price_alerts_for_quote-none_due :
    (normalize_symbol : String → String) (now : ℕ) (exchange symbol : String) (price : ℕ)
    (alerts : List PriceAlert)
    → any
        (is_due exchange (normalize_symbol symbol) price)
        (evaluate_price_alerts_for_quote normalize_symbol now exchange symbol price alerts).1
      ≡ false
unfolding evaluate_price_alerts_for_quote
evaluate_price_alerts_for_quote-none_due normalize_symbol now exchange symbol price alerts =
    let key = normalize_symbol symbol in
    evaluate_rows-none_due exchange key now price (filter (is_for_quote exchange key) alerts) alerts
      (Covered-read exchange key price alerts)

-- A table with no due alert.
quiet-again :
    (normalize_symbol : String → String) (now : ℕ) (exchange symbol : String) (price : ℕ)
    (alerts : List PriceAlert)
    → any (is_due exchange (normalize_symbol symbol) price) alerts ≡ false
    → evaluate_price_alerts_for_quote normalize_symbol now exchange symbol price alerts
      ≡ ([], alerts)
unfolding evaluate_price_alerts_for_quote
quiet-again normalize_symbol now exchange symbol price alerts none_due =
    let key = normalize_symbol symbol in
    evaluate_rows-quiet now price (filter (is_for_quote exchange key) alerts) alerts
      (any-filter exchange key price alerts ∙ none_due)

-- A quote at the same price right after it tells nobody and changes nothing: an alert fires once.
pub evaluate_price_alerts_for_quote-once :
    (normalize_symbol : String → String) (now later : ℕ) (exchange symbol : String) (price : ℕ)
    (alerts : List PriceAlert)
    → let after =
        (evaluate_price_alerts_for_quote normalize_symbol now exchange symbol price alerts).1 in
      evaluate_price_alerts_for_quote normalize_symbol later exchange symbol price after
      ≡ ([], after)
evaluate_price_alerts_for_quote-once normalize_symbol now later exchange symbol price alerts =
    quiet-again normalize_symbol later exchange symbol price
      (evaluate_price_alerts_for_quote normalize_symbol now exchange symbol price alerts).1
      (evaluate_price_alerts_for_quote-none_due normalize_symbol now exchange symbol price alerts)
