-- ===== src/Alerts/Service.antt =====
-- src/modules/price-alerts/price-alerts.service.ts. A price is a whole number of its smallest unit, which is how
-- the stored texts of the targets are compared; the clock and a new row's identifier are arguments. The push
-- notifications that a call sends are part of its answer.
use stock_harvesting_backend.Prelude.{
  ℕ, String, List, [], ◌∷◌, Option, none, some, Bool, true, false, ◌&&◌, not, leb, ltb, str_eq,
  find, filter, any, if◌then◌else◌,
}
use stock_harvesting_backend.Database.Tables.{update_where, delete_where, insert_row}
use stock_harvesting_backend.Database.Transactions.{Result, ok, err}

pub data PriceAlertCondition : Type 0 where
  above below : PriceAlertCondition

pub data PriceAlertStatus : Type 0 where
  active triggered disabled : PriceAlertStatus

pub record PriceAlert : Type 0 where
  pub id : String
  pub user_id : String
  pub exchange : String
  pub symbol : String
  pub condition : PriceAlertCondition
  pub target_price : ℕ
  pub status : PriceAlertStatus
  pub triggered_at : Option ℕ
  pub updated_at : ℕ

pub record InstrumentRow : Type 0 where
  pub exchange : String
  pub symbol : String
  pub latest_close : Option ℕ

pub data AlertError : Type 0 where
  above_needs_greater_target below_needs_lower_target alert_not_found alert_of_another_user :
      AlertError

abbrev pub is_active : PriceAlertStatus → Bool
is_active active = true
is_active triggered = false
is_active disabled = false

-- `isPriceAlertTriggered`
abbrev pub met : PriceAlertCondition → ℕ → ℕ → Bool
met above target_price price = leb target_price price
met below target_price price = leb price target_price

unfoldable pub is_price_alert_triggered : PriceAlertStatus → PriceAlertCondition → ℕ → ℕ → Bool
is_price_alert_triggered status condition target_price price =
    if not (is_active status) then false else met condition target_price price

unfoldable pub get_invalid_price_alert_target_message :
    PriceAlertCondition → ℕ → Option ℕ → Option AlertError
get_invalid_price_alert_target_message condition target_price none = none
get_invalid_price_alert_target_message above target_price (some current) =
    if leb target_price current then some above_needs_greater_target else none
get_invalid_price_alert_target_message below target_price (some current) =
    if leb current target_price then some below_needs_lower_target else none

abbrev pub default_exchange : String
default_exchange = "US"

-- `value > 0 ? value : null`
abbrev pub positive : Option ℕ → Option ℕ
positive none = none
positive (some value) = if ltb 0 value then some value else none

-- `first ?? second`
abbrev pub or_else : Option ℕ → Option ℕ → Option ℕ
or_else none second = second
or_else (some a) second = some a

module _ (normalize_symbol : String → String) where
  unfoldable pub get_known_current_price : List InstrumentRow → String → String → Option ℕ
  get_known_current_price instruments exchange symbol =
      elim (find (λ i. str_eq i.exchange exchange && str_eq i.symbol (normalize_symbol symbol))
        instruments) [ none ↦ none | some row ↦ positive row.latest_close ]

  unfoldable pub create_price_alert :
      ℕ
      → String
      → List InstrumentRow
      → String
      → String
      → String
      → PriceAlertCondition
      → ℕ
      → Option ℕ
      → List PriceAlert
      → Result AlertError PriceAlert × List PriceAlert
  unfolding get_known_current_price get_invalid_price_alert_target_message
  create_price_alert now id instruments user_id given_exchange symbol condition target_price
        current_price alerts =
      let exchange = if str_eq given_exchange "" then default_exchange else given_exchange in
      let current = or_else (get_known_current_price instruments exchange symbol) current_price in
      let row : PriceAlert = record {
        id = id;
        user_id = user_id;
        exchange = exchange;
        symbol = normalize_symbol symbol;
        condition = condition;
        target_price = target_price;
        status = active;
        triggered_at = none;
        updated_at = now;
      } in
      elim (get_invalid_price_alert_target_message condition target_price current) [
        | some e ↦ (err e, alerts)
        | none ↦ (ok row, insert_row row alerts)
      ]

abbrev pub alert_by_id : String → List PriceAlert → Option PriceAlert
alert_by_id id alerts = find (λ a. str_eq a.id id) alerts

-- A field that is undefined is not set.
abbrev pub or_keep {ℓ} : {A : Type ℓ} → Option A → A → A
or_keep none old = old
or_keep (some new) old = new

abbrev pub triggers : Option PriceAlertStatus → Bool
triggers (some triggered) = true
triggers (some active) = false
triggers (some disabled) = false
triggers none = false

abbrev pub changed : ℕ → Option PriceAlertStatus → Option ℕ → PriceAlert → PriceAlert
changed now status target_price a = record a {
  status = or_keep status a.status;
  target_price = or_keep target_price a.target_price;
  triggered_at = if triggers status then some now else a.triggered_at;
  updated_at = now;
}

unfoldable pub update_price_alert :
    ℕ
    → String
    → String
    → Option PriceAlertStatus
    → Option ℕ
    → List PriceAlert
    → Result AlertError (Unit {0}) × List PriceAlert
update_price_alert now user_id id status target_price alerts = elim (alert_by_id id alerts) [
  | none ↦ (err alert_not_found, alerts)
  | some existing ↦
      if not (str_eq existing.user_id user_id)
      then (err alert_of_another_user, alerts)
      else (ok tt, update_where (λ a. str_eq a.id id) (changed now status target_price) alerts)
]

unfoldable pub delete_price_alert :
    String → String → List PriceAlert → Result AlertError (Unit {0}) × List PriceAlert
delete_price_alert user_id id alerts = elim (alert_by_id id alerts) [
  | none ↦ (err alert_not_found, alerts)
  | some existing ↦
      if not (str_eq existing.user_id user_id)
      then (err alert_of_another_user, alerts)
      else (ok tt, delete_where (λ a. str_eq a.id id) alerts)
]

-- A push notification: the user, and the alert's row as it was read.
abbrev pub Notification : Type 0
Notification = PriceAlert

abbrev pub trigger : ℕ → PriceAlert → PriceAlert
trigger now a = record a { status = triggered; triggered_at = some now; updated_at = now }

-- The row that the update would change: `eq(id) and eq(status, "ACTIVE")`
abbrev pub is_open : String → PriceAlert → Bool
is_open id a = str_eq a.id id && is_active a.status

-- The loop over the rows that were read.
unfoldable pub evaluate_rows :
    ℕ → ℕ → List PriceAlert → List PriceAlert → List Notification × List PriceAlert
evaluate_rows now price [] alerts = ([], alerts)
evaluate_rows now price (alert ∷ rows) alerts =
    let skipped = evaluate_rows now price rows alerts in
    let (sent, after) =
      evaluate_rows now price rows (update_where (is_open alert.id) (trigger now) alerts) in
    if not (is_price_alert_triggered alert.status alert.condition alert.target_price price)
    then skipped
    else if any (is_open alert.id) alerts
    then (alert ∷ sent, after)
    else skipped

-- The rows that a quote reads.
abbrev pub is_for_quote : String → String → PriceAlert → Bool
is_for_quote exchange symbol a =
    str_eq a.exchange exchange && (str_eq a.symbol symbol && is_active a.status)

unfoldable pub evaluate_price_alerts_for_quote :
    (String → String)
    → ℕ
    → String
    → String
    → ℕ
    → List PriceAlert
    → List Notification × List PriceAlert
unfolding evaluate_rows
evaluate_price_alerts_for_quote normalize_symbol now exchange symbol price alerts =
    evaluate_rows now price (filter (is_for_quote exchange (normalize_symbol symbol)) alerts) alerts
