-- ===== src/Alerts/Ownership.antt =====
-- Who may change an alert, and which alerts are accepted.
use stock_harvesting_backend.Prelude.{
  ℕ, String, List, [], ◌∷◌, none, some, true, false, not, str_eq, ◌≡◌, refl, sym, ap, ◌∙◌, arith,
  Bool-cases, Option-cases, inl, inr, ◌⊎◌,
}
use stock_harvesting_backend.Database.Tables.{delete_where}
use stock_harvesting_backend.Database.Transactions.{Result, ok, err}
use stock_harvesting_backend.Alerts.Service.{
  PriceAlert, PriceAlertCondition, AlertError, alert_by_id, delete_price_alert,
  get_invalid_price_alert_target_message, is_price_alert_triggered, above, below, active,
  alert_not_found, alert_of_another_user,
}

-- A target that is accepted is one that the current price does not meet yet.
pub get_invalid_price_alert_target_message_lem :
    (condition : PriceAlertCondition) (target current : ℕ)
    → (elim (get_invalid_price_alert_target_message condition target (some current)) [
      | none ↦ true
      | some e ↦ false
    ])
      ≡ not (is_price_alert_triggered active condition target current)
unfolding get_invalid_price_alert_target_message is_price_alert_triggered
get_invalid_price_alert_target_message_lem above target current = ground arith
get_invalid_price_alert_target_message_lem below target current = ground arith

-- No row of the identifier is left.
find-delete :
    (id : String) (alerts : List PriceAlert)
    → alert_by_id id (delete_where (λ a. str_eq a.id id) alerts) ≡ none
find-delete id [] = refl
find-delete id (a ∷ alerts) = elim (Bool-cases (str_eq a.id id)) [
  | inl on ↦ rw on (find-delete id alerts)
  | inr off ↦ rw off (rw off (find-delete id alerts))
]

-- Only the owner of an alert deletes it, and then it is gone; any refusal leaves the alerts as they were.
pub delete_price_alert_lem :
    (user_id id : String) (alerts alerts' : List PriceAlert) (r : Result AlertError (Unit {0}))
    → delete_price_alert user_id id alerts ≡ (r, alerts')
    → ((r ≡ ok tt)
        × (alert_by_id id alerts' ≡ none)
        × ((existing : PriceAlert) × (alert_by_id id alerts ≡ some existing)
            × (str_eq existing.user_id user_id ≡ true)))
      ⊎ ((alerts' ≡ alerts) × ((e : AlertError) × (r ≡ err e)))
unfolding delete_price_alert
delete_price_alert_lem user_id id alerts alerts' r h =
    let gone = find-delete id alerts in
    elim (Option-cases (alert_by_id id alerts)) [
      | inl missing ↦ inr (ground arith, (alert_not_found, ground arith))
      | inr (existing, found) ↦ elim (Bool-cases (str_eq existing.user_id user_id)) [
        | inl own ↦
            let done : delete_price_alert user_id id alerts
                ≡ (ok tt, delete_where (λ a. str_eq a.id id) alerts) =
              rw (found, delete_price_alert) (rw own refl) in
            let both = sym h ∙ done in
            inl (
              ap (λ x. x.0) both,
              ap (alert_by_id id) (ap (λ x. x.1) both) ∙ gone,
              (existing, found, own),
            )
        | inr not_own ↦
            let refused : delete_price_alert user_id id alerts
                ≡ (err alert_of_another_user, alerts) =
              rw (found, delete_price_alert) (rw not_own refl) in
            let both = sym h ∙ refused in
            inr (ap (λ x. x.1) both, (alert_of_another_user, ap (λ x. x.0) both))
      ]
    ]
