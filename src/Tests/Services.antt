-- ===== src/Tests/Services.antt =====
-- Alerts, versions, live candles and watchlists.
use stock_harvesting_backend.Prelude.{
  ℕ, ◌≡◌, refl, String, false, List, [], ◌∷◌, none, some, any, All,
}
use stock_harvesting_backend.Database.Transactions.{Result, ok, err}
use stock_harvesting_backend.Alerts.Service.{
  PriceAlert, AlertError, above, active, evaluate_price_alerts_for_quote, delete_price_alert,
}
use stock_harvesting_backend.Alerts.Evaluation.{is_due, evaluate_price_alerts_for_quote-none_due}
use stock_harvesting_backend.Collections.Versions.{VersionRow, select_applicable_version}
use stock_harvesting_backend.Collections.Applicable.{
  IsApplicable, select_applicable_version-IsApplicable,
}
use stock_harvesting_backend.Stream.Candles.{Tick, Instant}
use stock_harvesting_backend.Stream.Updates.{
  tick_item, IsConsistent, apply_feed, apply_feed-IsConsistent,
}
use stock_harvesting_backend.Watchlists.Service.{
  WatchlistRow, WatchlistItemRow, WatchlistDb, watchlist_of_another_user,
}
use stock_harvesting_backend.Watchlists.Guards.{add, delete, serve, serve-refused}
use stock_harvesting_backend.Watchlists.Duplicates.{Distinct, serve-Distinct}

abbrev same_text : String → String
same_text t = t

abbrev alert : PriceAlert
alert = record {
  id = "a1";
  user_id = "u1";
  exchange = "NSE";
  symbol = "TCS";
  condition = above;
  target_price = 300;
  status = active;
  triggered_at = none;
  updated_at = 0;
}

evaluate_price_alerts_for_quote-none_due_example :
    any
      (is_due "NSE" "TCS" 310)
      (evaluate_price_alerts_for_quote same_text 5 "NSE" "TCS" 310 (alert ∷ [])).1
    ≡ false
evaluate_price_alerts_for_quote-none_due_example =
    evaluate_price_alerts_for_quote-none_due same_text 5 "NSE" "TCS" 310 (alert ∷ [])

deleted : delete_price_alert "u1" "a1" (alert ∷ []) ≡ (ok tt, [])
unfolding delete_price_alert
deleted = refl

abbrev done : Result AlertError (Unit {0})
done = ok tt

abbrev versions : List VersionRow
versions = record { id = "b"; effective_from = 20 } ∷ record { id = "a"; effective_from = 10 } ∷ []

select_applicable_version-IsApplicable_example :
    IsApplicable versions 15 (select_applicable_version versions 15)
select_applicable_version-IsApplicable_example = select_applicable_version-IsApplicable versions 15

abbrev noon : Instant
noon = record { date = 738001; stamp = 5 }

abbrev tick : ℕ → Tick
tick price = record {
  exchange = "NSE";
  symbol = "TCS";
  price = price;
  volume = none;
  time = some noon;
}

abbrev month_of : ℕ → ℕ
month_of date = 737980

apply_feed-IsConsistent_example :
    All IsConsistent (apply_feed month_of (tick_item (tick 300) ∷ tick_item (tick 290) ∷ []) [])
apply_feed-IsConsistent_example =
    apply_feed-IsConsistent month_of (tick_item (tick 300) ∷ tick_item (tick 290) ∷ []) []
      (tt, (tt, tt)) tt

abbrev watchlist : WatchlistRow
watchlist = record { id = "w1"; user_id = "u1"; name = "Mine"; updated_at = 0 }

abbrev item : WatchlistItemRow
item = record { id = "i1"; watchlist_id = "w1"; exchange = "NSE"; symbol = "TCS"; position = 0 }

abbrev watchlist_db : WatchlistDb
watchlist_db = record { watchlists = watchlist ∷ []; items = item ∷ [] }

serve-refused_example :
    serve same_text same_text 5 "u2" "w1" delete watchlist_db
    ≡ (err watchlist_of_another_user, watchlist_db)
serve-refused_example =
    serve-refused same_text same_text 5 "u2" "w1" delete watchlist_db watchlist refl refl

serve-Distinct_example :
    Distinct (serve same_text same_text 5 "u1" "w1" (add "i2" "NSE" "INFY") watchlist_db).1.items
serve-Distinct_example =
    serve-Distinct same_text same_text 5 "u1" "w1" (add "i2" "NSE" "INFY") watchlist_db (λ s. refl)
      (refl, tt)
