-- ===== src/Tests/Imports.antt =====
-- The import of a collection and the clients of the stream.
use stock_harvesting_backend.Prelude.{
  ℕ, String, List, [], ◌∷◌, none, some, Bool, true, false, not, ◌&&◌, ◌||◌, ◌==◌, str_eq, any,
  if◌then◌else◌, ◌≡◌, refl,
}
use stock_harvesting_backend.Database.Transactions.{ok, copying}
use stock_harvesting_backend.Market.Universe.{InstrumentRow}
use stock_harvesting_backend.Collections.Parse.{
  Texts, is_blank, nothing_parsed, take_tokens, parse_collection_csv,
}
use stock_harvesting_backend.Collections.Symbols.{IsDistinct, take_tokens_lem}
use stock_harvesting_backend.Collections.Import.{
  CollectionRow, CollectionDb, ImportInput, ImportError, is_matched, classify_collection_import,
  import_collection_csv, classify_parsed, member_status,
}
use stock_harvesting_backend.Collections.Members.{holds}
use stock_harvesting_backend.Collections.Membership.{import_collection_csv-members}
use stock_harvesting_backend.Stream.Hub.{
  StreamSymbol, Client, subscribes, unsubscribes, HubEvent, registers, asks, closes, serve_event,
  subscribe, unsubscribe, normalize_stream_symbol, register_market_stream_client, close_client,
  get_matching_clients, publish_market_stream_event,
}
use stock_harvesting_backend.Stream.Delivery.{
  run_hub, hears, joins, publish_market_stream_event-refines,
}

abbrev any_ticker : String → Bool
any_ticker t = not (str_eq t "???")

take_tokens_lem_example :
    let parsed = take_tokens any_ticker ("TCS" ∷ "???" ∷ "TCS" ∷ []) nothing_parsed in
    (any (str_eq "TCS") parsed.candidate_symbols ≡ (
      any (str_eq "TCS") ("TCS" ∷ "???" ∷ "TCS" ∷ [])
      && (any_ticker "TCS" && not (is_blank "TCS"))))
    × IsDistinct parsed.candidate_symbols
take_tokens_lem_example = take_tokens_lem any_ticker ("TCS" ∷ "???" ∷ "TCS" ∷ []) "TCS"

abbrev lines_of : String → List String
lines_of csv = "Symbol" ∷ "TCS" ∷ []

abbrev cells_of : String → List String
cells_of line = line ∷ []

abbrev same_text : String → String
same_text t = t

abbrev is_header : String → Bool
is_header line = str_eq line "Symbol"

abbrev texts : Texts
texts = record {
  split_lines = lines_of;
  cells = cells_of;
  trim_lower = same_text;
  trim_upper = same_text;
  mentions_symbol = is_header;
  is_ticker = any_ticker;
}

abbrev tcs_row : InstrumentRow
tcs_row = record {
  id = "i1";
  provider = "global-datafeeds";
  exchange = "BSE";
  symbol = "TCS";
  active = true;
}

abbrev sensex : CollectionRow
sensex = record {
  id = "c1";
  code = "SENSEX";
  name = "BSE Sensex";
  exchange = "BSE";
  active = true;
  source_name = none;
  source_date = none;
  preparation_status = "ready";
  latest_membership_version_id = none;
  updated_at = 0;
}

abbrev collection_db : CollectionDb
collection_db = record {
  instruments = tcs_row ∷ [];
  collections = sensex ∷ [];
  members = (record { collection_id = "c1"; instrument_id = "i9"; active = true }) ∷ [];
  versions = [];
  version_members = [];
  backtest_runs = [];
}

abbrev import_input : ImportInput
import_input = record { source_name = none; source_date = none; effective_from = 20420 }

import_collection_csv-members_example :
    let report = classify_collection_import texts (some "c1") "BSE" "csv" collection_db in
    let answer =
      import_collection_csv
        (copying CollectionDb ImportError String)
        texts
        7
        "v1"
        "c1"
        "csv"
        import_input
        collection_db in
    (answer.0 ≡ ok "v1")
    × (holds "c1" "i9" answer.1.members ≡ (
        if str_eq "c1" "c1"
        then is_matched report.matched "i9"
        else holds "c1" "i9" collection_db.members))
import_collection_csv-members_example =
    import_collection_csv-members (copying CollectionDb ImportError String) texts 7 "v1" "csv" "c1"
      "i9" sensex import_input collection_db refl refl

names_tcs :
    is_matched (classify_collection_import texts (some "c1") "BSE" "csv" collection_db).matched "i1"
    ≡ true
unfolding classify_parsed member_status parse_collection_csv take_tokens
names_tcs = refl

abbrev short : String → ℕ
short t = 3

abbrev tcs : StreamSymbol
tcs = record { exchange = "BSE"; symbol = "TCS" }

abbrev infy : StreamSymbol
infy = record { exchange = "BSE"; symbol = "INFY" }

abbrev client : Client
client = record {
  id = 1;
  is_open = true;
  user_id = "u1";
  subscriptions = [];
  admin_subscribed = false;
}

abbrev hub_events : List (HubEvent same_text short)
hub_events =
    asks 1 (subscribes (tcs ∷ infy ∷ []))
    ∷ registers 2 "u2"
    ∷ asks 2 (subscribes (tcs ∷ []))
    ∷ asks 1 (unsubscribes (infy ∷ []))
    ∷ closes 2
    ∷ []

publish_market_stream_event-refines_example :
    any
      (λ i. i == 1)
      (publish_market_stream_event (some tcs) (run_hub same_text short hub_events (client ∷ [])))
    ≡ (any (hears same_text short hub_events 1 tcs) (client ∷ [])
        || joins same_text short hub_events 1 tcs)
publish_market_stream_event-refines_example =
    publish_market_stream_event-refines same_text short hub_events tcs 1 (client ∷ [])

closed_is_silent :
    publish_market_stream_event (some tcs) (run_hub same_text short hub_events (client ∷ []))
    ≡ 1 ∷ []
unfolding publish_market_stream_event get_matching_clients serve_event subscribe unsubscribe
    normalize_stream_symbol register_market_stream_client close_client
closed_is_silent = refl
