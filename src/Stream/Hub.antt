-- ===== src/Stream/Hub.antt =====
-- src/modules/market-stream/market-stream.hub.ts and market-stream.utils.ts: the clients of the stream, what they
-- subscribe to and what is sent to them. Trimming with change of case, and the length of a text, are arguments.
use stock_harvesting_backend.Prelude.{
  ℕ, ◌+◌, String, List, [], ◌∷◌, ◌++◌, Option, none, some, Bool, true, false, ◌&&◌, ◌||◌, ◌==◌, ltb,
  str_eq, any, filter, map, length, if◌then◌else◌,
}
use stock_harvesting_backend.Database.Tables.{update_where, delete_where, insert_row}

pub record StreamSymbol : Type 0 where
  pub exchange : String
  pub symbol : String

pub record StreamUser : Type 0 where
  pub id : String
  pub portal : String
  pub role : String

-- The texts of the keys of two symbols, an exchange, a colon and a symbol, are equal; no exchange has a colon.
abbrev pub same_key : StreamSymbol → StreamSymbol → Bool
same_key a b = str_eq a.exchange b.exchange && str_eq a.symbol b.symbol

unfoldable pub can_subscribe_to_admin_market_data : StreamUser → Bool
can_subscribe_to_admin_market_data user = str_eq user.portal "admin" && str_eq user.role "admin"

-- A client, with its subscriptions in the order in which they were made.
pub record Client : Type 0 where
  pub id : ℕ
  pub is_open : Bool
  pub user_id : String
  pub subscriptions : List StreamSymbol
  pub admin_subscribed : Bool

abbrev pub has_subscription : StreamSymbol → List StreamSymbol → Bool
has_subscription s subscriptions = any (same_key s) subscriptions

-- A subscription that is new joins the others, and those that were added are passed on.
abbrev pub add_subscription :
    Option StreamSymbol
    → List StreamSymbol × List StreamSymbol
    → List StreamSymbol × List StreamSymbol
add_subscription none (subscriptions, added) = (subscriptions, added)
add_subscription (some s) (subscriptions, added) =
    if has_subscription s subscriptions
    then (subscriptions, added)
    else (subscriptions ++ s ∷ [], added ++ s ∷ [])

abbrev pub drop_subscription :
    Option StreamSymbol
    → List StreamSymbol × List StreamSymbol
    → List StreamSymbol × List StreamSymbol
drop_subscription none (subscriptions, removed) = (subscriptions, removed)
drop_subscription (some s) (subscriptions, removed) =
    if has_subscription s subscriptions
    then (delete_where (same_key s) subscriptions, removed ++ s ∷ [])
    else (subscriptions, removed)

module _ (normalize : String → String) (text_length : String → ℕ) where
  unfoldable pub normalize_stream_symbol : StreamSymbol → Option StreamSymbol
  normalize_stream_symbol input =
      let exchange = normalize input.exchange in
      let symbol = normalize input.symbol in
      if str_eq exchange "" || str_eq symbol ""
      then none
      else if ltb 32 (text_length exchange) || ltb 64 (text_length symbol)
      then none
      else some (record { exchange = exchange; symbol = symbol })

  -- The subscriptions that are left, and those that were added.
  unfoldable pub subscribe :
      List StreamSymbol
      → List StreamSymbol × List StreamSymbol
      → List StreamSymbol × List StreamSymbol
  unfolding normalize_stream_symbol
  subscribe [] state = state
  subscribe (s ∷ symbols) state =
      subscribe symbols (add_subscription (normalize_stream_symbol s) state)

  unfoldable pub unsubscribe :
      List StreamSymbol
      → List StreamSymbol × List StreamSymbol
      → List StreamSymbol × List StreamSymbol
  unfolding normalize_stream_symbol
  unsubscribe [] state = state
  unsubscribe (s ∷ symbols) state =
      unsubscribe symbols (drop_subscription (normalize_stream_symbol s) state)

  -- What a client that stays asks of the hub.
  pub data Request : Type 0 where
    subscribes unsubscribes : List StreamSymbol → Request
    subscribes_admin unsubscribes_admin : Request

  abbrev pub change_client : Request → Client → Client
  change_client (subscribes symbols) c = record c {
    subscriptions = (subscribe symbols (c.subscriptions, [])).0;
  }
  change_client (unsubscribes symbols) c = record c {
    subscriptions = (unsubscribe symbols (c.subscriptions, [])).0;
  }
  change_client subscribes_admin c = record c { admin_subscribed = true }
  change_client unsubscribes_admin c = record c { admin_subscribed = false }

unfoldable pub register_market_stream_client : ℕ → String → List Client → List Client
register_market_stream_client id user_id clients =
    insert_row
      (record {
        id = id;
        is_open = true;
        user_id = user_id;
        subscriptions = [];
        admin_subscribed = false;
      })
      clients

abbrev pub is_client : ℕ → Client → Bool
is_client id c = c.id == id

-- The handler of the socket's close.
unfoldable pub close_client : ℕ → List Client → List Client
close_client id clients = delete_where (is_client id) clients

module _ (normalize : String → String) (text_length : String → ℕ) where
  -- What happens at the hub: a client registers, asks for something, or its socket closes.
  pub data HubEvent : Type 0 where
    registers : ℕ → String → HubEvent
    asks : ℕ → Request normalize text_length → HubEvent
    closes : ℕ → HubEvent

  unfoldable pub serve_event : HubEvent → List Client → List Client
  unfolding subscribe unsubscribe register_market_stream_client close_client
  serve_event (registers id user_id) clients = register_market_stream_client id user_id clients
  serve_event (asks id request) clients =
      update_where (is_client id) (change_client normalize text_length request) clients
  serve_event (closes id) clients = close_client id clients

-- The clients of an event: those of its symbol, or all where it has none.
unfoldable pub get_matching_clients : Option StreamSymbol → List Client → List Client
get_matching_clients none clients = clients
get_matching_clients (some s) clients = filter (λ c. has_subscription s c.subscriptions) clients

-- `send`: a socket that is not open is passed over. The clients that an event is sent to.
abbrev pub send_each : List Client → List ℕ
send_each clients = map (λ c. c.id) (filter (λ c. c.is_open) clients)

unfoldable pub publish_market_stream_event : Option StreamSymbol → List Client → List ℕ
unfolding get_matching_clients
publish_market_stream_event s clients = send_each (get_matching_clients s clients)

unfoldable pub publish_admin_market_data_event : List Client → List ℕ
publish_admin_market_data_event clients = send_each (filter (λ c. c.admin_subscribed) clients)

abbrev pub count_subscriptions : List Client → ℕ
count_subscriptions [] = 0
count_subscriptions (c ∷ clients) = length c.subscriptions + count_subscriptions clients

pub record StreamStats : Type 0 where
  pub clients : ℕ
  pub subscriptions : ℕ
  pub admin_subscribers : ℕ

unfoldable pub get_market_stream_stats : List Client → StreamStats
get_market_stream_stats clients = record {
  clients = length clients;
  subscriptions = count_subscriptions clients;
  admin_subscribers = length (filter (λ c. c.admin_subscribed) clients);
}
