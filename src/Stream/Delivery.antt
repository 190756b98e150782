-- ===== src/Stream/Delivery.antt =====
-- Which events a client is sent: those of the symbols that its requests leave subscribed, while it is there.
use stock_harvesting_backend.Prelude.{
  ℕ, String, List, [], ◌∷◌, some, Bool, false, not, ◌&&◌, ◌||◌, ◌==◌, any, if◌then◌else◌, ◌≡◌, ◌∙◌,
  refl, ap, arith, Bool-cases, inl, inr,
}
use stock_harvesting_backend.Database.Tables.{update_where, delete_where, insert_row}
use stock_harvesting_backend.Stream.Hub.{
  StreamSymbol, has_subscription, Client, Request, subscribes, unsubscribes, subscribes_admin,
  unsubscribes_admin, change_client, is_client, close_client, register_market_stream_client,
  HubEvent, registers, asks, closes, serve_event, get_matching_clients, publish_market_stream_event,
}
use stock_harvesting_backend.Stream.Subscriptions.{are_meant, has-subscribe, has-unsubscribe}

module _ (normalize : String → String) (text_length : String → ℕ) where
  -- Whether a client is subscribed after a request.
  abbrev pub after_request : Request normalize text_length → StreamSymbol → Bool → Bool
  after_request (subscribes symbols) s on = on || are_meant normalize text_length symbols s
  after_request (unsubscribes symbols) s on = on && not (are_meant normalize text_length symbols s)
  after_request subscribes_admin s on = on
  after_request unsubscribes_admin s on = on

  -- Whether the client with an id is still there and subscribed after some events.
  abbrev pub replay : List (HubEvent normalize text_length) → ℕ → StreamSymbol → Bool → Bool
  replay [] id s on = on
  replay (registers j user_id ∷ events) id s on = replay events id s on
  replay (asks j request ∷ events) id s on =
      replay events id s (if id == j then after_request request s on else on)
  replay (closes j ∷ events) id s on = not (id == j) && replay events id s on

  -- A client with an id that registers on the way, and is there and subscribed in the end.
  abbrev pub joins : List (HubEvent normalize text_length) → ℕ → StreamSymbol → Bool
  joins [] id s = false
  joins (registers j user_id ∷ events) id s =
      (j == id && replay events j s false) || joins events id s
  joins (asks j request ∷ events) id s = joins events id s
  joins (closes j ∷ events) id s = joins events id s

  abbrev pub hears : List (HubEvent normalize text_length) → ℕ → StreamSymbol → Client → Bool
  hears events id s c =
      c.id == id && (c.is_open && replay events c.id s (has_subscription s c.subscriptions))

  abbrev pub run_hub : List (HubEvent normalize text_length) → List Client → List Client
  run_hub [] clients = clients
  run_hub (event ∷ events) clients =
      run_hub events (serve_event normalize text_length event clients)

  hears-change :
      (events : List (HubEvent normalize text_length)) (id : ℕ) (s : StreamSymbol)
      (request : Request normalize text_length) (c : Client)
      → hears events id s (change_client normalize text_length request c) ≡ (
          c.id == id
          && (c.is_open
              && replay events c.id s
                  (after_request request s (has_subscription s c.subscriptions))))
  hears-change events id s (subscribes symbols) c =
      ap (λ on. c.id == id && (c.is_open && replay events c.id s on))
        (has-subscribe normalize text_length s symbols (c.subscriptions, []))
  hears-change events id s (unsubscribes symbols) c =
      ap (λ on. c.id == id && (c.is_open && replay events c.id s on))
        (has-unsubscribe normalize text_length s symbols (c.subscriptions, []))
  hears-change events id s subscribes_admin c = refl
  hears-change events id s unsubscribes_admin c = refl

  any-hears-asks :
      (events : List (HubEvent normalize text_length)) (id j : ℕ) (s : StreamSymbol)
      (request : Request normalize text_length) (clients : List Client)
      → any
          (hears events id s)
          (update_where (is_client j) (change_client normalize text_length request) clients)
        ≡ any (hears (asks j request ∷ events) id s) clients
  any-hears-asks events id j s request [] = refl
  any-hears-asks events id j s request (c ∷ clients) =
      let ih = any-hears-asks events id j s request clients in
      elim (Bool-cases (c.id == j)) [
        | inl mine ↦ rw mine (
            ap
              (λ b.
                b
                || any (hears events id s) (
                    update_where (is_client j) (change_client normalize text_length request)
                      clients))
              (hears-change events id s request c)
            ∙ rw ih refl)
        | inr other ↦ rw other (rw ih refl)
      ]

  any-hears-closes :
      (events : List (HubEvent normalize text_length)) (id j : ℕ) (s : StreamSymbol)
      (clients : List Client)
      → any (hears events id s) (delete_where (is_client j) clients)
        ≡ any (hears (closes j ∷ events) id s) clients
  any-hears-closes events id j s [] = refl
  any-hears-closes events id j s (c ∷ clients) =
      let ih = any-hears-closes events id j s clients in
      elim (Bool-cases (c.id == j)) [
        | inl mine ↦ rw mine (ih ∙ ground arith)
        | inr other ↦ rw other (rw ih refl)
      ]

any-insert_row :
    (p : Client → Bool) (clients : List Client) (c : Client)
    → any p (insert_row c clients) ≡ (any p clients || p c)
any-insert_row p [] c = ground arith
any-insert_row p (x ∷ clients) c =
    let ih = any-insert_row p clients c in
    elim (Bool-cases (p x)) [ inl on ↦ rw on refl | inr off ↦ rw off ih ]

sent_first :
    (s : StreamSymbol) (c : Client) (clients : List Client)
    → publish_market_stream_event (some s) (c ∷ clients) ≡ (
        if c.is_open && has_subscription s c.subscriptions
        then c.id ∷ publish_market_stream_event (some s) clients
        else publish_market_stream_event (some s) clients)
unfolding publish_market_stream_event get_matching_clients
sent_first s c clients = elim (Bool-cases (has_subscription s c.subscriptions)) [
  | inl on ↦ elim (Bool-cases c.is_open) [
    | inl open_socket ↦ rw on (rw open_socket refl)
    | inr shut ↦ rw on (rw shut refl)
  ]
  | inr off ↦ elim (Bool-cases c.is_open) [
    | inl open_socket ↦ rw off (rw open_socket refl)
    | inr shut ↦ rw off (rw shut refl)
  ]
]

sent_any :
    (normalize : String → String) (text_length : String → ℕ) (s : StreamSymbol) (id : ℕ)
    (clients : List Client)
    → any (λ i. i == id) (publish_market_stream_event (some s) clients)
      ≡ any (hears normalize text_length [] id s) clients
unfolding publish_market_stream_event get_matching_clients
sent_any normalize text_length s id [] = refl
sent_any normalize text_length s id (c ∷ clients) =
    let ih = sent_any normalize text_length s id clients in
    let first = sent_first s c clients in
    elim (Bool-cases (c.is_open && has_subscription s c.subscriptions)) [
      | inl heard ↦
          let told : publish_market_stream_event (some s) (c ∷ clients)
              ≡ c.id ∷ publish_market_stream_event (some s) clients =
            first ∙ rw heard refl in
          ap (any (λ i. i == id)) told ∙ ap (λ b. c.id == id || b) ih ∙ ground (arith, heard)
      | inr quiet ↦
          let passed : publish_market_stream_event (some s) (c ∷ clients)
              ≡ publish_market_stream_event (some s) clients =
            first ∙ rw quiet refl in
          ap (any (λ i. i == id)) passed ∙ ih ∙ ground (arith, quiet)
    ]

-- Whatever clients register, ask and close in which order, an event of a symbol is sent to a client afterwards exactly
-- if its socket is open, it was there or has registered, it has not closed since, and the last of its requests that
-- meant the symbol subscribed to it, or, without one, it was subscribed before. A request means a symbol that one of
-- its own is once it is normalized, neither empty nor too long.
pub publish_market_stream_event-refines :
    (normalize : String → String) (text_length : String → ℕ)
    (events : List (HubEvent normalize text_length)) (s : StreamSymbol) (id : ℕ)
    (clients : List Client)
    → any
        (λ i. i == id)
        (publish_market_stream_event (some s) (run_hub normalize text_length events clients))
      ≡ (any (hears normalize text_length events id s) clients
          || joins normalize text_length events id s)
unfolding serve_event register_market_stream_client close_client
publish_market_stream_event-refines normalize text_length [] s id clients =
    sent_any normalize text_length s id clients ∙ ground arith
publish_market_stream_event-refines normalize text_length (registers j user_id ∷ events) s id
      clients =
    publish_market_stream_event-refines normalize text_length events s id
      (register_market_stream_client j user_id clients)
    ∙ ap (λ b. b || joins normalize text_length events id s)
        (any-insert_row (hears normalize text_length events id s) clients _)
    ∙ ground arith
publish_market_stream_event-refines normalize text_length (asks j request ∷ events) s id clients =
    publish_market_stream_event-refines normalize text_length events s id
      (update_where (is_client j) (change_client normalize text_length request) clients)
    ∙ ap (λ b. b || joins normalize text_length events id s)
        (any-hears-asks normalize text_length events id j s request clients)
publish_market_stream_event-refines normalize text_length (closes j ∷ events) s id clients =
    publish_market_stream_event-refines normalize text_length events s id (close_client j clients)
    ∙ ap (λ b. b || joins normalize text_length events id s)
        (any-hears-closes normalize text_length events id j s clients)
