-- ===== src/Watchlists/Service.antt =====
-- src/modules/watchlists/watchlists.service.ts. The clock and the identifiers of new rows are arguments, and so
-- are the library's case and trimming functions inside `normalize_symbol` and `to_upper_case`.
use stock_harvesting_backend.Prelude.{
  ℕ, zero, suc, ◌-◌, String, List, [], ◌∷◌, ◌++◌, Option, none, some, Bool, ◌&&◌, not, str_eq, find,
  filter, any, map, length, if◌then◌else◌,
}
use Prim.Native.String.{◌++◌ as text_append}
use stock_harvesting_backend.Database.Tables.{update_where, delete_where, insert_row}
use stock_harvesting_backend.Database.Transactions.{Result, ok, err}

pub record WatchlistRow : Type 0 where
  pub id : String
  pub user_id : String
  pub name : String
  pub updated_at : ℕ

pub record WatchlistItemRow : Type 0 where
  pub id : String
  pub watchlist_id : String
  pub exchange : String
  pub symbol : String
  pub position : ℕ

pub record WatchlistDb : Type 0 where
  pub watchlists : List WatchlistRow
  pub items : List WatchlistItemRow

pub record ItemInput : Type 0 where
  pub exchange : String
  pub symbol : String

pub data WatchlistError : Type 0 where
  watchlist_not_found watchlist_of_another_user already_in_watchlist item_not_found : WatchlistError

abbrev pub Answer : Type 0
Answer = Result WatchlistError (Unit {0}) × WatchlistDb

-- The error that it throws, if it throws.
unfoldable pub assert_watchlist_ownership : Option WatchlistRow → String → Option WatchlistError
assert_watchlist_ownership none user_id = some watchlist_not_found
assert_watchlist_ownership (some watchlist) user_id =
    if not (str_eq watchlist.user_id user_id) then some watchlist_of_another_user else none

abbrev pub watchlist_by_id : String → WatchlistDb → Option WatchlistRow
watchlist_by_id id db = find (λ w. str_eq w.id id) db.watchlists

-- What follows `getOwnedWatchlist` in an operation, or its error.
unfoldable pub with_owned_watchlist : String → String → WatchlistDb → Answer → Answer
unfolding assert_watchlist_ownership
with_owned_watchlist id user_id db rest =
    elim (assert_watchlist_ownership (watchlist_by_id id db) user_id) [
      | none ↦ rest
      | some e ↦ (err e, db)
    ]

-- The rows of a watchlist with an exchange and a symbol.
abbrev pub has_key : String → String → String → WatchlistItemRow → Bool
has_key watchlist_id exchange symbol item =
    str_eq item.watchlist_id watchlist_id
    && (str_eq item.exchange exchange && str_eq item.symbol symbol)

abbrev pub touch : ℕ → String → WatchlistDb → WatchlistDb
touch now id db = record db {
  watchlists =
      update_where (λ w. str_eq w.id id) (λ w. record w { updated_at = now }) db.watchlists;
}

-- `groupSymbolsByExchange`: a symbol joins the bucket of its exchange, or opens one.
abbrev pub add_to_bucket : ItemInput → List (String × List String) → List (String × List String)
add_to_bucket item [] = (item.exchange, item.symbol ∷ []) ∷ []
add_to_bucket item ((exchange, symbols) ∷ grouped) =
    if str_eq exchange item.exchange
    then (exchange, symbols ++ item.symbol ∷ []) ∷ grouped
    else (exchange, symbols) ∷ add_to_bucket item grouped

unfoldable pub group_from :
    List (String × List String) → List ItemInput → List (String × List String)
group_from grouped [] = grouped
group_from grouped (item ∷ items) = group_from (add_to_bucket item grouped) items

unfoldable pub group_symbols_by_exchange : List ItemInput → List (String × List String)
unfolding group_from
group_symbols_by_exchange items = group_from [] items

unfoldable pub create_watchlist : ℕ → String → String → String → WatchlistDb → WatchlistDb
create_watchlist now id user_id name db = record db {
  watchlists =
      insert_row (record { id = id; user_id = user_id; name = name; updated_at = now })
        db.watchlists;
}

unfoldable pub rename_watchlist : ℕ → String → String → String → WatchlistDb → Answer
unfolding with_owned_watchlist
rename_watchlist now user_id id name db = with_owned_watchlist id user_id db (
  ok tt,
  record db {
    watchlists =
        update_where (λ w. str_eq w.id id) (λ w. record w { name = name; updated_at = now })
          db.watchlists;
  },
)

-- The items of a deleted watchlist go with it (`onDelete: "cascade"`).
unfoldable pub delete_watchlist : String → String → WatchlistDb → Answer
unfolding with_owned_watchlist
delete_watchlist user_id id db = with_owned_watchlist id user_id db (
  ok tt,
  record {
    watchlists = delete_where (λ w. str_eq w.id id) db.watchlists;
    items = delete_where (λ i. str_eq i.watchlist_id id) db.items;
  },
)

unfoldable pub remove_watchlist_item : ℕ → String → String → String → WatchlistDb → Answer
unfolding with_owned_watchlist
remove_watchlist_item now user_id watchlist_id item_id db =
    with_owned_watchlist watchlist_id user_id db (elim (find (λ i. str_eq i.id item_id) db.items) [
      | none ↦ (err item_not_found, db)
      | some existing ↦
          if not (str_eq existing.watchlist_id watchlist_id) then (err item_not_found, db) else (
            ok tt,
            touch now watchlist_id
                (record db { items = delete_where (λ i. str_eq i.id item_id) db.items }),
          )
    ])

-- `insert … on conflict do nothing`, one row: the unique constraint is on the watchlist, the exchange and the symbol.
abbrev pub insert_unique : WatchlistItemRow → List WatchlistItemRow → List WatchlistItemRow
insert_unique row items =
    if any (has_key row.watchlist_id row.exchange row.symbol) items
    then items
    else insert_row row items

-- The key under which the map of `bulkAddWatchlistItems` keeps an item.
abbrev pub item_key : ItemInput → String
item_key item = text_append item.exchange (text_append ":" item.symbol)

-- `Map.set`: the value is replaced in its place.
abbrev pub set_item : ItemInput → List ItemInput → List ItemInput
set_item item [] = item ∷ []
set_item item (i ∷ items) =
    if str_eq (item_key i) (item_key item) then item ∷ items else i ∷ set_item item items

abbrev pub unique_from : List ItemInput → List ItemInput → List ItemInput
unique_from kept [] = kept
unique_from kept (item ∷ items) = unique_from (set_item item kept) items

-- The rows of the insert, numbered from a position.
unfoldable pub insert_all :
    (ℕ → String) → String → ℕ → List ItemInput → List WatchlistItemRow → List WatchlistItemRow
insert_all fresh watchlist_id position [] rows = rows
insert_all fresh watchlist_id position (item ∷ items) rows =
    insert_all fresh watchlist_id (suc position) items (
      insert_unique
        (record {
          id = fresh position;
          watchlist_id = watchlist_id;
          exchange = item.exchange;
          symbol = item.symbol;
          position = position;
        })
        rows)

module _ (normalize_symbol to_upper_case : String → String) where
  unfoldable pub find_duplicate_watchlist_item :
      List WatchlistItemRow → String → String → Option WatchlistItemRow
  find_duplicate_watchlist_item items exchange symbol =
      find (λ i. str_eq i.exchange exchange && str_eq i.symbol (normalize_symbol symbol)) items

  unfoldable pub add_watchlist_item :
      ℕ → String → String → String → String → String → WatchlistDb → Answer
  unfolding with_owned_watchlist find_duplicate_watchlist_item
  add_watchlist_item now id user_id watchlist_id exchange symbol db =
      let normalized = normalize_symbol symbol in
      let existing = filter (λ i. str_eq i.watchlist_id watchlist_id) db.items in
      let row : WatchlistItemRow = record {
        id = id;
        watchlist_id = watchlist_id;
        exchange = exchange;
        symbol = normalized;
        position = 0;
      } in
      with_owned_watchlist watchlist_id user_id db
        (elim (find_duplicate_watchlist_item existing exchange normalized) [
          | some item ↦ (err already_in_watchlist, db)
          | none ↦ (ok tt, touch now watchlist_id (record db { items = insert_row row db.items }))
        ])

  abbrev pub normalized_item : ItemInput → ItemInput
  normalized_item item = record {
    exchange = to_upper_case item.exchange;
    symbol = normalize_symbol item.symbol;
  }

  unfoldable pub bulk_add_watchlist_items :
      ℕ → (ℕ → String) → String → String → List ItemInput → WatchlistDb → Answer
  unfolding with_owned_watchlist insert_all
  bulk_add_watchlist_items now fresh user_id watchlist_id items db =
      let unique_items = unique_from [] (map normalized_item items) in
      let rows = insert_all fresh watchlist_id 0 unique_items db.items in
      let added = length rows - length db.items in
      with_owned_watchlist watchlist_id user_id db (elim added [
        | zero ↦ (ok tt, record db { items = rows })
        | suc n ↦ (ok tt, touch now watchlist_id (record db { items = rows }))
      ])
