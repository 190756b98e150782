-- ===== src/Watchlists/Guards.antt =====
-- The requests on a watchlist, and whose they are.
use stock_harvesting_backend.Prelude.{ℕ, String, List, some, false, str_eq, ◌≡◌, refl}
use stock_harvesting_backend.Database.Transactions.{err}
use stock_harvesting_backend.Watchlists.Service.{
  WatchlistRow, WatchlistDb, ItemInput, Answer, watchlist_by_id, with_owned_watchlist,
  assert_watchlist_ownership, rename_watchlist, delete_watchlist, remove_watchlist_item,
  add_watchlist_item, bulk_add_watchlist_items, watchlist_of_another_user,
}

-- The requests that change a watchlist that is there.
pub data Request : Type 0 where
  rename : String → Request
  delete : Request
  remove : String → Request
  add : String → String → String → Request
  bulk_add : (ℕ → String) → List ItemInput → Request

module _ (normalize_symbol to_upper_case : String → String) where
  abbrev pub serve : ℕ → String → String → Request → WatchlistDb → Answer
  serve now user_id id (rename name) db = rename_watchlist now user_id id name db
  serve now user_id id delete db = delete_watchlist user_id id db
  serve now user_id id (remove item_id) db = remove_watchlist_item now user_id id item_id db
  serve now user_id id (add item_id exchange symbol) db =
      add_watchlist_item normalize_symbol to_upper_case now item_id user_id id exchange symbol db
  serve now user_id id (bulk_add fresh items) db =
      bulk_add_watchlist_items normalize_symbol to_upper_case now fresh user_id id items db

  refused :
      (user_id id : String) (db : WatchlistDb) (rest : Answer) {watchlist : WatchlistRow}
      → watchlist_by_id id db ≡ some watchlist
      → str_eq watchlist.user_id user_id ≡ false
      → with_owned_watchlist id user_id db rest ≡ (err watchlist_of_another_user, db)
  unfolding with_owned_watchlist assert_watchlist_ownership
  refused user_id id db rest found other = rw (found, with_owned_watchlist) (rw other refl)

  -- Whatever a user asks of a watchlist of another one is refused and changes nothing.
  pub serve-refused :
      (now : ℕ) (user_id id : String) (request : Request) (db : WatchlistDb)
      (watchlist : WatchlistRow)
      → watchlist_by_id id db ≡ some watchlist
      → str_eq watchlist.user_id user_id ≡ false
      → serve now user_id id request db ≡ (err watchlist_of_another_user, db)
  unfolding rename_watchlist delete_watchlist remove_watchlist_item add_watchlist_item
      bulk_add_watchlist_items
  serve-refused now user_id id (rename name) db w found other = refused user_id id db _ found other
  serve-refused now user_id id delete db w found other = refused user_id id db _ found other
  serve-refused now user_id id (remove item_id) db w found other =
      refused user_id id db _ found other
  serve-refused now user_id id (add item_id exchange symbol) db w found other =
      refused user_id id db _ found other
  serve-refused now user_id id (bulk_add fresh items) db w found other =
      refused user_id id db _ found other
