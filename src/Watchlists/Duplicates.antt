-- ===== src/Watchlists/Duplicates.antt =====
-- The items of a watchlist are kept without duplicates.
use stock_harvesting_backend.Prelude.{
  ℕ, zero, suc, ◌-◌, String, List, [], ◌∷◌, Option, none, some, Bool, true, false, ◌&&◌, not,
  str_eq, find, filter, any, map, length, if◌then◌else◌, ◌≡◌, refl, sym, subst, arith, Bool-cases,
  Option-cases, inl, inr,
}
use text.Mathlib.TextEquality.{eq_iff}
use stock_harvesting_backend.Database.Tables.{insert_row}
use stock_harvesting_backend.Database.Transactions.{err}
use stock_harvesting_backend.Watchlists.Service.{
  WatchlistItemRow, WatchlistDb, ItemInput, WatchlistError, Answer, has_key, watchlist_by_id,
  with_owned_watchlist, assert_watchlist_ownership, rename_watchlist, delete_watchlist,
  remove_watchlist_item, add_watchlist_item, bulk_add_watchlist_items, insert_unique, insert_all,
  find_duplicate_watchlist_item, unique_from, normalized_item,
}
use stock_harvesting_backend.Watchlists.Guards.{
  Request, rename, delete, remove, add, bulk_add, serve,
}

-- No two items of a watchlist have the same exchange and symbol.
abbrev pub Distinct : List WatchlistItemRow → Type 0
Distinct [] = Unit
Distinct (i ∷ items) =
    (any (has_key i.watchlist_id i.exchange i.symbol) items ≡ false) × Distinct items

str_eq-sym : (a b : String) → str_eq a b ≡ str_eq b a
str_eq-sym a b = elim (Bool-cases (str_eq a b)) [
  | inl same ↦ let e = (eq_iff b a).1 (sym ((eq_iff a b).0 same)) in cc
  | inr differs ↦ elim (Bool-cases (str_eq b a)) [
    | inl same ↦ let e = (eq_iff a b).1 (sym ((eq_iff b a).0 same)) in cc
    | inr no_more ↦ cc
  ]
]

has_key-sym :
    (i row : WatchlistItemRow)
    → has_key row.watchlist_id row.exchange row.symbol i ≡ false
    → has_key i.watchlist_id i.exchange i.symbol row ≡ false
has_key-sym i row h =
    let w = str_eq-sym row.watchlist_id i.watchlist_id in
    let x = str_eq-sym row.exchange i.exchange in
    let s = str_eq-sym row.symbol i.symbol in rw (w, x, s) h

any-insert :
    (p : WatchlistItemRow → Bool) (row : WatchlistItemRow) (items : List WatchlistItemRow)
    → any p items ≡ false
    → p row ≡ false
    → any p (insert_row row items) ≡ false
any-insert p row [] h k = rw k refl
any-insert p row (i ∷ items) h k = ground (arith, any-insert p row items)

insert-Distinct :
    (row : WatchlistItemRow) (items : List WatchlistItemRow)
    → any (has_key row.watchlist_id row.exchange row.symbol) items ≡ false
    → Distinct items
    → Distinct (insert_row row items)
insert-Distinct row [] fresh h = (refl, tt)
insert-Distinct row (i ∷ items) fresh (here, rest) =
    let first : has_key row.watchlist_id row.exchange row.symbol i ≡ false = ground arith in
    let others : any (has_key row.watchlist_id row.exchange row.symbol) items ≡ false =
      ground arith in
    (
      any-insert (has_key i.watchlist_id i.exchange i.symbol) row items here
          (has_key-sym i row first),
      insert-Distinct row items others rest,
    )

insert_unique-Distinct :
    (row : WatchlistItemRow) (items : List WatchlistItemRow)
    → Distinct items
    → Distinct (insert_unique row items)
insert_unique-Distinct row items h =
    elim (Bool-cases (any (has_key row.watchlist_id row.exchange row.symbol) items)) [
      | inl there ↦ rw there h
      | inr fresh ↦ rw fresh (insert-Distinct row items fresh h)
    ]

insert_all-Distinct :
    (fresh : ℕ → String) (watchlist_id : String) (position : ℕ) (items : List ItemInput)
    (rows : List WatchlistItemRow)
    → Distinct rows
    → Distinct (insert_all fresh watchlist_id position items rows)
unfolding insert_all
insert_all-Distinct fresh watchlist_id position [] rows h = h
insert_all-Distinct fresh watchlist_id position (item ∷ items) rows h =
    insert_all-Distinct fresh watchlist_id (suc position) items _ (insert_unique-Distinct _ rows h)

any-filter_le :
    (p q : WatchlistItemRow → Bool) (items : List WatchlistItemRow)
    → any p items ≡ false
    → any p (filter q items) ≡ false
any-filter_le p q [] h = refl
any-filter_le p q (i ∷ items) h = ground (arith, any-filter_le p q items)

filter-Distinct :
    (q : WatchlistItemRow → Bool) (items : List WatchlistItemRow)
    → Distinct items
    → Distinct (filter q items)
filter-Distinct q [] h = tt
filter-Distinct q (i ∷ items) (here, rest) = elim (Bool-cases (q i)) [
  | inl on ↦ rw on (
    any-filter_le (has_key i.watchlist_id i.exchange i.symbol) q items here,
    filter-Distinct q items rest,
  )
  | inr off ↦ rw off (filter-Distinct q items rest)
]

-- No duplicate among the items of a watchlist is none among all items.
find-none-any :
    (watchlist_id exchange symbol : String) (items : List WatchlistItemRow)
    → find
        (λ i. str_eq i.exchange exchange && str_eq i.symbol symbol)
        (filter (λ i. str_eq i.watchlist_id watchlist_id) items)
      ≡ none
    → any (has_key watchlist_id exchange symbol) items ≡ false
find-none-any watchlist_id exchange symbol [] h = refl
find-none-any watchlist_id exchange symbol (i ∷ items) h =
    ground (arith, find-none-any watchlist_id exchange symbol items)

-- The three branchings of the operations.
owned-cases :
    (o : Option WatchlistError) (db : WatchlistDb) (rest : Answer)
    → Distinct db.items
    → Distinct rest.1.items
    → Distinct (elim o as (λ x. Answer) [ none ↦ rest | some e ↦ (err e, db) ]).1.items
owned-cases none db rest h k = k
owned-cases (some e) db rest h k = h

added-cases :
    (n : ℕ) (a b : Answer)
    → Distinct a.1.items
    → Distinct b.1.items
    → Distinct (elim n as (λ x. Answer) [ zero ↦ a | suc k ↦ b ]).1.items
added-cases zero a b h k = h
added-cases (suc n) a b h k = k

if-cases :
    (t : Bool) (a b : Answer)
    → Distinct a.1.items
    → Distinct b.1.items
    → Distinct (if t then a else b).1.items
if-cases true a b h k = h
if-cases false a b h k = k

with_owned-Distinct :
    (user_id id : String) (db : WatchlistDb) (rest : Answer)
    → Distinct db.items
    → Distinct rest.1.items
    → Distinct (with_owned_watchlist id user_id db rest).1.items
unfolding with_owned_watchlist
with_owned-Distinct user_id id db rest h k =
    owned-cases (assert_watchlist_ownership (watchlist_by_id id db) user_id) db rest h k

module _ (normalize_symbol to_upper_case : String → String) where
  add-Distinct :
      (now : ℕ) (id user_id watchlist_id exchange symbol : String) (db : WatchlistDb)
      → normalize_symbol (normalize_symbol symbol) ≡ normalize_symbol symbol
      → Distinct db.items
      → Distinct
          (add_watchlist_item normalize_symbol to_upper_case now id user_id watchlist_id exchange
            symbol db).1.items
  unfolding add_watchlist_item find_duplicate_watchlist_item
  add-Distinct now id user_id watchlist_id exchange symbol db idem h =
      let existing = filter (λ i. str_eq i.watchlist_id watchlist_id) db.items in
      let normalized = normalize_symbol symbol in
      let row : WatchlistItemRow = record {
        id = id;
        watchlist_id = watchlist_id;
        exchange = exchange;
        symbol = normalized;
        position = 0;
      } in
      with_owned-Distinct user_id watchlist_id db _ h
        (elim (Option-cases (
          find_duplicate_watchlist_item normalize_symbol to_upper_case existing exchange
            normalized)) [
              | inl nothing ↦
                  let looked : find (λ i. str_eq i.exchange exchange && str_eq i.symbol normalized)
                        existing
                      ≡ none =
                    subst
                      (λ s.
                        find (λ i. str_eq i.exchange exchange && str_eq i.symbol s) existing ≡ none)
                      idem nothing in
                  rw nothing (
                    insert-Distinct row db.items
                      (find-none-any watchlist_id exchange normalized db.items looked) h)
              | inr (item, there) ↦ rw there h
            ])

  bulk_add-Distinct :
      (now : ℕ) (fresh : ℕ → String) (user_id watchlist_id : String) (items : List ItemInput)
      (db : WatchlistDb)
      → Distinct db.items
      → Distinct
          (bulk_add_watchlist_items normalize_symbol to_upper_case now fresh user_id watchlist_id
            items db).1.items
  unfolding bulk_add_watchlist_items
  bulk_add-Distinct now fresh user_id watchlist_id items db h =
      let unique_items =
        unique_from [] (map (normalized_item normalize_symbol to_upper_case) items) in
      let rows = insert_all fresh watchlist_id 0 unique_items db.items in
      let distinct = insert_all-Distinct fresh watchlist_id 0 unique_items db.items h in
      with_owned-Distinct user_id watchlist_id db _ h
        (added-cases (length rows - length db.items) _ _ distinct distinct)

  -- Where normalizing twice is normalizing once, no request makes a watchlist hold an exchange and symbol twice.
  pub serve-Distinct :
      (now : ℕ) (user_id id : String) (request : Request) (db : WatchlistDb)
      → ((symbol : String) → normalize_symbol (normalize_symbol symbol) ≡ normalize_symbol symbol)
      → Distinct db.items
      → Distinct (serve normalize_symbol to_upper_case now user_id id request db).1.items
  unfolding rename_watchlist delete_watchlist remove_watchlist_item
  serve-Distinct now user_id id (rename name) db idem h = with_owned-Distinct user_id id db _ h h
  serve-Distinct now user_id id delete db idem h =
      with_owned-Distinct user_id id db _ h
        (filter-Distinct (λ i. not (str_eq i.watchlist_id id)) db.items h)
  serve-Distinct now user_id id (remove item_id) db idem h =
      with_owned-Distinct user_id id db _ h
        (elim (Option-cases (find (λ i. str_eq i.id item_id) db.items)) [
          | inl nothing ↦ rw nothing h
          | inr (existing, there) ↦ rw there (
              if-cases (not (str_eq existing.watchlist_id id)) _ _ h
                (filter-Distinct (λ i. not (str_eq i.id item_id)) db.items h))
        ])
  serve-Distinct now user_id id (add item_id exchange symbol) db idem h =
      add-Distinct now item_id user_id id exchange symbol db (idem symbol) h
  serve-Distinct now user_id id (bulk_add fresh items) db idem h =
      bulk_add-Distinct now fresh user_id id items db h
