-- ===== src/Market/Universe.antt =====
-- The routing of src/modules/data-provider/data-provider.registry.ts and data-provider.service.ts, and the processed
-- instruments of src/modules/market-data/market-data.universe.ts.
use stock_harvesting_backend.Prelude.{
  ℕ, String, List, [], ◌∷◌, ◌++◌, Option, none, some, Bool, true, false, ◌&&◌, leb, str_eq, any,
  filter, map, get_elem?, if◌then◌else◌,
}

pub record InstrumentRow : Type 0 where
  pub id : String
  pub provider : String
  pub exchange : String
  pub symbol : String
  pub active : Bool

abbrev pub eodhd : String
eodhd = "eodhd"

abbrev pub global_datafeeds : String
global_datafeeds = "global-datafeeds"

abbrev pub retired_exchange_codes : List String
retired_exchange_codes = "NSE" ∷ "NSE_IDX" ∷ []

abbrev pub provider_by_exchange : List (String × String)
provider_by_exchange = ("BSE", global_datafeeds) ∷ ("BSE_IDX", global_datafeeds) ∷ []

-- A property of an object, or `??` the value beside it.
abbrev pub property_or : String → String → List (String × String) → String
property_or default key [] = default
property_or default key ((k, v) ∷ entries) =
    if str_eq k key then v else property_or default key entries

unfoldable pub get_candidate_provider_keys_for_exchange : String → List String
get_candidate_provider_keys_for_exchange exchange =
    if any (str_eq exchange) retired_exchange_codes
    then []
    else property_or eodhd exchange provider_by_exchange ∷ []

unfoldable pub production_provider_key_for_exchange : String → Option String
unfolding get_candidate_provider_keys_for_exchange
production_provider_key_for_exchange exchange =
    get_elem? (get_candidate_provider_keys_for_exchange exchange) 0

abbrev pub is_provided : String → Option String → InstrumentRow → Bool
is_provided exchange none row = false
is_provided exchange (some key) row =
    str_eq row.exchange exchange && (row.active && str_eq row.provider key)

unfoldable pub active_universe_filter : String → InstrumentRow → Bool
unfolding production_provider_key_for_exchange
active_universe_filter exchange row =
    is_provided exchange (production_provider_key_for_exchange exchange) row

-- What the service reads of a provider: whether it supports the capability, is enabled and ready, and its priority.
pub record ProviderStates : Type 0 where
  pub supports : String → Bool
  pub is_enabled : String → Bool
  pub is_ready : String → Bool
  pub priority : String → ℕ

-- A stable sort by priority.
abbrev pub insert_by_priority : (String → ℕ) → String → List String → List String
insert_by_priority priority key [] = key ∷ []
insert_by_priority priority key (k ∷ keys) =
    if leb (priority key) (priority k)
    then key ∷ k ∷ keys
    else k ∷ insert_by_priority priority key keys

abbrev pub sort_by_priority : (String → ℕ) → List String → List String
sort_by_priority priority [] = []
sort_by_priority priority (key ∷ keys) =
    insert_by_priority priority key (sort_by_priority priority keys)

unfoldable pub resolve_eligible_providers : ProviderStates → String → List String
unfolding get_candidate_provider_keys_for_exchange
resolve_eligible_providers states exchange = sort_by_priority states.priority (
    filter (λ key. states.supports key && (states.is_enabled key && states.is_ready key))
      (get_candidate_provider_keys_for_exchange exchange))

unfoldable pub has_eligible_provider : ProviderStates → String → Bool
unfolding resolve_eligible_providers
has_eligible_provider states exchange = elim (resolve_eligible_providers states exchange) [
  | [] ↦ false
  | key ∷ keys ↦ true
]

-- `productionProviderKeyForExchange(row.exchange) === row.provider`
abbrev pub is_routed : InstrumentRow → Bool
is_routed row = elim (production_provider_key_for_exchange row.exchange) [
  | none ↦ false
  | some key ↦ str_eq key row.provider
]

-- `new Set(…)`: each element once, in the order of first occurrence.
abbrev pub add_unique : List String → List String → List String
add_unique kept [] = kept
add_unique kept (x ∷ xs) =
    if any (str_eq x) kept then add_unique kept xs else add_unique (kept ++ x ∷ []) xs

module _ (sort : List String → List String) (states : ProviderStates) where
  unfoldable pub list_production_exchanges : List InstrumentRow → List String
  unfolding has_eligible_provider production_provider_key_for_exchange
  list_production_exchanges instruments =
      let candidates =
        add_unique []
          (map (λ row. row.exchange) (filter is_routed (filter (λ row. row.active) instruments))) in
      sort (filter (has_eligible_provider states) candidates)

  -- `exchanges.add(exchange)` for each that passes.
  abbrev pub add_where : (String → Bool) → List String → List String → List String
  add_where p exchanges configured = add_unique exchanges (filter p configured)

  abbrev pub is_global_datafeeds_exchange : String → Bool
  is_global_datafeeds_exchange exchange = elim (production_provider_key_for_exchange exchange) [
    | none ↦ false
    | some key ↦ str_eq key global_datafeeds
  ]

  unfoldable pub list_instrument_sync_exchanges : List String → List InstrumentRow → List String
  unfolding list_production_exchanges has_eligible_provider production_provider_key_for_exchange
  list_instrument_sync_exchanges configured instruments = sort (
      add_where (has_eligible_provider states) (list_production_exchanges instruments)
        (filter is_global_datafeeds_exchange configured))

  unfoldable pub is_production_exchange : String → List InstrumentRow → Bool
  unfolding list_production_exchanges
  is_production_exchange exchange instruments =
      any (str_eq exchange) (list_production_exchanges instruments)
