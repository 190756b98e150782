-- ===== src/Collections/Import.antt =====
-- The import of a collection's members, src/modules/market-collections/market-collections.service.ts. The batches of 500
-- rows are written as one; ids of new rows and the clock are arguments. Caches and the audit log are left out.
use stock_harvesting_backend.Prelude.{
  ℕ, String, List, [], ◌∷◌, ◌++◌, Option, none, some, Bool, true, false, not, ◌&&◌, ◌||◌, ◌==◌, ltb,
  leb, min, str_eq, any, find, filter, map, length, if◌then◌else◌,
}
use stock_harvesting_backend.Database.Tables.{update_where, delete_where, insert_row}
use stock_harvesting_backend.Database.Transactions.{Result, ok, err, Transactions}
use stock_harvesting_backend.Market.Universe.{InstrumentRow}
use stock_harvesting_backend.Collections.Parse.{Texts, Parsed, parse_collection_csv}

pub record CollectionRow : Type 0 where
  pub id : String
  pub code : String
  pub name : String
  pub exchange : String
  pub active : Bool
  pub source_name : Option String
  pub source_date : Option ℕ
  pub preparation_status : String
  pub latest_membership_version_id : Option String
  pub updated_at : ℕ

pub record MemberRow : Type 0 where
  pub collection_id : String
  pub instrument_id : String
  pub active : Bool

pub record MembershipVersion : Type 0 where
  pub id : String
  pub collection_id : String
  pub effective_from : ℕ
  pub member_count : ℕ

pub record VersionMember : Type 0 where
  pub version_id : String
  pub instrument_id : String
  pub symbol : String

pub record BacktestRun : Type 0 where
  pub collection_id : String
  pub membership_mode : String
  pub week_ending : ℕ

pub record CollectionDb : Type 0 where
  pub instruments : List InstrumentRow
  pub collections : List CollectionRow
  pub members : List MemberRow
  pub versions : List MembershipVersion
  pub version_members : List VersionMember
  pub backtest_runs : List BacktestRun

pub data MemberStatus : Type 0 where
  new already_active reactivate : MemberStatus

abbrev pub is_new : MemberStatus → Bool
is_new new = true
is_new already_active = false
is_new reactivate = false

abbrev pub is_reactivate : MemberStatus → Bool
is_reactivate new = false
is_reactivate already_active = false
is_reactivate reactivate = true

abbrev pub is_already_active : MemberStatus → Bool
is_already_active new = false
is_already_active already_active = true
is_already_active reactivate = false

pub record Matched : Type 0 where
  pub symbol : String
  pub instrument_id : String
  pub status : MemberStatus

pub record ImportReport : Type 0 where
  pub matched : List Matched
  pub unmatched : List String
  pub duplicate : List String
  pub invalid : List String
  pub to_deactivate : List String

abbrev pub is_listed : String → String → InstrumentRow → Bool
is_listed exchange symbol i = str_eq i.exchange exchange && str_eq i.symbol symbol

-- The status of an instrument among the members of a collection.
unfoldable pub member_status : List MemberRow → String → MemberStatus
member_status members instrument_id =
    if any (λ m. str_eq m.instrument_id instrument_id && m.active) members
    then already_active
    else if any (λ m. str_eq m.instrument_id instrument_id) members
    then reactivate
    else new

abbrev pub add_match : List MemberRow → String → Option InstrumentRow → List Matched → List Matched
add_match members symbol none matched = matched
add_match members symbol (some i) matched =
    (record { symbol = symbol; instrument_id = i.id; status = member_status members i.id })
    ∷ matched

abbrev pub match_symbols : List InstrumentRow → String → List MemberRow → List String → List Matched
match_symbols instruments exchange members [] = []
match_symbols instruments exchange members (symbol ∷ symbols) =
    add_match members symbol (find (is_listed exchange symbol) instruments)
      (match_symbols instruments exchange members symbols)

abbrev pub is_matched : List Matched → String → Bool
is_matched matched instrument_id = any (λ r. str_eq r.instrument_id instrument_id) matched

-- The rows of a collection; one that does not exist yet has none.
abbrev pub members_of : Option String → List MemberRow → List MemberRow
members_of none members = []
members_of (some id) members = filter (λ m. str_eq m.collection_id id) members

-- The members that the file no longer has, by their instruments.
abbrev pub dropped_members : List Matched → List MemberRow → List String
dropped_members matched members =
    map (λ m. m.instrument_id)
      (filter (λ m. m.active && not (is_matched matched m.instrument_id)) members)

unfoldable pub classify_parsed : Option String → String → Parsed → CollectionDb → ImportReport
unfolding member_status
classify_parsed id exchange parsed db =
    let current = members_of id db.members in
    let matched = match_symbols db.instruments exchange current parsed.candidate_symbols in
    record {
      matched = matched;
      unmatched =
          filter (λ s. not (any (is_listed exchange s) db.instruments)) parsed.candidate_symbols;
      duplicate = parsed.duplicates;
      invalid = parsed.invalid;
      to_deactivate = dropped_members matched current;
    }

abbrev pub classify_collection_import :
    Texts → Option String → String → String → CollectionDb → ImportReport
classify_collection_import texts id exchange csv db =
    classify_parsed id exchange (parse_collection_csv texts csv) db

abbrev pub is_member : String → String → MemberRow → Bool
is_member collection_id instrument_id m =
    str_eq m.collection_id collection_id && str_eq m.instrument_id instrument_id

abbrev pub activate : MemberRow → MemberRow
activate m = record m { active = true }

-- `insert … on conflict do update`, one row.
abbrev pub upsert_member : String → String → List MemberRow → List MemberRow
upsert_member collection_id instrument_id members =
    if any (is_member collection_id instrument_id) members
    then update_where (is_member collection_id instrument_id) activate members
    else insert_row
        (record { collection_id = collection_id; instrument_id = instrument_id; active = true })
        members

unfoldable pub upsert_matched_collection_members :
    String → List Matched → List MemberRow → List MemberRow
upsert_matched_collection_members collection_id [] members = members
upsert_matched_collection_members collection_id (r ∷ matched) members =
    upsert_matched_collection_members collection_id matched (
      if is_already_active r.status
      then members
      else upsert_member collection_id r.instrument_id members)

unfoldable pub deactivate_collection_members :
    String → List String → List MemberRow → List MemberRow
deactivate_collection_members collection_id instrument_ids members =
    update_where
      (λ m. str_eq m.collection_id collection_id && any (str_eq m.instrument_id) instrument_ids)
      (λ m. record m { active = false }) members

pub data ImportError : Type 0 where
  collection_not_found code_taken version_exists : ImportError

pub record ImportInput : Type 0 where
  pub source_name : Option String
  pub source_date : Option ℕ
  pub effective_from : ℕ

abbrev pub changes_membership : ImportReport → Bool
changes_membership report =
    any (λ r. is_new r.status || is_reactivate r.status) report.matched
    || ltb 0 (length report.to_deactivate)

abbrev pub is_run_in : String → String → BacktestRun → Bool
is_run_in collection_id mode run =
    str_eq run.collection_id collection_id && str_eq run.membership_mode mode

abbrev pub earlier_of : ℕ → Option ℕ → Option ℕ
earlier_of a none = some a
earlier_of a (some b) = some (min a b)

-- The start of the version that follows a date, if one does.
abbrev pub next_version : String → ℕ → List MembershipVersion → Option ℕ
next_version collection_id date [] = none
next_version collection_id date (v ∷ versions) =
    if str_eq v.collection_id collection_id && ltb date v.effective_from
    then earlier_of v.effective_from (next_version collection_id date versions)
    else next_version collection_id date versions

abbrev pub is_before_next : Option ℕ → ℕ → Bool
is_before_next none week = true
is_before_next (some next) week = ltb week next

-- A historical run that the new version takes over.
abbrev pub is_superseded : String → ℕ → Option ℕ → BacktestRun → Bool
is_superseded collection_id effective_from next run =
    is_run_in collection_id "historical_membership" run
    && (leb effective_from run.week_ending && is_before_next next run.week_ending)

abbrev pub or_kept : {A : Type 0} → Option A → Option A → Option A
or_kept none kept = kept
or_kept (some a) kept = some a

abbrev pub note_import : ℕ → ImportInput → String → CollectionRow → CollectionRow
note_import now input version_id c = record c {
  source_name = or_kept input.source_name c.source_name;
  source_date = or_kept input.source_date c.source_date;
  preparation_status = "pending";
  latest_membership_version_id = some version_id;
  updated_at = now;
}

abbrev pub version_member : String → Matched → VersionMember
version_member version_id r = record {
  version_id = version_id;
  instrument_id = r.instrument_id;
  symbol = r.symbol;
}

-- The runs that an import leaves.
abbrev pub kept_runs :
    String
    → ImportInput
    → ImportReport
    → List MembershipVersion
    → List BacktestRun
    → List BacktestRun
kept_runs collection_id input report versions runs =
    let current =
      if changes_membership report
      then delete_where (is_run_in collection_id "current_membership") runs
      else runs in
    delete_where
      (is_superseded collection_id input.effective_from
        (next_version collection_id input.effective_from versions))
      current

-- The writes of an import of a collection that is there.
unfoldable pub import_into :
    ℕ
    → String
    → ImportInput
    → ImportReport
    → String
    → CollectionDb
    → Result ImportError String × CollectionDb
unfolding upsert_matched_collection_members deactivate_collection_members
import_into now version_id input report collection_id db =
    if any (λ v. str_eq v.collection_id collection_id && (v.effective_from == input.effective_from))
      db.versions
    then (err version_exists, db)
    else (
      ok version_id,
      record db {
        collections =
            update_where (λ c. str_eq c.id collection_id) (note_import now input version_id)
              db.collections;
        members =
            deactivate_collection_members collection_id report.to_deactivate
              (upsert_matched_collection_members collection_id report.matched db.members);
        versions =
            insert_row
              (record {
                id = version_id;
                collection_id = collection_id;
                effective_from = input.effective_from;
                member_count = length report.matched;
              })
              db.versions;
        version_members = db.version_members ++ map (version_member version_id) report.matched;
        backtest_runs = kept_runs collection_id input report db.versions db.backtest_runs;
      },
    )

abbrev pub import_existing :
    Transactions CollectionDb ImportError String
    → Texts
    → ℕ
    → String
    → Option CollectionRow
    → String
    → ImportInput
    → CollectionDb
    → Result ImportError String × CollectionDb
import_existing tx texts now version_id none csv input db = (err collection_not_found, db)
import_existing tx texts now version_id (some c) csv input db =
    let report = classify_collection_import texts (some c.id) c.exchange csv db in
    tx.run (import_into now version_id input report c.id) db

-- The import of a file into the collection with an id.
unfoldable pub import_collection_csv :
    Transactions CollectionDb ImportError String
    → Texts
    → ℕ
    → String
    → String
    → String
    → ImportInput
    → CollectionDb
    → Result ImportError String × CollectionDb
unfolding import_into classify_parsed
import_collection_csv tx texts now version_id id csv input db =
    import_existing tx texts now version_id (find (λ c. str_eq c.id id) db.collections) csv input db

pub record NewCollection : Type 0 where
  pub code : String
  pub name : String
  pub exchange : String

abbrev pub new_collection : (String → String) → ℕ → String → NewCollection → CollectionRow
new_collection trim_upper now id input = record {
  id = id;
  code = trim_upper input.code;
  name = input.name;
  exchange = input.exchange;
  active = true;
  source_name = none;
  source_date = none;
  preparation_status = "pending";
  latest_membership_version_id = none;
  updated_at = now;
}

abbrev pub has_code : String → String → CollectionRow → Bool
has_code exchange code c = str_eq c.exchange exchange && str_eq c.code code

-- The import that creates its collection: both are one transaction.
unfoldable pub create_and_import :
    ℕ
    → String
    → ImportInput
    → ImportReport
    → CollectionRow
    → CollectionDb
    → Result ImportError String × CollectionDb
unfolding import_into
create_and_import now version_id input report created db =
    if any (has_code created.exchange created.code) db.collections
    then (err code_taken, db)
    else import_into now version_id input report created.id
        (record db { collections = insert_row created db.collections })

unfoldable pub import_new_collection :
    Transactions CollectionDb ImportError String
    → Texts
    → ℕ
    → String
    → String
    → NewCollection
    → String
    → ImportInput
    → CollectionDb
    → Result ImportError String × CollectionDb
unfolding create_and_import classify_parsed
import_new_collection tx texts now id version_id new_input csv input db =
    let report = classify_collection_import texts none new_input.exchange csv db in
    tx.run
      (create_and_import now version_id input report
        (new_collection texts.trim_upper now id new_input))
      db

abbrev pub create_by :
    Bool → CollectionRow → CollectionDb → Result ImportError String × CollectionDb
create_by true created db = (err code_taken, db)
create_by false created db =
    (ok created.id, record db { collections = insert_row created db.collections })

unfoldable pub create_collection :
    (String → String)
    → ℕ
    → String
    → NewCollection
    → CollectionDb
    → Result ImportError String × CollectionDb
create_collection trim_upper now id input db =
    let created = new_collection trim_upper now id input in
    create_by (any (has_code created.exchange created.code) db.collections) created db
