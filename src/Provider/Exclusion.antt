-- ===== src/Provider/Exclusion.antt =====
-- The processes that compete for the session, as steps: at most one of them owns it.
use stock_harvesting_backend.Prelude.{
  ℕ, ◌+◌, ◌≡◌, ◌≤◌, ◌<◌, String, true, some, str_eq, if◌then◌else◌,
}
use stock_harvesting_backend.Provider.Lease.{
  LeaseStore, GdfSessionBroker, gdf_lease_ttl_ms, try_lease, stop,
}

-- A change of the broker of one process.
abbrev pub set_broker :
    String → GdfSessionBroker → (String → GdfSessionBroker) → String → GdfSessionBroker
set_broker id b brokers other = if str_eq other id then b else brokers other

module _ {S : Type 0} (redis : LeaseStore S) where
  pub record World : Type 0 where
    pub now : ℕ
    pub brokers : String → GdfSessionBroker
    pub store : S

  -- Every process that takes itself for the owner has renewed its lease less than the time to live before.
  abbrev pub Prompt : ℕ → (String → GdfSessionBroker) → Type 0
  Prompt now brokers =
      (id : String) → (brokers id).owner ≡ true → now < (brokers id).renewed_at + gdf_lease_ttl_ms

  abbrev pub after_try : String → World → World
  after_try id w =
      let (b, s) = try_lease redis w.now id (w.brokers id) w.store in
      record w { brokers = set_broker id b w.brokers; store = s }

  abbrev pub after_stop : String → World → World
  after_stop id w =
      let (b, s) = stop redis w.now id (w.brokers id) w.store in
      record w { brokers = set_broker id b w.brokers; store = s }

  -- Time passes as far as the renewals are prompt; a process tries the lease; a process stops.
  pub data Step : World → World → Type 0 where
    tick :
        (w : World) (later : ℕ)
        → w.now ≤ later
        → Prompt later w.brokers
        → Step w (record w { now = later })
    tries : (w : World) (id : String) → Step w (after_try id w)
    stops : (w : World) (id : String) → Step w (after_stop id w)

  pub data Steps : World → World → Type 0 where
    stay : (w : World) → Steps w w
    then_step : {a b c : World} → Steps a b → Step b c → Steps a c

  -- The lease of a process has time left, and its key is in Redis until it ends.
  abbrev Lasts : ℕ → String → GdfSessionBroker → S → Type 0
  Lasts now id b s =
      (now < b.renewed_at + gdf_lease_ttl_ms)
      × ((t : ℕ) → now ≤ t → t < b.renewed_at + gdf_lease_ttl_ms → redis.get t s ≡ some id)

  -- An owner's key is in Redis for as long as its lease lasts.
  abbrev Leased : World → Type 0
  Leased w = (id : String) → (w.brokers id).owner ≡ true → Lasts w.now id (w.brokers id) w.store

  -- The lease of a process, taken at a time, in the store after it.
  abbrev Holds : ℕ → String → S → Type 0
  Holds now id s = (t : ℕ) → now ≤ t → t < now + gdf_lease_ttl_ms → redis.get t s ≡ some id
