-- ===== src/Provider/Lease.antt =====
-- src/modules/data-provider/adapters/global-datafeeds/global-datafeeds.session-broker.ts: which process
-- holds the only session. Redis is a parameter with the documented behaviour of its commands.
use stock_harvesting_backend.Prelude.{
  ℕ, ◌+◌, ◌*◌, ◌≡◌, ◌≤◌, ◌<◌, String, Bool, true, false, Option, none, some, str_eq, if◌then◌else◌,
}

-- One key of Redis: reading it at a time, `SET … EX ttl NX`, `EXPIRE` and `DEL`.
pub record LeaseStore (S : Type 0) : Type 0 where
  pub get : ℕ → S → Option String
  pub set_nx : ℕ → String → ℕ → S → Bool × S
  pub expire : ℕ → ℕ → S → S
  pub del : S → S
  -- `NX` writes nothing where the key is there, and otherwise the key holds the value until the time to live is over.
  pub set_nx-taken :
      (now ttl : ℕ) (v w : String) (s : S) → get now s ≡ some w → set_nx now v ttl s ≡ (false, s)
  pub set_nx-free :
      (now ttl t : ℕ) (v : String) (s : S)
      → get now s ≡ none
      → now ≤ t
      → t < now + ttl
      → get t (set_nx now v ttl s).1 ≡ some v
  pub set_nx-sets :
      (now ttl : ℕ) (v : String) (s : S) → get now s ≡ none → (set_nx now v ttl s).0 ≡ true
  -- `EXPIRE` keeps the value of a key that is there for the time to live.
  pub expire-live :
      (now ttl t : ℕ) (v : String) (s : S)
      → get now s ≡ some v
      → now ≤ t
      → t < now + ttl
      → get t (expire now ttl s) ≡ some v

abbrev pub gdf_lease_ttl_ms : ℕ
gdf_lease_ttl_ms = 15 * 1000

abbrev pub gdf_lease_renew_interval_ms : ℕ
gdf_lease_renew_interval_ms = 5000

-- A process's broker: whether it takes itself for the owner, whether it stopped, whether its socket may be
-- open (`setRemoteTransport(null)`), and when its last check of the lease succeeded, which only the proofs read.
pub record GdfSessionBroker : Type 0 where
  pub owner : Bool
  pub stopped : Bool
  pub direct : Bool
  pub renewed_at : ℕ

abbrev pub become_owner : ℕ → GdfSessionBroker → GdfSessionBroker
become_owner now b =
    if b.owner then b else record b { owner = true; direct = true; renewed_at = now }

abbrev pub become_proxy : GdfSessionBroker → GdfSessionBroker
become_proxy b = record b { owner = false; direct = false }

-- What Redis holds of a text: the comparison `redis.call('get', KEYS[1]) == ARGV[1]`.
abbrev pub holds : String → Option String → Bool
holds id none = false
holds id (some v) = str_eq v id

module _ {S : Type 0} (redis : LeaseStore S) where
  -- RENEW_SCRIPT
  unfoldable pub renew : ℕ → String → S → Bool × S
  renew now id s =
      if holds id (redis.get now s) then (true, redis.expire now gdf_lease_ttl_ms s) else (false, s)

  -- RELEASE_SCRIPT
  unfoldable pub release : ℕ → String → S → S
  release now id s = if holds id (redis.get now s) then redis.del s else s

  abbrev renewed : ℕ → GdfSessionBroker → Bool × S → GdfSessionBroker × S
  renewed now b (true, s) = (record b { renewed_at = now }, s)
  renewed now b (false, s) = (become_proxy b, s)

  abbrev acquired : ℕ → GdfSessionBroker → Bool × S → GdfSessionBroker × S
  acquired now b (true, s) = (become_owner now b, s)
  acquired now b (false, s) = (b, s)

  unfoldable pub try_lease : ℕ → String → GdfSessionBroker → S → GdfSessionBroker × S
  unfolding renew
  try_lease now id b s =
      if b.stopped
      then (b, s)
      else if b.owner
      then renewed now b (renew now id s)
      else acquired now b (redis.set_nx now id gdf_lease_ttl_ms s)

  unfoldable pub stop : ℕ → String → GdfSessionBroker → S → GdfSessionBroker × S
  unfolding release
  stop now id b s = (
    record b { owner = false; direct = true; stopped = true },
    if b.owner then release now id s else s,
  )
