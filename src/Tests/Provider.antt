-- ===== src/Tests/Provider.antt =====
-- The gate and the lease at concrete times.
use stock_harvesting_backend.Prelude.{
  ℕ, ◌+◌, ◌*◌, ◌≤◌, ◌<◌, ◌≡◌, refl, String, Bool, true, false, [], ◌∷◌, Option, none, some, length,
  filter, ltb, if◌then◌else◌, arith,
}
use stock_harvesting_backend.Provider.Gate.{
  new_gate, assert_allowed, pass, recent, interval_ms, hour_ms,
}
use stock_harvesting_backend.Provider.Cooldown.{refused, succeeded, handle_all, handle_all-unblocks}
use stock_harvesting_backend.Provider.Quota.{
  try_all, register_call-quota, Spaced, send_times, reserve_delay_ms-Spaced,
}
use stock_harvesting_backend.Provider.Lease.{LeaseStore, GdfSessionBroker}
use stock_harvesting_backend.Provider.Exclusion.{World, after_try}

handle_all-unblocks_example :
    assert_allowed 2000000
      (handle_all (refused 100 ∷ succeeded 150 ∷ refused 200 ∷ []) (new_gate 60))
    ≡ pass
handle_all-unblocks_example =
    handle_all-unblocks (refused 100 ∷ succeeded 150 ∷ refused 200 ∷ []) (new_gate 60) 200 2000000
      (omega arith, (omega arith, (omega arith, tt))) (omega arith) (omega arith)

register_call-quota_example :
    length (filter (recent 5000) (try_all (1000 ∷ 2000 ∷ 3000 ∷ []) (new_gate 2, [])).1) ≤ 2
register_call-quota_example =
    register_call-quota 2 5000 (1000 ∷ 2000 ∷ 3000 ∷ []) (omega arith)
      (omega arith, (omega arith, (omega arith, omega arith)))

reserve_delay_ms-Spaced_example :
    Spaced (interval_ms 60) 0 (send_times (1000 ∷ 1001 ∷ []) (new_gate 60))
    × (hour_ms ≤ 60 * interval_ms 60)
reserve_delay_ms-Spaced_example =
    reserve_delay_ms-Spaced (1000 ∷ 1001 ∷ []) (new_gate 60) (omega arith)

-- A key with its value and the time at which it expires.
abbrev Entry : Type 0
Entry = Option (String × ℕ)

abbrev read : ℕ → Entry → Option String
read now none = none
read now (some (v, expires)) = if ltb now expires then some v else none

abbrev write : ℕ → String → ℕ → Entry → Option String → Bool × Entry
write now v ttl s none = (true, some (v, now + ttl))
write now v ttl s (some w) = (false, s)

abbrev prolong : ℕ → ℕ → Entry → Entry
prolong now ttl none = none
prolong now ttl (some (v, expires)) =
    if ltb now expires then some (v, now + ttl) else some (v, expires)

prolong-live :
    (now ttl t : ℕ) (v : String) (s : Entry)
    → read now s ≡ some v
    → now ≤ t
    → t < now + ttl
    → read t (prolong now ttl s) ≡ some v
prolong-live now ttl t v none h from until = cc
prolong-live now ttl t v (some (w, expires)) h from until = ground arith

write-free :
    (now ttl t : ℕ) (v : String) (s : Entry) (found : Option String)
    → found ≡ none
    → now ≤ t
    → t < now + ttl
    → read t (write now v ttl s found).1 ≡ some v
write-free now ttl t v s none h from until = ground arith
write-free now ttl t v s (some w) h from until = cc

write-taken :
    (now ttl : ℕ) (v w : String) (s : Entry) (found : Option String)
    → found ≡ some w
    → write now v ttl s found ≡ (false, s)
write-taken now ttl v w s none h = cc
write-taken now ttl v w s (some x) h = refl

write-sets :
    (now ttl : ℕ) (v : String) (s : Entry) (found : Option String)
    → found ≡ none
    → (write now v ttl s found).0 ≡ true
write-sets now ttl v s none h = refl
write-sets now ttl v s (some x) h = cc

abbrev memory : LeaseStore Entry
memory = record {
  get = read;
  set_nx = λ now v ttl s. write now v ttl s (read now s);
  expire = prolong;
  del = λ s. none;
  set_nx-taken = λ now ttl v w s h. write-taken now ttl v w s (read now s) h;
  set_nx-free = λ now ttl t v s h from until. write-free now ttl t v s (read now s) h from until;
  set_nx-sets = λ now ttl v s h. write-sets now ttl v s (read now s) h;
  expire-live = prolong-live;
}

abbrev idle : GdfSessionBroker
idle = record { owner = false; stopped = false; direct = false; renewed_at = 0 }

abbrev begin : World memory
begin = record { now = 1000; brokers = λ id. idle; store = none }

-- The worker takes the lease, and the other worker tries it.
abbrev later_world : World memory
later_world = after_try memory "w2" (after_try memory "w1" begin)
