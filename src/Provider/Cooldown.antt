-- ===== src/Provider/Cooldown.antt =====
-- How long the gate blocks after a refusal of the provider.
use stock_harvesting_backend.Prelude.{
  ℕ, zero, suc, ◌+◌, ◌^◌, ◌≡◌, ◌≤◌, ◌↔◌, List, [], ◌∷◌, ltb, if◌then◌else◌, arith,
}
use stock_harvesting_backend.Provider.Gate.{
  GdfCallGate, pass, assert_allowed, on_rate_limited, on_success, cooldown_ms,
  gdf_rate_limit_base_cooldown_ms, gdf_rate_limit_max_cooldown_ms,
}

one_le_pow : (n : ℕ) → 1 ≤ 2 ^ n
one_le_pow zero = ground arith
one_le_pow (suc n) = let ih = one_le_pow n in ground arith

cooldown_ms-bounds :
    (before : ℕ)
    → (gdf_rate_limit_base_cooldown_ms ≤ cooldown_ms before)
      × (cooldown_ms before ≤ gdf_rate_limit_max_cooldown_ms)
cooldown_ms-bounds before = let p = one_le_pow before in (ground arith, ground arith)

-- Replies of the provider and successes, each with its time.
pub data Event : Type 0 where
  refused : ℕ → Event
  succeeded : ℕ → Event

abbrev pub at : Event → ℕ
at (refused now) = now
at (succeeded now) = now

abbrev pub handle : Event → GdfCallGate → GdfCallGate
handle (refused now) gate = (on_rate_limited now gate).1
handle (succeeded now) gate = on_success gate

abbrev pub handle_all : List Event → GdfCallGate → GdfCallGate
handle_all [] gate = gate
handle_all (e ∷ events) gate = handle_all events (handle e gate)

-- The events do not come after `now`.
abbrev pub Until : ℕ → List Event → Type 0
Until now [] = Unit
Until now (e ∷ events) = (at e ≤ now) × Until now events

handle-bounded :
    (e : Event) (gate : GdfCallGate) (now : ℕ)
    → at e ≤ now
    → gate.blocked_until ≤ now + gdf_rate_limit_max_cooldown_ms
    → (handle e gate).blocked_until ≤ now + gdf_rate_limit_max_cooldown_ms
unfolding on_rate_limited on_success
handle-bounded (refused t) gate now before h = let b = cooldown_ms-bounds gate.hits in ground arith
handle-bounded (succeeded t) gate now before h = h

-- Whatever replies came until a time, no call is refused later than the longest cooldown after it.
pub handle_all-unblocks :
    (events : List Event) (gate : GdfCallGate) (now later : ℕ)
    → Until now events
    → gate.blocked_until ≤ now + gdf_rate_limit_max_cooldown_ms
    → now + gdf_rate_limit_max_cooldown_ms ≤ later
    → assert_allowed later (handle_all events gate) ≡ pass
unfolding assert_allowed
handle_all-unblocks [] gate now later before h l = ground arith
handle_all-unblocks (e ∷ events) gate now later before h l =
    handle_all-unblocks events (handle e gate) now later before.1
      (handle-bounded e gate now before.0 h) l

-- The wait that a refusal answers with is the one that a call at the same time is refused with; later calls
-- pass exactly from the end of the block, which a refusal sets only where the gate was open.
pub on_rate_limited_lem :
    (now later : ℕ) (gate : GdfCallGate)
    → ((on_rate_limited now gate).0 ≡ assert_allowed now (on_rate_limited now gate).1)
      × ((assert_allowed later (on_rate_limited now gate).1 ≡ pass) ↔ (
          (if ltb now gate.blocked_until then gate.blocked_until else now + cooldown_ms gate.hits)
          ≤ later))
unfolding on_rate_limited assert_allowed
on_rate_limited_lem now later gate =
    let b = cooldown_ms-bounds gate.hits in (ground arith, ground arith)
