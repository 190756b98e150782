-- ===== src/Provider/Gate.antt =====
-- src/modules/data-provider/adapters/global-datafeeds/global-datafeeds.rate-limit.ts. A method takes the
-- gate and the clock, and returns its answer and the gate it leaves; times are milliseconds.
use stock_harvesting_backend.Prelude.{
  ℕ, ◌+◌, ◌-◌, ◌*◌, ◌/◌, ◌^◌, min, max, Bool, List, [], ◌∷◌, ◌++◌, get_or, leb, ltb, filter, length,
  if◌then◌else◌,
}

abbrev pub gdf_rate_limit_base_cooldown_ms : ℕ
gdf_rate_limit_base_cooldown_ms = 5 * 60000

abbrev pub gdf_rate_limit_max_cooldown_ms : ℕ
gdf_rate_limit_max_cooldown_ms = 30 * 60000

abbrev pub hour_ms : ℕ
hour_ms = 60 * 60000

pub record GdfCallGate : Type 0 where
  pub max_calls_per_hour : ℕ
  pub blocked_until : ℕ
  pub hits : ℕ
  pub calls : List ℕ
  pub next_call_at : ℕ

-- A call is let through, or refused with the time to wait.
pub data Answer : Type 0 where
  pass : Answer
  rate_limited : ℕ → Answer

-- `new GdfCallGate(maxCallsPerHour)`
abbrev pub new_gate : ℕ → GdfCallGate
new_gate max_calls = record {
  max_calls_per_hour = max_calls;
  blocked_until = 0;
  hits = 0;
  calls = [];
  next_call_at = 0;
}

unfoldable pub assert_allowed : ℕ → GdfCallGate → Answer
assert_allowed now gate =
    if ltb now gate.blocked_until then rate_limited (gate.blocked_until - now) else pass

-- `Math.ceil(HOUR_MS / maxCallsPerHour)`
abbrev pub interval_ms : ℕ → ℕ
interval_ms max_calls = (hour_ms + (max_calls - 1)) / max_calls

unfoldable pub reserve_delay_ms : ℕ → GdfCallGate → ℕ × GdfCallGate
reserve_delay_ms now gate = if leb gate.max_calls_per_hour 0 then (0, gate) else (
  max now gate.next_call_at - now,
  record gate { next_call_at = max now gate.next_call_at + interval_ms gate.max_calls_per_hour },
)

-- `now - time < HOUR_MS`
abbrev pub recent : ℕ → ℕ → Bool
recent now time = ltb (now - time) hour_ms

unfoldable pub register_call : ℕ → GdfCallGate → Answer × GdfCallGate
register_call now gate =
    let calls = filter (recent now) gate.calls in
    if leb gate.max_calls_per_hour 0
    then (pass, gate)
    else if leb gate.max_calls_per_hour (length calls)
    then (rate_limited (get_or calls 0 0 + hour_ms - now), record gate { calls = calls })
    else (pass, record gate { calls = calls ++ now ∷ [] })

-- The wait after a number of refusals in a row, the first counted as none before it.
abbrev pub cooldown_ms : ℕ → ℕ
cooldown_ms before =
    min (gdf_rate_limit_base_cooldown_ms * 2 ^ before) gdf_rate_limit_max_cooldown_ms

unfoldable pub on_rate_limited : ℕ → GdfCallGate → Answer × GdfCallGate
on_rate_limited now gate =
    if ltb now gate.blocked_until then (rate_limited (gate.blocked_until - now), gate) else (
      rate_limited (cooldown_ms gate.hits),
      record gate { hits = gate.hits + 1; blocked_until = now + cooldown_ms gate.hits },
    )

unfoldable pub on_success : GdfCallGate → GdfCallGate
on_success gate = record gate { hits = 0 }
