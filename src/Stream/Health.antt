-- ===== src/Stream/Health.antt =====
-- src/modules/market-stream/market-stream.provider-health.ts and market-stream.capabilities.ts: what is known of the
-- providers. Instants are milliseconds.
use stock_harvesting_backend.Prelude.{
  ℕ, ◌+◌, ◌*◌, String, List, [], ◌∷◌, Option, none, some, Bool, true, false, ◌&&◌, ◌||◌, ltb,
  str_eq, ap, if◌then◌else◌, ◌≡◌, refl, Bool-cases, inl, inr,
}
use text.Mathlib.TextPositions.{eq_refl}

-- `${provider}:${exchange ?? ""}`, as its two parts.
abbrev pub is_entry : {A : Type 0} → String → String → (String × String) × A → Bool
is_entry provider exchange entry = str_eq entry.0.0 provider && str_eq entry.0.1 exchange

abbrev pub get_entry : {A : Type 0} → String → String → List ((String × String) × A) → Option A
get_entry provider exchange [] = none
get_entry provider exchange (entry ∷ entries) =
    if is_entry provider exchange entry then some entry.1 else get_entry provider exchange entries

abbrev pub set_entry :
    {A : Type 0} → String → String → A → List ((String × String) × A) → List ((String × String) × A)
set_entry provider exchange a [] = ((provider, exchange), a) ∷ []
set_entry provider exchange a (entry ∷ entries) =
    if is_entry provider exchange entry
    then ((provider, exchange), a) ∷ entries
    else entry ∷ set_entry provider exchange a entries

pub record ProviderHealth : Type 0 where
  pub connected : Bool
  pub last_message_time : Option ℕ
  pub active_subscriptions : ℕ
  pub current_day_candles_in_memory : ℕ
  pub last_error : Option String

abbrev pub HealthMap : Type 0
HealthMap = List ((String × String) × ProviderHealth)

-- What is assumed of a provider that nothing was heard of.
abbrev pub unknown_health : Bool → ProviderHealth
unknown_health connected = record {
  connected = connected;
  last_message_time = none;
  active_subscriptions = 0;
  current_day_candles_in_memory = 0;
  last_error = none;
}

abbrev pub health_or : Bool → Option ProviderHealth → ProviderHealth
health_or connected none = unknown_health connected
health_or connected (some health) = health

abbrev pub or_current : Option String → Option String → Option String
or_current none current = current
or_current (some message) current = some message

unfoldable pub update_provider_connection :
    String → String → Bool → Option String → HealthMap → HealthMap
update_provider_connection provider exchange connected message map =
    let current = health_or connected (get_entry provider exchange map) in
    set_entry provider exchange
      (record current {
        connected = connected;
        last_error = if connected then none else or_current message current.last_error;
      })
      map

unfoldable pub update_provider_last_message : String → String → ℕ → HealthMap → HealthMap
update_provider_last_message provider exchange time map =
    let current = health_or true (get_entry provider exchange map) in
    set_entry provider exchange (record current { last_message_time = some time }) map

unfoldable pub update_provider_subscriptions : String → String → ℕ → HealthMap → HealthMap
update_provider_subscriptions provider exchange subscriptions map =
    let current = health_or false (get_entry provider exchange map) in
    set_entry provider exchange (record current { active_subscriptions = subscriptions }) map

pub data CapabilityStatus : Type 0 where
  available unavailable unknown : CapabilityStatus

abbrev pub is_unavailable : CapabilityStatus → Bool
is_unavailable available = false
is_unavailable unavailable = true
is_unavailable unknown = false

pub record CapabilityState : Type 0 where
  pub realtime : CapabilityStatus
  pub current_day_candle : CapabilityStatus
  pub completed_daily_history : CapabilityStatus
  pub reason : Option String
  pub last_checked_at : Option ℕ
  pub retry_after : Option ℕ

abbrev pub CapabilityMap : Type 0
CapabilityMap = List ((String × String) × CapabilityState)

abbrev pub default_state : CapabilityState
default_state = record {
  realtime = unknown;
  current_day_candle = unknown;
  completed_daily_history = available;
  reason = none;
  last_checked_at = none;
  retry_after = none;
}

abbrev pub or_default : Option CapabilityState → CapabilityState
or_default none = default_state
or_default (some state) = state

unfoldable pub get_provider_capability_state : String → String → CapabilityMap → CapabilityState
get_provider_capability_state provider exchange map = or_default (get_entry provider exchange map)

unfoldable pub mark_provider_capability_available :
    ℕ → String → String → CapabilityMap → CapabilityMap
mark_provider_capability_available now provider exchange map =
    set_entry provider exchange
      (record (or_default (get_entry provider exchange map)) {
        realtime = available;
        current_day_candle = available;
        reason = none;
        last_checked_at = some now;
        retry_after = none;
      })
      map

abbrev pub unavailable_cooldown_ms : ℕ
unavailable_cooldown_ms = 10 * 60000

abbrev pub cooldown_or_default : Option ℕ → ℕ
cooldown_or_default none = unavailable_cooldown_ms
cooldown_or_default (some ms) = ms

unfoldable pub mark_provider_capability_unavailable :
    ℕ → String → String → String → Option ℕ → CapabilityMap → CapabilityMap
mark_provider_capability_unavailable now provider exchange reason cooldown map =
    set_entry provider exchange
      (record (or_default (get_entry provider exchange map)) {
        realtime = unavailable;
        current_day_candle = unavailable;
        reason = some reason;
        last_checked_at = some now;
        retry_after = some (now + cooldown_or_default cooldown);
      })
      map

abbrev pub is_later : Option ℕ → ℕ → Bool
is_later none now = false
is_later (some t) now = ltb now t

abbrev pub is_cooling : CapabilityState → ℕ → Bool
is_cooling state now =
    (is_unavailable state.realtime || is_unavailable state.current_day_candle)
    && is_later state.retry_after now

unfoldable pub is_provider_capability_cooling_down : ℕ → String → String → CapabilityMap → Bool
unfolding get_provider_capability_state
is_provider_capability_cooling_down now provider exchange map =
    is_cooling (get_provider_capability_state provider exchange map) now

get-set_entry :
    {A : Type 0} (provider exchange : String) (a : A) (entries : List ((String × String) × A))
    → get_entry provider exchange (set_entry provider exchange a entries) ≡ some a
get-set_entry provider exchange a [] = rw (eq_refl provider, eq_refl exchange) refl
get-set_entry provider exchange a (entry ∷ entries) =
    let ih = get-set_entry provider exchange a entries in
    elim (Bool-cases (is_entry provider exchange entry)) [
      | inl on ↦ rw on (rw (eq_refl provider, eq_refl exchange) refl)
      | inr off ↦ rw off (rw off ih)
    ]

-- A capability that is marked as unavailable cools down until the given time after the mark, ten minutes where none is
-- given, and no longer; one that is marked as available afterwards does not cool down at all.
pub is_provider_capability_cooling_down_lem :
    (now later at : ℕ) (provider exchange reason : String) (cooldown : Option ℕ)
    (map : CapabilityMap)
    → let marked = mark_provider_capability_unavailable now provider exchange reason cooldown map in
      (is_provider_capability_cooling_down later provider exchange marked
        ≡ ltb later (now + cooldown_or_default cooldown))
      × (is_provider_capability_cooling_down later provider exchange
            (mark_provider_capability_available at provider exchange marked)
          ≡ false)
unfolding is_provider_capability_cooling_down get_provider_capability_state
    mark_provider_capability_unavailable mark_provider_capability_available
is_provider_capability_cooling_down_lem now later at provider exchange reason cooldown map = (
  ap (λ o. is_cooling (or_default o) later) (get-set_entry provider exchange _ map),
  ap (λ o. is_cooling (or_default o) later) (get-set_entry provider exchange _ _),
)
