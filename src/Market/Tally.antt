-- ===== src/Market/Tally.antt =====
-- The counts of a synchronization add up.
use stock_harvesting_backend.Prelude.{
  ℕ, suc, ◌+◌, String, List, [], ◌∷◌, Option, none, length, length-append, ◌≡◌, refl, arith,
  Bool-cases, inl, inr,
}
use stock_harvesting_backend.Market.Summary.{
  SyncStatus, updated, repaired, already_current, bootstrap_required, provider_empty, failed,
  FailureDetail, SyncSummary,
}
use stock_harvesting_backend.Market.Sync.{
  Outcome, returned, rate_limited, threw, SyncState, start_state, add_failure, count_status,
  begin_symbol, settle_symbol, begins, settles, SyncSteps, rest, then_step, failure_reason,
}

-- The symbols that are counted by their status.
abbrev pub settled : SyncSummary → ℕ
settled s =
    s.updated_count
    + s.repaired_count
    + s.already_current_count
    + (s.bootstrap_required_count + s.provider_empty_count + s.failed_count)

-- Each symbol that was taken is counted by its status or on its way, and the lists have the lengths of their counts.
abbrev pub IsTallied : SyncState → Type 0
IsTallied state =
    (state.summary.processed ≡ settled state.summary + state.in_flight)
    × (length state.summary.failed_symbols ≡ state.summary.failed_count)
    × (length state.summary.failed_details ≡ state.summary.failed_count)
    × (length state.summary.provider_empty_symbols ≡ state.summary.provider_empty_count)

begin-IsTallied : (state : SyncState) → IsTallied state → IsTallied (begin_symbol state)
unfolding begin_symbol
begin-IsTallied state tallied = elim (Bool-cases state.limit) [
  | inl on ↦ rw on tallied
  | inr off ↦ rw off (omega (arith, tallied.0), tallied.1, tallied.2, tallied.3)
]

module _ (gap : List ℕ → String) (symbol : String) where
  failure-IsTallied :
      (id : Option String) (reason : String) (state : SyncState) (others : ℕ)
      → state.in_flight ≡ suc others
      → IsTallied state
      → IsTallied (record state {
        in_flight = others;
        summary = add_failure id symbol reason state.summary;
      })
  failure-IsTallied id reason state others flight tallied =
      let s = state.summary in
      let detail : FailureDetail = record {
        instrument_id = id;
        symbol = symbol;
        reason = reason;
      } in
      let longer = length-append s.failed_symbols (symbol ∷ []) in
      let further = length-append s.failed_details (detail ∷ []) in
      (
        omega (arith, tallied.0, flight),
        omega (arith, longer, tallied.1),
        omega (arith, further, tallied.2),
        tallied.3,
      )

  status-IsTallied :
      (id : Option String) (status : SyncStatus) (dates : List ℕ) (state : SyncState) (others : ℕ)
      → state.in_flight ≡ suc others
      → IsTallied state
      → IsTallied (record state {
        in_flight = others;
        summary = count_status gap symbol id status dates state.summary;
      })
  unfolding count_status
  status-IsTallied id updated dates state others flight tallied =
      (omega (arith, tallied.0, flight), tallied.1, tallied.2, tallied.3)
  status-IsTallied id repaired dates state others flight tallied =
      (omega (arith, tallied.0, flight), tallied.1, tallied.2, tallied.3)
  status-IsTallied id already_current dates state others flight tallied =
      (omega (arith, tallied.0, flight), tallied.1, tallied.2, tallied.3)
  status-IsTallied id bootstrap_required dates state others flight tallied =
      (omega (arith, tallied.0, flight), tallied.1, tallied.2, tallied.3)
  status-IsTallied id provider_empty dates state others flight tallied =
      let longer = length-append state.summary.provider_empty_symbols (symbol ∷ []) in
      (omega (arith, tallied.0, flight), tallied.1, tallied.2, omega (arith, longer, tallied.3))
  status-IsTallied id failed dates state others flight tallied =
      failure-IsTallied id (failure_reason gap dates) state others flight tallied

  settle-IsTallied :
      (outcome : Outcome) (state : SyncState) (others : ℕ)
      → state.in_flight ≡ suc others
      → IsTallied state
      → IsTallied (settle_symbol gap symbol outcome (record state { in_flight = others }))
  unfolding settle_symbol
  settle-IsTallied (returned id status dates) state others flight tallied =
      status-IsTallied id status dates state others flight tallied
  settle-IsTallied rate_limited state others flight tallied =
      (omega (arith, tallied.0, flight), tallied.1, tallied.2, tallied.3)
  settle-IsTallied (threw message) state others flight tallied =
      failure-IsTallied none message state others flight tallied

steps-IsTallied :
    (gap : List ℕ → String) {s t : SyncState} → SyncSteps gap s t → IsTallied s → IsTallied t
steps-IsTallied gap (rest s) tallied = tallied
steps-IsTallied gap (then_step steps (begins t)) tallied =
    begin-IsTallied t (steps-IsTallied gap steps tallied)
steps-IsTallied gap (then_step steps (settles symbol outcome t others flight)) tallied =
    settle-IsTallied gap symbol outcome t others flight (steps-IsTallied gap steps tallied)

-- Whatever order the workers' answers come in, once no symbol is on its way the summary counts as processed exactly
-- the symbols with a status, one status each, also where the provider's limit ended the run; a failed symbol has one
-- entry in each list of failures.
pub sync-IsTallied :
    (gap : List ℕ → String) (t : SyncState)
    → SyncSteps gap start_state t
    → t.in_flight ≡ 0
    → (t.summary.processed ≡ settled t.summary)
      × (length t.summary.failed_symbols ≡ t.summary.failed_count)
      × (length t.summary.failed_details ≡ t.summary.failed_count)
      × (length t.summary.provider_empty_symbols ≡ t.summary.provider_empty_count)
sync-IsTallied gap t steps done =
    let tallied = steps-IsTallied gap steps (refl, refl, refl, refl) in
    (omega (arith, tallied.0, done), tallied.1, tallied.2, tallied.3)
