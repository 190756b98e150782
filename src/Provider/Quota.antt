-- ===== src/Provider/Quota.antt =====
-- The quota of calls: the cap per rolling hour and the spacing of the slots.
use stock_harvesting_backend.Prelude.{
  ℕ, ◌+◌, ◌-◌, ◌*◌, ◌≡◌, ◌≤◌, ◌<◌, refl, sym, ap, ◌∙◌, List, [], ◌∷◌, ◌++◌, length, filter, leb,
  max, if◌then◌else◌, arith, Bool, Bool-cases, inl, inr, true, false, length-append,
}
use native.Mathlib.Nat.{div-add-mod, mod-lt}
use stock_harvesting_backend.Provider.Gate.{
  GdfCallGate, Answer, pass, rate_limited, register_call, reserve_delay_ms, recent, hour_ms,
  new_gate, interval_ms,
}

-- The log of the calls that were let through, the oldest first, beside the gate.
abbrev pub note_call : ℕ → List ℕ → Answer × GdfCallGate → GdfCallGate × List ℕ
note_call now log (pass, gate) = (gate, log ++ now ∷ [])
note_call now log (rate_limited wait, gate) = (gate, log)

-- Calls that are tried at the times of a list, one after the other.
abbrev pub try_all : List ℕ → GdfCallGate × List ℕ → GdfCallGate × List ℕ
try_all [] s = s
try_all (now ∷ times) (gate, log) = try_all times (note_call now log (register_call now gate))

-- The times ascend from `from` and do not pass `until`.
abbrev pub Ascends : ℕ → ℕ → List ℕ → Type 0
Ascends from until [] = from ≤ until
Ascends from until (now ∷ times) = (from ≤ now) × Ascends now until times

filter-later :
    (last now : ℕ) (log : List ℕ)
    → last ≤ now
    → filter (recent now) (filter (recent last) log) ≡ filter (recent now) log
filter-later last now [] h = refl
filter-later last now (t ∷ log) h = elim (Bool-cases (recent last t)) [
  | inl on ↦
      let ih = filter-later last now log h in rw on (ap (λ r. if recent now t then t ∷ r else r) ih)
  | inr off ↦
      let ih = filter-later last now log h in
      let late : recent now t ≡ false = ground arith in rw off (rw late ih)
]

filter-append : (p : ℕ → Bool) (xs ys : List ℕ) → filter p (xs ++ ys) ≡ filter p xs ++ filter p ys
filter-append p [] ys = refl
filter-append p (x ∷ xs) ys = elim (Bool-cases (p x)) [
  | inl on ↦ rw on (ap (λ r. x ∷ r) (filter-append p xs ys))
  | inr off ↦ rw off (filter-append p xs ys)
]

length-filter_le : (p : ℕ → Bool) (xs : List ℕ) → length (filter p xs) ≤ length xs
length-filter_le p [] = ground arith
length-filter_le p (x ∷ xs) = let ih = length-filter_le p xs in ground arith

newest : (now : ℕ) → filter (recent now) (now ∷ []) ≡ now ∷ []
newest now = let here : recent now now ≡ true = ground arith in rw here refl

-- The gate keeps exactly the calls of the last hour, and no more than its cap.
abbrev Counts : ℕ → ℕ → GdfCallGate × List ℕ → Type 0
Counts cap last (gate, log) =
    (gate.max_calls_per_hour ≡ cap)
    × (gate.calls ≡ filter (recent last) log)
    × (length gate.calls ≤ cap)

Counts-step :
    (cap last now : ℕ) (gate : GdfCallGate) (log : List ℕ)
    → 0 < cap
    → last ≤ now
    → Counts cap last (gate, log)
    → Counts cap now (note_call now log (register_call now gate))
unfolding register_call
Counts-step cap last now gate log pos h (c, same, few) =
    let kept : filter (recent now) gate.calls ≡ filter (recent now) log =
      ap (filter (recent now)) same ∙ filter-later last now log h in
    let capped : leb gate.max_calls_per_hour 0 ≡ false = ground arith in
    let fewer = length-filter_le (recent now) gate.calls in
    elim (Bool-cases (leb gate.max_calls_per_hour (length (filter (recent now) gate.calls)))) [
      | inl full ↦ rw capped (rw full (c, kept, ground arith))
      | inr room ↦
          let logged : filter (recent now) gate.calls ++ now ∷ []
              ≡ filter (recent now) (log ++ now ∷ []) =
            ap (λ r. r ++ now ∷ []) kept
            ∙ sym (
                filter-append (recent now) log (now ∷ [])
                ∙ ap (λ r. filter (recent now) log ++ r) (newest now)) in
          let size = length-append (filter (recent now) gate.calls) (now ∷ []) in
          rw capped (rw room (c, logged, ground arith))
    ]

Counts-all :
    (cap last until : ℕ) (times : List ℕ) (gate : GdfCallGate) (log : List ℕ)
    → 0 < cap
    → Ascends last until times
    → Counts cap last (gate, log)
    → length (filter (recent until) (try_all times (gate, log)).1) ≤ cap
Counts-all cap last until [] gate log pos h (c, same, few) =
    let kept = ap (filter (recent until)) same ∙ filter-later last until log h in
    let fewer = length-filter_le (recent until) gate.calls in
    let size = ap length kept in ground arith
Counts-all cap last until (now ∷ times) gate log pos (h, rest) counts =
    let next = Counts-step cap last now gate log pos h counts in
    let (gate', log') = note_call now log (register_call now gate) in
    Counts-all cap now until times gate' log' pos rest next

-- Whenever calls are tried, at most the cap's number of them is let through in the hour before any time that
-- is not earlier than the last of them.
pub register_call-quota :
    (cap until : ℕ) (times : List ℕ)
    → 0 < cap
    → Ascends 0 until times
    → length (filter (recent until) (try_all times (new_gate cap, [])).1) ≤ cap
register_call-quota cap until times pos h =
    Counts-all cap 0 until times (new_gate cap) [] pos h (refl, refl, ground arith)

-- The times at which the callers send that reserve a slot at the times of a list.
abbrev pub send_times : List ℕ → GdfCallGate → List ℕ
send_times [] gate = []
send_times (now ∷ times) gate =
    let (delay, gate') = reserve_delay_ms now gate in (now + delay) ∷ send_times times gate'

-- Each send comes an interval after the one before it at the earliest, the first at `next`.
abbrev pub Spaced : ℕ → ℕ → List ℕ → Type 0
Spaced interval next [] = Unit
Spaced interval next (t ∷ sends) = (next ≤ t) × Spaced interval (t + interval) sends

interval_ms-covers : (cap : ℕ) → 0 < cap → hour_ms ≤ cap * interval_ms cap
interval_ms-covers cap pos =
    let split = div-add-mod (hour_ms + (cap - 1)) cap in
    let small = mod-lt (hour_ms + (cap - 1)) pos in ground arith

send_times-Spaced :
    (times : List ℕ) (gate : GdfCallGate)
    → 0 < gate.max_calls_per_hour
    → Spaced (interval_ms gate.max_calls_per_hour) gate.next_call_at (send_times times gate)
unfolding reserve_delay_ms
send_times-Spaced [] gate pos = tt
send_times-Spaced (now ∷ times) gate pos =
    let capped : leb gate.max_calls_per_hour 0 ≡ false = ground arith in
    let sent : now + (max now gate.next_call_at - now) ≡ max now gate.next_call_at = ground arith in
    let interval = interval_ms gate.max_calls_per_hour in
    let rest =
      send_times-Spaced times (record gate { next_call_at = max now gate.next_call_at + interval })
        pos in
    rw capped (ground arith, rw sent rest)

-- Under a cap, callers that wait their delay send at the earliest an interval after the call before, and as
-- many intervals as the cap allows calls make up an hour.
pub reserve_delay_ms-Spaced :
    (times : List ℕ) (gate : GdfCallGate)
    → 0 < gate.max_calls_per_hour
    → Spaced (interval_ms gate.max_calls_per_hour) gate.next_call_at (send_times times gate)
      × (hour_ms ≤ gate.max_calls_per_hour * interval_ms gate.max_calls_per_hour)
reserve_delay_ms-Spaced times gate pos =
    (send_times-Spaced times gate pos, interval_ms-covers gate.max_calls_per_hour pos)
