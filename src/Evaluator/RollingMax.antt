-- ===== src/Evaluator/RollingMax.antt =====
-- `rollingMax` of src/modules/market-data/weekly-strong-evaluator.ts.
-- The deque is a list of indices with its back at the head; its front is the last element.
use stock_harvesting_backend.Prelude.{
  ℕ, zero, suc, ◌+◌, List, [], ◌∷◌, Option, none, some, leb, ltb, if◌then◌else◌, length, get_or,
  get_last?,
}

-- `values[i]`, for an index in range.
abbrev pub value_at : List ℕ → ℕ → ℕ
value_at values i = get_or values i 0

-- `while (deque.length > 0 && values[back] <= values[i]) deque.pop()`
unfoldable pub pop_smaller : List ℕ → ℕ → List ℕ → List ℕ
pop_smaller values v [] = []
pop_smaller values v (back ∷ deque) =
    let rest = pop_smaller values v deque in
    if leb (value_at values back) v then rest else back ∷ deque

-- Drops an index at the front that lies before the window.
abbrev pub keep_front : ℕ → ℕ → ℕ → List ℕ → List ℕ
keep_front i window_size x [] = if ltb (x + window_size) (i + 1) then [] else x ∷ []
keep_front i window_size x (y ∷ ys) = x ∷ y ∷ ys

-- `while (deque[0] < windowStart) deque.shift()`, where `windowStart` is `i - windowSize + 1`
unfoldable pub shift_expired : ℕ → ℕ → List ℕ → List ℕ
shift_expired i window_size [] = []
shift_expired i window_size (x ∷ deque) =
    keep_front i window_size x (shift_expired i window_size deque)

-- The deque after the round for index `i`.
unfoldable pub next_deque : List ℕ → ℕ → ℕ → List ℕ → List ℕ
next_deque values window_size i deque =
    shift_expired i window_size (i ∷ pop_smaller values (value_at values i) deque)

-- `values[deque[0]]`
abbrev pub front_value : List ℕ → List ℕ → Option ℕ
front_value values deque = elim (get_last? deque) [
  | none ↦ none
  | some x ↦ some (value_at values x)
]

-- The rounds from index `i` on.
unfoldable pub rolling_from : List ℕ → ℕ → ℕ → ℕ → List ℕ → List (Option ℕ)
rolling_from values window_size zero i deque = []
rolling_from values window_size (suc rounds) i deque =
    let deque' = next_deque values window_size i deque in
    front_value values deque' ∷ rolling_from values window_size rounds (i + 1) deque'

unfoldable pub rolling_max : List ℕ → ℕ → List (Option ℕ)
unfolding rolling_from next_deque pop_smaller shift_expired
rolling_max values window_size = rolling_from values window_size (length values) 0 []
