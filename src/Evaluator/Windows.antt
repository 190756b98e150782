-- ===== src/Evaluator/Windows.antt =====
-- The sliding maximum against the scan of each window.
use stock_harvesting_backend.Prelude.{
  ltb→lt, ℕ, zero, suc, ◌+◌, ◌-◌, ◌≤◌, ◌<◌, ◌≡◌, refl, inl, inr, List, [], ◌∷◌, none, some, ltb,
  length, get_elem?, get_last?, arith, All, Bool-cases, ap, sym, ◌∙◌,
}
use stock_harvesting_backend.Evaluator.RollingMax.{
  value_at, pop_smaller, next_deque, front_value, rolling_from, rolling_max,
}
use stock_harvesting_backend.Evaluator.NearHigh.{window_high, window_start}
use stock_harvesting_backend.Evaluator.Scan.{
  IsWindowMax, IsWindowMax-unique, window_high-IsWindowMax,
}
use stock_harvesting_backend.Evaluator.Deque.{
  Covers, IsRising, pop_smaller-Covers, pop_smaller-IsRising, shift_expired-Covers,
  shift_expired-IsCurrent, shift_expired-All, pop_smaller-All, shift_expired-IsRising, Covers-front,
  All-front, All-weaken,
}

module _ (values : List ℕ) where
  -- What holds before the round for index `i`.
  record IsReady (w i : ℕ) (q : List ℕ) : Type 0 where
    rising : IsRising values q
    earlier : All (λ x. x < i) q
    covered : (j : ℕ) → j < i → i ≤ j + w → Covers values j q

  next_deque-IsReady :
      (w i : ℕ) (q : List ℕ) → IsReady w i q → IsReady w (i + 1) (next_deque values w i q)
  unfolding next_deque
  next_deque-IsReady w i q r = record {
    rising = shift_expired-IsRising values i w _ (pop_smaller-IsRising values i q r.rising);
    earlier = shift_expired-All values (i + 1) i w _ (
      omega arith,
      pop_smaller-All values (i + 1) _ q (All-weaken values i (i + 1) q (omega arith) r.earlier),
    );
    covered = λ j a b. shift_expired-Covers values j i w _ b (covers j a b);
  }
    where
      covers :
          (j : ℕ)
          → j < i + 1
          → i + 1 ≤ j + w
          → Covers values j (i ∷ pop_smaller values (value_at values i) q)
      covers j a b = elim (Bool-cases (ltb j i)) [
        | inl older ↦
            let lt = ltb→lt _ _ older in
            pop_smaller-Covers values j i q (omega arith) (r.covered j lt (omega arith))
        | inr same ↦ let e : j ≡ i = ground arith in inl (omega arith, rw e (omega arith))
      ]

  front-IsWindowMax :
      (w i f : ℕ) (q : List ℕ)
      → IsReady w i q
      → get_last? (next_deque values w i q) ≡ some f
      → IsWindowMax values (window_start i w) (i + 1) (value_at values f)
  unfolding next_deque
  front-IsWindowMax w i f q r e =
      let q' = next_deque values w i q in
      let r' = next_deque-IsReady w i q r in
      record {
        index = f;
        bound = λ j a b.
            let (g, e', le) = Covers-front values j q' r'.rising (r'.covered j b (omega arith)) in
            let same : g ≡ f = cc in rw (← same) le;
        from =
            let current : i + 1 ≤ f + w = shift_expired-IsCurrent values i w _ f e in omega arith;
        until = All-front values (i + 1) f q' r'.earlier e;
        attained = refl;
      }

  front_value-some :
      (q : List ℕ) (f : ℕ) → get_last? q ≡ some f → front_value values q ≡ some (value_at values f)
  front_value-some q f e = rw (e, front_value)

  -- The value that the round for index `i` records.
  next_deque-front :
      (w i : ℕ) (q : List ℕ)
      → 0 < w
      → IsReady w i q
      → front_value values (next_deque values w i q)
        ≡ window_high values (i + 1 - window_start i w) (window_start i w) none
  next_deque-front w i q h r =
      let q' = next_deque values w i q in
      let r' = next_deque-IsReady w i q r in
      let (f, e, le) =
        Covers-front values i q' r'.rising (r'.covered i (omega arith) (omega arith)) in
      let (m, scanned, top) =
        window_high-IsWindowMax values (window_start i w) (i + 1) (omega arith) in
      let same = IsWindowMax-unique values (front-IsWindowMax w i f q r e) top in
      front_value-some q' f e ∙ ap some same ∙ sym scanned

  rolling_from_lem :
      (w n i k j : ℕ) (q : List ℕ)
      → 0 < w
      → k < n
      → i + k ≡ j
      → IsReady w i q
      → get_elem? (rolling_from values w n i q) k
        ≡ some (window_high values (j + 1 - window_start j w) (window_start j w) none)
  unfolding rolling_from
  rolling_from_lem w zero i k j q h lt e r = absurd (omega arith)
  rolling_from_lem w (suc n) i zero j q h lt e r =
      let same : j ≡ i = omega arith in rw same (ap some (next_deque-front w i q h r))
  rolling_from_lem w (suc n) i (suc k) j q h lt e r =
      rolling_from_lem w n (i + 1) k j _ h (omega arith) (omega arith) (next_deque-IsReady w i q r)

  -- The sliding maximum records, for each index, the greatest value of the window that ends there: what
  -- the scan of that window finds. The window has at least one place.
  pub rolling_max-window_high :
      (w i : ℕ)
      → 0 < w
      → i < length values
      → get_elem? (rolling_max values w) i
        ≡ some (window_high values (i + 1 - window_start i w) (window_start i w) none)
  unfolding rolling_max
  rolling_max-window_high w i h lt =
      rolling_from_lem w (length values) 0 i i [] h lt (omega arith)
        (record { rising = tt; earlier = tt; covered = λ j a b. absurd (omega arith) })
