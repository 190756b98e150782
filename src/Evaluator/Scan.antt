-- ===== src/Evaluator/Scan.antt =====
-- The loop of `passesNearHigh` finds the greatest close of its window.
use stock_harvesting_backend.Prelude.{
  max, ℕ, zero, suc, ◌+◌, ◌-◌, ◌≤◌, ◌<◌, ◌≡◌, refl, ◌⊎◌, inl, inr, List, none, some, ltb, arith,
  Bool-cases, ap, ◌∙◌, subst,
}
use stock_harvesting_backend.Evaluator.RollingMax.{value_at}
use stock_harvesting_backend.Evaluator.NearHigh.{raise, window_high}

raise-max : (h c : ℕ) → raise (some h) c ≡ some (max h c)
raise-max h c = ground arith

module _ (values : List ℕ) where
  -- `m` is the greatest value at the indices from `start` up to, and without, `end`.
  pub record IsWindowMax (start end m : ℕ) : Type 0 where
    pub index : ℕ
    pub bound : (j : ℕ) → start ≤ j → j < end → value_at values j ≤ m
    pub from : start ≤ index
    pub until : index < end
    pub attained : value_at values index ≡ m

  pub IsWindowMax-unique :
      {start end m n : ℕ} → IsWindowMax start end m → IsWindowMax start end n → m ≡ n
  IsWindowMax-unique p q = omega (
    arith,
    p.bound q.index q.from q.until,
    q.bound p.index p.from p.until,
    p.attained,
    q.attained,
    p.from,
  )

  top_from :
      (h m i n : ℕ)
      → max h (value_at values i) ≡ m
      → (h ≡ m) ⊎ ((j : ℕ) × (i ≤ j) × (j < i + suc n) × (value_at values j ≡ m))
  top_from h m i n e = elim (Bool-cases (ltb h (value_at values i))) [
    | inl up ↦ inr (i, omega arith, omega arith, ground arith)
    | inr stays ↦ inl (ground arith)
  ]

  -- The scan of the rounds that are left, above a high that stands already.
  window_high-some :
      (n i h : ℕ)
      → (m : ℕ) × (window_high values n i (some h) ≡ some m)
        × (h ≤ m)
        × ((j : ℕ) → i ≤ j → j < i + n → value_at values j ≤ m)
        × ((h ≡ m) ⊎ ((j : ℕ) × (i ≤ j) × (j < i + n) × (value_at values j ≡ m)))
  unfolding window_high
  window_high-some zero i h = (h, refl, omega arith, λ j a b. absurd (omega arith), inl refl)
  window_high-some (suc n) i h =
      let v = value_at values i in
      let (m, e, le, bound, from) = window_high-some n (i + 1) (max h v) in
      (
        m,
        rw (raise-max h v) e,
        omega arith,
        λ j a b. ground (arith, bound j),
        elim from [
          | inl top ↦ top_from h m i n top
          | inr (j, a, b, eq) ↦ inr (j, omega arith, omega arith, eq)
        ],
      )

  scan_first :
      (n start : ℕ)
      → (m : ℕ) × (window_high values (suc n) start none ≡ some m)
        × IsWindowMax start (start + suc n) m
  unfolding window_high
  scan_first n start =
      let (m, e, le, bound, from) = window_high-some n (start + 1) (value_at values start) in
      (
        m,
        e,
        elim from [
          | inl first ↦ record {
            index = start;
            bound = λ j a b. ground (arith, bound j);
            from = omega arith;
            until = omega arith;
            attained = first;
          }
          | inr (j, a, b, eq) ↦ record {
            index = j;
            bound = λ k c d. ground (arith, bound k);
            from = omega arith;
            until = omega arith;
            attained = eq;
          }
        ],
      )

  -- The scan of a window that is not empty finds its greatest value.
  pub window_high-IsWindowMax :
      (start end : ℕ)
      → start < end
      → (m : ℕ) × (window_high values (end - start) start none ≡ some m) × IsWindowMax start end m
  window_high-IsWindowMax start end h =
      let n = end - start - 1 in
      let rounds : end - start ≡ suc n = omega arith in
      let stop : start + suc n ≡ end = omega arith in
      let (m, e, w) = scan_first n start in
      (
        m,
        ap (λ r. window_high values r start none) rounds ∙ e,
        subst (λ t. IsWindowMax start t m) stop w,
      )
