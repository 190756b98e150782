-- ===== src/Evaluator/Deque.antt =====
-- What the two loops on the deque of `rollingMax` keep.
use stock_harvesting_backend.Prelude.{
  ltb→lt, leb→le, ℕ, ◌+◌, ◌≤◌, ◌<◌, ◌≡◌, refl, ◌⊎◌, inl, inr, List, [], ◌∷◌, some, leb, ltb,
  get_last?, arith, All, Bool-cases,
}
use stock_harvesting_backend.Evaluator.RollingMax.{value_at, pop_smaller, keep_front, shift_expired}

module _ (values : List ℕ) where
  -- How an index in the window is covered by one of the deque: it is no earlier and no smaller.
  abbrev pub Covers : ℕ → List ℕ → Type 0
  Covers j [] = ⊥
  Covers j (x ∷ xs) = ((j ≤ x) × (value_at values j ≤ value_at values x)) ⊎ Covers j xs

  -- From the back to the front the values grow.
  abbrev pub IsRising : List ℕ → Type 0
  IsRising [] = Unit
  IsRising (x ∷ []) = Unit
  IsRising (x ∷ y ∷ ys) = (value_at values x ≤ value_at values y) × IsRising (y ∷ ys)

  pub pop_smaller-Covers :
      (j i : ℕ) (q : List ℕ)
      → j ≤ i
      → Covers j q
      → Covers j (i ∷ pop_smaller values (value_at values i) q)
  unfolding pop_smaller
  pop_smaller-Covers j i [] h c = inr c
  pop_smaller-Covers j i (x ∷ q) h c =
      elim (Bool-cases (leb (value_at values x) (value_at values i))) [
        | inl popped ↦ rw popped (elim c [
          | inl (a, b) ↦ inl (h, omega (arith, leb→le _ _ popped))
          | inr later ↦ pop_smaller-Covers j i q h later
        ])
        | inr stays ↦ rw stays (inr c)
      ]

  IsRising-tail : (x : ℕ) (q : List ℕ) → IsRising (x ∷ q) → IsRising q
  IsRising-tail x [] r = tt
  IsRising-tail x (y ∷ ys) r = r.1

  pub pop_smaller-IsRising :
      (i : ℕ) (q : List ℕ) → IsRising q → IsRising (i ∷ pop_smaller values (value_at values i) q)
  unfolding pop_smaller
  pop_smaller-IsRising i [] r = tt
  pop_smaller-IsRising i (x ∷ q) r =
      elim (Bool-cases (leb (value_at values x) (value_at values i))) [
        | inl popped ↦ rw popped (pop_smaller-IsRising i q (IsRising-tail x q r))
        | inr stays ↦ rw stays (ground arith, r)
      ]

  keep_front-Covers :
      (j i w x : ℕ) (rest : List ℕ)
      → i + 1 ≤ j + w
      → Covers j (x ∷ rest)
      → Covers j (keep_front i w x rest)
  keep_front-Covers j i w x [] h (inl (a, b)) = elim (Bool-cases (ltb (x + w) (i + 1))) [
    | inl out ↦ absurd (omega (arith, ltb→lt _ _ out))
    | inr stays ↦ rw stays (inl (a, b))
  ]
  keep_front-Covers j i w x [] h (inr c) = absurd c
  keep_front-Covers j i w x (y ∷ ys) h c = c

  pub shift_expired-Covers :
      (j i w : ℕ) (q : List ℕ) → i + 1 ≤ j + w → Covers j q → Covers j (shift_expired i w q)
  unfolding shift_expired
  shift_expired-Covers j i w [] h c = c
  shift_expired-Covers j i w (x ∷ q) h (inl here) =
      keep_front-Covers j i w x (shift_expired i w q) h (inl here)
  shift_expired-Covers j i w (x ∷ q) h (inr later) =
      keep_front-Covers j i w x (shift_expired i w q) h (inr (shift_expired-Covers j i w q h later))

  -- The front of a shifted deque lies in the window.
  abbrev pub IsCurrent : ℕ → ℕ → List ℕ → Type 0
  IsCurrent i w q = (x : ℕ) → get_last? q ≡ some x → i + 1 ≤ x + w

  keep_front-IsCurrent :
      (i w x : ℕ) (rest : List ℕ) → IsCurrent i w rest → IsCurrent i w (keep_front i w x rest)
  keep_front-IsCurrent i w x [] h = λ y e. ground arith
  keep_front-IsCurrent i w x (y ∷ ys) h = h

  pub shift_expired-IsCurrent : (i w : ℕ) (q : List ℕ) → IsCurrent i w (shift_expired i w q)
  unfolding shift_expired
  shift_expired-IsCurrent i w [] = λ x e. cc
  shift_expired-IsCurrent i w (x ∷ q) =
      keep_front-IsCurrent i w x (shift_expired i w q) (shift_expired-IsCurrent i w q)

  -- Shifting keeps what holds of every index and the order.
  pub shift_expired-All :
      (bound i w : ℕ) (q : List ℕ)
      → All (λ x. x < bound) q
      → All (λ x. x < bound) (shift_expired i w q)
  unfolding shift_expired
  shift_expired-All bound i w [] h = tt
  shift_expired-All bound i w (x ∷ q) h =
      go (shift_expired i w q) (shift_expired-All bound i w q h.1)
    where
      go :
          (rest : List ℕ) → All (λ x. x < bound) rest → All (λ x. x < bound) (keep_front i w x rest)
      go [] k = elim (Bool-cases (ltb (x + w) (i + 1))) [
        | inl out ↦ rw out tt
        | inr stays ↦ rw stays (h.0, tt)
      ]
      go (y ∷ ys) k = (h.0, k)

  pub pop_smaller-All :
      (bound v : ℕ) (q : List ℕ)
      → All (λ x. x < bound) q
      → All (λ x. x < bound) (pop_smaller values v q)
  unfolding pop_smaller
  pop_smaller-All bound v [] h = tt
  pop_smaller-All bound v (x ∷ q) h = elim (Bool-cases (leb (value_at values x) v)) [
    | inl popped ↦ rw popped (pop_smaller-All bound v q h.1)
    | inr stays ↦ rw stays h
  ]

  pub All-weaken : (m n : ℕ) (q : List ℕ) → m ≤ n → All (λ x. x < m) q → All (λ x. x < n) q
  All-weaken m n [] h k = tt
  All-weaken m n (x ∷ q) h k = (omega arith, All-weaken m n q h k.1)

  keep_front-IsRising_nil : (i w x : ℕ) → IsRising (keep_front i w x [])
  keep_front-IsRising_nil i w x = elim (Bool-cases (ltb (x + w) (i + 1))) [
    | inl out ↦ rw out tt
    | inr stays ↦ rw stays tt
  ]

  keep_front-IsRising :
      (i w x y : ℕ) (rest : List ℕ)
      → value_at values x ≤ value_at values y
      → IsRising (keep_front i w y rest)
      → IsRising (keep_front i w x (keep_front i w y rest))
  keep_front-IsRising i w x y [] h r = elim (Bool-cases (ltb (y + w) (i + 1))) [
    | inl out ↦ rw out (keep_front-IsRising_nil i w x)
    | inr stays ↦ rw stays (h, tt)
  ]
  keep_front-IsRising i w x y (z ∷ zs) h r = (h, r)

  pub shift_expired-IsRising : (i w : ℕ) (q : List ℕ) → IsRising q → IsRising (shift_expired i w q)
  unfolding shift_expired
  shift_expired-IsRising i w [] r = tt
  shift_expired-IsRising i w (x ∷ []) r = keep_front-IsRising_nil i w x
  shift_expired-IsRising i w (x ∷ y ∷ q) r =
      keep_front-IsRising i w x y (shift_expired i w q) r.0 (shift_expired-IsRising i w (y ∷ q) r.1)

  -- The front is no smaller than any covered value.
  pub Covers-front :
      (j : ℕ) (q : List ℕ)
      → IsRising q
      → Covers j q
      → (f : ℕ) × (get_last? q ≡ some f) × (value_at values j ≤ value_at values f)
  Covers-front j [] r c = elim c [ ]
  Covers-front j (x ∷ []) r (inl (a, b)) = (x, refl, b)
  Covers-front j (x ∷ []) r (inr c) = absurd c
  Covers-front j (x ∷ y ∷ q) r (inl (a, b)) =
      let (f, e, le) = Covers-front y (y ∷ q) r.1 (inl (omega arith, omega arith)) in
      (f, e, omega arith)
  Covers-front j (x ∷ y ∷ q) r (inr c) = Covers-front j (y ∷ q) r.1 c

  pub All-front : (n f : ℕ) (q : List ℕ) → All (λ x. x < n) q → get_last? q ≡ some f → f < n
  All-front n f [] h e = cc
  All-front n f (x ∷ []) h e = ground arith
  All-front n f (x ∷ y ∷ q) h e = All-front n f (y ∷ q) h.1 e
