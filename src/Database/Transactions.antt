-- ===== src/Database/Transactions.antt =====
-- `db.transaction(body)`: what the body writes is kept if it returns and undone if it throws.
use stock_harvesting_backend.Prelude.{◌≡◌, refl, sym, ap, ◌∙◌, ◌⊎◌, inl, inr}

pub data Result (E A : Type 0) : Type 0 where
  ok : A → Result E A
  err : E → Result E A

-- A body over the state `S`.
abbrev pub Body : Type 0 → Type 0 → Type 0 → Type 0
Body S E A = S → Result E A × S

pub record Transactions (S E A : Type 0) : Type 0 where
  pub run : Body S E A → Body S E A
  pub commits :
      (body : Body S E A) (s s' : S) (a : A) → body s ≡ (ok a, s') → run body s ≡ (ok a, s')
  pub rolls_back :
      (body : Body S E A) (s s' : S) (e : E) → body s ≡ (err e, s') → run body s ≡ (err e, s)

-- What a commit or a rollback leaves of a body's answer.
abbrev pub settle : {S E A : Type 0} → S → Result E A × S → Result E A × S
settle s (ok a, s') = (ok a, s')
settle s (err e, s') = (err e, s)

-- Transactions that keep a copy of the state.
abbrev pub copying : (S E A : Type 0) → Transactions S E A
copying S E A = record {
  run = λ body s. settle s (body s);
  commits = λ body s s' a e. ap (settle s) e;
  rolls_back = λ body s s' x e. ap (settle s) e;
}

-- An answer with its state, by cases.
pub answer-cases :
    {S E A : Type 0} (r : Result E A × S)
    → ((a : A) × (s' : S) × (r ≡ (ok a, s'))) ⊎ ((e : E) × (s' : S) × (r ≡ (err e, s')))
answer-cases (ok a, s') = inl (a, s', refl)
answer-cases (err e, s') = inr (e, s', refl)

-- Every transaction answers as the body does and settles the state.
pub run-settle :
    {S E A : Type 0} (tx : Transactions S E A) (body : Body S E A) (s : S)
    → tx.run body s ≡ settle s (body s)
run-settle tx body s = elim (answer-cases (body s)) [
  | inl (a, s', e) ↦ tx.commits body s s' a e ∙ sym (ap (settle s) e)
  | inr (x, s', e) ↦ tx.rolls_back body s s' x e ∙ sym (ap (settle s) e)
]
