-- ===== src/Database/Tables.antt =====
-- Rows of a table: selection, change, deletion.
use stock_harvesting_backend.Prelude.{
  ◌≡◌, refl, Bool, true, false, List, [], ◌∷◌, ◌++◌, some, find, any, filter, map, ap,
  if◌then◌else◌, not, Bool-cases, inl, inr, arith,
}

module _ {ℓ} {A : Type ℓ} where
  -- `update(table).set(f).where(p)`
  abbrev pub update_where : (A → Bool) → (A → A) → List A → List A
  update_where p f [] = []
  update_where p f (r ∷ rows) = (if p r then f r else r) ∷ update_where p f rows

  -- `delete(table).where(p)`
  abbrev pub delete_where : (A → Bool) → List A → List A
  delete_where p rows = filter (λ r. not (p r)) rows

  -- `insert(table).values(row)`
  abbrev pub insert_row : A → List A → List A
  insert_row r rows = rows ++ r ∷ []

  -- A change that the test does not see leaves which row is found, and shows its changed form.
  pub find-update_where :
      (p q : A → Bool) (f : A → A) (rows : List A) {r : A}
      → ((x : A) → p (f x) ≡ p x)
      → find p rows ≡ some r
      → find p (update_where q f rows) ≡ some (if q r then f r else r)
  find-update_where p q f [] same e = cc
  find-update_where p q f (x ∷ rows) {r} same e = elim (Bool-cases (p x)) [
    | inl here ↦
        let first : x ≡ r = ground arith in
        elim (Bool-cases (q x)) [
          | inl on ↦ rw (← first) (rw on (rw (same x) (rw here refl)))
          | inr off ↦ rw (← first) (rw off (rw here refl))
        ]
    | inr later ↦
        let rest : find p rows ≡ some r = ground arith in
        let ih = find-update_where p q f rows same rest in
        elim (Bool-cases (q x)) [
          | inl on ↦ rw on (rw (same x) (rw later ih))
          | inr off ↦ rw off (rw later ih)
        ]
  ]

  pub find-insert_row :
      (p : A → Bool) (rows : List A) (new : A) {r : A}
      → find p rows ≡ some r
      → find p (insert_row new rows) ≡ some r
  find-insert_row p [] new e = cc
  find-insert_row p (x ∷ rows) new {r} e = ground (arith, find-insert_row p rows new {r = r})

  -- A row that is found satisfies the test.
  pub find-holds : (p : A → Bool) (rows : List A) {r : A} → find p rows ≡ some r → p r ≡ true
  find-holds p [] e = cc
  find-holds p (x ∷ rows) {r} e = ground (arith, find-holds p rows {r = r})

  -- No row that a change takes out of the test satisfies it afterwards.
  pub any-update_where :
      (p : A → Bool) (f : A → A) (rows : List A)
      → ((x : A) → p (f x) ≡ false)
      → any p (update_where p f rows) ≡ false
  any-update_where p f [] out = refl
  any-update_where p f (x ∷ rows) out = elim (Bool-cases (p x)) [
    | inl on ↦ rw on (rw (out x) (any-update_where p f rows out))
    | inr off ↦ rw off (rw off (any-update_where p f rows out))
  ]

  -- A change row by row.
  pub update_where-map :
      (p : A → Bool) (f : A → A) (rows : List A)
      → update_where p f rows ≡ map (λ r. if p r then f r else r) rows
  update_where-map p f [] = refl
  update_where-map p f (r ∷ rows) =
      ap (λ rest. (if p r then f r else r) ∷ rest) (update_where-map p f rows)
