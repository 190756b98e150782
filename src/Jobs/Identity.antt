-- ===== src/Jobs/Identity.antt =====
-- The ids of the runs stay unique, whatever is inserted or changed.
use stock_harvesting_backend.Prelude.{
  List, [], ◌∷◌, some, Bool, true, false, ◌||◌, str_eq, any, find, All, All-append, if◌then◌else◌,
  ◌≡◌, ap, sym, subst, refl, arith, Bool-cases, inl, inr,
}
use text.Mathlib.TextPositions.{eq_refl}
use stock_harvesting_backend.Database.Tables.{
  update_where, insert_row, find-update_where, find-insert_row,
}
use stock_harvesting_backend.Jobs.Runs.{JobRun, has_id, conflicts, insert_unless_conflict}

-- Each run is the one that its id finds.
abbrev pub HasUniqueIds : List JobRun → Type 0
HasUniqueIds runs = All (λ r. find (has_id r.id) runs ≡ some r) runs

pub found-All :
    (P : JobRun → Type 0) (p : JobRun → Bool) (runs : List JobRun) {r : JobRun}
    → All P runs
    → find p runs ≡ some r
    → P r
found-All P p [] every e = cc
found-All P p (x ∷ runs) {r} every e = elim (Bool-cases (p x)) [
  | inl on ↦ let first : x ≡ r = ground arith in subst P first every.0
  | inr off ↦ let later : find p runs ≡ some r = ground arith in found-All P p runs every.1 later
]

All-map :
    (P Q : JobRun → Type 0) (q : JobRun → Bool) (f : JobRun → JobRun) (runs : List JobRun)
    → ((r : JobRun) → P r → Q (if q r then f r else r))
    → All P runs
    → All Q (update_where q f runs)
All-map P Q q f [] step every = tt
All-map P Q q f (r ∷ runs) step every = (step r every.0, All-map P Q q f runs step every.1)

All-weaken :
    (P Q : JobRun → Type 0) (runs : List JobRun)
    → ((r : JobRun) → P r → Q r)
    → All P runs
    → All Q runs
All-weaken P Q [] step every = tt
All-weaken P Q (r ∷ runs) step every = (step r every.0, All-weaken P Q runs step every.1)

kept_id :
    (q : JobRun → Bool) (f : JobRun → JobRun)
    → ((x : JobRun) → (f x).id ≡ x.id)
    → (r : JobRun) → (if q r then f r else r).id ≡ r.id
kept_id q f same r = elim (Bool-cases (q r)) [ inl on ↦ rw on (same r) | inr off ↦ rw off refl ]

-- A change that keeps the ids keeps them unique.
pub update_where-HasUniqueIds :
    (q : JobRun → Bool) (f : JobRun → JobRun) (runs : List JobRun)
    → ((x : JobRun) → (f x).id ≡ x.id)
    → HasUniqueIds runs
    → HasUniqueIds (update_where q f runs)
update_where-HasUniqueIds q f runs same unique =
    All-map (λ r. find (has_id r.id) runs ≡ some r) _ q f runs
      (λ r found.
        subst (λ id. find (has_id id) (update_where q f runs) ≡ some (if q r then f r else r))
          (sym (kept_id q f same r))
          (find-update_where (has_id r.id) q f runs (λ x. ap (λ id. str_eq id r.id) (same x))
            found))
      unique

find-new :
    (p : JobRun → Bool) (runs : List JobRun) (new : JobRun)
    → any p runs ≡ false
    → p new ≡ true
    → find p (insert_row new runs) ≡ some new
find-new p [] new absent on = rw on refl
find-new p (r ∷ runs) new absent on =
    let here : p r ≡ false = ground arith in
    let rest : any p runs ≡ false = ground arith in rw here (find-new p runs new rest on)

any-left :
    (p q : JobRun → Bool) (runs : List JobRun)
    → any (λ r. p r || q r) runs ≡ false
    → any p runs ≡ false
any-left p q [] absent = refl
any-left p q (r ∷ runs) absent =
    let here : p r ≡ false = ground arith in
    let rest : any (λ x. p x || q x) runs ≡ false = ground arith in rw here (any-left p q runs rest)

pub insert_row-HasUniqueIds :
    (new : JobRun) (runs : List JobRun)
    → any (has_id new.id) runs ≡ false
    → HasUniqueIds runs
    → HasUniqueIds (insert_row new runs)
insert_row-HasUniqueIds new runs absent unique =
    All-append _ runs (new ∷ [])
      (All-weaken (λ r. find (has_id r.id) runs ≡ some r) _ runs
        (λ r found. find-insert_row (has_id r.id) runs new found) unique)
      (find-new (has_id new.id) runs new absent (eq_refl new.id), tt)

-- An insert that a conflict stops cannot repeat an id.
pub insert_unless_conflict-HasUniqueIds :
    (new : JobRun) (runs : List JobRun)
    → HasUniqueIds runs
    → HasUniqueIds (insert_unless_conflict new runs)
unfolding insert_unless_conflict
insert_unless_conflict-HasUniqueIds new runs unique = elim (Bool-cases (any (conflicts new) runs)) [
  | inl taken ↦ rw taken unique
  | inr free ↦
      let absent = any-left (has_id new.id) _ runs free in
      rw free (insert_row-HasUniqueIds new runs absent unique)
]
