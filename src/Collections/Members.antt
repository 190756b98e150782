-- ===== src/Collections/Members.antt =====
-- Who is an active member of a collection after an import.
use stock_harvesting_backend.Prelude.{
  String, List, [], ◌∷◌, Bool, true, false, not, ◌&&◌, ◌||◌, str_eq, any, if◌then◌else◌, ◌≡◌, ◌∙◌,
  refl, sym, ap, subst, arith, Bool-cases, inl, inr,
}
use text.Mathlib.TextEquality.{eq_iff}
use stock_harvesting_backend.Database.Tables.{update_where, insert_row}
use stock_harvesting_backend.Collections.Import.{
  MemberRow, Matched, is_member, activate, upsert_member, upsert_matched_collection_members,
  deactivate_collection_members, is_already_active,
}

-- An active member of a collection.
abbrev pub holds : String → String → List MemberRow → Bool
holds collection_id instrument_id members =
    any (λ m. is_member collection_id instrument_id m && m.active) members

abbrev same_pair : String → String → String → String → Bool
same_pair c i d j = str_eq c d && str_eq i j

-- A member row of one pair is one of another exactly if the pairs are equal.
member-same :
    (c i d j : String) (m : MemberRow)
    → is_member c i m ≡ true
    → is_member d j m ≡ same_pair c i d j
member-same c i d j m on =
    let collections : m.collection_id ≡ c = (eq_iff m.collection_id c).0 (ground arith) in
    let instruments : m.instrument_id ≡ i = (eq_iff m.instrument_id i).0 (ground arith) in
    rw (collections, instruments) refl

holds-activate :
    (c i d j : String) (members : List MemberRow)
    → holds d j (update_where (is_member c i) activate members)
      ≡ (holds d j members || (same_pair c i d j && any (is_member c i) members))
holds-activate c i d j [] = ground arith
holds-activate c i d j (m ∷ members) =
    let ih = holds-activate c i d j members in
    elim (Bool-cases (is_member c i m)) [
      | inl on ↦
          let same = member-same c i d j m on in
          elim (Bool-cases (same_pair c i d j)) [
            | inl yes_pair ↦ rw on (rw (same ∙ yes_pair) (rw yes_pair (ground arith)))
            | inr no_pair ↦ rw on (rw (same ∙ no_pair) (rw no_pair (ih ∙ rw no_pair refl)))
          ]
      | inr off ↦ elim (Bool-cases (is_member d j m && m.active)) [
        | inl there ↦ rw off (rw there refl)
        | inr gone ↦ rw off (rw gone ih)
      ]
    ]

holds-insert :
    (c i d j : String) (members : List MemberRow)
    → holds d j
        (insert_row (record { collection_id = c; instrument_id = i; active = true }) members)
      ≡ (holds d j members || same_pair c i d j)
holds-insert c i d j [] = ground arith
holds-insert c i d j (m ∷ members) =
    let ih = holds-insert c i d j members in
    elim (Bool-cases (is_member d j m && m.active)) [
      | inl there ↦ rw there refl
      | inr gone ↦ rw gone ih
    ]

holds-upsert_member :
    (c i d j : String) (members : List MemberRow)
    → holds d j (upsert_member c i members) ≡ (holds d j members || same_pair c i d j)
holds-upsert_member c i d j members = elim (Bool-cases (any (is_member c i) members)) [
  | inl there ↦ rw there (holds-activate c i d j members ∙ rw there (ground arith))
  | inr absent ↦ rw absent (holds-insert c i d j members)
]

-- The instruments that an upsert writes.
abbrev pub written : List Matched → String → Bool
written matched j = any (λ r. str_eq r.instrument_id j && not (is_already_active r.status)) matched

pub holds-upsert :
    (c d j : String) (matched : List Matched) (members : List MemberRow)
    → holds d j (upsert_matched_collection_members c matched members)
      ≡ (holds d j members || (str_eq c d && written matched j))
unfolding upsert_matched_collection_members
holds-upsert c d j [] members = ground arith
holds-upsert c d j (r ∷ matched) members = elim (Bool-cases (is_already_active r.status)) [
  | inl already ↦ rw already (
      holds-upsert c d j matched members
      ∙ ap (λ b. holds d j members || (str_eq c d && b)) (ground arith))
  | inr fresh ↦ rw fresh (
      holds-upsert c d j matched (upsert_member c r.instrument_id members)
      ∙ ap (λ b. b || (str_eq c d && written matched j))
          (holds-upsert_member c r.instrument_id d j members)
      ∙ ground arith)
]

pub str_eq_sym : (a b : String) → str_eq a b ≡ str_eq b a
str_eq_sym a b = elim (Bool-cases (str_eq a b)) [
  | inl on ↦ subst (λ x. str_eq x b ≡ str_eq b x) (sym ((eq_iff a b).0 on)) refl
  | inr off ↦ elim (Bool-cases (str_eq b a)) [
    | inr out ↦ off ∙ sym out
    | inl on ↦ subst (λ x. str_eq a x ≡ str_eq x a) (sym ((eq_iff b a).0 on)) refl
  ]
]

-- The rows that a deactivation takes, and one row after it.
abbrev is_taken : String → List String → MemberRow → Bool
is_taken c ids m = str_eq m.collection_id c && any (str_eq m.instrument_id) ids

abbrev after_taking : String → List String → MemberRow → MemberRow
after_taking c ids m = if is_taken c ids m then record m { active = false } else m

one-deactivate :
    (c d j : String) (ids : List String) (m : MemberRow)
    → (is_member d j (after_taking c ids m) && (after_taking c ids m).active)
      ≡ ((is_member d j m && m.active) && not (str_eq d c && any (str_eq j) ids))
one-deactivate c d j ids m = elim (Bool-cases (is_member d j m)) [
  | inl mine ↦
      let collections : m.collection_id ≡ d = (eq_iff m.collection_id d).0 (ground arith) in
      let instruments : m.instrument_id ≡ j = (eq_iff m.instrument_id j).0 (ground arith) in
      let same : is_taken c ids m ≡ (str_eq d c && any (str_eq j) ids) =
        rw (collections, instruments) refl in
      elim (Bool-cases (is_taken c ids m)) [
        | inl on ↦ rw on (rw (sym same ∙ on) (ground arith))
        | inr off ↦ rw off (rw (sym same ∙ off) (ground arith))
      ]
  | inr other ↦ elim (Bool-cases (is_taken c ids m)) [
    | inl on ↦ rw on (rw other refl)
    | inr off ↦ rw off (rw other refl)
  ]
]

both_out : (a b n : Bool) → ((a && n) || (b && n)) ≡ ((a || b) && n)
both_out a b n = ground arith

pub holds-deactivate :
    (c d j : String) (ids : List String) (members : List MemberRow)
    → holds d j (deactivate_collection_members c ids members)
      ≡ (holds d j members && not (str_eq d c && any (str_eq j) ids))
unfolding deactivate_collection_members
holds-deactivate c d j ids [] = refl
holds-deactivate c d j ids (m ∷ members) =
    let ih = holds-deactivate c d j ids members in
    let first = one-deactivate c d j ids m in
    ap (λ b. b || holds d j (deactivate_collection_members c ids members)) first
    ∙ ap (λ b. ((is_member d j m && m.active) && not (str_eq d c && any (str_eq j) ids)) || b) ih
    ∙ both_out (is_member d j m && m.active) (holds d j members)
        (not (str_eq d c && any (str_eq j) ids))
