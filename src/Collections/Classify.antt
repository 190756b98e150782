-- ===== src/Collections/Classify.antt =====
-- What the classification of a file says of the active members.
use stock_harvesting_backend.Prelude.{
  String, List, [], ◌∷◌, Option, none, some, true, false, not, ◌&&◌, ◌||◌, str_eq, any, find, ◌≡◌,
  ◌∙◌, refl, ap, arith, Bool-cases, inl, inr,
}
use text.Mathlib.TextEquality.{eq_iff}
use stock_harvesting_backend.Market.Universe.{InstrumentRow}
use stock_harvesting_backend.Collections.Import.{
  MemberRow, Matched, is_matched, is_already_active, member_status, match_symbols, add_match,
  is_listed, members_of, dropped_members,
}
use stock_harvesting_backend.Collections.Members.{holds, written, str_eq_sym}

-- The rows of a collection have an active member where the table has one of the collection.
pub current-holds :
    (c j : String) (members : List MemberRow)
    → any (λ m. str_eq m.instrument_id j && m.active) (members_of (some c) members)
      ≡ holds c j members
current-holds c j [] = refl
current-holds c j (m ∷ members) =
    let ih = current-holds c j members in
    elim (Bool-cases (str_eq m.collection_id c)) [
      | inl mine ↦ rw mine (ap (λ b. (str_eq m.instrument_id j && m.active) || b) ih)
      | inr other ↦ rw other ih
    ]

-- A dropped member is an active one that the file does not have.
pub dropped-any :
    (matched : List Matched) (j : String) (current : List MemberRow)
    → any (str_eq j) (dropped_members matched current)
      ≡ (any (λ m. str_eq m.instrument_id j && m.active) current && not (is_matched matched j))
dropped-any matched j [] = refl
dropped-any matched j (m ∷ current) =
    let ih = dropped-any matched j current in
    elim (Bool-cases (str_eq m.instrument_id j)) [
      | inl mine ↦
          let equal : m.instrument_id ≡ j = (eq_iff m.instrument_id j).0 mine in
          let back : str_eq j m.instrument_id ≡ true = str_eq_sym j m.instrument_id ∙ mine in
          let known : is_matched matched m.instrument_id ≡ is_matched matched j =
            ap (is_matched matched) equal in
          elim (Bool-cases m.active) [
            | inl on ↦ elim (Bool-cases (is_matched matched j)) [
              | inl listed ↦ rw on (rw (known ∙ listed) (rw listed (ih ∙ rw listed (ground arith))))
              | inr gone ↦ rw on (rw (known ∙ gone) (rw back (rw mine (rw gone refl))))
            ]
            | inr off ↦ rw off (rw mine ih)
          ]
      | inr other ↦
          let back : str_eq j m.instrument_id ≡ false = str_eq_sym j m.instrument_id ∙ other in
          elim (Bool-cases (m.active && not (is_matched matched m.instrument_id))) [
            | inl goes ↦ rw goes (rw back (rw other ih))
            | inr stays ↦ rw stays (rw other ih)
          ]
    ]

-- A status says whether the instrument is an active member.
status-active :
    (current : List MemberRow) (j : String)
    → is_already_active (member_status current j)
      ≡ any (λ m. str_eq m.instrument_id j && m.active) current
unfolding member_status
status-active current j =
    elim (Bool-cases (any (λ m. str_eq m.instrument_id j && m.active) current)) [
      | inl on ↦ rw on refl
      | inr off ↦ elim (Bool-cases (any (λ m. str_eq m.instrument_id j) current)) [
        | inl known ↦ rw off (rw known refl)
        | inr fresh ↦ rw off (rw fresh refl)
      ]
    ]

written-add :
    (current : List MemberRow) (j symbol : String) (found : Option InstrumentRow)
    (matched : List Matched)
    → written matched j
      ≡ (is_matched matched j && not (any (λ m. str_eq m.instrument_id j && m.active) current))
    → written (add_match current symbol found matched) j ≡ (
        is_matched (add_match current symbol found matched) j
        && not (any (λ m. str_eq m.instrument_id j && m.active) current))
written-add current j symbol none matched ih = ih
written-add current j symbol (some i) matched ih = elim (Bool-cases (str_eq i.id j)) [
  | inr other ↦ rw other ih
  | inl mine ↦
      let status : is_already_active (member_status current i.id)
          ≡ any (λ m. str_eq m.instrument_id j && m.active) current =
        ap (λ id. is_already_active (member_status current id)) ((eq_iff i.id j).0 mine)
        ∙ status-active current j in
      elim (Bool-cases (any (λ m. str_eq m.instrument_id j && m.active) current)) [
        | inl on ↦ rw mine (rw (status ∙ on) (rw on (ih ∙ rw on (ground arith))))
        | inr off ↦ rw mine (rw (status ∙ off) (rw off refl))
      ]
]

-- The written instruments are those of the file that are no active members yet.
pub written-match :
    (instruments : List InstrumentRow) (exchange : String) (current : List MemberRow)
    (symbols : List String) (j : String)
    → written (match_symbols instruments exchange current symbols) j ≡ (
        is_matched (match_symbols instruments exchange current symbols) j
        && not (any (λ m. str_eq m.instrument_id j && m.active) current))
written-match instruments exchange current [] j = refl
written-match instruments exchange current (symbol ∷ symbols) j =
    written-add current j symbol (find (is_listed exchange symbol) instruments)
      (match_symbols instruments exchange current symbols)
      (written-match instruments exchange current symbols j)
