-- ===== src/Collections/Symbols.antt =====
-- Which symbols a collection's file names.
use stock_harvesting_backend.Prelude.{
  String, List, [], ◌∷◌, ◌++◌, Bool, false, not, ◌&&◌, ◌||◌, str_eq, any, ◌≡◌, ◌∙◌, refl, sym, ap,
  arith, Bool-cases, inl, inr,
}
use text.Mathlib.TextEquality.{eq_iff}
use stock_harvesting_backend.Collections.Members.{str_eq_sym}
use stock_harvesting_backend.Collections.Parse.{
  Parsed, nothing_parsed, is_blank, take_token, take_tokens,
}

-- No symbol occurs twice.
abbrev pub IsDistinct : List String → Type 0
IsDistinct [] = Unit
IsDistinct (x ∷ xs) = (any (str_eq x) xs ≡ false) × IsDistinct xs

any-append :
    (x y : String) (xs : List String)
    → any (str_eq x) (xs ++ y ∷ []) ≡ (any (str_eq x) xs || str_eq x y)
any-append x y [] = ground arith
any-append x y (z ∷ xs) =
    let ih = any-append x y xs in
    elim (Bool-cases (str_eq x z)) [ inl on ↦ rw on refl | inr off ↦ rw off ih ]

append-IsDistinct :
    (y : String) (xs : List String)
    → any (str_eq y) xs ≡ false
    → IsDistinct xs
    → IsDistinct (xs ++ y ∷ [])
append-IsDistinct y [] absent distinct = (refl, tt)
append-IsDistinct y (x ∷ xs) absent distinct =
    let here : str_eq y x ≡ false = ground arith in
    let rest : any (str_eq y) xs ≡ false = ground arith in
    (
      any-append x y xs ∙ rw (distinct.0, str_eq_sym x y) here,
      append-IsDistinct y xs rest distinct.1,
    )

-- The tokens that count: tickers that are not blank.
abbrev pub counts : (String → Bool) → String → Bool
counts is_ticker x = is_ticker x && not (is_blank x)

module _ (is_ticker : String → Bool) where
  take_token-any :
      (x token : String) (parsed : Parsed)
      → any (str_eq x) (take_token is_ticker token parsed).candidate_symbols
        ≡ (any (str_eq x) parsed.candidate_symbols || (str_eq x token && counts is_ticker x))
  unfolding take_token
  take_token-any x token parsed = elim (Bool-cases (str_eq x token)) [
    | inl same ↦
        let equal : x ≡ token = (eq_iff x token).0 same in
        let blank : is_blank token ≡ is_blank x = ap is_blank (sym equal) in
        let ticker : is_ticker token ≡ is_ticker x = ap is_ticker (sym equal) in
        let seen : any (str_eq token) parsed.candidate_symbols
            ≡ any (str_eq x) parsed.candidate_symbols =
          ap (λ t. any (str_eq t) parsed.candidate_symbols) (sym equal) in
        elim (Bool-cases (is_blank x)) [
          | inl empty ↦ rw (blank ∙ empty) (rw (same, empty) (ground arith))
          | inr full ↦ elim (Bool-cases (is_ticker x)) [
            | inr wrong ↦ rw (blank ∙ full) (rw (ticker ∙ wrong) (rw (same, wrong) (ground arith)))
            | inl good ↦ elim (Bool-cases (any (str_eq x) parsed.candidate_symbols)) [
              | inl old ↦ rw (blank ∙ full) (rw (ticker ∙ good) (rw (seen ∙ old) (rw old refl)))
              | inr fresh ↦ rw (blank ∙ full) (
                  rw (ticker ∙ good) (
                    rw (seen ∙ fresh)
                      (any-append x token parsed.candidate_symbols ∙ rw (same, good, full) refl)))
            ]
          ]
        ]
    | inr other ↦ elim (Bool-cases (is_blank token)) [
      | inl empty ↦ rw empty (rw other (ground arith))
      | inr full ↦ elim (Bool-cases (is_ticker token)) [
        | inr wrong ↦ rw full (rw wrong (rw other (ground arith)))
        | inl good ↦ elim (Bool-cases (any (str_eq token) parsed.candidate_symbols)) [
          | inl old ↦ rw full (rw good (rw old (rw other (ground arith))))
          | inr fresh ↦
              rw full
                (rw good (rw fresh (any-append x token parsed.candidate_symbols ∙ rw other refl)))
        ]
      ]
    ]
  ]

  take_token-IsDistinct :
      (token : String) (parsed : Parsed)
      → IsDistinct parsed.candidate_symbols
      → IsDistinct (take_token is_ticker token parsed).candidate_symbols
  unfolding take_token
  take_token-IsDistinct token parsed distinct = elim (Bool-cases (is_blank token)) [
    | inl empty ↦ rw empty distinct
    | inr full ↦ elim (Bool-cases (is_ticker token)) [
      | inr wrong ↦ rw full (rw wrong distinct)
      | inl good ↦ elim (Bool-cases (any (str_eq token) parsed.candidate_symbols)) [
        | inl old ↦ rw full (rw good (rw old distinct))
        | inr fresh ↦
            rw full
              (rw good (rw fresh (append-IsDistinct token parsed.candidate_symbols fresh distinct)))
      ]
    ]
  ]

  take_tokens-from :
      (x : String) (tokens : List String) (parsed : Parsed)
      → IsDistinct parsed.candidate_symbols
      → (any (str_eq x) (take_tokens is_ticker tokens parsed).candidate_symbols ≡ (
          any (str_eq x) parsed.candidate_symbols || (any (str_eq x) tokens && counts is_ticker x)))
        × IsDistinct (take_tokens is_ticker tokens parsed).candidate_symbols
  unfolding take_tokens
  take_tokens-from x [] parsed distinct = (ground arith, distinct)
  take_tokens-from x (token ∷ tokens) parsed distinct =
      let next = take_token is_ticker token parsed in
      let ih = take_tokens-from x tokens next (take_token-IsDistinct token parsed distinct) in
      (
        ih.0
            ∙ ap (λ b. b || (any (str_eq x) tokens && counts is_ticker x))
                (take_token-any x token parsed)
            ∙ spread (any (str_eq x) parsed.candidate_symbols) (str_eq x token)
                (any (str_eq x) tokens) (counts is_ticker x),
        ih.1,
      )
    where
      spread : (a b c d : Bool) → ((a || (b && d)) || (c && d)) ≡ (a || ((b || c) && d))
      spread a b c d = ground arith

-- The symbols of a file are its tokens that are shaped like a ticker and not blank, each once however often it occurs.
pub take_tokens_lem :
    (is_ticker : String → Bool) (tokens : List String) (x : String)
    → let parsed = take_tokens is_ticker tokens nothing_parsed in
      (any (str_eq x) parsed.candidate_symbols
        ≡ (any (str_eq x) tokens && (is_ticker x && not (is_blank x))))
      × IsDistinct parsed.candidate_symbols
take_tokens_lem is_ticker tokens x = take_tokens-from is_ticker x tokens nothing_parsed tt
