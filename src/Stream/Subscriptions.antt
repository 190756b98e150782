-- ===== src/Stream/Subscriptions.antt =====
-- What requests leave of a client's subscriptions, as a set of symbols.
use stock_harvesting_backend.Prelude.{
  ℕ, String, List, [], ◌∷◌, ◌++◌, Option, none, some, Bool, true, false, not, ◌&&◌, ◌||◌, leb, ltb,
  str_eq, if◌then◌else◌, ◌≡◌, ◌∙◌, refl, sym, ap, subst, arith, Bool-cases, inl, inr,
}
use text.Mathlib.TextEquality.{eq_iff}
use text.Mathlib.TextPositions.{eq_refl}
use stock_harvesting_backend.Database.Tables.{delete_where}
use stock_harvesting_backend.Stream.Hub.{
  StreamSymbol, same_key, has_subscription, add_subscription, drop_subscription, subscribe,
  unsubscribe, normalize_stream_symbol,
}

same_key-equal : (a b : StreamSymbol) → same_key a b ≡ true → a ≡ b
same_key-equal a b same =
    let exchanges : a.exchange ≡ b.exchange = (eq_iff a.exchange b.exchange).0 (ground arith) in
    let symbols : a.symbol ≡ b.symbol = (eq_iff a.symbol b.symbol).0 (ground arith) in cc

same_key_sym : (a b : StreamSymbol) → same_key a b ≡ same_key b a
same_key_sym a b = elim (Bool-cases (same_key a b)) [
  | inl on ↦ subst (λ x. same_key x b ≡ same_key b x) (sym (same_key-equal a b on)) refl
  | inr off ↦ elim (Bool-cases (same_key b a)) [
    | inr out ↦ off ∙ sym out
    | inl on ↦ subst (λ x. same_key a x ≡ same_key x a) (sym (same_key-equal b a on)) refl
  ]
]

has-append :
    (s t : StreamSymbol) (subs : List StreamSymbol)
    → has_subscription s (subs ++ t ∷ []) ≡ (has_subscription s subs || same_key s t)
has-append s t [] = ground arith
has-append s t (u ∷ subs) =
    let ih = has-append s t subs in
    elim (Bool-cases (same_key s u)) [ inl on ↦ rw on refl | inr off ↦ rw off ih ]

has-delete :
    (s t : StreamSymbol) (subs : List StreamSymbol)
    → has_subscription s (delete_where (same_key t) subs)
      ≡ (has_subscription s subs && not (same_key s t))
has-delete s t [] = refl
has-delete s t (u ∷ subs) =
    let ih = has-delete s t subs in
    elim (Bool-cases (same_key t u)) [
      | inl gone ↦
          let equal = same_key-equal t u gone in
          let same : same_key s u ≡ same_key s t = ap (same_key s) (sym equal) in
          elim (Bool-cases (same_key s t)) [
            | inl on ↦ rw gone (rw on (ih ∙ rw on (ground arith)))
            | inr off ↦ rw gone (rw (same ∙ off) ih)
          ]
      | inr kept ↦ elim (Bool-cases (same_key s u)) [
        | inl on ↦
            let equal = same_key-equal s u on in
            let apart : same_key s t ≡ false =
              subst (λ x. same_key x t ≡ false) (sym equal) (sym (same_key_sym t u) ∙ kept) in
            rw kept (rw on (rw apart refl))
        | inr off ↦ rw kept (rw off ih)
      ]
    ]

-- What a subscription asks for.
abbrev pub is_asked : Option StreamSymbol → StreamSymbol → Bool
is_asked none s = false
is_asked (some t) s = same_key s t

has-add :
    (s : StreamSymbol) (asked : Option StreamSymbol) (subs added : List StreamSymbol)
    → has_subscription s (add_subscription asked (subs, added)).0
      ≡ (has_subscription s subs || is_asked asked s)
has-add s none subs added = ground arith
has-add s (some t) subs added = elim (Bool-cases (has_subscription t subs)) [
  | inr new ↦ rw new (has-append s t subs)
  | inl there ↦ elim (Bool-cases (same_key s t)) [
    | inr off ↦ rw there (rw off (ground arith))
    | inl on ↦
        let mine : has_subscription s subs ≡ true =
          subst (λ x. has_subscription x subs ≡ true) (sym (same_key-equal s t on)) there in
        rw there (rw mine refl)
  ]
]

has-drop :
    (s : StreamSymbol) (asked : Option StreamSymbol) (subs removed : List StreamSymbol)
    → has_subscription s (drop_subscription asked (subs, removed)).0
      ≡ (has_subscription s subs && not (is_asked asked s))
has-drop s none subs removed = ground arith
has-drop s (some t) subs removed = elim (Bool-cases (has_subscription t subs)) [
  | inl there ↦ rw there (has-delete s t subs)
  | inr absent ↦ elim (Bool-cases (same_key s t)) [
    | inr off ↦ rw absent (rw off (ground arith))
    | inl on ↦
        let none_mine : has_subscription s subs ≡ false =
          subst (λ x. has_subscription x subs ≡ false) (sym (same_key-equal s t on)) absent in
        rw absent (rw none_mine refl)
  ]
]

module _ (normalize : String → String) (text_length : String → ℕ) where
  -- A symbol is meant by another one if it is that one normalized, not empty and not too long.
  abbrev pub is_meant : StreamSymbol → StreamSymbol → Bool
  is_meant t s =
      str_eq s.exchange (normalize t.exchange)
      && str_eq s.symbol (normalize t.symbol)
      && not (str_eq s.exchange "" || str_eq s.symbol "")
      && (leb (text_length s.exchange) 32 && leb (text_length s.symbol) 64)

  abbrev pub are_meant : List StreamSymbol → StreamSymbol → Bool
  are_meant [] s = false
  are_meant (t ∷ symbols) s = is_meant t s || are_meant symbols s

  asked_itself :
      (x y : String)
      → is_asked
          (if str_eq x "" || str_eq y ""
            then none
            else if ltb 32 (text_length x) || ltb 64 (text_length y)
            then none
            else some (record { exchange = x; symbol = y }))
          (record { exchange = x; symbol = y })
        ≡ (str_eq x x
            && str_eq y y
            && not (str_eq x "" || str_eq y "")
            && (leb (text_length x) 32 && leb (text_length y) 64))
  asked_itself x y = ground (arith, eq_refl x, eq_refl y)

  is_asked-normalize :
      (t s : StreamSymbol)
      → is_asked (normalize_stream_symbol normalize text_length t) s ≡ is_meant t s
  unfolding normalize_stream_symbol
  is_asked-normalize t s =
      let n : StreamSymbol = record {
        exchange = normalize t.exchange;
        symbol = normalize t.symbol;
      } in
      elim (Bool-cases (same_key s n)) [
        | inl same ↦
            subst (λ x. is_asked (normalize_stream_symbol normalize text_length t) x ≡ is_meant t x)
              (sym (same_key-equal s n same)) (asked_itself n.exchange n.symbol)
        | inr other ↦ ground (arith, other)
      ]

  pub has-subscribe :
      (s : StreamSymbol) (symbols : List StreamSymbol)
      (state : List StreamSymbol × List StreamSymbol)
      → has_subscription s (subscribe normalize text_length symbols state).0
        ≡ (has_subscription s state.0 || are_meant symbols s)
  unfolding subscribe
  has-subscribe s [] state = ground arith
  has-subscribe s (t ∷ symbols) state =
      let asked = normalize_stream_symbol normalize text_length t in
      has-subscribe s symbols (add_subscription asked state)
      ∙ ap (λ b. b || are_meant symbols s)
          (has-add s asked state.0 state.1
            ∙ ap (λ b. has_subscription s state.0 || b) (is_asked-normalize t s))
      ∙ ground arith

  pub has-unsubscribe :
      (s : StreamSymbol) (symbols : List StreamSymbol)
      (state : List StreamSymbol × List StreamSymbol)
      → has_subscription s (unsubscribe normalize text_length symbols state).0
        ≡ (has_subscription s state.0 && not (are_meant symbols s))
  unfolding unsubscribe
  has-unsubscribe s [] state = ground arith
  has-unsubscribe s (t ∷ symbols) state =
      let asked = normalize_stream_symbol normalize text_length t in
      has-unsubscribe s symbols (drop_subscription asked state)
      ∙ ap (λ b. b && not (are_meant symbols s))
          (has-drop s asked state.0 state.1
            ∙ ap (λ b. has_subscription s state.0 && not b) (is_asked-normalize t s))
      ∙ ground arith
