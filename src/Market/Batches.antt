-- ===== src/Market/Batches.antt =====
-- Checkpoints read in batches are those of one query: enough fuel is given, and a symbol's checkpoint does not depend
-- on how the symbols are divided.
use stock_harvesting_backend.Prelude.{
  ℕ, zero, suc, ◌-◌, ◌≤◌, String, List, [], ◌∷◌, Option, none, some, Bool, true, false, ◌&&◌, ◌||◌,
  str_eq, any, find, filter, length, if◌then◌else◌, ◌≡◌, ◌∙◌, sym, ap, subst, refl, arith,
  Bool-cases, inl, inr,
}
use text.Mathlib.TextEquality.{eq_iff}
use stock_harvesting_backend.Market.Checkpoints.{
  CheckpointRow, has_identity, take, drop, checkpoint_read_batch_size, set_checkpoint, set_each,
  select_batch, read_batches, read_candle_bootstrap_checkpoints_in_batches,
}

-- `checkpointsBySymbol.get(symbol)`
abbrev pub get_checkpoint : String → List CheckpointRow → Option CheckpointRow
get_checkpoint symbol by_symbol = find (λ r. str_eq r.symbol symbol) by_symbol

-- The last row that passes, or the one given.
abbrev pub last_match :
    (CheckpointRow → Bool) → List CheckpointRow → Option CheckpointRow → Option CheckpointRow
last_match p [] found = found
last_match p (r ∷ rows) found = last_match p rows (if p r then some r else found)

set_checkpoint-get :
    (symbol : String) (row : CheckpointRow) (by_symbol : List CheckpointRow)
    → get_checkpoint symbol (set_checkpoint row by_symbol)
      ≡ (if str_eq row.symbol symbol then some row else get_checkpoint symbol by_symbol)
set_checkpoint-get symbol row [] = refl
set_checkpoint-get symbol row (r ∷ by_symbol) =
    let ih = set_checkpoint-get symbol row by_symbol in
    elim (Bool-cases (str_eq r.symbol row.symbol)) [
      | inl same ↦
          let equal = (eq_iff r.symbol row.symbol).0 same in
          elim (Bool-cases (str_eq row.symbol symbol)) [
            | inl on ↦ rw same (rw on refl)
            | inr off ↦
                let out : str_eq r.symbol symbol ≡ false =
                  subst (λ s. str_eq s symbol ≡ false) (sym equal) off in
                rw same (rw off (rw out refl))
          ]
      | inr apart ↦ elim (Bool-cases (str_eq r.symbol symbol)) [
        | inl here ↦
            let equal = (eq_iff r.symbol symbol).0 here in
            elim (Bool-cases (str_eq row.symbol symbol)) [
              | inl on ↦ ground (arith, eq_iff r.symbol row.symbol, eq_iff row.symbol symbol, equal)
              | inr off ↦ rw apart (rw here (rw off refl))
            ]
        | inr gone ↦ rw apart (rw gone ih)
      ]
    ]

set_each-get :
    (symbol : String) (p : CheckpointRow → Bool) (rows by_symbol : List CheckpointRow)
    → get_checkpoint symbol (set_each (filter p rows) by_symbol)
      ≡ last_match (λ r. p r && str_eq r.symbol symbol) rows (get_checkpoint symbol by_symbol)
set_each-get symbol p [] by_symbol = refl
set_each-get symbol p (r ∷ rows) by_symbol = elim (Bool-cases (p r)) [
  | inl on ↦ rw on (
      set_each-get symbol p rows (set_checkpoint r by_symbol)
      ∙ ap (last_match (λ x. p x && str_eq x.symbol symbol) rows)
          (set_checkpoint-get symbol r by_symbol))
  | inr off ↦ rw off (set_each-get symbol p rows by_symbol)
]

last_match-same :
    (p q : CheckpointRow → Bool) (rows : List CheckpointRow) (found : Option CheckpointRow)
    → ((r : CheckpointRow) → p r ≡ q r)
    → last_match p rows found ≡ last_match q rows found
last_match-same p q [] found same = refl
last_match-same p q (r ∷ rows) found same =
    rw (same r) (last_match-same p q rows (if q r then some r else found) same)

last_match-none :
    (p : CheckpointRow → Bool) (rows : List CheckpointRow) (found : Option CheckpointRow)
    → ((r : CheckpointRow) → p r ≡ false)
    → last_match p rows found ≡ found
last_match-none p [] found off = refl
last_match-none p (r ∷ rows) found off = rw (off r) (last_match-none p rows found off)

-- What a second pass finds, the first one has found.
last_match-twice :
    (p : CheckpointRow → Bool) (rows : List CheckpointRow) (found other : Option CheckpointRow)
    → any p rows ≡ true
    → last_match p rows found ≡ last_match p rows other
last_match-twice p [] found other some_row = ground arith
last_match-twice p (r ∷ rows) found other some_row = elim (Bool-cases (p r)) [
  | inl on ↦ rw on refl
  | inr off ↦
      let rest : any p rows ≡ true = ground arith in
      rw off (last_match-twice p rows found other rest)
]

last_match-absent :
    (p : CheckpointRow → Bool) (rows : List CheckpointRow) (found : Option CheckpointRow)
    → any p rows ≡ false
    → last_match p rows found ≡ found
last_match-absent p [] found absent = refl
last_match-absent p (r ∷ rows) found absent =
    let here : p r ≡ false = ground arith in
    let rest : any p rows ≡ false = ground arith in rw here (last_match-absent p rows found rest)

last_match-idempotent :
    (p : CheckpointRow → Bool) (rows : List CheckpointRow) (found : Option CheckpointRow)
    → last_match p rows (last_match p rows found) ≡ last_match p rows found
last_match-idempotent p rows found = elim (Bool-cases (any p rows)) [
  | inl there ↦ last_match-twice p rows (last_match p rows found) found there
  | inr absent ↦ last_match-absent p rows (last_match p rows found) absent
]

any-take-drop :
    {A : Type 0} (n : ℕ) (p : A → Bool) (xs : List A)
    → any p xs ≡ (any p (take n xs) || any p (drop n xs))
any-take-drop zero p xs = refl
any-take-drop (suc n) p [] = refl
any-take-drop (suc n) p (x ∷ xs) =
    let ih = any-take-drop n p xs in
    elim (Bool-cases (p x)) [ inl on ↦ rw on refl | inr off ↦ rw off ih ]

pub length-drop : {A : Type 0} (n : ℕ) (xs : List A) → length (drop n xs) ≡ length xs - n
length-drop zero xs = omega arith
length-drop (suc n) [] = omega arith
length-drop (suc n) (x ∷ xs) = omega (arith, length-drop n xs)

module _ (exchange timeframe kind symbol : String) where
  abbrev is_asked : CheckpointRow → Bool
  is_asked r = has_identity exchange symbol timeframe kind r

  -- A row of a batch with the symbol is one that is asked for, if the batch has the symbol.
  batch_row :
      (batch : List String) (r : CheckpointRow)
      → any (str_eq symbol) batch ≡ true
      → (select_batch exchange timeframe kind batch r && str_eq r.symbol symbol) ≡ is_asked r
  batch_row batch r asked = elim (Bool-cases (str_eq r.symbol symbol)) [
    | inl here ↦
        let equal = (eq_iff r.symbol symbol).0 here in
        let inside : any (str_eq r.symbol) batch ≡ true =
          subst (λ s. any (str_eq s) batch ≡ true) (sym equal) asked in
        rw here (rw inside (ground arith))
    | inr gone ↦ rw gone (ground arith)
  ]

  batch_row-out :
      (batch : List String) (r : CheckpointRow)
      → any (str_eq symbol) batch ≡ false
      → (select_batch exchange timeframe kind batch r && str_eq r.symbol symbol) ≡ false
  batch_row-out batch r absent = elim (Bool-cases (str_eq r.symbol symbol)) [
    | inl here ↦
        let equal = (eq_iff r.symbol symbol).0 here in
        let outside : any (str_eq r.symbol) batch ≡ false =
          subst (λ s. any (str_eq s) batch ≡ false) (sym equal) absent in
        rw here (rw outside (ground arith))
    | inr gone ↦ rw gone (ground arith)
  ]

  -- One batch finds the last row that is asked for, if it has the symbol.
  batch-get :
      (batch : List String) (table by_symbol : List CheckpointRow)
      → get_checkpoint symbol
          (set_each (filter (λ r. select_batch exchange timeframe kind batch r) table) by_symbol)
        ≡ (if any (str_eq symbol) batch
            then last_match is_asked table (get_checkpoint symbol by_symbol)
            else get_checkpoint symbol by_symbol)
  batch-get batch table by_symbol =
      let selects : CheckpointRow → Bool = select_batch exchange timeframe kind batch in
      let found = set_each-get symbol selects table by_symbol in
      elim (Bool-cases (any (str_eq symbol) batch)) [
        | inl asked ↦ rw asked (
            found
            ∙ last_match-same (λ r. selects r && str_eq r.symbol symbol) is_asked table
                (get_checkpoint symbol by_symbol) (λ r. batch_row batch r asked))
        | inr absent ↦ rw absent (
            found
            ∙ last_match-none (λ r. selects r && str_eq r.symbol symbol) table
                (get_checkpoint symbol by_symbol) (λ r. batch_row-out batch r absent))
      ]

  -- What two parts of the symbols find together.
  combined :
      (batch left : List String) (asked : Bool) (table : List CheckpointRow)
      (after found : Option CheckpointRow)
      → asked ≡ (any (str_eq symbol) batch || any (str_eq symbol) left)
      → after ≡ (if any (str_eq symbol) batch then last_match is_asked table found else found)
      → (if any (str_eq symbol) left then last_match is_asked table after else after)
        ≡ (if asked then last_match is_asked table found else found)
  combined batch left asked table after found divided first =
      elim (Bool-cases (any (str_eq symbol) batch)) [
        | inl inside ↦
            let here : after ≡ last_match is_asked table found = first ∙ rw inside refl in
            let all_asked : asked ≡ true = ground arith in
            elim (Bool-cases (any (str_eq symbol) left)) [
              | inl again ↦
                  rw again (rw all_asked (rw here (last_match-idempotent is_asked table found)))
              | inr out ↦ rw out (rw all_asked here)
            ]
        | inr outside ↦
            let here : after ≡ found = ground arith in
            elim (Bool-cases (any (str_eq symbol) left)) [
              | inl later ↦
                  let all_asked : asked ≡ true = ground arith in
                  rw later (rw all_asked (rw here refl))
              | inr out ↦
                  let none_asked : asked ≡ false = ground arith in rw out (rw none_asked here)
            ]
      ]

  -- Enough fuel is given by the number of symbols.
  read_batches-get :
      (fuel : ℕ) (symbols : List String) (table by_symbol : List CheckpointRow)
      → length symbols ≤ fuel
      → get_checkpoint symbol (
          read_batches fuel
            (λ row batch. select_batch exchange timeframe kind batch row)
            table
            symbols
            by_symbol)
        ≡ (if any (str_eq symbol) symbols
            then last_match is_asked table (get_checkpoint symbol by_symbol)
            else get_checkpoint symbol by_symbol)
  unfolding read_batches
  read_batches-get zero [] table by_symbol enough = refl
  read_batches-get zero (s ∷ symbols) table by_symbol enough = ground arith
  read_batches-get (suc fuel) [] table by_symbol enough = refl
  read_batches-get (suc fuel) (s ∷ symbols) table by_symbol enough =
      let size = checkpoint_read_batch_size in
      let batch = take size (s ∷ symbols) in
      let left = drop size (s ∷ symbols) in
      let after =
        set_each (filter (λ r. select_batch exchange timeframe kind batch r) table) by_symbol in
      let fewer : length left ≤ fuel = omega (arith, length-drop size (s ∷ symbols), enough) in
      let ih = read_batches-get fuel left table after fewer in
      let first = batch-get batch table by_symbol in
      let divided = any-take-drop size (str_eq symbol) (s ∷ symbols) in
      ih
      ∙ combined batch left (any (str_eq symbol) (s ∷ symbols)) table (get_checkpoint symbol after)
          (get_checkpoint symbol by_symbol) divided first

-- Whatever the number of symbols, the checkpoint read for a symbol is the last row that one query for it would find,
-- and none where it was not asked for.
pub read_candle_bootstrap_checkpoints_in_batches_lem :
    (exchange timeframe kind symbol : String) (symbols : List String) (table : List CheckpointRow)
    → get_checkpoint symbol
        (read_candle_bootstrap_checkpoints_in_batches exchange symbols timeframe kind table)
      ≡ (if any (str_eq symbol) symbols
          then last_match (has_identity exchange symbol timeframe kind) table none
          else none)
unfolding read_candle_bootstrap_checkpoints_in_batches
read_candle_bootstrap_checkpoints_in_batches_lem exchange timeframe kind symbol symbols table =
    read_batches-get exchange timeframe kind symbol (length symbols) symbols table [] (omega arith)
