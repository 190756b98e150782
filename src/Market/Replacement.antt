-- ===== src/Market/Replacement.antt =====
-- What a replacement of an instrument's candles does to the stored ones.
use stock_harvesting_backend.Prelude.{
  ℕ, arith, Bool, not, ltb, ◌||◌, ◌&&◌, String, str_eq, List, [], ◌∷◌, ◌++◌, none, map,
  if◌then◌else◌, ◌≡◌, ◌∙◌, refl, ap, sym, Bool-cases, inl, inr,
}
use stock_harvesting_backend.Market.Candles.{
  Candle, CandleKey, CandleRow, key_of, has_candle_key, upsert_candles, in_refresh,
  delete_candles_for_refresh, ReplaceInput, row_of, day, week, month, replace_with,
  replace_unless_empty, replace_candles_atomically,
}
use stock_harvesting_backend.Market.Store.{
  View, view, write, write_all, write_all-same, upsert_candles-refines, key_equal,
}

-- A candle by day, week or month of the instrument that is not before the range and not after it.
abbrev is_forgotten : String → ℕ → ℕ → CandleKey → Bool
is_forgotten instrument_id from to key =
    not (ltb key.time from || ltb to key.time)
    && (str_eq key.timeframe day || str_eq key.timeframe week || str_eq key.timeframe month)
    && str_eq key.instrument_id instrument_id

abbrev forget : String → ℕ → ℕ → View → View
forget instrument_id from to v key = if is_forgotten instrument_id from to key then none else v key

in_refresh_lem :
    (instrument_id : String) (from to : ℕ) (key : CandleKey)
    → in_refresh instrument_id from to key ≡ is_forgotten instrument_id from to key
in_refresh_lem instrument_id from to key = ground arith

view-in_refresh :
    (instrument_id : String) (from to : ℕ) (rows : List CandleRow) (key : CandleKey)
    → view (delete_candles_for_refresh instrument_id from to rows) key
      ≡ (if in_refresh instrument_id from to key then none else view rows key)
unfolding delete_candles_for_refresh
view-in_refresh instrument_id from to [] key =
    elim (Bool-cases (in_refresh instrument_id from to key)) [
      | inl on ↦ rw on refl
      | inr off ↦ rw off refl
    ]
view-in_refresh instrument_id from to (r ∷ rows) key =
    let ih = view-in_refresh instrument_id from to rows key in
    elim (Bool-cases (has_candle_key key r)) [
      | inl here ↦
          let same = ap (in_refresh instrument_id from to) (key_equal (key_of r) key here) in
          elim (Bool-cases (in_refresh instrument_id from to key)) [
            | inl on ↦ rw (same ∙ on) (ih ∙ rw on refl)
            | inr off ↦ rw (same ∙ off) (rw here (rw off refl))
          ]
      | inr gone ↦ elim (Bool-cases (in_refresh instrument_id from to (key_of r))) [
        | inl on ↦ rw on (ih ∙ rw gone refl)
        | inr off ↦ rw off (rw gone ih)
      ]
    ]

view-delete :
    (instrument_id : String) (from to : ℕ) (rows : List CandleRow) (key : CandleKey)
    → view (delete_candles_for_refresh instrument_id from to rows) key
      ≡ forget instrument_id from to (view rows) key
view-delete instrument_id from to rows key =
    view-in_refresh instrument_id from to rows key
    ∙ ap (λ b. if b then none else view rows key) (in_refresh_lem instrument_id from to key)

-- The rows of a replacement, in the order of their writing.
abbrev pub replacement_rows : ReplaceInput → List CandleRow
replacement_rows input =
    map (row_of input day "provider") input.daily
    ++ (map (row_of input week "derived") input.weekly
        ++ map (row_of input month "derived") input.monthly)

-- The replacement on the readers' side.
abbrev pub replaced : List Candle → ReplaceInput → View → View
replaced [] input v key = v key
replaced (candle ∷ candles) input v key =
    write_all (replacement_rows input) (forget input.instrument_id input.from input.to v) key

write_all-append :
    (xs ys : List CandleRow) (v : View) → write_all (xs ++ ys) v ≡ write_all ys (write_all xs v)
write_all-append [] ys v = refl
write_all-append (x ∷ xs) ys v = write_all-append xs ys (write x v)

replace_with-refines :
    (input : ReplaceInput) (rows : List CandleRow) (key : CandleKey)
    → view (replace_with input rows) key
      ≡ write_all
          (replacement_rows input)
          (forget input.instrument_id input.from input.to (view rows))
          key
replace_with-refines input rows key =
    let daily = map (row_of input day "provider") input.daily in
    let weekly = map (row_of input week "derived") input.weekly in
    let monthly = map (row_of input month "derived") input.monthly in
    let old = forget input.instrument_id input.from input.to (view rows) in
    let base = delete_candles_for_refresh input.instrument_id input.from input.to rows in
    let one = upsert_candles daily base in
    let two = upsert_candles weekly one in
    upsert_candles-refines monthly two key
    ∙ write_all-same monthly (view two) (write_all weekly (write_all daily old)) key (
        upsert_candles-refines weekly one key
        ∙ write_all-same weekly (view one) (write_all daily old) key (
            upsert_candles-refines daily base key
            ∙ write_all-same daily (view base) old key
                (view-delete input.instrument_id input.from input.to rows key)))
    ∙ sym (
        ap (λ v. v key)
          (write_all-append daily (weekly ++ monthly) old
            ∙ write_all-append weekly monthly (write_all daily old)))

-- A replacement without daily candles changes nothing; any other one forgets the instrument's candles of the range and
-- then writes the daily, weekly and monthly ones, the last one of a key, and no other candle changes.
pub replace_candles_atomically-refines :
    (input : ReplaceInput) (rows : List CandleRow) (key : CandleKey)
    → view (replace_candles_atomically input rows) key ≡ replaced input.daily input (view rows) key
unfolding replace_candles_atomically
replace_candles_atomically-refines input rows key = by_daily input.daily
  where
    by_daily :
        (daily : List Candle)
        → view (replace_unless_empty daily input rows) key ≡ replaced daily input (view rows) key
    by_daily [] = refl
    by_daily (c ∷ cs) = replace_with-refines input rows key
