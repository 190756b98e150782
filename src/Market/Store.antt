-- ===== src/Market/Store.antt =====
-- The stored candles as a function from keys: what a write and a replacement do to it.
use stock_harvesting_backend.Prelude.{
  ℕ, zero, suc, ◌≤◌, String, List, [], ◌∷◌, Option, none, some, true, false, any, find, length,
  if◌then◌else◌, ◌≡◌, ◌∙◌, sym, ap, subst, refl, arith, Bool-cases, false≢true, inl, inr,
}
use text.Mathlib.TextEquality.{eq_iff}
use text.Mathlib.TextPositions.{eq_refl}
use stock_harvesting_backend.Market.Checkpoints.{take, drop}
use stock_harvesting_backend.Market.Batches.{length-drop}
use stock_harvesting_backend.Market.Candles.{
  Candle, CandleKey, CandleRow, key_of, key_eq, has_candle_key, set_input, dedupe_from,
  dedupe_candle_upsert_inputs, upsert_row, upsert_rows, upsert_chunks, candle_upsert_chunk_size,
  upsert_candles,
}

-- The candles that a reader sees: for each key the candle and its source.
abbrev pub View : Type 0
View = CandleKey → Option (Candle × String)

abbrev pub look_up : CandleKey → List CandleRow → Option (Candle × String)
look_up key [] = none
look_up key (r ∷ rows) =
    if has_candle_key key r then some (r.candle, r.source) else look_up key rows

abbrev pub view : List CandleRow → View
view rows key = look_up key rows

-- A write: the key has the new candle, the others what they had.
abbrev pub write : CandleRow → View → View
write input v key = if has_candle_key key input then some (input.candle, input.source) else v key

abbrev pub write_all : List CandleRow → View → View
write_all [] v = v
write_all (input ∷ inputs) v = write_all inputs (write input v)

pub key_equal : (a b : CandleKey) → key_eq a b ≡ true → a ≡ b
key_equal a b same =
    let ids : a.instrument_id ≡ b.instrument_id =
      (eq_iff a.instrument_id b.instrument_id).0 (ground arith) in
    let frames : a.timeframe ≡ b.timeframe = (eq_iff a.timeframe b.timeframe).0 (ground arith) in
    let times : a.time ≡ b.time = ground arith in cc

key_refl : (a : CandleKey) → key_eq a a ≡ true
key_refl a = rw (eq_refl a.instrument_id) (rw (eq_refl a.timeframe) (ground arith))

-- A key that matches one row matches exactly the rows with that row's key.
same_keys :
    (a : CandleKey) (i : CandleRow) (key : CandleKey)
    → key_eq a (key_of i) ≡ true
    → key_eq a key ≡ has_candle_key key i
same_keys a i key same = ap (λ k. key_eq k key) (key_equal a (key_of i) same)

view-upsert_row :
    (input : CandleRow) (rows : List CandleRow) (key : CandleKey)
    → view (upsert_row input rows) key ≡ write input (view rows) key
view-upsert_row input [] key = refl
view-upsert_row input (r ∷ rows) key =
    let ih = view-upsert_row input rows key in
    elim (Bool-cases (has_candle_key (key_of input) r)) [
      | inl same ↦
          let updated : CandleRow = record r { candle = input.candle; source = input.source } in
          let keys : has_candle_key key updated ≡ has_candle_key key input =
            ap (λ k. key_eq (record k { time = input.candle.time }) key)
              (key_equal (key_of r) (key_of input) same) in
          elim (Bool-cases (has_candle_key key input)) [
            | inl on ↦ rw same (rw (keys ∙ on) (rw on refl))
            | inr off ↦
                let gone = same_keys (key_of r) input key same ∙ off in
                rw same (rw (keys ∙ off) (rw off (rw gone refl)))
          ]
      | inr other ↦ elim (Bool-cases (has_candle_key key r)) [
        | inr gone ↦ rw other (rw gone ih)
        | inl here ↦ elim (Bool-cases (has_candle_key key input)) [
          | inr off ↦ rw other (rw here (rw off refl))
          | inl on ↦
              let equal = key_equal (key_of input) key on in
              let clash : has_candle_key (key_of input) r ≡ true =
                subst (λ k. has_candle_key k r ≡ true) (sym equal) here in
              elim (false≢true (sym other ∙ clash)) [ ]
        ]
      ]
    ]

write-same :
    (input : CandleRow) (v w : View) (key : CandleKey)
    → v key ≡ w key
    → write input v key ≡ write input w key
write-same input v w key same = rw same refl

pub write_all-same :
    (inputs : List CandleRow) (v w : View) (key : CandleKey)
    → v key ≡ w key
    → write_all inputs v key ≡ write_all inputs w key
write_all-same [] v w key same = same
write_all-same (i ∷ inputs) v w key same =
    write_all-same inputs (write i v) (write i w) key (write-same i v w key same)

view-upsert_rows :
    (inputs rows : List CandleRow) (key : CandleKey)
    → view (upsert_rows inputs rows) key ≡ write_all inputs (view rows) key
view-upsert_rows [] rows key = refl
view-upsert_rows (i ∷ inputs) rows key =
    view-upsert_rows inputs (upsert_row i rows) key
    ∙ write_all-same inputs (view (upsert_row i rows)) (write i (view rows)) key
        (view-upsert_row i rows key)

write_all-take-drop :
    (n : ℕ) (inputs : List CandleRow) (v : View)
    → write_all (drop n inputs) (write_all (take n inputs) v) ≡ write_all inputs v
write_all-take-drop zero inputs v = refl
write_all-take-drop (suc n) [] v = refl
write_all-take-drop (suc n) (i ∷ inputs) v = write_all-take-drop n inputs (write i v)

-- The number of inputs is enough fuel for their chunks.
view-upsert_chunks :
    (fuel : ℕ) (inputs rows : List CandleRow) (key : CandleKey)
    → length inputs ≤ fuel
    → view (upsert_chunks fuel inputs rows) key ≡ write_all inputs (view rows) key
unfolding upsert_chunks
view-upsert_chunks zero [] rows key enough = refl
view-upsert_chunks zero (i ∷ inputs) rows key enough = ground arith
view-upsert_chunks (suc fuel) [] rows key enough = refl
view-upsert_chunks (suc fuel) (i ∷ inputs) rows key enough =
    let size = candle_upsert_chunk_size in
    let all_inputs = i ∷ inputs in
    let fewer : length (drop size all_inputs) ≤ fuel =
      omega (arith, length-drop size all_inputs, enough) in
    let first = upsert_rows (take size all_inputs) rows in
    view-upsert_chunks fuel (drop size all_inputs) first key fewer
    ∙ write_all-same (drop size all_inputs) (view first)
        (write_all (take size all_inputs) (view rows)) key
        (view-upsert_rows (take size all_inputs) rows key)
    ∙ ap (λ v. v key) (write_all-take-drop size all_inputs (view rows))

-- The keys of a list are different.
abbrev Distinct : List CandleRow → Type 0
Distinct [] = Unit
Distinct (i ∷ inputs) = (any (has_candle_key (key_of i)) inputs ≡ false) × Distinct inputs

any-set_input :
    (input : CandleRow) (inputs : List CandleRow) (key : CandleKey)
    → has_candle_key key input ≡ false
    → any (has_candle_key key) (set_input input inputs) ≡ any (has_candle_key key) inputs
any-set_input input [] key other = rw other refl
any-set_input input (i ∷ inputs) key other =
    let ih = any-set_input input inputs key other in
    elim (Bool-cases (has_candle_key (key_of input) i)) [
      | inl same ↦
          let gone : has_candle_key key i ≡ false = same_keys (key_of i) input key same ∙ other in
          rw same (rw other (rw gone refl))
      | inr apart ↦ rw apart (rw ih refl)
    ]

key_eq_sym : (a b : CandleKey) → key_eq a b ≡ false → key_eq b a ≡ false
key_eq_sym a b apart = elim (Bool-cases (key_eq b a)) [
  | inr other ↦ other
  | inl same ↦
      let equal = key_equal b a same in
      let clash : key_eq a b ≡ true = subst (λ k. key_eq a k ≡ true) (sym equal) (key_refl a) in
      elim (false≢true (sym apart ∙ clash)) [ ]
]

set_input-Distinct :
    (input : CandleRow) (inputs : List CandleRow)
    → Distinct inputs
    → Distinct (set_input input inputs)
set_input-Distinct input [] distinct = (refl, tt)
set_input-Distinct input (i ∷ inputs) distinct =
    elim (Bool-cases (has_candle_key (key_of input) i)) [
      | inl same ↦
          let equal = key_equal (key_of i) (key_of input) same in
          let first : any (has_candle_key (key_of input)) inputs ≡ false =
            subst (λ k. any (has_candle_key k) inputs ≡ false) equal distinct.0 in
          rw same (first, distinct.1)
      | inr apart ↦
          let other = key_eq_sym (key_of i) (key_of input) apart in
          rw apart (
            any-set_input input inputs (key_of i) other ∙ distinct.0,
            set_input-Distinct input inputs distinct.1,
          )
    ]

-- The input that a map of inputs holds for a key.
abbrev get_input : CandleKey → List CandleRow → Option CandleRow
get_input key inputs = find (has_candle_key key) inputs

get-set_input :
    (input : CandleRow) (inputs : List CandleRow) (key : CandleKey)
    → get_input key (set_input input inputs)
      ≡ (if has_candle_key key input then some input else get_input key inputs)
get-set_input input [] key = refl
get-set_input input (i ∷ inputs) key =
    let ih = get-set_input input inputs key in
    elim (Bool-cases (has_candle_key (key_of input) i)) [
      | inl same ↦
          let keys = same_keys (key_of i) input key same in
          elim (Bool-cases (has_candle_key key input)) [
            | inl on ↦ rw same (rw on refl)
            | inr off ↦ rw same (rw off (rw (keys ∙ off) refl))
          ]
      | inr other ↦ elim (Bool-cases (has_candle_key key i)) [
        | inr gone ↦ rw other (rw gone ih)
        | inl here ↦ elim (Bool-cases (has_candle_key key input)) [
          | inr off ↦ rw other (rw here (rw off refl))
          | inl on ↦
              let equal = key_equal (key_of input) key on in
              let clash : has_candle_key (key_of input) i ≡ true =
                subst (λ k. has_candle_key k i ≡ true) (sym equal) here in
              elim (false≢true (sym other ∙ clash)) [ ]
        ]
      ]
    ]

-- What a held input writes, or what was there.
abbrev written : Option CandleRow → Option (Candle × String) → Option (Candle × String)
written none old = old
written (some input) old = some (input.candle, input.source)

write_all-absent :
    (inputs : List CandleRow) (v : View) (key : CandleKey)
    → any (has_candle_key key) inputs ≡ false
    → write_all inputs v key ≡ v key
write_all-absent [] v key absent = refl
write_all-absent (i ∷ inputs) v key absent =
    let here : has_candle_key key i ≡ false = ground arith in
    let rest : any (has_candle_key key) inputs ≡ false = ground arith in
    write_all-absent inputs (write i v) key rest ∙ rw here refl

-- On different keys the order does not matter: the input of a key is what is written.
write_all-get :
    (inputs : List CandleRow) (v : View) (key : CandleKey)
    → Distinct inputs
    → write_all inputs v key ≡ written (get_input key inputs) (v key)
write_all-get [] v key distinct = refl
write_all-get (i ∷ inputs) v key distinct = elim (Bool-cases (has_candle_key key i)) [
  | inl on ↦
      let equal = key_equal (key_of i) key on in
      let absent : any (has_candle_key key) inputs ≡ false =
        subst (λ k. any (has_candle_key k) inputs ≡ false) equal distinct.0 in
      write_all-absent inputs (write i v) key absent ∙ rw on refl
  | inr off ↦ write_all-get inputs (write i v) key distinct.1 ∙ rw off refl
]

dedupe_from-view :
    (kept inputs : List CandleRow) (v : View) (key : CandleKey)
    → Distinct kept
    → write_all (dedupe_from kept inputs) v key
      ≡ write_all inputs (λ k. written (get_input k kept) (v k)) key
dedupe_from-view kept [] v key distinct = write_all-get kept v key distinct
dedupe_from-view kept (i ∷ inputs) v key distinct =
    dedupe_from-view (set_input i kept) inputs v key (set_input-Distinct i kept distinct)
    ∙ write_all-same inputs (λ k. written (get_input k (set_input i kept)) (v k))
        (write i (λ k. written (get_input k kept) (v k))) key (one_write i kept v key)
  where
    one_write :
        (i : CandleRow) (kept : List CandleRow) (v : View) (key : CandleKey)
        → written (get_input key (set_input i kept)) (v key)
          ≡ write i (λ k. written (get_input k kept) (v k)) key
    one_write i kept v key = elim (Bool-cases (has_candle_key key i)) [
      | inl on ↦ rw (get-set_input i kept key) (rw on refl)
      | inr off ↦ rw (get-set_input i kept key) (rw off refl)
    ]

-- Writing candles, whatever their number and however often a key occurs, leaves each key with the last candle written
-- to it, and every other key as it was.
pub upsert_candles-refines :
    (inputs rows : List CandleRow) (key : CandleKey)
    → view (upsert_candles inputs rows) key ≡ write_all inputs (view rows) key
unfolding upsert_candles dedupe_candle_upsert_inputs
upsert_candles-refines inputs rows key =
    view-upsert_chunks (length (dedupe_from [] inputs)) (dedupe_from [] inputs) rows key
      (omega arith)
    ∙ dedupe_from-view [] inputs (view rows) key tt
