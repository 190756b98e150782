-- ===== src/Market/Marks.antt =====
-- Confirmed no-history marks: what is read after one is recorded or cleared, and when a check is due again.
use stock_harvesting_backend.Prelude.{
  ℕ, ◌+◌, ◌≤◌, String, List, [], ◌∷◌, Option, none, some, Bool, true, false, str_eq, any,
  if◌then◌else◌, ◌≡◌, ◌↔◌, ◌∙◌, sym, subst, refl, arith, Bool-cases, inl, inr,
}
use text.Mathlib.TextPositions.{eq_refl}
use text.Mathlib.TextEquality.{eq_iff}
use stock_harvesting_backend.Database.Tables.{update_where, insert_row, delete_where}
use stock_harvesting_backend.Market.Checkpoints.{
  CheckpointRow, identifies, overwrite, checkpoint_row, upsert_candle_bootstrap_checkpoint,
}
use stock_harvesting_backend.Market.NoHistory.{
  no_history_recheck_interval_ms, no_history_recheck_cutoff, is_no_history_recheck_due, is_mark,
  is_confirmed, no_history_input, read_no_history_confirmed_at, record_no_history_confirmed,
  clear_no_history,
}

-- The time that a list of rows confirms, by the first that passes.
abbrev confirmed_at : (CheckpointRow → Bool) → List CheckpointRow → Option ℕ
confirmed_at p [] = none
confirmed_at p (row ∷ rows) = if p row then row.completed_at else confirmed_at p rows

read-confirmed_at :
    (exchange symbol : String) (rows : List CheckpointRow)
    → read_no_history_confirmed_at exchange symbol rows
      ≡ confirmed_at (is_confirmed exchange symbol) rows
unfolding read_no_history_confirmed_at
read-confirmed_at exchange symbol [] = refl
read-confirmed_at exchange symbol (r ∷ rows) =
    let ih = read-confirmed_at exchange symbol rows in
    elim (Bool-cases (is_confirmed exchange symbol r)) [ inl on ↦ rw on refl | inr off ↦ rw off ih ]

-- Where a row is changed into one that confirms a time, and some row is changed, that time is read.
confirmed_at-update :
    (p q : CheckpointRow → Bool) (f : CheckpointRow → CheckpointRow) (now : ℕ)
    (rows : List CheckpointRow)
    → ((r : CheckpointRow) → q r ≡ true → (p (f r) ≡ true) × ((f r).completed_at ≡ some now))
    → ((r : CheckpointRow) → q r ≡ false → p r ≡ false)
    → any q rows ≡ true
    → confirmed_at p (update_where q f rows) ≡ some now
confirmed_at-update p q f now [] on off some_row = ground arith
confirmed_at-update p q f now (r ∷ rows) on off some_row = elim (Bool-cases (q r)) [
  | inl here ↦ rw here (rw (on r here).0 (on r here).1)
  | inr gone ↦
      let later : any q rows ≡ true = ground arith in
      rw gone (rw (off r gone) (confirmed_at-update p q f now rows on off later))
]

confirmed_at-insert :
    (p : CheckpointRow → Bool) (rows : List CheckpointRow) (row : CheckpointRow)
    → any p rows ≡ false
    → p row ≡ true
    → confirmed_at p (insert_row row rows) ≡ row.completed_at
confirmed_at-insert p [] row clear set = rw set refl
confirmed_at-insert p (r ∷ rows) row clear set =
    let here : p r ≡ false = ground arith in
    let rest : any p rows ≡ false = ground arith in
    rw here (confirmed_at-insert p rows row rest set)

any-weaker :
    (p q : CheckpointRow → Bool) (rows : List CheckpointRow)
    → ((r : CheckpointRow) → q r ≡ false → p r ≡ false)
    → any q rows ≡ false
    → any p rows ≡ false
any-weaker p q [] off clear = refl
any-weaker p q (r ∷ rows) off clear =
    let here : q r ≡ false = ground arith in
    let rest : any q rows ≡ false = ground arith in rw (off r here) (any-weaker p q rows off rest)

-- What a change or a deletion does not concern is read as before.
confirmed_at-other :
    (p q : CheckpointRow → Bool) (f : CheckpointRow → CheckpointRow) (rows : List CheckpointRow)
    → ((r : CheckpointRow) → q r ≡ true → (p r ≡ false) × (p (f r) ≡ false))
    → confirmed_at p (update_where q f rows) ≡ confirmed_at p rows
confirmed_at-other p q f [] apart = refl
confirmed_at-other p q f (r ∷ rows) apart =
    let ih = confirmed_at-other p q f rows apart in
    elim (Bool-cases (q r)) [
      | inl on ↦ rw on (rw (apart r on).0 (rw (apart r on).1 ih))
      | inr off ↦ elim (Bool-cases (p r)) [
        | inl here ↦ rw off (rw here refl)
        | inr gone ↦ rw off (rw gone ih)
      ]
    ]

confirmed_at-insert_other :
    (p : CheckpointRow → Bool) (rows : List CheckpointRow) (row : CheckpointRow)
    → p row ≡ false
    → confirmed_at p (insert_row row rows) ≡ confirmed_at p rows
confirmed_at-insert_other p [] row clear = rw clear refl
confirmed_at-insert_other p (r ∷ rows) row clear =
    let ih = confirmed_at-insert_other p rows row clear in
    elim (Bool-cases (p r)) [ inl here ↦ rw here refl | inr gone ↦ rw gone ih ]

confirmed_at-delete :
    (p q : CheckpointRow → Bool) (rows : List CheckpointRow)
    → ((r : CheckpointRow) → q r ≡ false → p r ≡ false)
    → confirmed_at p (delete_where q rows) ≡ none
confirmed_at-delete p q [] off = refl
confirmed_at-delete p q (r ∷ rows) off =
    let ih = confirmed_at-delete p q rows off in
    elim (Bool-cases (q r)) [ inl on ↦ rw on ih | inr out ↦ rw out (rw (off r out) ih) ]

confirmed_at-delete_other :
    (p q : CheckpointRow → Bool) (rows : List CheckpointRow)
    → ((r : CheckpointRow) → q r ≡ true → p r ≡ false)
    → confirmed_at p (delete_where q rows) ≡ confirmed_at p rows
confirmed_at-delete_other p q [] apart = refl
confirmed_at-delete_other p q (r ∷ rows) apart =
    let ih = confirmed_at-delete_other p q rows apart in
    elim (Bool-cases (q r)) [
      | inl on ↦ rw on (rw (apart r on) ih)
      | inr out ↦ elim (Bool-cases (p r)) [
        | inl here ↦ rw out (rw here refl)
        | inr gone ↦ rw out (rw gone ih)
      ]
    ]

not_confirmed :
    (exchange symbol : String) (r : CheckpointRow)
    → is_mark exchange symbol r ≡ false
    → is_confirmed exchange symbol r ≡ false
not_confirmed exchange symbol r clear = rw clear refl

other_mark :
    (exchange symbol other : String)
    → str_eq symbol other ≡ false
    → (r : CheckpointRow) → is_mark exchange symbol r ≡ true
    → is_confirmed exchange other r ≡ false
other_mark exchange symbol other apart r on =
    let named : str_eq r.symbol symbol ≡ true = ground arith in
    let out : str_eq r.symbol other ≡ false =
      subst (λ s. str_eq s other ≡ false) (sym ((eq_iff r.symbol symbol).0 named)) apart in
    elim (Bool-cases (str_eq r.exchange exchange)) [
      | inl here ↦ rw here (rw out refl)
      | inr gone ↦ rw gone refl
    ]

row-IsMark :
    (now : ℕ) (exchange symbol : String) (from to : ℕ)
    → is_confirmed exchange symbol (checkpoint_row now (no_history_input exchange symbol from to))
      ≡ true
row-IsMark now exchange symbol from to = rw (eq_refl exchange, eq_refl symbol) refl

-- A mark that is recorded is read back with its time, whatever the table held for the symbol before, and a check is
-- then due again exactly from seven days after it on.
pub record_no_history_confirmed-read :
    (now later from to : ℕ) (exchange symbol : String) (rows : List CheckpointRow)
    → let read =
        read_no_history_confirmed_at exchange symbol
          (record_no_history_confirmed now exchange symbol from to rows) in
      (read ≡ some now)
      × ((is_no_history_recheck_due read (later + no_history_recheck_interval_ms) ≡ true)
          ↔ (now ≤ later))
unfolding read_no_history_confirmed_at record_no_history_confirmed
    upsert_candle_bootstrap_checkpoint is_no_history_recheck_due no_history_recheck_cutoff
record_no_history_confirmed-read now later from to exchange symbol rows =
    let input = no_history_input exchange symbol from to in
    let recorded = record_no_history_confirmed now exchange symbol from to rows in
    let confirmed : confirmed_at (is_confirmed exchange symbol) recorded ≡ some now =
      elim (Bool-cases (any (identifies input) rows)) [
        | inl there ↦ rw there (
            confirmed_at-update (is_confirmed exchange symbol) (identifies input)
              (overwrite now input) now rows (λ r on. (rw on refl, refl))
              (not_confirmed exchange symbol) there)
        | inr new ↦ rw new (
            confirmed_at-insert (is_confirmed exchange symbol) rows (checkpoint_row now input)
              (any-weaker (is_confirmed exchange symbol) (identifies input) rows
                (not_confirmed exchange symbol) new)
              (row-IsMark now exchange symbol from to))
      ] in
    let read = read-confirmed_at exchange symbol recorded ∙ confirmed in
    (read, rw read (ground arith))

-- A mark that is cleared is no longer read, and the marks of other symbols stay as they are.
pub clear_no_history-read :
    (exchange symbol other : String) (rows : List CheckpointRow)
    → str_eq symbol other ≡ false
    → let cleared = clear_no_history exchange symbol rows in
      (read_no_history_confirmed_at exchange symbol cleared ≡ none)
      × (read_no_history_confirmed_at exchange other cleared
          ≡ read_no_history_confirmed_at exchange other rows)
unfolding clear_no_history
clear_no_history-read exchange symbol other rows apart =
    let cleared = clear_no_history exchange symbol rows in
    (
      read-confirmed_at exchange symbol cleared
          ∙ confirmed_at-delete (is_confirmed exchange symbol) (is_mark exchange symbol) rows
              (not_confirmed exchange symbol),
      read-confirmed_at exchange other cleared
          ∙ confirmed_at-delete_other (is_confirmed exchange other) (is_mark exchange symbol) rows
              (other_mark exchange symbol other apart)
          ∙ sym (read-confirmed_at exchange other rows),
    )
