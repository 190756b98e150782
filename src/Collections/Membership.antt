-- ===== src/Collections/Membership.antt =====
-- Who is an active member of a collection after an import, and who of the others.
use stock_harvesting_backend.Prelude.{
  ℕ, String, List, some, Bool, true, false, not, ◌&&◌, ◌||◌, ◌==◌, str_eq, any, find, if◌then◌else◌,
  ◌≡◌, ◌∙◌, refl, ap, arith, Bool-cases, inl, inr,
}
use text.Mathlib.TextEquality.{eq_iff}
use stock_harvesting_backend.Database.Transactions.{ok, Transactions}
use stock_harvesting_backend.Collections.Parse.{Texts, parse_collection_csv}
use stock_harvesting_backend.Collections.Import.{
  CollectionRow, CollectionDb, ImportInput, ImportError, ImportReport,
  upsert_matched_collection_members, deactivate_collection_members, is_matched, match_symbols,
  members_of, dropped_members, classify_parsed, classify_collection_import, import_into,
  import_existing, import_collection_csv,
}
use stock_harvesting_backend.Collections.Members.{
  holds, written, holds-upsert, holds-deactivate, str_eq_sym,
}
use stock_harvesting_backend.Collections.Classify.{current-holds, dropped-any, written-match}

members_after :
    (now : ℕ) (version_id : String) (input : ImportInput) (report : ImportReport) (c : String)
    (db : CollectionDb)
    → any (λ v. str_eq v.collection_id c && (v.effective_from == input.effective_from)) db.versions
      ≡ false
    → (after : CollectionDb) × (import_into now version_id input report c db
        ≡ (ok version_id, after))
      × (after.members
          ≡ deactivate_collection_members c report.to_deactivate
              (upsert_matched_collection_members c report.matched db.members))
unfolding import_into
members_after now version_id input report c db free =
    ((import_into now version_id input report c db).1, rw free refl, rw free refl)

combine : (old listed : Bool) → ((old || (listed && not old)) && not (old && not listed)) ≡ listed
combine old listed = ground arith

-- What an import makes of the membership of an instrument in a collection.
classified :
    (exchange c d j : String) (symbols : List String) (db : CollectionDb)
    → let current = members_of (some c) db.members in
      let matched = match_symbols db.instruments exchange current symbols in
      holds d j (
        deactivate_collection_members c
          (dropped_members matched current)
          (upsert_matched_collection_members c matched db.members))
      ≡ (if str_eq c d then is_matched matched j else holds d j db.members)
classified exchange c d j symbols db =
    let current = members_of (some c) db.members in
    let matched = match_symbols db.instruments exchange current symbols in
    let upserted = upsert_matched_collection_members c matched db.members in
    let ids = dropped_members matched current in
    let lost = holds-deactivate c d j ids upserted in
    let won = holds-upsert c d j matched db.members in
    elim (Bool-cases (str_eq c d)) [
      | inr other ↦
          let back : str_eq d c ≡ false = str_eq_sym d c ∙ other in
          rw other (lost ∙ rw back (ap (λ b. b && true) won ∙ rw other (ground arith)))
      | inl mine ↦
          let back : str_eq d c ≡ true = str_eq_sym d c ∙ mine in
          let same : holds c j db.members ≡ holds d j db.members =
            ap (λ x. holds x j db.members) ((eq_iff c d).0 mine) in
          let old = current-holds c j db.members ∙ same in
          let new_ones : written matched j ≡ (is_matched matched j && not (holds d j db.members)) =
            written-match db.instruments exchange current symbols j
            ∙ ap (λ b. is_matched matched j && not b) old in
          let gone : any (str_eq j) ids ≡ (holds d j db.members && not (is_matched matched j)) =
            dropped-any matched j current ∙ ap (λ b. b && not (is_matched matched j)) old in
          let upsert : holds d j upserted ≡ (holds d j db.members || written matched j) =
            won ∙ rw mine refl in
          rw mine (
            lost
            ∙ rw back (
                ap (λ b. b && not (any (str_eq j) ids)) upsert
                ∙ rw (new_ones, gone) (combine (holds d j db.members) (is_matched matched j))))
    ]

-- An import into a collection that is there, and that has no version of the date yet, succeeds; afterwards the active
-- members of the collection are exactly the instruments that the file names, whatever they were before, and those of
-- every other collection are unchanged.
pub import_collection_csv-members :
    (tx : Transactions CollectionDb ImportError String) (texts : Texts) (now : ℕ)
    (version_id csv other j : String) (c : CollectionRow) (input : ImportInput) (db : CollectionDb)
    → find (λ x. str_eq x.id c.id) db.collections ≡ some c
    → any
        (λ v. str_eq v.collection_id c.id && (v.effective_from == input.effective_from))
        db.versions
      ≡ false
    → let report = classify_collection_import texts (some c.id) c.exchange csv db in
      let answer = import_collection_csv tx texts now version_id c.id csv input db in
      (answer.0 ≡ ok version_id)
      × (holds other j answer.1.members
          ≡ (if str_eq c.id other then is_matched report.matched j else holds other j db.members))
unfolding import_collection_csv classify_parsed
import_collection_csv-members tx texts now version_id csv other j c input db found free =
    let report = classify_collection_import texts (some c.id) c.exchange csv db in
    let symbols = (parse_collection_csv texts csv).candidate_symbols in
    let (after, made, members) = members_after now version_id input report c.id db free in
    let whole : import_collection_csv tx texts now version_id c.id csv input db
        ≡ (ok version_id, after) =
      ap (λ o. import_existing tx texts now version_id o csv input db) found
      ∙ tx.commits (import_into now version_id input report c.id) db after version_id made in
    (
      ap (λ a. a.0) whole,
      ap (λ a. holds other j a.1.members) whole
          ∙ ap (holds other j) members
          ∙ classified c.exchange c.id other j symbols db,
    )
