-- ===== src/Scanner/Lookback.antt =====
-- src/modules/scanner/scanner.constants.ts.
use stock_harvesting_backend.Prelude.{
  ℕ, Bool, true, false, List, [], ◌∷◌, Option, none, some, leb, find, if◌then◌else◌, ◌≤◌, ◌<◌, ◌≡◌,
  ◌⊎◌, ◌↔◌, arith,
}

pub data ScannerLookbackMultiplier : Type 0 where
  one_x three_x five_x : ScannerLookbackMultiplier

abbrev pub scanner_lookback_weeks : ScannerLookbackMultiplier → ℕ
scanner_lookback_weeks one_x = 50
scanner_lookback_weeks three_x = 150
scanner_lookback_weeks five_x = 250

abbrev pub default_scanner_lookback : ScannerLookbackMultiplier
default_scanner_lookback = five_x

-- `Object.values(SCANNER_LOOKBACK_WEEKS).sort((a, b) => b - a)`
abbrev pub descending_tiers : List ℕ
descending_tiers =
    scanner_lookback_weeks five_x
    ∷ scanner_lookback_weeks three_x
    ∷ scanner_lookback_weeks one_x
    ∷ []

unfoldable pub get_effective_scanner_lookback_weeks : ℕ → ℕ → Bool → Option ℕ
get_effective_scanner_lookback_weeks requested_weeks available_weeks strict =
    if leb requested_weeks available_weeks
    then some requested_weeks
    else if strict
    then none
    else find (λ weeks. leb weeks available_weeks) descending_tiers

-- A tier is one of the three values.
abbrev IsTier : ℕ → Type 0
IsTier w = (w ≡ 50) ⊎ ((w ≡ 150) ⊎ (w ≡ 250))

-- The lookback never exceeds the history. The requested one is used whenever the history covers it;
-- otherwise strictness gives none, and the fallback is the largest tier that the history covers, or
-- none exactly if it covers no tier.
pub get_effective_scanner_lookback_weeks_lem :
    (requested available : ℕ) (strict : Bool)
    → let r = get_effective_scanner_lookback_weeks requested available strict in
      ((w : ℕ) → r ≡ some w → w ≤ available)
      × (requested ≤ available → r ≡ some requested)
      × (available < requested → strict ≡ true → r ≡ none)
      × (available < requested
          → strict ≡ false
          → (w : ℕ) → r ≡ some w
          → IsTier w × ((v : ℕ) → IsTier v → v ≤ available → v ≤ w))
      × (available < requested → strict ≡ false → (r ≡ none) ↔ (available < 50))
unfolding get_effective_scanner_lookback_weeks
get_effective_scanner_lookback_weeks_lem requested available strict = (
  (λ w e. ground arith),
  (λ h. ground arith),
  (λ h s. ground arith),
  (λ h s w e. (ground arith, λ v t le. ground arith)),
  (λ h s. ground arith),
)

-- The largest tier that a number of weeks covers.
abbrev pub IsLargestTier : ℕ → ℕ → Type 0
IsLargestTier w available =
    ((w ≡ 250) × (250 ≤ available))
    ⊎ (((w ≡ 150) × (150 ≤ available) × (available < 250))
        ⊎ ((w ≡ 50) × (50 ≤ available) × (available < 150)))

-- The lookback is the requested one exactly if the history covers it; otherwise it is, unless strictness forbids it,
-- the largest tier that the history covers.
pub get_effective_scanner_lookback_weeks_iff :
    (requested available w : ℕ) (strict : Bool)
    → (get_effective_scanner_lookback_weeks requested available strict ≡ some w) ↔ (
        ((w ≡ requested) × (requested ≤ available))
        ⊎ ((available < requested) × (strict ≡ false) × IsLargestTier w available))
unfolding get_effective_scanner_lookback_weeks
get_effective_scanner_lookback_weeks_iff requested available w strict = ground arith
