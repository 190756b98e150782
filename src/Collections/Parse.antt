-- ===== src/Collections/Parse.antt =====
-- The CSV of a collection, `parseCollectionCsv` of src/modules/market-collections/market-collections.service.ts. What the
-- library does to texts is an argument.
use stock_harvesting_backend.Prelude.{
  ℕ, suc, String, List, [], ◌∷◌, ◌++◌, Option, none, some, Bool, not, str_eq, any, filter, map,
  get_elem?, if◌then◌else◌,
}

-- Lines that are split and trimmed, cells, changes of case, and the two patterns: a line that mentions "symbol", and a
-- token that is shaped like a ticker.
pub record Texts : Type 0 where
  pub split_lines : String → List String
  pub cells : String → List String
  pub trim_lower : String → String
  pub trim_upper : String → String
  pub mentions_symbol : String → Bool
  pub is_ticker : String → Bool

pub record Parsed : Type 0 where
  pub candidate_symbols : List String
  pub duplicates : List String
  pub invalid : List String

abbrev pub is_blank : String → Bool
is_blank t = str_eq t ""

-- `set.add(x)`
abbrev pub add_once : String → List String → List String
add_once x xs = if any (str_eq x) xs then xs else xs ++ x ∷ []

abbrev pub or_blank : Option String → String
or_blank none = ""
or_blank (some t) = t

-- `indexOf("symbol")`
abbrev pub index_of_symbol : ℕ → List String → Option ℕ
index_of_symbol i [] = none
index_of_symbol i (cell ∷ cells) =
    if str_eq cell "symbol" then some i else index_of_symbol (suc i) cells

-- One token: nothing, a wrong one, a repeated one or a new one.
unfoldable pub take_token : (String → Bool) → String → Parsed → Parsed
take_token is_ticker token parsed =
    if is_blank token
    then parsed
    else if not (is_ticker token)
    then record parsed { invalid = parsed.invalid ++ token ∷ [] }
    else if any (str_eq token) parsed.candidate_symbols
    then record parsed { duplicates = add_once token parsed.duplicates }
    else record parsed { candidate_symbols = parsed.candidate_symbols ++ token ∷ [] }

unfoldable pub take_tokens : (String → Bool) → List String → Parsed → Parsed
unfolding take_token
take_tokens is_ticker [] parsed = parsed
take_tokens is_ticker (token ∷ tokens) parsed =
    take_tokens is_ticker tokens (take_token is_ticker token parsed)

abbrev pub nothing_parsed : Parsed
nothing_parsed = record { candidate_symbols = []; duplicates = []; invalid = [] }

abbrev pub column_or_first : Option ℕ → ℕ
column_or_first none = 0
column_or_first (some i) = i

module _ (texts : Texts) where
  abbrev pub token_of : ℕ → String → String
  token_of column line = texts.trim_upper (or_blank (get_elem? (texts.cells line) column))

  abbrev pub named_column : String → Option ℕ
  named_column header = index_of_symbol 0 (map texts.trim_lower (texts.cells header))

  -- The lines that hold symbols: all but a header.
  abbrev pub body_lines : Option ℕ → String → List String → List String
  body_lines (some i) header lines = lines
  body_lines none header lines = if texts.mentions_symbol header then lines else header ∷ lines

  abbrev pub parse_lines : List String → Parsed
  parse_lines [] = nothing_parsed
  parse_lines (header ∷ lines) =
      let column = named_column header in
      take_tokens texts.is_ticker
        (map (token_of (column_or_first column)) (body_lines column header lines)) nothing_parsed

  unfoldable pub parse_collection_csv : String → Parsed
  unfolding take_tokens
  parse_collection_csv content =
      parse_lines (filter (λ line. not (is_blank line)) (texts.split_lines content))
