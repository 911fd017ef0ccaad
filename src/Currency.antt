-- ===== src/Currency.antt =====
-- Currency codes, which the buyer, the terminator and the cost backfill normalise alike:
-- `currencyOrDefault` (lib/buyer/buyer.go) and `normalizeCurrency` (lib/terminator/terminator.go).
use nitroso_tin.Base.{
  ℕ, String, List, [], ◌∷◌, map, codes, trim_space, upper_code, is_empty, if◌then◌else◌,
}

unfoldable pub normalized : String → List ℕ
normalized s = map upper_code (trim_space (codes s))

-- The first candidate that is not blank, trimmed and in capitals, or MYR.
unfoldable pub currency_or_default : List String → List ℕ
unfolding normalized
currency_or_default [] = codes "MYR"
currency_or_default (v ∷ vs) =
    if is_empty (normalized v) then currency_or_default vs else normalized v
