-- ===== src/Dates.antt =====
-- The date texts of zinc and of KTMB, whose fragments stand in opposite orders: `ZincToHeliumDate`
-- and `HeliumToZincDate` (lib/util.go).
pub mod RoundTrip
mod Tests
use Prim.Native.Char.{Char, code}
use nitroso_tin.Base.{String, Option, none, some, List, [], ◌∷◌, ◌==◌, if◌then◌else◌}

-- The texts, one after the other.
unfoldable pub joined : String → String → String
joined String.[] t = t
joined (String.◌∷◌ c s) t = String.◌∷◌ c (joined s t)

pub before_first : Char → List String → List String
before_first c [] = String.◌∷◌ c "" ∷ []
before_first c (s ∷ ss) = String.◌∷◌ c s ∷ ss

-- `strings.Split(s, "-")`.
unfoldable pub fragments : String → List String
unfolding before_first
fragments String.[] = "" ∷ []
fragments (String.◌∷◌ c s) =
    let rest = fragments s in if code c == b'-' then "" ∷ rest else before_first c rest

pub dashed : String → String → String → String
unfolding joined
dashed a b c = joined a (String.◌∷◌ "-" (joined b (String.◌∷◌ "-" c)))

pub reversed : List String → Option String
unfolding dashed
reversed (a ∷ b ∷ c ∷ rest) = some (dashed c b a)
reversed _ = none

-- Fewer than three fragments panic: `none`. Fragments from the fourth on are dropped.
unfoldable pub zinc_to_helium_date : String → Option String
unfolding fragments reversed
zinc_to_helium_date date = reversed (fragments date)

unfoldable pub helium_to_zinc_date : String → Option String
unfolding fragments reversed
helium_to_zinc_date date = reversed (fragments date)
