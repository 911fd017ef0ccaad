-- ===== src/Dates/Tests.antt =====
-- One date of zinc.
use nitroso_tin.Base.{String, some, [], ◌∷◌, ◌≡◌, refl}
use nitroso_tin.Dates.{fragments, zinc_to_helium_date, helium_to_zinc_date}
use nitroso_tin.Dates.RoundTrip.{helium_to_zinc_date-zinc_to_helium_date}

split : fragments "01-02-2030" ≡ "01" ∷ "02" ∷ "2030" ∷ []
unfolding fragments
split = refl

helium_to_zinc_date-zinc_to_helium_date_example :
    (h : String) × (zinc_to_helium_date "01-02-2030" ≡ some h)
    × (helium_to_zinc_date h ≡ some "01-02-2030")
helium_to_zinc_date-zinc_to_helium_date_example =
    helium_to_zinc_date-zinc_to_helium_date "01-02-2030" "01" "02" "2030" split
