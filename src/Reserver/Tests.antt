-- ===== src/Reserver/Tests.antt =====
-- A slot that seats were seen for, whose demand then rises.
use nitroso_tin.Base.{ℕ, some, List, [], ◌∷◌, ◌≡◌, refl}
use nitroso_tin.Counts.{Demand}
use nitroso_tin.Reserver.{pos, DiffData, Times, Prev, Latest, on_message}
use nitroso_tin.Reserver.Repeats.{on_message_again}

abbrev demand : ℕ → List Demand
demand n = record { direction = "JToW"; date = "01-02-2030"; time = "10:00:00"; count = n } ∷ []

abbrev received : Times
received = ("09:00", 2) ∷ ("10:00", 3) ∷ []

-- Three seats were seen last.
abbrev seen : Prev
seen d dt t = some 3

abbrev latest : Latest
latest d dt t = some 1_000

abbrev announced : DiffData
announced = record { count = 3; prev = 0; delta = pos 3 }

on_message_again_example :
    (on_message
      (demand 2)
      (on_message (demand 2) seen "JToW" "01-02-2030" received).0
      "JToW"
      "01-02-2030"
      received).1
    ≡ []
on_message_again_example =
    on_message_again (demand 2) seen "JToW" "01-02-2030" received (refl, (refl, tt))
