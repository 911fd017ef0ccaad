-- ===== src/Recoverer/Repair/Tests.antt =====
-- The repair of a Completed booking whose ticket KTMB still serves.
use nitroso_tin.Base.{true, none, some, [], ◌∷◌, ◌≡◌, refl, any}
use nitroso_tin.Zinc.{Principal}
use nitroso_tin.Recoverer.Process.Tests.{world}
use nitroso_tin.Recoverer.Repair.{repair_one, after_print, upload_ticket, download}
use nitroso_tin.Recoverer.Repair.Parks.{writes, Repairs, repair_one-Repairs}

abbrev completed : Principal
completed = record {
  id = "id";
  direction = some "JToW";
  date = some "01-01-2030";
  time = some "08:00:00";
  status = some "Completed";
  booking_no = some "K1";
  ticket_no = some "T1";
  passenger = record {
    full_name = none;
    gender = none;
    passport_expiry = none;
    passport_number = some "P1";
  };
}

attached :
    any writes (
      repair_one
        (world "P1")
        ("not found" ∷ [])
        (download (world "P1") ("not found" ∷ []) "user")
        completed
        [])
    ≡ true
unfolding repair_one after_print upload_ticket download
attached = refl

repair_one-Repairs_example : Repairs (world "P1") ("not found" ∷ []) "user" completed [] (
    repair_one
      (world "P1")
      ("not found" ∷ [])
      (download (world "P1") ("not found" ∷ []) "user")
      completed
      [])
repair_one-Repairs_example =
    repair_one-Repairs (world "P1") ("not found" ∷ []) "user" completed [] refl attached
