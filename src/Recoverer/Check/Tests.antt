-- ===== src/Recoverer/Check/Tests.antt =====
-- `CheckBooking` and `answerCheck` against the worlds of the tests of `ProcessItem`.
use nitroso_tin.Base.{false, none, some, arith, [], ◌∷◌, ◌≡◌, ◌⊎◌, refl, any}
use nitroso_tin.Zinc.{answered, Principal}
use nitroso_tin.Recoverer.World.{get_booking}
use nitroso_tin.Recoverer.Process.Tests.{principal, world}
use nitroso_tin.Recoverer.Repair.Parks.{writes}
use nitroso_tin.Recoverer.Check.{reconstruct_dto, check_booking}
use nitroso_tin.Recoverer.Check.Answer.{Reporting, report_of, answer_check}
use nitroso_tin.Recoverer.Check.Answer.Reported.{Sent, answer_check-Sent}
use nitroso_tin.Recoverer.Check.Verdict.{IsFailure, Fits, check_booking-Fits}

check_booking-Fits_example :
    IsFailure (world "P1") (check_booking (world "P1") "id" 50 []).0
    ⊎ ((b : Principal) × (answered 200 (some principal) ≡ answered 200 (some b))
        × Fits
            (world "P1")
            (reconstruct_dto b)
            50
            (get_booking "id" ∷ [])
            (check_booking (world "P1") "id" 50 []).0)
check_booking-Fits_example =
    check_booking-Fits (world "P1") "id" 50 [] (λ b read e. ground (arith, e))

-- zinc takes the first report.
abbrev taking : Reporting
taking = record { on_report = λ h sent r. answered 200 none; ends_after = λ h sent. false }

answer_check-Sent_example :
    (any writes (answer_check taking (world "P1") "check" "id" 50 []).0 ≡ false)
    × Sent taking 2
        (report_of "check" (check_booking (world "P1") "id" 50 []).0)
        (answer_check taking (world "P1") "check" "id" 50 []).0
        []
        (answer_check taking (world "P1") "check" "id" 50 []).1
answer_check-Sent_example = answer_check-Sent taking (world "P1") "check" "id" 50 [] refl
