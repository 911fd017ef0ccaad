-- ===== src/Recoverer/Scan/Tests.antt =====
-- The scan on a list of two pages, and the scan's theorems at it.
use nitroso_tin.Base.{
  ℕ, zero, suc, ◌≤◌, String, Option, none, some, [], ◌∷◌, ◌≡◌, ◌≢◌, refl, arith, All, Result, ok,
  err, codes, to_upper, lower_code, trim_space, contains, codes_eq,
}
use nitroso_tin.Ktmb.{KtmbError, TicketListBooking, TicketList}
use nitroso_tin.Recoverer.Scan.{
  out_of_fuel, depart_of, ticket_for_passport, find_ticket_in, get_page, bisect, probe, visit,
  scan_left, scan_right, scan_around, inspect, page_side, match_page, page_contains_datetime,
  row_verdict, classify_direction, same_passport,
}
use nitroso_tin.Recoverer.Scan.Order.{Ordered, Ascending}
use nitroso_tin.Recoverer.Scan.Sighted.{Sighted, find_ticket_in-Sighted}
use nitroso_tin.Recoverer.Scan.Absent.{find_ticket_in-Absent}
use nitroso_tin.Recoverer.Scan.Answers.{find_ticket_in_fuel}

-- Departures are texts of one letter, at the instant of its code.
abbrev clock : String → Option ℕ
clock s = elim (codes s) [ [] ↦ none | c ∷ cs ↦ some c ]

abbrev instant : TicketListBooking → ℕ
instant b = elim (clock b.depart_from) [ none ↦ 0 | some t ↦ t ]

abbrev row : String → String → String → TicketListBooking
row number depart passport = record {
  booking_data = "";
  booking_no = number;
  depart_from = depart;
  from_station_name = "JB Sentral";
  trips =
      record {
        tickets =
            record { passenger_passport_no = passport; ticket_no = "T"; ticket_data = "" } ∷ [];
      }
      ∷ [];
}

abbrev page_one : TicketList
page_one = record { bookings = row "B1" "a" "P1" ∷ row "B2" "b" "P2" ∷ []; total_page = 2 }

abbrev page_two : TicketList
page_two = record { bookings = row "B3" "c" "P3" ∷ row "B4" "d" "P4" ∷ []; total_page = 2 }

abbrev blank : TicketList
blank = record { bookings = []; total_page = 2 }

abbrev pages : ℕ → TicketList
pages zero = blank
pages (suc zero) = page_one
pages (suc (suc zero)) = page_two
pages (suc (suc (suc n))) = blank

-- The world counts the requests.
abbrev serve : ℕ → ℕ → Result KtmbError TicketList × ℕ
serve w n = (ok (pages n), suc w)

finds :
    find_ticket_in clock serve 99 "JToW" " p3 " 0
    ≡ (ok (some (record { booking_no = "B3"; ticket_no = "T" })), 3)
unfolding find_ticket_in bisect probe visit scan_left scan_right scan_around inspect match_page
    page_side page_contains_datetime get_page row_verdict ticket_for_passport classify_direction
    same_passport contains to_upper lower_code trim_space codes_eq
finds = refl

misses : find_ticket_in clock serve 99 "JToW" "P9" 0 ≡ (ok none, 3)
unfolding find_ticket_in bisect probe visit scan_left scan_right scan_around inspect match_page
    page_side page_contains_datetime get_page row_verdict ticket_for_passport classify_direction
    same_passport contains to_upper lower_code trim_space codes_eq
misses = refl

find_ticket_in-Sighted_example :
    Sighted clock serve 99 "JToW" " p3 " 0 3 (record { booking_no = "B3"; ticket_no = "T" })
find_ticket_in-Sighted_example =
    find_ticket_in-Sighted clock serve 99 "JToW" " p3 " 0 3
      (record { booking_no = "B3"; ticket_no = "T" }) finds

truth : (b : TicketListBooking) (dt : ℕ) → depart_of clock b ≡ some dt → instant b ≡ dt
unfolding depart_of
truth b dt h = ground arith

across :
    (p q : ℕ)
    → suc p ≤ q
    → All (λ a. All (λ b. instant a ≤ instant b) (pages q).bookings) (pages p).bookings
across zero q h = tt
across (suc zero) zero h = absurd (omega arith)
across (suc zero) (suc zero) h = absurd (omega arith)
across (suc zero) (suc (suc zero)) h = omega arith
across (suc zero) (suc (suc (suc q))) h = (tt, (tt, tt))
across (suc (suc zero)) zero h = absurd (omega arith)
across (suc (suc zero)) (suc zero) h = absurd (omega arith)
across (suc (suc zero)) (suc (suc zero)) h = absurd (omega arith)
across (suc (suc zero)) (suc (suc (suc q))) h = (tt, (tt, tt))
across (suc (suc (suc p))) q h = tt

inside : (p : ℕ) → Ordered instant (pages p).bookings
inside zero = tt
inside (suc zero) = omega arith
inside (suc (suc zero)) = omega arith
inside (suc (suc (suc p))) = tt

sorted : Ascending instant pages
sorted = record { inside = inside; across = across }

find_ticket_in-Absent_example :
    All (λ b. instant b ≡ 99 → ticket_for_passport b "P9" ≡ none) page_two.bookings
find_ticket_in-Absent_example =
    find_ticket_in-Absent clock serve 99 "JToW" "P9" pages instant truth sorted (λ w n. refl) 0 3
      misses 2 (omega arith) (omega arith)

find_ticket_in-fuel_example : (find_ticket_in clock serve 99 "JToW" "P9" 0).0 ≢ err out_of_fuel
find_ticket_in-fuel_example =
    find_ticket_in_fuel clock serve 99 "JToW" "P9" 0 (λ page w h. ground (arith, h))
