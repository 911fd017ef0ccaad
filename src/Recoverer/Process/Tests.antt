-- ===== src/Recoverer/Process/Tests.antt =====
-- `ProcessItem` against a zinc and a KTMB that answer by fixed values.
use nitroso_tin.Base.{
  ◌≤◌, arith, String, true, false, none, some, [], ◌∷◌, ◌≡◌, refl, any, ok, contains, to_upper,
  lower_code, trim_space, codes_eq,
}
use nitroso_tin.Ktmb.{TicketListBooking}
use nitroso_tin.Zinc.{answered, Principal, RecoverDto}
use nitroso_tin.Recoverer.World.{get_booking, Env}
use nitroso_tin.Recoverer.Scan.{
  find_ticket_in, bisect, probe, visit, scan_left, scan_right, scan_around, inspect, match_page,
  page_side, page_contains_datetime, get_page, row_verdict, ticket_for_passport, classify_direction,
  same_passport,
}
use nitroso_tin.Recoverer.Process.{
  process_item, fetch_booking, is_terminal, is_captured, transition_first, set_recovering, resolve,
  scan_our_account, log_in, list_tickets, claimant, recycle_or_duplicate, set_duplicate,
  force_complete, recorded,
}
use nitroso_tin.Recoverer.Process.Outcome.{Parked}
use nitroso_tin.Recoverer.Process.Refunds.{refunds, Resolved}
use nitroso_tin.Recoverer.Process.RefundSafety.{IsOther, process_item-refunds}
use nitroso_tin.Recoverer.Process.Completes.{completes, Captured, process_item-completes}
use nitroso_tin.Recoverer.Process.Once.{resolutions, process_item_once}

abbrev pub item : RecoverDto
item = record {
  booking_id = "id";
  direction = "JToW";
  date = "01-01-2030";
  time = "08:00:00";
  full_name = "";
  gender = "";
  passport_expiry = "";
  passport_number = "P1";
  booking_no = "";
  ticket_no = "";
  attempts = 0;
}

abbrev pub principal : Principal
principal = record {
  id = "id";
  direction = some "JToW";
  date = some "01-01-2030";
  time = some "08:00:00";
  status = some "Buying";
  booking_no = none;
  ticket_no = none;
  passenger = record {
    full_name = none;
    gender = none;
    passport_expiry = none;
    passport_number = some "P1";
  };
}

abbrev row : String → TicketListBooking
row passport = record {
  booking_data = "";
  booking_no = "K1";
  depart_from = "c";
  from_station_name = "JB Sentral";
  trips =
      record {
        tickets =
            record { passenger_passport_no = passport; ticket_no = "T1"; ticket_data = "" } ∷ [];
      }
      ∷ [];
}

-- The one ticket of the account is the passport's; zinc answers a recycle with 409.
abbrev pub world : String → Env
world passport = record {
  is_id = λ s. true;
  ktmb_time = λ s. some 99;
  zinc_time = λ d t. some 99;
  now = λ h. 50;
  cancelled_at = λ h. false;
  on_booking = λ h id. answered 200 (some principal);
  on_recovering = λ h id. answered 200 none;
  on_duplicate = λ h id. answered 200 none;
  on_manual = λ h id. answered 200 none;
  on_revert = λ h id. answered 409 none;
  on_complete = λ h id b t pdf. answered 200 none;
  on_search = λ h p d t dir. answered 200 (some []);
  on_login = λ h. ok "user";
  on_list = λ h u n. ok (record {
    status = true;
    messages = [];
    content = record { bookings = row passport ∷ []; total_page = 1 };
  });
  on_print = λ h u b t. ok "pdf";
  on_attach = λ h id b t pdf. answered 200 none;
}

refunded : any refunds (process_item (world "P2") item []).1 ≡ true
unfolding process_item fetch_booking is_terminal is_captured transition_first set_recovering resolve
    scan_our_account log_in list_tickets claimant recycle_or_duplicate set_duplicate force_complete
    recorded find_ticket_in bisect probe visit scan_left scan_right scan_around inspect match_page
    page_side page_contains_datetime get_page row_verdict ticket_for_passport classify_direction
    same_passport contains to_upper lower_code trim_space codes_eq
refunded = refl

captured : any completes (process_item (world "P1") item []).1 ≡ true
unfolding process_item fetch_booking is_terminal is_captured transition_first set_recovering resolve
    scan_our_account log_in list_tickets claimant recycle_or_duplicate set_duplicate force_complete
    recorded find_ticket_in bisect probe visit scan_left scan_right scan_around inspect match_page
    page_side page_contains_datetime get_page row_verdict ticket_for_passport classify_direction
    same_passport contains to_upper lower_code trim_space codes_eq
captured = refl

process_item-refunds_example :
    (b : Principal) × (answered 200 (some principal) ≡ answered 200 (some b))
    × Parked
        (world "P2")
        item
        (Resolved (world "P2") (IsOther (world "P2") item) item)
        b
        (get_booking "id" ∷ [])
        (process_item (world "P2") item []).1
process_item-refunds_example =
    process_item-refunds (world "P2") item
      (λ b h bs read said own. absurd (ground (arith, said, own))) refunded

process_item-completes_example :
    (b : Principal) × (answered 200 (some principal) ≡ answered 200 (some b))
    × Parked
        (world "P1")
        item
        (Captured (world "P1") item)
        b
        (get_booking "id" ∷ [])
        (process_item (world "P1") item []).1
process_item-completes_example = process_item-completes (world "P1") item captured

process_item-once_example : resolutions (process_item (world "P1") item []).1 ≤ 1
process_item-once_example = process_item_once (world "P1") item
