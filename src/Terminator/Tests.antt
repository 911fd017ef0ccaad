-- ===== src/Terminator/Tests.antt =====
-- `Terminate` against a KTMB and a zinc that answer by fixed values.
use nitroso_tin.Base.{
  ℕ, String, Bool, true, none, some, [], ◌∷◌, ◌≡◌, inl, refl, arith, ok, ltb, ◌==◌, if◌then◌else◌,
  trim_space, trim_left, is_space, upper_code, or_else,
}
use nitroso_tin.Ktmb.{GenericRes, TicketList, TicketListBooking}
use nitroso_tin.Zinc.{answered}
use nitroso_tin.Currency.{currency_or_default, normalized}
use nitroso_tin.Terminator.{
  PolicyTicket, RefundPolicy, Termination, refund_ticket, refund_amount, Env, find, terminate,
  all_tickets, matched, with_data, first_match, own_amount, log_in, list, on_page, locate,
  ticket_data_of, ticket_data_in, policy_of, refund_on_ktmb, after_refund, refund_under,
  policy_ticket, not_found,
}
use nitroso_tin.Terminator.Policy.{Chosen, refund_ticket-Chosen, Exact, refund_amount-Exact}
use nitroso_tin.Terminator.Listing.{rows_from, find-locate}
use nitroso_tin.Terminator.Reports.{Ends, Terminated, terminate-Terminated}

abbrev positive : ℕ → Bool
positive a = ltb 0 a

abbrev policy_ticket_of : String → ℕ → PolicyTicket ℕ
policy_ticket_of number amount = record {
  ticket_no = number;
  ticket_data = "D";
  refund_amount = amount;
  currency_code = "sgd";
}

-- Two tickets, the second of them ours.
abbrev policy : RefundPolicy ℕ
policy = record {
  booking_data = "B";
  currency_code = "MYR";
  total_refund_amount = 12;
  trips = record { tickets = policy_ticket_of "T1" 7 ∷ policy_ticket_of "T2" 5 ∷ [] } ∷ [];
}

abbrev row : TicketListBooking
row = record {
  booking_data = "B";
  booking_no = "K1";
  depart_from = "c";
  from_station_name = "JB Sentral";
  trips =
      record {
        tickets =
            record { passenger_passport_no = "P1"; ticket_no = "T2"; ticket_data = "D0" } ∷ [];
      }
      ∷ [];
}

-- The ticket is on the second of two pages.
abbrev pages : ℕ → TicketList
pages n = record { bookings = if n == 2 then row ∷ [] else []; total_page = 2 }

abbrev success : {A : Type 0} → A → GenericRes A
success a = record { status = true; messages = []; content = a }

abbrev world : Env ℕ
world = record {
  on_login = λ h. some "user";
  on_list = λ h u n. ok (success (pages n));
  on_policy = λ h u b t. ok (success policy);
  on_refund = λ h u b t. ok (success tt);
  has_reporter = true;
  on_report = λ h id a c. answered 200 none;
}

abbrev termination : Termination
termination = record { id = "id"; booking_no = "K1"; ticket_no = "T2" }

refund_ticket-Chosen_example : Chosen policy "T2" (policy_ticket_of "T2" 5)
unfolding refund_ticket first_match with_data all_tickets
refund_ticket-Chosen_example = refund_ticket-Chosen policy "T2" (policy_ticket_of "T2" 5) refl

refund_amount-Exact_example : Exact positive policy "T2" 5
unfolding refund_amount own_amount matched all_tickets currency_or_default normalized trim_space
    trim_left is_space upper_code
refund_amount-Exact_example = refund_amount-Exact positive policy "T2" 5 (83 ∷ 71 ∷ 68 ∷ []) refl

find-locate_example :
    (find world 5 "user" "K1" "T2" 1 []).0
    ≡ or_else (locate "K1" "T2" (rows_from pages 1 2)) not_found
find-locate_example =
    find-locate world "user" "K1" "T2" pages 2 (λ h n. refl) (λ n. refl) 5 [] (omega arith)
      (omega arith)

succeeded : Ends positive world termination (terminate positive world 5 termination [])
unfolding terminate log_in find list on_page locate ticket_data_of ticket_data_in policy_of
    refund_under refund_ticket first_match with_data all_tickets refund_on_ktmb after_refund
    policy_ticket refund_amount own_amount matched
succeeded = inl refl

terminate-Terminated_example :
    Terminated positive world termination 5 (terminate positive world 5 termination []).1
terminate-Terminated_example = terminate-Terminated positive world termination 5 succeeded
