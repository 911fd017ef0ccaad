-- ===== src/Buyer/Client/Tests.antt =====
-- The buyer's handler against a KTMB, a zinc and a queue that answer by fixed values.
use nitroso_tin.Base.{
  ℕ, Bool, true, false, none, some, [], ◌∷◌, ◌≡◌, refl, any, Result, ok, err, contains, has_prefix,
  to_lower, lower_code,
}
use nitroso_tin.Ktmb.{KtmbError, transport, GenericRes}
use nitroso_tin.Zinc.{answered, Principal}
use nitroso_tin.Dates.{joined, fragments, zinc_to_helium_date}
use nitroso_tin.Buyer.{Env, matches_conflict, matches_pattern}
use nitroso_tin.Buyer.Purchase.{
  buy_seat, start_booking, name_passenger, pay_for, complete_purchase, with_ids, print, printed,
  checked, first_passenger, first_ticket, ticket_ids_of, release, pay_refusal, passenger_request,
}
use nitroso_tin.Buyer.Purchase.Capture.{captured, cancels, Told, buy_seat-Told}
use nitroso_tin.Buyer.Retry.{retry_backoff}
use nitroso_tin.Buyer.Client.{
  ReserveDto, buy, on_reserve_reply, buy_for, set_buying, buying_reply, passenger_of, settle, park,
  push_with_retries, push_once, after_push, transition_recovering, set_recovering, revert,
  send_revert, release_quietly, wants_ok, recover_item, present,
}
use nitroso_tin.Buyer.Client.Released.{buy-cancels}
use nitroso_tin.Buyer.Client.Kept.{Recorded, buy-Recorded}

abbrev item : ReserveDto
item = record {
  user_data = "U";
  booking_data = "B";
  passenger_data = "";
  direction = "JToW";
  date = "01-02-2030";
  time = "08:00:00";
}

abbrev principal : Principal
principal = record {
  id = "id";
  direction = some "JToW";
  date = some "01-02-2030";
  time = some "08:00:00";
  status = some "Pending";
  booking_no = none;
  ticket_no = none;
  passenger = record {
    full_name = some "N";
    gender = some "F";
    passport_expiry = some "03-04-2031";
    passport_number = some "P1";
  };
}

abbrev success : {A : Type 0} → A → Result KtmbError (GenericRes A)
success a = ok (record { status = true; messages = []; content = a })

-- The purchase goes through if `pays`, and the ticket is never printed.
abbrev world : Bool → Env ℕ
world pays = record {
  contact_number = "1";
  conflict_patterns = "duplicated" ∷ [];
  revert_patterns = "insufficient" ∷ [];
  complete_retries = 2;
  park_retries = 2;
  on_start = λ h u b. success (record {
    booking_data = "B1";
    user_data = "U1";
    passengers = record { passenger_data = "D" } ∷ [];
  });
  on_passenger = λ h u b p.
      success (record {
        booking_data = "B2";
        user_data = "U2";
        currency_code = "MYR";
        payment_amount = 5;
      });
  on_pay = λ h u b a. ok (record {
    status = pays;
    messages = "Balance Insufficient" ∷ [];
    content = record { booking_data = "B3" };
  });
  on_complete = λ h u b. success (record {
    user_data = "U3";
    booking = record {
      booking_no = "K1";
      currency_code = "";
      payment = record { currency_code = "" };
      trips = record { tickets = record { ticket_no = "T1" } ∷ [] } ∷ [];
    };
  });
  on_print = λ h u b t. err transport;
  on_cancel = λ h u b. success tt;
  on_reserve = λ h dir d t. answered 200 (some principal);
  on_buying = λ h id. answered 200 (some "");
  form = λ pdf a c. some "form";
  on_completed = λ h id b t f. answered 200 none;
  on_revert = λ h id. answered 200 none;
  on_recovering = λ h id. answered 200 none;
  encrypts = λ dto. true;
  on_push = λ h dto. true;
}

taken : captured (world true) (buy (world true) item []).1 ≡ true
unfolding buy on_reserve_reply buy_for set_buying buying_reply passenger_of present
    zinc_to_helium_date fragments joined settle buy_seat start_booking checked first_passenger
    passenger_request name_passenger pay_for complete_purchase with_ids ticket_ids_of first_ticket
    print printed park recover_item push_with_retries push_once after_push transition_recovering
    set_recovering retry_backoff wants_ok
taken = refl

done : (buy (world true) item []).0 ≡ ok tt
unfolding buy on_reserve_reply buy_for set_buying buying_reply passenger_of present
    zinc_to_helium_date fragments joined settle buy_seat start_booking checked first_passenger
    passenger_request name_passenger pay_for complete_purchase with_ids ticket_ids_of first_ticket
    print printed park recover_item push_with_retries push_once after_push transition_recovering
    set_recovering retry_backoff wants_ok
done = refl

given_back : any cancels (buy (world false) item []).1 ≡ true
unfolding buy on_reserve_reply buy_for set_buying buying_reply passenger_of present
    zinc_to_helium_date fragments joined settle buy_seat start_booking checked first_passenger
    passenger_request name_passenger pay_for pay_refusal matches_conflict matches_pattern contains
    has_prefix to_lower lower_code revert send_revert wants_ok release_quietly release
given_back = refl

buy_seat-Told_example : Told (world true) (
    buy_seat
      (world true)
      "U"
      "B"
      (record { full_name = "N"; gender = "F"; passport_expiry = "X"; passport_number = "P1" })
      [])
buy_seat-Told_example =
    buy_seat-Told (world true) "U" "B"
      (record { full_name = "N"; gender = "F"; passport_expiry = "X"; passport_number = "P1" }) []
      refl

buy-cancels_example : captured (world false) (buy (world false) item []).1 ≡ false
buy-cancels_example = buy-cancels (world false) item given_back

buy-Recorded_example :
    (status : ℕ) × (b : Principal) × (answered 200 (some principal) ≡ answered status (some b))
    × Recorded (world true) b.id (buy (world true) item []).1
buy-Recorded_example = buy-Recorded (world true) item taken done
