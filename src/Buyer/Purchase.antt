-- ===== src/Buyer/Purchase.antt =====
-- `Buy` (lib/buyer/buyer.go): the purchase of one reserved seat on KTMB.
pub mod Capture
use nitroso_tin.Base.{
  ℕ, String, Bool, true, false, Option, none, some, List, [], ◌∷◌, if◌then◌else◌, Result, ok, err,
  ◌>>=◌, bind_result, pure, throw, lift,
}
use nitroso_tin.Ktmb.{KtmbError, GenericRes}
use nitroso_tin.Currency.{currency_or_default}
use nitroso_tin.Buyer.{
  Passenger, PassengerReq, PassengerRes, BookStartRes, SetPassengerRes, PaymentRes,
  CompleteTicketRes, CompleteTripRes, CompleteRes, PurchaseResult, Cause, malformed, not_printed,
  Error, conflict, revert_later, purchased, ktmb_failed, no_passengers, Call, book_start,
  set_passenger, pay, complete, print_ticket, cancel, Env, M, matches_conflict,
}
use nitroso_tin.Ktmb.{rejected}

-- An answer of KTMB; `refused` gives the error for its messages when its status is false.
unfoldable pub checked :
    {A : Type 0} → (List String → Error) → Result KtmbError (GenericRes A) → Result Error A
checked refused (err e) = err (ktmb_failed e)
checked refused (ok r) = if r.status then ok r.content else err (refused r.messages)

unfoldable pub plain_refusal : List String → Error
plain_refusal messages = ktmb_failed (rejected messages)

unfoldable pub passenger_refusal : List String → List String → Error
unfolding plain_refusal
passenger_refusal patterns messages =
    if matches_conflict patterns messages then conflict messages else plain_refusal messages

unfoldable pub pay_refusal : List String → List String → Error
unfolding plain_refusal
pay_refusal patterns messages =
    if matches_conflict patterns messages then revert_later messages else plain_refusal messages

unfoldable pub first_passenger : List PassengerRes → Result Error PassengerRes
first_passenger [] = err no_passengers
first_passenger (p ∷ ps) = ok p

unfoldable pub first_ticket : List CompleteTripRes → Option CompleteTicketRes
first_ticket [] = none
first_ticket (t ∷ ts) = elim t.tickets [ [] ↦ none | k ∷ ks ↦ some k ]

-- The booking number, and the ticket number where the answer carries one.
unfoldable pub ticket_ids_of : CompleteRes → String × Option String
unfolding first_ticket
ticket_ids_of r = (
  r.booking.booking_no,
  elim (first_ticket r.booking.trips) [ none ↦ none | some t ↦ some t.ticket_no ],
)

unfoldable pub passenger_request : String → Passenger → PassengerRes → PassengerReq
passenger_request contact p data' = record {
  contact_no = contact;
  full_name = p.full_name;
  gender = p.gender;
  is_add_favorite = false;
  is_buy_insurance = false;
  is_self = false;
  passenger_data = data'.passenger_data;
  passport_expiry_date = p.passport_expiry;
  passport_no = p.passport_number;
  pnr_data = "";
  pnr_no = "";
  ticket_type_id = "Adult";
  promo_codes = "" ∷ [];
}

module _ {Amount : Type 0} (env : Env Amount) where
  unfoldable pub start_booking : String → String → M Amount BookStartRes
  unfolding checked plain_refusal
  start_booking user_data booking_data h = (
    checked plain_refusal (env.on_start h user_data booking_data),
    book_start user_data booking_data ∷ h,
  )

  unfoldable pub name_passenger : String → String → PassengerReq → M Amount (SetPassengerRes Amount)
  unfolding checked passenger_refusal
  name_passenger user_data booking_data p h = (
    checked (passenger_refusal env.conflict_patterns) (env.on_passenger h user_data booking_data p),
    set_passenger user_data booking_data p ∷ h,
  )

  unfoldable pub pay_for : String → String → Amount → M Amount PaymentRes
  unfolding checked pay_refusal
  pay_for user_data booking_data amount h = (
    checked (pay_refusal env.revert_patterns) (env.on_pay h user_data booking_data amount),
    pay user_data booking_data amount ∷ h,
  )

  unfoldable pub complete_purchase : String → String → M Amount CompleteRes
  unfolding checked plain_refusal
  complete_purchase user_data booking_data h = (
    checked plain_refusal (env.on_complete h user_data booking_data),
    complete user_data booking_data ∷ h,
  )

  unfoldable pub printed : String → String → Result KtmbError String → Result Error String
  printed booking_no ticket_no (err e) = err (purchased booking_no ticket_no (not_printed e))
  printed booking_no ticket_no (ok pdf) = ok pdf

  unfoldable pub print : String → String → String → M Amount String
  unfolding printed
  print user_data booking_no ticket_no h = (
    printed booking_no ticket_no (env.on_print h user_data booking_no ticket_no),
    print_ticket user_data booking_no ticket_no ∷ h,
  )

  unfoldable pub with_ids :
      SetPassengerRes Amount
      → CompleteRes
      → String × Option String
      → M Amount (PurchaseResult Amount)
  unfolding print currency_or_default
  with_ids named done (booking_no, none) = throw (purchased booking_no "" malformed)
  with_ids named done (booking_no, some ticket_no) = do
    pdf ← print done.user_data booking_no ticket_no
    pure (record {
      pdf = pdf;
      booking_no = booking_no;
      ticket_no = ticket_no;
      ktmb_amount = named.payment_amount;
      ktmb_currency = currency_or_default (
          named.currency_code ∷ done.booking.payment.currency_code ∷ done.booking.currency_code
          ∷ []);
    })

  unfoldable pub buy_seat : String → String → Passenger → M Amount (PurchaseResult Amount)
  unfolding start_booking first_passenger passenger_request name_passenger pay_for complete_purchase
      with_ids ticket_ids_of
  buy_seat user_data booking_data p = do
    started ← start_booking user_data booking_data
    first ← lift (first_passenger started.passengers)
    named ←
        name_passenger started.user_data started.booking_data
          (passenger_request env.contact_number p first)
    paid ← pay_for named.user_data named.booking_data named.payment_amount
    done ← complete_purchase named.user_data paid.booking_data
    with_ids named done (ticket_ids_of done)

  unfoldable pub released : Result KtmbError (GenericRes (Unit {0})) → Result Error (Unit {0})
  released (err e) = err (ktmb_failed e)
  released (ok r) = ok tt

  -- `Release`; its callers look at the error only.
  unfoldable pub release : String → String → M Amount (Unit {0})
  unfolding released
  release user_data booking_data h =
      (released (env.on_cancel h user_data booking_data), cancel user_data booking_data ∷ h)
