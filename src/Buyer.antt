-- ===== src/Buyer.antt =====
-- The buyer's data and errors (lib/buyer/errors.go, passenger.go), the parts of KTMB's purchase
-- answers that it reads (lib/ktmb/res.go), and the requests that it makes.
pub mod Conflict
pub mod Purchase
pub mod Retry
pub mod Client
use nitroso_tin.Base.{
  ℕ, String, Bool, true, false, ◌&&◌, ◌||◌, not, Option, none, some, List, [], ◌∷◌, any, Result, ok,
  err, Prog, contains, to_lower, str_eq,
}
use nitroso_tin.Ktmb.{KtmbError, GenericRes}
use nitroso_tin.Zinc.{Reply, Principal, RecoverDto}

pub record Passenger : Type 0 where
  pub full_name : String
  pub gender : String
  pub passport_expiry : String
  pub passport_number : String

-- `PassengerReq` with its one `TicketReq`, whose promo code is empty.
pub record PassengerReq : Type 0 where
  pub contact_no : String
  pub full_name : String
  pub gender : String
  pub is_add_favorite : Bool
  pub is_buy_insurance : Bool
  pub is_self : Bool
  pub passenger_data : String
  pub passport_expiry_date : String
  pub passport_no : String
  pub pnr_data : String
  pub pnr_no : String
  pub ticket_type_id : String
  pub promo_codes : List String

pub record PassengerRes : Type 0 where
  pub passenger_data : String

pub record BookStartRes : Type 0 where
  pub booking_data : String
  pub user_data : String
  pub passengers : List PassengerRes

pub record SetPassengerRes (Amount : Type 0) : Type 0 where
  pub booking_data : String
  pub user_data : String
  pub currency_code : String
  pub payment_amount : Amount

pub record PaymentRes : Type 0 where
  pub booking_data : String

pub record CompleteTicketRes : Type 0 where
  pub ticket_no : String

pub record CompleteTripRes : Type 0 where
  pub tickets : List CompleteTicketRes

pub record CompletePaymentRes : Type 0 where
  pub currency_code : String

pub record CompleteBookingRes : Type 0 where
  pub booking_no : String
  pub currency_code : String
  pub payment : CompletePaymentRes
  pub trips : List CompleteTripRes

pub record CompleteRes : Type 0 where
  pub user_data : String
  pub booking : CompleteBookingRes

pub record PurchaseResult (Amount : Type 0) : Type 0 where
  pub pdf : String
  pub booking_no : String
  pub ticket_no : String
  pub ktmb_amount : Amount
  pub ktmb_currency : List ℕ

-- Why a captured purchase has no ticket to show.
pub data Cause : Type 0 where
  malformed : Cause
  not_printed : KtmbError → Cause

-- `ConflictError`, `RevertError` and `PurchasedError`, and the errors that are none of them.
-- `panicked` is a run-time panic on a missing value.
pub data Error : Type 0 where
  conflict : List String → Error
  revert_later : List String → Error
  purchased : String → String → Cause → Error
  ktmb_failed : KtmbError → Error
  no_passengers : Error
  unreached_zinc undecodable unreadable : Error
  bad_status : ℕ → Error
  no_form no_encryption no_push : Error
  panicked : Error

pub data Call (Amount : Type 0) : Type 0 where
  book_start : String → String → Call Amount
  set_passenger : String → String → PassengerReq → Call Amount
  pay : String → String → Amount → Call Amount
  complete : String → String → Call Amount
  print_ticket : String → String → String → Call Amount
  cancel : String → String → Call Amount
  get_reserve : String → String → String → Call Amount
  mark_buying : String → Call Amount
  mark_completed : String → String → String → String → Call Amount
  mark_pending : String → Call Amount
  mark_recovering : String → Call Amount
  push_recover : RecoverDto → Call Amount

-- What KTMB, zinc and the queue answer to a request after the requests made so far.
pub record Env (Amount : Type 0) : Type 0 where
  pub contact_number : String
  pub conflict_patterns : List String
  pub revert_patterns : List String
  pub complete_retries : ℕ
  pub park_retries : ℕ
  pub on_start : List (Call Amount) → String → String → Result KtmbError (GenericRes BookStartRes)
  pub on_passenger :
      List (Call Amount)
      → String
      → String
      → PassengerReq
      → Result KtmbError (GenericRes (SetPassengerRes Amount))
  pub on_pay :
      List (Call Amount) → String → String → Amount → Result KtmbError (GenericRes PaymentRes)
  pub on_complete : List (Call Amount) → String → String → Result KtmbError (GenericRes CompleteRes)
  pub on_print : List (Call Amount) → String → String → String → Result KtmbError String
  pub on_cancel : List (Call Amount) → String → String → Result KtmbError (GenericRes (Unit {0}))
  pub on_reserve : List (Call Amount) → String → String → String → Reply Principal
  pub on_buying : List (Call Amount) → String → Reply String
  pub form : String → Amount → List ℕ → Option String
  pub on_completed : List (Call Amount) → String → String → String → String → Reply String
  pub on_revert : List (Call Amount) → String → Reply String
  pub on_recovering : List (Call Amount) → String → Reply String
  pub encrypts : RecoverDto → Bool
  pub on_push : List (Call Amount) → RecoverDto → Bool

-- A run's requests, the latest first, are its history.
abbrev pub M : Type 0 → Type 0 → Type 0
M Amount A = Prog (List (Call Amount)) Error A

-- The pattern is not empty and occurs in the message, in whatever case.
pub matches_pattern : String → String → Bool
matches_pattern message pattern =
    not (str_eq pattern "") && contains (to_lower message) (to_lower pattern)

-- `matchesConflict`.
unfoldable pub matches_conflict : List String → List String → Bool
unfolding matches_pattern
matches_conflict patterns messages = any (λ m. any (matches_pattern m) patterns) messages
