-- ===== src/Backfill/World.antt =====
-- The data of the cost backfill, the requests that it sends, and their answers.
use nitroso_tin.Base.{ℕ, String, Bool, Option, List, Result, Prog}
use nitroso_tin.Ktmb.{KtmbError, GenericRes}
use nitroso_tin.Zinc.{Reply}
use nitroso_tin.Terminator.{RefundPolicy}
use nitroso_tin.Backfill.Raw.{Json}

-- `BookingKtmbCostMissingRes`, less its time of completion, which is only logged.
pub record Work : Type 0 where
  pub id : String
  pub booking_no : String
  pub ticket_no : String

pub record BookedTicket : Type 0 where
  pub ticket_no : String
  pub ticket_data : String

pub record BookedTrip : Type 0 where
  pub tickets : List BookedTicket

-- `GetTicketBookingRes`: the fields that the backfill reads.
pub record Booked (Amount : Type 0) : Type 0 where
  pub booking_no : String
  pub booking_data : String
  pub currency_code : String
  pub total_amount : Amount
  pub trips : List BookedTrip

-- A raw answer, decoded as a JSON value and as `GetTicketRes`; `none` is a failure to decode.
pub record RawTicket (Amount : Type 0) : Type 0 where
  pub root : Option (Json Amount)
  pub typed : Option (List (Booked Amount))

-- A number below 0 stands as 0, except for a status, where any refused one stands for it.
pub record Options : Type 0 where
  pub dry_run : Bool
  pub refund : Bool
  pub status : ℕ
  pub max : ℕ
  pub page_size : ℕ
  pub sleeps : Bool

pub data Error : Type 0 where
  bad_options list_failed out_of_fuel : Error
  login_failed not_slept : Error
  invalid_session ticket_failed undecodable no_booking no_amount no_refund : Error
  post_failed : Error

pub data Call (Amount : Type 0) : Type 0 where
  cost_page : ℕ → ℕ → ℕ → Call Amount
  refund_page : ℕ → Call Amount
  login : Call Amount
  invalidate : String → Call Amount
  get_ticket : String → String → Call Amount
  get_raw : String → String → Call Amount
  get_policy : String → String → Call Amount
  post_cost : String → Amount → List ℕ → Call Amount
  post_refund : String → Amount → List ℕ → Call Amount

pub record Env (Amount : Type 0) : Type 0 where
  pub options : Options
  pub on_cost_page : List (Call Amount) → ℕ → ℕ → ℕ → Reply (List Work)
  pub on_refund_page : List (Call Amount) → ℕ → Reply (List Work)
  pub on_login : List (Call Amount) → Option String
  pub on_invalidate : List (Call Amount) → String → Bool
  pub on_ticket :
      List (Call Amount)
      → String
      → String
      → String
      → Result KtmbError (GenericRes (List (Booked Amount)))
  pub on_raw :
      List (Call Amount)
      → String
      → String
      → String
      → Result KtmbError (GenericRes (RawTicket Amount))
  pub on_policy :
      List (Call Amount)
      → String
      → String
      → String
      → Result KtmbError (GenericRes (RefundPolicy Amount))
  pub on_post_cost : List (Call Amount) → String → Amount → List ℕ → Reply String
  pub on_post_refund : List (Call Amount) → String → Amount → List ℕ → Reply String
  -- The wait between two items is not cut short.
  pub on_sleep : List (Call Amount) → Bool

abbrev pub M : Type 0 → Type 0 → Type 0
M Amount A = Prog (List (Call Amount)) Error A
