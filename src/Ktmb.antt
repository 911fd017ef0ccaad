-- ===== src/Ktmb.antt =====
-- The parts of the KTMB client's data that the other components read (lib/ktmb/res.go), and the
-- errors of its requests (lib/ktmb/http.go). The requests themselves are parameters.
use nitroso_tin.Base.{ℕ, String, Bool, List}

-- An error of a request: the transport's, an `HttpStatusError`, or the text of a rejection.
pub data KtmbError : Type 0 where
  transport : KtmbError
  http_status : ℕ → String → KtmbError
  rejected : List String → KtmbError
  cancelled : KtmbError

-- `GenericRes[T]`: KTMB's verdict, its messages and the data.
pub record GenericRes (A : Type 0) : Type 0 where
  pub status : Bool
  pub messages : List String
  pub content : A

pub record TicketListTicket : Type 0 where
  pub passenger_passport_no : String
  pub ticket_no : String
  pub ticket_data : String

pub record TicketListTrip : Type 0 where
  pub tickets : List TicketListTicket

pub record TicketListBooking : Type 0 where
  pub booking_data : String
  pub booking_no : String
  pub depart_from : String
  pub from_station_name : String
  pub trips : List TicketListTrip

-- `total_page` is a count: the code treats every value below 1 alike.
pub record TicketList : Type 0 where
  pub bookings : List TicketListBooking
  pub total_page : ℕ
