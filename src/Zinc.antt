-- ===== src/Zinc.antt =====
-- The parts of zinc's bookings that the program reads (lib/zinc, a generated client), what a request
-- to zinc may bring back, and the recover item of lib/dto.go.
use nitroso_tin.Base.{ℕ, String, Option, none, some}

-- A request fails on the way, or is answered with a status and a body; `none` is a body that cannot
-- be read or decoded.
pub data Reply (A : Type 0) : Type 0 where
  unreached : Reply A
  answered : ℕ → Option A → Reply A

pub record Passenger : Type 0 where
  pub full_name : Option String
  pub gender : Option String
  pub passport_expiry : Option String
  pub passport_number : Option String

-- `BookingPrincipalRes`.
pub record Principal : Type 0 where
  pub id : String
  pub direction : Option String
  pub date : Option String
  pub time : Option String
  pub status : Option String
  pub booking_no : Option String
  pub ticket_no : Option String
  pub passenger : Passenger

pub record RecoverDto : Type 0 where
  pub booking_id : String
  pub direction : String
  pub date : String
  pub time : String
  pub full_name : String
  pub gender : String
  pub passport_expiry : String
  pub passport_number : String
  pub booking_no : String
  pub ticket_no : String
  pub attempts : ℕ

-- `lib.Deref` at a text.
abbrev pub deref : Option String → String
deref none = ""
deref (some s) = s
