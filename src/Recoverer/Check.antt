-- ===== src/Recoverer/Check.antt =====
-- `CheckBooking` (lib/recoverer/check.go): whether our KTMB account holds a ticket for a booking.
pub mod Verdict
pub mod Answer
mod Tests
use nitroso_tin.Base.{
  ℕ, String, Bool, true, false, Option, none, some, List, [], ◌∷◌, length, ◌==◌, ltb, if◌then◌else◌,
  Result, ok, err,
}
use nitroso_tin.Zinc.{Principal, RecoverDto, deref}
use nitroso_tin.Dates.{joined, fragments, zinc_to_helium_date}
use nitroso_tin.Recoverer.Scan.{FoundTicket}
use nitroso_tin.Recoverer.World.{History, Error, Env}
use nitroso_tin.Recoverer.Process.{fetch_booking, scan_our_account, claimant}

-- The text for a zinc expiry that has three fragments, and "" for any other.
pub safe_helium_expiry : String → String
safe_helium_expiry expiry =
    if length (fragments expiry) == 3
    then (elim (zinc_to_helium_date expiry) [ none ↦ "" | some date ↦ joined date "T00:00:00" ])
    else ""

-- `ReconstructDto`: the item that the booking itself gives.
unfoldable pub reconstruct_dto : Principal → RecoverDto
unfolding safe_helium_expiry
reconstruct_dto b = record {
  booking_id = b.id;
  direction = deref b.direction;
  date = deref b.date;
  time = deref b.time;
  full_name = deref b.passenger.full_name;
  gender = deref b.passenger.gender;
  passport_expiry = safe_helium_expiry (deref b.passenger.passport_expiry);
  passport_number = deref b.passenger.passport_number;
  booking_no = "";
  ticket_no = "";
  attempts = 0;
}

-- The error text of a result, by its cause.
pub data Problem : Type 0 where
  not_read : Error → Problem
  no_booking no_departure : Problem
  not_scanned claim_unknown : Error → Problem

pub data CheckStatus : Type 0 where
  found not_found departed failed : CheckStatus

pub record CheckResult : Type 0 where
  pub status : CheckStatus
  pub ktmb_booking_no : String
  pub ktmb_ticket_no : String
  pub claimed_by : Option String
  pub error : Option Problem

pub bare : CheckStatus → Option Problem → CheckResult
bare status problem = record {
  status = status;
  ktmb_booking_no = "";
  ktmb_ticket_no = "";
  claimed_by = none;
  error = problem;
}

pub holds : FoundTicket → Option String → Option Problem → CheckResult
holds f claim problem = record {
  status = found;
  ktmb_booking_no = f.booking_no;
  ktmb_ticket_no = f.ticket_no;
  claimed_by = claim;
  error = problem;
}

pub of_claim : FoundTicket → Result Error (Option Principal) × History → CheckResult × History
unfolding holds
of_claim f (err e, h) = (holds f none (some (claim_unknown e)), h)
of_claim f (ok none, h) = (holds f none none, h)
of_claim f (ok (some b), h) = (holds f (some b.id) none, h)

module _ (env : Env) where
  pub of_scanned : RecoverDto → Result Error (Option FoundTicket) × History → CheckResult × History
  unfolding bare of_claim
  of_scanned dto (err e, h) = (bare failed (some (not_scanned e)), h)
  of_scanned dto (ok none, h) = (bare not_found none, h)
  of_scanned dto (ok (some f), h) = of_claim f (claimant env dto f.booking_no h)

  pub scan_ahead : ℕ → RecoverDto → Option ℕ → History → CheckResult × History
  unfolding bare of_scanned
  scan_ahead now dto none h = (bare failed (some no_departure), h)
  scan_ahead now dto (some target) h =
      if ltb now target
      then of_scanned dto (scan_our_account env target dto.direction dto.passport_number h)
      else (bare departed none, h)

  pub of_fetched : ℕ → Result Error (Option Principal) × History → CheckResult × History
  unfolding bare scan_ahead
  of_fetched now (err e, h) = (bare failed (some (not_read e)), h)
  of_fetched now (ok none, h) = (bare failed (some no_booking), h)
  of_fetched now (ok (some b), h) =
      let dto = reconstruct_dto b in scan_ahead now dto (env.zinc_time dto.date dto.time) h

  -- `now` is the time at which the request was taken up.
  unfoldable pub check_booking : String → ℕ → History → CheckResult × History
  unfolding of_fetched
  check_booking id now h = of_fetched now (fetch_booking env id h)
