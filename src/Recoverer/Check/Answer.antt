-- ===== src/Recoverer/Check/Answer.antt =====
-- `answerCheck` and `reportCheck` (lib/recoverer/check.go): one account check is made and its result
-- reported to zinc. The reports are a list of their own, the latest first.
pub mod Reported
use nitroso_tin.Base.{
  ℕ, zero, suc, String, Bool, true, false, ◌||◌, Option, none, some, List, [], ◌∷◌, ◌==◌,
  if◌then◌else◌, str_eq,
}
use nitroso_tin.Zinc.{Reply, unreached, answered}
use nitroso_tin.Recoverer.World.{History, Env}
use nitroso_tin.Recoverer.Queue.{requeue_retries}
use nitroso_tin.Recoverer.Check.{Problem, CheckStatus, CheckResult, check_booking}

-- The body of a report, and the check that it is for.
pub record Report : Type 0 where
  pub check_id : String
  pub status : CheckStatus
  pub ktmb_booking_no : Option String
  pub ktmb_ticket_no : Option String
  pub claimed_by : Option String
  pub error : Option Problem

-- zinc's replies, in view of the reads and the reports before, and whether the context of the check
-- ends in the wait after a failure.
pub record Reporting : Type 0 where
  pub on_report : History → List Report → Report → Reply String
  pub ends_after : History → List Report → Bool

pub optional : String → Option String
optional s = if str_eq s "" then none else some s

pub report_of : String → CheckResult → Report
unfolding optional
report_of check_id r = record {
  check_id = check_id;
  status = r.status;
  ktmb_booking_no = optional r.ktmb_booking_no;
  ktmb_ticket_no = optional r.ktmb_ticket_no;
  claimed_by = r.claimed_by;
  error = r.error;
}

-- A check that is gone has nothing to be told.
pub is_reported : Reply String → Bool
is_reported unreached = false
is_reported (answered status body) = status == 404 || status == 200

module _ (zinc : Reporting) where
  pub report_times : ℕ → Report → History → List Report → List Report
  unfolding is_reported
  report_times zero r h sent = sent
  report_times (suc left) r h sent =
      let rest = report_times left r h (r ∷ sent) in
      if is_reported (zinc.on_report h sent r) || zinc.ends_after h (r ∷ sent)
      then r ∷ sent
      else rest

  -- The requests of the check, and the reports.
  pub answer_check : Env → String → String → ℕ → History → History × List Report
  unfolding report_times report_of
  answer_check env check_id booking_id now h =
      let out = check_booking env booking_id now h in
      (out.1, report_times requeue_retries (report_of check_id out.0) out.1 [])
