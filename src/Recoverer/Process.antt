-- ===== src/Recoverer/Process.antt =====
-- `ProcessItem` and its helpers (lib/recoverer/process.go): one parked booking is completed, recycled,
-- marked duplicate (refunded), parked for a human, dropped, or left for a retry.
pub mod Reads
pub mod Refunds
pub mod Outcome
pub mod RefundSafety
pub mod Once
pub mod Own
pub mod Completes
pub mod Tests
use nitroso_tin.Base.{
  ℕ, String, Bool, true, false, ◌&&◌, ◌||◌, not, Option, none, some, List, [], ◌∷◌, if◌then◌else◌,
  ◌==◌, ltb, Result, ok, err, Prog, ◌>>=◌, bind_result, pure, throw, lift, str_eq,
}
use nitroso_tin.Ktmb.{KtmbError, GenericRes, TicketList, rejected, cancelled}
use nitroso_tin.Zinc.{Reply, unreached, answered, Principal, RecoverDto, deref}
use nitroso_tin.Recoverer.Scan.{FoundTicket, find_ticket_in}
use nitroso_tin.Recoverer.World.{
  Call, get_booking, mark_recovering, mark_duplicate, mark_manual, recover_revert, complete,
  search_completed, login, list_page, print_ticket, History, Error, bad_id, unreachable,
  undecodable, bad_status, Env, M, wants_ok, of_ktmb, of_scan,
}

-- The keys of `terminalStatuses`.
pub is_terminal : String → Bool
is_terminal s =
    str_eq s "Completed"
    || str_eq s "Cancelled"
    || str_eq s "Refunded"
    || str_eq s "Duplicate"
    || str_eq s "Terminated"
    || str_eq s "RequireManualIntervention"

-- The booking already records a KTMB booking number.
pub is_captured : Option String → Bool
is_captured none = false
is_captured (some number) = not (str_eq number "")

-- The first booking that records the KTMB booking number.
unfoldable pub recorded : String → List Principal → Option Principal
recorded number [] = none
recorded number (b ∷ bs) = elim b.booking_no [
  | none ↦ recorded number bs
  | some n ↦ if str_eq n number then some b else recorded number bs
]

module _ (env : Env) where
  open env use {is_id}

  -- `none` is zinc's 404.
  unfoldable pub found_booking : Reply Principal → Result Error (Option Principal)
  found_booking unreached = err unreachable
  found_booking (answered status body) =
      if status == 404
      then ok none
      else if status == 200
      then (elim body [ none ↦ err undecodable | some b ↦ ok (some b) ])
      else err (bad_status "get" status)

  unfoldable pub fetch_booking : String → M (Option Principal)
  unfolding found_booking
  fetch_booking id h =
      if is_id id
      then (found_booking (env.on_booking h id), get_booking id ∷ h)
      else (err bad_id, h)

  unfoldable pub post_status :
      String → Call → (History → String → Reply String) → String → M (Unit {0})
  post_status name call answer id h =
      if is_id id then (wants_ok name (answer h id), call ∷ h) else (err bad_id, h)

  pub set_recovering : String → M (Unit {0})
  unfolding post_status
  set_recovering id = post_status "recovering" (mark_recovering id) env.on_recovering id

  pub set_duplicate : String → M (Unit {0})
  unfolding post_status
  set_duplicate id = post_status "duplicate" (mark_duplicate id) env.on_duplicate id

  unfoldable pub set_manual : String → M (Unit {0})
  unfolding post_status
  set_manual id = post_status "manual-intervention" (mark_manual id) env.on_manual id

  revert_answer : String → Reply String → M (Unit {0})
  revert_answer id unreached = throw unreachable
  revert_answer id (answered status body) =
      if status == 200
      then pure tt
      else if status == 409
      then set_duplicate id
      else if status == 400
      then pure tt
      else throw (bad_status "recycle" status)

  pub recycle_or_duplicate : String → M (Unit {0})
  unfolding revert_answer
  recycle_or_duplicate id h =
      if is_id id
      then revert_answer id (env.on_revert h id) (recover_revert id ∷ h)
      else (err bad_id, h)

  pub log_in : M String
  log_in h = (of_ktmb (env.on_login h), login ∷ h)

  listed : Result KtmbError (GenericRes TicketList) → Result KtmbError TicketList
  listed (err e) = err e
  listed (ok res) = if res.status then ok res.content else err (rejected res.messages)

  -- `findTicket`'s page fetcher: a request is made only while the context lives.
  pub list_tickets : String → History → ℕ → Result KtmbError TicketList × History
  unfolding listed
  list_tickets user_data h page =
      if env.cancelled_at h
      then (err cancelled, h)
      else (listed (env.on_list h user_data page), list_page page ∷ h)

  pub scan_our_account : ℕ → String → String → M (Option FoundTicket)
  scan_our_account target direction passport = do
    user_data ← log_in
    λ h. of_scan (find_ticket_in env.ktmb_time (list_tickets user_data) target direction passport h)

  pub complete_booking : String → String → String → String → M (Unit {0})
  complete_booking id booking_no ticket_no pdf h =
      if is_id id
      then (
        wants_ok "complete" (env.on_complete h id booking_no ticket_no pdf),
        complete id booking_no ticket_no pdf ∷ h,
      )
      else (err bad_id, h)

  pub print : String → String → String → M String
  print user_data booking_no ticket_no h = (
    of_ktmb (env.on_print h user_data booking_no ticket_no),
    print_ticket booking_no ticket_no ∷ h,
  )

  pub force_complete : String → String → String → M (Unit {0})
  unfolding log_in print complete_booking
  force_complete id booking_no ticket_no = do
    user_data ← log_in
    pdf ← print user_data booking_no ticket_no
    complete_booking id booking_no ticket_no pdf

  unfoldable pub searched : String → Reply (List Principal) → Result Error (Option Principal)
  searched number unreached = err unreachable
  searched number (answered status body) =
      if status == 200
      then (elim body [ none ↦ err undecodable | some bs ↦ ok (recorded number bs) ])
      else err (bad_status "search" status)

  unfoldable pub claimant : RecoverDto → String → M (Option Principal)
  unfolding searched
  claimant dto number h = (
    searched number (env.on_search h dto.passport_number dto.date dto.time dto.direction),
    search_completed dto.passport_number dto.date dto.time dto.direction ∷ h,
  )

  settle_claim : RecoverDto → FoundTicket → Option Principal → M (Unit {0})
  settle_claim dto f (some b) = set_duplicate dto.booking_id
  settle_claim dto f none = force_complete dto.booking_id f.booking_no f.ticket_no

  settle_scan : RecoverDto → Option FoundTicket → M (Unit {0})
  unfolding settle_claim
  settle_scan dto none = recycle_or_duplicate dto.booking_id
  settle_scan dto (some f) = do claim ← claimant dto f.booking_no; settle_claim dto f claim

  verify_on_ktmb : RecoverDto → ℕ → M (Unit {0})
  unfolding settle_scan
  verify_on_ktmb dto target = do
    found ← scan_our_account target dto.direction dto.passport_number
    settle_scan dto found

  pub resolve : RecoverDto → M (Unit {0})
  unfolding verify_on_ktmb
  resolve dto h =
      if not (str_eq dto.booking_no "") && not (str_eq dto.ticket_no "")
      then force_complete dto.booking_id dto.booking_no dto.ticket_no h
      else (elim (env.zinc_time dto.date dto.time) [
        | none ↦ set_manual dto.booking_id h
        | some target ↦
            if ltb target (env.now h)
            then set_manual dto.booking_id h
            else verify_on_ktmb dto target h
      ])

  -- The buyer's transition to Recovering was best-effort, so it is driven here.
  pub transition_first : RecoverDto → M (Unit {0})
  transition_first dto = do _ ← set_recovering dto.booking_id; resolve dto

  triage : RecoverDto → Principal → M (Unit {0})
  triage dto b =
      let status = deref b.status in
      if is_terminal status
      then pure tt
      else if is_captured b.booking_no
      then set_manual dto.booking_id
      else if str_eq status "Buying"
      then transition_first dto
      else if str_eq status "Recovering"
      then resolve dto
      else set_manual dto.booking_id

  or_drop : RecoverDto → Option Principal → M (Unit {0})
  unfolding triage
  or_drop dto none = pure tt
  or_drop dto (some b) = triage dto b

  unfoldable pub process_item : RecoverDto → M (Unit {0})
  unfolding or_drop
  process_item dto = do booking ← fetch_booking dto.booking_id; or_drop dto booking
