-- ===== src/Recoverer/Repair.antt =====
-- The missing-ticket repair sweep (lib/recoverer/repair.go).
pub mod Parks
mod Tests
use nitroso_tin.Base.{
  ℕ, String, Bool, true, false, not, ◌||◌, Option, none, some, List, [], ◌∷◌, any, ◌==◌,
  if◌then◌else◌, str_eq, Result, ok, err, bind_result,
}
use nitroso_tin.Ktmb.{KtmbError, http_status}
use nitroso_tin.Zinc.{Reply, unreached, answered, Principal, deref}
use nitroso_tin.Buyer.{matches_pattern}
use nitroso_tin.Recoverer.World.{
  attach_ticket, print_ticket, History, Error, bad_id, unreachable, undecodable, bad_status, Env, M,
  wants_ok,
}
use nitroso_tin.Recoverer.Process.{set_manual, log_in}

-- The statuses that are a client's rejection of the request's content.
pub is_rejection : ℕ → Bool
is_rejection status = status == 400 || status == 404 || status == 410

pub matches_not_found : List String → KtmbError → Bool
unfolding is_rejection
matches_not_found patterns (http_status status body) =
    if is_rejection status then any (matches_pattern body) patterns else false
matches_not_found patterns e = false

module _ (env : Env) (patterns : List String) where
  pub upload_ticket : String → String → String → String → M (Unit {0})
  upload_ticket id booking_no ticket_no pdf h =
      if env.is_id id
      then (
        wants_ok "ticket" (env.on_attach h id booking_no ticket_no pdf),
        attach_ticket id booking_no ticket_no pdf ∷ h,
      )
      else (err bad_id, h)

  pub after_print : String → String → String → Result KtmbError String → History → History
  unfolding upload_ticket
  after_print id booking_no ticket_no (err e) h =
      if matches_not_found patterns e then (set_manual env id h).1 else h
  after_print id booking_no ticket_no (ok pdf) h =
      if str_eq pdf "" then h else (upload_ticket id booking_no ticket_no pdf h).1

  -- `print` is the download of a ticket in the sweep's session.
  unfoldable pub repair_one :
      (String → String → History → Result KtmbError String × History)
      → Principal
      → History
      → History
  unfolding after_print
  repair_one print b h =
      let booking_no = deref b.booking_no in
      let ticket_no = deref b.ticket_no in
      if not (str_eq (deref b.status) "Completed")
      then h
      else if str_eq booking_no "" || str_eq ticket_no ""
      then (set_manual env b.id h).1
      else (let printed = print booking_no ticket_no h in
          after_print b.id booking_no ticket_no printed.0 printed.1)

  unfoldable pub repair_bookings :
      (String → String → History → Result KtmbError String × History)
      → List Principal
      → History
      → History
  unfolding repair_one
  repair_bookings print [] h = h
  repair_bookings print (b ∷ bs) h = repair_bookings print bs (repair_one print b h)

  -- The download from KTMB in the session of `user_data`.
  unfoldable pub download : String → String → String → History → Result KtmbError String × History
  download user_data booking_no ticket_no h =
      (env.on_print h user_data booking_no ticket_no, print_ticket booking_no ticket_no ∷ h)

  pub missing : Reply (List Principal) → Result Error (List Principal)
  missing unreached = err unreachable
  missing (answered status body) =
      if status == 200
      then (elim body [ none ↦ err undecodable | some bs ↦ ok bs ])
      else err (bad_status "list" status)

  pub repair_listed : List Principal → M (Unit {0})
  unfolding repair_bookings download
  repair_listed [] h = (ok tt, h)
  repair_listed (b ∷ bs) h =
      bind_result (log_in env h)
        (λ user_data w. (ok tt, repair_bookings (download user_data) (b ∷ bs) w))

  -- `Repair`; the listing of the bookings is not recorded in the history.
  unfoldable pub repair : Bool → (History → Reply (List Principal)) → M (Unit {0})
  unfolding missing repair_listed
  repair false on_missing h = (ok tt, h)
  repair true on_missing h = bind_result (missing (on_missing h), h) repair_listed
