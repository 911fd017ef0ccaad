-- ===== src/Backfill/Item.antt =====
-- One booking: `process`, `processRefund` and `processWithSessionRetry`.
pub mod Posts
pub mod Justified
mod Tickets
pub mod Refunded
pub mod Agrees
use nitroso_tin.Base.{
  ℕ, zero, suc, ◌+◌, String, Bool, true, false, ◌&&◌, ◌||◌, not, Option, none, some, List, [], ◌∷◌,
  ◌++◌, any, length, ltb, leb, ◌==◌, if◌then◌else◌, Result, ok, err, ◌>>=◌, bind_result, pure,
  throw, lift, or_else, str_eq, codes, to_lower, contains,
}
use nitroso_tin.Ktmb.{KtmbError, GenericRes}
use nitroso_tin.Zinc.{Reply, unreached, answered}
use nitroso_tin.Terminator.{PolicyTicket, RefundPolicy, all_tickets, matched}
use nitroso_tin.Backfill.Raw.{Refund, normalize_currency, refund_from_raw}
use nitroso_tin.Backfill.World.{
  Work, BookedTicket, BookedTrip, Booked, RawTicket, Error, login_failed, invalid_session,
  ticket_failed, undecodable, no_booking, no_amount, no_refund, post_failed, Call, login,
  invalidate, get_ticket, get_raw, get_policy, post_cost, post_refund, Env, M,
}

unfoldable pub asks_login : String → Bool
asks_login message = contains (to_lower message) (codes "please login to continue")

unfoldable pub is_invalid_session : List String → Bool
unfolding asks_login
is_invalid_session messages = any asks_login messages

-- KTMB's data, where the answer succeeded with `Status` true.
unfoldable pub accepted : {A : Type 0} → Result KtmbError (GenericRes A) → Result Error A
unfolding is_invalid_session
accepted (err e) = err ticket_failed
accepted (ok r) =
    if r.status
    then ok r.content
    else if is_invalid_session r.messages
    then err invalid_session
    else err ticket_failed

-- `errors.Is(err, errInvalidSession)`.
unfoldable pub session_ended : Result Error (Unit {0}) → Bool
session_ended (err invalid_session) = true
session_ended _ = false

unfoldable pub posted : Reply String → Result Error (Unit {0})
posted unreached = err post_failed
posted (answered status body) = if ltb status 200 || leb 300 status then err post_failed else ok tt

unfoldable pub data_in : String → List BookedTicket → Option String
data_in ticket_no [] = none
data_in ticket_no (t ∷ ts) =
    if str_eq t.ticket_no ticket_no && not (str_eq t.ticket_data "")
    then some t.ticket_data
    else data_in ticket_no ts

unfoldable pub ticket_data_from : String → List BookedTrip → Option String
unfolding data_in
ticket_data_from ticket_no [] = none
ticket_data_from ticket_no (t ∷ ts) = elim (data_in ticket_no t.tickets) [
  | some d ↦ some d
  | none ↦ ticket_data_from ticket_no ts
]

module _ {Amount : Type 0} where
  unfoldable pub booking_from : String → List (Booked Amount) → Option (Booked Amount)
  booking_from booking_no [] = none
  booking_from booking_no (b ∷ bs) =
      if str_eq b.booking_no booking_no then some b else booking_from booking_no bs

module _ {Amount : Type 0} (positive : Amount → Bool) where
  unfoldable pub sole_total : RefundPolicy Amount → Bool → Option (Refund Amount)
  sole_total policy applies =
      if positive policy.total_refund_amount && applies
      then some (policy.total_refund_amount, normalize_currency (codes policy.currency_code ∷ []))
      else none

  unfoldable pub amount_of :
      RefundPolicy Amount → ℕ → Option (PolicyTicket Amount) → Option (Refund Amount)
  unfolding sole_total
  amount_of policy ticket_count none = sole_total policy (ticket_count == 0)
  amount_of policy ticket_count (some t) =
      if positive t.refund_amount
      then some (
        t.refund_amount,
        normalize_currency (codes t.currency_code ∷ codes policy.currency_code ∷ []),
      )
      else sole_total policy (ticket_count == 0 || ticket_count == 1)

  unfoldable pub refund_from_policy : RefundPolicy Amount → String → Option (Refund Amount)
  unfolding amount_of
  refund_from_policy policy ticket_no =
      let all = all_tickets policy.trips in amount_of policy (length all) (matched ticket_no all)

  module _ (env : Env Amount) where
    -- A dry run posts nothing.
    unfoldable pub unless_dry : M Amount (Unit {0}) → M Amount (Unit {0})
    unless_dry post = if env.options.dry_run then pure tt else post

    unfoldable pub send_cost : String → Amount → List ℕ → M Amount (Unit {0})
    unfolding posted
    send_cost id amount currency h =
        (posted (env.on_post_cost h id amount currency), post_cost id amount currency ∷ h)

    unfoldable pub send_refund : String → Amount → List ℕ → M Amount (Unit {0})
    unfolding posted
    send_refund id amount currency h =
        (posted (env.on_post_refund h id amount currency), post_refund id amount currency ∷ h)

    unfoldable pub ask_ticket : String → Work → M Amount (List (Booked Amount))
    unfolding accepted
    ask_ticket user work h = (
      accepted (env.on_ticket h user work.booking_no work.ticket_no),
      get_ticket work.booking_no work.ticket_no ∷ h,
    )

    unfoldable pub ask_raw : String → Work → M Amount (RawTicket Amount)
    unfolding accepted
    ask_raw user work h = (
      accepted (env.on_raw h user work.booking_no work.ticket_no),
      get_raw work.booking_no work.ticket_no ∷ h,
    )

    unfoldable pub post_total : Work → Booked Amount → M Amount (Unit {0})
    unfolding unless_dry send_cost
    post_total work booking =
        if positive booking.total_amount
        then unless_dry (
            send_cost work.id booking.total_amount
              (normalize_currency (codes booking.currency_code ∷ [])))
        else throw no_amount

    unfoldable pub process_cost : String → Work → M Amount (Unit {0})
    unfolding ask_ticket booking_from post_total
    process_cost user work = do
      bookings ← ask_ticket user work
      booking ← lift (or_else (booking_from work.booking_no bookings) no_booking)
      post_total work booking

    -- What a probe of the policy makes of the refund found so far.
    unfoldable pub after_policy :
        Work
        → Option (Refund Amount)
        → Result KtmbError (GenericRes (RefundPolicy Amount))
        → Result Error (Option (Refund Amount))
    unfolding refund_from_policy is_invalid_session
    after_policy work found (err e) = ok found
    after_policy work found (ok r) =
        if r.status
        then (elim (refund_from_policy r.content work.ticket_no) [
          | some better ↦ ok (some better)
          | none ↦ ok found
        ])
        else if is_invalid_session r.messages
        then err invalid_session
        else ok found

    unfoldable pub probe_policy :
        String → Work → Option (Refund Amount) → Booked Amount → M Amount (Option (Refund Amount))
    unfolding ticket_data_from after_policy
    probe_policy user work found booking h = elim (ticket_data_from work.ticket_no booking.trips) [
      | none ↦ (ok found, h)
      | some d ↦ (
        after_policy work found (env.on_policy h user booking.booking_data d),
        get_policy booking.booking_data d ∷ h,
      )
    ]

    -- `currency` is the booking's, blank where there is no booking.
    unfoldable pub post_found : Work → List ℕ → Option (Refund Amount) → M Amount (Unit {0})
    unfolding unless_dry send_refund
    post_found work currency none = throw no_refund
    post_found work currency (some (amount, found)) =
        unless_dry (send_refund work.id amount (normalize_currency (found ∷ currency ∷ [])))

    unfoldable pub with_booking :
        String → Work → Option (Refund Amount) → Option (Booked Amount) → M Amount (Unit {0})
    unfolding probe_policy post_found
    with_booking user work found none = post_found work [] found
    with_booking user work found (some booking) = do
      best ← probe_policy user work found booking
      post_found work (codes booking.currency_code) best

    unfoldable pub process_refund : String → Work → M Amount (Unit {0})
    unfolding ask_raw with_booking booking_from
    process_refund user work = do
      raw ← ask_raw user work
      bookings ← lift (or_else raw.typed undecodable)
      with_booking user work (refund_from_raw positive raw.root work.ticket_no)
          (booking_from work.booking_no bookings)

    unfoldable pub process : String → Work → M Amount (Unit {0})
    unfolding process_refund process_cost
    process user work =
        if env.options.refund then process_refund user work else process_cost user work

    -- The session to go on with stands beside the result.
    abbrev pub Kept : Type 0
    Kept = (Result Error (Unit {0}) × String) × List (Call Amount)

    unfoldable pub keep : String → Result Error (Unit {0}) × List (Call Amount) → Kept
    keep user (r, h) = ((r, user), h)

    unfoldable pub refresh : String → Work → List (Call Amount) → Kept
    unfolding process keep
    refresh user work h =
        let h1 = invalidate user ∷ h in
        let h2 = login ∷ h1 in
        if env.on_invalidate h user
        then (elim (env.on_login h1) [
          | none ↦ ((err invalid_session, user), h2)
          | some fresh ↦ keep fresh (process fresh work h2)
        ])
        else ((err invalid_session, user), h1)

    unfoldable pub retry_invalid :
        String → Work → Result Error (Unit {0}) × List (Call Amount) → Kept
    unfolding session_ended refresh
    retry_invalid user work (r, h) = if session_ended r then refresh user work h else ((r, user), h)

    unfoldable pub process_with_session_retry : String → Work → List (Call Amount) → Kept
    unfolding retry_invalid
    process_with_session_retry user work h = retry_invalid user work (process user work h)
