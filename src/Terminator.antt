-- ===== src/Terminator.antt =====
-- The terminator (lib/terminator/terminator.go): it finds a bought ticket on our KTMB account, refunds
-- it under KTMB's refund policy, and reports the exact amount to zinc.
pub mod Policy
pub mod Listing
pub mod Reports
mod Tests
use nitroso_tin.Base.{
  ℕ, zero, suc, ◌+◌, String, Bool, true, false, ◌&&◌, ◌||◌, not, Option, none, some, List, [], ◌∷◌,
  ◌++◌, length, ltb, leb, ◌==◌, if◌then◌else◌, Result, ok, err, Prog, ◌>>=◌, bind_result, pure,
  throw, lift, str_eq,
}
use nitroso_tin.Ktmb.{
  KtmbError, rejected, GenericRes, TicketListTicket, TicketListTrip, TicketListBooking, TicketList,
}
use nitroso_tin.Zinc.{Reply, unreached, answered}
use nitroso_tin.Currency.{currency_or_default}

-- Amounts are 32-bit floats; the code only asks whether one is above 0.
pub record PolicyTicket (Amount : Type 0) : Type 0 where
  pub ticket_no : String
  pub ticket_data : String
  pub refund_amount : Amount
  pub currency_code : String

pub record PolicyTrip (Amount : Type 0) : Type 0 where
  pub tickets : List (PolicyTicket Amount)

pub record RefundPolicy (Amount : Type 0) : Type 0 where
  pub booking_data : String
  pub currency_code : String
  pub total_refund_amount : Amount
  pub trips : List (PolicyTrip Amount)

pub record Termination : Type 0 where
  pub id : String
  pub booking_no : String
  pub ticket_no : String

pub data Error : Type 0 where
  login_failed : Error
  ktmb_failed : KtmbError → Error
  not_found no_policy_ticket : Error
  no_reporter report_unreached : Error
  report_status : ℕ → Error
  out_of_fuel : Error

pub data Call (Amount : Type 0) : Type 0 where
  login : Call Amount
  list_page : ℕ → Call Amount
  get_policy : String → String → Call Amount
  refund : String → String → Call Amount
  report : String → Amount → List ℕ → Call Amount

pub ticket_data_in : String → List TicketListTicket → Option String
ticket_data_in ticket_no [] = none
ticket_data_in ticket_no (t ∷ ts) =
    if str_eq t.ticket_no ticket_no then some t.ticket_data else ticket_data_in ticket_no ts

pub ticket_data_of : String → List TicketListTrip → Option String
ticket_data_of ticket_no [] = none
ticket_data_of ticket_no (t ∷ ts) = elim (ticket_data_in ticket_no t.tickets) [
  | some d ↦ some d
  | none ↦ ticket_data_of ticket_no ts
]

-- The booking's and the ticket's data on one page.
pub locate : String → String → List TicketListBooking → Option (String × String)
locate booking_no ticket_no [] = none
locate booking_no ticket_no (b ∷ bs) =
    let rest = locate booking_no ticket_no bs in
    if str_eq b.booking_no booking_no
    then (elim (ticket_data_of ticket_no b.trips) [
      | some d ↦ some (b.booking_data, d)
      | none ↦ rest
    ])
    else rest

module _ {Amount : Type 0} where
  -- The tickets of a policy in the order of the two loops.
  pub all_tickets : List (PolicyTrip Amount) → List (PolicyTicket Amount)
  all_tickets [] = []
  all_tickets (t ∷ ts) = t.tickets ++ all_tickets ts

  -- The last ticket with the number.
  pub matched : String → List (PolicyTicket Amount) → Option (PolicyTicket Amount)
  matched ticket_no [] = none
  matched ticket_no (t ∷ ts) = elim (matched ticket_no ts) [
    | some m ↦ some m
    | none ↦ if str_eq t.ticket_no ticket_no then some t else none
  ]

  pub with_data : PolicyTicket Amount → Option (PolicyTicket Amount)
  with_data t = if str_eq t.ticket_data "" then none else some t

  pub sole_anonymous : List (PolicyTicket Amount) → Option (PolicyTicket Amount)
  sole_anonymous (t ∷ []) =
      if str_eq t.ticket_no "" && not (str_eq t.ticket_data "") then some t else none
  sole_anonymous _ = none

  -- The first ticket with the number decides; `all` are the policy's tickets.
  pub first_match :
      String
      → List (PolicyTicket Amount)
      → List (PolicyTicket Amount)
      → Option (PolicyTicket Amount)
  unfolding with_data sole_anonymous
  first_match ticket_no all [] = sole_anonymous all
  first_match ticket_no all (t ∷ ts) =
      if str_eq t.ticket_no ticket_no then with_data t else first_match ticket_no all ts

  pub refund_ticket : RefundPolicy Amount → String → Option (PolicyTicket Amount)
  unfolding first_match
  refund_ticket policy ticket_no =
      let all = all_tickets policy.trips in first_match ticket_no all all

module _ {Amount : Type 0} where
  unfoldable pub total_applies : ℕ → Option (PolicyTicket Amount) → Bool
  total_applies count none = count == 0
  total_applies count (some t) = count == 0 || count == 1

module _ {Amount : Type 0} (positive : Amount → Bool) where
  unfoldable pub total_amount :
      RefundPolicy Amount → Option (PolicyTicket Amount) → Option (Amount × List ℕ)
  total_amount policy m =
      if positive policy.total_refund_amount && total_applies (length (all_tickets policy.trips)) m
      then some (policy.total_refund_amount, currency_or_default (policy.currency_code ∷ []))
      else none

  unfoldable pub own_amount :
      RefundPolicy Amount → Option (PolicyTicket Amount) → Option (Amount × List ℕ)
  unfolding total_amount total_applies
  own_amount policy none = total_amount policy none
  own_amount policy (some t) =
      if positive t.refund_amount
      then some (t.refund_amount, currency_or_default (t.currency_code ∷ policy.currency_code ∷ []))
      else total_amount policy (some t)

  unfoldable pub refund_amount : RefundPolicy Amount → String → Option (Amount × List ℕ)
  unfolding own_amount
  refund_amount policy ticket_no = own_amount policy (matched ticket_no (all_tickets policy.trips))

pub record Env (Amount : Type 0) : Type 0 where
  pub on_login : List (Call Amount) → Option String
  pub on_list : List (Call Amount) → String → ℕ → Result KtmbError (GenericRes TicketList)
  pub on_policy :
      List (Call Amount)
      → String
      → String
      → String
      → Result KtmbError (GenericRes (RefundPolicy Amount))
  pub on_refund :
      List (Call Amount) → String → String → String → Result KtmbError (GenericRes (Unit {0}))
  pub has_reporter : Bool
  pub on_report : List (Call Amount) → String → Amount → List ℕ → Reply String

module _ {Amount : Type 0} where
  pub policy_ticket : Option (PolicyTicket Amount) → Result Error (PolicyTicket Amount)
  policy_ticket none = err no_policy_ticket
  policy_ticket (some t) = ok t

pub reported : Reply String → Result Error (Unit {0})
reported unreached = err report_unreached
reported (answered status body) =
    if ltb status 200 || leb 300 status then err (report_status status) else ok tt

-- The data of an answer that succeeded with `Status` true.
abbrev pub accepted : {A : Type 0} → Result KtmbError (GenericRes A) → Result Error A
accepted (err e) = err (ktmb_failed e)
accepted (ok r) = if r.status then ok r.content else err (ktmb_failed (rejected r.messages))

-- A run's requests, the latest first, are its history.
abbrev pub M : Type 0 → Type 0 → Type 0
M Amount A = Prog (List (Call Amount)) Error A

module _ {Amount : Type 0} (env : Env Amount) where
  pub log_in : M Amount String
  log_in h = elim (env.on_login h) [
    | none ↦ (err login_failed, login ∷ h)
    | some cred ↦ (ok cred, login ∷ h)
  ]

  pub list : String → ℕ → M Amount TicketList
  list cred page h = (accepted (env.on_list h cred page), list_page page ∷ h)

  pub on_page :
      Option (String × String) → Bool → M Amount (String × String) → M Amount (String × String)
  on_page (some d) more next = pure d
  on_page none true next = next
  on_page none false next = throw not_found

  -- The source calls itself with the next page; the fuel counts these calls.
  pub find : ℕ → String → String → String → ℕ → M Amount (String × String)
  unfolding on_page
  find zero cred booking_no ticket_no page = throw out_of_fuel
  find (suc fuel) cred booking_no ticket_no page = do
    first ← list cred page
    on_page (locate booking_no ticket_no first.bookings) (ltb page first.total_page)
        (find fuel cred booking_no ticket_no (page + 1))

  pub policy_of : String → String → String → M Amount (RefundPolicy Amount)
  policy_of cred booking_data ticket_data h = (
    accepted (env.on_policy h cred booking_data ticket_data),
    get_policy booking_data ticket_data ∷ h,
  )

  pub refund_on_ktmb : String → String → String → M Amount (Unit {0})
  refund_on_ktmb cred booking_data ticket_data h = (
    accepted (env.on_refund h cred booking_data ticket_data),
    refund booking_data ticket_data ∷ h,
  )

  pub report_refund : String → Amount → List ℕ → M Amount (Unit {0})
  unfolding reported
  report_refund id amount currency h =
      if env.has_reporter
      then (reported (env.on_report h id amount currency), report id amount currency ∷ h)
      else (err no_reporter, h)

  -- KTMB has refunded: a missing amount or a failed report is only logged.
  pub after_refund : String → Option (Amount × List ℕ) → M Amount (Unit {0})
  after_refund id none h = (ok tt, h)
  after_refund id (some (amount, currency)) h = (ok tt, (report_refund id amount currency h).1)

module _ {Amount : Type 0} (positive : Amount → Bool) (env : Env Amount) where
  pub refund_under : Termination → String → RefundPolicy Amount → M Amount (Unit {0})
  unfolding policy_ticket
  refund_under t cred policy = do
    ticket ← lift (policy_ticket (refund_ticket policy t.ticket_no))
    _ ← refund_on_ktmb env cred policy.booking_data ticket.ticket_data
    after_refund env t.id (refund_amount positive policy t.ticket_no)

  pub terminate : ℕ → Termination → M Amount (Unit {0})
  unfolding refund_under
  terminate fuel t = do
    cred ← log_in env
    place ← find env fuel cred t.booking_no t.ticket_no 1
    policy ← policy_of env cred place.0 place.1
    refund_under t cred policy
