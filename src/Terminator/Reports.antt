-- ===== src/Terminator/Reports.antt =====
-- What a whole run of `Terminate` has done when it succeeds, and when it reports a refund to zinc.
use nitroso_tin.Base.{
  ℕ, zero, suc, String, Bool, true, false, Option, none, some, List, [], ◌∷◌, ◌≡◌, ◌⊎◌, inl, inr,
  refl, arith, Result, ok, any, bind_result, bind_result_cases, Bool-cases, sym, ap, ◌∙◌, subst,
  ltb, ◌+◌,
}
use nitroso_tin.Terminator.{
  PolicyTicket, RefundPolicy, Termination, Error, Call, login, get_policy, refund, report,
  refund_ticket, refund_amount, Env, accepted, policy_ticket, log_in, list, on_page, locate, find,
  policy_of, refund_on_ktmb, report_refund, after_refund, refund_under, terminate,
}

-- The request reports a refund to zinc.
abbrev pub reports : {Amount : Type 0} → Call Amount → Bool
reports (report id amount currency) = true
reports _ = false

module _ {Amount : Type 0} (positive : Amount → Bool) (env : Env Amount) (t : Termination) where
  -- From `h` on KTMB accepted the refund of the policy's ticket, and then the amount was reported, if
  -- there is one and a reporter for it.
  abbrev pub Refunded :
      String → RefundPolicy Amount → List (Call Amount) → List (Call Amount) → Type 0
  Refunded cred policy h h' =
      (ticket : PolicyTicket Amount) × (refund_ticket policy t.ticket_no ≡ some ticket)
      × (accepted (env.on_refund h cred policy.booking_data ticket.ticket_data) ≡ ok tt)
      × (((h' ≡ refund policy.booking_data ticket.ticket_data ∷ h)
            × ((refund_amount positive policy t.ticket_no ≡ none) ⊎ (env.has_reporter ≡ false)))
          ⊎ ((amount : Amount) × (currency : List ℕ) × (refund_amount positive policy t.ticket_no
                ≡ some (amount, currency))
              × (h'
                  ≡ report t.id amount currency
                    ∷ refund policy.booking_data ticket.ticket_data
                    ∷ h)))

  -- A result that succeeded, or that made a report.
  abbrev pub Ends : Result Error (Unit {0}) × List (Call Amount) → Type 0
  Ends q = (q.0 ≡ ok tt) ⊎ (any reports q.1 ≡ true)

  refund_under-Refunded :
      (cred : String) (policy : RefundPolicy Amount) (h : List (Call Amount))
      → any reports h ≡ false
      → Ends (refund_under positive env t cred policy h)
      → Refunded cred policy h (refund_under positive env t cred policy h).1
  unfolding refund_under
  refund_under-Refunded cred policy h clean =
      bind_result_cases (λ q. Ends q → Refunded cred policy h q.1)
        (policy_ticket (refund_ticket policy t.ticket_no), h) _
        (λ e w at ends. absurd (ground arith)) on_ticket
    where
      by_amount :
          (ticket : PolicyTicket Amount)
          → refund_ticket policy t.ticket_no ≡ some ticket
          → accepted (env.on_refund h cred policy.booking_data ticket.ticket_data) ≡ ok tt
          → (amount : Option (Amount × List ℕ)) → refund_amount positive policy t.ticket_no ≡ amount
          → Refunded cred policy h
              (after_refund env t.id amount (refund policy.booking_data ticket.ticket_data ∷ h)).1
      by_amount ticket at done none e = (ticket, at, done, inl (unfold after_refund in refl, inl e))
      by_amount ticket at done (some (a, c)) e = elim (Bool-cases env.has_reporter) [
        | inl has ↦
            (ticket, at, done, inr (a, c, e, unfold after_refund report_refund in ground arith))
        | inr hasnt ↦
            (ticket, at, done, inl (unfold after_refund report_refund in ground arith, inr hasnt))
      ]

      on_ticket :
          (ticket : PolicyTicket Amount) (w : List (Call Amount))
          → ◌≡◌ {A = Result Error (PolicyTicket Amount) × List (Call Amount)}
              (policy_ticket (refund_ticket policy t.ticket_no), h)
              (ok ticket, w)
          → Ends (
              bind_result
                (refund_on_ktmb env cred policy.booking_data ticket.ticket_data w)
                (λ _. after_refund env t.id (refund_amount positive policy t.ticket_no)))
          → Refunded cred policy h
              (bind_result
                (refund_on_ktmb env cred policy.booking_data ticket.ticket_data w)
                (λ _. after_refund env t.id (refund_amount positive policy t.ticket_no))).1
      on_ticket ticket w at =
          let same : h ≡ w = ground arith in
          let chosen : refund_ticket policy t.ticket_no ≡ some ticket =
            unfold policy_ticket in ground arith in
          bind_result_cases (λ q. Ends q → Refunded cred policy h q.1)
            (refund_on_ktmb env cred policy.booking_data ticket.ticket_data w) _
            (λ e w₁ at₁ ends. absurd (unfold refund_on_ktmb in ground arith))
            (λ u w₁ at₁ ends.
              let made : refund policy.booking_data ticket.ticket_data ∷ h ≡ w₁ =
                unfold refund_on_ktmb in ground arith in
              let done : accepted (env.on_refund h cred policy.booking_data ticket.ticket_data)
                  ≡ ok tt =
                unfold refund_on_ktmb in ground arith in
              subst
                (λ k.
                  Refunded cred policy h
                    (after_refund env t.id (refund_amount positive policy t.ticket_no) k).1)
                made
                (by_amount ticket chosen done (refund_amount positive policy t.ticket_no) refl))

  on_page_quiet :
      (found : Option (String × String)) (more : Bool)
      (next : List (Call Amount) → Result Error (String × String) × List (Call Amount))
      (w : List (Call Amount))
      → any reports w ≡ false
      → any reports (next w).1 ≡ false
      → any reports (on_page env found more next w).1 ≡ false
  unfolding on_page
  on_page_quiet (some d) more next w c n = c
  on_page_quiet none true next w c n = n
  on_page_quiet none false next w c n = c

  find_quiet :
      (fuel : ℕ) (cred b n : String) (page : ℕ) (h : List (Call Amount))
      → any reports h ≡ false
      → any reports (find env fuel cred b n page h).1 ≡ false
  unfolding find
  find_quiet zero cred b n page h clean = clean
  find_quiet (suc fuel) cred b n page h clean =
      bind_result_cases (λ q. any reports q.1 ≡ false) (list env cred page h) _
        (λ e w at. unfold list in ground arith)
        (λ first w at.
          let quiet : any reports w ≡ false = unfold list in ground arith in
          on_page_quiet (locate b n first.bookings) (ltb page first.total_page) _ w quiet
            (find_quiet fuel cred b n (page + 1) w quiet))

  abbrev pub Terminated : ℕ → List (Call Amount) → Type 0
  Terminated fuel h' =
      (cred booking_data ticket_data : String) × (h : List (Call Amount)) × (policy : RefundPolicy
        Amount)
      × (env.on_login [] ≡ some cred)
      × (find env fuel cred t.booking_no t.ticket_no 1 (login ∷ [])
          ≡ (ok (booking_data, ticket_data), h))
      × (accepted (env.on_policy h cred booking_data ticket_data) ≡ ok policy)
      × Refunded cred policy (get_policy booking_data ticket_data ∷ h) h'

  terminate_cases :
      (fuel : ℕ)
      → Ends (terminate positive env fuel t [])
      → Terminated fuel (terminate positive env fuel t []).1
  unfolding terminate
  terminate_cases fuel =
      bind_result_cases (λ q. Ends q → Terminated fuel q.1) (log_in env []) _
        (λ e w at ends. absurd (unfold log_in in ground arith))
        (λ cred w at.
          let w_is : w ≡ login ∷ [] = unfold log_in in ground arith in
          let in_is : env.on_login [] ≡ some cred = unfold log_in in ground arith in
          let quiet = find_quiet fuel cred t.booking_no t.ticket_no 1 w (ground arith) in
          bind_result_cases (λ q. Ends q → Terminated fuel q.1)
            (find env fuel cred t.booking_no t.ticket_no 1 w) _
            (λ e w₁ at₁ ends. absurd (ground arith))
            (λ place w₁ at₁.
              bind_result_cases (λ q. Ends q → Terminated fuel q.1)
                (policy_of env cred place.0 place.1 w₁) _
                (λ e w₂ at₂ ends. absurd (unfold policy_of in ground arith))
                (λ policy w₂ at₂ ends.
                  let w₂_is : w₂ ≡ get_policy place.0 place.1 ∷ w₁ =
                    unfold policy_of in ground arith in
                  (
                    cred,
                    place.0,
                    place.1,
                    w₁,
                    policy,
                    in_is,
                    ap (find env fuel cred t.booking_no t.ticket_no 1) (sym w_is) ∙ at₁,
                    unfold policy_of in ground arith,
                    subst
                        (λ k. Refunded cred policy k (refund_under positive env t cred policy w₂).1)
                        w₂_is (refund_under-Refunded cred policy w₂ (ground arith) ends),
                  ))))

-- A run of `Terminate` that succeeds, or that reports a refund to zinc at all, has logged in, found
-- the ticket on our account, and got a refund policy that it chose a ticket from; KTMB accepted the
-- refund of that ticket; and the run ended there, with no report where the policy gives no amount or
-- there is no reporter, or with one report of exactly the amount that the policy gives.
pub terminate-Terminated :
    {Amount : Type 0} (positive : Amount → Bool) (env : Env Amount) (t : Termination) (fuel : ℕ)
    → Ends positive env t (terminate positive env fuel t [])
    → Terminated positive env t fuel (terminate positive env fuel t []).1
terminate-Terminated positive env t fuel = terminate_cases positive env t fuel
