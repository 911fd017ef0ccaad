-- ===== src/Terminator/Policy.antt =====
-- Which ticket of a refund policy is refunded, and which amount is reported for it.
use nitroso_tin.Base.{
  ℕ, String, Bool, true, ◌&&◌, some, List, [], ◌∷◌, ◌≡◌, ◌≢◌, ◌⊎◌, inl, inr, refl, arith, Any,
  length, eq_iff, str_eq, Bool-cases, Option-cases, sym, ap, ◌∙◌, subst,
}
use nitroso_tin.Terminator.{
  PolicyTicket, RefundPolicy, all_tickets, matched, with_data, sole_anonymous, first_match,
  refund_ticket, total_applies, total_amount, own_amount, refund_amount,
}

module _ {Amount : Type 0} where
  -- The ticket has data and the number, or it is the policy's only ticket and has no number.
  abbrev pub Chosen : RefundPolicy Amount → String → PolicyTicket Amount → Type 0
  Chosen policy ticket_no t =
      (t.ticket_data ≢ "")
      × (((t.ticket_no ≡ ticket_no) × Any (λ u. u ≡ t) (all_tickets policy.trips))
          ⊎ ((t.ticket_no ≡ "") × (all_tickets policy.trips ≡ t ∷ [])))

  sole_anonymous_sound :
      (all : List (PolicyTicket Amount)) (t : PolicyTicket Amount)
      → sole_anonymous all ≡ some t
      → (all ≡ t ∷ []) × (t.ticket_no ≡ "") × (t.ticket_data ≢ "")
  unfolding sole_anonymous
  sole_anonymous_sound [] t h = cc
  sole_anonymous_sound (u ∷ v ∷ ts) t h = cc
  sole_anonymous_sound (u ∷ []) t h =
      let same : u ≡ t = ground arith in
      (
        ap (λ x. x ∷ []) same,
        ground (arith, eq_iff u.ticket_no ""),
        ground (arith, eq_iff u.ticket_data ""),
      )

  first_match_sound :
      (ticket_no : String) (all ts : List (PolicyTicket Amount)) (t : PolicyTicket Amount)
      → first_match ticket_no all ts ≡ some t
      → (t.ticket_data ≢ "")
        × (((t.ticket_no ≡ ticket_no) × Any (λ u. u ≡ t) ts)
            ⊎ ((t.ticket_no ≡ "") × (all ≡ t ∷ [])))
  unfolding first_match with_data
  first_match_sound ticket_no all [] t h =
      let (is, bare, filled) = sole_anonymous_sound all t h in (filled, inr (bare, is))
  first_match_sound ticket_no all (u ∷ ts) t h = elim (Bool-cases (str_eq u.ticket_no ticket_no)) [
    | inl named ↦
        let same : u ≡ t = ground arith in
        (
          ground (arith, eq_iff u.ticket_data ""),
          inl (ap (λ x. x.ticket_no) (sym same) ∙ (eq_iff _ _).0 named, inl same),
        )
    | inr other ↦
        let (filled, place) = first_match_sound ticket_no all ts t (ground arith) in
        (filled, elim place [ inl (named, among) ↦ inl (named, inr among) | inr sole ↦ inr sole ])
  ]

  -- A ticket is refunded only if it has ticket data and either it is one of the policy's tickets
  -- with the requested number, or it is the policy's only ticket and KTMB left its number out.
  pub refund_ticket-Chosen :
      (policy : RefundPolicy Amount) (ticket_no : String) (t : PolicyTicket Amount)
      → refund_ticket policy ticket_no ≡ some t
      → Chosen policy ticket_no t
  unfolding refund_ticket
  refund_ticket-Chosen policy ticket_no t h =
      first_match_sound ticket_no (all_tickets policy.trips) (all_tickets policy.trips) t h

  matched_sound :
      (ticket_no : String) (ts : List (PolicyTicket Amount)) (t : PolicyTicket Amount)
      → matched ticket_no ts ≡ some t
      → (t.ticket_no ≡ ticket_no) × Any (λ u. u ≡ t) ts
  unfolding matched
  matched_sound ticket_no [] t h = cc
  matched_sound ticket_no (u ∷ ts) t h = elim (Option-cases (matched ticket_no ts)) [
    | inr (m, e) ↦
        let (named, among) = matched_sound ticket_no ts t (ground arith) in (named, inr among)
    | inl e ↦ elim (Bool-cases (str_eq u.ticket_no ticket_no)) [
      | inl same ↦
          let is : u ≡ t = ground arith in
          (ap (λ x. x.ticket_no) (sym is) ∙ (eq_iff _ _).0 same, inl is)
      | inr other ↦ absurd (ground arith)
    ]
  ]

module _ {Amount : Type 0} (positive : Amount → Bool) where
  -- The amount is the ticket's own, or the whole policy's where the policy has no other ticket.
  abbrev pub Exact : RefundPolicy Amount → String → Amount → Type 0
  Exact policy ticket_no amount =
      (positive amount ≡ true)
      × (((t : PolicyTicket Amount) × (t.ticket_no ≡ ticket_no)
            × (amount ≡ t.refund_amount)
            × Any (λ u. u ≡ t) (all_tickets policy.trips))
          ⊎ ((amount ≡ policy.total_refund_amount)
              × ((all_tickets policy.trips ≡ [])
                  ⊎ ((t : PolicyTicket Amount) × (t.ticket_no ≡ ticket_no)
                      × (all_tickets policy.trips ≡ t ∷ [])))))

  sole_or_none :
      (ticket_no : String) (ts : List (PolicyTicket Amount))
      → total_applies {Amount = Amount} (length ts) (matched ticket_no ts) ≡ true
      → (ts ≡ []) ⊎ ((t : PolicyTicket Amount) × (t.ticket_no ≡ ticket_no) × (ts ≡ t ∷ []))
  unfolding total_applies
  sole_or_none ticket_no [] h = inl refl
  sole_or_none ticket_no (t ∷ []) h = elim (Option-cases (matched ticket_no (t ∷ []))) [
    | inl e ↦ absurd (ground arith)
    | inr (m, e) ↦
        let (named, among) = matched_sound ticket_no (t ∷ []) m e in
        elim among [
          | inl is ↦ inr (t, ap (λ x. x.ticket_no) is ∙ named, refl)
          | inr nope ↦ absurd nope
        ]
  ]
  sole_or_none ticket_no (t ∷ u ∷ ts) h = elim (Option-cases (matched ticket_no (t ∷ u ∷ ts))) [
    | inl e ↦ absurd (ground arith)
    | inr (m, e) ↦ absurd (ground arith)
  ]

  total_amount-Exact :
      (policy : RefundPolicy Amount) (ticket_no : String) (amount : Amount) (currency : List ℕ)
      → total_amount positive policy (matched ticket_no (all_tickets policy.trips))
        ≡ some (amount, currency)
      → Exact policy ticket_no amount
  unfolding total_amount
  total_amount-Exact policy ticket_no amount currency h =
      elim (Bool-cases (
        positive policy.total_refund_amount
        && total_applies {Amount = Amount} (length (all_tickets policy.trips))
            (matched ticket_no (all_tickets policy.trips)))) [
              | inr off ↦ absurd (ground arith)
              | inl on ↦
                  let is : policy.total_refund_amount ≡ amount = ground arith in
                  (
                    ground arith,
                    inr (sym is, sole_or_none ticket_no (all_tickets policy.trips) (ground arith)),
                  )
            ]

  -- An amount that is reported is above 0, and it is the refund of one of the policy's tickets with
  -- the requested number, or it is the policy's total and the policy lists no ticket at all or only
  -- the requested one.
  pub refund_amount-Exact :
      (policy : RefundPolicy Amount) (ticket_no : String) (amount : Amount) (currency : List ℕ)
      → refund_amount positive policy ticket_no ≡ some (amount, currency)
      → Exact policy ticket_no amount
  unfolding refund_amount own_amount
  refund_amount-Exact policy ticket_no amount currency h =
      elim (Option-cases (matched ticket_no (all_tickets policy.trips))) [
        | inl e ↦ total_amount-Exact policy ticket_no amount currency (
            subst (λ m. total_amount positive policy m ≡ some (amount, currency)) (sym e)
              (ground arith))
        | inr (m, e) ↦
            let (named, among) = matched_sound ticket_no (all_tickets policy.trips) m e in
            elim (Bool-cases (positive m.refund_amount)) [
              | inl own ↦
                  let is : m.refund_amount ≡ amount = ground arith in
                  (ground arith, inl (m, named, sym is, among))
              | inr zero_own ↦ total_amount-Exact policy ticket_no amount currency (
                  subst (λ o. total_amount positive policy o ≡ some (amount, currency)) (sym e)
                    (ground arith))
            ]
      ]
