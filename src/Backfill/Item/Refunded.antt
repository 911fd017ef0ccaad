-- ===== src/Backfill/Item/Refunded.antt =====
-- Where the refund comes from that is posted for a booking.
use nitroso_tin.Base.{
  ℕ, String, Bool, true, false, Option, none, some, List, [], ◌∷◌, ◌≡◌, ◌≢◌, ◌⊎◌, refl, sym, subst,
  ap, ◌∙◌, inl, inr, arith, Result, ok, err, or_else, bind_result_cases, Bool-cases, Option-cases,
  codes, Any, All,
}
use nitroso_tin.Ktmb.{KtmbError, GenericRes}
use nitroso_tin.Terminator.{RefundPolicy}
use nitroso_tin.Backfill.Raw.{Refund, normalize_currency, refund_from_raw}
use nitroso_tin.Backfill.World.{
  Work, Booked, RawTicket, Error, undecodable, Call, get_raw, get_policy, post_refund, Env,
}
use nitroso_tin.Backfill.Item.{
  is_invalid_session, send_refund, ask_raw, booking_from, ticket_data_from, after_policy,
  probe_policy, post_found, with_booking, process_refund, refund_from_policy,
}
use nitroso_tin.Backfill.Item.Posts.{posted_ids, posted_ids-probe_policy}
use nitroso_tin.Backfill.Item.Justified.{
  or_else-ok, accepted_sound, booking_from_sound, unless_dry-cases,
}
use nitroso_tin.Backfill.Item.Tickets.{
  IsTicket, NoTicket, ticket_data_from-some, ticket_data_from-none, booking_from-none,
}

module _ {Amount : Type 0} (positive : Amount → Bool) (env : Env Amount) (user : String)
    (work : Work) where
  abbrev pub asked_raw : List (Call Amount) → List (Call Amount)
  asked_raw h = get_raw work.booking_no work.ticket_no ∷ h

  -- The answer states no refund of the ticket, or is none.
  abbrev pub Silent : Result KtmbError (GenericRes (RefundPolicy Amount)) → Type 0
  Silent answer =
      ((e : KtmbError) × (answer ≡ err e))
      ⊎ ((p : GenericRes (RefundPolicy Amount)) × (answer ≡ ok p)
          × ((p.status ≡ false) ⊎ (refund_from_policy positive p.content work.ticket_no ≡ none)))

  abbrev pub States : Result KtmbError (GenericRes (RefundPolicy Amount)) → Refund Amount → Type 0
  States answer f =
      (p : GenericRes (RefundPolicy Amount)) × (answer ≡ ok p)
      × (p.status ≡ true)
      × (refund_from_policy positive p.content work.ticket_no ≡ some f)

  -- The policy was asked with the booking's data and the data of the ticket with the number, and
  -- states the refund; or the raw answer states it, and the policy, if it could be asked, does not.
  abbrev pub FromBooking :
      List (Call Amount)
      → RawTicket Amount
      → Booked Amount
      → Refund Amount
      → List (Call Amount)
      → Type 0
  FromBooking h raw b f k =
      ((refund_from_raw positive raw.root work.ticket_no ≡ some f)
        × All (λ trip. All (NoTicket work.ticket_no) trip.tickets) b.trips
        × (k ≡ asked_raw h))
      ⊎ ((d : String) × Any (λ trip. Any (IsTicket work.ticket_no d) trip.tickets) b.trips
          × (States (env.on_policy (asked_raw h) user b.booking_data d) f
              ⊎ ((refund_from_raw positive raw.root work.ticket_no ≡ some f)
                  × Silent (env.on_policy (asked_raw h) user b.booking_data d)))
          × (k ≡ get_policy b.booking_data d ∷ asked_raw h))

  -- The refund, the currency of the booking, and the requests before the post.
  abbrev pub Stated :
      List (Call Amount)
      → RawTicket Amount
      → List (Booked Amount)
      → Refund Amount
      → List ℕ
      → List (Call Amount)
      → Type 0
  Stated h raw bs f currency k =
      (All (λ b. b.booking_no ≢ work.booking_no) bs
        × (refund_from_raw positive raw.root work.ticket_no ≡ some f)
        × (currency ≡ [])
        × (k ≡ asked_raw h))
      ⊎ ((b : Booked Amount) × (Any (λ x. x ≡ b) bs × (b.booking_no ≡ work.booking_no))
          × FromBooking h raw b f k
          × (currency ≡ codes b.currency_code))

  abbrev pub RefundPosted : List (Call Amount) → List (Call Amount) → Type 0
  RefundPosted h h' =
      (r : GenericRes (RawTicket Amount)) × (bs : List (Booked Amount)) × (f : Refund Amount)
      × (currency : List ℕ) × (k : List (Call Amount)) × (env.on_raw h user work.booking_no
            work.ticket_no
          ≡ ok r)
      × (r.status ≡ true)
      × (r.content.typed ≡ some bs)
      × Stated h r.content bs f currency k
      × (h' ≡ post_refund work.id f.0 (normalize_currency (f.1 ∷ currency ∷ [])) ∷ k)

  abbrev pub Ends : List (Call Amount) → Result Error (Unit {0}) × List (Call Amount) → Type 0
  Ends h q = (posted_ids q.1 ≡ posted_ids h) ⊎ RefundPosted h q.1

  after_policy-cases :
      (found best : Option (Refund Amount))
      (answer : Result KtmbError (GenericRes (RefundPolicy Amount)))
      → after_policy positive env work found answer ≡ ok best
      → ((best ≡ found) × Silent answer) ⊎ ((f : Refund Amount) × (best ≡ some f) × States answer f)
  unfolding after_policy
  after_policy-cases found best (err e) h = inl (ground arith, inl (e, refl))
  after_policy-cases found best (ok r) h = elim (Bool-cases r.status) [
    | inr refused ↦ elim (Bool-cases (is_invalid_session r.messages)) [
      | inl ended ↦ absurd (ground (arith, refused, ended))
      | inr other ↦ inl (ground (arith, refused, other), inr (r, refl, inl refused))
    ]
    | inl said ↦ elim (Option-cases (refund_from_policy positive r.content work.ticket_no)) [
      | inl missing ↦ inl (ground (arith, said, missing), inr (r, refl, inr missing))
      | inr (f, states) ↦ inr (f, ground (arith, said, states), (r, refl, said, states))
    ]
  ]

  module _ (h : List (Call Amount)) (r : GenericRes (RawTicket Amount)) (bs : List (Booked Amount))
      (got : env.on_raw h user work.booking_no work.ticket_no ≡ ok r) (said : r.status ≡ true)
      (typed : r.content.typed ≡ some bs) where
    post_found-Ends :
        (k : List (Call Amount)) (currency : List ℕ) (found : Option (Refund Amount))
        → ((f : Refund Amount) → found ≡ some f → Stated h r.content bs f currency k)
        → posted_ids k ≡ posted_ids h
        → Ends h (post_found positive env work currency found k)
    unfolding post_found send_refund
    post_found-Ends k currency none stated is = inl is
    post_found-Ends k currency (some f) stated is =
        let spelt = normalize_currency (f.1 ∷ currency ∷ []) in
        elim (unless_dry-cases positive env user work (send_refund positive env work.id f.0 spelt)
          k) [
            | inl dry ↦ inl (ap (λ q. posted_ids q.1) dry ∙ is)
            | inr sent ↦
                inr (r, bs, f, currency, k, got, said, typed, stated f refl, ap (λ q. q.1) sent)
          ]

    probe_policy-FromBooking :
        (b : Booked Amount) (best : Option (Refund Amount)) (w' : List (Call Amount))
        → probe_policy positive env user work
            (refund_from_raw positive r.content.root work.ticket_no)
            b
            (asked_raw h)
          ≡ (ok best, w')
        → (f : Refund Amount) → best ≡ some f
        → FromBooking h r.content b f w'
    unfolding probe_policy
    probe_policy-FromBooking b best w' ends f is =
        let found = refund_from_raw positive r.content.root work.ticket_no in
        elim (Option-cases (ticket_data_from work.ticket_no b.trips)) [
          | inl missing ↦
              let same : probe_policy positive env user work found b (asked_raw h)
                  ≡ (ok found, asked_raw h) =
                rw (probe_policy, missing) in
              let kept : best ≡ found = cc in
              let still : w' ≡ asked_raw h = cc in
              inl (sym kept ∙ is, ticket_data_from-none work.ticket_no b.trips missing, still)
          | inr (d, has) ↦
              let answer = env.on_policy (asked_raw h) user b.booking_data d in
              let same : probe_policy positive env user work found b (asked_raw h) ≡ (
                after_policy positive env work found answer,
                get_policy b.booking_data d ∷ asked_raw h,
              ) =
                rw (probe_policy, has) in
              let result : after_policy positive env work found answer ≡ ok best = cc in
              let asked : w' ≡ get_policy b.booking_data d ∷ asked_raw h = cc in
              inr (
                d,
                ticket_data_from-some work.ticket_no b.trips d has,
                elim (after_policy-cases found best answer result) [
                  | inl (kept, silent) ↦ inr (sym kept ∙ is, silent)
                  | inr (g, best_is, states) ↦
                      let same_refund : g ≡ f = cc in inl (subst (States answer) same_refund states)
                ],
                asked,
              )
        ]

    with_booking-Ends :
        (b : Option (Booked Amount))
        → booking_from work.booking_no bs ≡ b
        → Ends h (
            with_booking positive env user work
              (refund_from_raw positive r.content.root work.ticket_no)
              b
              (asked_raw h))
    unfolding with_booking
    with_booking-Ends none is =
        post_found-Ends (asked_raw h) [] _
          (λ f states. inl (booking_from-none work.booking_no bs is, states, refl, refl)) refl
    with_booking-Ends (some b) is =
        let found = refund_from_raw positive r.content.root work.ticket_no in
        let kept =
          posted_ids-probe_policy positive env work (posted_ids h) user found b (asked_raw h) in
        bind_result_cases (Ends h) (probe_policy positive env user work found b (asked_raw h)) _
          (λ e w' ends. inl (ap posted_ids (sym (ap (λ q. q.1) ends)) ∙ kept))
          (λ best w' ends.
            post_found-Ends w' (codes b.currency_code) best
              (λ f best_is. inr (
                b,
                booking_from_sound work.booking_no bs b is,
                probe_policy-FromBooking b best w' ends f best_is,
                refl,
              ))
              (ap posted_ids (sym (ap (λ q. q.1) ends)) ∙ kept))

  -- Working on the refund of a booking posts nothing, or its last request, the only one that posts,
  -- posts a refund of the booking, under these conditions. KTMB's raw answer about the ticket, asked
  -- for first, reports success and can be read. It lists no booking with the booking number, and the
  -- raw answer states the refund for the ticket; or it lists such a booking, and if that has a ticket
  -- with the ticket number and with data, the policy was asked with the data of the booking and of
  -- that ticket, and where a successful policy states a refund for the ticket, that one is posted;
  -- where it does not, or was not asked, the raw answer states the refund. The currency that is
  -- posted is the refund's, or else that of the booking. There are no other requests.
  pub process_refund-RefundPosted :
      (h : List (Call Amount)) → Ends h (process_refund positive env user work h)
  unfolding process_refund ask_raw
  process_refund-RefundPosted h =
      bind_result_cases (Ends h) (ask_raw positive env user work h) _ (λ e w is. inl (cc))
        (λ raw w is.
          let answer = env.on_raw h user work.booking_no work.ticket_no in
          let sent : asked_raw h ≡ w = ap (λ q. q.1) is in
          let (r, got, said, content) = accepted_sound answer raw (ap (λ q. q.0) is) in
          bind_result_cases (Ends h) (or_else raw.typed undecodable, w) _
            (λ e w' is'. inl (ap posted_ids (sym (ap (λ q. q.1) is') ∙ sym sent)))
            (λ bs w' is'.
              let typed : raw.typed ≡ some bs = or_else-ok _ _ bs (ap (λ q. q.0) is') in
              let at : asked_raw h ≡ w' = sent ∙ ap (λ q. q.1) is' in
              subst
                (λ k. Ends h (
                  with_booking positive env user work
                    (refund_from_raw positive raw.root work.ticket_no)
                    (booking_from work.booking_no bs) k))
                at
                (subst
                  (λ (c : RawTicket Amount). Ends h (
                    with_booking positive env user work
                      (refund_from_raw positive c.root work.ticket_no)
                      (booking_from work.booking_no bs) (asked_raw h)))
                  content
                  (with_booking-Ends h r bs got said (ap (λ c. c.typed) content ∙ typed)
                    (booking_from work.booking_no bs) refl))))
