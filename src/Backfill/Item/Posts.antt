-- ===== src/Backfill/Item/Posts.antt =====
-- What is posted for one booking, over the retry of its session.
use nitroso_tin.Base.{
  ℕ, String, Bool, true, false, Option, none, some, List, [], ◌∷◌, ◌≡◌, ◌≢◌, ◌⊎◌, refl, sym, subst,
  ap, ◌∙◌, inl, inr, arith, Result, ok, err, or_else, bind_result, Bool-cases, Option-cases, codes,
}
use nitroso_tin.Zinc.{Reply, unreached, answered}
use nitroso_tin.Backfill.Raw.{Refund, normalize_currency, refund_from_raw}
use nitroso_tin.Backfill.World.{
  Work, Booked, Error, invalid_session, no_amount, no_booking, undecodable, Call, cost_page,
  refund_page, login, invalidate, get_ticket, get_raw, get_policy, post_cost, post_refund, Env, M,
}
use nitroso_tin.Backfill.Item.{
  session_ended, posted, unless_dry, send_cost, send_refund, ask_ticket, ask_raw, booking_from,
  ticket_data_from, post_total, process_cost, after_policy, probe_policy, post_found, with_booking,
  process_refund, process, Kept, keep, refresh, retry_invalid, process_with_session_retry,
}

-- The identifiers of the bookings for which an amount was posted, the last first.
abbrev pub posted_ids : {Amount : Type 0} → List (Call Amount) → List String
posted_ids [] = []
posted_ids (cost_page status limit skip ∷ h) = posted_ids h
posted_ids (refund_page limit ∷ h) = posted_ids h
posted_ids (login ∷ h) = posted_ids h
posted_ids (invalidate user ∷ h) = posted_ids h
posted_ids (get_ticket booking_no ticket_no ∷ h) = posted_ids h
posted_ids (get_raw booking_no ticket_no ∷ h) = posted_ids h
posted_ids (get_policy booking_data ticket_data ∷ h) = posted_ids h
posted_ids (post_cost id amount currency ∷ h) = id ∷ posted_ids h
posted_ids (post_refund id amount currency ∷ h) = id ∷ posted_ids h

posted-ne-err : (reply : Reply String) → posted reply ≢ err invalid_session
unfolding posted
posted-ne-err unreached h = ground arith
posted-ne-err (answered status body) h = ground arith

session_ended-err : (r : Result Error (Unit {0})) → session_ended r ≡ true → r ≡ err invalid_session
unfolding session_ended
session_ended-err r h = ground arith

module _ {Amount : Type 0} (positive : Amount → Bool) (env : Env Amount) (work : Work)
    (ids : List String) where
  -- Nothing more is posted, or the booking's amount is, outside a dry run.
  abbrev pub PostsUp : List String → Type 0
  PostsUp ids' = (ids' ≡ ids) ⊎ ((env.options.dry_run ≡ false) × (ids' ≡ work.id ∷ ids))

  -- And a post does not end in an invalid session.
  abbrev Step : Result Error (Unit {0}) × List (Call Amount) → Type 0
  Step q =
      (posted_ids q.1 ≡ ids)
      ⊎ ((env.options.dry_run ≡ false)
          × ((posted_ids q.1 ≡ work.id ∷ ids) × (q.0 ≢ err invalid_session)))

  Step-PostsUp :
      (q : Result Error (Unit {0}) × List (Call Amount)) → Step q → PostsUp (posted_ids q.1)
  Step-PostsUp q (inl same) = inl same
  Step-PostsUp q (inr (live, (more, ends))) = inr (live, more)

  unless_dry-Step :
      (post : M Amount (Unit {0})) (h : List (Call Amount))
      → posted_ids h ≡ ids
      → (posted_ids (post h).1 ≡ work.id ∷ posted_ids h)
      → ((post h).0 ≢ err invalid_session)
      → Step (unless_dry positive env post h)
  unfolding unless_dry
  unless_dry-Step post h is more ends = elim (Bool-cases env.options.dry_run) [
    | inl dry ↦
        let same : unless_dry positive env post h ≡ (ok tt, h) = rw (unless_dry, dry) in
        subst Step (sym same) (inl is)
    | inr live ↦
        let same : unless_dry positive env post h ≡ post h = rw (unless_dry, live) in
        subst Step (sym same) (inr (live, (more ∙ ap (λ i. work.id ∷ i) is, ends)))
  ]

  post_total-Step :
      (b : Booked Amount) (h : List (Call Amount))
      → posted_ids h ≡ ids
      → Step (post_total positive env work b h)
  unfolding post_total send_cost
  post_total-Step b h is =
      let currency = normalize_currency (codes b.currency_code ∷ []) in
      let post =
        unless_dry-Step (send_cost positive env work.id b.total_amount currency) h is refl
          (posted-ne-err (env.on_post_cost h work.id b.total_amount currency)) in
      elim (Bool-cases (positive b.total_amount)) [
        | inl yes_positive ↦
            let same : post_total positive env work b h
                ≡ unless_dry positive env (send_cost positive env work.id b.total_amount currency)
                    h =
              rw (post_total, yes_positive) in
            subst Step (sym same) post
        | inr zero_amount ↦
            let same : post_total positive env work b h ≡ (err no_amount, h) =
              rw (post_total, zero_amount) in
            subst Step (sym same) (inl is)
      ]

  -- A chain of two parts, of which the first posts nothing.
  bind_result-Step :
      {A : Type 0} (p : Result Error A × List (Call Amount)) (f : A → M Amount (Unit {0}))
      → posted_ids p.1 ≡ ids
      → ((a : A) (w : List (Call Amount)) → posted_ids w ≡ ids → Step (f a w))
      → Step (bind_result p f)
  bind_result-Step (ok a, w) f is on = on a w is
  bind_result-Step (err e, w) f is on = inl is

  process_cost-Step :
      (user : String) (h : List (Call Amount))
      → posted_ids h ≡ ids
      → Step (process_cost positive env user work h)
  unfolding process_cost ask_ticket
  process_cost-Step user h is =
      bind_result-Step (ask_ticket positive env user work h) _ is (λ bookings w is'.
        bind_result-Step (or_else (booking_from work.booking_no bookings) no_booking, w) _ is'
          (λ b w' is''. post_total-Step b w' is''))

  post_found-Step :
      (currency : List ℕ) (found : Option (Refund Amount)) (h : List (Call Amount))
      → posted_ids h ≡ ids
      → Step (post_found positive env work currency found h)
  unfolding post_found send_refund
  post_found-Step currency none h is = inl is
  post_found-Step currency (some (amount, c)) h is =
      let spelt = normalize_currency (c ∷ currency ∷ []) in
      unless_dry-Step (send_refund positive env work.id amount spelt) h is refl
        (posted-ne-err (env.on_post_refund h work.id amount spelt))

  pub posted_ids-probe_policy :
      (user : String) (found : Option (Refund Amount)) (b : Booked Amount) (h : List (Call Amount))
      → posted_ids (probe_policy positive env user work found b h).1 ≡ posted_ids h
  unfolding probe_policy
  posted_ids-probe_policy user found b h =
      elim (Option-cases (ticket_data_from work.ticket_no b.trips)) [
        | inl missing ↦
            let same : probe_policy positive env user work found b h ≡ (ok found, h) =
              rw (probe_policy, missing) in
            cc
        | inr (d, is) ↦
            let same : probe_policy positive env user work found b h ≡ (
              after_policy positive env work found (env.on_policy h user b.booking_data d),
              get_policy b.booking_data d ∷ h,
            ) =
              rw (probe_policy, is) in
            cc
      ]

  with_booking-Step :
      (user : String) (found : Option (Refund Amount)) (b : Option (Booked Amount))
      (h : List (Call Amount))
      → posted_ids h ≡ ids
      → Step (with_booking positive env user work found b h)
  unfolding with_booking
  with_booking-Step user found none h is = post_found-Step [] found h is
  with_booking-Step user found (some b) h is =
      bind_result-Step (probe_policy positive env user work found b h) _
        (posted_ids-probe_policy user found b h ∙ is)
        (λ best w is'. post_found-Step (codes b.currency_code) best w is')

  process_refund-Step :
      (user : String) (h : List (Call Amount))
      → posted_ids h ≡ ids
      → Step (process_refund positive env user work h)
  unfolding process_refund ask_raw
  process_refund-Step user h is =
      bind_result-Step (ask_raw positive env user work h) _ is (λ raw w is'.
        bind_result-Step (or_else raw.typed undecodable, w) _ is'
          (λ bookings w' is''.
            with_booking-Step user (refund_from_raw positive raw.root work.ticket_no)
              (booking_from work.booking_no bookings) w' is''))

  process-Step :
      (user : String) (h : List (Call Amount))
      → posted_ids h ≡ ids
      → Step (process positive env user work h)
  unfolding process
  process-Step user h is = elim (Bool-cases env.options.refund) [
    | inl refund ↦
        let same : process positive env user work h ≡ process_refund positive env user work h =
          rw (process, refund) in
        subst Step (sym same) (process_refund-Step user h is)
    | inr cost ↦
        let same : process positive env user work h ≡ process_cost positive env user work h =
          rw (process, cost) in
        subst Step (sym same) (process_cost-Step user h is)
  ]

  keep-PostsUp :
      (user : String) (q : Result Error (Unit {0}) × List (Call Amount))
      → PostsUp (posted_ids q.1)
      → PostsUp (posted_ids (keep positive env user q).1)
  unfolding keep
  keep-PostsUp user (r, w) up = up

  refresh-PostsUp :
      (user : String) (h : List (Call Amount))
      → posted_ids h ≡ ids
      → PostsUp (posted_ids (refresh positive env user work h).1)
  unfolding refresh
  refresh-PostsUp user h is =
      let h1 : List (Call Amount) = invalidate user ∷ h in
      let h2 : List (Call Amount) = login ∷ h1 in
      let start : Kept positive env = ((err invalid_session, user), h1) in
      elim (Bool-cases (env.on_invalidate h user)) [
        | inr kept ↦
            let same : refresh positive env user work h ≡ ((err invalid_session, user), h1) =
              rw (refresh, kept) in
            subst (λ q. PostsUp (posted_ids q.1)) (sym same) (inl is)
        | inl gone ↦ elim (Option-cases (env.on_login h1)) [
          | inl failed ↦
              let same : refresh positive env user work h ≡ ((err invalid_session, user), h2) =
                rw (refresh, gone, failed) in
              subst (λ q. PostsUp (posted_ids q.1)) (sym same) (inl is)
          | inr (fresh, got) ↦
              let same : refresh positive env user work h
                  ≡ keep positive env fresh (process positive env fresh work h2) =
                rw (refresh, gone, got) in
              let q = process positive env fresh work h2 in
              subst (λ k. PostsUp (posted_ids k.1)) (sym same)
                (keep-PostsUp fresh q (Step-PostsUp q (process-Step fresh h2 is)))
        ]
      ]

  -- Working on one booking posts at most one amount, for that booking, even where the session is
  -- refreshed and the booking tried again; in a dry run it posts none.
  pub process_with_session_retry-PostsUp :
      (user : String) (h : List (Call Amount))
      → posted_ids h ≡ ids
      → PostsUp (posted_ids (process_with_session_retry positive env user work h).1)
  unfolding process_with_session_retry retry_invalid
  process_with_session_retry-PostsUp user h is =
      by_end (process positive env user work h) (process-Step user h is)
    where
      by_end :
          (q : Result Error (Unit {0}) × List (Call Amount))
          → Step q
          → PostsUp (posted_ids (retry_invalid positive env user work q).1)
      by_end (r, w) step = elim (Bool-cases (session_ended r)) [
        | inr over ↦
            let same : retry_invalid positive env user work (r, w) ≡ ((r, user), w) =
              rw (retry_invalid, over) in
            subst (λ k. PostsUp (posted_ids k.1)) (sym same) (Step-PostsUp (r, w) step)
        | inl ended ↦
            let same : retry_invalid positive env user work (r, w)
                ≡ refresh positive env user work w =
              rw (retry_invalid, ended) in
            let quiet : posted_ids w ≡ ids = elim step [
              | inl i ↦ i
              | inr (live, (more, ends)) ↦ absurd (ends (session_ended-err r ended))
            ] in
            subst (λ k. PostsUp (posted_ids k.1)) (sym same) (refresh-PostsUp user w quiet)
      ]
