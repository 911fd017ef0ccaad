-- ===== src/Buyer/Client/Released.antt =====
-- A reservation is given back only where KTMB has captured no purchase.
use nitroso_tin.Base.{
  String, Bool, true, false, Option, none, some, List, [], ◌∷◌, ◌≡◌, refl, arith, sym, ap, ◌∙◌, any,
  Result, ok, err, bind_result, bind_result_cases, bind_result_keeps, Bool-cases, inl, inr, subst,
  ◌==◌,
}
use nitroso_tin.Zinc.{Reply, unreached, answered, Principal, RecoverDto}
use nitroso_tin.Buyer.{
  Passenger, PurchaseResult, Error, conflict, revert_later, purchased, Call, get_reserve, Env,
}
use nitroso_tin.Zinc
use nitroso_tin.Buyer.Purchase.{buy_seat, release}
use nitroso_tin.Buyer.Purchase.Capture.{captured, cancels, Told, buy_seat-Told, buy_seat-cancels}
use nitroso_tin.Buyer.Retry.{retry_backoff_keeps}
use nitroso_tin.Buyer.Client.{
  ReserveDto, present, set_buying, passenger_of, send_completion, complete_once, complete_with_zinc,
  set_recovering, transition_recovering, push_once, push_with_retries, recover_item, after_push,
  park, send_revert, release_quietly, revert, or_park, settle, buy_for, on_reserve_reply, buy,
}

passenger_of_keeps :
    {Amount : Type 0} (p : Zinc.Passenger) (w : List (Call Amount)) → (passenger_of p w).1 ≡ w
unfolding passenger_of present
passenger_of_keeps p w = ground arith

module _ {Amount : Type 0} (env : Env Amount) where
  -- Neither a completion on KTMB nor a cancellation has been added.
  abbrev Alike : List (Call Amount) → List (Call Amount) → Type 0
  Alike h w = (captured env w ≡ captured env h) × (any cancels w ≡ any cancels h)

  transition_recovering-Alike :
      (id : String) (h : List (Call Amount)) → Alike h (transition_recovering env id h).1
  unfolding transition_recovering
  transition_recovering-Alike id h =
      retry_backoff_keeps (Alike h) _ env.park_retries (λ n w k. unfold set_recovering in k) h
        (refl, refl)

  push_with_retries-Alike :
      (dto : RecoverDto) (h : List (Call Amount)) → Alike h (push_with_retries env dto h).1
  unfolding push_with_retries
  push_with_retries-Alike dto h =
      retry_backoff_keeps (Alike h) _ env.park_retries (λ n w k. unfold push_once in k) h
        (refl, refl)

  complete_with_zinc-Alike :
      (id : String) (r : PurchaseResult Amount) (h : List (Call Amount))
      → Alike h (complete_with_zinc env id r h).1
  unfolding complete_with_zinc complete_once
  complete_with_zinc-Alike id r h =
      retry_backoff_keeps (Alike h) _ env.complete_retries
        (λ n w k. by_form (env.form r.pdf r.ktmb_amount r.ktmb_currency) w k) h (refl, refl)
    where
      by_form :
          (form : Option String) (w : List (Call Amount))
          → Alike h w
          → Alike h (send_completion env id r.booking_no r.ticket_no form w).1
      by_form none w k = unfold send_completion in k
      by_form (some f) w k = unfold send_completion in k

  pub captured-park :
      (id : String) (r : ReserveDto) (p : Passenger) (b t : String) (back : Bool)
      (h : List (Call Amount))
      → captured env (park env id r p b t back h).1 ≡ captured env h
  unfolding park
  captured-park id r p b t back h = elim (Bool-cases (env.encrypts (recover_item env id r p b t))) [
    | inr bad ↦ ground arith
    | inl good ↦
        let same : park env id r p b t back h
            ≡ bind_result (push_with_retries env (recover_item env id r p b t) h)
                (λ _. after_push env id r back) =
          rw (park, good) in
        ap (λ q. captured env q.1) same
        ∙ bind_result_keeps (λ w. captured env w ≡ captured env h)
            (push_with_retries env (recover_item env id r p b t) h) _
            (push_with_retries-Alike (recover_item env id r p b t) h).0 (λ u w k. after back w ∙ k)
  ]
    where
      after :
          (back : Bool) (w : List (Call Amount))
          → captured env (after_push env id r back w).1 ≡ captured env w
      after true w = unfold after_push release in (transition_recovering-Alike id w).0
      after false w = unfold after_push in (transition_recovering-Alike id w).0

  park-cancels :
      (id : String) (r : ReserveDto) (p : Passenger) (b t : String) (h : List (Call Amount))
      → any cancels (park env id r p b t false h).1 ≡ any cancels h
  unfolding park
  park-cancels id r p b t h = elim (Bool-cases (env.encrypts (recover_item env id r p b t))) [
    | inr bad ↦ ground arith
    | inl good ↦
        let same : park env id r p b t false h
            ≡ bind_result (push_with_retries env (recover_item env id r p b t) h)
                (λ _. after_push env id r false) =
          rw (park, good) in
        ap (λ q. any cancels q.1) same
        ∙ bind_result_keeps (λ w. any cancels w ≡ any cancels h)
            (push_with_retries env (recover_item env id r p b t) h) _
            (push_with_retries-Alike (recover_item env id r p b t) h).1
            (λ u w k. unfold after_push in (transition_recovering-Alike id w).1 ∙ k)
  ]

  pub captured-revert :
      (id : String) (r : ReserveDto) (h : List (Call Amount))
      → captured env (revert env id r h).1 ≡ captured env h
  unfolding revert
  captured-revert id r h =
      bind_result_keeps (λ w. captured env w ≡ captured env h) (send_revert env id h) _
        (unfold send_revert in refl) (λ u w k. unfold release_quietly release in k)

  or_park-cancels :
      (id : String) (r : ReserveDto) (p : Passenger) (result : PurchaseResult Amount)
      (q : Result Error (Unit {0}) × List (Call Amount))
      → any cancels (or_park env id r p result q).1 ≡ any cancels q.1
  unfolding or_park
  or_park-cancels id r p result (ok u, w) = refl
  or_park-cancels id r p result (err e, w) =
      park-cancels id r p result.booking_no result.ticket_no w

  -- A cancellation only where nothing is captured.
  abbrev Guarded : List (Call Amount) → Type 0
  Guarded w = any cancels w ≡ true → captured env w ≡ false

  settle-Guarded :
      (id : String) (r : ReserveDto) (p : Passenger)
      (q : Result Error (PurchaseResult Amount) × List (Call Amount))
      → Told env q
      → any cancels q.1 ≡ false
      → Guarded (settle env id r p q).1
  unfolding settle
  settle-Guarded id r p (ok result, h) told quiet given = absurd (
      cc (
        sym given
        ∙ or_park-cancels id r p result (complete_with_zinc env id result h)
        ∙ (complete_with_zinc-Alike id result h).1
        ∙ quiet))
  settle-Guarded id r p (err (revert_later messages), h) told quiet given =
      captured-revert id r h ∙ told
  settle-Guarded id r p (err (conflict messages), h) told quiet given =
      captured-park id r p "" "" true h ∙ told
  settle-Guarded id r p (err (purchased b t cause), h) told quiet given =
      absurd (cc (sym given ∙ park-cancels id r p b t h ∙ quiet))
  settle-Guarded id r p (err e, h) told quiet given = told

  -- What a run for one booking gives follows from what its errors before `Buy` give, and from what
  -- is done with the end of `Buy`.
  pub buy_for_cases :
      (Q : Result Error (Unit {0}) × List (Call Amount) → Type 0) (r : ReserveDto) (b : Principal)
      (h : List (Call Amount))
      → captured env h ≡ false
      → any cancels h ≡ false
      → ((e : Error) (w : List (Call Amount)) → captured env w ≡ false → Q (err e, w))
      → ((p : Passenger) (q : Result Error (PurchaseResult Amount) × List (Call Amount))
          → Told env q
          → any cancels q.1 ≡ false
          → Q (settle env b.id r p q))
      → Q (buy_for env r b h)
  unfolding buy_for
  buy_for_cases Q r b h clean quiet on_err on_end =
      bind_result_cases Q (set_buying env b.id h) _
        (λ e w at. on_err e w (unfold set_buying in ground arith))
        (λ u w at.
          let clean₁ : captured env w ≡ false = unfold set_buying in ground arith in
          let quiet₁ : any cancels w ≡ false = unfold set_buying in ground arith in
          bind_result_cases Q (passenger_of b.passenger w) _
            (λ e w₁ at₁. on_err e w₁ (
              ap (λ q. captured env q.1) (sym at₁)
              ∙ ap (captured env) (passenger_of_keeps b.passenger w)
              ∙ clean₁))
            (λ p w₁ at₁.
              let same : w₁ ≡ w = ap (λ q. q.1) (sym at₁) ∙ passenger_of_keeps b.passenger w in
              on_end p (buy_seat env r.user_data r.booking_data p w₁)
                (buy_seat-Told env r.user_data r.booking_data p w₁
                  (ap (captured env) same ∙ clean₁))
                (buy_seat-cancels env r.user_data r.booking_data p w₁
                  ∙ ap (any cancels) same
                  ∙ quiet₁)))

  -- If a run of the buyer's handler gives the KTMB reservation back, then KTMB has not reported the
  -- completion of a purchase as a success in that run.
  pub buy-cancels :
      (r : ReserveDto) → any cancels (buy env r []).1 ≡ true → captured env (buy env r []).1 ≡ false
  unfolding buy
  buy-cancels r = by_reply (env.on_reserve [] r.direction r.date r.time)
    where
      by_reply :
          (reply : Reply Principal)
          → Guarded (on_reserve_reply env r reply (get_reserve r.direction r.date r.time ∷ [])).1
      by_reply unreached = unfold on_reserve_reply in λ given. refl
      by_reply (answered status none) = elim (Bool-cases (status == 404)) [
        | inl gone ↦ λ given. unfold on_reserve_reply release in ground arith
        | inr other ↦ λ given. unfold on_reserve_reply release in ground arith
      ]
      by_reply (answered status (some b)) = elim (Bool-cases (status == 404)) [
        | inl gone ↦ λ given. unfold on_reserve_reply release in ground arith
        | inr other ↦
            let start = get_reserve r.direction r.date r.time ∷ [] in
            let same : on_reserve_reply env r (answered status (some b)) start
                ≡ buy_for env r b start =
              rw (on_reserve_reply, other) in
            subst (λ q. Guarded q.1) (sym same)
              (buy_for_cases (λ q. Guarded q.1) r b start refl refl (λ e w clean given. clean)
                (settle-Guarded b.id r))
      ]
