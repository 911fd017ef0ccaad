-- ===== src/Buyer/Client/Kept.antt =====
-- A captured purchase is never lost: zinc holds it as completed, or the recover queue holds it.
use nitroso_tin.Base.{
  ℕ, String, Bool, true, false, Option, none, some, List, [], ◌∷◌, ◌≡◌, ◌⊎◌, refl, arith, sym, ◌∙◌,
  any, Result, ok, err, bind_result, bind_result_cases, Bool-cases, inl, inr, subst, ◌==◌,
}
use nitroso_tin.Zinc.{Reply, unreached, answered, Principal, RecoverDto}
use nitroso_tin.Buyer.{
  Passenger, PurchaseResult, Error, conflict, revert_later, purchased, Call, get_reserve,
  mark_completed, push_recover, Env,
}
use nitroso_tin.Buyer.Purchase.{release}
use nitroso_tin.Buyer.Purchase.Capture.{captured, cancels, Told}
use nitroso_tin.Buyer.Retry.{retry_backoff_keeps, retry_backoff-ok}
use nitroso_tin.Buyer.Client.{
  ReserveDto, wants_ok, send_completion, complete_once, complete_with_zinc, set_recovering,
  transition_recovering, push_once, push_with_retries, recover_item, after_push, park, or_park,
  settle, buy_for, on_reserve_reply, buy,
}
use nitroso_tin.Buyer.Client.Released.{buy_for_cases, captured-revert}

module _ {Amount : Type 0} (env : Env Amount) where
  -- Zinc accepted a completion of the booking, or the queue took a recover item for it.
  abbrev pub Recorded : String → List (Call Amount) → Type 0
  Recorded id [] = ⊥
  Recorded id (mark_completed i b t form ∷ h) =
      ((i ≡ id) × (wants_ok (env.on_completed h i b t form) ≡ ok tt)) ⊎ Recorded id h
  Recorded id (push_recover dto ∷ h) =
      ((dto.booking_id ≡ id) × (env.on_push h dto ≡ true)) ⊎ Recorded id h
  Recorded id (c ∷ h) = Recorded id h

  transition_recovering-Recorded :
      (id : String) (h : List (Call Amount))
      → Recorded id h
      → Recorded id (transition_recovering env id h).1
  unfolding transition_recovering
  transition_recovering-Recorded id h =
      retry_backoff_keeps (Recorded id) _ env.park_retries (λ n w k. unfold set_recovering in k) h

  push_with_retries-Recorded :
      (id : String) (dto : RecoverDto) (h w : List (Call Amount))
      → dto.booking_id ≡ id
      → push_with_retries env dto h ≡ (ok tt, w)
      → Recorded id w
  unfolding push_with_retries
  push_with_retries-Recorded id dto h w named done =
      let (n, w₁, at) = retry_backoff-ok (λ attempt. push_once env dto) env.park_retries h w done in
      let w_is : push_recover dto ∷ w₁ ≡ w = unfold push_once in ground arith in
      let taken : env.on_push w₁ dto ≡ true = unfold push_once in ground arith in
      subst (Recorded id) w_is (inl (named, taken))

  complete_with_zinc-Recorded :
      (id : String) (r : PurchaseResult Amount) (h w : List (Call Amount))
      → complete_with_zinc env id r h ≡ (ok tt, w)
      → Recorded id w
  unfolding complete_with_zinc
  complete_with_zinc-Recorded id r h w done =
      let (n, w₁, at) =
        retry_backoff-ok (λ attempt. complete_once env id r) env.complete_retries h w done in
      by_form (env.form r.pdf r.ktmb_amount r.ktmb_currency) w₁ (unfold complete_once in at)
    where
      by_form :
          (form : Option String) (w₁ : List (Call Amount))
          → send_completion env id r.booking_no r.ticket_no form w₁ ≡ (ok tt, w)
          → Recorded id w
      by_form none w₁ at = absurd (unfold send_completion in ground arith)
      by_form (some f) w₁ at =
          let w_is : mark_completed id r.booking_no r.ticket_no f ∷ w₁ ≡ w =
            unfold send_completion in ground arith in
          let said : wants_ok (env.on_completed w₁ id r.booking_no r.ticket_no f) ≡ ok tt =
            unfold send_completion in ground arith in
          subst (Recorded id) w_is (inl (refl, said))

  after_push-Recorded :
      (id : String) (r : ReserveDto) (back : Bool) (w : List (Call Amount))
      → Recorded id w
      → Recorded id (after_push env id r back w).1
  unfolding after_push
  after_push-Recorded id r true w k = unfold release in transition_recovering-Recorded id w k
  after_push-Recorded id r false w k = transition_recovering-Recorded id w k

  park-Recorded :
      (id : String) (r : ReserveDto) (p : Passenger) (b t : String) (back : Bool)
      (h : List (Call Amount))
      → (park env id r p b t back h).0 ≡ ok tt
      → Recorded id (park env id r p b t back h).1
  unfolding park
  park-Recorded id r p b t back h done =
      elim (Bool-cases (env.encrypts (recover_item env id r p b t))) [
        | inr bad ↦ absurd (ground arith)
        | inl good ↦
            let dto = recover_item env id r p b t in
            let same : park env id r p b t back h
                ≡ bind_result (push_with_retries env dto h) (λ _. after_push env id r back) =
              rw (park, good) in
            subst (λ q. q.0 ≡ ok tt → Recorded id q.1) (sym same)
              (bind_result_cases (λ q. q.0 ≡ ok tt → Recorded id q.1) (push_with_retries env dto h)
                _ (λ e w at fine. absurd (cc fine))
                (λ u w at fine.
                  after_push-Recorded id r back w
                    (push_with_retries-Recorded id dto h w (unfold recover_item in refl) at)))
              done
      ]

  or_park-Recorded :
      (id : String) (r : ReserveDto) (p : Passenger) (result : PurchaseResult Amount)
      (q : Result Error (Unit {0}) × List (Call Amount))
      → (q.0 ≡ ok tt → Recorded id q.1)
      → (or_park env id r p result q).0 ≡ ok tt
      → Recorded id (or_park env id r p result q).1
  unfolding or_park
  or_park-Recorded id r p result (ok u, w) k done = k refl
  or_park-Recorded id r p result (err e, w) k done =
      park-Recorded id r p result.booking_no result.ticket_no false w done

  -- A success after a capture has recorded it.
  abbrev Safe : String → Result Error (Unit {0}) × List (Call Amount) → Type 0
  Safe id q = captured env q.1 ≡ true → q.0 ≡ ok tt → Recorded id q.1

  settle-Safe :
      (id : String) (r : ReserveDto) (p : Passenger)
      (q : Result Error (PurchaseResult Amount) × List (Call Amount))
      → Told env q
      → any cancels q.1 ≡ false
      → Safe id (settle env id r p q)
  unfolding settle
  settle-Safe id r p (ok result, h) told quiet taken done =
      or_park-Recorded id r p result (complete_with_zinc env id result h)
        (λ fine. by_end (complete_with_zinc env id result h) refl fine) done
    where
      by_end :
          (q : Result Error (Unit {0}) × List (Call Amount))
          → complete_with_zinc env id result h ≡ q
          → q.0 ≡ ok tt
          → Recorded id (complete_with_zinc env id result h).1
      by_end (ok tt, w) is fine =
          subst (λ q. Recorded id q.1) (sym is) (complete_with_zinc-Recorded id result h w is)
      by_end (err e, w) is fine = absurd (cc fine)
  settle-Safe id r p (err (revert_later messages), h) told quiet taken done =
      absurd (cc (sym taken ∙ captured-revert env id r h ∙ told))
  settle-Safe id r p (err (conflict messages), h) told quiet taken done =
      park-Recorded id r p "" "" true h done
  settle-Safe id r p (err (purchased b t cause), h) told quiet taken done =
      park-Recorded id r p b t false h done
  settle-Safe id r p (err e, h) told quiet taken done = absurd (cc done)

  -- If KTMB has reported the completion of a purchase as a success in a run of the buyer's handler,
  -- and the handler succeeds, so that the item leaves its queue, then zinc has answered for the slot
  -- with a booking, and zinc has accepted that booking as completed, or the recover queue has taken
  -- an item for it.
  pub buy-Recorded :
      (r : ReserveDto)
      → captured env (buy env r []).1 ≡ true
      → (buy env r []).0 ≡ ok tt
      → (status : ℕ) × (b : Principal) × (env.on_reserve [] r.direction r.date r.time
          ≡ answered status (some b))
        × Recorded b.id (buy env r []).1
  unfolding buy
  buy-Recorded r = by_reply (env.on_reserve [] r.direction r.date r.time) refl
    where
      start : List (Call Amount)
      start = get_reserve r.direction r.date r.time ∷ []

      by_reply :
          (reply : Reply Principal)
          → env.on_reserve [] r.direction r.date r.time ≡ reply
          → captured env (on_reserve_reply env r reply start).1 ≡ true
          → (on_reserve_reply env r reply start).0 ≡ ok tt
          → (status : ℕ) × (b : Principal) × (env.on_reserve [] r.direction r.date r.time
              ≡ answered status (some b))
            × Recorded b.id (on_reserve_reply env r reply start).1
      by_reply unreached is taken done = absurd (unfold on_reserve_reply in ground arith)
      by_reply (answered status none) is taken done =
          absurd (unfold on_reserve_reply release in ground arith)
      by_reply (answered status (some b)) is taken done = elim (Bool-cases (status == 404)) [
        | inl gone ↦ absurd (unfold on_reserve_reply release in ground arith)
        | inr other ↦
            let same : on_reserve_reply env r (answered status (some b)) start
                ≡ buy_for env r b start =
              rw (on_reserve_reply, other) in
            (
              status,
              b,
              is,
              subst (Safe b.id) (sym same)
                  (buy_for_cases env (Safe b.id) r b start refl refl
                    (λ e w clean taken' done'. absurd (cc done')) (settle-Safe b.id r))
                  taken done,
            )
      ]
