-- ===== src/Buyer/Purchase/Capture.antt =====
-- Which ends of `Buy` stand for a purchase that KTMB has taken the money for.
use nitroso_tin.Base.{
  String, Bool, true, false, ◌||◌, Option, none, some, List, [], ◌∷◌, ◌≡◌, refl, arith, sym, ap,
  ◌∙◌, any, Result, ok, err, bind_result_cases, Bool-cases, inl, inr, bind_result_keeps,
  bind_result, lift, ◌>>=◌,
}
use nitroso_tin.Ktmb.{KtmbError, GenericRes}
use nitroso_tin.Buyer.{
  Passenger, PassengerReq, CompleteRes, SetPassengerRes, PurchaseResult, Error, purchased, Call,
  complete, cancel, Env,
}
use nitroso_tin.Buyer.Purchase.{
  checked, plain_refusal, passenger_refusal, pay_refusal, first_passenger, passenger_request,
  start_booking, name_passenger, pay_for, complete_purchase, printed, print, ticket_ids_of,
  with_ids, buy_seat,
}

-- KTMB's answer to a completion says that the purchase went through.
abbrev pub went_through : Result KtmbError (GenericRes CompleteRes) → Bool
went_through (err e) = false
went_through (ok r) = r.status

-- One of the completions of the history went through.
abbrev pub captured : {Amount : Type 0} → Env Amount → List (Call Amount) → Bool
captured env [] = false
captured env (complete u b ∷ h) = went_through (env.on_complete h u b) || captured env h
captured env (c ∷ h) = captured env h

-- The error is a `PurchasedError`.
abbrev pub is_purchased : Error → Bool
is_purchased (purchased b t cause) = true
is_purchased e = false

-- `Buy` ended with a ticket, or with a `PurchasedError`.
abbrev pub has_ticket : {A : Type 0} → Result Error A → Bool
has_ticket (ok a) = true
has_ticket (err e) = is_purchased e

-- The request gives a reservation back.
abbrev pub cancels : {Amount : Type 0} → Call Amount → Bool
cancels (cancel u b) = true
cancels _ = false

-- An answer that is an error is not an error after a purchase.
checked-plain :
    {A : Type 0} (refused : List String → Error) (r : Result KtmbError (GenericRes A)) (e : Error)
    → ((messages : List String) → is_purchased (refused messages) ≡ false)
    → checked refused r ≡ err e
    → is_purchased e ≡ false
unfolding checked
checked-plain refused (err x) e plain h = ground arith
checked-plain refused (ok x) e plain h = elim (Bool-cases x.status) [
  | inl fine ↦ absurd (ground arith)
  | inr bad ↦ ground (arith, plain x.messages)
]

plain_refusal-plain : (messages : List String) → is_purchased (plain_refusal messages) ≡ false
unfolding plain_refusal
plain_refusal-plain messages = refl

passenger_refusal-plain :
    (patterns messages : List String) → is_purchased (passenger_refusal patterns messages) ≡ false
unfolding passenger_refusal plain_refusal
passenger_refusal-plain patterns messages = ground arith

pay_refusal-plain :
    (patterns messages : List String) → is_purchased (pay_refusal patterns messages) ≡ false
unfolding pay_refusal plain_refusal
pay_refusal-plain patterns messages = ground arith

checked-went_through :
    (r : Result KtmbError (GenericRes CompleteRes)) (done : CompleteRes)
    → checked plain_refusal r ≡ ok done
    → went_through r ≡ true
unfolding checked
checked-went_through (err e) done h = cc
checked-went_through (ok r) done h = ground arith

checked-stopped :
    (r : Result KtmbError (GenericRes CompleteRes)) (e : Error)
    → checked plain_refusal r ≡ err e
    → went_through r ≡ false
unfolding checked
checked-stopped (err x) e h = refl
checked-stopped (ok r) e h = ground arith

module _ {Amount : Type 0} (env : Env Amount) where
  -- The end tells whether the history holds a captured purchase.
  abbrev pub Told : Result Error (PurchaseResult Amount) × List (Call Amount) → Type 0
  Told q = captured env q.1 ≡ has_ticket q.0

  with_ids-Told :
      (named : SetPassengerRes Amount) (done : CompleteRes) (ids : String × Option String)
      (h : List (Call Amount))
      → captured env h ≡ true
      → Told (with_ids env named done ids h)
  unfolding with_ids
  with_ids-Told named done (b, none) h taken = taken
  with_ids-Told named done (b, some t) h taken =
      bind_result_cases Told (print env done.user_data b t h) _ on_err on_ok
    where
      on_err :
          (e : Error) (w : List (Call Amount))
          → print env done.user_data b t h ≡ (err e, w)
          → Told (err e, w)
      on_err e w at = by_answer (env.on_print h done.user_data b t) refl
        where
          by_answer :
              (r : Result KtmbError String)
              → env.on_print h done.user_data b t ≡ r
              → Told (err e, w)
          by_answer (err x) is = unfold print printed in ground arith
          by_answer (ok x) is = absurd (unfold print printed in ground arith)

      on_ok :
          (pdf : String) (w : List (Call Amount))
          → print env done.user_data b t h ≡ (ok pdf, w)
          → captured env w ≡ true
      on_ok pdf w at = unfold print in ground arith

  after_pay-Told :
      (named : SetPassengerRes Amount) (user_data booking_data : String) (h : List (Call Amount))
      → captured env h ≡ false
      → Told (
          bind_result
            (complete_purchase env user_data booking_data h)
            (λ done. with_ids env named done (ticket_ids_of done)))
  after_pay-Told named u b h clean =
      bind_result_cases Told (complete_purchase env u b h) _
        (λ e w at.
          let stopped =
            checked-stopped (env.on_complete h u b) e (unfold complete_purchase in ground arith) in
          let plain =
            checked-plain plain_refusal (env.on_complete h u b) e plain_refusal-plain
              (unfold complete_purchase in ground arith) in
          let w_is : complete u b ∷ h ≡ w = unfold complete_purchase in ground arith in
          sym (ap (captured env) w_is) ∙ ground (arith, stopped, plain))
        (λ done w at.
          let through =
            checked-went_through (env.on_complete h u b) done
              (unfold complete_purchase in ground arith) in
          let w_is : complete u b ∷ h ≡ w = unfold complete_purchase in ground arith in
          with_ids-Told named done (ticket_ids_of done) w
            (sym (ap (captured env) w_is) ∙ ground (arith, through)))

  from_passenger-Told :
      (u b : String) (p : PassengerReq) (h : List (Call Amount))
      → captured env h ≡ false
      → Told (
          bind_result (name_passenger env u b p h) (λ named.
            pay_for env named.user_data named.booking_data named.payment_amount >>= λ paid.
            complete_purchase env named.user_data paid.booking_data >>= λ done.
            with_ids env named done (ticket_ids_of done)))
  from_passenger-Told u b p h clean =
      bind_result_cases Told (name_passenger env u b p h) _
        (λ e w at.
          let plain =
            checked-plain (passenger_refusal env.conflict_patterns) (env.on_passenger h u b p) e
              (passenger_refusal-plain env.conflict_patterns)
              (unfold name_passenger in ground arith) in
          unfold name_passenger in ground (arith, plain))
        (λ named w at.
          let quiet : captured env w ≡ false = unfold name_passenger in ground arith in
          bind_result_cases Told
            (pay_for env named.user_data named.booking_data named.payment_amount w) _
            (λ e w₁ at₁.
              let plain =
                checked-plain (pay_refusal env.revert_patterns)
                  (env.on_pay w named.user_data named.booking_data named.payment_amount) e
                  (pay_refusal-plain env.revert_patterns) (unfold pay_for in ground arith) in
              unfold pay_for in ground (arith, plain))
            (λ paid w₁ at₁.
              after_pay-Told named named.user_data paid.booking_data w₁
                (unfold pay_for in ground arith)))

  -- A run of `Buy` that starts with no captured purchase ends with a ticket, or with a
  -- `PurchasedError`, exactly if KTMB has reported the completion of a purchase as a success in it.
  pub buy_seat-Told :
      (user_data booking_data : String) (p : Passenger) (h : List (Call Amount))
      → captured env h ≡ false
      → Told (buy_seat env user_data booking_data p h)
  unfolding buy_seat
  buy_seat-Told u b p h clean =
      bind_result_cases Told (start_booking env u b h) _
        (λ e w at.
          let plain =
            checked-plain plain_refusal (env.on_start h u b) e plain_refusal-plain
              (unfold start_booking in ground arith) in
          unfold start_booking in ground (arith, plain))
        (λ started w at.
          let quiet : captured env w ≡ false = unfold start_booking in ground arith in
          bind_result_cases Told
            (lift {W = List (Call Amount)} (first_passenger started.passengers) w) _
            (λ e w₁ at₁.
              let plain : is_purchased e ≡ false = unfold first_passenger in ground arith in
              ground (arith, plain, quiet))
            (λ first w₁ at₁.
              from_passenger-Told started.user_data started.booking_data
                (passenger_request env.contact_number p first) w₁ (ground (arith, quiet))))

  -- `Buy` gives no reservation back.
  pub buy_seat-cancels :
      (user_data booking_data : String) (p : Passenger) (h : List (Call Amount))
      → any cancels (buy_seat env user_data booking_data p h).1 ≡ any cancels h
  unfolding buy_seat start_booking name_passenger pay_for complete_purchase with_ids print
  buy_seat-cancels u b p h =
      let Same : List (Call Amount) → Type 0 = λ w. any cancels w ≡ any cancels h in
      bind_result_keeps Same (start_booking env u b h) _ refl (λ started w k.
        bind_result_keeps Same
          (lift {W = List (Call Amount)} (first_passenger started.passengers) w) _ k
          (λ first w₁ k₁.
            bind_result_keeps Same
              (name_passenger env started.user_data started.booking_data
                (passenger_request env.contact_number p first) w₁)
              _ k₁
              (λ named w₂ k₂.
                bind_result_keeps Same
                  (pay_for env named.user_data named.booking_data named.payment_amount w₂) _ k₂
                  (λ paid w₃ k₃.
                    bind_result_keeps Same
                      (complete_purchase env named.user_data paid.booking_data w₃) _ k₃
                      (λ done w₄ k₄. with_ids_quiet named done (ticket_ids_of done) w₄ k₄)))))
    where
      with_ids_quiet :
          (named : SetPassengerRes Amount) (done : CompleteRes) (ids : String × Option String)
          (w : List (Call Amount))
          → any cancels w ≡ any cancels h
          → any cancels (with_ids env named done ids w).1 ≡ any cancels h
      with_ids_quiet named done (n, none) w k = k
      with_ids_quiet named done (n, some t) w k =
          bind_result_keeps (λ v. any cancels v ≡ any cancels h) (print env done.user_data n t w) _
            k (λ pdf v e. e)
