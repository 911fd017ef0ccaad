-- ===== src/Prober/Held.antt =====
-- What becomes of a seat that KTMB holds for the prober.
use nitroso_tin.Base.{
  Bool, true, false, Option, none, some, List, [], ◌∷◌, ◌≡◌, ◌≢◌, ◌⊎◌, inl, inr, refl, arith,
  Result, ok, err, Bool-cases, sym, subst,
}
use nitroso_tin.Ktmb.{KtmbError, GenericRes}
use nitroso_tin.Buyer.Client.{ReserveDto}
use nitroso_tin.Prober.{
  Call, enqueue, cancel, persist_release, Problem, dry_run, not_encrypted, not_enqueued, Env,
  cancel_error, or_persist, compensate_hold, accept_hold,
}

-- KTMB's answer confirms the cancellation.
abbrev pub confirmed : Result KtmbError (GenericRes (Unit {0})) → Bool
confirmed (err e) = false
confirmed (ok r) = r.status

pub cancel_error-confirmed :
    (answer : Result KtmbError (GenericRes (Unit {0})))
    → cancel_error answer ≡ none
    → confirmed answer ≡ true
unfolding cancel_error
cancel_error-confirmed (err e) h = cc
cancel_error-confirmed (ok r) h = ground arith

module _ (env : Env) (dto : ReserveDto) where
  -- KTMB confirmed that the hold is cancelled, and no failed release is counted.
  abbrev pub GivenBack : (Bool × List Problem) × List Call → Type 0
  GivenBack q =
      (q.0.0 ≡ false)
      × ((k : List Call) × (confirmed (env.on_cancel k dto.user_data dto.booking_data) ≡ true)
          × (q.1 ≡ cancel dto.user_data dto.booking_data ∷ k))

  -- A failed release is counted and an error returned, and the hold is kept for a later release, or
  -- it could not be encrypted, or the store refused it.
  abbrev pub Failed : (Bool × List Problem) × List Call → Type 0
  Failed q =
      (q.0.0 ≡ true)
      × (q.0.1 ≢ [])
      × (((k : List Call) × (env.on_persist k dto ≡ true) × (q.1 ≡ persist_release dto ∷ k))
          ⊎ ((env.encrypts q.1 dto ≡ false)
              ⊎ ((k : List Call) × (env.on_persist k dto ≡ false)
                  × (q.1 ≡ persist_release dto ∷ k))))

  compensate_hold-Held :
      (cause : Problem) (h : List Call)
      → GivenBack (compensate_hold env dto cause h) ⊎ Failed (compensate_hold env dto cause h)
  unfolding compensate_hold
  compensate_hold-Held cause h =
      by_answer (cancel_error (env.on_cancel h dto.user_data dto.booking_data)) refl
    where
      k : List Call
      k = cancel dto.user_data dto.booking_data ∷ h

      by_answer :
          (e : Option KtmbError)
          → cancel_error (env.on_cancel h dto.user_data dto.booking_data) ≡ e
          → GivenBack (or_persist env cause dto e k) ⊎ Failed (or_persist env cause dto e k)
      by_answer none is = inl (
        unfold or_persist in refl,
        (
          h,
          cancel_error-confirmed (env.on_cancel h dto.user_data dto.booking_data) is,
          unfold or_persist in refl,
        ),
      )
      by_answer (some e) is = elim (Bool-cases (env.encrypts k dto)) [
        | inr bad ↦ inr (
          unfold or_persist in ground arith,
          unfold or_persist in ground arith,
          inr (inl (unfold or_persist in ground arith)),
        )
        | inl good ↦ elim (Bool-cases (env.on_persist k dto)) [
          | inl kept ↦ inr (
            unfold or_persist in ground arith,
            unfold or_persist in ground arith,
            inl (k, kept, unfold or_persist in ground arith),
          )
          | inr lost ↦ inr (
            unfold or_persist in ground arith,
            unfold or_persist in ground arith,
            inr (inr (k, lost, unfold or_persist in ground arith)),
          )
        ]
      ]

  -- A seat that KTMB has held is never lost silently: the prober delivers it to the buyer's queue,
  -- which takes it, and reports no problem; or KTMB confirms that it is cancelled; or a failed release
  -- is counted and an error returned, and then the hold is stored for a later release, or it could not
  -- be encrypted, or the store refused it. In a dry run nothing is delivered.
  pub accept_hold-Held :
      (h : List Call)
      → ((env.is_dry_run ≡ false)
          × (env.on_enqueue h dto ≡ true)
          × (accept_hold env dto h ≡ ((false, []), enqueue dto ∷ h)))
        ⊎ (GivenBack (accept_hold env dto h) ⊎ Failed (accept_hold env dto h))
  unfolding accept_hold
  accept_hold-Held h = elim (Bool-cases env.is_dry_run) [
    | inl dry ↦
        let same : accept_hold env dto h ≡ compensate_hold env dto dry_run h =
          rw (accept_hold, dry) in
        inr (subst (λ q. GivenBack q ⊎ Failed q) (sym same) (compensate_hold-Held dry_run h))
    | inr live ↦ elim (Bool-cases (env.encrypts h dto)) [
      | inr bad ↦
          let same : accept_hold env dto h ≡ compensate_hold env dto not_encrypted h =
            rw (accept_hold, live, bad) in
          inr
            (subst (λ q. GivenBack q ⊎ Failed q) (sym same) (compensate_hold-Held not_encrypted h))
      | inl good ↦ elim (Bool-cases (env.on_enqueue h dto)) [
        | inl taken ↦ inl (live, taken, rw (accept_hold, live, good, taken))
        | inr refused ↦
            let same : accept_hold env dto h
                ≡ compensate_hold env dto not_enqueued (enqueue dto ∷ h) =
              rw (accept_hold, live, good, refused) in
            inr (
              subst (λ q. GivenBack q ⊎ Failed q) (sym same)
                (compensate_hold-Held not_enqueued (enqueue dto ∷ h)))
      ]
    ]
  ]
