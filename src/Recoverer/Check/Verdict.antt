-- ===== src/Recoverer/Check/Verdict.antt =====
-- What the answers of `CheckBooking` mean, and that it changes nothing.
use nitroso_tin.Recoverer.Process.Refunds.{ClaimedBy, claimant-ClaimedBy}
use nitroso_tin.Recoverer.Process.Completes.{Unclaimed, claimant-Unclaimed}
use nitroso_tin.Base.{
  ap, ◌∙◌, ◌≢◌, ℕ, ◌<◌, String, false, Option, none, some, ◌∷◌, ◌≡◌, ◌⊎◌, inl, inr, refl, arith,
  any, ltb, Result, ok, err, Bool-cases, sym, subst,
}
use nitroso_tin.Zinc.{answered, Principal, RecoverDto, deref}
use nitroso_tin.Recoverer.Scan.{FoundTicket}
use nitroso_tin.Recoverer.World.{get_booking, History, Error, Env}
use nitroso_tin.Recoverer.Process.{fetch_booking, found_booking, scan_our_account, claimant}
use nitroso_tin.Recoverer.Process.Reads.{scan_our_account_keeps}
use nitroso_tin.Recoverer.Repair.Parks.{writes}
use nitroso_tin.Recoverer.Check.{
  Problem, not_read, no_booking, no_departure, not_scanned, claim_unknown, reconstruct_dto, found,
  not_found, departed, failed, CheckResult, bare, holds, of_claim, of_scanned, scan_ahead,
  of_fetched, check_booking,
}

module _ (env : Env) where
  -- What the answer says of the booking that claims the ticket.
  abbrev pub ClaimTold : RecoverDto → FoundTicket → History → CheckResult → Type 0
  ClaimTold dto f h r =
      ((b : Principal) × ClaimedBy env h dto f b × (r.claimed_by ≡ some b.id) × (r.error ≡ none))
      ⊎ ((Unclaimed env dto h f × (r.claimed_by ≡ none) × (r.error ≡ none))
          ⊎ ((e : Error) × ((claimant env dto f.booking_no h).0 ≡ err e)
              × (r.claimed_by ≡ none)
              × (r.error ≡ some (claim_unknown e))))

  -- The failure says why.
  abbrev pub IsFailure : CheckResult → Type 0
  IsFailure r = (r.status ≡ failed) × ((p : Problem) × (r.error ≡ some p))

  abbrev pub SaysNoMore : CheckResult → Type 0
  SaysNoMore r = (r.claimed_by ≡ none) × (r.error ≡ none)

  -- The answer is a failure, or it tells of the scan for a departure ahead, or of one that has passed.
  abbrev pub Fits : RecoverDto → ℕ → History → CheckResult → Type 0
  Fits dto now h r =
      IsFailure r
      ⊎ ((target : ℕ) × (env.zinc_time dto.date dto.time ≡ some target)
          × (((r.status ≡ found)
                × (now < target)
                × ((f : FoundTicket) × (h' : History) × (scan_our_account env target dto.direction
                        dto.passport_number h
                      ≡ (ok (some f), h'))
                    × (r.ktmb_booking_no ≡ f.booking_no)
                    × (r.ktmb_ticket_no ≡ f.ticket_no)
                    × ClaimTold dto f h' r))
              ⊎ (((r.status ≡ not_found)
                    × (now < target)
                    × ((h' : History) × (scan_our_account env target dto.direction
                            dto.passport_number h
                          ≡ (ok none, h')))
                    × SaysNoMore r)
                  ⊎ ((r.status ≡ departed) × (target < now) × SaysNoMore r))))

  of_claim-Told :
      (dto : RecoverDto) (f : FoundTicket) (h : History)
      (q : Result Error (Option Principal) × History)
      → claimant env dto f.booking_no h ≡ q
      → ((of_claim f q).0.status ≡ found)
        × ((of_claim f q).0.ktmb_booking_no ≡ f.booking_no)
        × ((of_claim f q).0.ktmb_ticket_no ≡ f.ticket_no)
        × ClaimTold dto f h (of_claim f q).0
  unfolding of_claim holds
  of_claim-Told dto f h (err e, w) is =
      (refl, refl, refl, inr (inr (e, ap (λ q. q.0) is, refl, refl)))
  of_claim-Told dto f h (ok none, w) is =
      (refl, refl, refl, inr (inl ((claimant-Unclaimed env dto f h w is).0, refl, refl)))
  of_claim-Told dto f h (ok (some b), w) is =
      (refl, refl, refl, inl (b, (claimant-ClaimedBy env dto f h w b is).0, refl, refl))

  of_scanned-Fits :
      (dto : RecoverDto) (now target : ℕ) (h : History)
      (q : Result Error (Option FoundTicket) × History)
      → env.zinc_time dto.date dto.time ≡ some target
      → now < target
      → scan_our_account env target dto.direction dto.passport_number h ≡ q
      → Fits dto now h (of_scanned env dto q).0
  unfolding of_scanned bare
  of_scanned-Fits dto now target h (err e, w) at ahead is = inl (refl, (not_scanned e, refl))
  of_scanned-Fits dto now target h (ok none, w) at ahead is =
      inr (target, at, inr (inl (refl, ahead, (w, is), (refl, refl))))
  of_scanned-Fits dto now target h (ok (some f), w) at ahead is =
      let (status, number, ticket, told) =
        of_claim-Told dto f w (claimant env dto f.booking_no w) refl in
      inr (target, at, inl (status, ahead, (f, w, is, number, ticket, told)))

  scan_ahead-Fits :
      (dto : RecoverDto) (now : ℕ) (h : History)
      → env.zinc_time dto.date dto.time ≢ some now
      → Fits dto now h (scan_ahead env now dto (env.zinc_time dto.date dto.time) h).0
  unfolding scan_ahead bare
  scan_ahead-Fits dto now h apart = by_time (env.zinc_time dto.date dto.time) refl
    where
      by_time :
          (time : Option ℕ)
          → env.zinc_time dto.date dto.time ≡ time
          → Fits dto now h (scan_ahead env now dto time h).0
      by_time none at = inl (unfold scan_ahead in (refl, (no_departure, refl)))
      by_time (some target) at = elim (Bool-cases (ltb now target)) [
        | inl ahead ↦
            let same : scan_ahead env now dto (some target) h
                ≡ of_scanned env dto
                    (scan_our_account env target dto.direction dto.passport_number h) =
              rw (scan_ahead, ahead) in
            subst (λ q. Fits dto now h q.0) (sym same)
              (of_scanned-Fits dto now target h _ at (ground arith) refl)
        | inr past ↦
            let same : scan_ahead env now dto (some target) h ≡ (bare departed none, h) =
              rw (scan_ahead, past) in
            let other : target ≢ now = λ is. apart (at ∙ ap some is) in
            subst (λ q. Fits dto now h q.0) (sym same)
              (inr (target, at, inr (inr (refl, ground arith, (refl, refl)))))
      ]

  -- If the booking's departure is not the very instant of the check: an answer of `CheckBooking` that
  -- is not a failure, which says why, is of a booking that was read and whose departure could be
  -- parsed. It is Found, if the departure is ahead of the time of the check and the scan of our account
  -- found the ticket whose numbers the answer carries; and then it names a booking that zinc lists as
  -- Completed with the ticket's booking number, or no booking where zinc lists none with that number,
  -- or says that zinc could not be asked. It is NotFound, if the departure is ahead and the scan ended
  -- without a ticket and without an error; and Departed, if it has passed.
  pub check_booking-Fits :
      (id : String) (now : ℕ) (h : History)
      → ((b : Principal)
          → env.on_booking h id ≡ answered 200 (some b)
          → env.zinc_time (deref b.date) (deref b.time) ≢ some now)
      → IsFailure (check_booking env id now h).0
        ⊎ ((b : Principal) × (env.on_booking h id ≡ answered 200 (some b))
            × Fits (reconstruct_dto b) now (get_booking id ∷ h) (check_booking env id now h).0)
  unfolding check_booking
  check_booking-Fits id now h apart = by_booking (fetch_booking env id h) refl
    where
      by_booking :
          (q : Result Error (Option Principal) × History)
          → fetch_booking env id h ≡ q
          → IsFailure (of_fetched env now q).0
            ⊎ ((b : Principal) × (env.on_booking h id ≡ answered 200 (some b))
                × Fits (reconstruct_dto b) now (get_booking id ∷ h) (of_fetched env now q).0)
      by_booking (err e, w) is = inl (unfold of_fetched bare in (refl, (not_read e, refl)))
      by_booking (ok none, w) is = inl (unfold of_fetched bare in (refl, (no_booking, refl)))
      by_booking (ok (some b), w) is =
          let w_is : w ≡ get_booking id ∷ h = unfold fetch_booking in ground arith in
          let read : env.on_booking h id ≡ answered 200 (some b) =
            unfold fetch_booking found_booking in ground arith in
          let dto = reconstruct_dto b in
          inr (
            b,
            read,
            unfold of_fetched in
                subst
                  (λ k.
                    Fits dto now k (scan_ahead env now dto (env.zinc_time dto.date dto.time) w).0)
                  w_is (scan_ahead-Fits dto now w (unfold reconstruct_dto in apart b read)),
          )

  -- `CheckBooking` changes nothing: none of its requests completes, recycles, refunds, parks or
  -- transitions a booking, or attaches a ticket.
  pub check_booking_reads :
      (id : String) (now : ℕ) (h : History)
      → any writes h ≡ false
      → any writes (check_booking env id now h).1 ≡ false
  unfolding check_booking
  check_booking_reads id now h clean =
      by_booking (fetch_booking env id h) (unfold fetch_booking in ground arith)
    where
      by_claim :
          (f : FoundTicket) (q : Result Error (Option Principal) × History)
          → any writes q.1 ≡ false
          → any writes (of_claim f q).1 ≡ false
      by_claim f (err e, w) k = unfold of_claim in k
      by_claim f (ok none, w) k = unfold of_claim in k
      by_claim f (ok (some b), w) k = unfold of_claim in k

      by_scan :
          (dto : RecoverDto) (q : Result Error (Option FoundTicket) × History)
          → any writes q.1 ≡ false
          → any writes (of_scanned env dto q).1 ≡ false
      by_scan dto (err e, w) k = unfold of_scanned in k
      by_scan dto (ok none, w) k = unfold of_scanned in k
      by_scan dto (ok (some f), w) k =
          unfold of_scanned in by_claim f (claimant env dto f.booking_no w) (unfold claimant in k)

      by_time :
          (dto : RecoverDto) (time : Option ℕ) (w : History)
          → any writes w ≡ false
          → any writes (scan_ahead env now dto time w).1 ≡ false
      by_time dto none w k = unfold scan_ahead in k
      by_time dto (some target) w k = elim (Bool-cases (ltb now target)) [
        | inr past ↦ unfold scan_ahead in ground arith
        | inl ahead ↦
            rw (scan_ahead, ahead)
              (by_scan dto (scan_our_account env target dto.direction dto.passport_number w) (
                scan_our_account_keeps env (λ v. any writes v ≡ false) (λ v c. c) (λ v n c. c)
                  target dto.direction dto.passport_number w k))
      ]

      by_booking :
          (q : Result Error (Option Principal) × History)
          → any writes q.1 ≡ false
          → any writes (of_fetched env now q).1 ≡ false
      by_booking (err e, w) k = unfold of_fetched in k
      by_booking (ok none, w) k = unfold of_fetched in k
      by_booking (ok (some b), w) k = unfold of_fetched in by_time (reconstruct_dto b) _ w k
