-- ===== src/Recoverer/Process/Refunds.antt =====
-- When `ProcessItem` marks a booking duplicate, which refunds it.
use nitroso_tin.Base.{
  ℕ, String, Bool, true, false, ◌&&◌, not, Option, none, some, List, [], ◌∷◌, ◌≡◌, ◌⊎◌, inl, inr,
  refl, arith, any, Any, eq_iff, ltb, Result, ok, err, bind_result_cases, sym, ap, ◌∙◌, subst, ◌≤◌,
  str_eq, Option-cases, Bool-cases,
}
use nitroso_tin.Zinc.{Reply, unreached, answered, Principal, RecoverDto}
use nitroso_tin.Recoverer.Scan.{FoundTicket}
use nitroso_tin.Recoverer.World.{
  Call, mark_duplicate, recover_revert, search_completed, History, Error, Env,
}
use nitroso_tin.Recoverer.Process.Reads.{scan_our_account_keeps}
use nitroso_tin.Recoverer.Process.{
  recorded, set_duplicate, set_manual, recycle_or_duplicate, scan_our_account, force_complete,
  claimant, settle_scan, settle_claim, verify_on_ktmb, resolve,
}

-- The request refunds the booking.
abbrev pub refunds : Call → Bool
refunds (mark_duplicate id) = true
refunds _ = false

module _ (env : Env) where
  force_complete-Refund :
      (id b t : String) (h : History) → any refunds (force_complete env id b t h).1 ≡ any refunds h
  unfolding force_complete
  force_complete-Refund id b t h = ground arith

  -- zinc refused to recycle the booking since its retries are spent.
  abbrev pub Exhausted : History → RecoverDto → Type 0
  Exhausted h dto = (body : Option String) × (env.on_revert h dto.booking_id ≡ answered 409 body)

  recycle_or_duplicate-Refund :
      (dto : RecoverDto) (h : History)
      → any refunds h ≡ false
      → any refunds (recycle_or_duplicate env dto.booking_id h).1 ≡ true
      → Exhausted h dto
        × ((recycle_or_duplicate env dto.booking_id h).1
            ≡ mark_duplicate dto.booking_id ∷ recover_revert dto.booking_id ∷ h)
  unfolding recycle_or_duplicate set_duplicate
  recycle_or_duplicate-Refund dto h clean r = by_reply (env.on_revert h dto.booking_id) refl
    where
      by_reply :
          (reply : Reply String)
          → env.on_revert h dto.booking_id ≡ reply
          → Exhausted h dto
            × ((recycle_or_duplicate env dto.booking_id h).1
                ≡ mark_duplicate dto.booking_id ∷ recover_revert dto.booking_id ∷ h)
      by_reply unreached e = absurd (ground arith)
      by_reply (answered status body) e = ((body, ground arith), ground arith)

  -- zinc's search of the Completed bookings for the passenger and slot lists a booking that records
  -- the ticket's KTMB booking number.
  abbrev pub ClaimedBy : History → RecoverDto → FoundTicket → Principal → Type 0
  ClaimedBy h dto f b =
      (bs : List Principal) × (env.on_search h dto.passport_number dto.date dto.time dto.direction
        ≡ answered 200 (some bs))
      × Any (λ c. c ≡ b) bs
      × (b.booking_no ≡ some f.booking_no)

  recorded-Any :
      (number : String) (bs : List Principal) (b : Principal)
      → recorded number bs ≡ some b
      → Any (λ c. c ≡ b) bs × (b.booking_no ≡ some number)
  unfolding recorded
  recorded-Any number [] b h = absurd (ground (arith, h))
  recorded-Any number (c ∷ bs) b h = elim (Option-cases c.booking_no) [
    | inl e ↦ let (there, records) = recorded-Any number bs b (ground arith) in (inr there, records)
    | inr (n, e) ↦ elim (Bool-cases (str_eq n number)) [
      | inl same ↦
          let is : c ≡ b = ground arith in
          (inl is, ap (λ x. x.booking_no) (sym is) ∙ e ∙ ap some ((eq_iff n number).0 same))
      | inr other ↦
          let (there, records) = recorded-Any number bs b (ground arith) in (inr there, records)
    ]
  ]

  pub claimant-ClaimedBy :
      (dto : RecoverDto) (f : FoundTicket) (h h' : History) (b : Principal)
      → claimant env dto f.booking_no h ≡ (ok (some b), h')
      → ClaimedBy h dto f b
        × (h' ≡ search_completed dto.passport_number dto.date dto.time dto.direction ∷ h)
  unfolding claimant
  claimant-ClaimedBy dto f h h' b e =
      by_reply (env.on_search h dto.passport_number dto.date dto.time dto.direction) refl
    where
      by_reply :
          (reply : Reply (List Principal))
          → env.on_search h dto.passport_number dto.date dto.time dto.direction ≡ reply
          → ClaimedBy h dto f b
            × (h' ≡ search_completed dto.passport_number dto.date dto.time dto.direction ∷ h)
      by_reply unreached r = absurd (ground arith)
      by_reply (answered status none) r = absurd (ground arith)
      by_reply (answered status (some bs)) r =
          let (there, records) = recorded-Any f.booking_no bs b (ground arith) in
          ((bs, ground arith, there, records), ground arith)

  claimant-Refund :
      (dto : RecoverDto) (number : String) (h : History)
      → any refunds (claimant env dto number h).1 ≡ any refunds h
  unfolding claimant
  claimant-Refund dto number h = refl

  abbrev scan_at : RecoverDto → ℕ → History → Result Error (Option FoundTicket) × History
  scan_at dto target h = scan_our_account env target dto.direction dto.passport_number h

  scan-Refund :
      (target : ℕ) (direction passport : String) (h : History)
      → any refunds h ≡ false
      → any refunds (scan_our_account env target direction passport h).1 ≡ false
  scan-Refund =
      scan_our_account_keeps env (λ h. any refunds h ≡ false) (λ h clean. clean)
        (λ h n clean. clean)

  -- Why a run that began its scan at `h` and ended at `h'` refunds the booking; `Q` is what else is
  -- known of the booking that claims the ticket.
  abbrev pub Justified : (Principal → Type 0) → RecoverDto → ℕ → History → History → Type 0
  Justified Q dto target h h' =
      ((h₁ : History) × (scan_at dto target h ≡ (ok none, h₁))
        × Exhausted h₁ dto
        × (h' ≡ mark_duplicate dto.booking_id ∷ recover_revert dto.booking_id ∷ h₁))
      ⊎ ((h₁ : History) × (f : FoundTicket) × (scan_at dto target h ≡ (ok (some f), h₁))
          × ((b : Principal) × Q b × ClaimedBy h₁ dto f b)
          × (h'
              ≡ mark_duplicate dto.booking_id
                ∷ search_completed dto.passport_number dto.date dto.time dto.direction
                ∷ h₁))

  settle_claim-Refund :
      (dto : RecoverDto) (f : FoundTicket) (claim : Option Principal) (h : History)
      → any refunds h ≡ false
      → any refunds (settle_claim env dto f claim h).1 ≡ true
      → ((b : Principal) × (claim ≡ some b))
        × ((settle_claim env dto f claim h).1 ≡ mark_duplicate dto.booking_id ∷ h)
  unfolding settle_claim set_duplicate
  settle_claim-Refund dto f none h clean r =
      absurd (ground (arith, force_complete-Refund dto.booking_id f.booking_no f.ticket_no h))
  settle_claim-Refund dto f (some b) h clean r = ((b, refl), ground arith)

  settle_scan-Refund :
      (dto : RecoverDto) (target : ℕ) (h h₁ : History) (found : Option FoundTicket)
      → scan_at dto target h ≡ (ok found, h₁)
      → any refunds h₁ ≡ false
      → any refunds (settle_scan env dto found h₁).1 ≡ true
      → Justified (λ b. Unit {0}) dto target h (settle_scan env dto found h₁).1
  unfolding settle_scan
  settle_scan-Refund dto target h h₁ none e clean r =
      let (spent, shape) = recycle_or_duplicate-Refund dto h₁ clean r in inl (h₁, e, spent, shape)
  settle_scan-Refund dto target h h₁ (some f) e clean r =
      bind_result_cases (λ q. any refunds q.1 ≡ true → Justified (λ b. Unit {0}) dto target h q.1)
        (claimant env dto f.booking_no h₁) _
        (λ x h₂ c r'. absurd (refuted h₂ (ap (λ q. any refunds q.1) c) r')) by_claim r
    where
      refuted :
          (h₂ : History)
          → any refunds (claimant env dto f.booking_no h₁).1 ≡ any refunds h₂
          → any refunds h₂ ≡ true
          → ⊥
      refuted h₂ c r' = ground (arith, claimant-Refund dto f.booking_no h₁)

      by_claim :
          (claim : Option Principal) (h₂ : History)
          → claimant env dto f.booking_no h₁ ≡ (ok claim, h₂)
          → any refunds (settle_claim env dto f claim h₂).1 ≡ true
          → Justified (λ b. Unit {0}) dto target h (settle_claim env dto f claim h₂).1
      by_claim claim h₂ c r' =
          let clean₂ : any refunds h₂ ≡ false =
            sym (ap (λ q. any refunds q.1) c) ∙ claimant-Refund dto f.booking_no h₁ ∙ clean in
          let ((b, same), shape) = settle_claim-Refund dto f claim h₂ clean₂ r' in
          let (claimed, h₂_is) = claimant-ClaimedBy dto f h₁ h₂ b (c ∙ ap (λ t. (ok t, h₂)) same) in
          inr
            (h₁, f, e, (b, tt, claimed), shape ∙ ap (λ t. mark_duplicate dto.booking_id ∷ t) h₂_is)

  verify_on_ktmb-Refund :
      (dto : RecoverDto) (target : ℕ) (h : History)
      → any refunds h ≡ false
      → any refunds (verify_on_ktmb env dto target h).1 ≡ true
      → Justified (λ b. Unit {0}) dto target h (verify_on_ktmb env dto target h).1
  unfolding verify_on_ktmb
  verify_on_ktmb-Refund dto target h clean =
      bind_result_cases (λ q. any refunds q.1 ≡ true → Justified (λ b. Unit {0}) dto target h q.1)
        (scan_at dto target h) _ on_err on_ok
    where
      scanned : any refunds (scan_at dto target h).1 ≡ false
      scanned = scan-Refund target dto.direction dto.passport_number h clean

      on_err :
          (x : Error) (h₁ : History)
          → scan_at dto target h ≡ (err x, h₁)
          → any refunds h₁ ≡ true
          → Justified (λ b. Unit {0}) dto target h h₁
      on_err x h₁ e r = absurd (cc (sym r ∙ sym (ap (λ q. any refunds q.1) e) ∙ scanned))

      on_ok :
          (found : Option FoundTicket) (h₁ : History)
          → scan_at dto target h ≡ (ok found, h₁)
          → any refunds (settle_scan env dto found h₁).1 ≡ true
          → Justified (λ b. Unit {0}) dto target h (settle_scan env dto found h₁).1
      on_ok found h₁ e =
          settle_scan-Refund dto target h h₁ found e (sym (ap (λ q. any refunds q.1) e) ∙ scanned)

  -- A departure that has not passed, and no ticket identifiers on the item.
  abbrev pub Resolved : (Principal → Type 0) → RecoverDto → History → History → Type 0
  Resolved Q dto h h' =
      ((dto.booking_no ≡ "") ⊎ (dto.ticket_no ≡ ""))
      × (target : ℕ) × (env.zinc_time dto.date dto.time ≡ some target)
      × (env.now h ≤ target)
      × Justified Q dto target h h'

  pub resolve-Refund :
      (dto : RecoverDto) (h : History)
      → any refunds h ≡ false
      → any refunds (resolve env dto h).1 ≡ true
      → Resolved (λ b. Unit {0}) dto h (resolve env dto h).1
  unfolding resolve set_manual
  resolve-Refund dto h clean r =
      elim (Bool-cases (not (str_eq dto.booking_no "") && not (str_eq dto.ticket_no ""))) [
        | inl known ↦
            absurd
              (ground (arith, force_complete-Refund dto.booking_id dto.booking_no dto.ticket_no h))
        | inr unknown ↦ elim (Option-cases (env.zinc_time dto.date dto.time)) [
          | inl bad ↦ absurd (ground arith)
          | inr (target, good) ↦ elim (Bool-cases (ltb target (env.now h))) [
            | inl past ↦ absurd (ground arith)
            | inr ahead ↦
                let same : resolve env dto h ≡ verify_on_ktmb env dto target h =
                  rw (resolve, unknown, good, ahead) in
                (
                  ground (arith, eq_iff dto.booking_no "", eq_iff dto.ticket_no ""),
                  target,
                  good,
                  ground arith,
                  subst (λ q. Justified (λ b. Unit {0}) dto target h q.1) (sym same)
                      (verify_on_ktmb-Refund dto target h clean
                        (sym (ap (λ q. any refunds q.1) same) ∙ r)),
                )
          ]
        ]
      ]
