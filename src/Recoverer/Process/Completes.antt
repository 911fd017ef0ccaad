-- ===== src/Recoverer/Process/Completes.antt =====
-- When `ProcessItem` force-completes a booking, which collects its reserve.
use nitroso_tin.Base.{
  ℕ, String, Bool, true, false, ◌&&◌, not, Option, none, some, List, [], ◌∷◌, ◌≡◌, ◌≢◌, ◌⊎◌, inl,
  inr, refl, arith, any, All, eq_iff, sym, ap, ◌∙◌, subst, Result, ok, err, bind_result_cases,
  str_eq, Option-cases, Bool-cases, ltb,
}
use nitroso_tin.Zinc.{Reply, unreached, answered, Principal, RecoverDto}
use nitroso_tin.Recoverer.Scan.{FoundTicket}
use nitroso_tin.Recoverer.World.{
  Call, get_booking, complete, search_completed, login, print_ticket, History, Env,
}
use nitroso_tin.Recoverer.Process.{
  recorded, set_duplicate, set_manual, recycle_or_duplicate, scan_our_account, force_complete,
  claimant, settle_claim, settle_scan, verify_on_ktmb, resolve, process_item,
}
use nitroso_tin.Recoverer.Process.Reads.{scan_our_account_keeps}
use nitroso_tin.Recoverer.Process.Outcome.{Parked, process_item-Parked}

-- The request completes the booking.
abbrev pub completes : Call → Bool
completes (complete id b t pdf) = true
completes _ = false

module _ (env : Env) (dto : RecoverDto) where
  -- From `h` on the run logged in, printed the ticket and completed the booking with it.
  abbrev pub Completing : String → String → History → History → Type 0
  Completing b t h h' =
      (user_data pdf : String) × (env.on_login h ≡ ok user_data)
      × (env.on_print (login ∷ h) user_data b t ≡ ok pdf)
      × (h' ≡ complete dto.booking_id b t pdf ∷ print_ticket b t ∷ login ∷ h)

  force_complete-Completing :
      (b t : String) (h : History)
      → any completes h ≡ false
      → any completes (force_complete env dto.booking_id b t h).1 ≡ true
      → Completing b t h (force_complete env dto.booking_id b t h).1
  unfolding force_complete
  force_complete-Completing b t h clean r = by_login (env.on_login h) refl
    where
      by_print :
          (user_data : String)
          → env.on_login h ≡ ok user_data
          → (printed : Result _ String) → env.on_print (login ∷ h) user_data b t ≡ printed
          → Completing b t h (force_complete env dto.booking_id b t h).1
      by_print u e (err x) e' = absurd (ground arith)
      by_print u e (ok pdf) e' = (u, pdf, e, e', ground arith)

      by_login :
          (logged : Result _ String)
          → env.on_login h ≡ logged
          → Completing b t h (force_complete env dto.booking_id b t h).1
      by_login (err x) e = absurd (ground arith)
      by_login (ok u) e = by_print u e (env.on_print (login ∷ h) u b t) refl

  -- No Completed booking records the ticket's KTMB booking number.
  abbrev pub Unclaimed : History → FoundTicket → Type 0
  Unclaimed h f =
      (bs : List Principal) × (env.on_search h dto.passport_number dto.date dto.time dto.direction
        ≡ answered 200 (some bs))
      × All (λ b. b.booking_no ≢ some f.booking_no) bs

  recorded-All :
      (number : String) (bs : List Principal)
      → recorded number bs ≡ none
      → All (λ b. b.booking_no ≢ some number) bs
  unfolding recorded
  recorded-All number [] h = tt
  recorded-All number (c ∷ bs) h = elim (Option-cases c.booking_no) [
    | inl e ↦ ((λ e'. cc), recorded-All number bs (ground arith))
    | inr (n, e) ↦ elim (Bool-cases (str_eq n number)) [
      | inl same ↦ absurd (ground arith)
      | inr other ↦ (ground (arith, eq_iff n number), recorded-All number bs (ground arith))
    ]
  ]

  pub claimant-Unclaimed :
      (f : FoundTicket) (h h' : History)
      → claimant env dto f.booking_no h ≡ (ok none, h')
      → Unclaimed h f
        × (h' ≡ search_completed dto.passport_number dto.date dto.time dto.direction ∷ h)
  unfolding claimant
  claimant-Unclaimed f h h' e =
      by_reply (env.on_search h dto.passport_number dto.date dto.time dto.direction) refl
    where
      by_reply :
          (reply : Reply (List Principal))
          → env.on_search h dto.passport_number dto.date dto.time dto.direction ≡ reply
          → Unclaimed h f
            × (h' ≡ search_completed dto.passport_number dto.date dto.time dto.direction ∷ h)
      by_reply unreached r = absurd (ground arith)
      by_reply (answered status none) r = absurd (ground arith)
      by_reply (answered status (some bs)) r =
          ((bs, ground arith, recorded-All f.booking_no bs (ground arith)), ground arith)

  recycle-Completing :
      (h : History)
      → any completes h ≡ false
      → any completes (recycle_or_duplicate env dto.booking_id h).1 ≡ false
  unfolding recycle_or_duplicate set_duplicate
  recycle-Completing h clean = ground arith

  -- Why a resolution that began at `h` and ended at `h'` completes the booking: with the item's own
  -- identifiers, or with those of a ticket that the scan found and nobody claims.
  abbrev pub Captured : History → History → Type 0
  Captured h h' =
      ((dto.booking_no ≢ "") × (dto.ticket_no ≢ "") × Completing dto.booking_no dto.ticket_no h h')
      ⊎ ((target : ℕ) × (h₁ : History) × (f : FoundTicket) × (env.zinc_time dto.date dto.time
            ≡ some target)
          × (scan_our_account env target dto.direction dto.passport_number h ≡ (ok (some f), h₁))
          × Unclaimed h₁ f
          × Completing f.booking_no f.ticket_no
              (search_completed dto.passport_number dto.date dto.time dto.direction ∷ h₁) h')

  claimed_off :
      (claim : Option Principal) (h₁ h₂ : History) (f : FoundTicket)
      → claimant env dto f.booking_no h₁ ≡ (ok claim, h₂)
      → any completes h₂ ≡ any completes h₁
  unfolding claimant
  claimed_off claim h₁ h₂ f e = ground arith

  settle_scan-Captured :
      (target : ℕ) (h h₁ : History) (found : Option FoundTicket)
      → env.zinc_time dto.date dto.time ≡ some target
      → scan_our_account env target dto.direction dto.passport_number h ≡ (ok found, h₁)
      → any completes h₁ ≡ false
      → any completes (settle_scan env dto found h₁).1 ≡ true
      → Captured h (settle_scan env dto found h₁).1
  unfolding settle_scan
  settle_scan-Captured target h h₁ none at e clean =
      λ r. absurd (cc (sym r ∙ recycle-Completing h₁ clean))
  settle_scan-Captured target h h₁ (some f) at e clean =
      bind_result_cases (λ q. any completes q.1 ≡ true → Captured h q.1)
        (claimant env dto f.booking_no h₁) _ (λ x h₂ c r. absurd (unfold claimant in ground arith))
        by_claim
    where
      by_claim :
          (claim : Option Principal) (h₂ : History)
          → claimant env dto f.booking_no h₁ ≡ (ok claim, h₂)
          → any completes (settle_claim env dto f claim h₂).1 ≡ true
          → Captured h (settle_claim env dto f claim h₂).1
      by_claim (some b) h₂ c r =
          absurd (unfold settle_claim set_duplicate in ground (arith, claimed_off (some b) h₁ h₂ f))
      by_claim none h₂ c r =
          let (free, h₂_is) = claimant-Unclaimed f h₁ h₂ c in
          let done =
            force_complete-Completing f.booking_no f.ticket_no h₂
              (claimed_off none h₁ h₂ f c ∙ clean) (unfold settle_claim in r) in
          inr (
            target,
            h₁,
            f,
            at,
            e,
            free,
            unfold settle_claim in
                subst
                  (λ k.
                    Completing f.booking_no f.ticket_no k
                      (force_complete env dto.booking_id f.booking_no f.ticket_no h₂).1)
                  h₂_is done,
          )

  verify-Captured :
      (target : ℕ) (h : History)
      → env.zinc_time dto.date dto.time ≡ some target
      → any completes h ≡ false
      → any completes (verify_on_ktmb env dto target h).1 ≡ true
      → Captured h (verify_on_ktmb env dto target h).1
  unfolding verify_on_ktmb
  verify-Captured target h at clean =
      bind_result_cases (λ q. any completes q.1 ≡ true → Captured h q.1)
        (scan_our_account env target dto.direction dto.passport_number h) _
        (λ x h₁ e r. absurd (cc (sym r ∙ sym (ap (λ q. any completes q.1) e) ∙ scanned)))
        (λ found h₁ e.
          settle_scan-Captured target h h₁ found at e
            (sym (ap (λ q. any completes q.1) e) ∙ scanned))
    where
      scanned :
          any completes (scan_our_account env target dto.direction dto.passport_number h).1 ≡ false
      scanned =
          scan_our_account_keeps env (λ k. any completes k ≡ false) (λ k c. c) (λ k n c. c) target
            dto.direction dto.passport_number h clean

  resolve-Captured :
      (h : History)
      → any completes h ≡ false
      → any completes (resolve env dto h).1 ≡ true
      → Captured h (resolve env dto h).1
  unfolding resolve set_manual
  resolve-Captured h clean r =
      elim (Bool-cases (not (str_eq dto.booking_no "") && not (str_eq dto.ticket_no ""))) [
        | inl known ↦
            let same : resolve env dto h
                ≡ force_complete env dto.booking_id dto.booking_no dto.ticket_no h =
              rw (resolve, known) in
            inl (
              ground (arith, eq_iff dto.booking_no ""),
              ground (arith, eq_iff dto.ticket_no ""),
              subst (λ q. Completing dto.booking_no dto.ticket_no h q.1) (sym same)
                  (force_complete-Completing dto.booking_no dto.ticket_no h clean
                    (sym (ap (λ q. any completes q.1) same) ∙ r)),
            )
        | inr unknown ↦ elim (Option-cases (env.zinc_time dto.date dto.time)) [
          | inl bad ↦ absurd (ground arith)
          | inr (target, good) ↦ elim (Bool-cases (ltb target (env.now h))) [
            | inl past ↦ absurd (ground arith)
            | inr ahead ↦
                let same : resolve env dto h ≡ verify_on_ktmb env dto target h =
                  rw (resolve, unknown, good, ahead) in
                subst (λ q. Captured h q.1) (sym same)
                  (verify-Captured target h good clean (sym (ap (λ q. any completes q.1) same) ∙ r))
          ]
        ]
      ]

-- A run that completes the booking has read it from zinc as Recovering, or as Buying and moved it to
-- Recovering, with no KTMB booking number recorded; and it completes it with a ticket that it
-- printed just before, under the item's own identifiers, or under those of a ticket that the scan of
-- our account found and that none of zinc's Completed bookings for the passenger and slot records.
pub process_item-completes :
    (env : Env) (dto : RecoverDto)
    → any completes (process_item env dto []).1 ≡ true
    → (b : Principal) × (env.on_booking [] dto.booking_id ≡ answered 200 (some b))
      × Parked env dto
          (Captured env dto)
          b
          (get_booking dto.booking_id ∷ [])
          (process_item env dto []).1
process_item-completes env dto =
    process_item-Parked env dto completes (Captured env dto) (λ id. refl) (λ id. refl) (λ id. refl)
      (resolve-Captured env dto)
