-- ===== src/Recoverer/Check/Answer/Reported.antt =====
-- What an answered check leaves behind.
use nitroso_tin.Base.{
  ℕ, zero, suc, ◌≤◌, ◌<◌, String, true, false, List, [], ◌∷◌, ◌≡◌, ◌⊎◌, inl, inr, refl, arith, any,
  sym, ap, subst, Bool-cases,
}
use nitroso_tin.Recoverer.World.{History, Env}
use nitroso_tin.Recoverer.Repair.Parks.{writes}
use nitroso_tin.Recoverer.Check.{check_booking}
use nitroso_tin.Recoverer.Check.Verdict.{check_booking_reads}
use nitroso_tin.Recoverer.Check.Answer.{
  Report, Reporting, report_of, is_reported, report_times, answer_check,
}

-- The report sent `n` times more.
abbrev pub again : ℕ → Report → List Report → List Report
again zero r sent = sent
again (suc n) r sent = again n r (r ∷ sent)

module _ (zinc : Reporting) where
  -- zinc does not take the report that follows `sent`, and the context lasts through the wait.
  abbrev pub Fails : Report → History → List Report → Type 0
  Fails r h sent =
      (is_reported (zinc.on_report h sent r) ≡ false) × (zinc.ends_after h (r ∷ sent) ≡ false)

  -- The report was sent `n + 1` times: all attempts before the last failed, and then zinc took the
  -- last one, the context ended, or no attempt was left.
  abbrev pub Sent : ℕ → Report → History → List Report → List Report → Type 0
  Sent left r h sent out =
      (n : ℕ) × (n ≤ left)
      × (out ≡ again (suc n) r sent)
      × ((i : ℕ) → i < n → Fails r h (again i r sent))
      × ((is_reported (zinc.on_report h (again n r sent) r) ≡ true)
          ⊎ ((zinc.ends_after h out ≡ true) ⊎ (n ≡ left)))

  none_before :
      (r : Report) (h : History) (sent : List Report) (i : ℕ) → i < 0 → Fails r h (again i r sent)
  none_before r h sent i below = absurd (omega (arith, below))

  Fails-shift :
      (r : Report) (h : History) (sent : List Report) (n : ℕ)
      → Fails r h sent
      → ((i : ℕ) → i < n → Fails r h (again i r (r ∷ sent)))
      → (i : ℕ) → i < suc n
      → Fails r h (again i r sent)
  Fails-shift r h sent n now later zero below = now
  Fails-shift r h sent n now later (suc i) below = later i (omega (arith, below))

  report_times-Sent :
      (left : ℕ) (r : Report) (h : History) (sent : List Report)
      → Sent left r h sent (report_times zinc (suc left) r h sent)
  unfolding report_times
  report_times-Sent zero r h sent = elim (Bool-cases (is_reported (zinc.on_report h sent r))) [
    | inl taken ↦ (0, ground arith, ground arith, none_before r h sent, inl taken)
    | inr failed ↦ (0, ground arith, ground arith, none_before r h sent, inr (inr refl))
  ]
  report_times-Sent (suc left) r h sent =
      let (n, few, same, before, why) = report_times-Sent left r h (r ∷ sent) in
      elim (Bool-cases (is_reported (zinc.on_report h sent r))) [
        | inl taken ↦ (0, ground arith, ground arith, none_before r h sent, inl taken)
        | inr failed ↦ elim (Bool-cases (zinc.ends_after h (r ∷ sent))) [
          | inl ended ↦
              let one : report_times zinc (suc (suc left)) r h sent ≡ r ∷ sent = ground arith in
              subst (Sent (suc left) r h sent) (sym one)
                (0, ground arith, refl, none_before r h sent, inr (inl ended))
          | inr on ↦
              let rest : report_times zinc (suc (suc left)) r h sent
                  ≡ report_times zinc (suc left) r h (r ∷ sent) =
                rw (report_times, failed, on) in
              subst (Sent (suc left) r h sent) (sym rest) (
                suc n,
                omega (arith, few),
                same,
                Fails-shift r h sent n (failed, on) before,
                elim why [
                  | inl taken ↦ inl taken
                  | inr (inl ended) ↦ inr (inl ended)
                  | inr (inr all) ↦ inr (inr (ap suc all))
                ],
              )
        ]
      ]

  -- An answered check changes no booking: it sends no request that completes, recycles, refunds,
  -- parks or transitions one, or attaches a ticket. It reports what the check found at least once and
  -- at most three times, each time the same. It sends a further report only after zinc has not taken
  -- the one before (a check that zinc no longer has counts as taken) and the context has not ended,
  -- and stops only as zinc took the last report, as the context ended, or after the third.
  pub answer_check-Sent :
      (env : Env) (check_id booking_id : String) (now : ℕ) (h : History)
      → any writes h ≡ false
      → (any writes (answer_check zinc env check_id booking_id now h).0 ≡ false)
        × Sent 2
            (report_of check_id (check_booking env booking_id now h).0)
            (answer_check zinc env check_id booking_id now h).0
            []
            (answer_check zinc env check_id booking_id now h).1
  unfolding answer_check
  answer_check-Sent env check_id booking_id now h clean =
      let out = check_booking env booking_id now h in
      (
        check_booking_reads env booking_id now h clean,
        report_times-Sent 2 (report_of check_id out.0) out.1 [],
      )
