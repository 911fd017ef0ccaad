-- ===== src/Recoverer/Process/Reads.antt =====
-- The scan of our account only logs in and lists pages.
use nitroso_tin.Base.{ℕ, String, ◌∷◌, inl, inr, Result, ok, err, Bool-cases, bind_result_keeps}
use nitroso_tin.Recoverer.Scan.{ScanError, find_ticket_in}
use nitroso_tin.Recoverer.Scan.Keeps.{find_ticket_in_keeps}
use nitroso_tin.Recoverer.World.{login, list_page, History, Env, of_scan}
use nitroso_tin.Recoverer.Process.{log_in, list_tickets, scan_our_account}

module _ (env : Env) (P : History → Type 0) (at_login : (h : History) → P h → P (login ∷ h))
    (at_page : (h : History) (n : ℕ) → P h → P (list_page n ∷ h)) where
  list_tickets_keeps : (u : String) (h : History) (n : ℕ) → P h → P (list_tickets env u h n).1
  unfolding list_tickets
  list_tickets_keeps u h n p = elim (Bool-cases (env.cancelled_at h)) [
    | inl c ↦ rw (list_tickets, c) p
    | inr c ↦ rw (list_tickets, c) (at_page h n p)
  ]

  of_scan_keeps : {A : Type 0} (p : Result ScanError A × History) → P p.1 → P (of_scan p).1
  of_scan_keeps (ok a, h) p = p
  of_scan_keeps (err e, h) p = p

  pub scan_our_account_keeps :
      (target : ℕ) (direction passport : String) (h : History)
      → P h
      → P (scan_our_account env target direction passport h).1
  unfolding scan_our_account log_in
  scan_our_account_keeps target direction passport h p =
      bind_result_keeps P (log_in env h) _ (at_login h p) (λ u h'. λ q.
        of_scan_keeps
          (find_ticket_in env.ktmb_time (list_tickets env u) target direction passport h')
          (find_ticket_in_keeps env.ktmb_time (list_tickets env u) P (list_tickets_keeps u) target
            direction passport h' q))
