-- ===== src/Recoverer/Scan/Sighted.antt =====
-- A ticket that the scan reports stands on a page that KTMB served.
use nitroso_tin.Base.{
  ℕ, sym, subst, zero, suc, ◌+◌, ◌-◌, String, Option, none, some, ◌≡◌, inl, inr, arith, Any, Prog,
  Result, ok, bind_result-ok, Bool-cases, ◌==◌, ◌||◌, is_empty,
}
use nitroso_tin.Ktmb.{KtmbError, TicketList}
use nitroso_tin.Recoverer.Scan.{
  fuel_for, FoundTicket, ScanError, Verdict, seen, continues, ends, inspect, requested, bisect,
  visit, scan_left, scan_right, scan_around, either_side, find_in, find_ticket_in,
}
use nitroso_tin.Recoverer.Scan.Rows.{IsOurs}
use nitroso_tin.Recoverer.Scan.Pages.{inspect-Promise}
use nitroso_tin.Recoverer.Scan.Steps.{Served, requested-ok, get_page-Served, Decides, visit-ok}

module _ (parse : String → Option ℕ) {W : Type 0} (fetch : W → ℕ → Result KtmbError TicketList × W)
    (target : ℕ) (direction passport : String) where
  -- The ticket was read on a page that was served in the run from `start` to `w'`.
  abbrev pub Sighted : W → W → FoundTicket → Type 0
  Sighted start w' f =
      (page : TicketList) × Served parse fetch start w' page
      × Any (IsOurs parse target direction passport f) page.bookings

  module _ (first : TicketList) (start w₀ : W) (served : fetch start 1 ≡ (ok first, w₀)) where
    visit-Sighted :
        (number : ℕ) (next : Prog W ScanError (Option FoundTicket)) (w w' : W) (f : FoundTicket)
        → ((w₁ : W) → next w₁ ≡ (ok (some f), w') → Sighted start w' f)
        → visit parse fetch target direction passport first number next w ≡ (ok (some f), w')
        → Sighted start w' f
    visit-Sighted number next w w' f later h =
        let (page, w₁, v, got, told, d) =
          visit-ok parse fetch target direction passport first number next w w' (some f) h in
        decide page w₁ v (get_page-Served parse fetch start w₀ first number w w₁ page served got)
          told d
      where
        decide :
            (page : TicketList) (w₁ : W) (v : Verdict)
            → Served parse fetch start w₁ page
            → inspect parse target direction passport number page ≡ ok v
            → Decides parse fetch target direction passport first v next w₁ (some f) w'
            → Sighted start w' f
        decide page w₁ (seen g) s told d =
            subst (λ k. Sighted start k f) (sym d.1)
              (
                page,
                s,
                inspect-Promise parse target direction passport number page (seen f)
                    (ground (arith, told, d.0)),
              )
        decide page w₁ continues s told d = later w₁ d
        decide page w₁ ends s told d = cc

    scan_left-Sighted :
        (k : ℕ) (w w' : W) (f : FoundTicket)
        → scan_left parse fetch target direction passport first k w ≡ (ok (some f), w')
        → Sighted start w' f
    unfolding scan_left
    scan_left-Sighted zero w w' f h = cc
    scan_left-Sighted (suc k) w w' f h =
        visit-Sighted (suc k) (scan_left parse fetch target direction passport first k) w w' f
          (λ w₁. scan_left-Sighted k w₁ w' f) h

    scan_right-Sighted :
        (left page : ℕ) (w w' : W) (f : FoundTicket)
        → scan_right parse fetch target direction passport first left page w ≡ (ok (some f), w')
        → Sighted start w' f
    unfolding scan_right
    scan_right-Sighted zero page w w' f h = cc
    scan_right-Sighted (suc left) page w w' f h =
        visit-Sighted page (scan_right parse fetch target direction passport first left (page + 1))
          w w' f (λ w₁. scan_right-Sighted left (page + 1) w₁ w' f) h

    scan_around-Sighted :
        (hit : ℕ) (w w' : W) (f : FoundTicket)
        → scan_around parse fetch target direction passport first hit w ≡ (ok (some f), w')
        → Sighted start w' f
    unfolding scan_around
    scan_around-Sighted zero w w' f h = cc
    scan_around-Sighted (suc hit) w w' f h =
        let (found, w₁, left, rest) =
          bind_result-ok (scan_left parse fetch target direction passport first (suc hit) w) _ h in
        on_side found w₁ left rest
      where
        on_side :
            (found : Option FoundTicket) (w₁ : W)
            → scan_left parse fetch target direction passport first (suc hit) w ≡ (ok found, w₁)
            → either_side parse fetch target direction passport first found
                (scan_right parse fetch target direction passport first
                  (first.total_page - suc hit)
                  (suc hit + 1))
                w₁
              ≡ (ok (some f), w')
            → Sighted start w' f
        on_side (some g) w₁ left rest =
            subst (λ k. Sighted start k f) (ground arith)
              (scan_left-Sighted (suc hit) w w₁ f (ground arith))
        on_side none w₁ left rest = scan_right-Sighted _ _ w₁ w' f rest

    find_in-Sighted :
        (w w' : W) (f : FoundTicket)
        → find_in parse fetch target direction passport first w ≡ (ok (some f), w')
        → Sighted start w' f
    unfolding find_in
    find_in-Sighted w w' f h =
        elim (Bool-cases (first.total_page == 0 || is_empty first.bookings)) [
          | inl blank ↦ absurd (ground arith)
          | inr rows ↦
              let (hit, w₁, found, rest) =
                bind_result-ok
                  (bisect parse fetch target first (fuel_for first.total_page) 1 first.total_page w)
                  _ (rw (find_in, rows) at h) in
              scan_around-Sighted hit w₁ w' f rest
        ]

  -- A ticket that the scan finds stands on a page that KTMB served in answer to the first request of
  -- the run, for page 1, or to the one that ended the run, in a row that departs at the target, carries the passport's ticket under the numbers reported, and is positively
  -- confirmed in the target direction. The list may change between two requests.
  pub find_ticket_in-Sighted :
      (w w' : W) (f : FoundTicket)
      → find_ticket_in parse fetch target direction passport w ≡ (ok (some f), w')
      → Sighted w w' f
  unfolding find_ticket_in
  find_ticket_in-Sighted w w' f h =
      let (first, w₁, got, rest) = bind_result-ok (requested parse fetch (fetch w 1)) _ h in
      find_in-Sighted first w w₁ (requested-ok parse fetch (fetch w 1) first w₁ got) w₁ w' f rest
