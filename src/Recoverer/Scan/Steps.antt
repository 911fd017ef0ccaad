-- ===== src/Recoverer/Scan/Steps.antt =====
-- Inversion of the steps of the scan that succeed: one request, one visit, one probe.
use nitroso_tin.Base.{
  ℕ, String, Option, none, some, ◌≡◌, ◌⊎◌, inl, inr, arith, ap, sym, subst, Prog, ◌==◌, Result, ok,
  err, lift, bind_result-ok, Bool-cases,
}
use nitroso_tin.Ktmb.{KtmbError, TicketList}
use nitroso_tin.Recoverer.Scan.{
  Side, before, after, within, page_side, narrow, probe, FoundTicket, ScanError, Verdict, seen,
  continues, ends, inspect, requested, get_page, visit, resume,
}

module _ (parse : String → Option ℕ) {W : Type 0}
    (fetch : W → ℕ → Result KtmbError TicketList × W) where
  -- KTMB served the page in answer to the first request from `start`, or to the request that ended
  -- at `w'`.
  abbrev pub Served : W → W → TicketList → Type 0
  Served start w' page =
      ((w : W) × (fetch start 1 ≡ (ok page, w)))
      ⊎ ((w : W) × (number : ℕ) × (fetch w number ≡ (ok page, w')))

  pub requested-ok :
      (p : Result KtmbError TicketList × W) (page : TicketList) (w' : W)
      → requested parse fetch p ≡ (ok page, w')
      → p ≡ (ok page, w')
  unfolding requested
  requested-ok (ok page', w'') page w' h = ground arith
  requested-ok (err e, w'') page w' h = cc

  pub get_page-Served :
      (start w₀ : W) (first : TicketList) (number : ℕ) (w w' : W) (page : TicketList)
      → fetch start 1 ≡ (ok first, w₀)
      → get_page parse fetch first number w ≡ (ok page, w')
      → Served start w' page
  unfolding get_page
  get_page-Served start w₀ first number w w' page s h = elim (Bool-cases (number == 1)) [
    | inl one ↦
        let same : first ≡ page = ground arith in
        inl (w₀, subst (λ p. fetch start 1 ≡ (ok p, w₀)) same s)
    | inr more ↦ inr (w, number, requested-ok (fetch w number) page w' (ground arith))
  ]

  module _ (target : ℕ) (direction passport : String) (first : TicketList) where
    -- How a page that was visited decides the walk's result.
    abbrev pub Decides :
        Verdict → Prog W ScanError (Option FoundTicket) → W → Option FoundTicket → W → Type 0
    Decides (seen f) next w₁ r w' = (r ≡ some f) × (w' ≡ w₁)
    Decides continues next w₁ r w' = next w₁ ≡ (ok r, w')
    Decides ends next w₁ r w' = r ≡ none

    pub visit-ok :
        (number : ℕ) (next : Prog W ScanError (Option FoundTicket)) (w w' : W)
        (r : Option FoundTicket)
        → visit parse fetch target direction passport first number next w ≡ (ok r, w')
        → (page : TicketList) × (w₁ : W) × (v : Verdict) × (get_page parse fetch first number w
            ≡ (ok page, w₁))
          × (inspect parse target direction passport number page ≡ ok v)
          × Decides v next w₁ r w'
    unfolding visit
    visit-ok number next w w' r h =
        let (page, w₁, got, rest) = bind_result-ok (get_page parse fetch first number w) _ h in
        let (v, w₂, told, last) =
          bind_result-ok (lift (inspect parse target direction passport number page) w₁) _ rest in
        (
          page,
          w₁,
          v,
          got,
          ap (λ t. t.0) told,
          decide v w₁ (
              subst (λ u. resume parse fetch target direction passport first v next u ≡ (ok r, w'))
                (sym (ap (λ t. t.1) told)) last),
        )
      where
        decide :
            (v : Verdict) (w₁ : W)
            → resume parse fetch target direction passport first v next w₁ ≡ (ok r, w')
            → Decides v next w₁ r w'
        decide (seen f) w₁ e = (ground arith, ground arith)
        decide continues w₁ e = e
        decide ends w₁ e = ground arith

  module _ (target : ℕ) (first : TicketList) where
    -- How the side of a page that was probed narrows the search.
    abbrev pub Narrows : ℕ → Side → Prog W ScanError ℕ → Prog W ScanError ℕ → W → ℕ → W → Type 0
    Narrows mid before lower upper w₁ hit w' = lower w₁ ≡ (ok hit, w')
    Narrows mid after lower upper w₁ hit w' = upper w₁ ≡ (ok hit, w')
    Narrows mid within lower upper w₁ hit w' = hit ≡ mid

    pub probe-ok :
        (mid : ℕ) (lower upper : Prog W ScanError ℕ) (w w' : W) (hit : ℕ)
        → probe parse fetch target first mid lower upper w ≡ (ok hit, w')
        → (page : TicketList) × (w₁ : W) × (side : Side) × (get_page parse fetch first mid w
            ≡ (ok page, w₁))
          × (page_side parse target mid page.bookings ≡ ok side)
          × Narrows mid side lower upper w₁ hit w'
    unfolding probe
    probe-ok mid lower upper w w' hit h =
        let (page, w₁, got, rest) = bind_result-ok (get_page parse fetch first mid w) _ h in
        let (side, w₂, told, last) =
          bind_result-ok (lift (page_side parse target mid page.bookings) w₁) _ rest in
        (
          page,
          w₁,
          side,
          got,
          ap (λ t. t.0) told,
          decide side w₁ (
              subst (λ u. narrow parse fetch target first mid side lower upper u ≡ (ok hit, w'))
                (sym (ap (λ t. t.1) told)) last),
        )
      where
        decide :
            (side : Side) (w₁ : W)
            → narrow parse fetch target first mid side lower upper w₁ ≡ (ok hit, w')
            → Narrows mid side lower upper w₁ hit w'
        decide before w₁ e = e
        decide after w₁ e = e
        decide within w₁ e = ground arith
