-- ===== src/Recoverer/Scan/Answers.antt =====
-- The fuel of the bisection is enough: the scan ends by itself, with a ticket, with none or with an
-- error that the source names.
use nitroso_tin.Base.{
  ℕ, ◌^◌, bind_result_cases, zero, suc, ◌+◌, ◌-◌, ◌/◌, ◌≤◌, ◌<◌, String, Option, none, some, List,
  [], ◌∷◌, ◌≡◌, ◌≢◌, refl, inl, inr, arith, ltb, ◌==◌, ◌||◌, is_empty, Prog, Result, ok, err, lift,
  bind_result-ne-err, Bool-cases,
}
use nitroso_tin.Ktmb.{KtmbError, TicketListBooking, TicketList}
use nitroso_tin.Recoverer.Scan.Steps.{requested-ok}
use nitroso_tin.Recoverer.Scan.{
  fuel_for, FoundTicket, ScanError, out_of_fuel, Verdict, seen, continues, ends, Side, before,
  within, after, RowVerdict, skipped, ambiguous, ours, row_verdict, match_rows, contains_rows,
  page_side, inspect, requested, get_page, narrow, probe, bisect, resume, visit, scan_left,
  scan_right, scan_around, either_side, find_in, find_ticket_in, match_page, page_contains_datetime,
}

module _ (parse : String → Option ℕ) (target : ℕ) (direction passport : String) where
  row_verdict_fuel :
      (b : TicketListBooking)
      → row_verdict parse target direction passport b ≡ ambiguous out_of_fuel
      → ⊥
  unfolding row_verdict
  row_verdict_fuel b h = ground arith

  match_rows_fuel :
      (bs : List TicketListBooking) (bad : Option ScanError)
      → (bad ≡ some out_of_fuel → ⊥)
      → match_rows parse target direction passport bs bad ≡ err out_of_fuel
      → ⊥
  unfolding match_rows
  match_rows_fuel [] none clean h = cc
  match_rows_fuel [] (some e) clean h = clean (cc)
  match_rows_fuel (b ∷ bs) bad clean h =
      by_verdict (row_verdict parse target direction passport b) refl (match_rows_fuel bs)
    where
      by_verdict :
          (v : RowVerdict)
          → row_verdict parse target direction passport b ≡ v
          → ((bad' : Option ScanError)
              → (bad' ≡ some out_of_fuel → ⊥)
              → match_rows parse target direction passport bs bad' ≡ err out_of_fuel
              → ⊥)
          → ⊥
      by_verdict skipped e later = later bad clean (ground arith)
      by_verdict (ambiguous a) e later =
          later (some a) (λ same. row_verdict_fuel b (ground arith)) (ground arith)
      by_verdict (ours g) e later = ground arith

  contains_rows_fuel :
      (bs : List TicketListBooking) (bad : Option ScanError)
      → (bad ≡ some out_of_fuel → ⊥)
      → contains_rows parse target bs bad ≡ err out_of_fuel
      → ⊥
  unfolding contains_rows
  contains_rows_fuel [] none clean h = cc
  contains_rows_fuel [] (some e) clean h = clean (cc)
  contains_rows_fuel (b ∷ bs) bad clean h = ground (
    arith,
    contains_rows_fuel bs bad clean,
    contains_rows_fuel bs (some (ScanError.unparseable b.booking_no)) (λ e. cc),
  )

  inspect_fuel :
      (number : ℕ) (page : TicketList)
      → inspect parse target direction passport number page ≡ err out_of_fuel
      → ⊥
  unfolding inspect match_page page_contains_datetime
  inspect_fuel number page h = ground (
    arith,
    match_rows_fuel page.bookings none (λ e. cc),
    contains_rows_fuel page.bookings none (λ e. cc),
  )

  page_side_fuel :
      (number : ℕ) (rows : List TicketListBooking)
      → page_side parse target number rows ≡ err out_of_fuel
      → ⊥
  unfolding page_side
  page_side_fuel number rows h = ground arith

module _ (parse : String → Option ℕ) {W : Type 0}
    (fetch : W → ℕ → Result KtmbError TicketList × W) where
  requested_fuel :
      (p : Result KtmbError TicketList × W) → (requested parse fetch p).0 ≡ err out_of_fuel → ⊥
  unfolding requested
  requested_fuel (ok page, w) h = cc
  requested_fuel (err e, w) h = cc

  get_page_fuel :
      (first : TicketList) (n : ℕ) (w : W)
      → (get_page parse fetch first n w).0 ≡ err out_of_fuel
      → ⊥
  unfolding get_page
  get_page_fuel first n w h = ground (arith, requested_fuel (fetch w n))

  module _ (target : ℕ) (first : TicketList) where
    narrow_fuel :
        (mid : ℕ) (side : Side) (lower upper : Prog W ScanError ℕ) (w : W)
        → (side ≡ before → (lower w).0 ≡ err out_of_fuel → ⊥)
        → (side ≡ after → (upper w).0 ≡ err out_of_fuel → ⊥)
        → (narrow parse fetch target first mid side lower upper w).0 ≡ err out_of_fuel
        → ⊥
    unfolding narrow
    narrow_fuel mid before lower upper w hl hu h = hl refl h
    narrow_fuel mid after lower upper w hl hu h = hu refl h
    narrow_fuel mid within lower upper w hl hu h = cc

    -- Each probe leaves fewer pages than there is fuel.
    bisect_fuel :
        (fuel lo hi : ℕ) (w : W)
        → suc hi - lo < fuel
        → 1 ≤ lo
        → (bisect parse fetch target first fuel lo hi w).0 ≡ err out_of_fuel
        → ⊥
    unfolding bisect probe
    bisect_fuel zero lo hi w enough pos h = absurd (omega arith)
    bisect_fuel (suc fuel) lo hi w enough pos h = elim (Bool-cases (ltb hi lo)) [
      | inl crossed ↦ ground arith
      | inr open' ↦
          let mid = (lo + hi) / 2 in
          bind_result-ne-err (get_page parse fetch first mid w) _ out_of_fuel
            (get_page_fuel first mid w)
            (λ page w₁.
              bind_result-ne-err (lift (page_side parse target mid page.bookings) w₁) _ out_of_fuel
                (page_side_fuel parse target "" "" mid page.bookings)
                (λ side w₂.
                  narrow_fuel mid side (bisect parse fetch target first fuel lo (mid - 1))
                    (bisect parse fetch target first fuel (mid + 1) hi) w₂
                    (λ _. bisect_fuel fuel lo (mid - 1) w₂ (ground arith) pos)
                    (λ _. bisect_fuel fuel (mid + 1) hi w₂ (ground arith) (omega arith))))
            (rw (bisect, open') at h)
    ]

  module _ (target : ℕ) (direction passport : String) (first : TicketList) where
    visit_fuel :
        (n : ℕ) (next : Prog W ScanError (Option FoundTicket)) (w : W)
        → ((w₁ : W) → (next w₁).0 ≡ err out_of_fuel → ⊥)
        → (visit parse fetch target direction passport first n next w).0 ≡ err out_of_fuel
        → ⊥
    unfolding visit
    visit_fuel n next w hn =
        bind_result-ne-err (get_page parse fetch first n w) _ out_of_fuel (get_page_fuel first n w)
          (λ page w₁.
            bind_result-ne-err (lift (inspect parse target direction passport n page) w₁) _
              out_of_fuel (inspect_fuel parse target direction passport n page) (by_verdict))
      where
        by_verdict :
            (v : Verdict) (w₁ : W)
            → (resume parse fetch target direction passport first v next w₁).0 ≡ err out_of_fuel
            → ⊥
        by_verdict (seen f) w₁ h = cc
        by_verdict continues w₁ h = hn w₁ h
        by_verdict ends w₁ h = cc

    scan_left_fuel :
        (k : ℕ) (w : W)
        → (scan_left parse fetch target direction passport first k w).0 ≡ err out_of_fuel
        → ⊥
    unfolding scan_left
    scan_left_fuel zero w = λ h. cc
    scan_left_fuel (suc k) w =
        visit_fuel (suc k) (scan_left parse fetch target direction passport first k) w
          (scan_left_fuel k)

    scan_right_fuel :
        (left k : ℕ) (w : W)
        → (scan_right parse fetch target direction passport first left k w).0 ≡ err out_of_fuel
        → ⊥
    unfolding scan_right
    scan_right_fuel zero k w = λ h. cc
    scan_right_fuel (suc left) k w =
        visit_fuel k (scan_right parse fetch target direction passport first left (k + 1)) w
          (scan_right_fuel left (k + 1))

    scan_around_fuel :
        (hit : ℕ) (w : W)
        → (scan_around parse fetch target direction passport first hit w).0 ≡ err out_of_fuel
        → ⊥
    unfolding scan_around
    scan_around_fuel zero w = λ h. cc
    scan_around_fuel (suc hit) w =
        bind_result-ne-err (scan_left parse fetch target direction passport first (suc hit) w) _
          out_of_fuel (scan_left_fuel (suc hit) w) by_side
      where
        by_side :
            (found : Option FoundTicket) (w₁ : W)
            → (either_side parse fetch target direction passport first found
                (scan_right parse fetch target direction passport first
                  (first.total_page - suc hit)
                  (suc hit + 1))
                w₁).0
              ≡ err out_of_fuel
            → ⊥
        by_side (some f) w₁ h = cc
        by_side none w₁ h = scan_right_fuel _ _ w₁ h

    find_in_fuel :
        (w : W)
        → first.total_page < 2 ^ 62
        → (find_in parse fetch target direction passport first w).0 ≡ err out_of_fuel
        → ⊥
    unfolding find_in
    find_in_fuel w few h = elim (Bool-cases (first.total_page == 0 || is_empty first.bookings)) [
      | inl blank ↦ ground arith
      | inr rows ↦
          bind_result-ne-err
            (bisect parse fetch target first (fuel_for first.total_page) 1 first.total_page w) _
            out_of_fuel
            (bisect_fuel target first (fuel_for first.total_page) 1 first.total_page w
              (unfold fuel_for in ground arith) (omega arith))
            scan_around_fuel (rw (find_in, rows) at h)
    ]

  -- If KTMB reports fewer than 2 ^ 62 pages, which keeps the bisection within the source's int64, the
  -- scan ends by itself, whatever else KTMB answers: the model's fuel does not run out.
  pub find_ticket_in_fuel :
      (target : ℕ) (direction passport : String) (w : W)
      → ((page : TicketList) (w₁ : W) → fetch w 1 ≡ (ok page, w₁) → page.total_page < 2 ^ 62)
      → (find_ticket_in parse fetch target direction passport w).0 ≢ err out_of_fuel
  unfolding find_ticket_in
  find_ticket_in_fuel target direction passport w few =
      bind_result_cases {B = Option FoundTicket} (λ q. q.0 ≡ err out_of_fuel → ⊥)
        (requested parse fetch (fetch w 1)) _
        (λ e w₁ c h. requested_fuel (fetch w 1) (unfold requested in ground (arith, c, h)))
        (λ first w₁ c.
          find_in_fuel target direction passport first w₁
            (few first w₁ (requested-ok parse fetch (fetch w 1) first w₁ c)))
