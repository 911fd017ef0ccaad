-- ===== src/Recoverer/Scan/Keeps.antt =====
-- What every request of a page keeps of the world, the whole scan keeps.
use nitroso_tin.Base.{
  ℕ, zero, suc, ◌+◌, ◌-◌, ◌/◌, String, Option, none, some, inl, inr, ltb, ◌==◌, ◌||◌, is_empty,
  Prog, Result, ok, err, lift, bind_result_keeps, Bool-cases,
}
use nitroso_tin.Ktmb.{KtmbError, TicketList}
use nitroso_tin.Recoverer.Scan.{
  fuel_for, FoundTicket, ScanError, Verdict, seen, continues, ends, Side, before, within, after,
  page_side, inspect, requested, get_page, narrow, probe, bisect, resume, visit, scan_left,
  scan_right, scan_around, either_side, find_in, find_ticket_in,
}

module _ (parse : String → Option ℕ) {W : Type 0} (fetch : W → ℕ → Result KtmbError TicketList × W)
    (P : W → Type 0) (fetch_keeps : (w : W) (n : ℕ) → P w → P (fetch w n).1) where
  requested_keeps : (p : Result KtmbError TicketList × W) → P p.1 → P (requested parse fetch p).1
  unfolding requested
  requested_keeps (ok page, w) h = h
  requested_keeps (err e, w) h = h

  get_page_keeps : (first : TicketList) (n : ℕ) (w : W) → P w → P (get_page parse fetch first n w).1
  unfolding get_page
  get_page_keeps first n w h = elim (Bool-cases (n == 1)) [
    | inl one ↦ rw (get_page, one) h
    | inr more ↦ rw (get_page, more) (requested_keeps (fetch w n) (fetch_keeps w n h))
  ]

  module _ (target : ℕ) (first : TicketList) where
    narrow_keeps :
        (mid : ℕ) (lower upper : Prog W ScanError ℕ)
        → ((w : W) → P w → P (lower w).1)
        → ((w : W) → P w → P (upper w).1)
        → (side : Side) (w : W) → P w
        → P (narrow parse fetch target first mid side lower upper w).1
    unfolding narrow
    narrow_keeps mid lower upper hl hu before w h = hl w h
    narrow_keeps mid lower upper hl hu after w h = hu w h
    narrow_keeps mid lower upper hl hu within w h = h

    bisect_keeps :
        (fuel lo hi : ℕ) (w : W) → P w → P (bisect parse fetch target first fuel lo hi w).1
    unfolding bisect probe
    bisect_keeps zero lo hi w h = h
    bisect_keeps (suc fuel) lo hi w h = elim (Bool-cases (ltb hi lo)) [
      | inl crossed ↦ rw (bisect, crossed) h
      | inr open' ↦
          let mid = (lo + hi) / 2 in
          rw (bisect, open')
            (bind_result_keeps P (get_page parse fetch first mid w) _ (get_page_keeps first mid w h)
              (λ page w₁ h₁.
                bind_result_keeps P (lift (page_side parse target mid page.bookings) w₁) _ h₁ (
                  narrow_keeps mid (bisect parse fetch target first fuel lo (mid - 1))
                    (bisect parse fetch target first fuel (mid + 1) hi)
                    (bisect_keeps fuel lo (mid - 1)) (bisect_keeps fuel (mid + 1) hi))))
    ]

  module _ (target : ℕ) (direction passport : String) (first : TicketList) where
    visit_keeps :
        (n : ℕ) (next : Prog W ScanError (Option FoundTicket))
        → ((w : W) → P w → P (next w).1)
        → (w : W) → P w
        → P (visit parse fetch target direction passport first n next w).1
    unfolding visit resume
    visit_keeps n next hn w h =
        bind_result_keeps P (get_page parse fetch first n w) _ (get_page_keeps first n w h)
          (λ page w₁ h₁.
            bind_result_keeps P (lift (inspect parse target direction passport n page) w₁) _ h₁
              by_verdict)
      where
        by_verdict :
            (v : Verdict) (w₁ : W)
            → P w₁
            → P (resume parse fetch target direction passport first v next w₁).1
        by_verdict (seen f) w₁ h₁ = h₁
        by_verdict continues w₁ h₁ = hn w₁ h₁
        by_verdict ends w₁ h₁ = h₁

    scan_left_keeps :
        (k : ℕ) (w : W) → P w → P (scan_left parse fetch target direction passport first k w).1
    unfolding scan_left
    scan_left_keeps zero w h = h
    scan_left_keeps (suc k) w h =
        visit_keeps (suc k) (scan_left parse fetch target direction passport first k)
          (scan_left_keeps k) w h

    scan_right_keeps :
        (left k : ℕ) (w : W)
        → P w
        → P (scan_right parse fetch target direction passport first left k w).1
    unfolding scan_right
    scan_right_keeps zero k w h = h
    scan_right_keeps (suc left) k w h =
        visit_keeps k (scan_right parse fetch target direction passport first left (k + 1))
          (scan_right_keeps left (k + 1)) w h

    scan_around_keeps :
        (hit : ℕ) (w : W)
        → P w
        → P (scan_around parse fetch target direction passport first hit w).1
    unfolding scan_around either_side
    scan_around_keeps zero w h = h
    scan_around_keeps (suc hit) w h =
        bind_result_keeps P (scan_left parse fetch target direction passport first (suc hit) w) _
          (scan_left_keeps (suc hit) w h) by_side
      where
        by_side :
            (found : Option FoundTicket) (w₁ : W)
            → P w₁
            → P
                (either_side parse fetch target direction passport first found
                  (scan_right parse fetch target direction passport first
                    (first.total_page - suc hit)
                    (suc hit + 1))
                  w₁).1
        by_side (some f) w₁ h₁ = h₁
        by_side none w₁ h₁ = scan_right_keeps _ _ w₁ h₁

    find_in_keeps : (w : W) → P w → P (find_in parse fetch target direction passport first w).1
    unfolding find_in
    find_in_keeps w h = elim (Bool-cases (first.total_page == 0 || is_empty first.bookings)) [
      | inl blank ↦ rw (find_in, blank) h
      | inr rows ↦
          rw (find_in, rows)
            (bind_result_keeps P
              (bisect parse fetch target first (fuel_for first.total_page) 1 first.total_page w) _
              (bisect_keeps target first _ 1 _ w h) scan_around_keeps)
    ]

  pub find_ticket_in_keeps :
      (target : ℕ) (direction passport : String) (w : W)
      → P w
      → P (find_ticket_in parse fetch target direction passport w).1
  unfolding find_ticket_in
  find_ticket_in_keeps target direction passport w h =
      bind_result_keeps P (requested parse fetch (fetch w 1)) _
        (requested_keeps (fetch w 1) (fetch_keeps w 1 h)) (find_in_keeps target direction passport)
