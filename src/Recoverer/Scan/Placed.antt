-- ===== src/Recoverer/Scan/Placed.antt =====
-- Where the bisection of a stable, ascending list ends: on a page that spans the target, or on no
-- page, with every row of the list ruled out.
use nitroso_tin.Base.{
  ℕ, zero, suc, ◌+◌, ◌-◌, ◌/◌, ◌≤◌, ◌<◌, String, Option, none, some, List, ◌∷◌, ◌≡◌, refl, ap, sym,
  ◌∙◌, subst, ◌⊎◌, inl, inr, arith, dec_lt, ltb, ◌==◌, All, All-map, Prog, Result, ok, last_of,
  Bool-cases,
}
use nitroso_tin.Ktmb.{KtmbError, TicketListBooking, TicketList}
use nitroso_tin.Recoverer.Scan.{
  ScanError, Side, before, within, after, depart_of, ticket_for_passport, get_page, page_side,
  bisect,
}
use nitroso_tin.Recoverer.Scan.Rows.{Cleared}
use nitroso_tin.Recoverer.Scan.Pages.{page_side_read, page_side_nonempty}
use nitroso_tin.Recoverer.Scan.Order.{Ascending, Earlier, Later, first-Later, last-Earlier}
use nitroso_tin.Recoverer.Scan.Steps.{requested-ok, Narrows, probe-ok}

module _ (parse : String → Option ℕ) {W : Type 0} (fetch : W → ℕ → Result KtmbError TicketList × W)
    (target : ℕ) (direction passport : String) (pages : ℕ → TicketList)
    (departs : TicketListBooking → ℕ)
    (truth : (b : TicketListBooking) (dt : ℕ) → depart_of parse b ≡ some dt → departs b ≡ dt)
    (sorted : Ascending departs pages)
    (stable : (w : W) (n : ℕ) → (fetch w n).0 ≡ ok (pages n)) where
  -- No row of the page is a ticket of the passport at the target departure, in either direction.
  abbrev pub Absent : ℕ → Type 0
  Absent p =
      All (λ b. departs b ≡ target → ticket_for_passport b passport ≡ none) (pages p).bookings

  pub got_page :
      (n : ℕ) (w w' : W) (page : TicketList)
      → get_page parse fetch (pages 1) n w ≡ (ok page, w')
      → page ≡ pages n
  unfolding get_page
  got_page n w w' page h = elim (Bool-cases (n == 1)) [
    | inl one ↦ let e : n ≡ 1 = ground arith in ground (arith, ap pages e)
    | inr more ↦
        let got = requested-ok parse fetch (fetch w n) page w' (ground arith) in
        ground (arith, stable w n)
  ]

  pub Cleared-Absent :
      (p : ℕ) → All (Cleared parse target direction passport) (pages p).bookings → Absent p
  Cleared-Absent p h = All-map (pages p).bookings (λ b c at. c.2 (sym (truth b c.0 c.1) ∙ at)) h

  pub Earlier-Absent : (p : ℕ) → Earlier departs pages target p → Absent p
  Earlier-Absent p h = All-map (pages p).bookings (λ b lt at. absurd (omega arith)) h

  pub Later-Absent : (p : ℕ) → Later departs pages target p → Absent p
  Later-Absent p h = All-map (pages p).bookings (λ b lt at. absurd (omega arith)) h

  -- The page's rows begin no later than the target and end no earlier.
  abbrev pub Spans : ℕ → Type 0
  Spans p =
      (b : TicketListBooking) × (bs : List TicketListBooking) × ((pages p).bookings ≡ b ∷ bs)
      × (departs b ≤ target)
      × (target ≤ departs (last_of b bs))

  abbrev pub Placed : ℕ → Type 0
  Placed hit =
      ((hit ≡ 0) × ((p : ℕ) → 1 ≤ p → p ≤ (pages 1).total_page → Absent p))
      ⊎ ((1 ≤ hit) × Spans hit)

  -- What the side of a page tells of the others.
  abbrev Tells : ℕ → Side → Type 0
  Tells mid before = (p : ℕ) → mid ≤ p → Later departs pages target p
  Tells mid after = (p : ℕ) → p ≤ mid → Earlier departs pages target p
  Tells mid within = Spans mid

  page_side-Tells :
      (mid : ℕ) (side : Side)
      → page_side parse target mid (pages mid).bookings ≡ ok side
      → Tells mid side
  page_side-Tells mid side told =
      let (b, bs, rows) = page_side_nonempty parse target direction passport mid _ side told in
      let (lo, hi, first, last, is_before, is_after, is_within) =
        page_side_read parse target direction passport mid b bs side
          (subst (λ l. page_side parse target mid l ≡ ok side) rows told) in
      tell b bs rows side (truth b lo first) (truth (last_of b bs) hi last) is_before is_after
        is_within
    where
      tell :
          (b : TicketListBooking) (bs : List TicketListBooking)
          → (pages mid).bookings ≡ b ∷ bs
          → (s : Side) {lo hi : ℕ} → departs b ≡ lo
          → departs (last_of b bs) ≡ hi
          → (s ≡ before → target < lo)
          → (s ≡ after → hi < target)
          → (s ≡ within → (lo ≤ target) × (target ≤ hi))
          → Tells mid s
      tell b bs rows before el eh is_before is_after is_within =
          first-Later departs pages sorted target mid b bs rows (omega (arith, el, is_before refl))
      tell b bs rows after el eh is_before is_after is_within =
          last-Earlier departs pages sorted target mid b bs rows (omega (arith, eh, is_after refl))
      tell b bs rows within el eh is_before is_after is_within =
          (b, bs, rows, omega (arith, el, is_within refl), omega (arith, eh, is_within refl))

  narrowed :
      (mid : ℕ) (side : Side) (lower upper : Prog W ScanError ℕ) (w₁ w' : W) (hit lo hi : ℕ)
      → 1 ≤ mid
      → Tells mid side
      → Narrows parse fetch target (pages 1) mid side lower upper w₁ hit w'
      → ((p : ℕ) → 1 ≤ p → p < lo → Earlier departs pages target p)
      → ((p : ℕ) → hi < p → p ≤ (pages 1).total_page → Later departs pages target p)
      → (lower w₁ ≡ (ok hit, w')
          → ((p : ℕ) → mid - 1 < p → p ≤ (pages 1).total_page → Later departs pages target p)
          → Placed hit)
      → (upper w₁ ≡ (ok hit, w')
          → ((p : ℕ) → 1 ≤ p → p < mid + 1 → Earlier departs pages target p)
          → Placed hit)
      → Placed hit
  narrowed mid before lower upper w₁ w' hit lo hi pos tells d low high on_lower on_upper =
      on_lower d (λ p gt le. tells p (omega arith))
  narrowed mid after lower upper w₁ w' hit lo hi pos tells d low high on_lower on_upper =
      on_upper d (λ p one lt. tells p (omega arith))
  narrowed mid within lower upper w₁ w' hit lo hi pos tells d low high on_lower on_upper =
      subst Placed (sym d) (inr (pos, tells))

  pub bisect-Placed :
      (fuel lo hi : ℕ) (w w' : W) (hit : ℕ)
      → bisect parse fetch target (pages 1) fuel lo hi w ≡ (ok hit, w')
      → 1 ≤ lo
      → ((p : ℕ) → 1 ≤ p → p < lo → Earlier departs pages target p)
      → ((p : ℕ) → hi < p → p ≤ (pages 1).total_page → Later departs pages target p)
      → Placed hit
  unfolding bisect
  bisect-Placed zero lo hi w w' hit h pos low high = cc
  bisect-Placed (suc fuel) lo hi w w' hit h pos low high = elim (Bool-cases (ltb hi lo)) [
    | inl crossed ↦ inl (
      ground arith,
      λ p one le. elim (dec_lt p lo) [
        | yes lt ↦ Earlier-Absent p (low p one lt)
        | no ge ↦ Later-Absent p (high p (ground arith) le)
      ],
    )
    | inr open' ↦
        let mid = (lo + hi) / 2 in
        let (page, w₁, side, got, told, d) =
          probe-ok parse fetch target (pages 1) mid
            (bisect parse fetch target (pages 1) fuel lo (mid - 1))
            (bisect parse fetch target (pages 1) fuel (mid + 1) hi) w w' hit
            (rw (bisect, open') at h) in
        let tells = page_side-Tells mid side (
          subst (λ l. page_side parse target mid l.bookings ≡ ok side) (got_page mid w w₁ page got)
            told) in
        narrowed mid side (bisect parse fetch target (pages 1) fuel lo (mid - 1))
          (bisect parse fetch target (pages 1) fuel (mid + 1) hi) w₁ w' hit lo hi (ground arith)
          tells d low high (λ e above. bisect-Placed fuel lo (mid - 1) w₁ w' hit e pos low above)
          (λ e below. bisect-Placed fuel (mid + 1) hi w₁ w' hit e (omega arith) below high)
  ]
