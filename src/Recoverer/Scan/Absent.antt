-- ===== src/Recoverer/Scan/Absent.antt =====
-- A scan that ends with no ticket has ruled out every row of the list, the pages that it never
-- fetched included.
use nitroso_tin.Base.{
  ℕ, zero, suc, ◌+◌, ◌-◌, ◌≤◌, ◌<◌, String, Option, none, some, List, [], ◌∷◌, ◌≡◌, refl, ap, sym,
  ◌∙◌, subst, ◌⊎◌, ◌≢◌, inl, inr, arith, dec_lt, dec_le, ◌==◌, ◌||◌, is_empty, All, Prog, Result,
  ok, bind_result-ok, Bool-cases,
}
use nitroso_tin.Ktmb.{KtmbError, TicketListBooking, TicketList}
use nitroso_tin.Recoverer.Scan.{
  fuel_for, FoundTicket, ScanError, Verdict, seen, continues, ends, depart_of, ticket_for_passport,
  requested, bisect, visit, scan_left, scan_right, scan_around, either_side, find_in,
  find_ticket_in,
}
use nitroso_tin.Recoverer.Scan.Rows.{Elsewhen}
use nitroso_tin.Recoverer.Scan.Pages.{Promise, inspect-Promise}
use nitroso_tin.Recoverer.Scan.Order.{Ascending, All-last, first-Later, first-Earlier}
use nitroso_tin.Recoverer.Scan.Placed
use nitroso_tin.Recoverer.Scan.Steps.{requested-ok, Decides, visit-ok}

module _ (parse : String → Option ℕ) {W : Type 0} (fetch : W → ℕ → Result KtmbError TicketList × W)
    (target : ℕ) (direction passport : String) (pages : ℕ → TicketList)
    (departs : TicketListBooking → ℕ)
    (truth : (b : TicketListBooking) (dt : ℕ) → depart_of parse b ≡ some dt → departs b ≡ dt)
    (sorted : Ascending departs pages)
    (stable : (w : W) (n : ℕ) → (fetch w n).0 ≡ ok (pages n)) where
  abbrev Absent : ℕ → Type 0
  Absent = Placed.Absent parse fetch target direction passport pages departs truth sorted stable

  module _ (next : Prog W ScanError (Option FoundTicket)) (number : ℕ) (w w' : W) where
    -- A visit that leads to no ticket clears its page, and goes on or is at the end of the rows.
    visit-Absent :
        visit parse fetch target direction passport (pages 1) number next w ≡ (ok none, w')
        → Absent number
          × (((w₁ : W) × (next w₁ ≡ (ok none, w')))
              ⊎ ((b : TicketListBooking) × (bs : List TicketListBooking) × ((pages number).bookings
                    ≡ b ∷ bs)
                  × (departs b ≢ target)))
    visit-Absent h =
        let (page, w₁, v, got, told, d) =
          visit-ok parse fetch target direction passport (pages 1) number next w w' none h in
        decide v w₁
          (subst (λ l. Promise parse target direction passport v l.bookings)
            (Placed.got_page parse fetch target direction passport pages departs truth sorted stable
              number w w₁ page got)
            (inspect-Promise parse target direction passport number page v told))
          d
      where
        begins :
            (rows : List TicketListBooking)
            → (pages number).bookings ≡ rows
            → All (Elsewhen parse target direction passport) rows
            → (rows ≡ [] → ⊥)
            → (b : TicketListBooking) × (bs : List TicketListBooking) × ((pages number).bookings
                ≡ b ∷ bs)
              × (departs b ≢ target)
        begins [] e away ne = absurd (ne refl)
        begins (b ∷ bs) e away ne =
            (b, bs, e, λ at. away.0.2 (sym (truth b away.0.0 away.0.1) ∙ at))

        decide :
            (v : Verdict) (w₁ : W)
            → Promise parse target direction passport v (pages number).bookings
            → Decides parse fetch target direction passport (pages 1) v next w₁ none w'
            → Absent number
              × (((w₁ : W) × (next w₁ ≡ (ok none, w')))
                  ⊎ ((b : TicketListBooking) × (bs : List TicketListBooking) × ((pages
                          number).bookings
                        ≡ b ∷ bs)
                      × (departs b ≢ target)))
        decide (seen f) w₁ promise d = cc
        decide continues w₁ promise d = (
          Placed.Cleared-Absent parse fetch target direction passport pages departs truth sorted
              stable number promise,
          inl (w₁, d),
        )
        decide ends w₁ promise d = (
          Placed.Cleared-Absent parse fetch target direction passport pages departs truth sorted
              stable number promise.0,
          inr (begins _ refl promise.1 promise.2),
        )

  -- The first row of the page departs no later, or no earlier, than the target.
  abbrev Begun : ℕ → Type 0
  Begun p =
      (b : TicketListBooking) (bs : List TicketListBooking)
      → (pages p).bookings ≡ b ∷ bs
      → departs b ≤ target

  abbrev Due : ℕ → Type 0
  Due p =
      (b : TicketListBooking) (bs : List TicketListBooking)
      → (pages p).bookings ≡ b ∷ bs
      → target ≤ departs b

  scan_left-Absent :
      (k : ℕ) (w w' : W)
      → scan_left parse fetch target direction passport (pages 1) k w ≡ (ok none, w')
      → ((p : ℕ) → 1 ≤ p → p ≤ k → Begun p)
      → (p : ℕ) → 1 ≤ p
      → p ≤ k
      → Absent p
  unfolding scan_left
  scan_left-Absent zero w w' h begun p one le = absurd (omega arith)
  scan_left-Absent (suc k) w w' h begun p one le =
      let (here, more) =
        visit-Absent (scan_left parse fetch target direction passport (pages 1) k) (suc k) w w' h in
      elim (dec_le p k) [
        | no gt ↦ let same : suc k ≡ p = omega arith in subst Absent same here
        | yes le' ↦ elim more [
          | inl (w₁, e) ↦ scan_left-Absent k w₁ w' e (λ q q1 qk. begun q q1 (omega arith)) p one le'
          | inr (b, bs, rows, ne) ↦
              let at_most = begun (suc k) (omega arith) (omega arith) b bs rows in
              Placed.Earlier-Absent parse fetch target direction passport pages departs truth sorted
                stable p
                (first-Earlier departs pages sorted target (suc k) b bs rows (omega arith) p
                  (omega arith))
        ]
      ]

  scan_right-Absent :
      (left k : ℕ) (w w' : W)
      → scan_right parse fetch target direction passport (pages 1) left k w ≡ (ok none, w')
      → ((p : ℕ) → k ≤ p → Due p)
      → (p : ℕ) → k ≤ p
      → p < k + left
      → Absent p
  unfolding scan_right
  scan_right-Absent zero k w w' h due p ge lt = absurd (omega arith)
  scan_right-Absent (suc left) k w w' h due p ge lt =
      let (here, more) =
        visit-Absent (scan_right parse fetch target direction passport (pages 1) left (k + 1)) k w
          w' h in
      elim (dec_le p k) [
        | yes le ↦ let same : k ≡ p = omega arith in subst Absent same here
        | no gt ↦ elim more [
          | inl (w₁, e) ↦
              scan_right-Absent left (k + 1) w₁ w' e (λ q qk. due q (omega arith)) p (omega arith)
                (omega arith)
          | inr (b, bs, rows, ne) ↦
              let at_least = due k (omega arith) b bs rows in
              Placed.Later-Absent parse fetch target direction passport pages departs truth sorted
                stable p
                (first-Later departs pages sorted target k b bs rows (omega arith) p (omega arith))
        ]
      ]

  Spans-Begun :
      (hit : ℕ)
      → Placed.Spans parse fetch target direction passport pages departs truth sorted stable hit
      → (p : ℕ) → p ≤ hit
      → Begun p
  Spans-Begun hit (c, cs, rows, at_most, at_least) p le b bs e = elim (dec_lt p hit) [
    | no ge ↦
        let same : hit ≡ p = omega arith in
        let alike : c ∷ cs ≡ b ∷ bs = sym rows ∙ ap (λ q. (pages q).bookings) same ∙ e in
        let first : c ≡ b = cc in omega (arith, ap departs first)
    | yes lt ↦
        let across =
          subst (λ l. All (λ a. All (λ r. departs a ≤ departs r) (pages hit).bookings) l) e
            (sorted.across p hit lt) in
        let row = subst (All (λ r. departs b ≤ departs r)) rows across.0 in omega (arith, row.0)
  ]

  Spans-Due :
      (hit : ℕ)
      → Placed.Spans parse fetch target direction passport pages departs truth sorted stable hit
      → (p : ℕ) → hit < p
      → Due p
  Spans-Due hit (c, cs, rows, at_most, at_least) p lt b bs e =
      let across =
        subst (λ l. All (λ a. All (λ r. departs a ≤ departs r) l) (pages hit).bookings) e
          (sorted.across hit p lt) in
      let last =
        All-last departs (λ a. All (λ r. departs a ≤ departs r) (b ∷ bs)) c cs
          (subst (All (λ a. All (λ r. departs a ≤ departs r) (b ∷ bs))) rows across) in
      omega (arith, last.0)

  scan_around-Absent :
      (hit : ℕ) (w w' : W)
      → scan_around parse fetch target direction passport (pages 1) hit w ≡ (ok none, w')
      → Placed.Placed parse fetch target direction passport pages departs truth sorted stable hit
      → (p : ℕ) → 1 ≤ p
      → p ≤ (pages 1).total_page
      → Absent p
  unfolding scan_around
  scan_around-Absent zero w w' h (inl (_, all)) p one le = all p one le
  scan_around-Absent zero w w' h (inr (pos, _)) p one le = absurd (omega arith)
  scan_around-Absent (suc hit) w w' h (inl (none_hit, _)) p one le = absurd (omega arith)
  scan_around-Absent (suc hit) w w' h (inr (_, spans)) p one le =
      let (found, w₁, left, rest) =
        bind_result-ok (scan_left parse fetch target direction passport (pages 1) (suc hit) w) _
          h in
      on_side found w₁ left rest
    where
      on_side :
          (found : Option FoundTicket) (w₁ : W)
          → scan_left parse fetch target direction passport (pages 1) (suc hit) w ≡ (ok found, w₁)
          → either_side parse fetch target direction passport
              (pages 1)
              found
              (scan_right parse fetch target direction passport
                (pages 1)
                ((pages 1).total_page - suc hit)
                (suc hit + 1))
              w₁
            ≡ (ok none, w')
          → Absent p
      on_side (some f) w₁ left rest = cc
      on_side none w₁ left rest = elim (dec_le p (suc hit)) [
        | yes near ↦
            scan_left-Absent (suc hit) w w₁ left (λ q q1 qh. Spans-Begun (suc hit) spans q qh) p one
              near
        | no far ↦
            scan_right-Absent _ (suc hit + 1) w₁ w' rest
              (λ q qh. Spans-Due (suc hit) spans q (omega arith)) p (omega arith) (omega arith)
      ]

  find_in-Absent :
      (w w' : W)
      → find_in parse fetch target direction passport (pages 1) w ≡ (ok none, w')
      → (p : ℕ) → 1 ≤ p
      → p ≤ (pages 1).total_page
      → Absent p
  unfolding find_in
  find_in-Absent w w' h p one le =
      elim (Bool-cases ((pages 1).total_page == 0 || is_empty (pages 1).bookings)) [
        | inl blank ↦ absurd (ground arith)
        | inr rows ↦
            let (hit, w₁, found, rest) =
              bind_result-ok
                (bisect parse fetch target (pages 1) (fuel_for (pages 1).total_page) 1
                  (pages 1).total_page w)
                _ (rw (find_in, rows) at h) in
            scan_around-Absent hit w₁ w' rest
              (Placed.bisect-Placed parse fetch target direction passport pages departs truth sorted
                stable _ 1 _ w w₁ hit found (omega arith) (λ q q1 lt. absurd (omega arith))
                (λ q gt le'. absurd (omega arith)))
              p one le
      ]

  -- If the list stays as it is during the scan and is ascending by departure, and the scan ends with
  -- no ticket and no error, then no row of any of the list's pages, fetched or not, is a ticket of
  -- the passport at the target departure, in either direction.
  pub find_ticket_in-Absent :
      (w w' : W)
      → find_ticket_in parse fetch target direction passport w ≡ (ok none, w')
      → (p : ℕ) → 1 ≤ p
      → p ≤ (pages 1).total_page
      → All (λ b. departs b ≡ target → ticket_for_passport b passport ≡ none) (pages p).bookings
  unfolding find_ticket_in
  find_ticket_in-Absent w w' h p one le =
      let (first, w₁, got, rest) = bind_result-ok (requested parse fetch (fetch w 1)) _ h in
      let got' = requested-ok parse fetch (fetch w 1) first w₁ got in
      let same : first ≡ pages 1 = ground (arith, stable w 1) in
      find_in-Absent w₁ w'
        (subst (λ f. find_in parse fetch target direction passport f w₁ ≡ (ok none, w')) same rest)
        p one le
