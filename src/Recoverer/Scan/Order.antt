-- ===== src/Recoverer/Scan/Order.antt =====
-- A list of pages in ascending order of departure, and where a page that was probed or walked over
-- places the rows of the others.
use nitroso_tin.Base.{
  ℕ, ◌≤◌, ◌<◌, List, [], ◌∷◌, ◌≡◌, subst, sym, arith, dec_lt, All, All-map, last_of,
}
use nitroso_tin.Ktmb.{TicketListBooking, TicketList}

module _ (departs : TicketListBooking → ℕ) where
  abbrev pub Ordered : List TicketListBooking → Type 0
  Ordered [] = Unit
  Ordered (b ∷ bs) = All (λ r. departs b ≤ departs r) bs × Ordered bs

  -- Every row of a page departs no later than every row of a later page.
  pub record Ascending (pages : ℕ → TicketList) : Type 0 where
    pub inside : (p : ℕ) → Ordered (pages p).bookings
    pub across :
        (p q : ℕ)
        → p < q
        → All (λ a. All (λ b. departs a ≤ departs b) (pages q).bookings) (pages p).bookings

  pub All-last :
      (P : TicketListBooking → Type 0) (b : TicketListBooking) (bs : List TicketListBooking)
      → All P (b ∷ bs)
      → P (last_of b bs)
  All-last P b [] h = h.0
  All-last P b (c ∷ bs) h = All-last P c bs h.1

  Ordered-last :
      (b : TicketListBooking) (bs : List TicketListBooking)
      → Ordered (b ∷ bs)
      → All (λ r. departs r ≤ departs (last_of b bs)) (b ∷ bs)
  Ordered-last b [] h = (omega arith, tt)
  Ordered-last b (c ∷ bs) h =
      let rest = Ordered-last c bs h.1 in (omega (arith, rest.0, h.0.0), rest)

  abbrev pub Earlier : (ℕ → TicketList) → ℕ → ℕ → Type 0
  Earlier pages t p = All (λ r. departs r < t) (pages p).bookings

  abbrev pub Later : (ℕ → TicketList) → ℕ → ℕ → Type 0
  Later pages t p = All (λ r. t < departs r) (pages p).bookings

  module _ (pages : ℕ → TicketList) (sorted : Ascending pages) (t : ℕ) where
    -- A page that begins after `t` places itself and all that follow.
    pub first-Later :
        (m : ℕ) (b : TicketListBooking) (bs : List TicketListBooking)
        → (pages m).bookings ≡ b ∷ bs
        → t < departs b
        → (p : ℕ) → m ≤ p
        → Later pages t p
    first-Later m b bs e h p le = elim (dec_lt m p) [
      | yes lt ↦
          All-map (pages p).bookings (λ r row. omega (arith, row))
            (subst (λ rows. All (λ a. All (λ c. departs a ≤ departs c) (pages p).bookings) rows) e
              (sorted.across m p lt)).0
      | no ge ↦
          let same : m ≡ p = omega arith in
          let rows = subst Ordered e (sorted.inside m) in
          subst (Later pages t) same (
            subst (All (λ r. t < departs r)) (sym e)
              (h, All-map bs (λ r row. omega (arith, row)) rows.0))
    ]

    -- A page that ends before `t` places itself and all that precede.
    pub last-Earlier :
        (m : ℕ) (b : TicketListBooking) (bs : List TicketListBooking)
        → (pages m).bookings ≡ b ∷ bs
        → departs (last_of b bs) < t
        → (p : ℕ) → p ≤ m
        → Earlier pages t p
    last-Earlier m b bs e h p le = elim (dec_lt p m) [
      | yes lt ↦
          All-map (pages p).bookings
            (λ r row. omega (arith, All-last (λ c. departs r ≤ departs c) b bs row))
            (subst (λ rows. All (λ a. All (λ c. departs a ≤ departs c) rows) (pages p).bookings) e
              (sorted.across p m lt))
      | no ge ↦
          let same : m ≡ p = omega arith in
          let rows = subst Ordered e (sorted.inside m) in
          subst (Earlier pages t) same (
            subst (All (λ r. departs r < t)) (sym e)
              (All-map (b ∷ bs) (λ r row. omega (arith, row)) (Ordered-last b bs rows)))
    ]

    pub first-Earlier :
        (m : ℕ) (b : TicketListBooking) (bs : List TicketListBooking)
        → (pages m).bookings ≡ b ∷ bs
        → departs b < t
        → (p : ℕ) → p < m
        → Earlier pages t p
    first-Earlier m b bs e h p lt =
        All-map (pages p).bookings (λ r row. omega (arith, row.0))
          (subst (λ rows. All (λ a. All (λ c. departs a ≤ departs c) rows) (pages p).bookings) e
            (sorted.across p m lt))
