-- ===== src/Recoverer/Scan/Rows.antt =====
-- What the verdicts on one row and on the rows of one page mean.
use nitroso_tin.Base.{
  ℕ, String, false, Option, none, some, List, [], ◌∷◌, ◌≡◌, refl, inl, inr, arith, ◌==◌, All, Any,
  ok, eq_iff, Option-cases, Bool-cases,
}
use nitroso_tin.Ktmb.{TicketListBooking, TicketList}
use nitroso_tin.Recoverer.Scan.{
  FoundTicket, ScanError, RowVerdict, skipped, ambiguous, ours, confirm, depart_of, row_verdict,
  match_rows, match_page, contains_rows, page_contains_datetime, ticket_for_passport,
  classify_direction,
}

module _ (parse : String → Option ℕ) (target : ℕ) (direction passport : String) where
  -- The row is the passport's ticket at the target departure, in the target direction.
  pub record IsOurs (f : FoundTicket) (b : TicketListBooking) : Type 0 where
    pub at_target : depart_of parse b ≡ some target
    pub holds : ticket_for_passport b passport ≡ some f.ticket_no
    pub heading : classify_direction b.from_station_name ≡ some direction
    pub number : b.booking_no ≡ f.booking_no

  -- The row was read, and is no ticket of the passport at the target departure.
  abbrev pub Cleared : TicketListBooking → Type 0
  Cleared b =
      (dt : ℕ) × (depart_of parse b ≡ some dt)
      × (dt ≡ target → ticket_for_passport b passport ≡ none)

  -- The row was read, and departs at another time.
  abbrev pub Elsewhen : TicketListBooking → Type 0
  Elsewhen b = (dt : ℕ) × (depart_of parse b ≡ some dt) × (dt ≡ target → ⊥)

  confirm-ours :
      (b : TicketListBooking) (no' : String) (f : FoundTicket)
      → confirm parse target direction b no' ≡ ours f
      → (classify_direction b.from_station_name ≡ some direction)
        × (b.booking_no ≡ f.booking_no)
        × (no' ≡ f.ticket_no)
  unfolding confirm
  confirm-ours b no' f h = elim (Option-cases (classify_direction b.from_station_name)) [
    | inl e ↦ ground arith
    | inr (dir, e) ↦ ground (arith, eq_iff dir direction)
  ]

  confirm-ne-skipped :
      (b : TicketListBooking) (no' : String) → confirm parse target direction b no' ≡ skipped → ⊥
  unfolding confirm
  confirm-ne-skipped b no' h = ground arith

  pub row_verdict-ours :
      (b : TicketListBooking) (f : FoundTicket)
      → row_verdict parse target direction passport b ≡ ours f
      → IsOurs f b
  unfolding row_verdict
  row_verdict-ours b f h = elim (Option-cases (depart_of parse b)) [
    | inl e ↦ ground arith
    | inr (dt, e) ↦ elim (Option-cases (ticket_for_passport b passport)) [
      | inl e' ↦ ground arith
      | inr (ticket_no, e') ↦ ground (arith, confirm-ours b ticket_no f)
    ]
  ]

  pub row_verdict-skipped :
      (b : TicketListBooking) → row_verdict parse target direction passport b ≡ skipped → Cleared b
  unfolding row_verdict
  row_verdict-skipped b h = elim (Option-cases (depart_of parse b)) [
    | inl e ↦ ground arith
    | inr (dt, e) ↦ elim (Option-cases (ticket_for_passport b passport)) [
      | inl e' ↦ (dt, e, λ _. e')
      | inr (ticket_no, e') ↦ (dt, e, ground (arith, confirm-ne-skipped b ticket_no))
    ]
  ]

  match_rows-found :
      (bs : List TicketListBooking) (bad : Option ScanError) (f : FoundTicket)
      → match_rows parse target direction passport bs bad ≡ ok (some f)
      → Any (IsOurs f) bs
  unfolding match_rows
  match_rows-found [] none f h = cc
  match_rows-found [] (some e) f h = cc
  match_rows-found (b ∷ bs) bad f h =
      by_verdict (row_verdict parse target direction passport b) refl
        (λ bad' h'. inr (match_rows-found bs bad' f h'))
    where
      by_verdict :
          (v : RowVerdict)
          → row_verdict parse target direction passport b ≡ v
          → ((bad' : Option ScanError)
              → match_rows parse target direction passport bs bad' ≡ ok (some f)
              → Any (IsOurs f) (b ∷ bs))
          → Any (IsOurs f) (b ∷ bs)
      by_verdict skipped e later = later bad (ground arith)
      by_verdict (ambiguous a) e later = later (some a) (ground arith)
      by_verdict (ours g) e later = inl (row_verdict-ours b f (ground arith))

  -- Only a page whose every row was read and cleared is definitively without the ticket.
  match_rows-absent :
      (bs : List TicketListBooking) (bad : Option ScanError)
      → match_rows parse target direction passport bs bad ≡ ok none
      → (bad ≡ none) × All Cleared bs
  unfolding match_rows
  match_rows-absent [] none h = (refl, tt)
  match_rows-absent [] (some e) h = cc
  match_rows-absent (b ∷ bs) bad h =
      by_verdict (row_verdict parse target direction passport b) refl
        (λ bad' h'. match_rows-absent bs bad' h')
    where
      by_verdict :
          (v : RowVerdict)
          → row_verdict parse target direction passport b ≡ v
          → ((bad' : Option ScanError)
              → match_rows parse target direction passport bs bad' ≡ ok none
              → (bad' ≡ none) × All Cleared bs)
          → (bad ≡ none) × All Cleared (b ∷ bs)
      by_verdict skipped e later =
          let (clean, rest) = later bad (ground arith) in (clean, (row_verdict-skipped b e, rest))
      by_verdict (ambiguous a) e later = absurd (cc (later (some a) (ground arith)).0)
      by_verdict (ours g) e later = absurd (ground arith)

  pub match_page-found :
      (page : TicketList) (f : FoundTicket)
      → match_page parse target direction passport page ≡ ok (some f)
      → Any (IsOurs f) page.bookings
  unfolding match_page
  match_page-found page f h = match_rows-found page.bookings none f h

  pub match_page-absent :
      (page : TicketList)
      → match_page parse target direction passport page ≡ ok none
      → All Cleared page.bookings
  unfolding match_page
  match_page-absent page h = (match_rows-absent page.bookings none h).1

  contains_rows-false :
      (bs : List TicketListBooking) (bad : Option ScanError)
      → contains_rows parse target bs bad ≡ ok false
      → (bad ≡ none) × All Elsewhen bs
  unfolding contains_rows
  contains_rows-false [] none h = (refl, tt)
  contains_rows-false [] (some e) h = cc
  contains_rows-false (b ∷ bs) bad h = elim (Option-cases (depart_of parse b)) [
    | inl e ↦
        absurd
          (cc (contains_rows-false bs (some (ScanError.unparseable b.booking_no)) (ground arith)).0)
    | inr (dt, e) ↦ elim (Bool-cases (dt == target)) [
      | inl at ↦ ground arith
      | inr off ↦
          let (clean, rest) = contains_rows-false bs bad (ground arith) in
          (clean, ((dt, e, ground arith), rest))
    ]
  ]

  pub page_contains_datetime-false :
      (page : TicketList)
      → page_contains_datetime parse target page ≡ ok false
      → All Elsewhen page.bookings
  unfolding page_contains_datetime
  page_contains_datetime-false page h = (contains_rows-false page.bookings none h).1
