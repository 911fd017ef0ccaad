-- ===== src/Recoverer/Scan/Pages.antt =====
-- What one page's answer means: the body of the two walks, and the side test of the bisection.
use nitroso_tin.Base.{
  ℕ, ◌<◌, ◌≤◌, String, Bool, true, false, Option, none, some, List, [], ◌∷◌, ◌≡◌, refl, inl, inr,
  arith, All, Any, Result, ok, err, last_of, Option-cases,
}
use nitroso_tin.Ktmb.{TicketListBooking, TicketList}
use nitroso_tin.Recoverer.Scan.{
  FoundTicket, ScanError, Verdict, seen, continues, ends, Side, before, within, after, depart_of,
  match_page, page_contains_datetime, page_side, after_match, inspect,
}
use nitroso_tin.Recoverer.Scan.Rows.{
  IsOurs, Cleared, Elsewhen, match_page-found, match_page-absent, page_contains_datetime-false,
}

module _ (parse : String → Option ℕ) (target : ℕ) (direction passport : String) where
  -- What a verdict promises of the page.
  abbrev pub Promise : Verdict → List TicketListBooking → Type 0
  Promise (seen f) bs = Any (IsOurs parse target direction passport f) bs
  Promise continues bs = All (Cleared parse target direction passport) bs
  Promise ends bs =
      All (Cleared parse target direction passport) bs
      × All (Elsewhen parse target direction passport) bs
      × ((bs ≡ []) → ⊥)

  rows_read :
      (page : TicketList)
      → (page.bookings ≡ [] → ⊥)
      → match_page parse target direction passport page ≡ ok none
      → (r : Result ScanError Bool) → page_contains_datetime parse target page ≡ r
      → (v : Verdict) → after_match parse target page none ≡ ok v
      → Promise v page.bookings
  unfolding after_match
  rows_read page ne m (err x) e v h = absurd (ground arith)
  rows_read page ne m (ok true) e continues h =
      match_page-absent parse target direction passport page m
  rows_read page ne m (ok true) e ends h = absurd (ground arith)
  rows_read page ne m (ok true) e (seen f) h = absurd (ground arith)
  rows_read page ne m (ok false) e ends h = (
    match_page-absent parse target direction passport page m,
    page_contains_datetime-false parse target direction passport page e,
    ne,
  )
  rows_read page ne m (ok false) e continues h = absurd (ground arith)
  rows_read page ne m (ok false) e (seen f) h = absurd (ground arith)

  after_match-Promise :
      (page : TicketList) (found : Option FoundTicket) (v : Verdict)
      → (page.bookings ≡ [] → ⊥)
      → match_page parse target direction passport page ≡ ok found
      → after_match parse target page found ≡ ok v
      → Promise v page.bookings
  after_match-Promise page none v ne m h =
      rows_read page ne m (page_contains_datetime parse target page) refl v h
  after_match-Promise page (some f) (seen g) ne m h =
      match_page-found parse target direction passport page g (unfold after_match in ground arith)
  after_match-Promise page (some f) continues ne m h = absurd (unfold after_match in cc h)
  after_match-Promise page (some f) ends ne m h = absurd (unfold after_match in cc h)

  pub inspect-Promise :
      (number : ℕ) (page : TicketList) (v : Verdict)
      → inspect parse target direction passport number page ≡ ok v
      → Promise v page.bookings
  unfolding inspect
  inspect-Promise number page v h = by_match (match_page parse target direction passport page) refl
    where
      nonempty : page.bookings ≡ [] → ⊥
      nonempty e = ground arith

      by_match :
          (r : Result ScanError (Option FoundTicket))
          → match_page parse target direction passport page ≡ r
          → Promise v page.bookings
      by_match (err x) e = absurd (ground arith)
      by_match (ok found) e = after_match-Promise page found v nonempty e (ground arith)

  -- The side is told by the page's first and last rows.
  pub page_side_read :
      (number : ℕ) (b : TicketListBooking) (bs : List TicketListBooking) (side : Side)
      → page_side parse target number (b ∷ bs) ≡ ok side
      → (lo hi : ℕ) × (depart_of parse b ≡ some lo)
        × (depart_of parse (last_of b bs) ≡ some hi)
        × (side ≡ before → target < lo)
        × (side ≡ after → hi < target)
        × (side ≡ within → (lo ≤ target) × (target ≤ hi))
  unfolding page_side
  page_side_read number b bs side h = elim (Option-cases (depart_of parse b)) [
    | inl e ↦ ground arith
    | inr (lo, e) ↦ elim (Option-cases (depart_of parse (last_of b bs))) [
      | inl e' ↦ ground arith
      | inr (hi, e') ↦ (lo, hi, e, e', ground arith, ground arith, ground arith)
    ]
  ]

  pub page_side_nonempty :
      (number : ℕ) (rows : List TicketListBooking) (side : Side)
      → page_side parse target number rows ≡ ok side
      → (b : TicketListBooking) × (bs : List TicketListBooking) × (rows ≡ b ∷ bs)
  unfolding page_side
  page_side_nonempty number [] side h = cc
  page_side_nonempty number (b ∷ bs) side h = (b, bs, refl)
