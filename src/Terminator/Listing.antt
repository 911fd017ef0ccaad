-- ===== src/Terminator/Listing.antt =====
-- `find` pages through the ticket list: it agrees with one search of the whole list.
use nitroso_tin.Base.{
  ℕ, zero, suc, ◌+◌, ◌-◌, ◌<◌, ◌≤◌, String, Option, none, some, List, [], ◌∷◌, ◌++◌, ◌≡◌, refl,
  arith, inl, inr, ok, or_else, str_eq, Bool-cases, Option-cases, dec_lt, ap,
}
use nitroso_tin.Ktmb.{TicketListBooking, TicketList}
use nitroso_tin.Terminator.{
  Call, list_page, not_found, Env, accepted, ticket_data_of, locate, list, on_page, find,
}

-- A booking that is not on one page is looked for on the next.
abbrev pub first_of : {A : Type 0} → Option A → Option A → Option A
first_of none o = o
first_of (some a) o = some a

locate-append :
    (b t : String) (xs ys : List TicketListBooking)
    → locate b t (xs ++ ys) ≡ first_of (locate b t xs) (locate b t ys)
unfolding locate
locate-append b t [] ys = refl
locate-append b t (x ∷ xs) ys = elim (Bool-cases (str_eq x.booking_no b)) [
  | inr other ↦ ground (arith, locate-append b t xs ys)
  | inl same ↦ elim (Option-cases (ticket_data_of t x.trips)) [
    | inl e ↦ ground (arith, locate-append b t xs ys)
    | inr (d, e) ↦ ground arith
  ]
]

-- The rows of `count` pages from `page` on.
abbrev pub rows_from : (ℕ → TicketList) → ℕ → ℕ → List TicketListBooking
rows_from pages page zero = []
rows_from pages page (suc count) = (pages page).bookings ++ rows_from pages (page + 1) count

module _ {Amount : Type 0} (env : Env Amount) (cred booking_no ticket_no : String)
    (pages : ℕ → TicketList) (last : ℕ)
    (stable : (h : List (Call Amount)) (n : ℕ) → accepted (env.on_list h cred n) ≡ ok (pages n))
    (counted : (n : ℕ) → (pages n).total_page ≡ last) where
  find_from :
      (fuel page : ℕ) (h : List (Call Amount))
      → last - page < fuel
      → (find env fuel cred booking_no ticket_no page h).0
        ≡ or_else (locate booking_no ticket_no (rows_from pages page (suc (last - page)))) not_found
  unfolding find list on_page
  find_from zero page h lt = absurd (omega arith)
  find_from (suc fuel) page h lt =
      let got = stable h page in
      let count = counted page in
      let split =
        locate-append booking_no ticket_no (pages page).bookings
          (rows_from pages (page + 1) (last - page)) in
      elim (Option-cases (locate booking_no ticket_no (pages page).bookings)) [
        | inr (d, e) ↦ ground (arith, got, count, split)
        | inl e ↦ elim (dec_lt page last) [
          | yes more ↦
              let step : last - page ≡ suc (last - (page + 1)) = omega arith in
              ground (
                arith,
                got,
                count,
                split,
                step,
                ap (rows_from pages (page + 1)) step,
                find_from fuel (page + 1) (list_page page ∷ h) (omega arith),
              )
          | no end ↦
              let step : last - page ≡ 0 = omega arith in
              let blank : locate booking_no ticket_no [] ≡ none = unfold locate in refl in
              ground (arith, blank, got, count, split, step, ap (rows_from pages (page + 1)) step)
        ]
      ]

-- If the list stays as it is during the search and every page states the same number of pages, then
-- `find` from page 1, with fuel for these pages, never runs out of fuel: it returns what one search
-- of all the pages' rows in a row finds, and an error exactly where that search finds nothing.
pub find-locate :
    {Amount : Type 0} (env : Env Amount) (cred booking_no ticket_no : String)
    (pages : ℕ → TicketList) (last : ℕ)
    → ((h : List (Call Amount)) (n : ℕ) → accepted (env.on_list h cred n) ≡ ok (pages n))
    → ((n : ℕ) → (pages n).total_page ≡ last)
    → (fuel : ℕ) (h : List (Call Amount)) → last ≤ fuel
    → 1 ≤ fuel
    → (find env fuel cred booking_no ticket_no 1 h).0
      ≡ or_else (locate booking_no ticket_no (rows_from pages 1 (suc (last - 1)))) not_found
find-locate env cred booking_no ticket_no pages last stable counted fuel h enough one =
    find_from env cred booking_no ticket_no pages last stable counted fuel 1 h (omega arith)
