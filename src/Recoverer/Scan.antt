-- ===== src/Recoverer/Scan.antt =====
-- The scan of our KTMB account's upcoming tickets (lib/recoverer/scan.go): one row, one page, the
-- binary search for a page that spans the departure, and the walks to its left and right.
pub mod Rows
pub mod Pages
pub mod Steps
pub mod Sighted
pub mod Order
pub mod Placed
pub mod Absent
pub mod Answers
pub mod Keeps
mod Tests
use nitroso_tin.Base.{
  ℕ, ◌^◌, zero, suc, ◌+◌, ◌-◌, ◌/◌, String, Bool, true, false, ◌&&◌, ◌||◌, Option, none, some, List,
  [], ◌∷◌, ◌≡◌, codes, to_lower, to_upper, trim_space, contains, map, lower_code, ltb, ◌==◌,
  if◌then◌else◌, Result, ok, err, Prog, ◌>>=◌, bind_result, pure, throw, lift, or_else, last_of,
  is_empty, codes_eq, str_eq,
}
use nitroso_tin.Ktmb.{KtmbError, TicketListTicket, TicketListTrip, TicketListBooking, TicketList}

pub record FoundTicket : Type 0 where
  pub booking_no : String
  pub ticket_no : String

-- Why a scan is inconclusive. `out_of_fuel` is the model's own.
pub data ScanError : Type 0 where
  fetch_failed : KtmbError → ScanError
  empty_list : ScanError
  empty_page : ℕ → ScanError
  unparseable : String → ScanError
  unconfirmed : String → ScanError
  out_of_fuel : ScanError

-- The texts that `strings.EqualFold` of the trimmed texts calls equal.
unfoldable pub same_passport : String → String → Bool
same_passport a b =
    codes_eq (map lower_code (trim_space (codes a))) (map lower_code (trim_space (codes b)))

unfoldable pub ticket_in : String → List TicketListTicket → Option String
ticket_in passport [] = none
ticket_in passport (t ∷ ts) =
    if same_passport t.passenger_passport_no passport
    then some t.ticket_no
    else ticket_in passport ts

unfoldable pub ticket_in_trips : String → List TicketListTrip → Option String
unfolding ticket_in
ticket_in_trips passport [] = none
ticket_in_trips passport (t ∷ ts) = elim (ticket_in passport t.tickets) [
  | some number ↦ some number
  | none ↦ ticket_in_trips passport ts
]

unfoldable pub ticket_for_passport : TicketListBooking → String → Option String
unfolding ticket_in_trips
ticket_for_passport b passport = ticket_in_trips passport b.trips

-- `none` is Go's `("", false)`.
unfoldable pub classify_direction : String → Option String
classify_direction station =
    let upper = to_upper station in
    if contains upper (codes "WOODLANDS")
    then some "WToJ"
    else if contains upper (codes "SENTRAL") || contains upper (codes "JOHOR")
    then some "JToW"
    else none

-- What one row says of the ticket that is looked for.
pub data RowVerdict : Type 0 where
  skipped : RowVerdict
  ambiguous : ScanError → RowVerdict
  ours : FoundTicket → RowVerdict

-- What one page says to the walk: found, walk on, or the departure's rows end here.
pub data Verdict : Type 0 where
  seen : FoundTicket → Verdict
  continues : Verdict
  ends : Verdict

pub data Side : Type 0 where
  before within after : Side

-- The steps of the bisection. From 2 ^ 62 pages on the source's `lo + hi` may pass the int64; the
-- model has no steps there and ends with `out_of_fuel`.
unfoldable pub fuel_for : ℕ → ℕ
fuel_for total = if ltb total (2 ^ 62) then suc total else 0

-- `parse` stands for `time.ParseInLocation` with the configured location, which gives an instant.
module _ (parse : String → Option ℕ) where
  unfoldable pub depart_of : TicketListBooking → Option ℕ
  depart_of b = parse b.depart_from

  module _ (target : ℕ) where
    confirm : String → TicketListBooking → String → RowVerdict
    confirm direction b ticket_no = elim (classify_direction b.from_station_name) [
      | none ↦ ambiguous (unconfirmed b.booking_no)
      | some dir ↦
          if str_eq dir direction
          then ours (record { booking_no = b.booking_no; ticket_no = ticket_no })
          else ambiguous (unconfirmed b.booking_no)
    ]

    unfoldable pub row_verdict : String → String → TicketListBooking → RowVerdict
    unfolding confirm depart_of
    row_verdict direction passport b = elim (depart_of b) [
      | none ↦ ambiguous (unparseable b.booking_no)
      | some dt ↦
          if dt == target
          then (elim (ticket_for_passport b passport) [
            | none ↦ skipped
            | some ticket_no ↦ confirm direction b ticket_no
          ])
          else skipped
    ]

    -- The last ambiguity is kept while the loop looks for a definitive match.
    match_rows :
        String
        → String
        → List TicketListBooking
        → Option ScanError
        → Result ScanError (Option FoundTicket)
    match_rows direction passport [] none = ok none
    match_rows direction passport [] (some e) = err e
    match_rows direction passport (b ∷ bs) bad = elim (row_verdict direction passport b) [
      | skipped ↦ match_rows direction passport bs bad
      | ambiguous e ↦ match_rows direction passport bs (some e)
      | ours f ↦ ok (some f)
    ]

    unfoldable pub match_page : String → String → TicketList → Result ScanError (Option FoundTicket)
    unfolding match_rows
    match_page direction passport page = match_rows direction passport page.bookings none

    contains_rows : List TicketListBooking → Option ScanError → Result ScanError Bool
    contains_rows [] none = ok false
    contains_rows [] (some e) = err e
    contains_rows (b ∷ bs) bad = elim (depart_of b) [
      | none ↦ contains_rows bs (some (unparseable b.booking_no))
      | some dt ↦ let rest = contains_rows bs bad in if dt == target then ok true else rest
    ]

    unfoldable pub page_contains_datetime : TicketList → Result ScanError Bool
    unfolding contains_rows
    page_contains_datetime page = contains_rows page.bookings none

    side_of : ℕ → ℕ → Side
    side_of first last =
        if ltb target first then before else if ltb last target then after else within

    -- Where the departure lies against the first and the last row of page `number`.
    unfoldable pub page_side : ℕ → List TicketListBooking → Result ScanError Side
    unfolding side_of depart_of
    page_side number [] = err (empty_page number)
    page_side number (b ∷ bs) = elim (depart_of b) [
      | none ↦ err (unparseable b.booking_no)
      | some first ↦ elim (depart_of (last_of b bs)) [
        | none ↦ err (unparseable (last_of b bs).booking_no)
        | some last ↦ ok (side_of first last)
      ]
    ]

    after_match : TicketList → Option FoundTicket → Result ScanError Verdict
    after_match page (some f) = ok (seen f)
    after_match page none = elim (page_contains_datetime page) [
      | err e ↦ err e
      | ok more ↦ ok (if more then continues else ends)
    ]

    -- The body of both walks, on a page that was fetched.
    unfoldable pub inspect : String → String → ℕ → TicketList → Result ScanError Verdict
    unfolding after_match
    inspect direction passport number page = elim page.bookings [
      | [] ↦ err (empty_page number)
      | b ∷ bs ↦ elim (match_page direction passport page) [
        | err e ↦ err e
        | ok found ↦ after_match page found
      ]
    ]

  -- `fetch` asks for a page; what it answers may change from one request to the next.
  module _ {W : Type 0} (fetch : W → ℕ → Result KtmbError TicketList × W) where
    pub requested : Result KtmbError TicketList × W → Result ScanError TicketList × W
    requested (ok page, w) = (ok page, w)
    requested (err e, w) = (err (fetch_failed e), w)

    unfoldable pub get_page : TicketList → ℕ → Prog W ScanError TicketList
    unfolding requested
    get_page first number w = if number == 1 then (ok first, w) else requested (fetch w number)

    module _ (target : ℕ) (first : TicketList) where
      pub narrow : ℕ → Side → Prog W ScanError ℕ → Prog W ScanError ℕ → Prog W ScanError ℕ
      narrow mid before lower upper = lower
      narrow mid after lower upper = upper
      narrow mid within lower upper = pure mid

      unfoldable pub probe : ℕ → Prog W ScanError ℕ → Prog W ScanError ℕ → Prog W ScanError ℕ
      unfolding narrow
      probe mid lower upper = do
        page ← get_page first mid
        side ← lift (page_side target mid page.bookings)
        narrow mid side lower upper

      -- The loop ends when `lo` passes `hi`, with 0, which is no page.
      unfoldable pub bisect : ℕ → ℕ → ℕ → Prog W ScanError ℕ
      bisect zero lo hi = throw out_of_fuel
      bisect (suc fuel) lo hi = elim (ltb hi lo) [
        | true ↦ pure 0
        | false ↦
            let mid = (lo + hi) / 2 in
            probe mid (bisect fuel lo (mid - 1)) (bisect fuel (mid + 1) hi)
      ]

    module _ (target : ℕ) (direction passport : String) (first : TicketList) where
      pub resume :
          Verdict → Prog W ScanError (Option FoundTicket) → Prog W ScanError (Option FoundTicket)
      resume (seen f) next = pure (some f)
      resume continues next = next
      resume ends next = pure none

      -- The body that both walks share: fetch, inspect, and go on to `next` or stop.
      unfoldable pub visit :
          ℕ → Prog W ScanError (Option FoundTicket) → Prog W ScanError (Option FoundTicket)
      unfolding resume
      visit page next = do
        res ← get_page first page
        verdict ← lift (inspect target direction passport page res)
        resume verdict next

      -- `for page := hit; page >= 1; page--`
      unfoldable pub scan_left : ℕ → Prog W ScanError (Option FoundTicket)
      scan_left zero = pure none
      scan_left (suc page) = visit (suc page) (scan_left page)

      -- `for page := hit + 1; page <= total; page++`, by the pages that are left.
      unfoldable pub scan_right : ℕ → ℕ → Prog W ScanError (Option FoundTicket)
      scan_right zero page = pure none
      scan_right (suc left) page = visit page (scan_right left (page + 1))

      either_side :
          Option FoundTicket
          → Prog W ScanError (Option FoundTicket)
          → Prog W ScanError (Option FoundTicket)
      either_side (some f) right = pure (some f)
      either_side none right = right

      -- The walks from a page that spans the departure; 0 stands for none.
      unfoldable pub scan_around : ℕ → Prog W ScanError (Option FoundTicket)
      unfolding either_side
      scan_around zero = pure none
      scan_around (suc hit) = do
        found ← scan_left (suc hit)
        either_side found (scan_right (first.total_page - suc hit) (suc hit + 1))

    find_in : ℕ → String → String → TicketList → Prog W ScanError (Option FoundTicket)
    unfolding fuel_for
    find_in target direction passport first =
        if first.total_page == 0 || is_empty first.bookings then throw empty_list else do
          hit ← bisect target first (fuel_for first.total_page) 1 first.total_page
          scan_around target direction passport first hit

    unfoldable pub find_ticket_in : ℕ → String → String → Prog W ScanError (Option FoundTicket)
    unfolding requested find_in
    find_ticket_in target direction passport = do
      first ← λ w. requested (fetch w 1)
      find_in target direction passport first
