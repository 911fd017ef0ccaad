-- ===== src/Reserver.antt =====
-- The reserver's differ (lib/reserver/differ.go): it turns the seat counts that the poller publishes
-- into the changes that the reserver acts on, and forgets a slot's count when its demand rises.
pub mod Rises
pub mod Repeats
pub mod Buys
mod Tests
use nitroso_tin.Base.{
  ℕ, ◌+◌, ◌-◌, String, Bool, true, false, not, ◌&&◌, Option, none, some, List, [], ◌∷◌, ltb, leb,
  ◌||◌, ◌==◌, if◌then◌else◌, str_eq,
}
use nitroso_tin.Counts.{Demand}
use nitroso_tin.Dates.{joined}

pub data ℤ : Type 0 where
  pos : ℕ → ℤ
  -- `negsuc n` is - (n + 1).
  negsuc : ℕ → ℤ

unfoldable pub minus : ℕ → ℕ → ℤ
minus a b = if leb b a then pos (a - b) else negsuc (b - a - 1)

pub record DiffData : Type 0 where
  pub count : ℕ
  pub prev : ℕ
  pub delta : ℤ

-- The seats of one direction and date by time, no time twice.
abbrev pub Times : Type 0
Times = List (String × ℕ)

-- The counts seen last, by direction, date and time.
abbrev pub Prev : Type 0
Prev = String → String → String → Option ℕ

unfoldable pub lookup : {A : Type 0} → String → List (String × A) → Option A
lookup key [] = none
lookup key ((k, v) ∷ rest) = if str_eq k key then some v else lookup key rest

-- A missing entry of a map of counts reads as 0.
unfoldable pub or_zero : Option ℕ → ℕ
or_zero none = 0
or_zero (some n) = n

unfoldable pub demand_of : List Demand → String → String → String → ℕ
demand_of [] direction date time = 0
demand_of (d ∷ ds) direction date time =
    if str_eq d.direction direction && (str_eq d.date date && str_eq d.time time)
    then d.count
    else demand_of ds direction date time

-- `strings.TrimSuffix(t, ":00")`.
unfoldable pub trim_seconds : String → String
trim_seconds String.[] = ""
trim_seconds (String.◌∷◌ c s) =
    let rest = trim_seconds s in if str_eq (String.◌∷◌ c s) ":00" then "" else String.◌∷◌ c rest

-- `delete(prev[direction][date], time)`.
unfoldable pub forget : Prev → String → String → String → Prev
forget prev direction date time d dt t =
    if str_eq d direction && (str_eq dt date && str_eq t time) then none else prev d dt t

-- The slots re-armed stand beside what is left of the counts seen.
unfoldable pub rearm : Prev → List Demand → List Demand → Prev × List Demand
unfolding forget demand_of trim_seconds
rearm prev old [] = (prev, [])
rearm prev old (n ∷ ns) =
    let same = rearm prev old ns in
    let risen = rearm (forget prev n.direction n.date (trim_seconds n.time)) old ns in
    if leb n.count (demand_of old n.direction n.date n.time) then same else (risen.0, n ∷ risen.1)

unfoldable pub changes : (String → Option ℕ) → Times → List (String × DiffData)
unfolding minus or_zero
changes prev [] = []
changes prev ((time, count) ∷ rest) =
    let more = changes prev rest in
    let before = or_zero (prev time) in
    if before == count
    then more
    else (time, record { count = count; prev = before; delta = minus count before }) ∷ more

-- `prevState[dir][date] = newState`.
unfoldable pub replace : Prev → String → String → Times → Prev
unfolding lookup
replace prev direction date times d dt t =
    if str_eq d direction && str_eq dt date then lookup t times else prev d dt t

unfoldable pub diff : String → String → Prev → Times → Prev × List (String × DiffData)
unfolding changes replace
diff direction date prev times =
    (replace prev direction date times, changes (prev direction date) times)

-- The times of a message that somebody demands.
unfoldable pub relevant_of : List Demand → String → String → Times → Times
unfolding demand_of joined
relevant_of relevant direction date [] = []
relevant_of relevant direction date ((time, count) ∷ rest) =
    let more = relevant_of relevant direction date rest in
    if demand_of relevant direction date (joined time ":00") == 0
    then more
    else (time, count) ∷ more

-- One message of the poller.
unfoldable pub on_message :
    List Demand → Prev → String → String → Times → Prev × List (String × DiffData)
unfolding diff relevant_of
on_message relevant prev direction date received =
    diff direction date prev (relevant_of relevant direction date received)

-- A new count: the counts seen last are re-armed, and the count becomes the last one.
unfoldable pub on_count : Prev → List Demand → List Demand → Prev × List Demand
unfolding rearm
on_count prev last next = ((rearm prev last next).0, next)

-- The instants, in milliseconds, of the latest change of each slot.
abbrev pub Latest : Type 0
Latest = String → String → String → Option ℕ

-- A change less than 600 ms after the one before it is passed over.
unfoldable pub too_soon : ℕ → Option ℕ → Bool
too_soon now none = false
too_soon now (some instant) = ltb (now - instant) 600

unfoldable pub note : Latest → String → String → String → ℕ → Latest
note latest direction date time now d dt t =
    if str_eq d direction && (str_eq dt date && str_eq t time) then some now else latest d dt t

-- The number of rounds of `for i := 0; i < buy; i++`.
unfoldable pub buys_of : ℕ → ℤ → ℕ
buys_of needed (pos delta) = if ltb delta needed then delta else needed
buys_of needed (negsuc n) = 0

-- One change: the latest instants, and the number of reservations attempted. `now` is not before an
-- instant noted earlier.
unfoldable pub on_diff : ℕ → List Demand → Latest → String → String → String → DiffData → Latest × ℕ
unfolding too_soon note buys_of demand_of joined
on_diff now counter latest direction date time change =
    let slot = joined time ":00" in
    let noted = note latest direction date slot now in
    let needed = demand_of counter direction date slot in
    (
      noted,
      if too_soon now (latest direction date slot) || ltb change.count 1
          then 0
          else buys_of needed change.delta,
    )
