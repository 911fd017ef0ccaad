-- ===== src/Counts.antt =====
-- The count snapshot (lib/count/client.go): the seats demanded per slot, read from redis and cut down
-- to the slots that can still be polled or reserved.
pub mod Windows
mod Tests
use nitroso_tin.Base.{
  ℕ, ◌+◌, ◌*◌, String, Bool, true, false, ◌&&◌, Option, none, some, List, [], ◌∷◌, ltb,
  if◌then◌else◌, Result, ok, err, str_eq,
}

-- One entry of `Count`, which nests maps by direction, date and time; a count is the list of its
-- entries in the order of the iteration, no slot twice.
pub record Demand : Type 0 where
  pub direction : String
  pub date : String
  pub time : String
  pub count : ℕ

pub data Error : Type 0 where
  redis_failed undecodable unparsable : Error

-- Package time in the configured location, and the setting `buffer.closing`, in minutes. Instants are
-- numbers of nanoseconds. `parse` is ParseInLocation of the date and the time, `add_months` is AddDate
-- of months alone, `date` is Date of a year, a month, a day, an hour, a minute and a second, which
-- may lie out of their ranges, and `year`, `month` and `day` are those of an instant.
pub record Clock : Type 0 where
  pub parse : String → String → Option ℕ
  pub closing : ℕ
  pub add_months : ℕ → ℕ → ℕ
  pub year : ℕ → ℕ
  pub month : ℕ → ℕ
  pub day : ℕ → ℕ
  pub date : ℕ → ℕ → ℕ → ℕ → ℕ → ℕ → ℕ

-- `time.Minute`.
abbrev minute : ℕ
minute = 60_000_000_000

-- What redis gives: a failure to ask, no key, a failure to get, or a text, decoded or not; `nil` is
-- a decoded `null`.
pub data Stored : Type 0 where
  unasked absent ungotten garbled nil : Stored
  entries : List Demand → Stored

-- A count that may be nil, beside whether the key exists and the error.
abbrev pub Answer : Type 0
Answer = Bool × (Option (List Demand) × Option Error)

unfoldable pub get_count : Stored → Answer
get_count unasked = (false, (none, some redis_failed))
get_count absent = (false, (none, none))
get_count ungotten = (false, (none, some redis_failed))
get_count garbled = (false, (none, some undecodable))
get_count nil = (true, (none, none))
get_count (entries counts) = (true, (some counts, none))

module _ (clock : Clock) (now : ℕ) where
  -- From the closing time to the last second of the month six months on.
  unfoldable pub gen_range : ℕ × ℕ
  gen_range =
      let start = now + clock.closing * minute in
      let six_months_later = clock.add_months now 6 in
      let last_day =
        clock.date (clock.year six_months_later) (clock.month six_months_later + 1) 0 0 0 0 in
      (start, clock.date (clock.year last_day) (clock.month last_day) (clock.day last_day) 23 59 59)

  unfoldable pub is_reservable : Demand → Result Error Bool
  unfolding gen_range
  is_reservable d = elim (clock.parse d.date d.time) [
    | none ↦ err unparsable
    | some given ↦ ok (ltb gen_range.0 given)
  ]

  unfoldable pub is_pollable : Demand → Result Error Bool
  unfolding gen_range
  is_pollable d = elim (clock.parse d.date d.time) [
    | none ↦ err unparsable
    | some given ↦ ok (ltb gen_range.0 given && ltb given gen_range.1)
  ]

  unfoldable pub keep_if :
      Demand → Result Error Bool → Result Error (List Demand) → Result Error (List Demand)
  keep_if d (err e) rest = err e
  keep_if d (ok within) (err e) = err e
  keep_if d (ok within) (ok ds) = ok (if within then d ∷ ds else ds)

  unfoldable pub filter_reserve : List Demand → Result Error (List Demand)
  unfolding keep_if is_reservable
  filter_reserve [] = ok []
  filter_reserve (d ∷ ds) = keep_if d (is_reservable d) (filter_reserve ds)

  unfoldable pub filter_poller : List Demand → Result Error (List Demand)
  unfolding keep_if is_pollable
  filter_poller [] = ok []
  filter_poller (d ∷ ds) = keep_if d (is_pollable d) (filter_poller ds)

  unfoldable pub filtered : Bool → Result Error (List Demand) → Answer
  filtered exist (ok ds) = (exist, (some ds, none))
  filtered exist (err e) = (exist, (none, some e))

  unfoldable pub reserver_of : Answer → Answer
  unfolding filtered filter_reserve
  reserver_of (exist, (none, e)) = (exist, (none, e))
  reserver_of (exist, (some counts, e)) = filtered exist (filter_reserve counts)

  unfoldable pub poller_of : Answer → Answer
  unfolding filtered filter_poller
  poller_of (exist, (none, e)) = (exist, (none, e))
  poller_of (exist, (some counts, e)) = filtered exist (filter_poller counts)

  unfoldable pub get_reserver_count : Stored → Answer
  unfolding reserver_of get_count
  get_reserver_count stored = reserver_of (get_count stored)

  unfoldable pub get_poller_count : Stored → Answer
  unfolding poller_of get_count
  get_poller_count stored = poller_of (get_count stored)
