-- ===== src/Prober/Slot.antt =====
-- The probing of one slot, `probeSlot`, and the tallies of a Job (lib/prober/runner.go, model.go).
pub mod Accounts
mod Tests
use nitroso_tin.Base.{
  ℕ, zero, suc, ◌+◌, String, Bool, true, false, not, ◌||◌, ◌&&◌, Option, none, some, List, [], ◌∷◌,
  is_empty, ltb, leb, ◌==◌, if◌then◌else◌, str_eq, Result, ok, err,
}
use nitroso_tin.Ktmb.{KtmbError, http_status, GenericRes}
use nitroso_tin.Buyer.Client.{ReserveDto}
use nitroso_tin.Prober.{Call, Problem, Env, matches, accept_hold}

pub record Target : Type 0 where
  pub direction : String
  pub date : String
  pub time : String
  pub needed : ℕ

-- The counters of a `SlotTally`, less the name of the slot.
pub record SlotTally : Type 0 where
  pub polls : ℕ
  pub holds : ℕ
  pub sold_out : ℕ
  pub stale : ℕ
  pub errors : ℕ
  pub rate_limited : ℕ
  pub session_dead : ℕ
  pub skipped : ℕ
  pub release_failed : ℕ

-- `enricher.FindRes`: what a reservation is asked with.
pub record Found : Type 0 where
  pub search_data : String
  pub trip_data : String

pub record Config : Type 0 where
  pub hold_env : Env
  pub stale_patterns : List String
  pub rate_limit_patterns : List String
  pub sold_out_patterns : List String
  -- An error limit below 1 stands as 0.
  pub error_limit_setting : ℕ

-- What one round of the loop meets: whether the deadline is ahead, before and after the wait for the
-- end of the maintenance; whether this wait and the context last; KTMB's answer to the reservation;
-- the enricher's, if it is asked; whether a wait is not cut short; and the requests made so far.
pub record Round : Type 0 where
  pub on_time : Bool
  pub maintained : Bool
  pub still_on_time : Bool
  pub live : Bool
  pub on_reserve : Found → Result KtmbError (GenericRes String)
  pub on_refresh : Option Found
  pub wakes : Bool
  pub before : List Call

pub record State : Type 0 where
  pub found : Found
  pub errors_seen : ℕ
  pub refreshed : Bool
  pub tally : SlotTally

pub data Next : Type 0 where
  stop : SlotTally → Next
  go : State → Next

pub data Verdict : Type 0 where
  session_gone out_of_date limited gone unclassified : Verdict
  held : String → Verdict

unfoldable pub empty_tally : SlotTally
empty_tally = record {
  polls = 0;
  holds = 0;
  sold_out = 0;
  stale = 0;
  errors = 0;
  rate_limited = 0;
  session_dead = 0;
  skipped = 0;
  release_failed = 0;
}

unfoldable pub error_limit : ℕ → ℕ
error_limit setting = if setting == 0 then 5 else setting

unfoldable pub complete_find : Found → Bool
complete_find f = not (str_eq f.search_data "") && not (str_eq f.trip_data "")

unfoldable pub refresh_slot : Option Found → Option Found
unfolding complete_find
refresh_slot none = none
refresh_slot (some f) = if complete_find f then some f else none

module _ (config : Config) where
  -- `status` is 0 where the answer has none.
  unfoldable pub by_messages : ℕ → List String → Verdict
  by_messages status messages =
      if status == 401 || status == 403 || matches messages config.hold_env.session_patterns
      then session_gone
      else if matches messages config.stale_patterns
      then out_of_date
      else if status == 429 || matches messages config.rate_limit_patterns
      then limited
      else if matches messages config.sold_out_patterns
      then gone
      else unclassified

  unfoldable pub classify : Result KtmbError (GenericRes String) → Verdict
  unfolding by_messages
  classify (err (http_status status body)) = by_messages status (body ∷ [])
  classify (err e) = unclassified
  classify (ok r) = if r.status then held r.content else by_messages 0 r.messages

  -- An error that is waited out, unless there are too many in a row.
  unfoldable pub on_error : State → Round → Next
  unfolding error_limit
  on_error s r =
      let t = record s.tally { errors = s.tally.errors + 1 } in
      let seen = s.errors_seen + 1 in
      if leb (error_limit config.error_limit_setting) seen || not r.wakes
      then stop t
      else go (record s { errors_seen = seen; tally = t })

  -- Stale data is refreshed once.
  unfoldable pub on_stale : State → Option Found → Next
  on_stale s none = stop (record s.tally { stale = s.tally.stale + 1; errors = s.tally.errors + 1 })
  on_stale s (some f) =
      if s.refreshed
      then stop (record s.tally { stale = s.tally.stale + 1; errors = s.tally.errors + 1 })
      else go (record s {
        found = f;
        refreshed = true;
        tally = record s.tally { stale = s.tally.stale + 1 };
      })

  unfoldable pub after_hold : State → Bool × List Problem → Next
  after_hold s (failed, []) =
      go (record s { errors_seen = 0; tally = record s.tally { holds = s.tally.holds + 1 } })
  after_hold s (true, p ∷ ps) = stop (record s.tally {
    holds = s.tally.holds + 1;
    errors = s.tally.errors + 1;
    release_failed = s.tally.release_failed + 1;
  })
  after_hold s (false, p ∷ ps) =
      stop (record s.tally { holds = s.tally.holds + 1; errors = s.tally.errors + 1 })

  unfoldable pub hold_of : String → Target → String → ReserveDto
  hold_of user target booking_data = record {
    user_data = user;
    booking_data = booking_data;
    passenger_data = "";
    direction = target.direction;
    date = target.date;
    time = target.time;
  }

  unfoldable pub react : String → Target → State → Round → Verdict → Next
  unfolding on_error on_stale after_hold hold_of
  react user target s r session_gone =
      stop (record s.tally { session_dead = s.tally.session_dead + 1 })
  react user target s r out_of_date = on_stale s (refresh_slot r.on_refresh)
  react user target s r limited =
      go (record s { tally = record s.tally { rate_limited = s.tally.rate_limited + 1 } })
  react user target s r gone =
      let t = record s.tally { sold_out = s.tally.sold_out + 1 } in
      if r.wakes then go (record s { tally = t }) else stop t
  react user target s r unclassified = on_error s r
  react user target s r (held booking_data) =
      if str_eq booking_data ""
      then stop (record s.tally { errors = s.tally.errors + 1 })
      else after_hold s (accept_hold config.hold_env (hold_of user target booking_data) r.before).0

  unfoldable pub round : String → Target → State → Round → Next
  unfolding react classify
  round user target s r =
      let polled = record s { tally = record s.tally { polls = s.tally.polls + 1 } } in
      if r.on_time && (r.maintained && (r.still_on_time && r.live))
      then react user target polled r (classify (r.on_reserve s.found))
      else stop s.tally

  unfoldable pub after_round : Next → (State → SlotTally) → SlotTally
  after_round (stop t) next = t
  after_round (go s) next = next s

  -- The loop over the rounds that take place.
  unfoldable pub probe_rounds : String → Target → List Round → State → SlotTally
  unfolding round after_round
  probe_rounds user target [] s = s.tally
  probe_rounds user target (r ∷ rs) s =
      let next = after_round (round user target s r) (probe_rounds user target rs) in
      if ltb s.tally.holds target.needed then next else s.tally

  unfoldable pub start_with : Found → State
  unfolding empty_tally
  start_with f = record { found = f; errors_seen = 0; refreshed = false; tally = empty_tally }

  unfoldable pub skipped_tally : SlotTally
  unfolding empty_tally
  skipped_tally = record empty_tally { errors = 1; skipped = 1 }

  unfoldable pub seeded : String → Target → List Round → Option Found → SlotTally
  unfolding probe_rounds start_with skipped_tally
  seeded user target rounds none = skipped_tally
  seeded user target rounds (some f) = probe_rounds user target rounds (start_with f)

  -- `stored` is the slot's entry in the store, `fresh` what the enricher answers if it is asked.
  unfoldable pub probe_slot : String → Target → Found → Option Found → List Round → SlotTally
  unfolding seeded refresh_slot complete_find
  probe_slot user target stored fresh rounds =
      seeded user target rounds (if complete_find stored then some stored else refresh_slot fresh)

unfoldable pub add_tally : SlotTally → SlotTally → SlotTally
add_tally t s = record {
  polls = t.polls + s.polls;
  holds = t.holds + s.holds;
  sold_out = t.sold_out + s.sold_out;
  stale = t.stale + s.stale;
  errors = t.errors + s.errors;
  rate_limited = t.rate_limited + s.rate_limited;
  session_dead = t.session_dead + s.session_dead;
  skipped = t.skipped + s.skipped;
  release_failed = t.release_failed + s.release_failed;
}

unfoldable pub sum_from : SlotTally → List SlotTally → SlotTally
unfolding add_tally
sum_from total [] = total
sum_from total (s ∷ ss) = sum_from (add_tally total s) ss

unfoldable pub sum_tallies : List SlotTally → SlotTally
unfolding sum_from empty_tally
sum_tallies slots = sum_from empty_tally slots
