-- ===== src/Backfill/Run.antt =====
-- A run over the listed bookings, with its summary.
pub mod Counts
pub mod Dry
pub mod Once
mod Tests
use nitroso_tin.Base.{
  ℕ, zero, suc, ◌+◌, String, Bool, true, false, ◌&&◌, ◌||◌, not, Option, none, some, List, [], ◌∷◌,
  length, ltb, ◌==◌, if◌then◌else◌, Result, ok, err,
}
use nitroso_tin.Backfill.World.{
  Work, Options, Error, bad_options, login_failed, not_slept, Call, login, Env,
}
use nitroso_tin.Backfill.Listing.{list_missing}
use nitroso_tin.Backfill.Item.{process_with_session_retry}

pub record Summary : Type 0 where
  pub fetched : ℕ
  pub attempted : ℕ
  pub updated : ℕ
  pub failed : ℕ
  pub dry : ℕ

unfoldable pub empty_summary : Summary
empty_summary = record { fetched = 0; attempted = 0; updated = 0; failed = 0; dry = 0 }

unfoldable pub status_completed : ℕ
status_completed = 2

unfoldable pub status_terminated : ℕ
status_terminated = 5

unfoldable pub bad_settings : Options → Bool
unfolding status_completed status_terminated
bad_settings o =
    o.max == 0
    || (o.page_size == 0 || not (o.status == status_completed || o.status == status_terminated))

-- A status of 0 stands for the completed bookings.
unfoldable pub defaulted : Options → Options
unfolding status_completed
defaulted o = if o.status == 0 then record o { status = status_completed } else o

unfoldable pub count_item : Bool → Summary → Result Error (Unit {0}) → Summary
count_item dry_run s (err e) = record s { attempted = s.attempted + 1; failed = s.failed + 1 }
count_item true s (ok u) = record s { attempted = s.attempted + 1; dry = s.dry + 1 }
count_item false s (ok u) = record s { attempted = s.attempted + 1; updated = s.updated + 1 }

module _ {Amount : Type 0} (positive : Amount → Bool) where
  -- The summary and the error of a run, and its requests.
  abbrev pub Outcome : Type 0
  Outcome = (Summary × Option Error) × List (Call Amount)

  module _ (env : Env Amount) where
    unfoldable pub awake : Bool → List (Call Amount) → Bool
    awake first h = first || not env.options.sleeps || env.on_sleep h

    unfoldable pub run_items : Bool → String → List Work → Summary → List (Call Amount) → Outcome
    unfolding awake count_item
    run_items first user [] s h = ((s, none), h)
    run_items first user (w ∷ ws) s h =
        let done = process_with_session_retry positive env user w h in
        let rest = run_items false done.0.1 ws (count_item env.options.dry_run s done.0.0) done.1 in
        if awake first h then rest else ((s, some not_slept), h)

    unfoldable pub run_work : List Work → List (Call Amount) → Outcome
    unfolding run_items empty_summary
    run_work [] h = ((empty_summary, none), h)
    run_work (w ∷ ws) h =
        let s = record empty_summary { fetched = length (w ∷ ws) } in
        elim (env.on_login h) [
          | none ↦ ((s, some login_failed), login ∷ h)
          | some user ↦ run_items true user (w ∷ ws) s (login ∷ h)
        ]

    unfoldable pub on_listed : Result Error (List Work) × List (Call Amount) → Outcome
    unfolding run_work empty_summary
    on_listed (err e, h) = ((empty_summary, some e), h)
    on_listed (ok ws, h) = run_work ws h

    unfoldable pub run_with : List (Call Amount) → Outcome
    unfolding on_listed list_missing
    run_with h =
        if bad_settings env.options
        then ((empty_summary, some bad_options), h)
        else on_listed (list_missing env h)

  -- The status is defaulted before anything is asked.
  unfoldable pub run : Env Amount → List (Call Amount) → Outcome
  unfolding run_with
  run env h = run_with (record env { options = defaulted env.options }) h
