-- ===== src/Counts/Windows.antt =====
-- What is left of a count by the poller and by the reserver.
use nitroso_tin.Base.{
  ℕ, ◌+◌, ◌*◌, Bool, true, false, ◌&&◌, none, some, List, [], ◌∷◌, ◌≡◌, ltb, if◌then◌else◌,
}
use nitroso_tin.Counts.{Demand, Clock}

-- What package time documents of Date, in a location whose offset from UTC does not change: a day has
-- 86,400 seconds, day 0 is the day before the first of the month, and the year, the month and the day
-- of an instant name the day that it lies on.
abbrev pub IsCalendar : Clock → Type 0
IsCalendar clock =
    ((y m : ℕ) → clock.date y m 1 0 0 0 ≡ clock.date y m 0 0 0 0 + 86_400_000_000_000)
    × ((y m d : ℕ)
        → (clock.date (clock.year (clock.date y m d 0 0 0)) (clock.month (clock.date y m d 0 0 0))
              (clock.day (clock.date y m d 0 0 0)) 23 59 59
            ≡ clock.date y m d 0 0 0 + 86_399_000_000_000))

module _ (clock : Clock) (now : ℕ) where
  abbrev pub unreadable : Demand → Bool
  unreadable d = elim (clock.parse d.date d.time) [ none ↦ true | some t ↦ false ]

  -- The entry departs later than the closing time, which is so many minutes from now.
  abbrev pub opens : Demand → Bool
  opens d = elim (clock.parse d.date d.time) [
    | none ↦ false
    | some t ↦ ltb (now + clock.closing * 60_000_000_000) t
  ]

  -- The first instant after the month that lies six months on.
  abbrev pub window_end : ℕ
  window_end =
      let later = clock.add_months now 6 in
      clock.date (clock.year later) (clock.month later + 1) 1 0 0 0

  -- The entry departs more than a second before that.
  abbrev pub in_window : Demand → Bool
  in_window d = elim (clock.parse d.date d.time) [
    | none ↦ false
    | some t ↦ ltb (t + 1_000_000_000) window_end
  ]

  abbrev pub keep : (Demand → Bool) → List Demand → List Demand
  keep p [] = []
  keep p (d ∷ ds) = if p d then d ∷ keep p ds else keep p ds

  -- The entry departs within the window.
  abbrev within : Demand → Bool
  within d = opens d && in_window d
