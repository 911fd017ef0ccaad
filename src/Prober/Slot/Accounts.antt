-- ===== src/Prober/Slot/Accounts.antt =====
-- What the tally of a slot says of its polls.
use nitroso_tin.Base.{
  ℕ, suc, ◌+◌, ◌≤◌, ◌<◌, String, Bool, true, false, ◌&&◌, ◌||◌, not, Option, none, some, List, [],
  ◌∷◌, ◌≡◌, refl, sym, subst, inl, inr, arith, ltb, leb, if◌then◌else◌, str_eq, Bool-cases,
}
use nitroso_tin.Prober.{Problem, accept_hold}
use nitroso_tin.Prober.Slot.{
  Target, SlotTally, Found, Config, Round, State, Next, stop, go, Verdict, session_gone,
  out_of_date, limited, gone, unclassified, held, empty_tally, error_limit, complete_find,
  refresh_slot, classify, on_error, on_stale, after_hold, hold_of, react, round, after_round,
  probe_rounds, start_with, skipped_tally, seeded, probe_slot,
}

-- The polls that were answered in a way that has a counter of its own.
abbrev pub recognised : SlotTally → ℕ
recognised t = t.holds + t.sold_out + t.stale + t.rate_limited + t.session_dead

abbrev pub as_one : Bool → ℕ
as_one true = 1
as_one false = 0

-- Each poll has its counter or is an error, and no error is counted without one.
abbrev pub Counted : SlotTally → Type 0
Counted t = (recognised t ≤ t.polls) × (t.polls ≤ recognised t + t.errors)

-- A slot's final tally: not more holds than needed, one refresh and one dead session at most.
abbrev pub Settled : ℕ → SlotTally → Type 0
Settled needed t =
    (t.holds ≤ needed)
    × (Counted t × ((t.stale ≤ 2) × ((t.session_dead ≤ 1) × (t.release_failed ≤ 1))))

-- The tally while the loop goes on.
abbrev Open : ℕ → State → Type 0
Open needed s =
    (s.tally.holds ≤ needed)
    × (Counted s.tally
        × ((s.tally.stale ≤ as_one s.refreshed)
            × ((s.tally.session_dead ≡ 0) × (s.tally.release_failed ≡ 0))))

abbrev Kept : ℕ → Next → Type 0
Kept needed (stop t) = Settled needed t
Kept needed (go s) = Open needed s

as_one-le : (b : Bool) → as_one b ≤ 1
as_one-le true = omega arith
as_one-le false = omega arith

Open-Settled : (needed : ℕ) (s : State) → Open needed s → Settled needed s.tally
Open-Settled needed s (room, (counted, (stale, (dead, failed)))) = (
  room,
  (
    counted,
    (omega (arith, as_one-le s.refreshed, stale), (omega (arith, dead), omega (arith, failed))),
  ),
)

-- A state that has just polled: one poll more than the counters tell.
abbrev Polled : ℕ → State → Type 0
Polled needed s =
    (s.tally.holds < needed)
    × (((suc (recognised s.tally) ≤ s.tally.polls)
          × (s.tally.polls ≤ suc (recognised s.tally + s.tally.errors)))
        × ((s.tally.stale ≤ as_one s.refreshed)
            × ((s.tally.session_dead ≡ 0) × (s.tally.release_failed ≡ 0))))

if_Kept :
    (needed : ℕ) (b : Bool) (x y : Next)
    → (b ≡ true → Kept needed x)
    → (b ≡ false → Kept needed y)
    → Kept needed (if b then x else y)
if_Kept needed true x y on off = on refl
if_Kept needed false x y on off = off refl

module _ (config : Config) (needed : ℕ) where
  on_error-Kept : (s : State) (r : Round) → Polled needed s → Kept needed (on_error config s r)
  unfolding on_error
  on_error-Kept s r (room, ((low, high), (stale, (dead, failed)))) =
      let one = as_one-le s.refreshed in
      if_Kept needed
        (leb (error_limit config.error_limit_setting) (s.errors_seen + 1) || not r.wakes) _ _
        (λ over.
          (omega arith, ((omega arith, omega arith), (omega arith, (omega arith, omega arith)))))
        (λ on.
          (omega arith, ((omega arith, omega arith), (omega arith, (omega arith, omega arith)))))

  on_stale-Kept :
      (s : State) (f : Option Found) → Polled needed s → Kept needed (on_stale config s f)
  unfolding on_stale
  on_stale-Kept s none (room, ((low, high), (stale, (dead, failed)))) =
      let one = as_one-le s.refreshed in
      (omega arith, ((omega arith, omega arith), (omega arith, (omega arith, omega arith))))
  on_stale-Kept s (some f) (room, ((low, high), (stale, (dead, failed)))) =
      let one = as_one-le s.refreshed in
      if_Kept needed s.refreshed _ _
        (λ again.
          (omega arith, ((omega arith, omega arith), (omega arith, (omega arith, omega arith)))))
        (λ first. (
          omega arith,
          ((omega arith, omega arith), (ground (arith, first), (omega arith, omega arith))),
        ))

  after_hold-Kept :
      (s : State) (e : Bool × List Problem) → Polled needed s → Kept needed (after_hold config s e)
  unfolding after_hold
  after_hold-Kept s (b, []) (room, ((low, high), (stale, (dead, failed)))) =
      let one = as_one-le s.refreshed in
      (omega arith, ((omega arith, omega arith), (omega arith, (omega arith, omega arith))))
  after_hold-Kept s (true, p ∷ ps) (room, ((low, high), (stale, (dead, failed)))) =
      let one = as_one-le s.refreshed in
      (omega arith, ((omega arith, omega arith), (omega arith, (omega arith, omega arith))))
  after_hold-Kept s (false, p ∷ ps) (room, ((low, high), (stale, (dead, failed)))) =
      let one = as_one-le s.refreshed in
      (omega arith, ((omega arith, omega arith), (omega arith, (omega arith, omega arith))))

  react-Kept :
      (user : String) (target : Target) (s : State) (r : Round) (v : Verdict)
      → Polled needed s
      → Kept needed (react config user target s r v)
  unfolding react
  react-Kept user target s r session_gone (room, ((low, high), (stale, (dead, failed)))) =
      let one = as_one-le s.refreshed in
      (omega arith, ((omega arith, omega arith), (omega arith, (omega arith, omega arith))))
  react-Kept user target s r out_of_date p = on_stale-Kept s (refresh_slot r.on_refresh) p
  react-Kept user target s r limited (room, ((low, high), (stale, (dead, failed)))) =
      (omega arith, ((omega arith, omega arith), (omega arith, (omega arith, omega arith))))
  react-Kept user target s r gone (room, ((low, high), (stale, (dead, failed)))) =
      let one = as_one-le s.refreshed in
      if_Kept needed r.wakes _ _
        (λ awake.
          (omega arith, ((omega arith, omega arith), (omega arith, (omega arith, omega arith)))))
        (λ cut.
          (omega arith, ((omega arith, omega arith), (omega arith, (omega arith, omega arith)))))
  react-Kept user target s r unclassified p = on_error-Kept s r p
  react-Kept user target s r (held booking_data) (room, ((low, high), (stale, (dead, failed)))) =
      let one = as_one-le s.refreshed in
      if_Kept needed (str_eq booking_data "") _ _
        (λ missing.
          (omega arith, ((omega arith, omega arith), (omega arith, (omega arith, omega arith)))))
        (λ there.
          after_hold-Kept s
            (accept_hold config.hold_env (hold_of config user target booking_data) r.before).0
            (room, ((low, high), (stale, (dead, failed)))))

  round-Kept :
      (user : String) (target : Target) (s : State) (r : Round)
      → s.tally.holds < needed
      → Open needed s
      → Kept needed (round config user target s r)
  unfolding round
  round-Kept user target s r free (room, ((low, high), (stale, (dead, failed)))) =
      let polled : State = record s { tally = record s.tally { polls = s.tally.polls + 1 } } in
      if_Kept needed (r.on_time && (r.maintained && (r.still_on_time && r.live))) _ _
        (λ goes_on.
          react-Kept user target polled r (classify config (r.on_reserve s.found))
            (free, ((omega arith, omega arith), (stale, (dead, failed)))))
        (λ ends. Open-Settled needed s (room, ((low, high), (stale, (dead, failed)))))

  after_round-Settled :
      (n : Next) (next : State → SlotTally)
      → Kept needed n
      → ((s : State) → Open needed s → Settled needed (next s))
      → Settled needed (after_round config n next)
  unfolding after_round
  after_round-Settled (stop t) next kept on = kept
  after_round-Settled (go s) next kept on = on s kept

  probe_rounds-Settled :
      (user : String) (target : Target) (rs : List Round) (s : State)
      → target.needed ≡ needed
      → Open needed s
      → Settled needed (probe_rounds config user target rs s)
  unfolding probe_rounds
  probe_rounds-Settled user target [] s is open_s = Open-Settled needed s open_s
  probe_rounds-Settled user target (r ∷ rs) s is open_s =
      let rest = probe_rounds-Settled user target rs in
      elim (Bool-cases (ltb s.tally.holds target.needed)) [
        | inr full ↦
            let same : probe_rounds config user target (r ∷ rs) s ≡ s.tally =
              rw (probe_rounds, full) in
            subst (Settled needed) (sym same) (Open-Settled needed s open_s)
        | inl free ↦
            let same : probe_rounds config user target (r ∷ rs) s
                ≡ after_round config (round config user target s r)
                    (probe_rounds config user target rs) =
              rw (probe_rounds, free) in
            subst (Settled needed) (sym same) (
              after_round-Settled (round config user target s r)
                (probe_rounds config user target rs)
                (round-Kept user target s r (ground (arith, free, is)) open_s)
                (λ s' open_s'. rest s' is open_s'))
      ]

-- The tally of a slot that was probed, whatever KTMB and the enricher answer and whenever the probing
-- ends. It holds no more seats than the slot needs. Every poll is counted as a hold, sold out, stale,
-- rate limited or a dead session, or as an error. Stale data is met twice at most, since it is
-- refreshed once, and a dead session and a release that failed at most once.
pub probe_slot-Settled :
    (config : Config) (user : String) (target : Target) (stored : Found) (fresh : Option Found)
    (rounds : List Round)
    → Settled target.needed (probe_slot config user target stored fresh rounds)
unfolding probe_slot seeded start_with skipped_tally empty_tally
probe_slot-Settled config user target stored fresh rounds =
    by_seed (if complete_find stored then some stored else refresh_slot fresh)
  where
    by_seed : (f : Option Found) → Settled target.needed (seeded config user target rounds f)
    by_seed none =
        (omega arith, ((omega arith, omega arith), (omega arith, (omega arith, omega arith))))
    by_seed (some f) =
        probe_rounds-Settled config target.needed user target rounds (start_with config f) refl
          (omega arith, ((omega arith, omega arith), (omega arith, (omega arith, omega arith))))
