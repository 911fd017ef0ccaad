-- ===== src/Prober/Slot/Tests.antt =====
-- One slot that needs two seats, probed over four rounds: stale data, a hold, sold out, a hold.
use nitroso_tin.Base.{
  trim_space, to_lower, contains, String, Bool, true, false, none, some, List, [], ◌∷◌, ◌≡◌, refl,
  ok,
}
use nitroso_tin.Prober.{Env, matches, accept_hold}
use nitroso_tin.Prober.Slot.{Target, Found, Config, Round, probe_slot}
use nitroso_tin.Prober.Slot.Accounts.{Settled, probe_slot-Settled}

abbrev hold_env : Env
hold_env = record {
  is_dry_run = false;
  session_patterns = "login" ∷ [];
  terminal_patterns = [];
  encrypts = λ h d. true;
  decrypt = λ v. none;
  on_enqueue = λ h d. true;
  on_cancel = λ h u b. ok (record { status = true; messages = []; content = tt });
  on_persist = λ h d. true;
  on_list = λ h n. none;
  on_remove = λ h v. true;
  expired_at = λ h. false;
}

abbrev config : Config
config = record {
  hold_env = hold_env;
  stale_patterns = "stale" ∷ [];
  rate_limit_patterns = "slow down" ∷ [];
  sold_out_patterns = "sold out" ∷ [];
  error_limit_setting = 0;
}

abbrev answered_with : Bool → List String → String → Round
answered_with status messages booking_data = record {
  on_time = true;
  maintained = true;
  still_on_time = true;
  live = true;
  on_reserve = λ f. ok (record { status = status; messages = messages; content = booking_data });
  on_refresh = some (record { search_data = "s2"; trip_data = "t2" });
  wakes = true;
  before = [];
}

abbrev rounds : List Round
rounds =
    answered_with false ("Stale search data" ∷ []) ""
    ∷ answered_with true [] "b1"
    ∷ answered_with false ("Sold out" ∷ []) ""
    ∷ answered_with true [] "b2"
    ∷ answered_with true [] "b3"
    ∷ []

abbrev target : Target
target = record { direction = "JToW"; date = "01-02-2030"; time = "10:00:00"; needed = 2 }

abbrev stored : Found
stored = record { search_data = "s1"; trip_data = "t1" }

probe_slot-Settled_example : Settled 2 (probe_slot config "session" target stored none rounds)
probe_slot-Settled_example = probe_slot-Settled config "session" target stored none rounds

held_two : (probe_slot config "session" target stored none rounds).holds ≡ 2
unfolding probe_slot matches trim_space to_lower contains accept_hold
held_two = refl
