-- ===== src/Prober/Tests.antt =====
-- A hold that is not delivered and is kept for a later release, and the drain of that release.
use nitroso_tin.Base.{true, false, some, [], ◌∷◌, ◌≡◌, ◌⊎◌, refl, ok, err}
use nitroso_tin.Ktmb.{transport}
use nitroso_tin.Buyer.Client.{ReserveDto}
use nitroso_tin.Prober.{enqueue, remove_release, cancel, Env, accept_hold, drain_releases}
use nitroso_tin.Prober.Held.{GivenBack, Failed, accept_hold-Held}
use nitroso_tin.Prober.Released.{Justified, drain_releases-Justified}

abbrev held : ReserveDto
held = record {
  user_data = "U";
  booking_data = "B";
  passenger_data = "";
  direction = "JToW";
  date = "2030-01-01";
  time = "08:00:00";
}

abbrev world : Env
world = record {
  is_dry_run = false;
  session_patterns = "session" ∷ [];
  terminal_patterns = "expired" ∷ [];
  encrypts = λ h d. true;
  decrypt = λ v. some held;
  on_enqueue = λ h d. false;
  on_cancel = λ h u b. err transport;
  on_persist = λ h d. true;
  on_list = λ h n. some ("v" ∷ []);
  on_remove = λ h v. true;
  expired_at = λ h. false;
}

accept_hold-Held_example :
    ((false ≡ false)
      × (false ≡ true)
      × (accept_hold world held [] ≡ ((false, []), enqueue held ∷ [])))
    ⊎ (GivenBack world held (accept_hold world held [])
        ⊎ Failed world held (accept_hold world held []))
accept_hold-Held_example = accept_hold-Held world held []

-- KTMB confirms the cancellation, so the stored hold is removed.
abbrev confirming : Env
confirming = record world {
  on_cancel = λ h u b. ok (record { status = true; messages = []; content = tt });
}

removed : (drain_releases confirming 0 "U2" []).1 ≡ remove_release "v" ∷ cancel "U2" "B" ∷ []
unfolding drain_releases
removed = refl

drain_releases-Justified_example : Justified confirming (drain_releases confirming 0 "U2" []).1
drain_releases-Justified_example = drain_releases-Justified confirming 0 "U2"
