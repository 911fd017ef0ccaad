-- ===== src/Withdrawer/Gates.antt =====
-- The two switches that must both be on before a tick approves anything.
use nitroso_tin.Base.{
  ℕ, Bool, true, false, Option, none, some, List, ◌∷◌, ◌≡◌, ◌⊎◌, refl, ◌∙◌, inl, inr, arith,
  Bool-cases,
}
use nitroso_tin.Zinc.{Reply, unreached, answered}
use nitroso_tin.Withdrawer.{
  Call, get_settings, Env, SettingsResult, fetched, not_found, fetch_error, sweep_gate, settings_of,
  approve_sweep_decision, approve_tick, when_open, on_tick, approve_sweep,
}

settings_of-enabled :
    (reply : Reply Bool) → settings_of reply ≡ fetched true → reply ≡ answered 200 (some true)
unfolding settings_of
settings_of-enabled unreached h = cc
settings_of-enabled (answered status body) h = by_body status body h
  where
    by_body :
        (status : ℕ) (body : Option Bool)
        → settings_of (answered status body) ≡ fetched true
        → answered status body ≡ answered 200 (some true)
    by_body status none h = ground arith
    by_body status (some e) h = ground arith

when_open-gate :
    (env : Env) (s : SettingsResult) (h : List Call)
    → (when_open env (sweep_gate true s) h ≡ h)
      ⊎ ((s ≡ fetched true) × (when_open env (sweep_gate true s) h ≡ (approve_sweep env h).1))
unfolding when_open sweep_gate
when_open-gate env fetch_error h = inl refl
when_open-gate env not_found h = inl refl
when_open-gate env (fetched false) h = inl refl
when_open-gate env (fetched true) h = inr (refl, refl)

-- At a tick of the nightly sweep, one of three things happens. The configuration disables the sweep
-- and no request at all is sent; or the settings are asked for and nothing else is sent; or the
-- sweep runs, and then the configuration enables it and zinc has answered, with status 200, that it
-- is enabled. So an answer that is missing, refused or unreadable keeps the sweep from running.
pub on_tick_gated :
    (env : Env) (h : List Call)
    → ((env.approve_enable ≡ false) × (on_tick env approve_tick h ≡ h))
      ⊎ ((on_tick env approve_tick h ≡ get_settings ∷ h)
          ⊎ ((env.approve_enable ≡ true)
              × ((env.on_settings h ≡ answered 200 (some true))
                  × (on_tick env approve_tick h ≡ (approve_sweep env (get_settings ∷ h)).1))))
unfolding on_tick approve_sweep_decision when_open
on_tick_gated env h = elim (Bool-cases env.approve_enable) [
  | inr off ↦ inl (off, rw (on_tick, approve_sweep_decision, off, when_open))
  | inl on ↦
      let asked : on_tick env approve_tick h
          ≡ when_open env (sweep_gate true (settings_of (env.on_settings h))) (get_settings ∷ h) =
        rw (on_tick, approve_sweep_decision, on) in
      inr (elim (when_open-gate env (settings_of (env.on_settings h)) (get_settings ∷ h)) [
        | inl skipped ↦ inl (asked ∙ skipped)
        | inr ran ↦ inr (on, (settings_of-enabled (env.on_settings h) ran.0, asked ∙ ran.1))
      ])
]
