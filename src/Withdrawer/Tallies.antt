-- ===== src/Withdrawer/Tallies.antt =====
-- The tally of a sweep against the requests that it sent.
use nitroso_tin.Base.{
  ℕ, suc, ◌+◌, Bool, true, false, String, List, [], ◌∷◌, ◌++◌, length, ◌≡◌, ◌⊎◌, inl, inr, refl,
  ◌∙◌, arith, Result, ok, err, count_if, bind_result-ok,
}
use nitroso_tin.Withdrawer.{
  Withdrawal, Action, approve, reconcile, Call, list_page, act, get_settings, Env, ActionError,
  not_sent, benign, refused, SweepSummary, tally, summary_of, dedupe_by_id, list_by_status,
  post_withdrawal_action, act_on_all, act_on, approve_sweep, reconcile_sweep,
}
use nitroso_tin.Withdrawer.Reads.{list_by_status_keeps}

-- The requests that act on a withdrawal.
abbrev pub is_act : Call → Bool
is_act (list_page status limit skip) = false
is_act (act action id) = true
is_act get_settings = false

abbrev pub acts : List Call → ℕ
acts h = count_if is_act h

-- The outcomes that a summary counts.
abbrev pub outcomes : SweepSummary → ℕ
outcomes s = s.succeeded + s.skipped + s.failed

outcomes-tally :
    (s : SweepSummary) (r : Result ActionError (Unit {0}))
    → (outcomes (tally s r) ≡ suc (outcomes s)) × ((tally s r).total ≡ s.total)
unfolding tally
outcomes-tally s (ok u) = (omega arith, refl)
outcomes-tally s (err benign) = (omega arith, refl)
outcomes-tally s (err not_sent) = (omega arith, refl)
outcomes-tally s (err (refused status)) = (omega arith, refl)

module _ (env : Env) where
  act_on_all_counts :
      (a : Action) (ws : List Withdrawal) (s : SweepSummary) (h : List Call)
      → (outcomes (act_on_all env a ws s h).0 ≡ outcomes s + length ws)
        × (((act_on_all env a ws s h).0.total ≡ s.total)
            × (acts (act_on_all env a ws s h).1 ≡ acts h + length ws))
  unfolding act_on_all post_withdrawal_action
  act_on_all_counts a [] s h = (omega arith, (refl, omega arith))
  act_on_all_counts a (w ∷ ws) s h =
      let done = post_withdrawal_action env a w.id h in
      let one = outcomes-tally s done.0 in
      let rest = act_on_all_counts a ws (tally s done.0) done.1 in
      (omega (arith, one.0, rest.0), (rest.1.0 ∙ one.1, omega (arith, rest.1.1)))

  act_on_counts :
      (a : Action) (ws : List Withdrawal) (h h' : List Call) (s : SweepSummary)
      → act_on env a ws h ≡ (ok s, h')
      → (s.total ≡ outcomes s) × (acts h' ≡ acts h + s.total)
  unfolding act_on summary_of
  act_on_counts a ws h h' s is =
      let all = act_on_all_counts a ws (summary_of ws) h in
      (ground (arith, all.0, all.1.0), ground (arith, all.0, all.1.0, all.1.1))

  acts-list_by_status :
      (status : String) (h : List Call) → acts (list_by_status env status h).1 ≡ acts h
  acts-list_by_status status h =
      list_by_status_keeps env (λ k. acts k ≡ acts h) status (λ limit skip k e. e) h refl

  -- A sweep that ends without an error counts every withdrawal that it took up once, as approved or
  -- reconciled, as skipped or as failed, and it has sent exactly one request for each of them.
  pub sweep_tallies :
      (h h' : List Call) (s : SweepSummary)
      → (approve_sweep env h ≡ (ok s, h')) ⊎ (reconcile_sweep env h ≡ (ok s, h'))
      → (s.total ≡ s.succeeded + s.skipped + s.failed) × (acts h' ≡ acts h + s.total)
  unfolding approve_sweep reconcile_sweep
  sweep_tallies h h' s (inl is) =
      let (pending, h1, listed, is1) = bind_result-ok (list_by_status env "Pending" h) _ is in
      let (processing, h2, listed2, is2) =
        bind_result-ok (list_by_status env "Processing" h1) _ is1 in
      let keeps1 = acts-list_by_status "Pending" h in
      let keeps2 = acts-list_by_status "Processing" h1 in
      let ends = act_on_counts approve (dedupe_by_id (pending ++ processing)) h2 h' s is2 in
      (ends.0, ground (arith, ends.1))
  sweep_tallies h h' s (inr is) =
      let (processing, h1, listed, is1) = bind_result-ok (list_by_status env "Processing" h) _ is in
      let keeps = acts-list_by_status "Processing" h in
      let ends = act_on_counts reconcile (dedupe_by_id processing) h1 h' s is1 in
      (ends.0, ground (arith, ends.1))
