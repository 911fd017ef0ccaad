-- ===== src/Withdrawer/Once.antt =====
-- The withdrawals that a sweep acts on: those listed, and none of them twice.
use nitroso_tin.Base.{
  String, false, ◌||◌, List, [], ◌∷◌, ◌++◌, ◌≡◌, refl, ◌∙◌, sym, ap, subst, inl, inr, arith, ok,
  member, Distinct, str_eq, Bool-cases, eq_iff,
}
use nitroso_tin.Withdrawer.{
  Withdrawal, Action, approve, Call, list_page, act, get_settings, Env, SweepSummary, tally,
  summary_of, dedupe_from, dedupe_by_id, list_by_status, post_withdrawal_action, act_on_all, act_on,
  approve_sweep,
}
use nitroso_tin.Withdrawer.Reads.{list_by_status_keeps}

abbrev pub ids : List Withdrawal → List String
ids [] = []
ids (w ∷ ws) = w.id ∷ ids ws

-- The identifiers of the withdrawals acted on, the last first.
abbrev pub acted_ids : List Call → List String
acted_ids [] = []
acted_ids (list_page status limit skip ∷ h) = acted_ids h
acted_ids (act action id ∷ h) = id ∷ acted_ids h
acted_ids (get_settings ∷ h) = acted_ids h

-- None of the withdrawals has been seen, and none stands twice.
abbrev Fresh : List String → List Withdrawal → Type 0
Fresh seen [] = Unit
Fresh seen (w ∷ ws) = (member w.id seen ≡ false) × Fresh (w.id ∷ seen) ws

dedupe_from-Fresh : (seen : List String) (ws : List Withdrawal) → Fresh seen (dedupe_from seen ws)
unfolding dedupe_from
dedupe_from-Fresh seen [] = tt
dedupe_from-Fresh seen (w ∷ ws) =
    let old = dedupe_from-Fresh seen ws in
    let new = dedupe_from-Fresh (w.id ∷ seen) ws in
    elim (Bool-cases (member w.id seen)) [
      | inl again ↦
          let same : dedupe_from seen (w ∷ ws) ≡ dedupe_from seen ws = rw (dedupe_from, again) in
          subst (Fresh seen) (sym same) old
      | inr first ↦
          let same : dedupe_from seen (w ∷ ws) ≡ w ∷ dedupe_from (w.id ∷ seen) ws =
            rw (dedupe_from, first) in
          subst (Fresh seen) (sym same) (first, new)
    ]

-- What has been seen or stands in the list stays so.
dedupe_from-member :
    (id : String) (seen : List String) (ws : List Withdrawal)
    → member id seen || member id (ids (dedupe_from seen ws)) ≡ member id seen || member id (ids ws)
unfolding dedupe_from
dedupe_from-member id seen [] = refl
dedupe_from-member id seen (w ∷ ws) =
    let old = dedupe_from-member id seen ws in
    let new = dedupe_from-member id (w.id ∷ seen) ws in
    elim (Bool-cases (member w.id seen)) [
      | inl again ↦ elim (Bool-cases (str_eq id w.id)) [
        | inl same ↦ ground (arith, old, ap (λ i. member i seen) ((eq_iff id w.id).0 same))
        | inr other ↦ ground (arith, old)
      ]
      | inr first ↦ ground (arith, new)
    ]

-- The history acts on exactly the withdrawals of the list, and on none of them twice.
abbrev pub ActsOnce : List Withdrawal → List Call → Type 0
ActsOnce ws h =
    Distinct (acted_ids h) × ((id : String) → member id (acted_ids h) ≡ member id (ids ws))

module _ (env : Env) where
  act_on_all-Distinct :
      (a : Action) (ws : List Withdrawal) (s : SweepSummary) (h : List Call)
      → Fresh (acted_ids h) ws
      → Distinct (acted_ids h)
      → Distinct (acted_ids (act_on_all env a ws s h).1)
  unfolding act_on_all post_withdrawal_action
  act_on_all-Distinct a [] s h fresh d = d
  act_on_all-Distinct a (w ∷ ws) s h fresh d =
      let done = post_withdrawal_action env a w.id h in
      act_on_all-Distinct a ws (tally s done.0) done.1 fresh.1 (fresh.0, d)

  act_on_all-member :
      (id : String) (a : Action) (ws : List Withdrawal) (s : SweepSummary) (h : List Call)
      → member id (acted_ids (act_on_all env a ws s h).1)
        ≡ member id (acted_ids h) || member id (ids ws)
  unfolding act_on_all post_withdrawal_action
  act_on_all-member id a [] s h = ground arith
  act_on_all-member id a (w ∷ ws) s h =
      let done = post_withdrawal_action env a w.id h in
      ground (arith, act_on_all-member id a ws (tally s done.0) done.1)

  acted_ids-list_by_status :
      (status : String) (h : List Call) → acted_ids (list_by_status env status h).1 ≡ acted_ids h
  acted_ids-list_by_status status h =
      list_by_status_keeps env (λ k. acted_ids k ≡ acted_ids h) status (λ limit skip k e. e) h refl

  act_on-ActsOnce :
      (a : Action) (ws : List Withdrawal) (h : List Call)
      → acted_ids h ≡ []
      → ActsOnce ws (act_on env a (dedupe_by_id ws) h).1
  unfolding act_on dedupe_by_id
  act_on-ActsOnce a ws h fresh =
      let kept = dedupe_from [] ws in
      let start = summary_of kept in
      (
        act_on_all-Distinct a kept start h
            (subst (λ seen. Fresh seen kept) (sym fresh) (dedupe_from-Fresh [] ws))
            (subst Distinct (sym fresh) tt),
        λ id. ground (
          arith,
          ap (member id) fresh,
          act_on_all-member id a kept start h,
          dedupe_from-member id [] ws,
        ),
      )

  -- A nightly sweep that starts with nothing acted on, and whose two listings succeed, acts on exactly
  -- the withdrawals that they list, and never on one withdrawal twice, whatever zinc answers.
  pub approve_sweep_once :
      (pending processing : List Withdrawal) (h1 h2 : List Call)
      → list_by_status env "Pending" [] ≡ (ok pending, h1)
      → list_by_status env "Processing" h1 ≡ (ok processing, h2)
      → ActsOnce (pending ++ processing) (approve_sweep env []).1
  unfolding approve_sweep
  approve_sweep_once pending processing h1 h2 listed1 listed2 =
      let none1 : acted_ids h1 ≡ [] =
        sym (ap (λ p. acted_ids p.1) listed1) ∙ acted_ids-list_by_status "Pending" [] in
      let none2 : acted_ids h2 ≡ [] =
        sym (ap (λ p. acted_ids p.1) listed2) ∙ acted_ids-list_by_status "Processing" h1 ∙ none1 in
      let same : approve_sweep env []
          ≡ act_on env approve (dedupe_by_id (pending ++ processing)) h2 =
        rw (approve_sweep, listed1, listed2) in
      subst (λ r. ActsOnce (pending ++ processing) r.1) (sym same)
        (act_on-ActsOnce approve (pending ++ processing) h2 none2)
