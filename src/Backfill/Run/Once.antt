-- ===== src/Backfill/Run/Once.antt =====
-- What a whole run posts.
use nitroso_tin.Base.{
  String, Bool, true, false, some, List, [], ◌∷◌, ◌≡◌, refl, sym, subst, ap, ◌∙◌, inl, inr, arith,
  Result, ok, err, Bool-cases, Option-cases, member, Distinct, str_eq, eq_iff, ◌≤◌, length,
}
use nitroso_tin.Backfill.World.{Work, Error, bad_options, not_slept, login_failed, Call, login, Env}
use nitroso_tin.Backfill.Listing.{list_missing}
use nitroso_tin.Backfill.Listing.Bounds.{work_ids, Listed, list_missing-Listed}
use nitroso_tin.Backfill.Listing.Reads.{posted_ids-list_missing}
use nitroso_tin.Backfill.Item.{process_with_session_retry}
use nitroso_tin.Backfill.Item.Posts.{posted_ids, process_with_session_retry-PostsUp}
use nitroso_tin.Backfill.Run.Dry.{defaulted_keeps}
use nitroso_tin.Backfill.Run.{
  Summary, empty_summary, bad_settings, defaulted, count_item, awake, run_items, run_work,
  on_listed, run_with, run,
}

-- The items are different bookings, and nothing was posted for any of them.
abbrev Apart : List String → List Work → Type 0
Apart ids ws =
    Distinct (work_ids ws)
    × ((id : String) → member id (work_ids ws) ≡ true → member id ids ≡ false)

Apart-head :
    (ids : List String) (w : Work) (ws : List Work) → Apart ids (w ∷ ws) → member w.id ids ≡ false
Apart-head ids w ws apart = apart.1 w.id (ground (arith, (eq_iff w.id w.id).1 refl))

Apart-tail : (ids : List String) (w : Work) (ws : List Work) → Apart ids (w ∷ ws) → Apart ids ws
Apart-tail ids w ws apart = (apart.0.1, λ id in_rest. apart.1 id (ground (arith, in_rest)))

Apart-posted :
    (ids : List String) (w : Work) (ws : List Work) → Apart ids (w ∷ ws) → Apart (w.id ∷ ids) ws
Apart-posted ids w ws apart = (
  apart.0.1,
  λ id in_rest.
      let old = apart.1 id (ground (arith, in_rest)) in
      elim (Bool-cases (str_eq id w.id)) [
        | inr other ↦ ground (arith, other, old)
        | inl same ↦ absurd (
            ground (
              arith,
              in_rest,
              apart.0.0,
              ap (λ i. member i (work_ids ws)) ((eq_iff id w.id).0 same),
            ))
      ],
)

module _ {Amount : Type 0} (positive : Amount → Bool) (env : Env Amount) where
  run_items-Distinct :
      (first : Bool) (user : String) (ws : List Work) (s : Summary) (h : List (Call Amount))
      → Distinct (posted_ids h)
      → Apart (posted_ids h) ws
      → Distinct (posted_ids (run_items positive env first user ws s h).1)
  unfolding run_items
  run_items-Distinct first user [] s h d apart = d
  run_items-Distinct first user (w ∷ ws) s h d apart =
      let k = process_with_session_retry positive env user w h in
      let s' = count_item env.options.dry_run s k.0.0 in
      let rest = run_items-Distinct false k.0.1 ws s' k.1 in
      elim (Bool-cases (awake positive env first h)) [
        | inr cut ↦
            let same : run_items positive env first user (w ∷ ws) s h ≡ ((s, some not_slept), h) =
              rw (run_items, cut) in
            subst (λ o. Distinct (posted_ids o.1)) (sym same) d
        | inl on ↦
            let same : run_items positive env first user (w ∷ ws) s h
                ≡ run_items positive env false k.0.1 ws s' k.1 =
              rw (run_items, on) in
            subst (λ o. Distinct (posted_ids o.1)) (sym same)
              (elim (process_with_session_retry-PostsUp positive env w (posted_ids h) user h refl) [
                | inl none_new ↦
                    rest (subst Distinct (sym none_new) d) (
                      subst (λ i. Apart i ws) (sym none_new) (Apart-tail (posted_ids h) w ws apart))
                | inr (live, one_new) ↦
                    rest (subst Distinct (sym one_new) (Apart-head (posted_ids h) w ws apart, d)) (
                      subst (λ i. Apart i ws) (sym one_new)
                        (Apart-posted (posted_ids h) w ws apart))
              ])
      ]

  run_work-Distinct :
      (ws : List Work) (h : List (Call Amount))
      → Distinct (work_ids ws)
      → posted_ids h ≡ []
      → Distinct (posted_ids (run_work positive env ws h).1)
  unfolding run_work
  run_work-Distinct [] h d is = subst Distinct (sym is) tt
  run_work-Distinct (w ∷ ws) h d is =
      let s : Summary = record empty_summary { fetched = length (w ∷ ws) } in
      let clean : Distinct (posted_ids h) = subst Distinct (sym is) tt in
      elim (Option-cases (env.on_login h)) [
        | inl failed ↦
            let same : run_work positive env (w ∷ ws) h ≡ ((s, some login_failed), login ∷ h) =
              rw (run_work, failed) in
            subst (λ o. Distinct (posted_ids o.1)) (sym same) clean
        | inr (user, got) ↦
            let same : run_work positive env (w ∷ ws) h
                ≡ run_items positive env true user (w ∷ ws) s (login ∷ h) =
              rw (run_work, got) in
            subst (λ o. Distinct (posted_ids o.1)) (sym same)
              (run_items-Distinct true user (w ∷ ws) s (login ∷ h) clean
                (d, λ id there. ap (member id) is))
      ]

  on_listed-Distinct :
      (r : Result Error (List Work)) (h : List (Call Amount))
      → env.options.refund ≡ false
      → Listed env.options r
      → posted_ids h ≡ []
      → Distinct (posted_ids (on_listed positive env (r, h)).1)
  unfolding on_listed
  on_listed-Distinct (err e) h cost listed is = subst Distinct (sym is) tt
  on_listed-Distinct (ok ws) h cost (small, inl refund) is = absurd (ground (arith, cost, refund))
  on_listed-Distinct (ok ws) h cost (small, inr d) is = run_work-Distinct ws h d is

  run_with-Distinct :
      (h : List (Call Amount))
      → env.options.refund ≡ false
      → posted_ids h ≡ []
      → Distinct (posted_ids (run_with positive env h).1)
  unfolding run_with
  run_with-Distinct h cost is = elim (Bool-cases (bad_settings env.options)) [
    | inl bad ↦
        let same : run_with positive env h ≡ ((empty_summary, some bad_options), h) =
          rw (run_with, bad) in
        subst (λ o. Distinct (posted_ids o.1)) (sym same) (subst Distinct (sym is) tt)
    | inr good ↦
        let same : run_with positive env h ≡ on_listed positive env (list_missing env h) =
          rw (run_with, good) in
        let size : 1 ≤ env.options.page_size = unfold bad_settings in ground (arith, good) in
        let q = list_missing env h in
        subst (λ o. Distinct (posted_ids o.1)) (sym same)
          (on_listed-Distinct q.0 q.1 cost (list_missing-Listed env h size)
            (posted_ids-list_missing env h ∙ is))
  ]

-- A run of the cost backfill posts the cost of no booking twice, whatever zinc lists on its pages and
-- however the requests end, the retries after a session that has ended included.
pub run-Distinct :
    {Amount : Type 0} (positive : Amount → Bool) (env : Env Amount)
    → env.options.refund ≡ false
    → Distinct (posted_ids (run positive env []).1)
unfolding run
run-Distinct positive env cost =
    run_with-Distinct positive (record env { options = defaulted env.options }) []
      ((defaulted_keeps env.options).1.0 ∙ cost) refl
