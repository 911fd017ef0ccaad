-- ===== src/Backfill/Run/Counts.antt =====
-- The summary of a run.
use nitroso_tin.Base.{
  ℕ, suc, ◌+◌, ◌≤◌, String, Bool, true, false, Option, none, some, List, [], ◌∷◌, ◌≡◌, ◌≢◌, ◌⊎◌,
  refl, sym, subst, ◌∙◌, inl, inr, arith, Result, ok, err, Bool-cases, Option-cases, length,
}
use nitroso_tin.Backfill.World.{Work, Error, bad_options, not_slept, login_failed, Call, login, Env}
use nitroso_tin.Backfill.Listing.{list_missing}
use nitroso_tin.Backfill.Listing.Bounds.{Listed, list_missing-Listed}
use nitroso_tin.Backfill.Item.{process_with_session_retry}
use nitroso_tin.Backfill.Run.Dry.{defaulted_keeps}
use nitroso_tin.Backfill.Run.{
  Summary, empty_summary, bad_settings, defaulted, count_item, awake, run_items, run_work,
  on_listed, run_with, run,
}

-- Every item attempted is counted once, and no more are attempted than were fetched.
abbrev pub Adds : Summary → Type 0
Adds s = s.attempted ≡ s.updated + s.failed + s.dry

-- The counts after `n` more items: all of them, or those before a wait that was cut short.
abbrev Tallied : Summary → ℕ → Summary × Option Error → Type 0
Tallied s n o =
    (o.0.fetched ≡ s.fetched)
    × (Adds o.0
        × (((o.1 ≡ none) × (o.0.attempted ≡ s.attempted + n))
            ⊎ ((o.1 ≡ some not_slept) × (o.0.attempted ≤ s.attempted + n))))

count_item-Adds :
    (dry : Bool) (s : Summary) (r : Result Error (Unit {0}))
    → Adds s
    → Adds (count_item dry s r)
      × (((count_item dry s r).fetched ≡ s.fetched)
          × ((count_item dry s r).attempted ≡ suc s.attempted))
unfolding count_item
count_item-Adds dry s (err e) is = (omega (arith, is), (refl, omega arith))
count_item-Adds true s (ok u) is = (omega (arith, is), (refl, omega arith))
count_item-Adds false s (ok u) is = (omega (arith, is), (refl, omega arith))

-- One more item, and then `n`.
Tallied-suc :
    (s s' : Summary) (n : ℕ) (o : Summary × Option Error)
    → s'.fetched ≡ s.fetched
    → s'.attempted ≡ suc s.attempted
    → Tallied s' n o
    → Tallied s (suc n) o
Tallied-suc s s' n o same more (f, (adds, inl (e, all))) =
    (f ∙ same, (adds, inl (e, omega (arith, more, all))))
Tallied-suc s s' n o same more (f, (adds, inr (e, part))) =
    (f ∙ same, (adds, inr (e, omega (arith, more, part))))

-- The counts of a run that fetches at most `max` items.
abbrev pub Balanced : ℕ → Summary × Option Error → Type 0
Balanced max o =
    Adds o.0
    × ((o.0.attempted ≤ o.0.fetched)
        × ((o.0.fetched ≤ max) × ((o.1 ≢ none) ⊎ (o.0.attempted ≡ o.0.fetched))))

module _ {Amount : Type 0} (positive : Amount → Bool) (env : Env Amount) where
  run_items-Tallied :
      (first : Bool) (user : String) (ws : List Work) (s : Summary) (h : List (Call Amount))
      → Adds s
      → Tallied s (length ws) (run_items positive env first user ws s h).0
  unfolding run_items
  run_items-Tallied first user [] s h adds = (refl, (adds, inl (refl, omega arith)))
  run_items-Tallied first user (w ∷ ws) s h adds =
      let k = process_with_session_retry positive env user w h in
      let s' = count_item env.options.dry_run s k.0.0 in
      let one = count_item-Adds env.options.dry_run s k.0.0 adds in
      let rest = run_items-Tallied false k.0.1 ws s' k.1 one.0 in
      elim (Bool-cases (awake positive env first h)) [
        | inr cut ↦
            let same : run_items positive env first user (w ∷ ws) s h ≡ ((s, some not_slept), h) =
              rw (run_items, cut) in
            subst (λ o. Tallied s (suc (length ws)) o.0) (sym same)
              (refl, (adds, inr (refl, omega arith)))
        | inl on ↦
            let same : run_items positive env first user (w ∷ ws) s h
                ≡ run_items positive env false k.0.1 ws s' k.1 =
              rw (run_items, on) in
            subst (λ o. Tallied s (suc (length ws)) o.0) (sym same)
              (Tallied-suc s s' (length ws) _ one.1.0 one.1.1 rest)
      ]

  run_work-Balanced :
      (max : ℕ) (ws : List Work) (h : List (Call Amount))
      → length ws ≤ max
      → Balanced max (run_work positive env ws h).0
  unfolding run_work empty_summary
  run_work-Balanced max [] h small = (omega arith, (omega arith, (omega arith, inr refl)))
  run_work-Balanced max (w ∷ ws) h small =
      let s : Summary = record empty_summary { fetched = length (w ∷ ws) } in
      elim (Option-cases (env.on_login h)) [
        | inl failed ↦
            let same : run_work positive env (w ∷ ws) h ≡ ((s, some login_failed), login ∷ h) =
              rw (run_work, failed) in
            subst (λ o. Balanced max o.0) (sym same)
              (omega arith, (omega arith, (small, inl (λ e. cc))))
        | inr (user, got) ↦
            let same : run_work positive env (w ∷ ws) h
                ≡ run_items positive env true user (w ∷ ws) s (login ∷ h) =
              rw (run_work, got) in
            subst (λ o. Balanced max o.0) (sym same)
              (of_tally _ (run_items-Tallied true user (w ∷ ws) s (login ∷ h) (omega arith)))
      ]
    where
      of_tally :
          (o : Summary × Option Error)
          → Tallied (record empty_summary { fetched = length (w ∷ ws) }) (length (w ∷ ws)) o
          → Balanced max o
      of_tally o (f, (adds, inl (e, all))) =
          (adds, (omega (arith, f, all), (omega (arith, f, small), inr (omega (arith, f, all)))))
      of_tally o (f, (adds, inr (e, part))) =
          (adds, (omega (arith, f, part), (omega (arith, f, small), inl (λ none_is. cc))))

  on_listed-Balanced :
      (r : Result Error (List Work)) (h : List (Call Amount))
      → Listed env.options r
      → Balanced env.options.max (on_listed positive env (r, h)).0
  unfolding on_listed empty_summary
  on_listed-Balanced (err e) h listed =
      (omega arith, (omega arith, (omega arith, inl (λ none_is. cc))))
  on_listed-Balanced (ok ws) h listed = run_work-Balanced env.options.max ws h listed.0

  run_with-Balanced :
      (h : List (Call Amount)) → Balanced env.options.max (run_with positive env h).0
  unfolding run_with empty_summary
  run_with-Balanced h = elim (Bool-cases (bad_settings env.options)) [
    | inl bad ↦
        let same : run_with positive env h ≡ ((empty_summary, some bad_options), h) =
          rw (run_with, bad) in
        subst (λ o. Balanced env.options.max o.0) (sym same)
          (omega arith, (omega arith, (omega arith, inl (λ none_is. cc))))
    | inr good ↦
        let same : run_with positive env h ≡ on_listed positive env (list_missing env h) =
          rw (run_with, good) in
        let size : 1 ≤ env.options.page_size = unfold bad_settings in ground (arith, good) in
        let q = list_missing env h in
        subst (λ o. Balanced env.options.max o.0) (sym same)
          (on_listed-Balanced q.0 q.1 (list_missing-Listed env h size))
  ]

-- The summary of a run adds up: the items attempted are those updated, those failed and those that a
-- dry run left as they are. They are no more than were fetched, which are no more than the configured
-- maximum, and they are all of them where the run ends without an error.
pub run-Balanced :
    {Amount : Type 0} (positive : Amount → Bool) (env : Env Amount) (h : List (Call Amount))
    → Balanced env.options.max (run positive env h).0
unfolding run
run-Balanced positive env h =
    let all = run_with-Balanced positive (record env { options = defaulted env.options }) h in
    subst (λ m. Balanced m (run positive env h).0) (defaulted_keeps env.options).1.1 all
