-- ===== src/Backfill/Run/Dry.antt =====
-- What a dry run posts.
use nitroso_tin.Base.{
  String, Bool, true, false, some, List, [], ◌∷◌, ◌≡◌, refl, ap, ◌∙◌, inl, inr, arith, Result, ok,
  err, Bool-cases, Option-cases, length, ◌==◌,
}
use nitroso_tin.Backfill.World.{
  Work, Options, Error, bad_options, not_slept, login_failed, Call, login, Env,
}
use nitroso_tin.Backfill.Listing.{list_missing}
use nitroso_tin.Backfill.Listing.Reads.{posted_ids-list_missing}
use nitroso_tin.Backfill.Item.{process_with_session_retry}
use nitroso_tin.Backfill.Item.Posts.{posted_ids, process_with_session_retry-PostsUp}
use nitroso_tin.Backfill.Run.{
  Summary, empty_summary, bad_settings, defaulted, count_item, awake, run_items, run_work,
  on_listed, run_with, run,
}

module _ {Amount : Type 0} (positive : Amount → Bool) (env : Env Amount) where
  posted_ids-run_items :
      env.options.dry_run ≡ true
      → (first : Bool) (user : String) (ws : List Work) (s : Summary) (h : List (Call Amount))
      → posted_ids (run_items positive env first user ws s h).1 ≡ posted_ids h
  unfolding run_items
  posted_ids-run_items dry first user [] s h = refl
  posted_ids-run_items dry first user (w ∷ ws) s h =
      let k = process_with_session_retry positive env user w h in
      let s' = count_item env.options.dry_run s k.0.0 in
      let rest = posted_ids-run_items dry false k.0.1 ws s' k.1 in
      elim (Bool-cases (awake positive env first h)) [
        | inr cut ↦
            let same : run_items positive env first user (w ∷ ws) s h ≡ ((s, some not_slept), h) =
              rw (run_items, cut) in
            cc
        | inl on ↦
            let same : run_items positive env first user (w ∷ ws) s h
                ≡ run_items positive env false k.0.1 ws s' k.1 =
              rw (run_items, on) in
            elim (process_with_session_retry-PostsUp positive env w (posted_ids h) user h refl) [
              | inl none_new ↦ cc
              | inr (live, one_new) ↦ absurd (ground (arith, dry, live))
            ]
      ]

  posted_ids-run_work :
      env.options.dry_run ≡ true
      → (ws : List Work) (h : List (Call Amount))
      → posted_ids (run_work positive env ws h).1 ≡ posted_ids h
  unfolding run_work
  posted_ids-run_work dry [] h = refl
  posted_ids-run_work dry (w ∷ ws) h =
      let s : Summary = record empty_summary { fetched = length (w ∷ ws) } in
      elim (Option-cases (env.on_login h)) [
        | inl failed ↦
            let same : run_work positive env (w ∷ ws) h ≡ ((s, some login_failed), login ∷ h) =
              rw (run_work, failed) in
            cc
        | inr (user, got) ↦
            let same : run_work positive env (w ∷ ws) h
                ≡ run_items positive env true user (w ∷ ws) s (login ∷ h) =
              rw (run_work, got) in
            ap (λ o. posted_ids o.1) same
            ∙ posted_ids-run_items dry true user (w ∷ ws) s (login ∷ h)
      ]

  posted_ids-on_listed :
      env.options.dry_run ≡ true
      → (r : Result Error (List Work)) (h : List (Call Amount))
      → posted_ids (on_listed positive env (r, h)).1 ≡ posted_ids h
  unfolding on_listed
  posted_ids-on_listed dry (err e) h = refl
  posted_ids-on_listed dry (ok ws) h = posted_ids-run_work dry ws h

  posted_ids-run_with :
      env.options.dry_run ≡ true
      → (h : List (Call Amount)) → posted_ids (run_with positive env h).1 ≡ posted_ids h
  unfolding run_with
  posted_ids-run_with dry h = elim (Bool-cases (bad_settings env.options)) [
    | inl bad ↦
        let same : run_with positive env h ≡ ((empty_summary, some bad_options), h) =
          rw (run_with, bad) in
        cc
    | inr good ↦
        let same : run_with positive env h ≡ on_listed positive env (list_missing env h) =
          rw (run_with, good) in
        let q = list_missing env h in
        ap (λ o. posted_ids o.1) same
        ∙ posted_ids-on_listed dry q.0 q.1
        ∙ posted_ids-list_missing env h
  ]

-- The defaulting of the status leaves the other options as they are.
pub defaulted_keeps :
    (o : Options)
    → ((defaulted o).dry_run ≡ o.dry_run)
      × (((defaulted o).refund ≡ o.refund) × ((defaulted o).max ≡ o.max))
unfolding defaulted
defaulted_keeps o = elim (Bool-cases (o.status == 0)) [
  | inl zero_status ↦
      (ground (arith, zero_status), (ground (arith, zero_status), ground (arith, zero_status)))
  | inr set ↦ (ground (arith, set), (ground (arith, set), ground (arith, set)))
]

-- A dry run, of costs or of refunds, posts nothing.
pub posted_ids-run :
    {Amount : Type 0} (positive : Amount → Bool) (env : Env Amount)
    → env.options.dry_run ≡ true
    → (h : List (Call Amount)) → posted_ids (run positive env h).1 ≡ posted_ids h
unfolding run
posted_ids-run positive env dry h =
    posted_ids-run_with positive (record env { options = defaulted env.options })
      ((defaulted_keeps env.options).0 ∙ dry) h
