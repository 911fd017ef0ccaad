-- ===== src/Backfill/Listing/Reads.antt =====
-- What the listing leaves alone: it posts nothing.
use nitroso_tin.Base.{
  ℕ, zero, suc, ◌+◌, ◌-◌, ◌%◌, min, String, List, [], ◌∷◌, ◌≡◌, refl, sym, subst, inl, inr, length,
  take, ltb, ok, err, bind_result, bind_result_keeps, Bool-cases, pure,
}
use nitroso_tin.Backfill.World.{Work, out_of_fuel, Call, refund_page, Env, M}
use nitroso_tin.Backfill.Listing.{
  int32_range, Gathered, gather, work_of, get_cost_page, on_page, list_costs, list_missing_refunds,
  list_missing,
}
use nitroso_tin.Backfill.Item.Posts.{posted_ids}

module _ {Amount : Type 0} (env : Env Amount) (ids : List String) where
  on_page_keeps :
      (body : List Work) (limit : ℕ) (page : List Work) (acc : Gathered)
      (next : M Amount (List Work)) (h : List (Call Amount))
      → posted_ids h ≡ ids
      → posted_ids (next h).1 ≡ ids
      → posted_ids (on_page env body limit page acc next h).1 ≡ ids
  unfolding on_page
  on_page_keeps [] limit page acc next h is on = is
  on_page_keeps (w ∷ ws) limit page acc next h is on = elim (Bool-cases (ltb (length page) limit)) [
    | inl short ↦
        let same : on_page env (w ∷ ws) limit page acc next h ≡ (ok (gather acc page).1, h) =
          rw (on_page, short) in
        cc
    | inr full ↦
        let same : on_page env (w ∷ ws) limit page acc next h ≡ next h = rw (on_page, full) in cc
  ]

  list_costs_keeps :
      (fuel scanned : ℕ) (acc : Gathered) (h : List (Call Amount))
      → posted_ids h ≡ ids
      → posted_ids (list_costs env fuel scanned acc h).1 ≡ ids
  unfolding list_costs get_cost_page
  list_costs_keeps zero scanned acc h is = elim (Bool-cases (ltb scanned env.options.max)) [
    | inl more ↦
        let same : list_costs env zero scanned acc h ≡ (err out_of_fuel, h) =
          rw (list_costs, more) in
        cc
    | inr stop ↦
        let same : list_costs env zero scanned acc h ≡ (ok acc.1, h) = rw (list_costs, stop) in cc
  ]
  list_costs_keeps (suc fuel) scanned acc h is =
      let limit = min env.options.page_size (env.options.max - scanned) in
      elim (Bool-cases (ltb scanned env.options.max)) [
        | inr stop ↦
            let same : list_costs env (suc fuel) scanned acc h ≡ (ok acc.1, h) =
              rw (list_costs, stop) in
            cc
        | inl more ↦
            let same : list_costs env (suc fuel) scanned acc h
                ≡ bind_result (get_cost_page env limit scanned h) (λ body.
                  on_page env body limit (take limit body) acc (
                    list_costs env fuel (scanned + length (take limit body))
                      (gather acc (take limit body)))) =
              rw (list_costs, more) in
            subst (λ r. posted_ids r.1 ≡ ids) (sym same)
              (bind_result_keeps (λ w. posted_ids w ≡ ids) (get_cost_page env limit scanned h) _ is
                (λ body w is'.
                  let page = take limit body in
                  let next = list_costs env fuel (scanned + length page) (gather acc page) in
                  on_page_keeps body limit page acc next w is'
                    (list_costs_keeps fuel (scanned + length page) (gather acc page) w is')))
      ]

  list_missing_refunds_keeps :
      (h : List (Call Amount))
      → posted_ids h ≡ ids
      → posted_ids (list_missing_refunds env h).1 ≡ ids
  unfolding list_missing_refunds
  list_missing_refunds_keeps h is =
      let limit = env.options.max % int32_range in
      let keep : List Work → M Amount (List Work) = λ ws. pure (take env.options.max ws) in
      bind_result_keeps (λ w. posted_ids w ≡ ids)
        (work_of (env.on_refund_page h limit), refund_page limit ∷ h) keep is (λ ws w is'. is')

  list_missing_keeps :
      (h : List (Call Amount)) → posted_ids h ≡ ids → posted_ids (list_missing env h).1 ≡ ids
  unfolding list_missing
  list_missing_keeps h is = elim (Bool-cases env.options.refund) [
    | inl refund ↦
        let same : list_missing env h ≡ list_missing_refunds env h = rw (list_missing, refund) in
        subst (λ r. posted_ids r.1 ≡ ids) (sym same) (list_missing_refunds_keeps h is)
    | inr cost ↦
        let same : list_missing env h ≡ list_costs env env.options.max 0 ([], []) h =
          rw (list_missing, cost) in
        subst (λ r. posted_ids r.1 ≡ ids) (sym same)
          (list_costs_keeps env.options.max 0 ([], []) h is)
  ]

pub posted_ids-list_missing :
    {Amount : Type 0} (env : Env Amount) (h : List (Call Amount))
    → posted_ids (list_missing env h).1 ≡ posted_ids h
posted_ids-list_missing env h = list_missing_keeps env (posted_ids h) h refl
