-- ===== src/Withdrawer/Listing.antt =====
-- The listing by pages: how many pages it reads, and what it returns of a list that stays as it is.
use nitroso_tin.Base.{
  ℕ, zero, suc, ◌+◌, ◌*◌, ◌%◌, ◌<◌, ◌≤◌, String, Bool, true, false, some, List, [], ◌∷◌, ◌++◌, ◌≡◌,
  sym, subst, ◌∙◌, ap, inl, inr, arith, ok, length, ltb, count_if, take, drop, take_short, take-add,
  length-take-le, bind_result_cases, Bool-cases,
}
use nitroso_tin.Zinc.{answered}
use nitroso_tin.Withdrawer.{
  Withdrawal, M, Call, list_page, act, get_settings, Env, int32_mod, max_list_pages, page_limit,
  short_page, go_on, page_of, get_page, list_pages, list_by_status,
}

abbrev pub is_list : Call → Bool
is_list (list_page status limit skip) = true
is_list (act action id) = false
is_list get_settings = false

module _ (env : Env) (status : String) where
  go_on-le :
      (n limit : ℕ) (gathered page : List Withdrawal) (next : M (List Withdrawal)) (w : List Call)
      → count_if is_list w ≤ n
      → count_if is_list (next w).1 ≤ n
      → count_if is_list (go_on env limit gathered page next w).1 ≤ n
  unfolding go_on
  go_on-le n limit gathered page next w q rest = elim (Bool-cases (short_page page limit)) [
    | inl short ↦
        let same : go_on env limit gathered page next w ≡ (ok (gathered ++ page), w) =
          rw (go_on, short) in
        subst (λ r. count_if is_list r.1 ≤ n) (sym same) q
    | inr full ↦
        let same : go_on env limit gathered page next w ≡ next w = rw (go_on, full) in
        subst (λ r. count_if is_list r.1 ≤ n) (sym same) rest
  ]

  list_pages-le :
      (rounds limit skip : ℕ) (gathered : List Withdrawal) (h : List Call)
      → count_if is_list (list_pages env rounds status limit skip gathered h).1
        ≤ count_if is_list h + rounds
  unfolding list_pages get_page
  list_pages-le zero limit skip gathered h = omega arith
  list_pages-le (suc rounds) limit skip gathered h =
      let k : List Call = list_page status limit skip ∷ h in
      bind_result_cases (λ r. count_if is_list r.1 ≤ count_if is_list h + suc rounds)
        (get_page env status limit skip h)
        (λ page.
          go_on env limit gathered page
            (list_pages env rounds status limit ((skip + limit) % int32_mod) (gathered ++ page)))
        (λ e w is. ground arith)
        (λ page w is.
          let sent : w ≡ k = ground arith in
          let rest = list_pages-le rounds limit ((skip + limit) % int32_mod) (gathered ++ page) w in
          go_on-le (count_if is_list h + suc rounds) limit gathered page
            (list_pages env rounds status limit ((skip + limit) % int32_mod) (gathered ++ page)) w
            (ground (arith, ap (count_if is_list) sent))
            (ground (arith, rest, ap (count_if is_list) sent)))

  -- The listing of one status ends, with a list or with an error, after at most 50 requests,
  -- whatever zinc answers and whatever page size is configured.
  pub list_by_status_bound :
      (h : List Call) → count_if is_list (list_by_status env status h).1 ≤ count_if is_list h + 50
  unfolding list_by_status
  list_by_status_bound h = list_pages-le max_list_pages (page_limit env.limit_setting) 0 [] h

  module _ (all : List Withdrawal) (limit : ℕ) (small : limit < 2_147_483_648)
      (stable : (h : List Call) (skip : ℕ)
        → skip < 2_147_483_648
        → env.on_list h status limit skip ≡ answered 200 (some (take limit (drop skip all)))) where
    short_page-window :
        (skip : ℕ)
        → short_page (take limit (drop skip all)) limit
          ≡ ltb (length (take limit (drop skip all))) limit
    unfolding short_page
    short_page-window skip =
        let bound = length-take-le limit (drop skip all) in ground (arith, bound)

    get_page-window :
        (skip : ℕ) (h : List Call)
        → skip < 2_147_483_648
        → get_page env status limit skip h
          ≡ (ok (take limit (drop skip all)), list_page status limit skip ∷ h)
    unfolding get_page page_of
    get_page-window skip h lt = rw (get_page, stable h skip lt)

    list_pages-take :
        (rounds skip : ℕ) (h : List Call)
        → skip + rounds * limit < 2_147_483_648
        → (list_pages env rounds status limit skip (take skip all) h).0
          ≡ ok (take (skip + rounds * limit) all)
    unfolding list_pages go_on
    list_pages-take zero skip h lt = ap (λ k. ok (take k all)) (omega arith)
    list_pages-take (suc rounds) skip h lt =
        let page = take limit (drop skip all) in
        let got = get_page-window skip h (omega arith) in
        let on =
          list_pages-take rounds (skip + limit) (list_page status limit skip ∷ h) (omega arith) in
        let wrap : (skip + limit) % int32_mod ≡ skip + limit = omega arith in
        let split = take-add skip limit all in
        let window = short_page-window skip in
        elim (Bool-cases (ltb (length page) limit)) [
          | inl short ↦
              let same : list_pages env (suc rounds) status limit skip (take skip all) h
                  ≡ (ok (take skip all ++ page), list_page status limit skip ∷ h) =
                rw (list_pages, got, window, short) in
              let rest =
                take_short limit (rounds * limit) (drop skip all) (ground (arith, short)) in
              let far : skip + suc rounds * limit ≡ skip + (limit + rounds * limit) = omega arith in
              let whole : take (skip + suc rounds * limit) all ≡ take skip all ++ page =
                ap (λ k. take k all) far
                ∙ take-add skip (limit + rounds * limit) all
                ∙ ap (λ xs. take skip all ++ xs) rest in
              ap (λ r. r.0) same ∙ ap ok (sym whole)
          | inr full ↦
              let same : list_pages env (suc rounds) status limit skip (take skip all) h
                  ≡ list_pages env rounds status limit (skip + limit) (take (skip + limit) all)
                      (list_page status limit skip ∷ h) =
                rw (list_pages, got, window, full, wrap, split) in
              let far : skip + limit + rounds * limit ≡ skip + suc rounds * limit = omega arith in
              ap (λ r. r.0) same ∙ on ∙ ap (λ k. ok (take k all)) far
        ]

    list_pages-start :
        (rounds : ℕ) (h : List Call)
        → rounds * limit < 2_147_483_648
        → (list_pages env rounds status limit 0 [] h).0 ≡ ok (take (rounds * limit) all)
    list_pages-start rounds h lt =
        let far : 0 + rounds * limit ≡ rounds * limit = omega arith in
        list_pages-take rounds 0 h (omega arith) ∙ ap (λ k. ok (take k all)) far

-- If zinc's list of a status stays as it is during the listing and every page shows the part of it
-- that the request names, then the listing returns the first fifty pages' worth of the list: all
-- of it where it is no longer than that, and no withdrawal twice or out of order. The page size is
-- such that fifty pages stay within the `int32` that counts the rows skipped.
pub list_by_status-take :
    (env : Env) (status : String) (all : List Withdrawal)
    → 50 * page_limit env.limit_setting < 2_147_483_648
    → ((h : List Call) (skip : ℕ)
        → skip < 2_147_483_648
        → env.on_list h status (page_limit env.limit_setting) skip
          ≡ answered 200 (some (take (page_limit env.limit_setting) (drop skip all))))
    → (h : List Call)
    → (list_by_status env status h).0 ≡ ok (take (50 * page_limit env.limit_setting) all)
unfolding list_by_status
list_by_status-take env status all small stable h =
    list_pages-start env status all (page_limit env.limit_setting) (omega arith) stable
      max_list_pages h small
