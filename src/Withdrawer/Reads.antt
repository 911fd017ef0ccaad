-- ===== src/Withdrawer/Reads.antt =====
-- What the listing leaves alone: it sends no request but for pages.
use nitroso_tin.Base.{
  ℕ, zero, suc, ◌+◌, ◌%◌, String, List, [], ◌∷◌, ◌++◌, ◌≡◌, sym, subst, inl, inr, ok,
  bind_result_keeps, Bool-cases,
}
use nitroso_tin.Withdrawer.{
  Withdrawal, M, Call, list_page, Env, int32_mod, max_list_pages, page_limit, short_page, go_on,
  get_page, list_pages, list_by_status,
}

module _ (env : Env) (P : List Call → Type 0) (status : String)
    (closed : (limit skip : ℕ) (h : List Call) → P h → P (list_page status limit skip ∷ h)) where
  go_on_keeps :
      (limit : ℕ) (gathered page : List Withdrawal) (next : M (List Withdrawal)) (w : List Call)
      → P w
      → P (next w).1
      → P (go_on env limit gathered page next w).1
  unfolding go_on
  go_on_keeps limit gathered page next w q rest = elim (Bool-cases (short_page page limit)) [
    | inl short ↦
        let same : go_on env limit gathered page next w ≡ (ok (gathered ++ page), w) =
          rw (go_on, short) in
        subst (λ r. P r.1) (sym same) q
    | inr full ↦
        let same : go_on env limit gathered page next w ≡ next w = rw (go_on, full) in
        subst (λ r. P r.1) (sym same) rest
  ]

  list_pages_keeps :
      (rounds limit skip : ℕ) (gathered : List Withdrawal) (h : List Call)
      → P h
      → P (list_pages env rounds status limit skip gathered h).1
  unfolding list_pages get_page go_on
  list_pages_keeps zero limit skip gathered h p = p
  list_pages_keeps (suc rounds) limit skip gathered h p =
      bind_result_keeps P (get_page env status limit skip h)
        (λ page.
          go_on env limit gathered page
            (list_pages env rounds status limit ((skip + limit) % int32_mod) (gathered ++ page)))
        (closed limit skip h p)
        (λ page w q.
          let rest =
            list_pages_keeps rounds limit ((skip + limit) % int32_mod) (gathered ++ page) w q in
          go_on_keeps limit gathered page
            (list_pages env rounds status limit ((skip + limit) % int32_mod) (gathered ++ page)) w q
            rest)

  pub list_by_status_keeps : (h : List Call) → P h → P (list_by_status env status h).1
  unfolding list_by_status
  list_by_status_keeps h p = list_pages_keeps max_list_pages (page_limit env.limit_setting) 0 [] h p
