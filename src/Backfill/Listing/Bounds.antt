-- ===== src/Backfill/Listing/Bounds.antt =====
-- The listing ends, within its bounds and without repetition.
use nitroso_tin.Base.{
  pure, ◌%◌, ℕ, zero, suc, ◌+◌, ◌-◌, ◌≤◌, min, String, true, false, none, some, List, [], ◌∷◌, ◌++◌,
  ◌≡◌, refl, sym, subst, ap, inl, inr, ◌⊎◌, arith, length, length-append, length-take-le, take,
  member, Distinct, append-Distinct, member-append, ltb, Result, ok, err, bind_result,
  bind_result_cases, Bool-cases,
}
use nitroso_tin.Zinc.{Reply, unreached, answered}
use nitroso_tin.Backfill.World.{
  Work, Options, Error, out_of_fuel, list_failed, Call, refund_page, Env, M,
}
use nitroso_tin.Backfill.Listing.{
  int32_range, Gathered, gather, work_of, get_cost_page, on_page, list_costs, list_missing_refunds,
  list_missing,
}

abbrev pub work_ids : List Work → List String
work_ids [] = []
work_ids (w ∷ ws) = w.id ∷ work_ids ws

work_ids-append : (xs ys : List Work) → work_ids (xs ++ ys) ≡ work_ids xs ++ work_ids ys
work_ids-append [] ys = refl
work_ids-append (x ∷ xs) ys = ap (λ ids. x.id ∷ ids) (work_ids-append xs ys)

-- The identifiers seen are those of the items gathered, of which no two are the same.
abbrev Tracks : Gathered → Type 0
Tracks acc =
    Distinct (work_ids acc.1) × ((id : String) → member id acc.0 ≡ member id (work_ids acc.1))

gather-Tracks : (ws : List Work) (acc : Gathered) → Tracks acc → Tracks (gather acc ws)
unfolding gather
gather-Tracks [] acc t = t
gather-Tracks (w ∷ ws) acc t =
    let old = gather-Tracks ws acc t in
    let next : Gathered = (w.id ∷ acc.0, acc.1 ++ (w ∷ [])) in
    let shape = work_ids-append acc.1 (w ∷ []) in
    elim (Bool-cases (member w.id acc.0)) [
      | inl again ↦
          let same : gather acc (w ∷ ws) ≡ gather acc ws = rw (gather, again) in
          subst Tracks (sym same) old
      | inr first ↦
          let same : gather acc (w ∷ ws) ≡ gather next ws = rw (gather, first) in
          let fits : Tracks next = (
            subst Distinct (sym shape)
                (append-Distinct (work_ids acc.1) w.id t.0 (ground (arith, first, t.1 w.id))),
            λ id. ground (
              arith,
              ap (member id) shape,
              member-append id (work_ids acc.1) (w.id ∷ []),
              t.1 id,
            ),
          ) in
          subst Tracks (sym same) (gather-Tracks ws next fits)
    ]

gather-le : (ws : List Work) (acc : Gathered) → length (gather acc ws).1 ≤ length acc.1 + length ws
unfolding gather
gather-le [] acc = omega arith
gather-le (w ∷ ws) acc =
    let next : Gathered = (w.id ∷ acc.0, acc.1 ++ (w ∷ [])) in
    let old = gather-le ws acc in
    let new = gather-le ws next in
    let size = length-append acc.1 (w ∷ []) in
    elim (Bool-cases (member w.id acc.0)) [
      | inl again ↦
          let same : gather acc (w ∷ ws) ≡ gather acc ws = rw (gather, again) in
          subst (λ g. length g.1 ≤ length acc.1 + suc (length ws)) (sym same) (omega arith)
      | inr first ↦
          let same : gather acc (w ∷ ws) ≡ gather next ws = rw (gather, first) in
          subst (λ g. length g.1 ≤ length acc.1 + suc (length ws)) (sym same) (omega (arith, size))
    ]

-- A listing within the bound, and without repetition unless it lists refunds; or an error other
-- than a lack of fuel.
abbrev pub Listed : Options → Result Error (List Work) → Type 0
Listed o (ok ws) = (length ws ≤ o.max) × ((o.refund ≡ true) ⊎ Distinct (work_ids ws))
Listed o (err out_of_fuel) = ⊥
Listed o (err e) = Unit

work_of-err : (reply : Reply (List Work)) (e : Error) → work_of reply ≡ err e → e ≡ list_failed
unfolding work_of
work_of-err unreached e h = ground arith
work_of-err (answered status none) e h = ground arith
work_of-err (answered status (some ws)) e h = ground arith

module _ {Amount : Type 0} (env : Env Amount) where
  err-Listed : (e : Error) → e ≡ list_failed → Listed env.options (err e)
  err-Listed e is = subst (λ x. Listed env.options (err x)) (sym is) tt

  get_cost_page-Listed :
      (limit skip : ℕ) (h : List (Call Amount)) (e : Error) (w : List (Call Amount))
      → get_cost_page env limit skip h ≡ (err e, w)
      → Listed env.options (err e)
  unfolding get_cost_page
  get_cost_page-Listed limit skip h e w is = err-Listed e (
      work_of-err (env.on_cost_page h env.options.status (limit % int32_range) (skip % int32_range))
        e (ap (λ r. r.0) is))

  -- A page is gathered within the rows counted, and counts at least one.
  on_page-Listed :
      (body : List Work) (limit scanned : ℕ) (acc : Gathered) (next : M Amount (List Work))
      (h : List (Call Amount))
      → scanned + limit ≤ env.options.max
      → 1 ≤ limit
      → length acc.1 ≤ scanned
      → Tracks acc
      → ((1 ≤ length (take limit body)) → Listed env.options (next h).0)
      → Listed env.options (on_page env body limit (take limit body) acc next h).0
  unfolding on_page
  on_page-Listed [] limit scanned acc next h room some_room fits t on = (omega arith, inr t.0)
  on_page-Listed (w ∷ ws) limit scanned acc next h room some_room fits t on =
      let page = take limit (w ∷ ws) in
      let small = length-take-le limit (w ∷ ws) in
      elim (Bool-cases (ltb (length page) limit)) [
        | inl short ↦
            let same : on_page env (w ∷ ws) limit page acc next h ≡ (ok (gather acc page).1, h) =
              rw (on_page, short) in
            subst (λ r. Listed env.options r.0) (sym same)
              (omega (arith, gather-le page acc, small), inr (gather-Tracks page acc t).0)
        | inr full ↦
            let same : on_page env (w ∷ ws) limit page acc next h ≡ next h = rw (on_page, full) in
            subst (λ r. Listed env.options r.0) (sym same) (on (ground (arith, full)))
      ]

  list_costs-Listed :
      (fuel scanned : ℕ) (acc : Gathered) (h : List (Call Amount))
      → 1 ≤ env.options.page_size
      → env.options.max ≤ scanned + fuel
      → scanned ≤ env.options.max
      → length acc.1 ≤ scanned
      → Tracks acc
      → Listed env.options (list_costs env fuel scanned acc h).0
  unfolding list_costs get_cost_page
  list_costs-Listed zero scanned acc h size enough within fits t =
      let stop : ltb scanned env.options.max ≡ false = ground arith in
      let same : list_costs env zero scanned acc h ≡ (ok acc.1, h) = rw (list_costs, stop) in
      subst (λ r. Listed env.options r.0) (sym same) (omega arith, inr t.0)
  list_costs-Listed (suc fuel) scanned acc h size enough within fits t =
      let limit = min env.options.page_size (env.options.max - scanned) in
      elim (Bool-cases (ltb scanned env.options.max)) [
        | inr stop ↦
            let same : list_costs env (suc fuel) scanned acc h ≡ (ok acc.1, h) =
              rw (list_costs, stop) in
            subst (λ r. Listed env.options r.0) (sym same) (omega arith, inr t.0)
        | inl more ↦
            let same : list_costs env (suc fuel) scanned acc h
                ≡ bind_result (get_cost_page env limit scanned h) (λ body.
                  on_page env body limit (take limit body) acc (
                    list_costs env fuel (scanned + length (take limit body))
                      (gather acc (take limit body)))) =
              rw (list_costs, more) in
            subst (λ r. Listed env.options r.0) (sym same)
              (bind_result_cases (λ r. Listed env.options r.0) (get_cost_page env limit scanned h) _
                (λ e w is. get_cost_page-Listed limit scanned h e w is)
                (λ body w is.
                  let page = take limit body in
                  let small = length-take-le limit body in
                  on_page-Listed body limit scanned acc
                    (list_costs env fuel (scanned + length page) (gather acc page)) w
                    (ground (arith, more)) (ground (arith, more)) fits t
                    (λ counts.
                      list_costs-Listed fuel (scanned + length page) (gather acc page) w size
                        (omega arith) (ground (arith, more)) (omega (arith, gather-le page acc))
                        (gather-Tracks page acc t))))
      ]

  list_missing_refunds-Listed :
      (h : List (Call Amount))
      → env.options.refund ≡ true
      → Listed env.options (list_missing_refunds env h).0
  unfolding list_missing_refunds
  list_missing_refunds-Listed h refund =
      let limit = env.options.max % int32_range in
      let reply = env.on_refund_page h limit in
      let keep : List Work → M Amount (List Work) = λ ws. pure (take env.options.max ws) in
      bind_result_cases (λ r. Listed env.options r.0) (work_of reply, refund_page limit ∷ h) keep
        (λ e w is. err-Listed e (work_of-err reply e (ap (λ r. r.0) is)))
        (λ ws w is. (length-take-le env.options.max ws, inl refund))

  -- With a page size of at least 1, the listing of the missing amounts ends before its fuel does, in
  -- both modes and whatever zinc answers. What it returns is no longer than the configured maximum,
  -- and the costs to backfill name no booking twice.
  pub list_missing-Listed :
      (h : List (Call Amount))
      → 1 ≤ env.options.page_size
      → Listed env.options (list_missing env h).0
  unfolding list_missing
  list_missing-Listed h size = elim (Bool-cases env.options.refund) [
    | inl refund ↦
        let same : list_missing env h ≡ list_missing_refunds env h = rw (list_missing, refund) in
        subst (λ r. Listed env.options r.0) (sym same) (list_missing_refunds-Listed h refund)
    | inr cost ↦
        let same : list_missing env h ≡ list_costs env env.options.max 0 ([], []) h =
          rw (list_missing, cost) in
        subst (λ r. Listed env.options r.0) (sym same)
          (list_costs-Listed env.options.max 0 ([], []) h size (omega arith) (omega arith)
            (omega arith) (tt, λ id. refl))
  ]
