-- ===== src/Backfill/Listing.antt =====
-- The bookings to work on: `listMissing` and `listMissingRefunds`.
pub mod Bounds
pub mod Reads
use Prim.Native.Nat.{◌^◌}
use nitroso_tin.Base.{
  ℕ, zero, suc, ◌+◌, ◌-◌, ◌%◌, min, String, Bool, Option, none, some, List, [], ◌∷◌, ◌++◌, length,
  take, member, ltb, ◌==◌, if◌then◌else◌, Result, ok, err, ◌>>=◌, bind_result, pure, throw,
}
use nitroso_tin.Zinc.{Reply, unreached, answered}
use nitroso_tin.Backfill.World.{
  Work, Error, list_failed, out_of_fuel, Call, cost_page, refund_page, Env, M,
}

abbrev pub int32_range : ℕ
int32_range = 2 ^ 32

unfoldable pub work_of : Reply (List Work) → Result Error (List Work)
work_of unreached = err list_failed
work_of (answered status body) =
    if status == 200
    then (elim body [ none ↦ err list_failed | some ws ↦ ok ws ])
    else err list_failed

-- The identifiers seen, and the items gathered.
abbrev pub Gathered : Type 0
Gathered = List String × List Work

unfoldable pub gather : Gathered → List Work → Gathered
gather acc [] = acc
gather acc (w ∷ ws) =
    let old = gather acc ws in
    let new = gather (w.id ∷ acc.0, acc.1 ++ (w ∷ [])) ws in if member w.id acc.0 then old else new

module _ {Amount : Type 0} (env : Env Amount) where
  unfoldable pub get_cost_page : ℕ → ℕ → M Amount (List Work)
  unfolding work_of
  get_cost_page limit skip h =
      let l = limit % int32_range in
      let s = skip % int32_range in
      (work_of (env.on_cost_page h env.options.status l s), cost_page env.options.status l s ∷ h)

  -- An empty page ends the listing, and a short one after its items.
  unfoldable pub on_page :
      List Work → ℕ → List Work → Gathered → M Amount (List Work) → M Amount (List Work)
  on_page [] limit page acc next = pure acc.1
  on_page (w ∷ ws) limit page acc next =
      if ltb (length page) limit then pure (gather acc page).1 else next

  -- The fuel counts the pages.
  unfoldable pub list_costs : ℕ → ℕ → Gathered → M Amount (List Work)
  unfolding get_cost_page on_page gather
  list_costs zero scanned acc =
      if ltb scanned env.options.max then throw out_of_fuel else pure acc.1
  list_costs (suc fuel) scanned acc =
      let limit = min env.options.page_size (env.options.max - scanned) in
      let read : M Amount (List Work) = get_cost_page limit scanned >>= λ body.
      on_page body limit (take limit body) acc
        (list_costs fuel (scanned + length (take limit body)) (gather acc (take limit body))) in
      if ltb scanned env.options.max then read else pure acc.1

  unfoldable pub list_missing_refunds : M Amount (List Work)
  unfolding work_of
  list_missing_refunds h =
      let limit = env.options.max % int32_range in
      bind_result (work_of (env.on_refund_page h limit), refund_page limit ∷ h)
        (λ ws. pure (take env.options.max ws))

  -- Every page read counts at least one item, so `max` pages are enough.
  unfoldable pub list_missing : M Amount (List Work)
  unfolding list_costs list_missing_refunds
  list_missing =
      if env.options.refund then list_missing_refunds else list_costs env.options.max 0 ([], [])
