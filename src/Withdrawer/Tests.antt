-- ===== src/Withdrawer/Tests.antt =====
-- One withdrawer, with a zinc that lists three withdrawals of a status, and its sweeps run.
use nitroso_tin.Base.{
  has_prefix, ◌+◌, ◌*◌, String, str_eq, true, false, none, some, List, [], ◌∷◌, ◌++◌, ◌≡◌, ◌⊎◌, inl,
  refl, arith, ok, take, drop,
}
use nitroso_tin.Zinc.{Reply, unreached, answered}
use nitroso_tin.Withdrawer.{
  Withdrawal, Problem, approve, Call, act, list_page, get_settings, Env, SweepSummary,
  list_by_status, approve_sweep, approve_tick, on_tick, page_limit, list_pages, get_page, page_of,
  go_on, short_page,
}
use nitroso_tin.Withdrawer.Tallies.{acts, sweep_tallies}
use nitroso_tin.Withdrawer.Once.{ActsOnce, approve_sweep_once}
use nitroso_tin.Withdrawer.Listing.{list_by_status-take}
use nitroso_tin.Withdrawer.Gates.{on_tick_gated}

abbrev withdrawal : String → Withdrawal
withdrawal id = record { id = id }

abbrev three : List Withdrawal
three = withdrawal "w1" ∷ withdrawal "w2" ∷ withdrawal "w3" ∷ []

-- The second approval is refused as invalid; the third request is not answered.
abbrev answer : String → Reply Problem
answer id = elim (str_eq id "w1") [
  | true ↦ answered 200 none
  | false ↦ elim (str_eq id "w2") [
    | true ↦
        answered 400
          (some (record { kind = "https://zinc/invalid_withdrawal_operation"; title = "" }))
    | false ↦ unreached
  ]
]

abbrev env : Env
env = record {
  approve_enable = true;
  limit_setting = 2;
  on_list = λ h status limit skip. answered 200 (some (take limit (drop skip three)));
  on_act = λ h action id. answer id;
  on_settings = λ h. answered 200 (some true);
}

abbrev pages : List Call
pages = list_page "Pending" 2 2 ∷ list_page "Pending" 2 0 ∷ []

abbrev both : List Call
both = list_page "Processing" 2 2 ∷ list_page "Processing" 2 0 ∷ pages

abbrev swept : List Call
swept = act approve "w3" ∷ act approve "w2" ∷ act approve "w1" ∷ both

abbrev summary : SweepSummary
summary = record { total = 3; succeeded = 1; skipped = 1; failed = 1 }

pending_is : list_by_status env "Pending" [] ≡ (ok three, pages)
unfolding list_by_status list_pages get_page page_of go_on short_page page_limit
pending_is = refl

processing_is : list_by_status env "Processing" pages ≡ (ok three, both)
unfolding list_by_status list_pages get_page page_of go_on short_page page_limit
processing_is = refl

sweep_is : approve_sweep env [] ≡ (ok summary, swept)
unfolding approve_sweep short_page has_prefix page_limit
sweep_is = refl

sweep_tallies_example :
    (summary.total ≡ summary.succeeded + summary.skipped + summary.failed)
    × (acts swept ≡ acts [] + summary.total)
sweep_tallies_example = sweep_tallies env [] swept summary (inl sweep_is)

approve_sweep_once_example : ActsOnce (three ++ three) (approve_sweep env []).1
approve_sweep_once_example = approve_sweep_once env three three pages both pending_is processing_is

limit_is : page_limit env.limit_setting ≡ 2
unfolding page_limit
limit_is = refl

list_by_status-take_example :
    (list_by_status env "Pending" []).0 ≡ ok (take (50 * page_limit env.limit_setting) three)
list_by_status-take_example =
    list_by_status-take env "Pending" three (omega (arith, limit_is)) (λ h skip lt. refl) []

on_tick_gated_example :
    ((env.approve_enable ≡ false) × (on_tick env approve_tick [] ≡ []))
    ⊎ ((on_tick env approve_tick [] ≡ get_settings ∷ [])
        ⊎ ((env.approve_enable ≡ true)
            × ((env.on_settings [] ≡ answered 200 (some true))
                × (on_tick env approve_tick [] ≡ (approve_sweep env (get_settings ∷ [])).1))))
on_tick_gated_example = on_tick_gated env []
