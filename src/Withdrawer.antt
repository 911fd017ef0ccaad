-- ===== src/Withdrawer.antt =====
-- The withdrawer (lib/withdrawer/client.go): the nightly sweep that approves withdrawals, and the
-- sweep that reconciles those being paid out.
pub mod Reads
pub mod Once
pub mod Tallies
pub mod Listing
pub mod Gates
mod Tests
use Prim.Native.Nat.{◌^◌}
use nitroso_tin.Base.{
  ℕ, zero, suc, ◌+◌, ◌%◌, String, Bool, true, false, ◌&&◌, ◌||◌, not, Option, none, some, List, [],
  ◌∷◌, ◌++◌, map, length, member, ltb, leb, ◌==◌, if◌then◌else◌, Result, ok, err, Prog, ◌>>=◌,
  bind_result, pure, throw, lift, codes, has_prefix, to_lower, codes_eq,
}
use mathlib.Core.List.{reverse}
use nitroso_tin.Zinc.{Reply, unreached, answered}

-- `WithdrawalPrincipalRes`; the code reads the identifier only.
pub record Withdrawal : Type 0 where
  pub id : String

-- The problem details of a refusal.
pub record Problem : Type 0 where
  pub kind : String
  pub title : String

pub data Action : Type 0 where
  approve reconcile : Action

pub data Call : Type 0 where
  list_page : String → ℕ → ℕ → Call
  act : Action → String → Call
  get_settings : Call

pub data Error : Type 0 where
  unreachable undecodable : Error
  bad_status : ℕ → Error

-- `benign` is errNotApprovable or errNotReconcilable.
pub data ActionError : Type 0 where
  not_sent benign : ActionError
  refused : ℕ → ActionError

pub record Env : Type 0 where
  pub approve_enable : Bool
  -- A setting below 0 stands as 0.
  pub limit_setting : ℕ
  pub on_list : List Call → String → ℕ → ℕ → Reply (List Withdrawal)
  pub on_act : List Call → Action → String → Reply Problem
  pub on_settings : List Call → Reply Bool

abbrev pub M : Type 0 → Type 0
M A = Prog (List Call) Error A

pub record SweepSummary : Type 0 where
  pub total : ℕ
  pub succeeded : ℕ
  pub skipped : ℕ
  pub failed : ℕ

abbrev pub max_list_pages : ℕ
max_list_pages = 50

-- An `int32` is its bit pattern, below 2 ^ 32; from 2 ^ 31 on it is negative.
abbrev pub int32_mod : ℕ
int32_mod = 2 ^ 32

-- `limit := int32(setting)`, and 100 where that is not positive.
pub page_limit : ℕ → ℕ
page_limit setting =
    let limit = setting % int32_mod in if limit == 0 || leb 2_147_483_648 limit then 100 else limit

-- A member of the list whose identifier has been seen is dropped.
unfoldable pub dedupe_from : List String → List Withdrawal → List Withdrawal
dedupe_from seen [] = []
dedupe_from seen (w ∷ ws) =
    let old = dedupe_from seen ws in
    let new = dedupe_from (w.id ∷ seen) ws in if member w.id seen then old else w ∷ new

unfoldable pub dedupe_by_id : List Withdrawal → List Withdrawal
unfolding dedupe_from
dedupe_by_id ws = dedupe_from [] ws

unfoldable pub has_suffix : String → String → Bool
has_suffix text suffix = has_prefix (reverse (codes text)) (reverse (codes suffix))

-- `strings.EqualFold` at a text of ASCII letters that no other letter folds to.
unfoldable pub equal_fold : String → String → Bool
equal_fold a b = codes_eq (to_lower a) (to_lower b)

unfoldable pub names_invalid_operation : Option Problem → Bool
unfolding has_suffix equal_fold
names_invalid_operation none = false
names_invalid_operation (some p) =
    has_suffix p.kind "/invalid_withdrawal_operation"
    || equal_fold p.title "Invalid Withdrawal Operation"

-- A body that cannot be decoded is `none`.
unfoldable pub is_invalid_withdrawal_operation : ℕ → Option Problem → Bool
unfolding names_invalid_operation
is_invalid_withdrawal_operation status body =
    if ltb status 400 || leb 500 status then false else names_invalid_operation body

unfoldable pub action_result : Reply Problem → Result ActionError (Unit {0})
unfolding is_invalid_withdrawal_operation
action_result unreached = err not_sent
action_result (answered status body) =
    if ltb status 200 || leb 300 status
    then (if is_invalid_withdrawal_operation status body then err benign else err (refused status))
    else ok tt

-- One outcome is tallied.
pub tally : SweepSummary → Result ActionError (Unit {0}) → SweepSummary
tally s (ok u) = record s { succeeded = s.succeeded + 1 }
tally s (err benign) = record s { skipped = s.skipped + 1 }
tally s (err e) = record s { failed = s.failed + 1 }

pub summary_of : List Withdrawal → SweepSummary
summary_of ws = record { total = length ws; succeeded = 0; skipped = 0; failed = 0 }

pub data GateDecision : Type 0 where
  gate_run gate_skip_config gate_skip_disabled gate_skip_not_found gate_skip_fetch_error :
      GateDecision

-- `settingsResult`.
pub data SettingsResult : Type 0 where
  fetch_error not_found : SettingsResult
  fetched : Bool → SettingsResult

pub sweep_gate : Bool → SettingsResult → GateDecision
sweep_gate false s = gate_skip_config
sweep_gate true fetch_error = gate_skip_fetch_error
sweep_gate true not_found = gate_skip_not_found
sweep_gate true (fetched false) = gate_skip_disabled
sweep_gate true (fetched true) = gate_run

unfoldable pub settings_of : Reply Bool → SettingsResult
settings_of unreached = fetch_error
settings_of (answered status body) =
    if status == 404
    then not_found
    else if status == 200
    then (elim body [ none ↦ fetch_error | some enabled ↦ fetched enabled ])
    else fetch_error

unfoldable pub page_of : Reply (List Withdrawal) → Result Error (List Withdrawal)
page_of unreached = err unreachable
page_of (answered status body) =
    if status == 200
    then (elim body [ none ↦ err undecodable | some ws ↦ ok ws ])
    else err (bad_status status)

pub data Tick : Type 0 where
  approve_tick reconcile_tick : Tick

-- A page shorter than the limit is the last; both numbers are compared as `int32`.
pub short_page : List Withdrawal → ℕ → Bool
short_page page limit =
    let size = length page % int32_mod in leb 2_147_483_648 size || ltb size limit

module _ (env : Env) where
  unfoldable pub get_page : String → ℕ → ℕ → M (List Withdrawal)
  unfolding page_of
  get_page status limit skip h =
      (page_of (env.on_list h status limit skip), list_page status limit skip ∷ h)

  pub go_on : ℕ → List Withdrawal → List Withdrawal → M (List Withdrawal) → M (List Withdrawal)
  go_on limit gathered page next = if short_page page limit then pure (gathered ++ page) else next

  -- `rounds` pages at most are read; `skip` wraps as an `int32` does.
  unfoldable pub list_pages : ℕ → String → ℕ → ℕ → List Withdrawal → M (List Withdrawal)
  unfolding get_page go_on
  list_pages zero status limit skip gathered = pure gathered
  list_pages (suc rounds) status limit skip gathered = do
    page ← get_page status limit skip
    go_on limit gathered page
        (list_pages rounds status limit ((skip + limit) % int32_mod) (gathered ++ page))

  unfoldable pub list_by_status : String → M (List Withdrawal)
  unfolding list_pages page_limit
  list_by_status status = list_pages max_list_pages status (page_limit env.limit_setting) 0 []

  -- `postWithdrawalAction`; a request that cannot be built is one that is not sent.
  unfoldable pub post_withdrawal_action :
      Action → String → List Call → Result ActionError (Unit {0}) × List Call
  unfolding action_result
  post_withdrawal_action action id h = (action_result (env.on_act h action id), act action id ∷ h)

  unfoldable pub act_on_all :
      Action → List Withdrawal → SweepSummary → List Call → SweepSummary × List Call
  unfolding post_withdrawal_action tally
  act_on_all action [] s h = (s, h)
  act_on_all action (w ∷ ws) s h =
      let done = post_withdrawal_action action w.id h in
      act_on_all action ws (tally s done.0) done.1

  unfoldable pub act_on : Action → List Withdrawal → M SweepSummary
  unfolding act_on_all summary_of
  act_on action ws h = let done = act_on_all action ws (summary_of ws) h in (ok done.0, done.1)

  -- `sweep`.
  unfoldable pub approve_sweep : M SweepSummary
  unfolding list_by_status act_on dedupe_by_id
  approve_sweep = do
    pending ← list_by_status "Pending"
    processing ← list_by_status "Processing"
    act_on approve (dedupe_by_id (pending ++ processing))

  unfoldable pub reconcile_sweep : M SweepSummary
  unfolding list_by_status act_on dedupe_by_id
  reconcile_sweep = do
    processing ← list_by_status "Processing"
    act_on reconcile (dedupe_by_id processing)

  -- Zinc is asked for the settings only where the configuration enables the sweep.
  unfoldable pub approve_sweep_decision : List Call → GateDecision × List Call
  unfolding sweep_gate settings_of
  approve_sweep_decision h =
      if env.approve_enable
      then (sweep_gate true (settings_of (env.on_settings h)), get_settings ∷ h)
      else (gate_skip_config, h)

  unfoldable pub when_open : GateDecision → List Call → List Call
  unfolding approve_sweep
  when_open gate_run h = (approve_sweep h).1
  when_open d h = h

  -- One round of the loop of `Start`; a sweep's error is logged.
  unfoldable pub on_tick : Tick → List Call → List Call
  unfolding approve_sweep_decision when_open reconcile_sweep
  on_tick approve_tick h = let decided = approve_sweep_decision h in when_open decided.0 decided.1
  on_tick reconcile_tick h = (reconcile_sweep h).1
