-- ===== src/Recoverer/Process/Once.antt =====
-- A run of `ProcessItem` resolves its booking at most once.
use nitroso_tin.Base.{
  ℕ, suc, ◌+◌, ◌≤◌, String, Bool, true, false, Option, none, some, [], ◌∷◌, ◌≡◌, inl, inr, refl,
  arith, ap, Result, ok, bind_result_cases, Option-cases,
}
use nitroso_tin.Zinc.{Principal, RecoverDto}
use nitroso_tin.Recoverer.Scan.{FoundTicket}
use nitroso_tin.Recoverer.World.{Call, mark_duplicate, mark_manual, complete, History, Error, Env}
use nitroso_tin.Recoverer.Process.{
  fetch_booking, set_recovering, set_duplicate, set_manual, recycle_or_duplicate, scan_our_account,
  force_complete, claimant, settle_claim, settle_scan, verify_on_ktmb, resolve, transition_first,
  triage, or_drop, process_item,
}
use nitroso_tin.Recoverer.Process.Reads.{scan_our_account_keeps}

-- The requests that end a booking's recovery: complete, duplicate, manual intervention.
abbrev pub resolves : Call → Bool
resolves (mark_duplicate id) = true
resolves (mark_manual id) = true
resolves (complete id b t pdf) = true
resolves _ = false

abbrev pub resolutions : History → ℕ
resolutions [] = 0
resolutions (c ∷ h) = elim (resolves c) [ true ↦ suc (resolutions h) | false ↦ resolutions h ]

module _ (env : Env) (dto : RecoverDto) where
  abbrev AtMost : ℕ → {A : Type 0} → Result Error A × History → Type 0
  AtMost n q = resolutions q.1 ≤ n

  force_complete_once :
      (b t : String) (h : History)
      → resolutions (force_complete env dto.booking_id b t h).1 ≤ resolutions h + 1
  unfolding force_complete
  force_complete_once b t h = ground arith

  recycle_once :
      (h : History) → resolutions (recycle_or_duplicate env dto.booking_id h).1 ≤ resolutions h + 1
  unfolding recycle_or_duplicate set_duplicate
  recycle_once h = ground arith

  settle_claim_once :
      (f : FoundTicket) (claim : Option Principal) (h : History)
      → resolutions (settle_claim env dto f claim h).1 ≤ resolutions h + 1
  unfolding settle_claim set_duplicate
  settle_claim_once f none h = force_complete_once f.booking_no f.ticket_no h
  settle_claim_once f (some b) h = ground arith

  settle_scan_once :
      (found : Option FoundTicket) (h : History)
      → resolutions (settle_scan env dto found h).1 ≤ resolutions h + 1
  unfolding settle_scan claimant
  settle_scan_once none h = recycle_once h
  settle_scan_once (some f) h =
      bind_result_cases (λ q. resolutions q.1 ≤ resolutions h + 1) (claimant env dto f.booking_no h)
        _ (λ e h₁ c. ground (arith, ap (λ q. resolutions q.1) c))
        (λ claim h₁ c. omega (arith, settle_claim_once f claim h₁, ap (λ q. resolutions q.1) c))

  verify_once :
      (target : ℕ) (h : History)
      → resolutions (verify_on_ktmb env dto target h).1 ≤ resolutions h + 1
  unfolding verify_on_ktmb
  verify_once target h =
      bind_result_cases (λ q. resolutions q.1 ≤ resolutions h + 1)
        (scan_our_account env target dto.direction dto.passport_number h) _
        (λ e h₁ c. omega (arith, same, ap (λ q. resolutions q.1) c))
        (λ found h₁ c. omega (arith, same, settle_scan_once found h₁, ap (λ q. resolutions q.1) c))
    where
      same :
          resolutions (scan_our_account env target dto.direction dto.passport_number h).1
          ≡ resolutions h
      same =
          scan_our_account_keeps env (λ k. resolutions k ≡ resolutions h) (λ k e. e) (λ k n e. e)
            target dto.direction dto.passport_number h refl

  resolve_once : (h : History) → resolutions (resolve env dto h).1 ≤ resolutions h + 1
  unfolding resolve set_manual
  resolve_once h = elim (Option-cases (env.zinc_time dto.date dto.time)) [
    | inl bad ↦ ground (arith, force_complete_once dto.booking_no dto.ticket_no h)
    | inr (target, good) ↦
        ground (arith, force_complete_once dto.booking_no dto.ticket_no h, verify_once target h)
  ]

  transition_first_once :
      (h : History) → resolutions (transition_first env dto h).1 ≤ resolutions h + 1
  unfolding transition_first set_recovering
  transition_first_once h =
      bind_result_cases (λ q. resolutions q.1 ≤ resolutions h + 1)
        (set_recovering env dto.booking_id h) _ (λ e h₁ c. ground arith)
        (λ u h₁ c. ground (arith, resolve_once h₁))

  triage_once :
      (b : Principal) (h : History) → resolutions (triage env dto b h).1 ≤ resolutions h + 1
  unfolding triage set_manual
  triage_once b h = ground (arith, resolve_once h, transition_first_once h)

  -- Whatever zinc and KTMB answer, one run asks for at most one of completion, duplicate and manual
  -- intervention, and asks for it once.
  pub process_item_once : resolutions (process_item env dto []).1 ≤ 1
  unfolding process_item
  process_item_once =
      bind_result_cases (λ q. resolutions q.1 ≤ 1) (fetch_booking env dto.booking_id []) _
        (λ e h₁ c. unfold fetch_booking in ground arith) on_ok
    where
      on_ok :
          (found : Option Principal) (h₁ : History)
          → fetch_booking env dto.booking_id [] ≡ (ok found, h₁)
          → resolutions (or_drop env dto found h₁).1 ≤ 1
      on_ok none h₁ c = unfold fetch_booking in ground arith
      on_ok (some b) h₁ c = unfold fetch_booking in ground (arith, triage_once b h₁)
