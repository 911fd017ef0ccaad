-- ===== src/Recoverer/Process/Own.antt =====
-- A run of `ProcessItem` asks nothing about another booking than its own.
use nitroso_tin.Base.{
  ℕ, suc, String, Bool, true, false, Option, none, some, [], ◌∷◌, ◌≡◌, inl, inr, refl, arith, ap,
  ok, bind_result_cases, Option-cases, str_eq,
}
use nitroso_tin.Zinc.{Principal, RecoverDto}
use nitroso_tin.Recoverer.Scan.{FoundTicket}
use nitroso_tin.Recoverer.World.{
  Call, get_booking, mark_recovering, mark_duplicate, mark_manual, recover_revert, complete,
  attach_ticket, push_recover, History, Env,
}
use nitroso_tin.Recoverer.Process.{
  fetch_booking, set_recovering, set_duplicate, set_manual, recycle_or_duplicate, scan_our_account,
  force_complete, claimant, settle_claim, settle_scan, verify_on_ktmb, resolve, transition_first,
  triage, or_drop, process_item,
}
use nitroso_tin.Recoverer.Process.Reads.{scan_our_account_keeps}

-- The request names the booking.
abbrev pub is_about : String → Call → Bool
is_about id (get_booking x) = str_eq x id
is_about id (mark_recovering x) = str_eq x id
is_about id (mark_duplicate x) = str_eq x id
is_about id (mark_manual x) = str_eq x id
is_about id (recover_revert x) = str_eq x id
is_about id (complete x b t pdf) = str_eq x id
is_about id (attach_ticket x b t pdf) = str_eq x id
is_about id (push_recover d) = str_eq d.booking_id id
is_about id _ = false

-- How many requests name the booking.
abbrev pub asked : String → History → ℕ
asked id [] = 0
asked id (c ∷ h) = elim (is_about id c) [ true ↦ suc (asked id h) | false ↦ asked id h ]

module _ (env : Env) (dto : RecoverDto) (id : String)
    (other : str_eq dto.booking_id id ≡ false) where
  force_complete_own :
      (b t : String) (h : History)
      → asked id (force_complete env dto.booking_id b t h).1 ≡ asked id h
  unfolding force_complete
  force_complete_own b t h = ground arith

  recycle_own : (h : History) → asked id (recycle_or_duplicate env dto.booking_id h).1 ≡ asked id h
  unfolding recycle_or_duplicate set_duplicate
  recycle_own h = ground arith

  settle_claim_own :
      (f : FoundTicket) (claim : Option Principal) (h : History)
      → asked id (settle_claim env dto f claim h).1 ≡ asked id h
  unfolding settle_claim set_duplicate
  settle_claim_own f none h = force_complete_own f.booking_no f.ticket_no h
  settle_claim_own f (some b) h = ground arith

  settle_scan_own :
      (found : Option FoundTicket) (h : History)
      → asked id (settle_scan env dto found h).1 ≡ asked id h
  unfolding settle_scan claimant
  settle_scan_own none h = recycle_own h
  settle_scan_own (some f) h =
      bind_result_cases (λ q. asked id q.1 ≡ asked id h) (claimant env dto f.booking_no h) _
        (λ e h₁ c. ground (arith, ap (λ q. asked id q.1) c))
        (λ claim h₁ c. omega (arith, settle_claim_own f claim h₁, ap (λ q. asked id q.1) c))

  verify_own :
      (target : ℕ) (h : History) → asked id (verify_on_ktmb env dto target h).1 ≡ asked id h
  unfolding verify_on_ktmb
  verify_own target h =
      bind_result_cases (λ q. asked id q.1 ≡ asked id h)
        (scan_our_account env target dto.direction dto.passport_number h) _
        (λ e h₁ c. omega (arith, same, ap (λ q. asked id q.1) c))
        (λ found h₁ c. omega (arith, same, settle_scan_own found h₁, ap (λ q. asked id q.1) c))
    where
      same :
          asked id (scan_our_account env target dto.direction dto.passport_number h).1 ≡ asked id h
      same =
          scan_our_account_keeps env (λ k. asked id k ≡ asked id h) (λ k e. e) (λ k n e. e) target
            dto.direction dto.passport_number h refl

  resolve_own : (h : History) → asked id (resolve env dto h).1 ≡ asked id h
  unfolding resolve set_manual
  resolve_own h = elim (Option-cases (env.zinc_time dto.date dto.time)) [
    | inl bad ↦ ground (arith, force_complete_own dto.booking_no dto.ticket_no h)
    | inr (target, good) ↦
        ground (arith, force_complete_own dto.booking_no dto.ticket_no h, verify_own target h)
  ]

  transition_first_own : (h : History) → asked id (transition_first env dto h).1 ≡ asked id h
  unfolding transition_first set_recovering
  transition_first_own h =
      bind_result_cases (λ q. asked id q.1 ≡ asked id h) (set_recovering env dto.booking_id h) _
        (λ e h₁ c. ground arith) (λ u h₁ c. ground (arith, resolve_own h₁))

  triage_own : (b : Principal) (h : History) → asked id (triage env dto b h).1 ≡ asked id h
  unfolding triage set_manual
  triage_own b h = ground (arith, resolve_own h, transition_first_own h)

  pub process_item_own : (h : History) → asked id (process_item env dto h).1 ≡ asked id h
  unfolding process_item
  process_item_own h =
      bind_result_cases (λ q. asked id q.1 ≡ asked id h) (fetch_booking env dto.booking_id h) _
        (λ e h₁ c. unfold fetch_booking in ground arith) on_ok
    where
      on_ok :
          (found : Option Principal) (h₁ : History)
          → fetch_booking env dto.booking_id h ≡ (ok found, h₁)
          → asked id (or_drop env dto found h₁).1 ≡ asked id h
      on_ok none h₁ c = unfold fetch_booking in ground arith
      on_ok (some b) h₁ c = unfold fetch_booking in ground (arith, triage_own b h₁)
