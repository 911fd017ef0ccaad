-- ===== src/Recoverer/Queue/Requeued.antt =====
-- What becomes of an item whose resolution failed.
use nitroso_tin.Base.{
  ℕ, zero, suc, ◌+◌, ◌≤◌, true, false, ◌∷◌, ◌≡◌, ◌⊎◌, inl, inr, refl, arith, leb, Result, ok, err,
  Bool-cases, sym, subst,
}
use nitroso_tin.Zinc.{RecoverDto}
use nitroso_tin.Recoverer.World.{mark_manual, push_recover, History, Error, Env, wants_ok}
use nitroso_tin.Recoverer.Process.{set_manual, post_status, process_item}
use nitroso_tin.Recoverer.Queue.{
  Queue, tried, requeue_retries, push_times, push_back, unless_parked, requeue, or_requeue,
  handle_item,
}

module _ (env : Env) (queue : Queue) (dto : RecoverDto) where
  -- The item ended parked for a human, or back on the queue with one more attempt counted, or it could
  -- not be encrypted, or the last request is a push that the queue refused.
  abbrev pub Requeued : History → Type 0
  Requeued h' =
      ((queue.max_attempts ≤ dto.attempts + 1)
        × ((h : History) × (wants_ok "manual-intervention" (env.on_manual h dto.booking_id) ≡ ok tt)
            × (h' ≡ mark_manual dto.booking_id ∷ h)))
      ⊎ (((h : History) × (queue.on_push h (tried dto) ≡ true)
            × (h' ≡ push_recover (tried dto) ∷ h))
          ⊎ ((queue.encrypts (tried dto) ≡ false)
              ⊎ ((h : History) × (queue.on_push h (tried dto) ≡ false)
                  × (h' ≡ push_recover (tried dto) ∷ h))))

  -- The pushes that follow a refused one.
  push_times-after :
      (left : ℕ) (h : History)
      → queue.on_push h (tried dto) ≡ false
      → Requeued (push_times env queue left (tried dto) (push_recover (tried dto) ∷ h))
  unfolding push_times
  push_times-after zero h refused = inr (inr (inr (h, refused, refl)))
  push_times-after (suc left) h refused =
      let k : History = push_recover (tried dto) ∷ h in
      let rest = push_times-after left k in
      elim (Bool-cases (queue.on_push k (tried dto))) [
        | inl taken ↦ inr (inl (k, taken, ground arith))
        | inr again ↦ elim (Bool-cases (queue.aborted_at (push_recover (tried dto) ∷ k))) [
          | inl stop ↦ inr (inr (inr (k, again, ground arith)))
          | inr on ↦
              let same : push_times env queue (suc left) (tried dto) k
                  ≡ push_times env queue left (tried dto) (push_recover (tried dto) ∷ k) =
                rw (push_times, again, on) in
              subst Requeued (sym same) (rest again)
        ]
      ]

  push_times-Requeued :
      (left : ℕ) (h : History) → Requeued (push_times env queue (suc left) (tried dto) h)
  unfolding push_times
  push_times-Requeued left h =
      let rest = push_times-after left h in
      elim (Bool-cases (queue.on_push h (tried dto))) [
        | inl taken ↦ inr (inl (h, taken, ground arith))
        | inr refused ↦ elim (Bool-cases (queue.aborted_at (push_recover (tried dto) ∷ h))) [
          | inl stop ↦ inr (inr (inr (h, refused, ground arith)))
          | inr again ↦
              let same : push_times env queue (suc left) (tried dto) h
                  ≡ push_times env queue left (tried dto) (push_recover (tried dto) ∷ h) =
                rw (push_times, refused, again) in
              subst Requeued (sym same) (rest refused)
        ]
      ]

  push_back-Requeued : (h : History) → Requeued (push_back env queue (tried dto) h)
  unfolding push_back
  push_back-Requeued h = elim (Bool-cases (queue.encrypts (tried dto))) [
    | inr bad ↦ inr (inr (inl bad))
    | inl good ↦
        let same : push_back env queue (tried dto) h
            ≡ push_times env queue requeue_retries (tried dto) h =
          rw (push_back, good) in
        subst Requeued (sym same) (push_times-Requeued 2 h)
  ]

  requeue-Requeued : (h : History) → Requeued (requeue env queue dto h)
  unfolding requeue
  requeue-Requeued h = elim (Bool-cases (leb queue.max_attempts (tried dto).attempts)) [
    | inr fresh ↦
        let same : requeue env queue dto h ≡ push_back env queue (tried dto) h =
          rw (requeue, fresh) in
        subst Requeued (sym same) (push_back-Requeued h)
    | inl spent ↦
        let same : requeue env queue dto h
            ≡ unless_parked env queue (tried dto) (set_manual env (tried dto).booking_id h) =
          rw (requeue, spent) in
        subst Requeued (sym same)
          (by_park (unfold tried in ground arith) (set_manual env (tried dto).booking_id h) refl)
  ]
    where
      by_park :
          queue.max_attempts ≤ dto.attempts + 1
          → (q : Result Error (Unit {0}) × History) → set_manual env (tried dto).booking_id h ≡ q
          → Requeued (unless_parked env queue (tried dto) q)
      by_park spent (ok u, w) is =
          let w_is : w ≡ mark_manual dto.booking_id ∷ h =
            unfold set_manual post_status tried in ground arith in
          let said : wants_ok "manual-intervention" (env.on_manual h dto.booking_id) ≡ ok tt =
            unfold set_manual post_status tried in ground arith in
          unfold unless_parked in inl (spent, (h, said, w_is))
      by_park spent (err e, w) is = unfold unless_parked in push_back-Requeued w

  -- An item that the drain or the sweep handles is not lost: `ProcessItem` succeeds on it, and
  -- nothing follows; or it is parked for a human by a request that zinc accepts, which happens only
  -- once its attempts have reached the limit; or it is back on the queue, the same but for one more
  -- attempt; or it cannot be encrypted; or the run ends with a push that the queue refuses.
  pub handle_item-Requeued :
      (h : History)
      → (((process_item env dto h).0 ≡ ok tt)
          × (handle_item env queue dto h ≡ (process_item env dto h).1))
        ⊎ Requeued (handle_item env queue dto h)
  unfolding handle_item
  handle_item-Requeued h = by_end (process_item env dto h)
    where
      by_end :
          (q : Result Error (Unit {0}) × History)
          → ((q.0 ≡ ok tt) × (or_requeue env queue dto q ≡ q.1))
            ⊎ Requeued (or_requeue env queue dto q)
      by_end (ok u, w) = inl (refl, unfold or_requeue in refl)
      by_end (err e, w) = inr (unfold or_requeue in requeue-Requeued w)
