-- ===== src/Recoverer/Queue/Own.antt =====
-- Handling an item, its requeue included, asks nothing about another booking than its own.
use nitroso_tin.Base.{
  ℕ, zero, suc, String, false, ◌∷◌, ◌≡◌, refl, arith, Result, ok, err, str_eq, ◌∙◌,
}
use nitroso_tin.Zinc.{RecoverDto}
use nitroso_tin.Recoverer.World.{push_recover, History, Error, Env}
use nitroso_tin.Recoverer.Process.{set_manual, process_item}
use nitroso_tin.Recoverer.Process.Own.{asked, process_item_own}
use nitroso_tin.Recoverer.Queue.{
  Queue, tried, requeue_retries, push_times, push_back, unless_parked, requeue, or_requeue,
  handle_item,
}

module _ (env : Env) (queue : Queue) (id : String) where
  push_times_own :
      (left : ℕ) (d : RecoverDto) (h : History)
      → str_eq d.booking_id id ≡ false
      → asked id (push_times env queue left d h) ≡ asked id h
  unfolding push_times
  push_times_own zero d h other = refl
  push_times_own (suc left) d h other =
      ground (arith, push_times_own left d (push_recover d ∷ h) other)

  push_back_own :
      (d : RecoverDto) (h : History)
      → str_eq d.booking_id id ≡ false
      → asked id (push_back env queue d h) ≡ asked id h
  unfolding push_back
  push_back_own d h other = ground (arith, push_times_own requeue_retries d h other)

  requeue_own :
      (dto : RecoverDto) (h : History)
      → str_eq dto.booking_id id ≡ false
      → asked id (requeue env queue dto h) ≡ asked id h
  unfolding requeue tried
  requeue_own dto h other = ground (
    arith,
    push_back_own (tried dto) h other,
    parked (set_manual env dto.booking_id h) set_manual_own,
  )
    where
      set_manual_own : asked id (set_manual env dto.booking_id h).1 ≡ asked id h
      set_manual_own = unfold set_manual in ground arith

      parked :
          (q : Result Error (Unit {0}) × History)
          → asked id q.1 ≡ asked id h
          → asked id (unless_parked env queue (tried dto) q) ≡ asked id h
      parked (ok u, w) same = unfold unless_parked in same
      parked (err e, w) same = unfold unless_parked in (push_back_own (tried dto) w other ∙ same)

  pub handle_item_own :
      (dto : RecoverDto) (h : History)
      → str_eq dto.booking_id id ≡ false
      → asked id (handle_item env queue dto h) ≡ asked id h
  unfolding handle_item
  handle_item_own dto h other =
      by_end (process_item env dto h) (process_item_own env dto id other h)
    where
      by_end :
          (q : Result Error (Unit {0}) × History)
          → asked id q.1 ≡ asked id h
          → asked id (or_requeue env queue dto q) ≡ asked id h
      by_end (ok u, w) same = unfold or_requeue in same
      by_end (err e, w) same = unfold or_requeue in (requeue_own dto w other ∙ same)
