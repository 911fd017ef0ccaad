-- ===== src/Recoverer/Queue/Tests.antt =====
-- One item handled against the worlds of the tests of `ProcessItem`, with a queue that takes a push;
-- and a cycle in which zinc does not answer and still lists the booking that the drain handled.
use nitroso_tin.Base.{true, false, some, [], ◌∷◌, ◌≡◌, ◌⊎◌, inl, refl, arith, ok}
use nitroso_tin.Zinc.{unreached}
use nitroso_tin.Recoverer.World.{Env, History}
use nitroso_tin.Recoverer.Process.{process_item, fetch_booking, found_booking}
use nitroso_tin.Recoverer.Process.Tests.{item, principal, world}
use nitroso_tin.Recoverer.Queue.{
  Queue, Popped, nothing, popped, handle_item, or_requeue, requeue, tried, push_back, push_times,
  drain, drain_items, sweep,
}
use nitroso_tin.Recoverer.Queue.Requeued.{Requeued, handle_item-Requeued}
use nitroso_tin.Recoverer.Queue.Apart.{sweep-drain_apart}
use nitroso_tin.Recoverer.Process.Own.{asked}

abbrev queue : Queue
queue = record {
  max_attempts = 5;
  encrypts = λ d. true;
  on_length = λ h. some 1;
  on_pop = λ h. nothing;
  on_push = λ h d. true;
  aborted_at = λ h. false;
  on_recovering_list = λ h. some [];
  on_queued = λ h. some [];
}

handle_item-Requeued_example :
    (((process_item (world "P1") item []).0 ≡ ok tt)
      × (handle_item (world "P1") queue item [] ≡ (process_item (world "P1") item []).1))
    ⊎ Requeued (world "P1") queue item (handle_item (world "P1") queue item [])
handle_item-Requeued_example = handle_item-Requeued (world "P1") queue item []

abbrev silent : Env
silent = record (world "P1") { on_booking = λ h id. unreached }

abbrev first_pop : History → Popped
first_pop [] = popped item
first_pop (c ∷ h) = nothing

abbrev busy : Queue
busy = record queue { on_pop = first_pop; on_recovering_list = λ h. some (principal ∷ []) }

acted : asked "id" (drain silent busy []).1 ≡ 2
unfolding drain drain_items handle_item process_item fetch_booking found_booking or_requeue requeue
    tried push_back push_times
acted = refl

sweep-drain_apart_example :
    asked "id" (sweep silent busy (drain silent busy []).0.1 (drain silent busy []).1).1
    ≡ asked "id" (drain silent busy []).1
sweep-drain_apart_example =
    sweep-drain_apart silent busy "id" [] (inl (λ e. omega (arith, acted, e)))
