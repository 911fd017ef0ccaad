-- ===== src/Recoverer/Queue.antt =====
-- The drain of the recover queue and the sweep over zinc's Recovering bookings
-- (lib/recoverer/client.go).
pub mod Requeued
mod Own
pub mod Apart
mod Tests
use nitroso_tin.Base.{
  ℕ, zero, suc, ◌+◌, String, Bool, true, false, not, ◌||◌, Option, none, some, List, [], ◌∷◌, any,
  leb, if◌then◌else◌, str_eq, Result, ok, err,
}
use nitroso_tin.Zinc.{Principal, RecoverDto}
use nitroso_tin.Recoverer.World.{Call, push_recover, pop_recover, History, Error, Env}
use nitroso_tin.Recoverer.Process.{set_manual, process_item}
use nitroso_tin.Recoverer.Check.{reconstruct_dto}

-- What a pop brings: an error of redis, nothing, a message that cannot be read, or an item.
pub data Popped : Type 0 where
  pop_failed nothing unreadable : Popped
  popped : RecoverDto → Popped

-- The queue's answers, and the settings.
pub record Queue : Type 0 where
  pub max_attempts : ℕ
  pub encrypts : RecoverDto → Bool
  pub on_length : History → Option ℕ
  pub on_pop : History → Popped
  pub on_push : History → RecoverDto → Bool
  pub aborted_at : History → Bool
  pub on_recovering_list : History → Option (List Principal)
  -- An entry that cannot be read or decrypted is `none`.
  pub on_queued : History → Option (List (Option RecoverDto))

-- Redis or zinc failed the cycle.
pub data CycleError : Type 0 where
  no_length no_pop no_list no_queue : CycleError

-- One more attempt is counted.
pub tried : RecoverDto → RecoverDto
tried d = record {
  booking_id = d.booking_id;
  direction = d.direction;
  date = d.date;
  time = d.time;
  full_name = d.full_name;
  gender = d.gender;
  passport_expiry = d.passport_expiry;
  passport_number = d.passport_number;
  booking_no = d.booking_no;
  ticket_no = d.ticket_no;
  attempts = d.attempts + 1;
}

-- The bookings of the entries that can be read, for `queuedBookingIds`.
pub queued_booking_ids : List (Option RecoverDto) → List String
queued_booking_ids [] = []
queued_booking_ids (none ∷ entries) = queued_booking_ids entries
queued_booking_ids (some d ∷ entries) = d.booking_id ∷ queued_booking_ids entries

-- `recoverRequeueRetries`.
abbrev pub requeue_retries : ℕ
requeue_retries = 3

module _ (env : Env) (queue : Queue) where
  -- A refused push is tried again, unless the context ends in the wait after it.
  pub push_times : ℕ → RecoverDto → History → History
  push_times zero d h = h
  push_times (suc left) d h =
      let rest = push_times left d (push_recover d ∷ h) in
      if queue.on_push h d || queue.aborted_at (push_recover d ∷ h)
      then push_recover d ∷ h
      else rest

  pub push_back : RecoverDto → History → History
  unfolding push_times
  push_back d h = if queue.encrypts d then push_times requeue_retries d h else h

  pub unless_parked : RecoverDto → Result Error (Unit {0}) × History → History
  unfolding push_back
  unless_parked d (ok u, h) = h
  unless_parked d (err e, h) = push_back d h

  unfoldable pub requeue : RecoverDto → History → History
  unfolding tried unless_parked push_back
  requeue dto h =
      let d = tried dto in
      if leb queue.max_attempts d.attempts
      then unless_parked d (set_manual env d.booking_id h)
      else push_back d h

  pub or_requeue : RecoverDto → Result Error (Unit {0}) × History → History
  unfolding requeue
  or_requeue dto (ok u, h) = h
  or_requeue dto (err e, h) = requeue dto h

  unfoldable pub handle_item : RecoverDto → History → History
  unfolding or_requeue
  handle_item dto h = or_requeue dto (process_item env dto h)

  -- At most `left` items; the identifiers of those handled are gathered.
  unfoldable pub drain_items :
      ℕ → List String → History → (Option CycleError × List String) × History
  unfolding handle_item
  drain_items zero handled h = ((none, handled), h)
  drain_items (suc left) handled h = elim (queue.on_pop h) [
    | pop_failed ↦ ((some no_pop, handled), pop_recover ∷ h)
    | nothing ↦ ((none, handled), pop_recover ∷ h)
    | unreadable ↦ drain_items left handled (pop_recover ∷ h)
    | popped dto ↦ drain_items left (dto.booking_id ∷ handled) (handle_item dto (pop_recover ∷ h))
  ]

  unfoldable pub drain : History → (Option CycleError × List String) × History
  unfolding drain_items
  drain h = elim (queue.on_length h) [
    | none ↦ ((some no_length, []), h)
    | some length ↦ drain_items length [] h
  ]

  pub listed_in : String → List String → Bool
  listed_in id ids = any (str_eq id) ids

  unfoldable pub sweep_bookings : List String → List String → List Principal → History → History
  unfolding listed_in handle_item
  sweep_bookings skip queued [] h = h
  sweep_bookings skip queued (b ∷ bs) h =
      let dto = reconstruct_dto b in
      if str_eq dto.booking_id ""
        || listed_in dto.booking_id skip
        || listed_in dto.booking_id queued
      then sweep_bookings skip queued bs h
      else sweep_bookings skip queued bs (handle_item dto h)

  pub sweep_listed : List String → List Principal → History → Option CycleError × History
  unfolding sweep_bookings queued_booking_ids
  sweep_listed skip [] h = (none, h)
  sweep_listed skip (b ∷ bs) h = elim (queue.on_queued h) [
    | none ↦ (some no_queue, h)
    | some entries ↦ (none, sweep_bookings skip (queued_booking_ids entries) (b ∷ bs) h)
  ]

  unfoldable pub sweep : List String → History → Option CycleError × History
  unfolding sweep_listed
  sweep skip h = elim (queue.on_recovering_list h) [
    | none ↦ (some no_list, h)
    | some bookings ↦ sweep_listed skip bookings h
  ]
