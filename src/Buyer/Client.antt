-- ===== src/Buyer/Client.antt =====
-- The buyer's handler for one reserved seat (lib/buyer/client.go): it buys the seat for zinc's next
-- booking of the slot, and completes, reverts or parks that booking.
pub mod Released
pub mod Kept
mod Tests
use nitroso_tin.Base.{
  ℕ, String, Bool, true, false, Option, none, some, List, [], ◌∷◌, ◌==◌, if◌then◌else◌, Result, ok,
  err, ◌>>=◌, bind_result, pure, throw, lift,
}
use nitroso_tin.Zinc.{Reply, unreached, answered, Principal, RecoverDto}
use nitroso_tin.Zinc
use nitroso_tin.Dates.{joined, zinc_to_helium_date}
use nitroso_tin.Buyer.{
  Passenger, PurchaseResult, Error, conflict, revert_later, purchased, unreached_zinc, undecodable,
  unreadable, bad_status, no_form, no_encryption, no_push, panicked, Call, get_reserve, mark_buying,
  mark_completed, mark_pending, mark_recovering, push_recover, Env, M,
}
use nitroso_tin.Buyer.Purchase.{buy_seat, release}
use nitroso_tin.Buyer.Retry.{retry_backoff}

-- `ReserveDto` of lib/reserver/reserver.go.
pub record ReserveDto : Type 0 where
  pub user_data : String
  pub booking_data : String
  pub passenger_data : String
  pub direction : String
  pub date : String
  pub time : String

-- Zinc accepted the request with 200.
unfoldable pub wants_ok : Reply String → Result Error (Unit {0})
wants_ok unreached = err unreached_zinc
wants_ok (answered status body) = if status == 200 then ok tt else err (bad_status status)

-- A field that is read without a test for nil.
pub present : {A : Type 0} → Option A → Result Error A
present none = err panicked
present (some a) = ok a

unfoldable pub passenger_of : {Amount : Type 0} → Zinc.Passenger → M Amount Passenger
unfolding present zinc_to_helium_date joined
passenger_of p = do
  full_name ← lift (present p.full_name)
  gender ← lift (present p.gender)
  expiry ← lift (present p.passport_expiry)
  date ← lift (present (zinc_to_helium_date expiry))
  number ← lift (present p.passport_number)
  pure (record {
    full_name = full_name;
    gender = gender;
    passport_expiry = joined date "T00:00:00";
    passport_number = number;
  })

module _ {Amount : Type 0} (env : Env Amount) where
  unfoldable pub buying_reply : Reply String → Result Error (Unit {0})
  buying_reply unreached = err unreached_zinc
  buying_reply (answered status body) =
      if status == 200
      then (elim body [ none ↦ err unreadable | some b ↦ ok tt ])
      else err (bad_status status)

  unfoldable pub set_buying : String → M Amount (Unit {0})
  unfolding buying_reply
  set_buying id h = (buying_reply (env.on_buying h id), mark_buying id ∷ h)

  unfoldable pub send_completion : String → String → String → Option String → M Amount (Unit {0})
  unfolding wants_ok
  send_completion id booking_no ticket_no none h = (err no_form, h)
  send_completion id booking_no ticket_no (some body) h = (
    wants_ok (env.on_completed h id booking_no ticket_no body),
    mark_completed id booking_no ticket_no body ∷ h,
  )

  unfoldable pub complete_once : String → PurchaseResult Amount → M Amount (Unit {0})
  unfolding send_completion
  complete_once id r =
      send_completion id r.booking_no r.ticket_no (env.form r.pdf r.ktmb_amount r.ktmb_currency)

  unfoldable pub complete_with_zinc : String → PurchaseResult Amount → M Amount (Unit {0})
  unfolding complete_once
  complete_with_zinc id r = retry_backoff env.complete_retries (λ attempt. complete_once id r)

  unfoldable pub set_recovering : String → M Amount (Unit {0})
  unfolding wants_ok
  set_recovering id h = (wants_ok (env.on_recovering h id), mark_recovering id ∷ h)

  unfoldable pub transition_recovering : String → M Amount (Unit {0})
  unfolding set_recovering
  transition_recovering id = retry_backoff env.park_retries (λ attempt. set_recovering id)

  unfoldable pub push_once : RecoverDto → M Amount (Unit {0})
  push_once dto h = (if env.on_push h dto then ok tt else err no_push, push_recover dto ∷ h)

  unfoldable pub push_with_retries : RecoverDto → M Amount (Unit {0})
  unfolding push_once
  push_with_retries dto = retry_backoff env.park_retries (λ attempt. push_once dto)

  unfoldable pub recover_item : String → ReserveDto → Passenger → String → String → RecoverDto
  recover_item id r p booking_no ticket_no = record {
    booking_id = id;
    direction = r.direction;
    date = r.date;
    time = r.time;
    full_name = p.full_name;
    gender = p.gender;
    passport_expiry = p.passport_expiry;
    passport_number = p.passport_number;
    booking_no = booking_no;
    ticket_no = ticket_no;
    attempts = 0;
  }

  -- The steps after the push are best effort: their errors are logged.
  unfoldable pub after_push : String → ReserveDto → Bool → M Amount (Unit {0})
  unfolding transition_recovering release
  after_push id r true h =
      (ok tt, (release env r.user_data r.booking_data (transition_recovering id h).1).1)
  after_push id r false h = (ok tt, (transition_recovering id h).1)

  unfoldable pub park :
      String → ReserveDto → Passenger → String → String → Bool → M Amount (Unit {0})
  unfolding recover_item push_with_retries after_push
  park id r p booking_no ticket_no gives_back =
      let dto = recover_item id r p booking_no ticket_no in
      if env.encrypts dto
      then (push_with_retries dto >>= λ _. after_push id r gives_back)
      else throw no_encryption

  unfoldable pub send_revert : String → M Amount (Unit {0})
  unfolding wants_ok
  send_revert id h = (wants_ok (env.on_revert h id), mark_pending id ∷ h)

  -- The release is best effort.
  unfoldable pub release_quietly : ReserveDto → M Amount (Unit {0})
  unfolding release
  release_quietly r h = (ok tt, (release env r.user_data r.booking_data h).1)

  unfoldable pub revert : String → ReserveDto → M Amount (Unit {0})
  unfolding send_revert release_quietly
  revert id r = send_revert id >>= λ _. release_quietly r

  unfoldable pub or_park :
      String
      → ReserveDto
      → Passenger
      → PurchaseResult Amount
      → Result Error (Unit {0}) × List (Call Amount)
      → Result Error (Unit {0}) × List (Call Amount)
  unfolding park
  or_park id r p result (ok u, h) = (ok tt, h)
  or_park id r p result (err e, h) = park id r p result.booking_no result.ticket_no false h

  -- What the handler does with the end of `Buy`.
  unfoldable pub settle :
      String
      → ReserveDto
      → Passenger
      → Result Error (PurchaseResult Amount) × List (Call Amount)
      → Result Error (Unit {0}) × List (Call Amount)
  unfolding or_park park revert complete_with_zinc
  settle id r p (ok result, h) = or_park id r p result (complete_with_zinc id result h)
  settle id r p (err (revert_later messages), h) = revert id r h
  settle id r p (err (conflict messages), h) = park id r p "" "" true h
  settle id r p (err (purchased booking_no ticket_no cause), h) =
      park id r p booking_no ticket_no false h
  settle id r p (err e, h) = (err e, h)

  unfoldable pub buy_for : ReserveDto → Principal → M Amount (Unit {0})
  unfolding set_buying passenger_of settle buy_seat
  buy_for r b = do
    _ ← set_buying b.id
    p ← passenger_of b.passenger
    λ h. settle b.id r p (buy_seat env r.user_data r.booking_data p h)

  unfoldable pub on_reserve_reply : ReserveDto → Reply Principal → M Amount (Unit {0})
  unfolding buy_for release
  on_reserve_reply r unreached = throw unreached_zinc
  on_reserve_reply r (answered status none) =
      if status == 404 then release env r.user_data r.booking_data else throw undecodable
  on_reserve_reply r (answered status (some b)) =
      if status == 404 then release env r.user_data r.booking_data else buy_for r b

  -- `buy`.
  unfoldable pub buy : ReserveDto → M Amount (Unit {0})
  unfolding on_reserve_reply
  buy r h =
      on_reserve_reply r (env.on_reserve h r.direction r.date r.time)
        (get_reserve r.direction r.date r.time ∷ h)
